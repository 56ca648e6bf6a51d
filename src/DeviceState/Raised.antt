-- ===== src/DeviceState/Raised.antt =====
-- The tables whose records a submission counts references on keep their invariants, with the event
-- pending: when the counts go up, and when they go down.
use virtio_accel.Prelude.{ℕ, ◌<◌, ◌≡◌, refl, some, List, [], ◌∷◌, arith}
use virtio_accel.ObjectTable.{ObjectTable}
use virtio_accel.ObjectTable.View.{view, Same, Same-refl}
use virtio_accel.DeviceState.Records.{
  ContextRecord, BufferRecord, ProgramRecord, QueueRecord, EventRecord,
}
use virtio_accel.DeviceState.References.{
  count, retain_buffer, release_buffer, retain_program, release_program, retain_queue,
  release_queue,
}
use virtio_accel.DeviceState.Counted.{Counted-Same}
use virtio_accel.DeviceState.Referenced.{EventRefs}
use virtio_accel.DeviceState.Change.{Changed}
use virtio_accel.DeviceState.Raise.{
  MayRaise, raised, AllOk-raised, AllOk-lowered, Referenced-raised, Referenced-lowered, lowered-le,
}
use virtio_accel.DeviceState.Inv.{
  uses_buffer, uses_program, uses_queue, backing_bytes, backing_excess, BuffersInv, ProgramsInv,
  QueuesInv,
}

module _ {C B E : Type 0} (contexts : ObjectTable (ContextRecord C))
    (xs ys : ObjectTable (BufferRecord B)) (events : ObjectTable (EventRecord E)) (backing : ℕ)
    (e : EventRefs) (pending : List EventRefs)
    (changed : Changed (retain_buffer {B = B}) e.buffers xs ys)
    (seen : (g : BufferRecord B → ℕ)
      → ((x : BufferRecord B) → g (retain_buffer x) ≡ g x)
      → Same g xs ys) where
  pub raise_buffers :
      MayRaise (λ x. x.in_flight) (λ x. x.resource) e.buffers xs
      → ((k : ℕ) → 0 < count k e.buffers → view (λ x. x.context_id) xs k ≡ some e.context_id)
      → BuffersInv contexts xs events backing pending
      → BuffersInv contexts ys events backing (e ∷ pending)
  unfolding retain_buffer count
  raise_buffers may named v = record {
    valid = changed.valid v.valid;
    kids =
        Counted-Same _ _ contexts contexts xs ys [] (Same-refl _ contexts)
          (seen (λ x. x.context_id) λ x. refl) v.kids;
    refs =
        Referenced-raised (λ x. x.in_flight) (λ x. x.context_id) retain_buffer uses_buffer e pending
          e.buffers (λ k. refl) xs ys events changed (seen (λ x. x.context_id) λ x. refl)
          (raised (λ x. x.in_flight) (λ x. x.context_id) (λ x. x.resource) retain_buffer (λ x. refl)
            e.buffers xs ys changed (λ x. refl) may)
          named v.refs;
    slots =
        AllOk-raised (λ x. x.in_flight) (λ x. x.context_id) (λ x. x.resource) retain_buffer
          (λ x. refl) e.buffers xs ys changed (λ x. refl) may v.slots;
    charged = omega (arith, v.charged, (seen backing_bytes λ x. refl).totals (λ n. n));
    words = omega (arith, v.words, (seen backing_excess λ x. refl).totals (λ n. n));
  }

module _ {C B E : Type 0} (contexts : ObjectTable (ContextRecord C))
    (xs ys : ObjectTable (BufferRecord B)) (events : ObjectTable (EventRecord E)) (backing : ℕ)
    (e : EventRefs) (pending : List EventRefs)
    (changed : Changed (release_buffer {B = B}) e.buffers xs ys)
    (seen : (g : BufferRecord B → ℕ)
      → ((x : BufferRecord B) → g (release_buffer x) ≡ g x)
      → Same g xs ys) where
  pub lower_buffers :
      BuffersInv contexts xs events backing (e ∷ pending)
      → BuffersInv contexts ys events backing pending
  unfolding release_buffer count
  lower_buffers v = record {
    valid = changed.valid v.valid;
    kids =
        Counted-Same _ _ contexts contexts xs ys [] (Same-refl _ contexts)
          (seen (λ x. x.context_id) λ x. refl) v.kids;
    refs =
        Referenced-lowered (λ x. x.in_flight) (λ x. x.context_id) release_buffer uses_buffer e
          pending e.buffers (λ k. refl) xs ys events changed (seen (λ x. x.context_id) λ x. refl)
          (λ x. refl) v.refs;
    slots =
        AllOk-lowered (λ x. x.in_flight) (λ x. x.context_id) (λ x. x.resource) release_buffer
          (λ x. refl) e.buffers xs ys changed
          (lowered-le (λ x. x.in_flight) (λ x. x.context_id) release_buffer uses_buffer e pending
            e.buffers (λ k. refl) xs ys events changed (seen (λ x. x.context_id) λ x. refl)
            (λ x. refl) v.refs)
          v.slots;
    charged = omega (arith, v.charged, (seen backing_bytes λ x. refl).totals (λ n. n));
    words = omega (arith, v.words, (seen backing_excess λ x. refl).totals (λ n. n));
  }

module _ {C P E : Type 0} (contexts : ObjectTable (ContextRecord C))
    (xs ys : ObjectTable (ProgramRecord P)) (events : ObjectTable (EventRecord E))
    (resident limit : ℕ) (e : EventRefs) (pending : List EventRefs)
    (changed : Changed (retain_program {P = P}) e.programs xs ys)
    (seen : (g : ProgramRecord P → ℕ)
      → ((x : ProgramRecord P) → g (retain_program x) ≡ g x)
      → Same g xs ys) where
  pub raise_programs :
      MayRaise (λ x. x.in_flight) (λ x. x.resource) e.programs xs
      → ((k : ℕ) → 0 < count k e.programs → view (λ x. x.context_id) xs k ≡ some e.context_id)
      → ProgramsInv contexts xs events resident limit pending
      → ProgramsInv contexts ys events resident limit (e ∷ pending)
  unfolding retain_program count
  raise_programs may named v = record {
    valid = changed.valid v.valid;
    kids =
        Counted-Same _ _ contexts contexts xs ys [] (Same-refl _ contexts)
          (seen (λ x. x.context_id) λ x. refl) v.kids;
    refs =
        Referenced-raised (λ x. x.in_flight) (λ x. x.context_id) retain_program uses_program e
          pending e.programs (λ k. refl) xs ys events changed (seen (λ x. x.context_id) λ x. refl)
          (raised (λ x. x.in_flight) (λ x. x.context_id) (λ x. x.resource) retain_program
            (λ x. refl) e.programs xs ys changed (λ x. refl) may)
          named v.refs;
    slots =
        AllOk-raised (λ x. x.in_flight) (λ x. x.context_id) (λ x. x.resource) retain_program
          (λ x. refl) e.programs xs ys changed (λ x. refl) may v.slots;
    charged = omega (arith, v.charged, (seen (λ p. p.resident_bytes) λ x. refl).totals (λ n. n));
    within = v.within;
  }

module _ {C P E : Type 0} (contexts : ObjectTable (ContextRecord C))
    (xs ys : ObjectTable (ProgramRecord P)) (events : ObjectTable (EventRecord E))
    (resident limit : ℕ) (e : EventRefs) (pending : List EventRefs)
    (changed : Changed (release_program {P = P}) e.programs xs ys)
    (seen : (g : ProgramRecord P → ℕ)
      → ((x : ProgramRecord P) → g (release_program x) ≡ g x)
      → Same g xs ys) where
  pub lower_programs :
      ProgramsInv contexts xs events resident limit (e ∷ pending)
      → ProgramsInv contexts ys events resident limit pending
  unfolding release_program count
  lower_programs v = record {
    valid = changed.valid v.valid;
    kids =
        Counted-Same _ _ contexts contexts xs ys [] (Same-refl _ contexts)
          (seen (λ x. x.context_id) λ x. refl) v.kids;
    refs =
        Referenced-lowered (λ x. x.in_flight) (λ x. x.context_id) release_program uses_program e
          pending e.programs (λ k. refl) xs ys events changed (seen (λ x. x.context_id) λ x. refl)
          (λ x. refl) v.refs;
    slots =
        AllOk-lowered (λ x. x.in_flight) (λ x. x.context_id) (λ x. x.resource) release_program
          (λ x. refl) e.programs xs ys changed
          (lowered-le (λ x. x.in_flight) (λ x. x.context_id) release_program uses_program e pending
            e.programs (λ k. refl) xs ys events changed (seen (λ x. x.context_id) λ x. refl)
            (λ x. refl) v.refs)
          v.slots;
    charged = omega (arith, v.charged, (seen (λ p. p.resident_bytes) λ x. refl).totals (λ n. n));
    within = v.within;
  }

module _ {C Q E : Type 0} (contexts : ObjectTable (ContextRecord C))
    (xs ys : ObjectTable (QueueRecord Q)) (events : ObjectTable (EventRecord E)) (e : EventRefs)
    (pending : List EventRefs) (changed : Changed (retain_queue {Q = Q}) (e.queue_id ∷ []) xs ys)
    (seen : (g : QueueRecord Q → ℕ)
      → ((x : QueueRecord Q) → g (retain_queue x) ≡ g x)
      → Same g xs ys) where
  pub raise_queues :
      MayRaise (λ x. x.in_flight) (λ x. x.resource) (e.queue_id ∷ []) xs
      → ((k : ℕ)
          → 0 < count k (e.queue_id ∷ [])
          → view (λ x. x.context_id) xs k ≡ some e.context_id)
      → QueuesInv contexts xs events pending
      → QueuesInv contexts ys events (e ∷ pending)
  unfolding retain_queue count
  raise_queues may named v = record {
    valid = changed.valid v.valid;
    kids =
        Counted-Same _ _ contexts contexts xs ys [] (Same-refl _ contexts)
          (seen (λ x. x.context_id) λ x. refl) v.kids;
    refs =
        Referenced-raised (λ x. x.in_flight) (λ x. x.context_id) retain_queue uses_queue e pending
          (e.queue_id ∷ []) (λ k. ground arith) xs ys events changed
          (seen (λ x. x.context_id) λ x. refl)
          (raised (λ x. x.in_flight) (λ x. x.context_id) (λ x. x.resource) retain_queue (λ x. refl)
            (e.queue_id ∷ []) xs ys changed (λ x. refl) may)
          named v.refs;
    slots =
        AllOk-raised (λ x. x.in_flight) (λ x. x.context_id) (λ x. x.resource) retain_queue
          (λ x. refl) (e.queue_id ∷ []) xs ys changed (λ x. refl) may v.slots;
  }

module _ {C Q E : Type 0} (contexts : ObjectTable (ContextRecord C))
    (xs ys : ObjectTable (QueueRecord Q)) (events : ObjectTable (EventRecord E)) (e : EventRefs)
    (pending : List EventRefs) (changed : Changed (release_queue {Q = Q}) (e.queue_id ∷ []) xs ys)
    (seen : (g : QueueRecord Q → ℕ)
      → ((x : QueueRecord Q) → g (release_queue x) ≡ g x)
      → Same g xs ys) where
  pub lower_queues :
      QueuesInv contexts xs events (e ∷ pending) → QueuesInv contexts ys events pending
  unfolding release_queue count
  lower_queues v = record {
    valid = changed.valid v.valid;
    kids =
        Counted-Same _ _ contexts contexts xs ys [] (Same-refl _ contexts)
          (seen (λ x. x.context_id) λ x. refl) v.kids;
    refs =
        Referenced-lowered (λ x. x.in_flight) (λ x. x.context_id) release_queue uses_queue e pending
          (e.queue_id ∷ []) (λ k. ground arith) xs ys events changed
          (seen (λ x. x.context_id) λ x. refl) (λ x. refl) v.refs;
    slots =
        AllOk-lowered (λ x. x.in_flight) (λ x. x.context_id) (λ x. x.resource) release_queue
          (λ x. refl) (e.queue_id ∷ []) xs ys changed
          (lowered-le (λ x. x.in_flight) (λ x. x.context_id) release_queue uses_queue e pending
            (e.queue_id ∷ []) (λ k. ground arith) xs ys events changed
            (seen (λ x. x.context_id) λ x. refl) (λ x. refl) v.refs)
          v.slots;
  }
