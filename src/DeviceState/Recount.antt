-- ===== src/DeviceState/Recount.antt =====
-- A write of one count of a context, with a new table of what it counts.
use virtio_accel.Prelude.{ℕ, ◌≤◌, ◌≡◌, refl, ◌⊎◌, true, [], arith, is_some, ok}
use virtio_accel.ObjectTable.{ObjectTable, get, put}
use virtio_accel.ObjectTable.Laws.{put-IsValid}
use virtio_accel.ObjectTable.View.{Same, Same-refl, Same-put}
use virtio_accel.DeviceState.Records.{
  ResourceSlot, ChildCounts, ContextRecord, BufferRecord, ProgramRecord, QueueRecord,
}
use virtio_accel.DeviceState.Graph.{DeviceState}
use virtio_accel.DeviceState.Counted.{Counted-Same}
use virtio_accel.DeviceState.Settled.{settled, AllOk-put, AllOk-get}
use virtio_accel.DeviceState.Inv.{
  Inv, children_sum, ContextsInv, BuffersInv, ProgramsInv, QueuesInv,
}
use virtio_accel.DeviceState.Rebase.{rebase_buffers, rebase_programs, rebase_queues, rebase_events}

abbrev pub with_children : {C : Type 0} → ContextRecord C → ChildCounts → ContextRecord C
with_children c children = record c { children = children }

-- A slot stays settled while its resource is held, or while the count does not grow.
settled-recount :
    {R : Type 0} (slot : ResourceSlot R) (n m : ℕ)
    → settled slot n ≡ true
    → (is_some slot.resource ≡ true) ⊎ (m ≤ n)
    → settled slot m ≡ true
unfolding settled
settled-recount slot n m h c = ground arith

module _ {C : Type 0} (contexts : ObjectTable (ContextRecord C)) (id : ℕ) (c : ContextRecord C)
    (children : ChildCounts) (found : get contexts id ≡ ok c) where
  pub recount_contexts :
      (is_some c.resource.resource ≡ true) ⊎ (children_sum children ≤ children_sum c.children)
      → ContextsInv contexts
      → ContextsInv (put contexts id (with_children c children))
  recount_contexts may v = record {
    valid = put-IsValid contexts id c (with_children c children) v.valid found;
    slots =
        AllOk-put (λ c. settled c.resource (children_sum c.children)) contexts id c
          (with_children c children) found
          (settled-recount c.resource (children_sum c.children) (children_sum children)
            (AllOk-get (λ c. settled c.resource (children_sum c.children)) contexts id c v.slots
              found)
            may)
          v.slots;
  }

  pub recount-Same :
      (g : ChildCounts → ℕ)
      → g children ≡ g c.children
      → Same (λ c. g c.children) contexts (put contexts id (with_children c children))
  recount-Same g e = Same-put (λ c. g c.children) contexts id c (with_children c children) found e

module _ {C B P Q E : Type 0} where
  pub recount_buffers :
      (s : DeviceState C B P Q E) (id : ℕ) (c : ContextRecord C) (n : ℕ)
      (xs : ObjectTable (BufferRecord B)) (retained : ℕ)
      → get s.contexts id ≡ ok c
      → (is_some c.resource.resource ≡ true)
        ⊎ (children_sum (record (c.children) { buffers = n }) ≤ children_sum c.children)
      → BuffersInv
          (put s.contexts id (with_children c (record (c.children) { buffers = n })))
          xs
          s.events
          retained
          []
      → Inv s []
      → Inv
          (record s {
            buffers = xs;
            retained = record (s.retained) { buffer_backing = retained };
            contexts = put s.contexts id (with_children c (record (c.children) { buffers = n }));
          })
          []
  recount_buffers s id c n xs retained found may built v =
      let children : ChildCounts = record (c.children) { buffers = n } in
      let same : (g : ChildCounts → ℕ)
          → g children ≡ g c.children
          → Same (λ c. g c.children) s.contexts (put s.contexts id (with_children c children)) =
        recount-Same s.contexts id c children found in
      record {
        limits = v.limits;
        contexts = recount_contexts s.contexts id c children found may v.contexts;
        buffers = built;
        programs =
            rebase_programs s.contexts _ s.events s.events [] [] s.programs _ _
              (Counted-Same _ _ s.contexts _ s.programs s.programs [] (same (λ c. c.programs) refl)
                (Same-refl _ s.programs) v.programs.kids)
              v.programs.refs v.programs;
        queues =
            rebase_queues s.contexts _ s.events s.events [] [] s.queues
              (Counted-Same _ _ s.contexts _ s.queues s.queues [] (same (λ c. c.queues) refl)
                (Same-refl _ s.queues) v.queues.kids)
              v.queues.refs v.queues;
        events =
            rebase_events s.contexts _ s.events [] []
              (Counted-Same _ _ s.contexts _ s.events s.events [] (same (λ c. c.events) refl)
                (Same-refl _ s.events) v.events.kids)
              v.events;
      }

  pub recount_programs :
      (s : DeviceState C B P Q E) (id : ℕ) (c : ContextRecord C) (n : ℕ)
      (xs : ObjectTable (ProgramRecord P)) (retained : ℕ)
      → get s.contexts id ≡ ok c
      → (is_some c.resource.resource ≡ true)
        ⊎ (children_sum (record (c.children) { programs = n }) ≤ children_sum c.children)
      → ProgramsInv
          (put s.contexts id (with_children c (record (c.children) { programs = n })))
          xs
          s.events
          retained
          s.policy.max_program_resident_bytes
          []
      → Inv s []
      → Inv
          (record s {
            programs = xs;
            retained = record (s.retained) { program_resident = retained };
            contexts = put s.contexts id (with_children c (record (c.children) { programs = n }));
          })
          []
  recount_programs s id c n xs retained found may built v =
      let children : ChildCounts = record (c.children) { programs = n } in
      let same : (g : ChildCounts → ℕ)
          → g children ≡ g c.children
          → Same (λ c. g c.children) s.contexts (put s.contexts id (with_children c children)) =
        recount-Same s.contexts id c children found in
      record {
        limits = v.limits;
        contexts = recount_contexts s.contexts id c children found may v.contexts;
        buffers =
            rebase_buffers s.contexts _ s.events s.events [] [] s.buffers _
              (Counted-Same _ _ s.contexts _ s.buffers s.buffers [] (same (λ c. c.buffers) refl)
                (Same-refl _ s.buffers) v.buffers.kids)
              v.buffers.refs v.buffers;
        programs = built;
        queues =
            rebase_queues s.contexts _ s.events s.events [] [] s.queues
              (Counted-Same _ _ s.contexts _ s.queues s.queues [] (same (λ c. c.queues) refl)
                (Same-refl _ s.queues) v.queues.kids)
              v.queues.refs v.queues;
        events =
            rebase_events s.contexts _ s.events [] []
              (Counted-Same _ _ s.contexts _ s.events s.events [] (same (λ c. c.events) refl)
                (Same-refl _ s.events) v.events.kids)
              v.events;
      }

  pub recount_queues :
      (s : DeviceState C B P Q E) (id : ℕ) (c : ContextRecord C) (n : ℕ)
      (xs : ObjectTable (QueueRecord Q))
      → get s.contexts id ≡ ok c
      → (is_some c.resource.resource ≡ true)
        ⊎ (children_sum (record (c.children) { queues = n }) ≤ children_sum c.children)
      → QueuesInv
          (put s.contexts id (with_children c (record (c.children) { queues = n })))
          xs
          s.events
          []
      → Inv s []
      → Inv
          (record s {
            queues = xs;
            contexts = put s.contexts id (with_children c (record (c.children) { queues = n }));
          })
          []
  recount_queues s id c n xs found may built v =
      let children : ChildCounts = record (c.children) { queues = n } in
      let same : (g : ChildCounts → ℕ)
          → g children ≡ g c.children
          → Same (λ c. g c.children) s.contexts (put s.contexts id (with_children c children)) =
        recount-Same s.contexts id c children found in
      record {
        limits = v.limits;
        contexts = recount_contexts s.contexts id c children found may v.contexts;
        buffers =
            rebase_buffers s.contexts _ s.events s.events [] [] s.buffers _
              (Counted-Same _ _ s.contexts _ s.buffers s.buffers [] (same (λ c. c.buffers) refl)
                (Same-refl _ s.buffers) v.buffers.kids)
              v.buffers.refs v.buffers;
        programs =
            rebase_programs s.contexts _ s.events s.events [] [] s.programs _ _
              (Counted-Same _ _ s.contexts _ s.programs s.programs [] (same (λ c. c.programs) refl)
                (Same-refl _ s.programs) v.programs.kids)
              v.programs.refs v.programs;
        queues = built;
        events =
            rebase_events s.contexts _ s.events [] []
              (Counted-Same _ _ s.contexts _ s.events s.events [] (same (λ c. c.events) refl)
                (Same-refl _ s.events) v.events.kids)
              v.events;
      }
