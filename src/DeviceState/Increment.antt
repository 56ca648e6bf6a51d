-- ===== src/DeviceState/Increment.antt =====
-- Counting the references of an event, and taking them back: both end without an error, and keep
-- the invariant with the event pending.
use virtio_accel.Prelude.{
  ℕ, ◌+◌, ◌<◌, ◌≤◌, ◌≡◌, refl, ap, ◌∙◌, ◌⊎◌, inl, true, some, List, [], ◌∷◌, arith, is_some, is_ok,
  ok, u32_mod, add_u32,
}
use virtio_accel.ObjectTable.{ObjectTable, get, put, remove}
use virtio_accel.ObjectTable.View.{view-ok, Same, Same-refl, Same-put}
use virtio_accel.DeviceState.Records.{
  ChildCounts, ContextRecord, BufferRecord, ProgramRecord, QueueRecord,
}
use virtio_accel.DeviceState.Graph.{DeviceState, find}
use virtio_accel.DeviceState.References.{
  count, change_all, retain_buffer, retain_program, retain_queue, add_event,
  increment_event_references, change_references,
}
use virtio_accel.DeviceState.Counted.{Counted-Same, Counted-await, Counted-leave, Counted-pos}
use virtio_accel.DeviceState.Referenced.{EventRefs}
use virtio_accel.DeviceState.Settled.{settled, AllOk-get}
use virtio_accel.DeviceState.Change.{Changed, Resolve, change_all-Changed, change_all-Same}
use virtio_accel.DeviceState.Checks.{LiveBuffer, LiveProgram}
use virtio_accel.DeviceState.Rebase.{rebase_buffers, rebase_programs, rebase_queues}
use virtio_accel.DeviceState.Recount.{with_children, recount_contexts, recount-Same}
use virtio_accel.DeviceState.Raised.{raise_buffers, raise_programs, raise_queues}
use virtio_accel.DeviceState.Inv.{
  Inv, LimitsOk, children_sum, ContextsInv, BuffersInv, ProgramsInv, QueuesInv, EventsInv,
}

-- What has been checked of a submission before its references are counted.
pub record Countable {C B P Q E : Type 0} (s : DeviceState C B P Q E) (e : EventRefs) : Type 0 where
  pub queue : QueueRecord Q
  pub queue_found : get s.queues e.queue_id ≡ ok queue
  pub queue_held : is_some queue.resource.resource ≡ true
  pub queue_owner : queue.context_id ≡ e.context_id
  pub queue_room : queue.in_flight + 1 < u32_mod
  pub programs : (k : ℕ) → 0 < count k e.programs → LiveProgram s e.context_id k
  pub program_room :
      (k : ℕ) (r : ProgramRecord P)
      → 0 < count k e.programs
      → get s.programs k ≡ ok r
      → r.in_flight + count k e.programs < u32_mod
  pub buffers : (k : ℕ) → 0 < count k e.buffers → LiveBuffer s e.context_id k
  pub buffer_room :
      (k : ℕ) (r : BufferRecord B)
      → 0 < count k e.buffers
      → get s.buffers k ≡ ok r
      → r.in_flight + count k e.buffers < u32_mod
  pub context : ContextRecord C
  pub context_found : get s.contexts e.context_id ≡ ok context
  pub context_room : context.children.events + 1 < u32_mod

-- A write to one record is a loop over one ID.
pub single :
    {T : Type 0} (f : T → T) (t : ObjectTable T) (id : ℕ) (r : T)
    → get t id ≡ ok r
    → Changed f (id ∷ []) t (put t id (f r))
unfolding change_all find count
single f t id r found =
    let there : Resolve t (id ∷ []) = λ k p. ground (arith, found) in
    let h = (change_all-Changed f t (id ∷ []) there).1 in rw (found, change_all, find) at h

module _ {C B P Q E : Type 0} where
  -- The context's count of events is written last.
  pub assemble :
      (s : DeviceState C B P Q E) (id : ℕ) (c : ContextRecord C) (n : ℕ) (pending : List EventRefs)
      → get s.contexts id ≡ ok c
      → (is_some c.resource.resource ≡ true)
        ⊎ (children_sum (record (c.children) { events = n }) ≤ children_sum c.children)
      → LimitsOk s.limits s.policy
      → ContextsInv s.contexts
      → BuffersInv s.contexts s.buffers s.events s.retained.buffer_backing pending
      → ProgramsInv s.contexts s.programs s.events s.retained.program_resident
          s.policy.max_program_resident_bytes pending
      → QueuesInv s.contexts s.queues s.events pending
      → EventsInv
          (put s.contexts id (with_children c (record (c.children) { events = n })))
          s.events
          pending
      → Inv
          (record s {
            contexts = put s.contexts id (with_children c (record (c.children) { events = n }));
          })
          pending
  assemble s id c n pending found may limits contexts buffers programs queues events =
      let children : ChildCounts = record (c.children) { events = n } in
      let same : (g : ChildCounts → ℕ)
          → g children ≡ g c.children
          → Same (λ c. g c.children) s.contexts (put s.contexts id (with_children c children)) =
        recount-Same s.contexts id c children found in
      record {
        limits = limits;
        contexts = recount_contexts s.contexts id c children found may contexts;
        buffers =
            rebase_buffers s.contexts _ s.events s.events pending pending s.buffers _
              (Counted-Same _ _ s.contexts _ s.buffers s.buffers [] (same (λ c. c.buffers) refl)
                (Same-refl _ s.buffers) buffers.kids)
              buffers.refs buffers;
        programs =
            rebase_programs s.contexts _ s.events s.events pending pending s.programs _ _
              (Counted-Same _ _ s.contexts _ s.programs s.programs [] (same (λ c. c.programs) refl)
                (Same-refl _ s.programs) programs.kids)
              programs.refs programs;
        queues =
            rebase_queues s.contexts _ s.events s.events pending pending s.queues
              (Counted-Same _ _ s.contexts _ s.queues s.queues [] (same (λ c. c.queues) refl)
                (Same-refl _ s.queues) queues.kids)
              queues.refs queues;
        events = events;
      }

  -- A context that has a queue holds its resource.
  owner_held :
      (s : DeviceState C B P Q E) (e : EventRefs) (h : Countable s e)
      → Inv s []
      → is_some h.context.resource.resource ≡ true
  unfolding settled
  owner_held s e h v =
      let left =
        Counted-leave (λ c. c.children.queues) (λ q. q.context_id) s.contexts s.queues e.queue_id
          h.queue [] h.queue_found v.queues.kids in
      let owner : get s.contexts h.queue.context_id ≡ ok h.context =
        ap (get s.contexts) h.queue_owner ∙ h.context_found in
      let (positive, fits) =
        Counted-pos (λ c. c.children.queues) (λ q. q.context_id) s.contexts h.queue.context_id
          h.context (remove s.queues e.queue_id).0 [] owner left in
      ground (
        arith,
        positive,
        AllOk-get (λ c. settled c.resource (children_sum c.children)) s.contexts e.context_id
            h.context v.contexts.slots h.context_found,
      )

  -- For a checked submission in a state with the invariant, counting its references ends without an
  -- error, and the counts then account for the pending event as well.
  pub increment-Inv :
      (s : DeviceState C B P Q E) (e : EventRefs)
      → Countable s e
      → Inv s []
      → ((increment_event_references s e.context_id e.queue_id e.programs e.buffers).1 ≡ ok tt)
        × Inv (increment_event_references s e.context_id e.queue_id e.programs e.buffers).0 (e ∷ [])
  unfolding increment_event_references change_references find retain_queue retain_program
      retain_buffer add_event count
  increment-Inv s e h v =
      let qs : ObjectTable (QueueRecord Q) = put s.queues e.queue_id (retain_queue h.queue) in
      let (programs_done, programs_changed) =
        change_all-Changed retain_program s.programs e.programs
          (λ k p. let (r, found, _, _) = h.programs k p in ap is_ok found) in
      let (buffers_done, buffers_changed) =
        change_all-Changed retain_buffer s.buffers e.buffers
          (λ k p. let (r, found, _, _) = h.buffers k p in ap is_ok found) in
      let n : ℕ = add_u32 h.context.children.events 1 in
      let up : n ≡ h.context.children.events + 1 = omega (arith, h.context_room) in
      let c' : ContextRecord C =
        with_children h.context (record (h.context.children) { events = n }) in
      let queues =
        raise_queues s.contexts s.queues qs s.events e []
          (single retain_queue s.queues e.queue_id h.queue h.queue_found)
          (λ g keeps.
            Same-put g s.queues e.queue_id h.queue (retain_queue h.queue) h.queue_found
              (keeps h.queue))
          (λ k r p found. ground (arith, found, h.queue_found, h.queue_room, h.queue_held))
          (λ k p. ground (
            arith,
            view-ok (λ q. q.context_id) s.queues e.queue_id h.queue h.queue_found,
            h.queue_owner,
          ))
          v.queues in
      let programs =
        raise_programs s.contexts s.programs (change_all retain_program s.programs e.programs).0
          s.events _ _ e [] programs_changed
          (λ g keeps. change_all-Same g retain_program keeps s.programs e.programs)
          (λ k r p found.
            let (r', there, held, _) = h.programs k p in
            (h.program_room k r p found, ground (arith, found, there, held)))
          (λ k p.
            let (r, there, _, owner) = h.programs k p in
            view-ok (λ p. p.context_id) s.programs k r there ∙ ap some owner)
          v.programs in
      let buffers =
        raise_buffers s.contexts s.buffers (change_all retain_buffer s.buffers e.buffers).0 s.events
          _ e [] buffers_changed
          (λ g keeps. change_all-Same g retain_buffer keeps s.buffers e.buffers)
          (λ k r p found.
            let (r', there, held, _) = h.buffers k p in
            (h.buffer_room k r p found, ground (arith, found, there, held)))
          (λ k p.
            let (r, there, _, owner) = h.buffers k p in
            view-ok (λ p. p.context_id) s.buffers k r there ∙ ap some owner)
          v.buffers in
      let events : EventsInv (put s.contexts e.context_id c') s.events (e ∷ []) = record {
        valid = v.events.valid;
        kids =
            Counted-await (λ c. c.children.events) (λ x. x.context_id) s.contexts e.context_id
              h.context c' s.events [] h.context_found up h.context_room v.events.kids;
        slots = v.events.slots;
        programmed = v.events.programmed;
      } in
      let s3 : DeviceState C B P Q E = record s {
        queues = qs;
        programs = (change_all retain_program s.programs e.programs).0;
        buffers = (change_all retain_buffer s.buffers e.buffers).0;
      } in
      rw
        (
          h.queue_found, programs_done, buffers_done, h.context_found, increment_event_references,
          change_references, find,
        )
        (
          refl,
          assemble s3 e.context_id h.context n (e ∷ []) h.context_found (inl (owner_held s e h v))
              v.limits v.contexts buffers programs queues events,
        )
