-- ===== src/DeviceState/Pending.antt =====
-- A pending event: what it refers to is live, its references can be taken back, and it can enter the
-- table or leave it.
use virtio_accel.Prelude.{
  ℕ, ◌+◌, ◌<◌, ◌≡◌, refl, ap, inl, inr, true, [], ◌∷◌, arith, is_some, is_ok, ok, sub_u32,
}
use virtio_accel.ObjectTable.{ObjectTable, get, put, remove}
use virtio_accel.ObjectTable.View.{view, view-ok, view-some, Same-put}
use virtio_accel.DeviceState.Records.{ContextRecord, QueueRecord, EventRecord}
use virtio_accel.DeviceState.Graph.{DeviceState, find}
use virtio_accel.DeviceState.References.{
  change_all, release_buffer, release_program, release_queue, drop_event,
  decrement_event_references, change_references,
}
use virtio_accel.DeviceState.Counted.{Counted-forget, Counted-leave, Counted-pos}
use virtio_accel.DeviceState.Referenced.{EventRefs}
use virtio_accel.DeviceState.Settled.{settled, AllOk-get}
use virtio_accel.DeviceState.Change.{change_all-Changed, change_all-Same}
use virtio_accel.DeviceState.Departure.{sub_u32_lem}
use virtio_accel.DeviceState.Rebase.{rebase_buffers, rebase_programs, rebase_queues}
use virtio_accel.DeviceState.Recount.{with_children}
use virtio_accel.DeviceState.Raised.{lower_buffers, lower_programs, lower_queues}
use virtio_accel.DeviceState.Inv.{Inv, uses_buffer, uses_program, uses_queue, EventsInv}
use virtio_accel.DeviceState.Increment.{single, assemble}
use virtio_accel.DeviceState.Referenced.{Referenced-ge, Referenced-enter, Referenced-leave, refs_of}
use virtio_accel.DeviceState.Counted.{Counted-enter}
use virtio_accel.DeviceState.Settled.{AllOk-insert, AllOk-remove}
use virtio_accel.DeviceState.Records.{ResourceSlot}
use virtio_accel.DeviceState.Inv.{has_program}
use virtio_accel.ObjectTable.{insert_prepared}
use virtio_accel.ObjectTable.Preserve.{HasRoom, insert_prepared-IsValid}
use virtio_accel.ObjectTable.Insert.{insert_prepared-Inserted}
use virtio_accel.ObjectTable.Laws.{remove-IsValid}
use virtio_accel.Prelude.{Option-cases}

-- What is referred to is held.
pub used_held :
    {R : Type 0} (slot : ResourceSlot R) (n : ℕ)
    → settled slot n ≡ true
    → 0 < n
    → is_some slot.resource ≡ true
unfolding settled
used_held slot n h p = ground arith

module _ {C B P Q E : Type 0} (s : DeviceState C B P Q E) (e : EventRefs) (v : Inv s (e ∷ [])) where
  abbrev pub Held : {X R : Type 0} → ObjectTable X → (X → ResourceSlot R) → (X → ℕ) → ℕ → Type 0
  Held {X} xs slot owner k =
      (x : X) × (get xs k ≡ ok x) × (is_some (slot x).resource ≡ true) × (owner x ≡ e.context_id)

  pub pending_buffer :
      (k : ℕ) → 0 < uses_buffer e k → Held s.buffers (λ x. x.resource) (λ x. x.context_id) k
  pending_buffer k p =
      let (x, found, owner) =
        view-some (λ x. x.context_id) s.buffers k e.context_id (v.buffers.refs.awaited.0 k p) in
      let (enough, _) =
        Referenced-ge (λ x. x.in_flight) (λ x. x.context_id) uses_buffer s.buffers s.events e [] k
          x.in_flight v.buffers.refs (view-ok (λ x. x.in_flight) s.buffers k x found) in
      (
        x,
        found,
        used_held x.resource x.in_flight
            (AllOk-get (λ x. settled x.resource x.in_flight) s.buffers k x v.buffers.slots found)
            (omega (arith, enough, p)),
        owner,
      )

  pub pending_program :
      (k : ℕ) → 0 < uses_program e k → Held s.programs (λ x. x.resource) (λ x. x.context_id) k
  pending_program k p =
      let (x, found, owner) =
        view-some (λ x. x.context_id) s.programs k e.context_id (v.programs.refs.awaited.0 k p) in
      let (enough, _) =
        Referenced-ge (λ x. x.in_flight) (λ x. x.context_id) uses_program s.programs s.events e [] k
          x.in_flight v.programs.refs (view-ok (λ x. x.in_flight) s.programs k x found) in
      (
        x,
        found,
        used_held x.resource x.in_flight
            (AllOk-get (λ x. settled x.resource x.in_flight) s.programs k x v.programs.slots found)
            (omega (arith, enough, p)),
        owner,
      )

  pub pending_queue :
      (k : ℕ) → 0 < uses_queue e k → Held s.queues (λ x. x.resource) (λ x. x.context_id) k
  pending_queue k p =
      let (x, found, owner) =
        view-some (λ x. x.context_id) s.queues k e.context_id (v.queues.refs.awaited.0 k p) in
      let (enough, _) =
        Referenced-ge (λ x. x.in_flight) (λ x. x.context_id) uses_queue s.queues s.events e [] k
          x.in_flight v.queues.refs (view-ok (λ x. x.in_flight) s.queues k x found) in
      (
        x,
        found,
        used_held x.resource x.in_flight
            (AllOk-get (λ x. settled x.resource x.in_flight) s.queues k x v.queues.slots found)
            (omega (arith, enough, p)),
        owner,
      )

  pub pending_context : (c : ContextRecord C) × (get s.contexts e.context_id ≡ ok c)
  pending_context = elim (Option-cases (view (λ c. c.children.events) s.contexts e.context_id)) [
    | inl gone ↦ absurd (ground (arith, v.events.kids.awaited.0))
    | inr (n, there) ↦
        let (c, found, _) = view-some (λ c. c.children.events) s.contexts e.context_id n there in
        (c, found)
  ]

  -- In a state whose counts account for a pending event, taking its references back ends without an
  -- error and restores the invariant.
  pub decrement-Inv :
      ((decrement_event_references s e.context_id e.queue_id e.programs e.buffers).1 ≡ ok tt)
      × Inv (decrement_event_references s e.context_id e.queue_id e.programs e.buffers).0 []
  unfolding decrement_event_references change_references find release_queue release_program
      release_buffer drop_event
  decrement-Inv =
      let (q, q_found, _, _) = pending_queue e.queue_id (ground arith) in
      let qs : ObjectTable (QueueRecord Q) = put s.queues e.queue_id (release_queue q) in
      let (programs_done, programs_changed) =
        change_all-Changed release_program s.programs e.programs
          (λ k p. let (r, found, _, _) = pending_program k p in ap is_ok found) in
      let (buffers_done, buffers_changed) =
        change_all-Changed release_buffer s.buffers e.buffers
          (λ k p. let (r, found, _, _) = pending_buffer k p in ap is_ok found) in
      let (c, c_found) = pending_context in
      let n : ℕ = sub_u32 c.children.events 1 in
      let (positive, fits) =
        Counted-pos (λ c. c.children.events) (λ x. x.context_id) s.contexts e.context_id c s.events
          [] c_found v.events.kids in
      let down : n + 1 ≡ c.children.events = sub_u32_lem c.children.events positive fits in
      let c' : ContextRecord C = with_children c (record (c.children) { events = n }) in
      let queues =
        lower_queues s.contexts s.queues qs s.events e []
          (single release_queue s.queues e.queue_id q q_found)
          (λ g keeps. Same-put g s.queues e.queue_id q (release_queue q) q_found (keeps q))
          v.queues in
      let programs =
        lower_programs s.contexts s.programs (change_all release_program s.programs e.programs).0
          s.events _ _ e [] programs_changed
          (λ g keeps. change_all-Same g release_program keeps s.programs e.programs) v.programs in
      let buffers =
        lower_buffers s.contexts s.buffers (change_all release_buffer s.buffers e.buffers).0
          s.events _ e [] buffers_changed
          (λ g keeps. change_all-Same g release_buffer keeps s.buffers e.buffers) v.buffers in
      let events : EventsInv (put s.contexts e.context_id c') s.events [] = record {
        valid = v.events.valid;
        kids =
            Counted-forget (λ c. c.children.events) (λ x. x.context_id) s.contexts e.context_id c c'
              s.events [] c_found down v.events.kids;
        slots = v.events.slots;
        programmed = v.events.programmed;
      } in
      let s3 : DeviceState C B P Q E = record s {
        queues = qs;
        programs = (change_all release_program s.programs e.programs).0;
        buffers = (change_all release_buffer s.buffers e.buffers).0;
      } in
      rw
        (
          q_found, programs_done, buffers_done, c_found, decrement_event_references,
          change_references, find,
        )
        (
          refl,
          assemble s3 e.context_id c n [] c_found (inr (omega (arith, down))) v.limits v.contexts
              buffers programs queues events,
        )

module _ {C B P Q E : Type 0} where
  -- A pending event enters the table.
  pub enter-Inv :
      (s : DeviceState C B P Q E) (x : EventRecord E)
      → HasRoom s.events
      → settled x.resource 0 ≡ true
      → has_program x ≡ true
      → Inv s (refs_of x ∷ [])
      → Inv (record s { events = (insert_prepared s.events x).0 }) []
  unfolding refs_of
  enter-Inv s x room good named v =
      let i = insert_prepared-Inserted s.events x v.events.valid room in
      record {
        limits = v.limits;
        contexts = v.contexts;
        buffers =
            rebase_buffers s.contexts s.contexts s.events _ (refs_of x ∷ []) [] s.buffers _
              v.buffers.kids
              (Referenced-enter _ _ uses_buffer s.buffers s.events _ _ x [] i v.buffers.refs)
              v.buffers;
        programs =
            rebase_programs s.contexts s.contexts s.events _ (refs_of x ∷ []) [] s.programs _ _
              v.programs.kids
              (Referenced-enter _ _ uses_program s.programs s.events _ _ x [] i v.programs.refs)
              v.programs;
        queues =
            rebase_queues s.contexts s.contexts s.events _ (refs_of x ∷ []) [] s.queues
              v.queues.kids
              (Referenced-enter _ _ uses_queue s.queues s.events _ _ x [] i v.queues.refs) v.queues;
        events = record {
          valid = insert_prepared-IsValid s.events x v.events.valid room;
          kids = Counted-enter _ _ s.contexts s.events _ _ x [] i v.events.kids;
          slots = AllOk-insert (λ e. settled e.resource 0) s.events _ _ x i good v.events.slots;
          programmed = AllOk-insert has_program s.events _ _ x i named v.events.programmed;
        };
      }

  -- An event leaves the table, and its references stay.
  pub leave-Inv :
      (s : DeviceState C B P Q E) (id : ℕ) (x : EventRecord E)
      → get s.events id ≡ ok x
      → Inv s []
      → Inv (record s { events = (remove s.events id).0 }) (refs_of x ∷ [])
  unfolding refs_of
  leave-Inv s id x found v = record {
    limits = v.limits;
    contexts = v.contexts;
    buffers =
        rebase_buffers s.contexts s.contexts s.events _ [] (refs_of x ∷ []) s.buffers _
          v.buffers.kids
          (Referenced-leave _ _ uses_buffer s.buffers s.events id x [] found v.buffers.refs)
          v.buffers;
    programs =
        rebase_programs s.contexts s.contexts s.events _ [] (refs_of x ∷ []) s.programs _ _
          v.programs.kids
          (Referenced-leave _ _ uses_program s.programs s.events id x [] found v.programs.refs)
          v.programs;
    queues =
        rebase_queues s.contexts s.contexts s.events _ [] (refs_of x ∷ []) s.queues v.queues.kids
          (Referenced-leave _ _ uses_queue s.queues s.events id x [] found v.queues.refs) v.queues;
    events = record {
      valid = remove-IsValid s.events id x v.events.valid found;
      kids = Counted-leave _ _ s.contexts s.events id x [] found v.events.kids;
      slots = AllOk-remove _ s.events id x found v.events.slots;
      programmed = AllOk-remove has_program s.events id x found v.events.programmed;
    };
  }
