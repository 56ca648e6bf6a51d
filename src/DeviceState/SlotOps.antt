-- ===== src/DeviceState/SlotOps.antt =====
-- Beginning a release and restoring it keep the invariant of the device state.
use virtio_accel.Prelude.{
  ℕ, ◌≡◌, refl, ap, true, [], arith, inl, inr, ok, Result-cases, Bool-cases, ◌==◌,
}
use virtio_accel.ObjectTable.{get, put}
use virtio_accel.ObjectTable.View.{Same, Same-refl}
use virtio_accel.DeviceState.Records.{
  ResourceSlot, ChildCounts, ContextRecord, BufferRecord, ProgramRecord, QueueRecord, EventRecord,
  no_children,
}
use virtio_accel.DeviceState.Graph.{DeviceState, find}
use virtio_accel.DeviceState.Counted.{Counted-Same}
use virtio_accel.DeviceState.Referenced.{refs_of, Referenced-Same}
use virtio_accel.DeviceState.Settled.{settled}
use virtio_accel.DeviceState.Release.{
  context_slot, buffer_slot, program_slot, queue_slot, event_slot, begin_context_release,
  restore_context_release, begin_buffer_release, restore_buffer_release, begin_program_release,
  restore_program_release, begin_queue_release, restore_queue_release, begin_event_release,
  restore_event_release,
}
use virtio_accel.DeviceState.Inv.{Inv, uses_buffer, uses_program, uses_queue, children_sum}
use virtio_accel.DeviceState.Rebase.{rebase_buffers, rebase_programs, rebase_queues, rebase_events}
use virtio_accel.DeviceState.Slots.{
  emptied_slot, filled_slot, emptied_settled, filled_settled, take_rule, restore_rule,
  slot_contexts, slot_buffers, slot_programs, slot_queues, slot_events, Same-context_slot,
  Same-event_slot,
}

no_children-sum : (c : ChildCounts) → no_children c ≡ true → children_sum c ≡ 0
unfolding no_children
no_children-sum c h = ground arith

module _ {C B P Q E : Type 0} where
  -- A write to one slot.
  pub buffer_slot-Inv :
      (s : DeviceState C B P Q E) (id : ℕ) (r : BufferRecord B) (slot : ResourceSlot B)
      → get s.buffers id ≡ ok r
      → settled slot r.in_flight ≡ true
      → Inv s []
      → Inv (record s { buffers = put s.buffers id (buffer_slot r slot) }) []
  buffer_slot-Inv s id r slot found good v = record {
    limits = v.limits;
    contexts = v.contexts;
    buffers = slot_buffers s.contexts s.buffers s.events _ [] id r slot found good v.buffers;
    programs = v.programs;
    queues = v.queues;
    events = v.events;
  }

  pub program_slot-Inv :
      (s : DeviceState C B P Q E) (id : ℕ) (r : ProgramRecord P) (slot : ResourceSlot P)
      → get s.programs id ≡ ok r
      → settled slot r.in_flight ≡ true
      → Inv s []
      → Inv (record s { programs = put s.programs id (program_slot r slot) }) []
  program_slot-Inv s id r slot found good v = record {
    limits = v.limits;
    contexts = v.contexts;
    buffers = v.buffers;
    programs = slot_programs s.contexts s.programs s.events _ _ [] id r slot found good v.programs;
    queues = v.queues;
    events = v.events;
  }

  pub queue_slot-Inv :
      (s : DeviceState C B P Q E) (id : ℕ) (r : QueueRecord Q) (slot : ResourceSlot Q)
      → get s.queues id ≡ ok r
      → settled slot r.in_flight ≡ true
      → Inv s []
      → Inv (record s { queues = put s.queues id (queue_slot r slot) }) []
  queue_slot-Inv s id r slot found good v = record {
    limits = v.limits;
    contexts = v.contexts;
    buffers = v.buffers;
    programs = v.programs;
    queues = slot_queues s.contexts s.queues s.events [] id r slot found good v.queues;
    events = v.events;
  }

  pub begin_buffer_release-Inv :
      (s : DeviceState C B P Q E) (id : ℕ) → Inv s [] → Inv (begin_buffer_release s id).0 []
  unfolding begin_buffer_release find settled
  begin_buffer_release-Inv s id v = elim (Result-cases (get s.buffers id)) [
    | inr (e, bad) ↦ rw (bad, begin_buffer_release, find) v
    | inl (r, found) ↦ elim (Bool-cases (r.in_flight == 0)) [
      | inr used ↦ rw (found, used, begin_buffer_release, find) v
      | inl unused ↦
          rw (found, unused, begin_buffer_release, find)
            (take_rule (λ r. r.resource) buffer_slot (λ t. Inv (record s { buffers = t }) [])
              s.buffers id r v λ x. buffer_slot-Inv s id r emptied_slot found unused v)
    ]
  ]

  pub restore_buffer_release-Inv :
      (s : DeviceState C B P Q E) (id : ℕ) (x : B)
      → Inv s []
      → Inv (restore_buffer_release s id x).0 []
  unfolding restore_buffer_release
  restore_buffer_release-Inv s id x v =
      restore_rule (λ r. r.resource) buffer_slot (λ t. Inv (record s { buffers = t }) []) s.buffers
        id x v
        λ r found. buffer_slot-Inv s id r (filled_slot x) found (filled_settled x r.in_flight) v

  pub begin_program_release-Inv :
      (s : DeviceState C B P Q E) (id : ℕ) → Inv s [] → Inv (begin_program_release s id).0 []
  unfolding begin_program_release find settled
  begin_program_release-Inv s id v = elim (Result-cases (get s.programs id)) [
    | inr (e, bad) ↦ rw (bad, begin_program_release, find) v
    | inl (r, found) ↦ elim (Bool-cases (r.in_flight == 0)) [
      | inr used ↦ rw (found, used, begin_program_release, find) v
      | inl unused ↦
          rw (found, unused, begin_program_release, find)
            (take_rule (λ r. r.resource) program_slot (λ t. Inv (record s { programs = t }) [])
              s.programs id r v λ x. program_slot-Inv s id r emptied_slot found unused v)
    ]
  ]

  pub restore_program_release-Inv :
      (s : DeviceState C B P Q E) (id : ℕ) (x : P)
      → Inv s []
      → Inv (restore_program_release s id x).0 []
  unfolding restore_program_release
  restore_program_release-Inv s id x v =
      restore_rule (λ r. r.resource) program_slot (λ t. Inv (record s { programs = t }) [])
        s.programs id x v
        λ r found. program_slot-Inv s id r (filled_slot x) found (filled_settled x r.in_flight) v

  pub begin_queue_release-Inv :
      (s : DeviceState C B P Q E) (id : ℕ) → Inv s [] → Inv (begin_queue_release s id).0 []
  unfolding begin_queue_release find settled
  begin_queue_release-Inv s id v = elim (Result-cases (get s.queues id)) [
    | inr (e, bad) ↦ rw (bad, begin_queue_release, find) v
    | inl (r, found) ↦ elim (Bool-cases (r.in_flight == 0)) [
      | inr used ↦ rw (found, used, begin_queue_release, find) v
      | inl unused ↦
          rw (found, unused, begin_queue_release, find)
            (take_rule (λ r. r.resource) queue_slot (λ t. Inv (record s { queues = t }) []) s.queues
              id r v λ x. queue_slot-Inv s id r emptied_slot found unused v)
    ]
  ]

  pub restore_queue_release-Inv :
      (s : DeviceState C B P Q E) (id : ℕ) (x : Q)
      → Inv s []
      → Inv (restore_queue_release s id x).0 []
  unfolding restore_queue_release
  restore_queue_release-Inv s id x v =
      restore_rule (λ r. r.resource) queue_slot (λ t. Inv (record s { queues = t }) []) s.queues id
        x v λ r found. queue_slot-Inv s id r (filled_slot x) found (filled_settled x r.in_flight) v

  pub event_slot-Inv :
      (s : DeviceState C B P Q E) (id : ℕ) (r : EventRecord E) (slot : ResourceSlot E)
      → get s.events id ≡ ok r
      → settled slot 0 ≡ true
      → Inv s []
      → Inv (record s { events = put s.events id (event_slot r slot) }) []
  event_slot-Inv s id r slot found good v =
      let sees : Same refs_of s.events (put s.events id (event_slot r slot)) =
        Same-event_slot s.events id r slot found in
      record {
        limits = v.limits;
        contexts = v.contexts;
        buffers =
            rebase_buffers s.contexts s.contexts s.events _ [] [] s.buffers _ v.buffers.kids
              (Referenced-Same _ _ uses_buffer s.buffers s.buffers s.events _ []
                (Same-refl _ s.buffers) (Same-refl _ s.buffers) sees v.buffers.refs)
              v.buffers;
        programs =
            rebase_programs s.contexts s.contexts s.events _ [] [] s.programs _ _ v.programs.kids
              (Referenced-Same _ _ uses_program s.programs s.programs s.events _ []
                (Same-refl _ s.programs) (Same-refl _ s.programs) sees v.programs.refs)
              v.programs;
        queues =
            rebase_queues s.contexts s.contexts s.events _ [] [] s.queues v.queues.kids
              (Referenced-Same _ _ uses_queue s.queues s.queues s.events _ [] (Same-refl _ s.queues)
                (Same-refl _ s.queues) sees v.queues.refs)
              v.queues;
        events = slot_events s.contexts s.events [] id r slot found good v.events;
      }

  pub begin_event_release-Inv :
      (s : DeviceState C B P Q E) (id : ℕ) → Inv s [] → Inv (begin_event_release s id).0 []
  unfolding begin_event_release find
  begin_event_release-Inv s id v = elim (Result-cases (get s.events id)) [
    | inr (e, bad) ↦ rw (bad, begin_event_release, find) v
    | inl (r, found) ↦
        rw (found, begin_event_release, find)
          (take_rule (λ r. r.resource) event_slot (λ t. Inv (record s { events = t }) []) s.events
            id r v λ x. event_slot-Inv s id r emptied_slot found (emptied_settled E) v)
  ]

  pub restore_event_release-Inv :
      (s : DeviceState C B P Q E) (id : ℕ) (x : E)
      → Inv s []
      → Inv (restore_event_release s id x).0 []
  unfolding restore_event_release
  restore_event_release-Inv s id x v =
      restore_rule (λ r. r.resource) event_slot (λ t. Inv (record s { events = t }) []) s.events id
        x v λ r found. event_slot-Inv s id r (filled_slot x) found (filled_settled x 0) v

  pub context_slot-Inv :
      (s : DeviceState C B P Q E) (id : ℕ) (r : ContextRecord C) (slot : ResourceSlot C)
      → get s.contexts id ≡ ok r
      → settled slot (children_sum r.children) ≡ true
      → Inv s []
      → Inv (record s { contexts = put s.contexts id (context_slot r slot) }) []
  context_slot-Inv s id r slot found good v =
      let same : (g : ContextRecord C → ℕ)
          → g (context_slot r slot) ≡ g r
          → Same g s.contexts (put s.contexts id (context_slot r slot)) =
        λ g e. Same-context_slot g s.contexts id r slot found e in
      record {
        limits = v.limits;
        contexts = slot_contexts s.contexts id r slot found good v.contexts;
        buffers =
            rebase_buffers s.contexts _ s.events s.events [] [] s.buffers _
              (Counted-Same _ _ s.contexts _ s.buffers s.buffers []
                (same (λ c. c.children.buffers) refl) (Same-refl _ s.buffers) v.buffers.kids)
              v.buffers.refs v.buffers;
        programs =
            rebase_programs s.contexts _ s.events s.events [] [] s.programs _ _
              (Counted-Same _ _ s.contexts _ s.programs s.programs []
                (same (λ c. c.children.programs) refl) (Same-refl _ s.programs) v.programs.kids)
              v.programs.refs v.programs;
        queues =
            rebase_queues s.contexts _ s.events s.events [] [] s.queues
              (Counted-Same _ _ s.contexts _ s.queues s.queues []
                (same (λ c. c.children.queues) refl) (Same-refl _ s.queues) v.queues.kids)
              v.queues.refs v.queues;
        events =
            rebase_events s.contexts _ s.events [] []
              (Counted-Same _ _ s.contexts _ s.events s.events []
                (same (λ c. c.children.events) refl) (Same-refl _ s.events) v.events.kids)
              v.events;
      }

  pub begin_context_release-Inv :
      (s : DeviceState C B P Q E) (id : ℕ) → Inv s [] → Inv (begin_context_release s id).0 []
  unfolding begin_context_release find settled
  begin_context_release-Inv s id v = elim (Result-cases (get s.contexts id)) [
    | inr (e, bad) ↦ rw (bad, begin_context_release, find) v
    | inl (r, found) ↦ elim (Bool-cases (no_children r.children)) [
      | inr used ↦ rw (found, used, begin_context_release, find) v
      | inl unused ↦
          rw (found, unused, begin_context_release, find)
            (take_rule (λ r. r.resource) context_slot (λ t. Inv (record s { contexts = t }) [])
              s.contexts id r v
              λ x.
                context_slot-Inv s id r emptied_slot found
                  (ap (λ n. n == 0) (no_children-sum r.children unused)) v)
    ]
  ]

  pub restore_context_release-Inv :
      (s : DeviceState C B P Q E) (id : ℕ) (x : C)
      → Inv s []
      → Inv (restore_context_release s id x).0 []
  unfolding restore_context_release
  restore_context_release-Inv s id x v =
      restore_rule (λ r. r.resource) context_slot (λ t. Inv (record s { contexts = t }) [])
        s.contexts id x v
        λ r found.
          context_slot-Inv s id r (filled_slot x) found (filled_settled x (children_sum r.children))
            v
