-- ===== src/DeviceState/Slots.antt =====
-- A write to the resource slot of one record keeps the invariant of its table, and of the tables
-- that look at it.
use virtio_accel.Prelude.{
  ℕ, ◌≡◌, refl, true, Option, none, some, List, [], arith, inl, inr, ok, Result-cases,
}
use virtio_accel.ObjectTable.{ObjectTable, get, put}
use virtio_accel.ObjectTable.Laws.{put-IsValid, total-put}
use virtio_accel.ObjectTable.View.{Same, Same-refl, Same-put}
use virtio_accel.DeviceState.Records.{
  ReleaseState, live, releasing, ResourceSlot, begin_release, restore, ContextRecord, BufferRecord,
  ProgramRecord, QueueRecord, EventRecord,
}
use virtio_accel.DeviceState.Counted.{Counted-Same}
use virtio_accel.DeviceState.Referenced.{EventRefs, refs_of, Referenced-Same}
use virtio_accel.DeviceState.Settled.{settled, AllOk-put, AllOk-get}
use virtio_accel.DeviceState.Release.{
  context_slot, buffer_slot, program_slot, queue_slot, event_slot, take_resource, restore_resource,
}
use virtio_accel.DeviceState.Inv.{
  uses_buffer, uses_program, uses_queue, children_sum, backing_bytes, backing_excess, has_program,
  ContextsInv, BuffersInv, ProgramsInv, QueuesInv, EventsInv,
}

-- An emptied and a filled slot.
abbrev pub emptied_slot : {R : Type 0} → ResourceSlot R
emptied_slot = record { resource = none; release = releasing }

abbrev pub filled_slot : {R : Type 0} → R → ResourceSlot R
filled_slot resource = record { resource = some resource; release = live }

pub emptied_settled : (R : Type 0) → settled (emptied_slot {R = R}) 0 ≡ true
unfolding settled
emptied_settled R = refl

pub filled_settled : {R : Type 0} (x : R) (n : ℕ) → settled (filled_slot x) n ≡ true
unfolding settled
filled_settled x n = refl

module _ {T R : Type 0} (slot : T → ResourceSlot R) (with_slot : T → ResourceSlot R → T) where
  -- A release begins on a live slot only, and leaves it emptied.
  pub take_rule :
      (S : ObjectTable T → Type 0) (t : ObjectTable T) (id : ℕ) (r : T)
      → S t
      → ((x : R) → S (put t id (with_slot r emptied_slot)))
      → S (take_resource slot with_slot t id r).0
  unfolding take_resource
  take_rule S t id r kept emptied = go (slot r).release (slot r).resource refl refl
    where
      go :
          (state : ReleaseState) (held : Option R)
          → (slot r).release ≡ state
          → (slot r).resource ≡ held
          → S (take_resource slot with_slot t id r).0
      go releasing held e f = rw (e, begin_release) kept
      go live none e f = rw (e, f, begin_release) kept
      go live (some x) e f = rw (e, f, begin_release) (emptied x)

  -- A resource is restored to an emptied slot only.
  pub restore_rule :
      (S : ObjectTable T → Type 0) (t : ObjectTable T) (id : ℕ) (x : R)
      → S t
      → ((r : T) → get t id ≡ ok r → S (put t id (with_slot r (filled_slot x))))
      → S (restore_resource slot with_slot t id x).0
  unfolding restore_resource
  restore_rule S t id x kept filled = elim (Result-cases (get t id)) [
    | inr (e, bad) ↦ rw bad kept
    | inl (r, found) ↦ go r found (slot r).release (slot r).resource refl refl
  ]
    where
      go :
          (r : T)
          → get t id ≡ ok r
          → (state : ReleaseState) (held : Option R) → (slot r).release ≡ state
          → (slot r).resource ≡ held
          → S (restore_resource slot with_slot t id x).0
      go r found live held e f = rw (found, e, restore) kept
      go r found releasing none e f = rw (found, e, f, restore) (filled r found)
      go r found releasing (some y) e f = rw (found, e, f, restore) kept

pub slot_contexts :
    {C : Type 0} (contexts : ObjectTable (ContextRecord C)) (id : ℕ) (r : ContextRecord C)
    (slot : ResourceSlot C)
    → get contexts id ≡ ok r
    → settled slot (children_sum r.children) ≡ true
    → ContextsInv contexts
    → ContextsInv (put contexts id (context_slot r slot))
slot_contexts contexts id r slot found good v = record {
  valid = put-IsValid contexts id r (context_slot r slot) v.valid found;
  slots =
      AllOk-put (λ c. settled c.resource (children_sum c.children)) contexts id r
        (context_slot r slot) found good v.slots;
}

pub slot_buffers :
    {C B E : Type 0} (contexts : ObjectTable (ContextRecord C))
    (buffers : ObjectTable (BufferRecord B)) (events : ObjectTable (EventRecord E)) (backing : ℕ)
    (pending : List EventRefs) (id : ℕ) (r : BufferRecord B) (slot : ResourceSlot B)
    → get buffers id ≡ ok r
    → settled slot r.in_flight ≡ true
    → BuffersInv contexts buffers events backing pending
    → BuffersInv contexts (put buffers id (buffer_slot r slot)) events backing pending
slot_buffers {B = B} contexts buffers events backing pending id r slot found good v =
    let r' : BufferRecord B = buffer_slot r slot in
    let owners : Same (λ b. b.context_id) buffers (put buffers id r') =
      Same-put (λ b. b.context_id) buffers id r r' found refl in
    record {
      valid = put-IsValid buffers id r r' v.valid found;
      kids = Counted-Same _ _ contexts contexts buffers _ [] (Same-refl _ contexts) owners v.kids;
      refs =
          Referenced-Same _ _ uses_buffer buffers _ events events pending
            (Same-put _ buffers id r r' found refl) owners (Same-refl refs_of events) v.refs;
      slots = AllOk-put _ buffers id r r' found good v.slots;
      charged = omega (arith, v.charged, total-put backing_bytes buffers id r r' found);
      words = omega (arith, v.words, total-put backing_excess buffers id r r' found);
    }

pub slot_programs :
    {C P E : Type 0} (contexts : ObjectTable (ContextRecord C))
    (programs : ObjectTable (ProgramRecord P)) (events : ObjectTable (EventRecord E))
    (resident limit : ℕ) (pending : List EventRefs) (id : ℕ) (r : ProgramRecord P)
    (slot : ResourceSlot P)
    → get programs id ≡ ok r
    → settled slot r.in_flight ≡ true
    → ProgramsInv contexts programs events resident limit pending
    → ProgramsInv contexts (put programs id (program_slot r slot)) events resident limit pending
slot_programs {P = P} contexts programs events resident limit pending id r slot found good v =
    let r' : ProgramRecord P = program_slot r slot in
    let owners : Same (λ p. p.context_id) programs (put programs id r') =
      Same-put (λ p. p.context_id) programs id r r' found refl in
    record {
      valid = put-IsValid programs id r r' v.valid found;
      kids = Counted-Same _ _ contexts contexts programs _ [] (Same-refl _ contexts) owners v.kids;
      refs =
          Referenced-Same _ _ uses_program programs _ events events pending
            (Same-put _ programs id r r' found refl) owners (Same-refl refs_of events) v.refs;
      slots = AllOk-put _ programs id r r' found good v.slots;
      charged = omega (arith, v.charged, total-put (λ p. p.resident_bytes) programs id r r' found);
      within = v.within;
    }

pub slot_queues :
    {C Q E : Type 0} (contexts : ObjectTable (ContextRecord C))
    (queues : ObjectTable (QueueRecord Q)) (events : ObjectTable (EventRecord E))
    (pending : List EventRefs) (id : ℕ) (r : QueueRecord Q) (slot : ResourceSlot Q)
    → get queues id ≡ ok r
    → settled slot r.in_flight ≡ true
    → QueuesInv contexts queues events pending
    → QueuesInv contexts (put queues id (queue_slot r slot)) events pending
slot_queues {Q = Q} contexts queues events pending id r slot found good v =
    let r' : QueueRecord Q = queue_slot r slot in
    let owners : Same (λ q. q.context_id) queues (put queues id r') =
      Same-put (λ q. q.context_id) queues id r r' found refl in
    record {
      valid = put-IsValid queues id r r' v.valid found;
      kids = Counted-Same _ _ contexts contexts queues _ [] (Same-refl _ contexts) owners v.kids;
      refs =
          Referenced-Same _ _ uses_queue queues _ events events pending
            (Same-put _ queues id r r' found refl) owners (Same-refl refs_of events) v.refs;
      slots = AllOk-put _ queues id r r' found good v.slots;
    }

pub slot_events :
    {C E : Type 0} (contexts : ObjectTable (ContextRecord C)) (events : ObjectTable (EventRecord E))
    (pending : List EventRefs) (id : ℕ) (r : EventRecord E) (slot : ResourceSlot E)
    → get events id ≡ ok r
    → settled slot 0 ≡ true
    → EventsInv contexts events pending
    → EventsInv contexts (put events id (event_slot r slot)) pending
slot_events {E = E} contexts events pending id r slot found good v =
    let r' : EventRecord E = event_slot r slot in
    record {
      valid = put-IsValid events id r r' v.valid found;
      kids =
          Counted-Same _ _ contexts contexts events _ _ (Same-refl _ contexts)
            (Same-put (λ e. e.context_id) events id r r' found refl) v.kids;
      slots = AllOk-put _ events id r r' found good v.slots;
      programmed =
          AllOk-put has_program events id r r' found
            (AllOk-get has_program events id r v.programmed found) v.programmed;
    }

-- The other tables see neither the slot of a context nor that of an event.
pub Same-context_slot :
    {C K : Type 0} (g : ContextRecord C → K) (contexts : ObjectTable (ContextRecord C)) (id : ℕ)
    (r : ContextRecord C) (slot : ResourceSlot C)
    → get contexts id ≡ ok r
    → g (context_slot r slot) ≡ g r
    → Same g contexts (put contexts id (context_slot r slot))
Same-context_slot g contexts id r slot found e =
    Same-put g contexts id r (context_slot r slot) found e

pub Same-event_slot :
    {E : Type 0} (events : ObjectTable (EventRecord E)) (id : ℕ) (r : EventRecord E)
    (slot : ResourceSlot E)
    → get events id ≡ ok r
    → Same refs_of events (put events id (event_slot r slot))
unfolding refs_of
Same-event_slot events id r slot found = Same-put refs_of events id r (event_slot r slot) found refl
