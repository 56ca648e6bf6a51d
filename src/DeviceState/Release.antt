-- ===== src/DeviceState/Release.antt =====
-- The release transitions: a release begins, and is then restored or committed
-- (crates/virtio-accel-device/src/state.rs).
use virtio_accel.Prelude.{ℕ, not, ◌==◌, Result, ok, reject_if, map_err, attempt, sub_u32}
use virtio_accel.ObjectTable.{ObjectTable, get, put, remove}
use virtio_accel.DeviceState.Records.{
  DeviceStateError, busy, invalid_transition, RestoreError, map_table_error, is_releasing,
  ResourceSlot, begin_release, restore, no_children, sub_u128, ContextRecord, BufferRecord,
  ProgramRecord, QueueRecord, EventRecord, program_ids,
}
use virtio_accel.DeviceState.Graph.{DeviceState, find}
use virtio_accel.DeviceState.References.{validate_submission_sequence, decrement_event_references}

-- `ensure_releasing` of the record with this slot.
unfoldable pub ensure_releasing : {R : Type 0} → ResourceSlot R → Result DeviceStateError (Unit {0})
ensure_releasing s = reject_if (not (is_releasing s.release)) invalid_transition

-- `restore_resource`: a slot of the record is read by the first function and written by the second.
unfoldable pub restore_resource :
    {T R : Type 0}
    → (T → ResourceSlot R)
    → (T → ResourceSlot R → T)
    → ObjectTable T
    → ℕ
    → R
    → ObjectTable T × Result (RestoreError R) (Unit {0})
unfolding map_table_error restore
restore_resource slot with_slot t id resource =
    attempt t (map_err (λ e. record { error = map_table_error e; resource = resource }) (get t id))
      λ r. attempt t (restore (slot r) resource) λ filled. (put t id (with_slot r filled), ok tt)

-- The end of a `begin_*_release`: the slot gives its resource up.
unfoldable pub take_resource :
    {T R : Type 0}
    → (T → ResourceSlot R)
    → (T → ResourceSlot R → T)
    → ObjectTable T
    → ℕ
    → T
    → ObjectTable T × Result DeviceStateError R
unfolding begin_release
take_resource slot with_slot t id r =
    attempt t (begin_release (slot r))
      λ (resource, emptied). (put t id (with_slot r emptied), ok resource)

abbrev pub context_slot : {C : Type 0} → ContextRecord C → ResourceSlot C → ContextRecord C
context_slot r slot = record r { resource = slot }

abbrev pub buffer_slot : {B : Type 0} → BufferRecord B → ResourceSlot B → BufferRecord B
buffer_slot r slot = record r { resource = slot }

abbrev pub program_slot : {P : Type 0} → ProgramRecord P → ResourceSlot P → ProgramRecord P
program_slot r slot = record r { resource = slot }

abbrev pub queue_slot : {Q : Type 0} → QueueRecord Q → ResourceSlot Q → QueueRecord Q
queue_slot r slot = record r { resource = slot }

abbrev pub event_slot : {E : Type 0} → EventRecord E → ResourceSlot E → EventRecord E
event_slot r slot = record r { resource = slot }

module _ {C B P Q E : Type 0} where
  unfoldable pub begin_context_release :
      DeviceState C B P Q E → ℕ → DeviceState C B P Q E × Result DeviceStateError C
  unfolding find no_children take_resource
  begin_context_release s id = attempt s (find s.contexts id) λ r.
      attempt s (reject_if (not (no_children r.children)) busy) λ _.
        let (contexts', taken) = take_resource (λ r. r.resource) context_slot s.contexts id r in
        (record s { contexts = contexts' }, taken)

  unfoldable pub restore_context_release :
      DeviceState C B P Q E → ℕ → C → DeviceState C B P Q E × Result (RestoreError C) (Unit {0})
  unfolding restore_resource
  restore_context_release s id resource =
      let (contexts', done) =
        restore_resource (λ r. r.resource) context_slot s.contexts id resource in
      (record s { contexts = contexts' }, done)

  unfoldable pub commit_context_release :
      DeviceState C B P Q E → ℕ → DeviceState C B P Q E × Result DeviceStateError (Unit {0})
  unfolding find ensure_releasing map_table_error
  commit_context_release s id = attempt s (find s.contexts id) λ r.
      attempt s (ensure_releasing r.resource) λ _.
        let (contexts', removed) = remove s.contexts id in
        let s1 = record s { contexts = contexts' } in
        attempt s1 (map_err map_table_error removed) λ _. (s1, ok tt)

  unfoldable pub begin_buffer_release :
      DeviceState C B P Q E → ℕ → DeviceState C B P Q E × Result DeviceStateError B
  unfolding find take_resource
  begin_buffer_release s id = attempt s (find s.buffers id) λ r.
      attempt s (reject_if (not (r.in_flight == 0)) busy) λ _.
        let (buffers', taken) = take_resource (λ r. r.resource) buffer_slot s.buffers id r in
        (record s { buffers = buffers' }, taken)

  unfoldable pub restore_buffer_release :
      DeviceState C B P Q E → ℕ → B → DeviceState C B P Q E × Result (RestoreError B) (Unit {0})
  unfolding restore_resource
  restore_buffer_release s id resource =
      let (buffers', done) = restore_resource (λ r. r.resource) buffer_slot s.buffers id resource in
      (record s { buffers = buffers' }, done)

  unfoldable pub commit_buffer_release :
      DeviceState C B P Q E → ℕ → DeviceState C B P Q E × Result DeviceStateError (Unit {0})
  unfolding find ensure_releasing map_table_error
  commit_buffer_release s id = attempt s (find s.buffers id) λ r.
      attempt s (ensure_releasing r.resource) λ _.
        let (buffers', removed) = remove s.buffers id in
        let s1 = record s { buffers = buffers' } in
        attempt s1 (map_err map_table_error removed) λ _.
          let backing = sub_u128 s1.retained.buffer_backing r.info.allocation_bytes in
          let s2 = record s1 { retained = record (s1.retained) { buffer_backing = backing } } in
          attempt s2 (find s2.contexts r.context_id) λ c.
            let children = record (c.children) { buffers = sub_u32 c.children.buffers 1 } in
            (
              record s2 {
                contexts = put s2.contexts r.context_id (record c { children = children });
              },
              ok tt,
            )

  unfoldable pub begin_program_release :
      DeviceState C B P Q E → ℕ → DeviceState C B P Q E × Result DeviceStateError P
  unfolding find take_resource
  begin_program_release s id = attempt s (find s.programs id) λ r.
      attempt s (reject_if (not (r.in_flight == 0)) busy) λ _.
        let (programs', taken) = take_resource (λ r. r.resource) program_slot s.programs id r in
        (record s { programs = programs' }, taken)

  unfoldable pub restore_program_release :
      DeviceState C B P Q E → ℕ → P → DeviceState C B P Q E × Result (RestoreError P) (Unit {0})
  unfolding restore_resource
  restore_program_release s id resource =
      let (programs', done) =
        restore_resource (λ r. r.resource) program_slot s.programs id resource in
      (record s { programs = programs' }, done)

  unfoldable pub commit_program_release :
      DeviceState C B P Q E → ℕ → DeviceState C B P Q E × Result DeviceStateError (Unit {0})
  unfolding find ensure_releasing map_table_error
  commit_program_release s id = attempt s (find s.programs id) λ r.
      attempt s (ensure_releasing r.resource) λ _.
        let (programs', removed) = remove s.programs id in
        let s1 = record s { programs = programs' } in
        attempt s1 (map_err map_table_error removed) λ _.
          let resident = sub_u128 s1.retained.program_resident r.resident_bytes in
          let s2 = record s1 { retained = record (s1.retained) { program_resident = resident } } in
          attempt s2 (find s2.contexts r.context_id) λ c.
            let children = record (c.children) { programs = sub_u32 c.children.programs 1 } in
            (
              record s2 {
                contexts = put s2.contexts r.context_id (record c { children = children });
              },
              ok tt,
            )

  unfoldable pub begin_queue_release :
      DeviceState C B P Q E → ℕ → DeviceState C B P Q E × Result DeviceStateError Q
  unfolding find take_resource
  begin_queue_release s id = attempt s (find s.queues id) λ r.
      attempt s (reject_if (not (r.in_flight == 0)) busy) λ _.
        let (queues', taken) = take_resource (λ r. r.resource) queue_slot s.queues id r in
        (record s { queues = queues' }, taken)

  unfoldable pub restore_queue_release :
      DeviceState C B P Q E → ℕ → Q → DeviceState C B P Q E × Result (RestoreError Q) (Unit {0})
  unfolding restore_resource
  restore_queue_release s id resource =
      let (queues', done) = restore_resource (λ r. r.resource) queue_slot s.queues id resource in
      (record s { queues = queues' }, done)

  unfoldable pub commit_queue_release :
      DeviceState C B P Q E → ℕ → DeviceState C B P Q E × Result DeviceStateError (Unit {0})
  unfolding find ensure_releasing map_table_error
  commit_queue_release s id = attempt s (find s.queues id) λ r.
      attempt s (ensure_releasing r.resource) λ _.
        let (queues', removed) = remove s.queues id in
        let s1 = record s { queues = queues' } in
        attempt s1 (map_err map_table_error removed) λ _.
          attempt s1 (find s1.contexts r.context_id) λ c.
            let children = record (c.children) { queues = sub_u32 c.children.queues 1 } in
            (
              record s1 {
                contexts = put s1.contexts r.context_id (record c { children = children });
              },
              ok tt,
            )

  unfoldable pub begin_event_release :
      DeviceState C B P Q E → ℕ → DeviceState C B P Q E × Result DeviceStateError E
  unfolding find take_resource
  begin_event_release s id = attempt s (find s.events id) λ r.
      let (events', taken) = take_resource (λ r. r.resource) event_slot s.events id r in
      (record s { events = events' }, taken)

  unfoldable pub restore_event_release :
      DeviceState C B P Q E → ℕ → E → DeviceState C B P Q E × Result (RestoreError E) (Unit {0})
  unfolding restore_resource
  restore_event_release s id resource =
      let (events', done) = restore_resource (λ r. r.resource) event_slot s.events id resource in
      (record s { events = events' }, done)

  unfoldable pub commit_event_release :
      DeviceState C B P Q E → ℕ → DeviceState C B P Q E × Result DeviceStateError (Unit {0})
  unfolding find ensure_releasing validate_submission_sequence map_table_error
      decrement_event_references
  commit_event_release s id = attempt s (find s.events id) λ r.
      attempt s (ensure_releasing r.resource) λ _.
        attempt s (validate_submission_sequence s r.queue_id (program_ids r) r.buffer_ids) λ _.
          let (events', removed) = remove s.events id in
          let s1 = record s { events = events' } in
          attempt s1 (map_err map_table_error removed)
            λ e. decrement_event_references s1 e.context_id e.queue_id (program_ids e) e.buffer_ids
