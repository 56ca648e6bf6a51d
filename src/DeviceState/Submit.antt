-- ===== src/DeviceState/Submit.antt =====
-- Submissions: `create_event_with` and `create_event_sequence_with`, with the rollback of the
-- references when the provider refuses (crates/virtio-accel-device/src/state.rs).
use virtio_accel.Prelude.{
  ℕ, Bool, true, false, not, ◌||◌, Option, none, some, List, [], ◌∷◌, length, get_elem?, ltb, leb,
  Result, ok, err, ◌>>=◌, ◌>>◌, reject_if, map_err, ok_or, attempt,
}
use virtio_accel.ObjectTable.{ObjectTable, Reserve, insert_prepared}
use virtio_accel.DeviceState.Records.{
  DeviceStateError, invalid_argument, resource_limit, CreateError, state, provider, slot_get,
  new_slot, BufferInfo, BufferRecord, ProgramRecord, EventRecord,
}
use virtio_accel.DeviceState.Graph.{DeviceState, find}
use virtio_accel.DeviceState.References.{
  contains, sort, validate_submission, validate_submission_sequence, check_reference_increments,
  increment_event_references, decrement_event_references,
}
use virtio_accel.DeviceState.Create.{reserve}

abbrev is_nil : List ℕ → Bool
is_nil [] = true
is_nil (_ ∷ _) = false

-- `SubmissionResources`, which the closure of `create_event_with` reads.
pub record SubmissionResources (B P Q : Type 0) : Type 0 where
  pub context_id : ℕ
  pub queue : Q
  pub program : P
  pub buffers : ObjectTable (BufferRecord B)
  pub buffer_ids : List ℕ

-- `SubmissionSequenceResources`, which the closure of `create_event_sequence_with` reads.
pub record SubmissionSequenceResources (B P Q : Type 0) : Type 0 where
  pub context_id : ℕ
  pub queue : Q
  pub programs : ObjectTable (ProgramRecord P)
  pub program_ids : List ℕ
  pub buffers : ObjectTable (BufferRecord B)
  pub buffer_ids : List ℕ

module _ {B P Q : Type 0} where
  -- The binary search over the sorted IDs finds an ID exactly when it is there.
  unfoldable pub buffer_with_info_by_id :
      SubmissionResources B P Q → ℕ → Result DeviceStateError (B × BufferInfo)
  unfolding find slot_get contains
  buffer_with_info_by_id r id = do
    reject_if (not (contains id r.buffer_ids)) invalid_argument
    found ← find r.buffers id
    buffer ← slot_get found.resource
    ok (buffer, found.info)

  -- `SubmissionSequenceResources::program`.
  unfoldable pub sequence_program :
      SubmissionSequenceResources B P Q → ℕ → Result DeviceStateError P
  unfolding find slot_get
  sequence_program r index = do
    id ← ok_or (get_elem? r.program_ids index) invalid_argument
    found ← find r.programs id
    slot_get found.resource

-- `program_ids[0]`; the list is not empty there.
abbrev pub first_program : List ℕ → ℕ
first_program [] = 0
first_program (id ∷ _) = id

-- The record of a new event.
unfoldable pub new_event : {E : Type 0} → ℕ → ℕ → ℕ → Option (List ℕ) → List ℕ → E → EventRecord E
unfolding new_slot
new_event context_id queue_id program_id sequence buffer_ids event = record {
  resource = new_slot event;
  context_id = context_id;
  queue_id = queue_id;
  program_id = program_id;
  sequence_program_ids = sequence;
  buffer_ids = buffer_ids;
}

module _ {C B P Q E : Type 0} where
  -- The quota and the room for one more event of the context.
  unfoldable pub check_event_quota :
      DeviceState C B P Q E → Reserve → ℕ → Result DeviceStateError (Unit {0})
  unfolding find reserve
  check_event_quota s room context_id = do
    context ← find s.contexts context_id
    reject_if (leb s.limits.max_events_per_context context.children.events) resource_limit
    reserve s.events room

  -- `create_event_with` up to the counting of references: the context of the submission.
  unfoldable pub admit_event :
      DeviceState C B P Q E → Reserve → ℕ → ℕ → List ℕ → Result DeviceStateError ℕ
  unfolding validate_submission check_event_quota sort check_reference_increments
  admit_event s room queue_id program_id buffer_ids = do
    reject_if (is_nil buffer_ids) invalid_argument
    reject_if (ltb s.limits.max_bindings_per_submission (length buffer_ids)) resource_limit
    context_id ← validate_submission s queue_id program_id buffer_ids
    check_event_quota s room context_id
    check_reference_increments s queue_id (program_id ∷ []) (sort buffer_ids)
    ok context_id

  -- The same of `create_event_sequence_with`.
  unfoldable pub admit_sequence :
      DeviceState C B P Q E → Reserve → ℕ → List ℕ → List ℕ → Result DeviceStateError ℕ
  unfolding validate_submission_sequence check_event_quota sort check_reference_increments
  admit_sequence s room queue_id program_ids buffer_ids = do
    reject_if (is_nil program_ids || is_nil buffer_ids) invalid_argument
    context_id ← validate_submission_sequence s queue_id program_ids buffer_ids
    check_event_quota s room context_id
    check_reference_increments s queue_id program_ids (sort buffer_ids)
    ok context_id

module _ {C B P Q E Fault : Type 0} where
  -- The end of both methods: the references are counted, the provider is called on the state that
  -- holds them, and its refusal takes them back. `call` looks its arguments up first.
  unfoldable pub submit_event :
      DeviceState C B P Q E
      → ℕ
      → ℕ
      → List ℕ
      → List ℕ
      → (DeviceState C B P Q E → Result DeviceStateError (Result Fault E))
      → (E → EventRecord E)
      → DeviceState C B P Q E × Result (CreateError Fault) ℕ
  unfolding increment_event_references decrement_event_references insert_prepared
  submit_event s context_id queue_id program_ids buffer_ids call event_record =
      let (s1, counted) = increment_event_references s context_id queue_id program_ids buffer_ids in
      attempt s1 (map_err state counted) λ _. attempt s1 (map_err state (call s1)) λ made.
        elim made [
          | ok event ↦
              let (events', id) = insert_prepared s1.events (event_record event) in
              (record s1 { events = events' }, ok id)
          | err error ↦
              let (s2, undone) =
                decrement_event_references s1 context_id queue_id program_ids buffer_ids in
              attempt s2 (map_err state undone) λ _. (s2, err (provider error))
        ]

  -- The provider's call of `create_event_with`: the queue and the program are looked up again.
  unfoldable pub event_call :
      DeviceState C B P Q E
      → ℕ
      → ℕ
      → ℕ
      → List ℕ
      → (SubmissionResources B P Q → Result Fault E)
      → Result DeviceStateError (Result Fault E)
  unfolding find slot_get
  event_call s1 context_id queue_id program_id sorted create = do
    queue_record ← find s1.queues queue_id
    queue ← slot_get queue_record.resource
    program_record ← find s1.programs program_id
    program ← slot_get program_record.resource
    ok (
        create (record {
          context_id = context_id;
          queue = queue;
          program = program;
          buffers = s1.buffers;
          buffer_ids = sorted;
        }))

  unfoldable pub sequence_call :
      DeviceState C B P Q E
      → ℕ
      → ℕ
      → List ℕ
      → List ℕ
      → (SubmissionSequenceResources B P Q → Result Fault E)
      → Result DeviceStateError (Result Fault E)
  unfolding find slot_get
  sequence_call s1 context_id queue_id program_ids sorted create = do
    queue_record ← find s1.queues queue_id
    queue ← slot_get queue_record.resource
    ok (
        create (record {
          context_id = context_id;
          queue = queue;
          programs = s1.programs;
          program_ids = program_ids;
          buffers = s1.buffers;
          buffer_ids = sorted;
        }))

  unfoldable pub create_event_with :
      DeviceState C B P Q E
      → Reserve
      → ℕ
      → ℕ
      → List ℕ
      → (SubmissionResources B P Q → Result Fault E)
      → DeviceState C B P Q E × Result (CreateError Fault) ℕ
  unfolding admit_event submit_event event_call new_event sort
  create_event_with s room queue_id program_id buffer_ids create =
      attempt s (map_err state (admit_event s room queue_id program_id buffer_ids)) λ context_id.
        let sorted = sort buffer_ids in
        submit_event s context_id queue_id (program_id ∷ []) sorted
          (λ s1. event_call s1 context_id queue_id program_id sorted create)
          (new_event context_id queue_id program_id none sorted)

  unfoldable pub create_event_sequence_with :
      DeviceState C B P Q E
      → Reserve
      → ℕ
      → List ℕ
      → List ℕ
      → (SubmissionSequenceResources B P Q → Result Fault E)
      → DeviceState C B P Q E × Result (CreateError Fault) ℕ
  unfolding admit_sequence submit_event sequence_call new_event sort
  create_event_sequence_with s room queue_id program_ids buffer_ids create =
      attempt s (map_err state (admit_sequence s room queue_id program_ids buffer_ids))
        λ context_id.
          let sorted = sort buffer_ids in
          submit_event s context_id queue_id program_ids sorted
            (λ s1. sequence_call s1 context_id queue_id program_ids sorted create)
            (new_event context_id queue_id (first_program program_ids) (some program_ids) sorted)
