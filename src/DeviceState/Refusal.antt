-- ===== src/DeviceState/Refusal.antt =====
-- A submission that fails, at a check or at the provider, leaves every record as it was
-- (crates/virtio-accel-device/src/state.rs).
use virtio_accel.Prelude.{
  ℕ, ◌≡◌, refl, true, List, [], ◌∷◌, arith, inl, inr, none, some, Result, err, is_ok, Result-cases,
}
use virtio_accel.ObjectTable.{Reserve}
use virtio_accel.DeviceState.Records.{DeviceStateError, CreateError, EventRecord, slot_get}
use virtio_accel.DeviceState.Graph.{DeviceState, find}
use virtio_accel.DeviceState.References.{count, sort, increment_event_references}
use virtio_accel.DeviceState.Submit.{
  SubmissionResources, SubmissionSequenceResources, admit_event, admit_sequence, event_call,
  sequence_call, submit_event, new_event, create_event_with, create_event_sequence_with,
}
use virtio_accel.DeviceState.Referenced.{EventRefs}
use virtio_accel.DeviceState.Inv.{Inv}
use virtio_accel.DeviceState.Increment.{Countable, increment-Inv}
use virtio_accel.DeviceState.Pending.{pending_queue, pending_program, decrement-Inv}
use virtio_accel.DeviceState.Admitted.{admit_event-Countable, admit_sequence-Countable}
use virtio_accel.DeviceState.Restored.{Restored, references-Restored}
use virtio_accel.DeviceState.Reach.{Reachable, Reachable-Inv}

-- A submission of one program or of several in order.
pub data Submission (B P Q E Fault : Type 0) : Type 0 where
  single :
      (queue_id program_id : ℕ) (buffer_ids : List ℕ)
      (create : SubmissionResources B P Q → Result Fault E)
      → Submission B P Q E Fault
  sequence :
      (queue_id : ℕ) (program_ids buffer_ids : List ℕ)
      (create : SubmissionSequenceResources B P Q → Result Fault E)
      → Submission B P Q E Fault

unchanged : {C B P Q E : Type 0} (s : DeviceState C B P Q E) → Restored s s
unchanged s = record {
  contexts = λ j. refl;
  buffers = λ j. refl;
  programs = λ j. refl;
  queues = λ j. refl;
  events = refl;
  retained = refl;
}

module _ {C B P Q E Fault : Type 0} where
  unfoldable pub submit :
      DeviceState C B P Q E
      → Reserve
      → Submission B P Q E Fault
      → DeviceState C B P Q E × Result (CreateError Fault) ℕ
  unfolding create_event_with create_event_sequence_with
  submit s room (single queue_id program_id buffer_ids create) =
      create_event_with s room queue_id program_id buffer_ids create
  submit s room (sequence queue_id program_ids buffer_ids create) =
      create_event_sequence_with s room queue_id program_ids buffer_ids create

  -- The end of both methods, on a submission whose references can be counted.
  submit_event-Restored :
      (s : DeviceState C B P Q E) (e : EventRefs)
      (call : DeviceState C B P Q E → Result DeviceStateError (Result Fault E))
      (event_record : E → EventRecord E) (error : CreateError Fault)
      → Countable s e
      → ((s' : DeviceState C B P Q E) → Inv s' (e ∷ []) → is_ok (call s') ≡ true)
      → Inv s []
      → (submit_event s e.context_id e.queue_id e.programs e.buffers call event_record).1
        ≡ err error
      → Restored s (submit_event s e.context_id e.queue_id e.programs e.buffers call event_record).0
  unfolding submit_event
  submit_event-Restored s e call event_record error checked answers v failed =
      let s1 : DeviceState C B P Q E =
        (increment_event_references s e.context_id e.queue_id e.programs e.buffers).0 in
      let (counted, v1) = increment-Inv s e checked v in
      elim (Result-cases (call s1)) [
        | inr (e', bad) ↦ absurd (ground (arith, answers s1 v1))
        | inl (made, called) ↦ elim (Result-cases made) [
          | inl (x, is) ↦ absurd (cc (rw (counted, called, is, submit_event) at failed))
          | inr (fault, is) ↦
              let (undone, v2) = decrement-Inv s1 e v1 in
              rw (counted, called, is, undone, submit_event) (references-Restored s e checked)
        ]
      ]

  create_event_with-Restored :
      (s : DeviceState C B P Q E) (room : Reserve) (queue_id program_id : ℕ) (buffer_ids : List ℕ)
      (create : SubmissionResources B P Q → Result Fault E) (error : CreateError Fault)
      → Inv s []
      → (create_event_with s room queue_id program_id buffer_ids create).1 ≡ err error
      → Restored s (create_event_with s room queue_id program_id buffer_ids create).0
  unfolding create_event_with event_call find slot_get count
  create_event_with-Restored s room queue_id program_id buffer_ids create error v failed =
      elim (Result-cases (admit_event s room queue_id program_id buffer_ids)) [
        | inr (e, bad) ↦ rw (bad, create_event_with) (unchanged s)
        | inl (context_id, admitted) ↦
            let sorted : List ℕ = sort buffer_ids in
            let e : EventRefs = record {
              context_id = context_id;
              queue_id = queue_id;
              programs = program_id ∷ [];
              buffers = sorted;
            } in
            let refused = rw (admitted, create_event_with) at failed in
            rw (admitted, create_event_with)
              (submit_event-Restored s e
                (λ s1. event_call s1 context_id queue_id program_id sorted create)
                (new_event context_id queue_id program_id none sorted) error
                (admit_event-Countable s room queue_id program_id buffer_ids context_id admitted
                  v).0
                (λ s' v'.
                  let (q, q_found, q_held, _) = pending_queue s' e v' queue_id (ground arith) in
                  let (p, p_found, p_held, _) = pending_program s' e v' program_id (ground arith) in
                  ground (arith, q_found, q_held, p_found, p_held))
                v refused)
      ]

  create_event_sequence_with-Restored :
      (s : DeviceState C B P Q E) (room : Reserve) (queue_id : ℕ) (program_ids buffer_ids : List ℕ)
      (create : SubmissionSequenceResources B P Q → Result Fault E) (error : CreateError Fault)
      → Inv s []
      → (create_event_sequence_with s room queue_id program_ids buffer_ids create).1 ≡ err error
      → Restored s (create_event_sequence_with s room queue_id program_ids buffer_ids create).0
  unfolding create_event_sequence_with admit_sequence sequence_call find slot_get count
  create_event_sequence_with-Restored s room queue_id [] buffer_ids create error v failed =
      unchanged s
  create_event_sequence_with-Restored s room queue_id (first ∷ rest) buffer_ids create error v
        failed =
      elim (Result-cases (admit_sequence s room queue_id (first ∷ rest) buffer_ids)) [
        | inr (e, bad) ↦ rw (bad, create_event_sequence_with) (unchanged s)
        | inl (context_id, admitted) ↦
            let sorted : List ℕ = sort buffer_ids in
            let e : EventRefs = record {
              context_id = context_id;
              queue_id = queue_id;
              programs = first ∷ rest;
              buffers = sorted;
            } in
            let refused = rw (admitted, create_event_sequence_with) at failed in
            rw (admitted, create_event_sequence_with)
              (submit_event-Restored s e
                (λ s1. sequence_call s1 context_id queue_id (first ∷ rest) sorted create)
                (new_event context_id queue_id first (some (first ∷ rest)) sorted) error
                (admit_sequence-Countable s room queue_id (first ∷ rest) buffer_ids context_id
                  admitted v).0
                (λ s' v'.
                  let (q, q_found, q_held, _) = pending_queue s' e v' queue_id (ground arith) in
                  ground (arith, q_found, q_held))
                v refused)
      ]

  -- Where a submission of one program or of several fails in a reachable state, whatever failed, every
  -- context, buffer, program and queue ID resolves afterwards to what it resolved to before, record
  -- and counts included, or to the same error; the events and the retained totals are the same.
  pub submit-Restored :
      (s : DeviceState C B P Q E) (room : Reserve) (submission : Submission B P Q E Fault)
      (error : CreateError Fault)
      → Reachable Fault s
      → (submit s room submission).1 ≡ err error
      → Restored s (submit s room submission).0
  unfolding submit
  submit-Restored s room (single queue_id program_id buffer_ids create) error r failed =
      create_event_with-Restored s room queue_id program_id buffer_ids create error
        (Reachable-Inv Fault s r) failed
  submit-Restored s room (sequence queue_id program_ids buffer_ids create) error r failed =
      create_event_sequence_with-Restored s room queue_id program_ids buffer_ids create error
        (Reachable-Inv Fault s r) failed
