-- ===== src/DeviceState/Submission.antt =====
-- Submissions and the commit of an event's release keep the invariant of the device state; a refusal
-- by the provider takes every counted reference back.
use virtio_accel.Prelude.{
  ℕ, ◌≡◌, refl, inl, inr, true, some, none, List, [], ◌∷◌, arith, is_ok, Result, Result-cases,
  Bool-cases,
}
use virtio_accel.ObjectTable.{Reserve, get, remove}
use virtio_accel.ObjectTable.Preserve.{HasRoom}
use virtio_accel.ObjectTable.Laws.{remove-ok}
use virtio_accel.DeviceState.Records.{
  EventRecord, slot_get, is_releasing, new_slot, program_ids, DeviceStateError,
}
use virtio_accel.DeviceState.Graph.{DeviceState, find}
use virtio_accel.DeviceState.References.{
  count, sort, change_references, increment_event_references, validate_submission_sequence,
}
use virtio_accel.DeviceState.Submit.{
  admit_event, admit_sequence, submit_event, event_call, sequence_call, new_event,
  create_event_with, create_event_sequence_with, SubmissionResources, SubmissionSequenceResources,
}
use virtio_accel.DeviceState.Release.{ensure_releasing, commit_event_release}
use virtio_accel.DeviceState.Settled.{settled}
use virtio_accel.DeviceState.Referenced.{EventRefs, refs_of}
use virtio_accel.DeviceState.Inv.{Inv, has_program}
use virtio_accel.DeviceState.Increment.{Countable, increment-Inv}
use virtio_accel.DeviceState.Pending.{
  pending_queue, pending_program, decrement-Inv, enter-Inv, leave-Inv,
}
use virtio_accel.DeviceState.Admitted.{admit_event-Countable, admit_sequence-Countable}

module _ {C B P Q E : Type 0} where
  -- The state in which the provider is called holds the references of the event.
  abbrev calling : DeviceState C B P Q E → EventRefs → DeviceState C B P Q E
  calling s e = (increment_event_references s e.context_id e.queue_id e.programs e.buffers).0

  calling-events : (s : DeviceState C B P Q E) (e : EventRefs) → (calling s e).events ≡ s.events
  unfolding increment_event_references change_references
  calling-events s e = ground arith

module _ {C B P Q E Fault : Type 0} where
  pub submit_event-Inv :
      (s : DeviceState C B P Q E) (e : EventRefs)
      (call : DeviceState C B P Q E → Result DeviceStateError (Result Fault E))
      (event_record : E → EventRecord E)
      → Countable s e
      → HasRoom s.events
      → ((s' : DeviceState C B P Q E) → Inv s' (e ∷ []) → is_ok (call s') ≡ true)
      → ((x : E) → refs_of (event_record x) ≡ e)
      → ((x : E) → settled (event_record x).resource 0 ≡ true)
      → ((x : E) → has_program (event_record x) ≡ true)
      → Inv s []
      → Inv (submit_event s e.context_id e.queue_id e.programs e.buffers call event_record).0 []
  unfolding submit_event
  submit_event-Inv s e call event_record checked room answers refs live named v =
      let s1 : DeviceState C B P Q E = calling s e in
      let (counted, v1) = increment-Inv s e checked v in
      let room1 : HasRoom s1.events = rw (calling-events s e) room in
      elim (Result-cases (call s1)) [
        | inr (e', bad) ↦ absurd (ground (arith, answers s1 v1))
        | inl (made, called) ↦ elim (Result-cases made) [
          | inl (x, is) ↦
              rw (counted, called, is, submit_event)
                (enter-Inv s1 (event_record x) room1 (live x) (named x) (rw (refs x) v1))
          | inr (fault, is) ↦
              let (undone, v2) = decrement-Inv s1 e v1 in
              rw (counted, called, is, undone, submit_event) v2
        ]
      ]

  -- One program, on a buffer list that the caller gives in any order.
  pub create_event_with-Inv :
      (s : DeviceState C B P Q E) (room : Reserve) (queue_id program_id : ℕ) (buffer_ids : List ℕ)
      (create : SubmissionResources B P Q → Result Fault E)
      → Inv s []
      → Inv (create_event_with s room queue_id program_id buffer_ids create).0 []
  unfolding create_event_with event_call find slot_get refs_of new_event new_slot settled count
  create_event_with-Inv s room queue_id program_id buffer_ids create v =
      elim (Result-cases (admit_event s room queue_id program_id buffer_ids)) [
        | inr (e, bad) ↦ rw (bad, create_event_with) v
        | inl (context_id, admitted) ↦
            let (checked, space) =
              admit_event-Countable s room queue_id program_id buffer_ids context_id admitted v in
            let sorted : List ℕ = sort buffer_ids in
            let e : EventRefs = record {
              context_id = context_id;
              queue_id = queue_id;
              programs = program_id ∷ [];
              buffers = sorted;
            } in
            rw (admitted, create_event_with)
              (submit_event-Inv s e
                (λ s1. event_call s1 context_id queue_id program_id sorted create)
                (new_event context_id queue_id program_id none sorted) checked space
                (λ s' v'.
                  let (q, q_found, q_held, _) = pending_queue s' e v' queue_id (ground arith) in
                  let (p, p_found, p_held, _) = pending_program s' e v' program_id (ground arith) in
                  ground (arith, q_found, q_held, p_found, p_held))
                (λ x. refl) (λ x. refl) (λ x. refl) v)
      ]

  -- Several programs in order.
  pub create_event_sequence_with-Inv :
      (s : DeviceState C B P Q E) (room : Reserve) (queue_id : ℕ) (program_ids buffer_ids : List ℕ)
      (create : SubmissionSequenceResources B P Q → Result Fault E)
      → Inv s []
      → Inv (create_event_sequence_with s room queue_id program_ids buffer_ids create).0 []
  unfolding create_event_sequence_with admit_sequence sequence_call find slot_get refs_of new_event
      new_slot settled count
  create_event_sequence_with-Inv s room queue_id [] buffer_ids create v = v
  create_event_sequence_with-Inv s room queue_id (first ∷ rest) buffer_ids create v =
      elim (Result-cases (admit_sequence s room queue_id (first ∷ rest) buffer_ids)) [
        | inr (e, bad) ↦ rw (bad, create_event_sequence_with) v
        | inl (context_id, admitted) ↦
            let (checked, space) =
              admit_sequence-Countable s room queue_id (first ∷ rest) buffer_ids context_id admitted
                v in
            let sorted : List ℕ = sort buffer_ids in
            let e : EventRefs = record {
              context_id = context_id;
              queue_id = queue_id;
              programs = first ∷ rest;
              buffers = sorted;
            } in
            rw (admitted, create_event_sequence_with)
              (submit_event-Inv s e
                (λ s1. sequence_call s1 context_id queue_id (first ∷ rest) sorted create)
                (new_event context_id queue_id first (some (first ∷ rest)) sorted) checked space
                (λ s' v'.
                  let (q, q_found, q_held, _) = pending_queue s' e v' queue_id (ground arith) in
                  ground (arith, q_found, q_held))
                (λ x. refl) (λ x. refl) (λ x. refl) v)
      ]

module _ {C B P Q E : Type 0} where
  pub commit_event_release-Inv :
      (s : DeviceState C B P Q E) (id : ℕ) → Inv s [] → Inv (commit_event_release s id).0 []
  unfolding commit_event_release find ensure_releasing refs_of
  commit_event_release-Inv s id v = elim (Result-cases (get s.events id)) [
    | inr (e, bad) ↦ rw (bad, commit_event_release, find) v
    | inl (r, found) ↦ elim (Bool-cases (is_releasing r.resource.release)) [
      | inr kept ↦ rw (found, kept, commit_event_release, find, ensure_releasing) v
      | inl going ↦
          elim (Result-cases
            (validate_submission_sequence s r.queue_id (program_ids r) r.buffer_ids)) [
              | inr (e, bad) ↦
                  rw (found, going, bad, commit_event_release, find, ensure_releasing) v
              | inl (_, good) ↦
                  let s1 : DeviceState C B P Q E = record s { events = (remove s.events id).0 } in
                  rw
                    (
                      found,
                      going,
                      good,
                      remove-ok s.events id r found,
                      commit_event_release,
                      find,
                      ensure_releasing,
                    )
                    (decrement-Inv s1 (refs_of r) (leave-Inv s id r found v)).1
            ]
    ]
  ]
