-- ===== src/DeviceState/SubmissionTests.antt =====
-- The properties of submissions in the scenario, with a provider that accepts and one that refuses.
use virtio_accel.Prelude.{
  ℕ, ◌≡◌, refl, sym, ap, inl, inr, is_ok, ==_cases, [], ◌∷◌, arith, ok, Result, err,
}
use virtio_accel.ObjectTable.{
  get, put, slot_number, kind_bits, tag, namespace_bits, generation_field, with_namespace,
}
use virtio_accel.DeviceState.References.{
  count, sort, change_all, retain_buffer, increment_event_references, decrement_event_references,
}
use virtio_accel.DeviceState.Create.{
  create_context_with, create_buffer_with, create_program_with, create_queue_with,
}
use virtio_accel.DeviceState.Submit.{
  SubmissionSequenceResources, create_event_sequence_with, admit_event, admit_sequence,
}
use virtio_accel.DeviceState.Inv.{Inv}
use virtio_accel.DeviceState.Reach.{Reachable-Inv}
use virtio_accel.ObjectTable.Preserve.{HasRoom}
use virtio_accel.DeviceState.Referenced.{EventRefs}
use virtio_accel.DeviceState.Change.{Resolve, Changed, change_all-Changed}
use virtio_accel.DeviceState.Increment.{Countable, increment-Inv}
use virtio_accel.DeviceState.Pending.{decrement-Inv}
use virtio_accel.DeviceState.Admitted.{admit_event-Countable, admit_sequence-Countable}
use virtio_accel.DeviceState.Records.{provider}
use virtio_accel.DeviceState.Restored.{Restored}
use virtio_accel.DeviceState.Refusal.{Submission, sequence, submit, submit-Restored}
use virtio_accel.DeviceState.Scenario.{
  State, roomy, context_id, s4, buffer_id, program_id, queue_id, reach4,
}

admitted4 : admit_event s4 roomy queue_id program_id (buffer_id ∷ buffer_id ∷ []) ≡ ok context_id
unfolding create_context_with create_buffer_with create_program_with create_queue_with admit_event
    get slot_number kind_bits tag with_namespace namespace_bits generation_field put
admitted4 = refl

admitted4_sequence :
    admit_sequence s4 roomy queue_id (program_id ∷ program_id ∷ []) (buffer_id ∷ []) ≡ ok context_id
unfolding create_context_with create_buffer_with create_program_with create_queue_with
    admit_sequence get slot_number kind_bits tag with_namespace namespace_bits generation_field put
admitted4_sequence = refl

abbrev refs4 : EventRefs
refs4 = record {
  context_id = context_id;
  queue_id = queue_id;
  programs = program_id ∷ [];
  buffers = sort (buffer_id ∷ buffer_id ∷ []);
}

inv4 : Inv s4 []
inv4 = Reachable-Inv ℕ s4 reach4

abbrev s4_counted : State
s4_counted = (increment_event_references s4 context_id queue_id refs4.programs refs4.buffers).0

admit_event-Countable_example : Countable s4 refs4 × HasRoom s4.events
admit_event-Countable_example =
    admit_event-Countable s4 roomy queue_id program_id (buffer_id ∷ buffer_id ∷ []) context_id
      admitted4 inv4

admit_sequence-Countable_example :
    Countable s4 (record {
      context_id = context_id;
      queue_id = queue_id;
      programs = program_id ∷ program_id ∷ [];
      buffers = sort (buffer_id ∷ []);
    })
    × HasRoom s4.events
admit_sequence-Countable_example =
    admit_sequence-Countable s4 roomy queue_id (program_id ∷ program_id ∷ []) (buffer_id ∷ [])
      context_id admitted4_sequence inv4

countable4 : Countable s4 refs4
countable4 =
    (admit_event-Countable s4 roomy queue_id program_id (buffer_id ∷ buffer_id ∷ []) context_id
      admitted4 inv4).0

increment-Inv_example :
    ((increment_event_references s4 context_id queue_id refs4.programs refs4.buffers).1 ≡ ok tt)
    × Inv s4_counted (refs4 ∷ [])
increment-Inv_example = increment-Inv s4 refs4 countable4 inv4

pending4 : Inv s4_counted (refs4 ∷ [])
pending4 = (increment-Inv s4 refs4 countable4 inv4).1

decrement-Inv_example :
    ((decrement_event_references s4_counted context_id queue_id refs4.programs refs4.buffers).1
      ≡ ok tt)
    × Inv
        (decrement_event_references s4_counted context_id queue_id refs4.programs refs4.buffers).0
        []
decrement-Inv_example = decrement-Inv s4_counted refs4 pending4

resolve4 : Resolve s4.buffers (buffer_id ∷ buffer_id ∷ [])
unfolding create_context_with create_buffer_with create_program_with create_queue_with get
    slot_number kind_bits tag with_namespace namespace_bits generation_field put count
resolve4 k p = elim (==_cases buffer_id k) [
  | inl same ↦ ap (λ id. is_ok (get s4.buffers id)) (sym same)
  | inr other ↦ absurd (ground arith)
]

change_all-Changed_example :
    ((change_all retain_buffer s4.buffers (buffer_id ∷ buffer_id ∷ [])).1 ≡ ok tt)
    × Changed retain_buffer
        (buffer_id ∷ buffer_id ∷ [])
        s4.buffers
        (change_all retain_buffer s4.buffers (buffer_id ∷ buffer_id ∷ [])).0
change_all-Changed_example =
    change_all-Changed retain_buffer s4.buffers (buffer_id ∷ buffer_id ∷ []) resolve4

-- The provider refuses a submission that runs the program twice on one buffer.
abbrev refuse : SubmissionSequenceResources ℕ ℕ ℕ → Result ℕ ℕ
refuse _ = err 9

abbrev refused : Submission ℕ ℕ ℕ ℕ ℕ
refused = sequence queue_id (program_id ∷ program_id ∷ []) (buffer_id ∷ []) refuse

refused4 : (submit s4 roomy refused).1 ≡ err (provider 9)
unfolding create_context_with create_buffer_with create_program_with create_queue_with submit
    create_event_sequence_with get slot_number kind_bits tag with_namespace namespace_bits
    generation_field put
refused4 = refl

submit-Restored_example : Restored s4 (submit s4 roomy refused).0
submit-Restored_example = submit-Restored s4 roomy refused (provider 9) reach4 refused4
