-- ===== src/DeviceState/Reach.antt =====
-- Every state that a device can reach: it is constructed, and each transition takes it further,
-- whatever the caller, the allocator and the provider answer.
use virtio_accel.Prelude.{ℕ, ◌≡◌, List, [], Result, ok}
use virtio_accel.ObjectTable.{Reserve}
use virtio_accel.DeviceState.Records.{DeviceLimits, ResourcePolicy, BufferDesc, BufferInfo}
use virtio_accel.DeviceState.Graph.{DeviceState, new}
use virtio_accel.DeviceState.Create.{
  create_context_with, create_buffer_with, create_program_with, create_queue_with,
}
use virtio_accel.DeviceState.Submit.{
  SubmissionResources, SubmissionSequenceResources, create_event_with, create_event_sequence_with,
}
use virtio_accel.DeviceState.Release.{
  begin_context_release, restore_context_release, commit_context_release, begin_buffer_release,
  restore_buffer_release, commit_buffer_release, begin_program_release, restore_program_release,
  commit_program_release, begin_queue_release, restore_queue_release, commit_queue_release,
  begin_event_release, restore_event_release, commit_event_release,
}
use virtio_accel.DeviceState.Inv.{Inv, LimitsOk}
use virtio_accel.DeviceState.Start.{new-Inv}
use virtio_accel.DeviceState.SlotOps.{
  begin_context_release-Inv, restore_context_release-Inv, begin_buffer_release-Inv,
  restore_buffer_release-Inv, begin_program_release-Inv, restore_program_release-Inv,
  begin_queue_release-Inv, restore_queue_release-Inv, begin_event_release-Inv,
  restore_event_release-Inv,
}
use virtio_accel.DeviceState.Commit.{commit_context_release-Inv, commit_queue_release-Inv}
use virtio_accel.DeviceState.CommitCharged.{commit_buffer_release-Inv, commit_program_release-Inv}
use virtio_accel.DeviceState.Admission.{
  SizesFit, create_context_with-Inv, create_buffer_with-Inv, create_program_with-Inv,
  create_queue_with-Inv,
}
use virtio_accel.DeviceState.Submission.{
  create_event_with-Inv, create_event_sequence_with-Inv, commit_event_release-Inv,
}

module _ {C B P Q E : Type 0} (Fault : Type 0) where
  -- One transition of the device.
  pub data Step : DeviceState C B P Q E → DeviceState C B P Q E → Type 0 where
    create_context :
        (s : DeviceState C B P Q E) (room : Reserve) (create : Result Fault C)
        → Step s (create_context_with s room create).0
    create_buffer :
        (s : DeviceState C B P Q E) (room : Reserve) (id : ℕ) (desc : BufferDesc)
        (create : C → BufferDesc → Result Fault (B × BufferInfo))
        → SizesFit create
        → Step s (create_buffer_with s room id desc create).0
    create_program :
        (s : DeviceState C B P Q E) (room : Reserve) (id artifact resident : ℕ)
        (create : C → Result Fault P)
        → Step s (create_program_with s room id artifact resident create).0
    create_queue :
        (s : DeviceState C B P Q E) (room : Reserve) (id : ℕ) (create : C → Result Fault Q)
        → Step s (create_queue_with s room id create).0
    create_event :
        (s : DeviceState C B P Q E) (room : Reserve) (queue_id program_id : ℕ) (buffer_ids : List ℕ)
        (create : SubmissionResources B P Q → Result Fault E)
        → Step s (create_event_with s room queue_id program_id buffer_ids create).0
    create_event_sequence :
        (s : DeviceState C B P Q E) (room : Reserve) (queue_id : ℕ)
        (program_ids buffer_ids : List ℕ)
        (create : SubmissionSequenceResources B P Q → Result Fault E)
        → Step s (create_event_sequence_with s room queue_id program_ids buffer_ids create).0
    begin_context : (s : DeviceState C B P Q E) (id : ℕ) → Step s (begin_context_release s id).0
    restore_context :
        (s : DeviceState C B P Q E) (id : ℕ) (x : C) → Step s (restore_context_release s id x).0
    commit_context : (s : DeviceState C B P Q E) (id : ℕ) → Step s (commit_context_release s id).0
    begin_buffer : (s : DeviceState C B P Q E) (id : ℕ) → Step s (begin_buffer_release s id).0
    restore_buffer :
        (s : DeviceState C B P Q E) (id : ℕ) (x : B) → Step s (restore_buffer_release s id x).0
    commit_buffer : (s : DeviceState C B P Q E) (id : ℕ) → Step s (commit_buffer_release s id).0
    begin_program : (s : DeviceState C B P Q E) (id : ℕ) → Step s (begin_program_release s id).0
    restore_program :
        (s : DeviceState C B P Q E) (id : ℕ) (x : P) → Step s (restore_program_release s id x).0
    commit_program : (s : DeviceState C B P Q E) (id : ℕ) → Step s (commit_program_release s id).0
    begin_queue : (s : DeviceState C B P Q E) (id : ℕ) → Step s (begin_queue_release s id).0
    restore_queue :
        (s : DeviceState C B P Q E) (id : ℕ) (x : Q) → Step s (restore_queue_release s id x).0
    commit_queue : (s : DeviceState C B P Q E) (id : ℕ) → Step s (commit_queue_release s id).0
    begin_event : (s : DeviceState C B P Q E) (id : ℕ) → Step s (begin_event_release s id).0
    restore_event :
        (s : DeviceState C B P Q E) (id : ℕ) (x : E) → Step s (restore_event_release s id x).0
    commit_event : (s : DeviceState C B P Q E) (id : ℕ) → Step s (commit_event_release s id).0

  -- The states that a sequence of transitions reaches from a constructed one.
  pub data Reachable : DeviceState C B P Q E → Type 0 where
    constructed :
        (namespace : ℕ) (limits : DeviceLimits) (policy : ResourcePolicy)
        (s : DeviceState C B P Q E)
        → LimitsOk limits policy
        → new namespace limits policy ≡ ok s
        → Reachable s
    then_step : (s t : DeviceState C B P Q E) → Reachable s → Step s t → Reachable t

  -- Each creation, submission, begin, restore and commit keeps the invariant, whether it succeeds or
  -- fails on any branch.
  pub Step-Inv : (s t : DeviceState C B P Q E) → Step s t → Inv s [] → Inv t []
  Step-Inv _ _ (create_context s room create) v = create_context_with-Inv s room create v
  Step-Inv _ _ (create_buffer s room id desc create sizes) v =
      create_buffer_with-Inv s room id desc create sizes v
  Step-Inv _ _ (create_program s room id artifact resident create) v =
      create_program_with-Inv s room id artifact resident create v
  Step-Inv _ _ (create_queue s room id create) v = create_queue_with-Inv s room id create v
  Step-Inv _ _ (create_event s room q p bs create) v = create_event_with-Inv s room q p bs create v
  Step-Inv _ _ (create_event_sequence s room q ps bs create) v =
      create_event_sequence_with-Inv s room q ps bs create v
  Step-Inv _ _ (begin_context s id) v = begin_context_release-Inv s id v
  Step-Inv _ _ (restore_context s id x) v = restore_context_release-Inv s id x v
  Step-Inv _ _ (commit_context s id) v = commit_context_release-Inv s id v
  Step-Inv _ _ (begin_buffer s id) v = begin_buffer_release-Inv s id v
  Step-Inv _ _ (restore_buffer s id x) v = restore_buffer_release-Inv s id x v
  Step-Inv _ _ (commit_buffer s id) v = commit_buffer_release-Inv s id v
  Step-Inv _ _ (begin_program s id) v = begin_program_release-Inv s id v
  Step-Inv _ _ (restore_program s id x) v = restore_program_release-Inv s id x v
  Step-Inv _ _ (commit_program s id) v = commit_program_release-Inv s id v
  Step-Inv _ _ (begin_queue s id) v = begin_queue_release-Inv s id v
  Step-Inv _ _ (restore_queue s id x) v = restore_queue_release-Inv s id x v
  Step-Inv _ _ (commit_queue s id) v = commit_queue_release-Inv s id v
  Step-Inv _ _ (begin_event s id) v = begin_event_release-Inv s id v
  Step-Inv _ _ (restore_event s id x) v = restore_event_release-Inv s id x v
  Step-Inv _ _ (commit_event s id) v = commit_event_release-Inv s id v

  -- Every state reached from a constructed device by any sequence of transitions satisfies the
  -- invariant: its tables are well formed, its child counts, in-flight counts and byte charges are
  -- those of its objects, and a resource slot is empty only while its release is under way and
  -- nothing refers to its object.
  pub Reachable-Inv : (s : DeviceState C B P Q E) → Reachable s → Inv s []
  Reachable-Inv _ (constructed namespace limits policy s small h) =
      new-Inv namespace limits policy s small h
  Reachable-Inv _ (then_step s t r step) = Step-Inv s t step (Reachable-Inv s r)
