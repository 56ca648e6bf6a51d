-- ===== src/DeviceState/Admit.antt =====
-- Creation keeps the invariant of the device state: what the admission checks give, and the insertion
-- with the count of the context.
use virtio_accel.Prelude.{
  ℕ, ◌≤◌, ◌<◌, ◌≡◌, true, arith, inl, inr, Result, ok, is_some, Option-cases,
}
use virtio_accel.ObjectTable.{ObjectTable, Reserve, get}
use virtio_accel.ObjectTable.Preserve.{HasRoom}
use virtio_accel.ObjectTable.Insert.{try_reserve_insert-HasRoom}
use virtio_accel.DeviceState.Records.{
  saturating_add, slot_get, BufferDesc, BufferInfo, ContextRecord,
}
use virtio_accel.DeviceState.Graph.{
  DeviceState, find, check_child_admission, ChildKind, buffer_child, program_child, queue_child,
  child_count,
}
use virtio_accel.DeviceState.Create.{reserve, prepare_buffer, prepare_program, prepare_queue}

pub reserve-HasRoom :
    {T : Type 0} (t : ObjectTable T) (room : Reserve) → reserve t room ≡ ok tt → HasRoom t
unfolding reserve
reserve-HasRoom t room h = try_reserve_insert-HasRoom t room (ground arith)

-- What the checks of a child's creation say about its context.
pub record Admits {C : Type 0} (contexts : ObjectTable (ContextRecord C)) (id : ℕ)
    (c : ContextRecord C) (child : ChildKind) (limit : ℕ) : Type 0 where
  pub found : get contexts id ≡ ok c
  pub held : is_some c.resource.resource ≡ true
  pub below : child_count child c.children < limit

module _ {C B P Q E Fault : Type 0} where
  pub prepare_queue-Admits :
      (s : DeviceState C B P Q E) (room : Reserve) (id : ℕ) (create : C → Result Fault Q)
      (c : ContextRecord C) (made : Q)
      → prepare_queue s room id create ≡ ok (c, made)
      → Admits s.contexts id c queue_child s.limits.max_queues_per_context × HasRoom s.queues
  unfolding prepare_queue check_child_admission find slot_get child_count
  prepare_queue-Admits s room id create c made h = (
    record { found = ground arith; held = ground arith; below = ground arith },
    reserve-HasRoom s.queues room (ground arith),
  )

  pub prepare_program-Admits :
      (s : DeviceState C B P Q E) (room : Reserve) (id artifact resident : ℕ)
      (create : C → Result Fault P) (c : ContextRecord C) (made : P)
      → prepare_program s room id artifact resident create ≡ ok (c, made)
      → Admits s.contexts id c program_child s.limits.max_programs_per_context
        × HasRoom s.programs
        × (saturating_add s.retained.program_resident resident
            ≤ s.policy.max_program_resident_bytes)
  unfolding prepare_program check_child_admission find slot_get child_count
  prepare_program-Admits s room id artifact resident create c made h = (
    record { found = ground arith; held = ground arith; below = ground arith },
    reserve-HasRoom s.programs room (ground arith),
    ground arith,
  )

  pub prepare_buffer-Admits :
      (s : DeviceState C B P Q E) (room : Reserve) (id : ℕ) (desc : BufferDesc)
      (create : C → BufferDesc → Result Fault (B × BufferInfo)) (c : ContextRecord C)
      (made : B × BufferInfo)
      → prepare_buffer s room id desc create ≡ ok (c, made)
      → Admits s.contexts id c buffer_child s.limits.max_buffers_per_context × HasRoom s.buffers
  unfolding prepare_buffer check_child_admission find slot_get child_count
  prepare_buffer-Admits s room id desc create c made h = (
    record { found = ground arith; held = ground arith; below = ground arith },
    reserve-HasRoom s.buffers room (ground arith),
  )

  -- What the provider made is what its closure returned.
  pub prepare_buffer-made :
      (s : DeviceState C B P Q E) (room : Reserve) (id : ℕ) (desc : BufferDesc)
      (create : C → BufferDesc → Result Fault (B × BufferInfo)) (c : ContextRecord C)
      (made : B × BufferInfo)
      → prepare_buffer s room id desc create ≡ ok (c, made)
      → (k : C) × (create k desc ≡ ok made)
  unfolding prepare_buffer check_child_admission find slot_get child_count
  prepare_buffer-made s room id desc create c made h = elim (Option-cases c.resource.resource) [
    | inl gone ↦ absurd (ground arith)
    | inr (k, there) ↦ (k, ground arith)
  ]
