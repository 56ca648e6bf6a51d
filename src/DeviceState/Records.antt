-- ===== src/DeviceState/Records.antt =====
-- The records of the device state (crates/virtio-accel-device/src/state.rs): errors, resource
-- slots with their release state, child counts, charges, and the record of each object kind.
-- The descriptors are those of crates/virtio-accel-core/src/lib.rs.
use virtio_accel.Prelude.{
  ℕ, ◌+◌, ◌-◌, ◌%◌, ◌^◌, Bool, true, false, ◌&&◌, Option, none, some, List, [], ◌∷◌, ltb, ◌==◌,
  if◌then◌else◌, is_some, Result, ok, err, ◌>>=◌, ◌>>◌, reject_if, ok_or,
}
use virtio_accel.ObjectTable.{
  ObjectTableError, invalid_id, wrong_kind, stale_id, full, allocation_failed,
}

pub data DeviceStateConfigError : Type 0 where
  zero_limit binding_limit count_overflow config_reference_count_overflow : DeviceStateConfigError

pub data DeviceStateError : Type 0 where
  invalid_argument invalid_object stale_object context_mismatch busy : DeviceStateError
  resource_limit out_of_memory releasing_object invalid_transition : DeviceStateError
  reference_count_overflow : DeviceStateError

-- `CreateError<E>`: the state refused, or the provider did.
pub data CreateError (E : Type 0) : Type 0 where
  state : DeviceStateError → CreateError E
  provider : E → CreateError E

-- `RestoreError<R>`: the resource comes back with the error.
pub record RestoreError (R : Type 0) : Type 0 where
  pub error : DeviceStateError
  pub resource : R

unfoldable pub map_table_error : ObjectTableError → DeviceStateError
map_table_error invalid_id = invalid_object
map_table_error wrong_kind = stale_object
map_table_error stale_id = stale_object
map_table_error full = resource_limit
map_table_error allocation_failed = out_of_memory

pub data ReleaseState : Type 0 where
  live releasing : ReleaseState

abbrev pub is_releasing : ReleaseState → Bool
is_releasing live = false
is_releasing releasing = true

pub record ResourceSlot (R : Type 0) : Type 0 where
  pub resource : Option R
  pub release : ReleaseState

module _ {R : Type 0} where
  unfoldable pub new_slot : R → ResourceSlot R
  new_slot resource = record { resource = some resource; release = live }

  -- `get` and `get_mut`.
  unfoldable pub slot_get : ResourceSlot R → Result DeviceStateError R
  slot_get s = ok_or s.resource releasing_object

  unfoldable pub begin_release : ResourceSlot R → Result DeviceStateError (R × ResourceSlot R)
  begin_release s = do
    reject_if (is_releasing s.release) releasing_object
    resource ← ok_or s.resource releasing_object
    ok (resource, record { resource = none; release = releasing })

  unfoldable pub restore : ResourceSlot R → R → Result (RestoreError R) (ResourceSlot R)
  restore s resource =
      if is_releasing s.release
      then if is_some s.resource
        then err (record { error = invalid_transition; resource = resource })
        else ok (record { resource = some resource; release = live })
      else err (record { error = invalid_transition; resource = resource })

pub record ChildCounts : Type 0 where
  pub buffers : ℕ
  pub programs : ℕ
  pub queues : ℕ
  pub events : ℕ

-- `ChildCounts::is_empty`.
unfoldable pub no_children : ChildCounts → Bool
no_children c = c.buffers == 0 && c.programs == 0 && c.queues == 0 && c.events == 0

unfoldable pub default_counts : ChildCounts
default_counts = record { buffers = 0; programs = 0; queues = 0; events = 0 }

abbrev pub u64_mod : ℕ
u64_mod = 2 ^ 64

abbrev pub u128_mod : ℕ
u128_mod = 2 ^ 128

-- `u128::saturating_add` and a `u128` `-=`.
abbrev pub saturating_add : ℕ → ℕ → ℕ
saturating_add a b = if ltb (a + b) u128_mod then a + b else u128_mod - 1

abbrev pub sub_u128 : ℕ → ℕ → ℕ
sub_u128 a b = (a + u128_mod - b) % u128_mod

-- Limits that are nonzero `u64`.
pub record ResourcePolicy : Type 0 where
  pub max_buffer_backing_bytes : ℕ
  pub max_program_resident_bytes : ℕ

unfoldable pub new_policy : ℕ → ℕ → Option ResourcePolicy
new_policy backing resident =
    if backing == 0
    then none
    else if resident == 0
    then none
    else some (record { max_buffer_backing_bytes = backing; max_program_resident_bytes = resident })

pub record RetainedBytes : Type 0 where
  pub buffer_backing : ℕ
  pub program_resident : ℕ

-- `DeviceLimits`: six `u32` and two `u64`.
pub record DeviceLimits : Type 0 where
  pub max_contexts : ℕ
  pub max_buffers_per_context : ℕ
  pub max_programs_per_context : ℕ
  pub max_queues_per_context : ℕ
  pub max_events_per_context : ℕ
  pub max_bindings_per_submission : ℕ
  pub max_buffer_bytes : ℕ
  pub max_artifact_bytes : ℕ

pub data MemoryDomain : Type 0 where
  host device shared : MemoryDomain

unfoldable pub domain_code : MemoryDomain → ℕ
domain_code host = 1
domain_code device = 2
domain_code shared = 3

-- `usage` is the bit set.
pub record BufferDesc : Type 0 where
  pub bytes : ℕ
  pub alignment : ℕ
  pub domain : MemoryDomain
  pub usage : ℕ

-- The derived `==`.
unfoldable pub desc_eq : BufferDesc → BufferDesc → Bool
unfolding domain_code
desc_eq a b =
    a.bytes == b.bytes
    && a.alignment == b.alignment
    && domain_code a.domain == domain_code b.domain
    && a.usage == b.usage

pub record BufferInfo : Type 0 where
  pub desc : BufferDesc
  pub allocation_bytes : ℕ
  pub alignment : ℕ
  pub properties : ℕ

pub record ContextRecord (C : Type 0) : Type 0 where
  pub resource : ResourceSlot C
  pub children : ChildCounts

pub record BufferRecord (B : Type 0) : Type 0 where
  pub resource : ResourceSlot B
  pub context_id : ℕ
  pub info : BufferInfo
  pub in_flight : ℕ

pub record ProgramRecord (P : Type 0) : Type 0 where
  pub resource : ResourceSlot P
  pub context_id : ℕ
  pub resident_bytes : ℕ
  pub in_flight : ℕ

pub record QueueRecord (Q : Type 0) : Type 0 where
  pub resource : ResourceSlot Q
  pub context_id : ℕ
  pub in_flight : ℕ

pub record EventRecord (E : Type 0) : Type 0 where
  pub resource : ResourceSlot E
  pub context_id : ℕ
  pub queue_id : ℕ
  pub program_id : ℕ
  pub sequence_program_ids : Option (List ℕ)
  pub buffer_ids : List ℕ

-- The programs an event retains, in execution order.
abbrev pub program_ids : {E : Type 0} → EventRecord E → List ℕ
program_ids e = elim e.sequence_program_ids [ none ↦ e.program_id ∷ [] | some ids ↦ ids ]

-- `BufferCreateOutcome`; the error is a `BackendError`, of which two values occur.
pub data CleanupError : Type 0 where
  incompatible backend_resource_limit : CleanupError

pub data BufferCreateOutcome : Type 0 where
  admitted : ℕ → BufferCreateOutcome
  cleanup_required : ℕ → CleanupError → BufferCreateOutcome
