-- ===== src/Core/Info.antt =====
-- The device metadata of crates/virtio-accel-core/src/lib.rs and its checks, and what they give the
-- device state.
use Prim.Native.Nat.{bit_or}
use virtio_accel.Prelude.{
  ℕ, ◌≡◌, ◌≢◌, ◌/◌, ◌%◌, Bool, not, ◌&&◌, ◌||◌, arith, ltb, ◌==◌, Result, ok, err, List, ◌>>◌,
  reject_if,
}
use virtio_accel.DeviceState.Records.{
  MemoryDomain, host, device, shared, BufferDesc, desc_eq, BufferInfo, DeviceLimits, ResourcePolicy,
  zero_limit,
}
use virtio_accel.DeviceState.Graph.{new, aggregate_slots}
use virtio_accel.Core.{
  BackendError, unsupported, incompatible, resource_limit, contains, intersects,
}

abbrev host_visible_memory : ℕ
host_visible_memory = 1

abbrev device_local_memory : ℕ
device_local_memory = 2

abbrev event_cancellation : ℕ
event_cancellation = 4

abbrev external_memory : ℕ
external_memory = 8

abbrev secure_contexts : ℕ
secure_contexts = 16

abbrev shared_memory : ℕ
shared_memory = 32

-- `Capabilities::MEMORY_DOMAINS` and `Capabilities::RESERVED`.
abbrev memory_domains : ℕ
memory_domains = bit_or (bit_or host_visible_memory device_local_memory) shared_memory

abbrev reserved : ℕ
reserved = bit_or external_memory secure_contexts

-- `Capabilities::supports_memory_domain`.
unfoldable pub supports_memory_domain : ℕ → MemoryDomain → Bool
supports_memory_domain capabilities host = contains capabilities host_visible_memory
supports_memory_domain capabilities device = contains capabilities device_local_memory
supports_memory_domain capabilities shared = contains capabilities shared_memory

pub data DeviceInfoError : Type 0 where
  reserved_capabilities missing_memory_domain zero_info_limit : DeviceInfoError

pub record DeviceIdentity : Type 0 where
  pub uuid : List ℕ
  pub class : ℕ
  pub vendor_id : ℕ
  pub device_id : ℕ

pub record DeviceInfo : Type 0 where
  pub identity : DeviceIdentity
  pub capabilities : ℕ
  pub limits : DeviceLimits

-- `DeviceInfo::validate`.
unfoldable pub validate_info : DeviceInfo → Result DeviceInfoError (Unit {0})
validate_info i = do
  reject_if (intersects i.capabilities reserved) reserved_capabilities
  reject_if (not (intersects i.capabilities memory_domains)) missing_memory_domain
  reject_if
      (i.limits.max_contexts == 0
        || i.limits.max_buffers_per_context == 0
        || i.limits.max_programs_per_context == 0
        || i.limits.max_queues_per_context == 0
        || i.limits.max_events_per_context == 0
        || i.limits.max_bindings_per_submission == 0
        || i.limits.max_buffer_bytes == 0
        || i.limits.max_artifact_bytes == 0)
      zero_info_limit

-- `validate_context_desc` and `validate_queue_desc`, on the flags of the descriptor.
unfoldable pub validate_flags : ℕ → Result BackendError (Unit {0})
validate_flags flags = reject_if (not (flags == 0)) unsupported

unfoldable pub validate_buffer_desc : DeviceInfo → BufferDesc → Result BackendError (Unit {0})
unfolding supports_memory_domain
validate_buffer_desc i d = do
  reject_if (ltb i.limits.max_buffer_bytes d.bytes) resource_limit
  reject_if (not (supports_memory_domain i.capabilities d.domain)) unsupported

unfoldable pub validate_buffer_info :
    DeviceInfo → BufferDesc → BufferInfo → Result BackendError (Unit {0})
unfolding validate_buffer_desc desc_eq
validate_buffer_info i requested actual = do
  validate_buffer_desc i requested
  reject_if (not (desc_eq actual.desc requested)) incompatible

unfoldable pub validate_event_cancellation : DeviceInfo → Result BackendError (Unit {0})
validate_event_cancellation i =
    reject_if (not (contains i.capabilities event_cancellation)) unsupported

-- The capability of a memory domain: bit 0 for the host's memory, bit 1 for the device's, bit 5 for
-- shared memory.
abbrev pub Supports : ℕ → MemoryDomain → Type 0
Supports capabilities host = capabilities % 2 ≡ 1
Supports capabilities device = capabilities / 2 % 2 ≡ 1
Supports capabilities shared = capabilities / 32 % 2 ≡ 1

agree : Bool → Bool → Bool
agree a b = (a && b) || (not a && not b)

-- The construction of a device on metadata that was validated does not fail for a limit of zero.
pub new-validate_info :
    {C B P Q E : Type 0} (i : DeviceInfo) (namespace : ℕ) (policy : ResourcePolicy)
    → validate_info i ≡ ok tt
    → new {C = C} {B = B} {P = P} {Q = Q} {E = E} namespace i.limits policy ≢ err zero_limit
unfolding validate_info new aggregate_slots
new-validate_info i namespace policy h e = ground arith
