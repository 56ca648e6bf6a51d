-- ===== src/Core.antt =====
-- The provider contract of crates/virtio-accel-core/src/lib.rs, as far as it checks descriptors: the
-- memory domains and access modes, buffer descriptors, allocations and ranges, and the device
-- metadata. Flag sets are their bits.
mod Tests
mod Allocation
mod Info
use Prim.Native.Nat.{bit_and, bit_or}
use virtio_accel.Prelude.{
  ℕ, ◌+◌, ◌-◌, ◌≤◌, ◌<◌, ◌≡◌, ◌↔◌, refl, Bool, true, false, not, ◌&&◌, ◌||◌, arith, ◌%◌, ltb, leb,
  ◌==◌, ==_refl, if◌then◌else◌, Result, ok, err, ◌>>=◌, ◌>>◌, reject_if,
}
use virtio_accel.DeviceState.Records.{
  MemoryDomain, host, device, shared, domain_code, BufferDesc, desc_eq, BufferInfo, DeviceLimits,
  u64_mod, BufferCreateOutcome, admitted,
}
use virtio_accel.DeviceState.Create.{buffer_outcome}

-- An `i64`.
pub data ℤ : Type 0 where
  pos negsuc : ℕ → ℤ

pub data BackendError : Type 0 where
  unsupported incompatible invalid_argument out_of_bounds busy out_of_memory : BackendError
  resource_limit deadline_expired device_lost permission_denied : BackendError
  external : ℕ → ℤ → BackendError

-- `a.contains(b)` and `a.intersects(b)` of two flag sets.
abbrev pub contains : ℕ → ℕ → Bool
contains a b = bit_and a b == b

abbrev pub intersects : ℕ → ℕ → Bool
intersects a b = not (bit_and a b == 0)

-- `MemoryDomain::try_from`.
unfoldable pub domain_from : ℕ → Result BackendError MemoryDomain
domain_from value =
    if value == 1
    then ok host
    else if value == 2
    then ok device
    else if value == 3
    then ok shared
    else err invalid_argument

pub data AccessMode : Type 0 where
  read write read_write : AccessMode

abbrev pub access_code : AccessMode → ℕ
access_code read = 1
access_code write = 2
access_code read_write = 3

-- `AccessMode::try_from`.
unfoldable pub access_from : ℕ → Result BackendError AccessMode
access_from value =
    if value == 1
    then ok read
    else if value == 2
    then ok write
    else if value == 3
    then ok read_write
    else err invalid_argument

-- A byte is read as a memory domain exactly if it is that domain's discriminant.
pub domain_from_lem :
    (value : ℕ) (d : MemoryDomain) → (domain_from value ≡ ok d) ↔ (domain_code d ≡ value)
unfolding domain_from domain_code
domain_from_lem value d = (λ h. ground arith, λ h. ground arith)

-- A byte is read as an access mode exactly if it is that mode's discriminant.
pub access_from_lem :
    (value : ℕ) (a : AccessMode) → (access_from value ≡ ok a) ↔ (access_code a ≡ value)
unfolding access_from
access_from_lem value a = (λ h. ground arith, λ h. ground arith)

-- The bits of `BufferUsage` and of `BufferProperties`.
abbrev pub usage_all : ℕ
usage_all = 0x1f

abbrev pub program_input : ℕ
program_input = 4

abbrev pub program_output : ℕ
program_output = 8

abbrev pub mutable_state : ℕ
mutable_state = 16

abbrev pub properties_all : ℕ
properties_all = 7

abbrev pub host_visible : ℕ
host_visible = 1

abbrev pub device_local : ℕ
device_local = 2

abbrev pub direct_binding : ℕ
direct_binding = 4

-- `u64::is_power_of_two`.
abbrev pub is_power_of_two : ℕ → Bool
is_power_of_two n = not (n == 0) && bit_and n (n - 1) == 0

-- `BufferDesc::new`.
unfoldable pub new_desc : ℕ → ℕ → MemoryDomain → ℕ → Result BackendError BufferDesc
new_desc bytes alignment domain usage = do
  reject_if (bytes == 0) invalid_argument
  reject_if (alignment == 0) invalid_argument
  reject_if (not (is_power_of_two alignment) || usage == 0 || not (contains usage_all usage))
      invalid_argument
  ok (record { bytes = bytes; alignment = alignment; domain = domain; usage = usage })

-- `BufferDesc::allows_access`.
unfoldable pub allows_access : BufferDesc → AccessMode → Bool
allows_access d read = intersects d.usage (bit_or program_input mutable_state)
allows_access d write = intersects d.usage (bit_or program_output mutable_state)
allows_access d read_write = contains d.usage mutable_state

unfoldable pub is_program_visible : BufferDesc → Bool
is_program_visible d =
    intersects d.usage (bit_or (bit_or program_input program_output) mutable_state)

-- The properties that a domain requires of an allocation.
unfoldable pub required : MemoryDomain → ℕ
required host = host_visible
required device = device_local
required shared = bit_or host_visible direct_binding

-- `BufferInfo::new`.
unfoldable pub new_info : BufferDesc → ℕ → ℕ → ℕ → Result BackendError BufferInfo
unfolding is_program_visible required
new_info desc allocation_bytes alignment properties = do
  reject_if (allocation_bytes == 0) invalid_argument
  reject_if (alignment == 0) invalid_argument
  reject_if (not (contains properties_all properties)) invalid_argument
  reject_if
      (ltb allocation_bytes desc.bytes
        || not (is_power_of_two alignment)
        || ltb alignment desc.alignment)
      incompatible
  reject_if
      (not (contains properties (required desc.domain))
        || (is_program_visible desc && not (contains properties direct_binding)))
      incompatible
  ok (record {
    desc = desc;
    allocation_bytes = allocation_bytes;
    alignment = alignment;
    properties = properties;
  })

pub record BufferRange : Type 0 where
  pub offset : ℕ
  pub bytes : ℕ

-- `BufferRange::new`.
unfoldable pub new_range : ℕ → ℕ → Result BackendError BufferRange
new_range offset bytes = do
  reject_if (bytes == 0) invalid_argument
  reject_if (leb u64_mod (offset + bytes)) out_of_bounds
  ok (record { offset = offset; bytes = bytes })

-- `BufferRange::end`; the sum of two `u64` wraps.
unfoldable pub range_end : BufferRange → ℕ
range_end r = (r.offset + r.bytes) % u64_mod

-- The end of a range that was accepted is its offset plus its positive length, without a wrap-around.
pub range_end-new_range :
    (offset bytes : ℕ) (r : BufferRange)
    → new_range offset bytes ≡ ok r
    → (range_end r ≡ offset + bytes) × (offset < range_end r)
unfolding new_range range_end
range_end-new_range offset bytes r h = (ground arith, ground arith)
