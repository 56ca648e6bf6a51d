-- ===== src/Transport.antt =====
-- The queue vocabulary of crates/virtio-accel-transport/src/queue.rs: sizes, epochs, chain IDs, the
-- queue state with its checks, and the errors. The child modules are regions.rs and bytes.rs.
pub mod Regions
pub mod Bytes
pub mod Laws
mod Tests
use virtio_accel.Prelude.{
  ℕ, zero, suc, ◌+◌, ◌^◌, Bool, true, false, ◌&&◌, ◌||◌, ltb, leb, ◌==◌, if◌then◌else◌, is_none,
  Option, none, some, Result, ok, err, ◌>>◌, reject_if,
}
use Regions.{ChainLayoutError}

-- `u64::checked_add`.
abbrev pub checked_add : ℕ → ℕ → Option ℕ
checked_add a b = if ltb (a + b) (2 ^ 64) then some (a + b) else none

abbrev pub max_split_queue_size : ℕ
max_split_queue_size = 32768

-- Whether a value is one of the first `bits` powers of two.
unfoldable pub power_below : ℕ → ℕ → Bool
power_below zero value = false
power_below (suc bits) value = (value == 2 ^ bits) || power_below bits value

-- `QueueSize::new`. A `QueueSize` is its value, and a `u16` holds 16 powers of two.
unfoldable pub new_size : ℕ → Option ℕ
unfolding power_below
new_size value =
    if power_below 16 value && leb value max_split_queue_size
    then (if value == 0 then none else some value)
    else none

-- `QueueEpoch::INITIAL`; an epoch is its value.
abbrev pub initial_epoch : ℕ
initial_epoch = 1

-- `QueueEpoch::new`.
abbrev pub new_epoch : ℕ → Option ℕ
new_epoch value = if value == 0 then none else some value

-- `QueueEpoch::checked_next`.
unfoldable pub checked_next : ℕ → Option ℕ
checked_next epoch = elim (checked_add epoch 1) [ some value ↦ new_epoch value | none ↦ none ]

pub record ChainId : Type 0 where
  pub epoch : ℕ
  pub token : ℕ

-- `==` on chain IDs.
abbrev pub id_eq : ChainId → ChainId → Bool
id_eq a b = (a.epoch == b.epoch) && (a.token == b.token)

pub data QueueConfigError : Type 0 where
  size_exceeds_maximum ready_without_size non_increasing_epoch : QueueConfigError

pub record QueueState : Type 0 where
  pub max_size : ℕ
  pub size : Option ℕ
  pub ready : Bool
  pub epoch : ℕ

unfoldable pub unconfigured : ℕ → ℕ → QueueState
unconfigured max_size epoch = record {
  max_size = max_size;
  size = none;
  ready = false;
  epoch = epoch;
}

-- `if let Some(size) = size { if size.get() > max_size.get() ... }`.
abbrev pub exceeds : Option ℕ → ℕ → Bool
exceeds none max_size = false
exceeds (some size) max_size = ltb max_size size

-- `QueueState::new`.
unfoldable pub new_state : ℕ → Option ℕ → Bool → ℕ → Result QueueConfigError QueueState
new_state max_size size ready epoch = do
  reject_if (exceeds size max_size) size_exceeds_maximum
  reject_if (ready && is_none size) ready_without_size
  ok (record { max_size = max_size; size = size; ready = ready; epoch = epoch })

pub data QueueError (E : Type 0) : Type 0 where
  not_ready : QueueError E
  invalid_configuration : QueueConfigError → QueueError E
  reset_race : ℕ → ℕ → QueueError E
  used_length_exceeded : ℕ → ℕ → QueueError E
  transport : E → QueueError E

pub data MalformedChain : Type 0 where
  descriptor_loop descriptor_index descriptor_flags descriptor_count zero_length : MalformedChain
  direction length_overflow port_length_mismatch indirect_unsupported : MalformedChain
  indirect_malformed address : MalformedChain

-- `From<ChainLayoutError> for MalformedChain`.
unfoldable pub from_layout_error : ChainLayoutError → MalformedChain
from_layout_error ChainLayoutError.descriptor_count = MalformedChain.descriptor_count
from_layout_error ChainLayoutError.zero_length = MalformedChain.zero_length
from_layout_error ChainLayoutError.direction = MalformedChain.direction
from_layout_error ChainLayoutError.length_overflow = MalformedChain.length_overflow
from_layout_error ChainLayoutError.port_length_mismatch = MalformedChain.port_length_mismatch

pub data ChainError (E : Type 0) : Type 0 where
  malformed : MalformedChain → ChainError E
  reset_race : ℕ → ℕ → ChainError E
  transport : E → ChainError E

pub data NotificationHint : Type 0 where
  suppressed notify : NotificationHint

pub data NotificationRecheck : Type 0 where
  idle work_pending : NotificationRecheck

pub record PublishedChain : Type 0 where
  pub id : ChainId
  pub notification : NotificationHint

pub data PublishErrorKind (E : Type 0) : Type 0 where
  not_ready queue_full insufficient_descriptors : PublishErrorKind E
  reset_race : ℕ → ℕ → PublishErrorKind E
  transport : E → PublishErrorKind E

pub record PublishError (C E : Type 0) : Type 0 where
  pub chain : C
  pub kind : PublishErrorKind E

pub record UsedChain (C : Type 0) : Type 0 where
  pub id : ChainId
  pub used : ℕ
  pub chain : C

pub record ReclaimedChain (C : Type 0) : Type 0 where
  pub id : ChainId
  pub chain : C
