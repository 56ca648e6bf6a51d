-- ===== src/Wire.antt =====
-- The wire vocabulary of crates/virtio-accel-proto/src/lib.rs: opcodes, event states, status codes,
-- the configuration with its validation, and the frame headers. A little-endian field is its number.
mod Tests
use virtio_accel.Prelude.{
  ℕ, ◌*◌, ◌≤◌, ◌≡◌, ◌↔◌, refl, Bool, true, false, not, ◌&&◌, ◌||◌, arith, leb, ◌==◌, if◌then◌else◌,
  Result, ok, err, ◌>>◌, reject_if,
}

abbrev pub protocol_major : ℕ
protocol_major = 1

abbrev pub baseline_command_queues : ℕ
baseline_command_queues = 1

abbrev pub hard_max_chain_descriptors : ℕ
hard_max_chain_descriptors = 256

abbrev pub hard_max_request_bytes : ℕ
hard_max_request_bytes = 16 * 1024 * 1024

abbrev pub hard_max_response_bytes : ℕ
hard_max_response_bytes = 16 * 1024 * 1024

abbrev pub min_max_request_bytes : ℕ
min_max_request_bytes = 97

abbrev pub min_max_response_bytes : ℕ
min_max_response_bytes = 92

pub data KnownOpcode : Type 0 where
  get_device_info create_context destroy_context allocate_buffer free_buffer : KnownOpcode
  write_buffer read_buffer load_program unload_program create_queue : KnownOpcode
  destroy_queue submit poll_event cancel_event destroy_event : KnownOpcode

-- `opcode as u16`.
unfoldable pub opcode_value : KnownOpcode → ℕ
opcode_value get_device_info = 0x0001
opcode_value create_context = 0x0100
opcode_value destroy_context = 0x0101
opcode_value allocate_buffer = 0x0200
opcode_value free_buffer = 0x0201
opcode_value write_buffer = 0x0202
opcode_value read_buffer = 0x0203
opcode_value load_program = 0x0300
opcode_value unload_program = 0x0301
opcode_value create_queue = 0x0400
opcode_value destroy_queue = 0x0401
opcode_value submit = 0x0500
opcode_value poll_event = 0x0501
opcode_value cancel_event = 0x0502
opcode_value destroy_event = 0x0503

-- `KnownOpcode::try_from`; the error is the value of the `UnknownOpcode`.
unfoldable pub opcode_from : ℕ → Result ℕ KnownOpcode
opcode_from value =
    if value == 0x0001
    then ok get_device_info
    else if value == 0x0100
    then ok create_context
    else if value == 0x0101
    then ok destroy_context
    else if value == 0x0200
    then ok allocate_buffer
    else if value == 0x0201
    then ok free_buffer
    else if value == 0x0202
    then ok write_buffer
    else if value == 0x0203
    then ok read_buffer
    else if value == 0x0300
    then ok load_program
    else if value == 0x0301
    then ok unload_program
    else if value == 0x0400
    then ok create_queue
    else if value == 0x0401
    then ok destroy_queue
    else if value == 0x0500
    then ok submit
    else if value == 0x0501
    then ok poll_event
    else if value == 0x0502
    then ok cancel_event
    else if value == 0x0503
    then ok destroy_event
    else err value

-- The value of every known opcode is read back as that opcode.
pub opcode_from-opcode_value : (op : KnownOpcode) → opcode_from (opcode_value op) ≡ ok op
unfolding opcode_from opcode_value
opcode_from-opcode_value op = ground arith

-- A value is read as an opcode only if it is that opcode's value, so no two values are read as the
-- same opcode.
pub opcode_value-opcode_from :
    (value : ℕ) (op : KnownOpcode) → opcode_from value ≡ ok op → opcode_value op ≡ value
unfolding opcode_from opcode_value
opcode_value-opcode_from value op h = ground arith

pub data KnownEventState : Type 0 where
  pending complete failed cancelled : KnownEventState

unfoldable pub event_state_value : KnownEventState → ℕ
event_state_value pending = 0
event_state_value complete = 1
event_state_value failed = 2
event_state_value cancelled = 3

-- `KnownEventState::try_from`; the error is the value of the `UnknownEventState`.
unfoldable pub event_state_from : ℕ → Result ℕ KnownEventState
event_state_from value =
    if value == 0
    then ok pending
    else if value == 1
    then ok complete
    else if value == 2
    then ok failed
    else if value == 3
    then ok cancelled
    else err value

-- A value is read as an event state exactly if it is that state's value.
pub event_state_from_lem :
    (value : ℕ) (s : KnownEventState)
    → (event_state_from value ≡ ok s) ↔ (event_state_value s ≡ value)
unfolding event_state_from event_state_value
event_state_from_lem value s = (λ h. ground arith, λ h. ground arith)

-- `StatusCode::is_known` and `is_success`, on the code's value.
unfoldable pub is_known : ℕ → Bool
is_known code = leb code 11 || code == 0xffff

unfoldable pub is_success : ℕ → Bool
is_success code = code == 0

pub record WireConfig : Type 0 where
  pub protocol_major : ℕ
  pub protocol_minor : ℕ
  pub command_queue_count : ℕ
  pub max_chain_descriptors : ℕ
  pub max_request_bytes : ℕ
  pub max_response_bytes : ℕ

pub data ConfigError : Type 0 where
  version command_queue_count chain_descriptor_limit : ConfigError
  request_byte_limit response_byte_limit : ConfigError

-- `(low..=high).contains(&value)`.
abbrev within : ℕ → ℕ → ℕ → Bool
within low high value = leb low value && leb value high

-- `WireConfig::validate`.
unfoldable pub validate : WireConfig → Result ConfigError (Unit {0})
validate c = do
  reject_if (not (c.protocol_major == protocol_major)) version
  reject_if (not (c.command_queue_count == baseline_command_queues)) command_queue_count
  reject_if (not (within 2 hard_max_chain_descriptors c.max_chain_descriptors))
      chain_descriptor_limit
  reject_if (not (within min_max_request_bytes hard_max_request_bytes c.max_request_bytes))
      request_byte_limit
  reject_if (not (within min_max_response_bytes hard_max_response_bytes c.max_response_bytes))
      response_byte_limit

-- A configuration is accepted exactly if its major version is 1, it has one command queue, and each
-- of its three limits lies between the least that carries every baseline frame and the hard limit.
pub validate_lem :
    (c : WireConfig)
    → (validate c ≡ ok tt) ↔ (
        (c.protocol_major ≡ 1)
        × (c.command_queue_count ≡ 1)
        × (2 ≤ c.max_chain_descriptors)
        × (c.max_chain_descriptors ≤ 256)
        × (97 ≤ c.max_request_bytes)
        × (c.max_request_bytes ≤ 16777216)
        × (92 ≤ c.max_response_bytes)
        × (c.max_response_bytes ≤ 16777216))
unfolding validate
validate_lem c = (
  λ h. (
    ground arith,
    ground arith,
    ground arith,
    ground arith,
    ground arith,
    ground arith,
    ground arith,
    ground arith,
  ),
  λ h. ground (arith, h.0, h.1),
)

pub record RequestHeader : Type 0 where
  pub opcode : ℕ
  pub flags : ℕ
  pub payload_bytes : ℕ
  pub request_id : ℕ

-- `RequestHeader::new`.
unfoldable pub new_request : KnownOpcode → ℕ → ℕ → ℕ → RequestHeader
unfolding opcode_value
new_request opcode flags payload_bytes request_id = record {
  opcode = opcode_value opcode;
  flags = flags;
  payload_bytes = payload_bytes;
  request_id = request_id;
}

unfoldable pub known_opcode : RequestHeader → Result ℕ KnownOpcode
unfolding opcode_from
known_opcode h = opcode_from h.opcode

pub record ResponseHeader : Type 0 where
  pub status : ℕ
  pub flags : ℕ
  pub payload_bytes : ℕ
  pub request_id : ℕ

-- `ResponseHeader::new`.
unfoldable pub new_response : ℕ → ℕ → ℕ → ResponseHeader
new_response status payload_bytes request_id = record {
  status = status;
  flags = 0;
  payload_bytes = payload_bytes;
  request_id = request_id;
}

-- The opcode of a new request header is read back.
pub known_opcode-new_request :
    (op : KnownOpcode) (flags payload_bytes request_id : ℕ)
    → known_opcode (new_request op flags payload_bytes request_id) ≡ ok op
unfolding known_opcode new_request
known_opcode-new_request op flags payload_bytes request_id = opcode_from-opcode_value op
