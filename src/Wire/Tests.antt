-- ===== src/Wire/Tests.antt =====
-- The wire properties at concrete values.
use virtio_accel.Prelude.{◌≡◌, ◌↔◌, ◌≤◌, ok}
use virtio_accel.Wire.{WireConfig, validate, validate_lem}

abbrev config : WireConfig
config = record {
  protocol_major = 1;
  protocol_minor = 3;
  command_queue_count = 1;
  max_chain_descriptors = 64;
  max_request_bytes = 97;
  max_response_bytes = 4096;
}

validate_lem_example : (validate config ≡ ok tt) ↔ (
    (config.protocol_major ≡ 1)
    × (config.command_queue_count ≡ 1)
    × (2 ≤ 64)
    × (64 ≤ 256)
    × (97 ≤ 97)
    × (97 ≤ 16777216)
    × (92 ≤ 4096)
    × (4096 ≤ 16777216))
validate_lem_example = validate_lem config
