-- ===== src/Core/Tests.antt =====
-- The contract's properties at concrete values.
use virtio_accel.Prelude.{ℕ, ◌<◌, ◌≡◌, ◌≢◌, ◌↔◌, refl, arith, [], ok, err}
use virtio_accel.DeviceState.Records.{
  shared, BufferDesc, BufferInfo, ResourcePolicy, DeviceLimits, zero_limit,
}
use virtio_accel.DeviceState.Graph.{new}
use virtio_accel.Core.{new_info, BufferRange, new_range, range_end, range_end-new_range}
use virtio_accel.Core.Allocation.{Backs, new_info-eq-ok}
use virtio_accel.Core.Info.{DeviceInfo, validate_info, validate_buffer_info, new-validate_info}

abbrev desc : BufferDesc
desc = record { bytes = 100; alignment = 16; domain = shared; usage = 12 }

abbrev info : BufferInfo
info = record { desc = desc; allocation_bytes = 128; alignment = 64; properties = 5 }

accepted : new_info desc 128 64 5 ≡ ok info
unfolding new_info
accepted = refl

abbrev range : BufferRange
range = record { offset = 8; bytes = 24 }

in_range : new_range 8 24 ≡ ok range
unfolding new_range
in_range = refl

abbrev limits : DeviceLimits
limits = record {
  max_contexts = 2;
  max_buffers_per_context = 3;
  max_programs_per_context = 3;
  max_queues_per_context = 2;
  max_events_per_context = 4;
  max_bindings_per_submission = 4;
  max_buffer_bytes = 100;
  max_artifact_bytes = 100;
}

abbrev device_info : DeviceInfo
device_info = record {
  identity = record { uuid = []; class = 1; vendor_id = 2; device_id = 3 };
  capabilities = 33;
  limits = limits;
}

validated : validate_info device_info ≡ ok tt
unfolding validate_info
validated = refl

buffer_validated : validate_buffer_info device_info desc info ≡ ok tt
unfolding validate_buffer_info
buffer_validated = refl

new_info-eq-ok_example : (new_info desc 128 64 5 ≡ ok info) ↔ ((info ≡ info) × Backs desc 128 64 5)
new_info-eq-ok_example = new_info-eq-ok desc 128 64 5 info (omega arith)

range_end-new_range_example : (range_end range ≡ 32) × (8 < range_end range)
range_end-new_range_example = range_end-new_range 8 24 range in_range

abbrev policy : ResourcePolicy
policy = record { max_buffer_backing_bytes = 200; max_program_resident_bytes = 300 }

new-validate_info_example :
    new {C = ℕ} {B = ℕ} {P = ℕ} {Q = ℕ} {E = ℕ} 5 limits policy ≢ err zero_limit
new-validate_info_example =
    new-validate_info {C = ℕ} {B = ℕ} {P = ℕ} {Q = ℕ} {E = ℕ} device_info 5 policy validated
