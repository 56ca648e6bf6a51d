-- ===== src/DeviceState/Graph.antt =====
-- `DeviceState`: its construction, its accessors and the admission check of a child
-- (crates/virtio-accel-device/src/state.rs).
use virtio_accel.Prelude.{
  ℕ, ◌*◌, Bool, not, ◌&&◌, ◌||◌, ltb, leb, ◌==◌, if◌then◌else◌, Result, ok, err, ◌>>=◌, ◌>>◌,
  reject_if, map_err, u32_mod,
}
use virtio_accel.ObjectTable.{
  context, buffer, program, queue, event, ObjectTable, with_namespace, is_empty, get,
}
use virtio_accel.DeviceState.Records.{
  DeviceStateConfigError, zero_limit, binding_limit, count_overflow,
  config_reference_count_overflow, DeviceStateError, resource_limit, map_table_error, slot_get,
  ChildCounts, ResourcePolicy, RetainedBytes, DeviceLimits, ContextRecord, BufferRecord,
  ProgramRecord, QueueRecord, EventRecord,
}

pub record DeviceState (C B P Q E : Type 0) : Type 0 where
  pub namespace : ℕ
  pub limits : DeviceLimits
  pub policy : ResourcePolicy
  pub retained : RetainedBytes
  pub contexts : ObjectTable (ContextRecord C)
  pub buffers : ObjectTable (BufferRecord B)
  pub programs : ObjectTable (ProgramRecord P)
  pub queues : ObjectTable (QueueRecord Q)
  pub events : ObjectTable (EventRecord E)

abbrev pub hard_max_bindings : ℕ
hard_max_bindings = 4096

-- `a.checked_mul(b).ok_or(e)` on `u32`.
abbrev pub checked_mul {ℓ} : {E : Type ℓ} → ℕ → ℕ → E → Result E ℕ
checked_mul a b e = if ltb (a * b) u32_mod then ok (a * b) else err e

unfoldable pub aggregate_slots : ℕ → ℕ → Result DeviceStateConfigError ℕ
aggregate_slots contexts per_context = checked_mul contexts per_context count_overflow

pub data ChildKind : Type 0 where
  buffer_child program_child queue_child : ChildKind

unfoldable pub child_count : ChildKind → ChildCounts → ℕ
child_count buffer_child c = c.buffers
child_count program_child c = c.programs
child_count queue_child c = c.queues

-- A lookup with `map_err(map_table_error)`.
unfoldable pub find : {T : Type 0} → ObjectTable T → ℕ → Result DeviceStateError T
unfolding map_table_error
find t id = map_err map_table_error (get t id)

module _ {C B P Q E : Type 0} where
  unfoldable pub new :
      ℕ → DeviceLimits → ResourcePolicy → Result DeviceStateConfigError (DeviceState C B P Q E)
  unfolding aggregate_slots
  new namespace limits policy = do
    reject_if
        (limits.max_contexts == 0
          || limits.max_buffers_per_context == 0
          || limits.max_programs_per_context == 0
          || limits.max_queues_per_context == 0
          || limits.max_events_per_context == 0
          || limits.max_buffer_bytes == 0
          || limits.max_artifact_bytes == 0)
        zero_limit
    reject_if
        (not (
          leb 1 limits.max_bindings_per_submission
          && leb limits.max_bindings_per_submission hard_max_bindings))
        binding_limit
    checked_mul limits.max_events_per_context limits.max_bindings_per_submission
          config_reference_count_overflow
        >>= λ _. do
          buffers ← aggregate_slots limits.max_contexts limits.max_buffers_per_context
          programs ← aggregate_slots limits.max_contexts limits.max_programs_per_context
          queues ← aggregate_slots limits.max_contexts limits.max_queues_per_context
          events ← aggregate_slots limits.max_contexts limits.max_events_per_context
          ok (record {
            namespace = namespace;
            limits = limits;
            policy = policy;
            retained = record { buffer_backing = 0; program_resident = 0 };
            contexts = with_namespace context limits.max_contexts namespace;
            buffers = with_namespace buffer buffers namespace;
            programs = with_namespace program programs namespace;
            queues = with_namespace queue queues namespace;
            events = with_namespace event events namespace;
          })

  -- `DeviceState::is_empty`.
  unfoldable pub no_objects : DeviceState C B P Q E → Bool
  no_objects s =
      is_empty s.contexts
      && is_empty s.buffers
      && is_empty s.programs
      && is_empty s.queues
      && is_empty s.events

  unfoldable pub check_child_admission :
      DeviceState C B P Q E → ℕ → ChildKind → ℕ → Result DeviceStateError (Unit {0})
  unfolding find slot_get child_count
  check_child_admission s context_id child limit = do
    owner ← find s.contexts context_id
    _ ← slot_get owner.resource
    reject_if (leb limit (child_count child owner.children)) resource_limit
