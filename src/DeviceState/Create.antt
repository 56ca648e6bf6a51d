-- ===== src/DeviceState/Create.antt =====
-- The creation transitions of the device state: quotas and room first, the provider's closure next,
-- the object graph last (crates/virtio-accel-device/src/state.rs). A closure is a function of what
-- it is handed; what the allocator answers is an argument.
use virtio_accel.Prelude.{
  ℕ, not, ◌||◌, ltb, leb, ◌==◌, if◌then◌else◌, Result, ok, ◌>>=◌, ◌>>◌, reject_if, map_err, attempt,
  add_u32,
}
use virtio_accel.ObjectTable.{ObjectTable, Reserve, put, len, try_reserve_insert, insert_prepared}
use virtio_accel.DeviceState.Records.{
  DeviceStateError, invalid_argument, resource_limit, CreateError, state, provider, map_table_error,
  slot_get, new_slot, default_counts, saturating_add, BufferDesc, BufferInfo, desc_eq, incompatible,
  backend_resource_limit, BufferCreateOutcome, admitted, cleanup_required, ContextRecord,
}
use virtio_accel.DeviceState.Graph.{
  DeviceState, find, check_child_admission, buffer_child, program_child, queue_child,
}

-- `try_reserve_insert().map_err(map_table_error)`.
unfoldable pub reserve : {T : Type 0} → ObjectTable T → Reserve → Result DeviceStateError (Unit {0})
unfolding try_reserve_insert map_table_error
reserve t room = map_err map_table_error (try_reserve_insert t room)

-- What `create_buffer_with` reports of an allocation: it must match the request and fit the policy.
unfoldable pub buffer_outcome : BufferDesc → BufferInfo → ℕ → ℕ → ℕ → BufferCreateOutcome
unfolding desc_eq
buffer_outcome desc info retained limit id =
    if not (desc_eq info.desc desc)
    then cleanup_required id incompatible
    else if ltb limit retained
    then cleanup_required id backend_resource_limit
    else admitted id

module _ {C B P Q E Fault : Type 0} where
  unfoldable pub create_context_with :
      DeviceState C B P Q E
      → Reserve
      → Result Fault C
      → DeviceState C B P Q E × Result (CreateError Fault) ℕ
  unfolding reserve len insert_prepared new_slot default_counts
  create_context_with s room create =
      attempt s
        (do
          reject_if (leb s.limits.max_contexts (len s.contexts)) (state resource_limit)
          map_err state (reserve s.contexts room)
          map_err provider create)
        λ resource.
          let (contexts', id) =
            insert_prepared s.contexts
              (record { resource = new_slot resource; children = default_counts }) in
          (record s { contexts = contexts' }, ok id)

  -- The checks of `create_buffer_with`, up to what the provider returns, and the context.
  unfoldable pub prepare_buffer :
      DeviceState C B P Q E
      → Reserve
      → ℕ
      → BufferDesc
      → (C → BufferDesc → Result Fault (B × BufferInfo))
      → Result (CreateError Fault) (ContextRecord C × (B × BufferInfo))
  unfolding check_child_admission reserve find slot_get
  prepare_buffer s room context_id desc create = do
    reject_if (ltb s.limits.max_buffer_bytes desc.bytes) (state resource_limit)
    reject_if
        (ltb s.policy.max_buffer_backing_bytes
          (saturating_add s.retained.buffer_backing desc.bytes))
        (state resource_limit)
    map_err state (check_child_admission s context_id buffer_child s.limits.max_buffers_per_context)
    map_err state (reserve s.buffers room)
    context ← map_err state (find s.contexts context_id)
    owner ← map_err state (slot_get context.resource)
    made ← map_err provider (create owner desc)
    ok (context, made)

  unfoldable pub create_buffer_with :
      DeviceState C B P Q E
      → Reserve
      → ℕ
      → BufferDesc
      → (C → BufferDesc → Result Fault (B × BufferInfo))
      → DeviceState C B P Q E × Result (CreateError Fault) BufferCreateOutcome
  unfolding prepare_buffer insert_prepared new_slot buffer_outcome
  create_buffer_with s room context_id desc create =
      attempt s (prepare_buffer s room context_id desc create) λ (context, (resource, info)).
        let retained = saturating_add s.retained.buffer_backing info.allocation_bytes in
        let (buffers', id) = insert_prepared s.buffers (record {
          resource = new_slot resource;
          context_id = context_id;
          info = info;
          in_flight = 0;
        }) in
        let children = record (context.children) { buffers = add_u32 context.children.buffers 1 } in
        (
          record s {
            buffers = buffers';
            retained = record (s.retained) { buffer_backing = retained };
            contexts = put s.contexts context_id (record context { children = children });
          },
          ok (buffer_outcome desc info retained s.policy.max_buffer_backing_bytes id),
        )

  unfoldable pub prepare_program :
      DeviceState C B P Q E
      → Reserve
      → ℕ
      → ℕ
      → ℕ
      → (C → Result Fault P)
      → Result (CreateError Fault) (ContextRecord C × P)
  unfolding check_child_admission reserve find slot_get
  prepare_program s room context_id artifact_bytes resident_bytes create = do
    reject_if (artifact_bytes == 0 || resident_bytes == 0) (state invalid_argument)
    reject_if (ltb s.limits.max_artifact_bytes artifact_bytes) (state resource_limit)
    reject_if
        (ltb s.policy.max_program_resident_bytes
          (saturating_add s.retained.program_resident resident_bytes))
        (state resource_limit)
    map_err state
        (check_child_admission s context_id program_child s.limits.max_programs_per_context)
    map_err state (reserve s.programs room)
    context ← map_err state (find s.contexts context_id)
    owner ← map_err state (slot_get context.resource)
    made ← map_err provider (create owner)
    ok (context, made)

  unfoldable pub create_program_with :
      DeviceState C B P Q E
      → Reserve
      → ℕ
      → ℕ
      → ℕ
      → (C → Result Fault P)
      → DeviceState C B P Q E × Result (CreateError Fault) ℕ
  unfolding prepare_program insert_prepared new_slot
  create_program_with s room context_id artifact_bytes resident_bytes create =
      attempt s (prepare_program s room context_id artifact_bytes resident_bytes create)
        λ (context, resource).
          let (programs', id) = insert_prepared s.programs (record {
            resource = new_slot resource;
            context_id = context_id;
            resident_bytes = resident_bytes;
            in_flight = 0;
          }) in
          let retained = saturating_add s.retained.program_resident resident_bytes in
          let children = record (context.children) {
            programs = add_u32 context.children.programs 1;
          } in
          (
            record s {
              programs = programs';
              retained = record (s.retained) { program_resident = retained };
              contexts = put s.contexts context_id (record context { children = children });
            },
            ok id,
          )

  unfoldable pub prepare_queue :
      DeviceState C B P Q E
      → Reserve
      → ℕ
      → (C → Result Fault Q)
      → Result (CreateError Fault) (ContextRecord C × Q)
  unfolding check_child_admission reserve find slot_get
  prepare_queue s room context_id create = do
    map_err state (check_child_admission s context_id queue_child s.limits.max_queues_per_context)
    map_err state (reserve s.queues room)
    context ← map_err state (find s.contexts context_id)
    owner ← map_err state (slot_get context.resource)
    made ← map_err provider (create owner)
    ok (context, made)

  unfoldable pub create_queue_with :
      DeviceState C B P Q E
      → Reserve
      → ℕ
      → (C → Result Fault Q)
      → DeviceState C B P Q E × Result (CreateError Fault) ℕ
  unfolding prepare_queue insert_prepared new_slot
  create_queue_with s room context_id create =
      attempt s (prepare_queue s room context_id create) λ (context, resource).
        let (queues', id) =
          insert_prepared s.queues
            (record { resource = new_slot resource; context_id = context_id; in_flight = 0 }) in
        let children = record (context.children) { queues = add_u32 context.children.queues 1 } in
        (
          record s {
            queues = queues';
            contexts = put s.contexts context_id (record context { children = children });
          },
          ok id,
        )
