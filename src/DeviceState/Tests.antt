-- ===== src/DeviceState/Tests.antt =====
-- The properties at the states of the scenario, and at states where a release has begun.
use virtio_accel.Prelude.{ℕ, ◌≤◌, ◌≡◌, refl, true, none, [], arith, is_some, ok, err}
use virtio_accel.ObjectTable.{
  get, put, slot_number, kind_bits, tag, namespace_bits, generation_field, with_namespace,
}
use virtio_accel.ObjectTable.Valid.{total}
use virtio_accel.DeviceState.Records.{
  releasing, busy, ContextRecord, BufferRecord, ProgramRecord, QueueRecord,
}
use virtio_accel.DeviceState.References.{count}
use virtio_accel.DeviceState.Create.{
  create_context_with, create_buffer_with, create_program_with, create_queue_with,
}
use virtio_accel.DeviceState.Submit.{create_event_with}
use virtio_accel.DeviceState.Release.{
  begin_context_release, begin_buffer_release, begin_program_release, begin_queue_release,
  commit_buffer_release, commit_program_release,
}
use virtio_accel.DeviceState.Counted.{hit}
use virtio_accel.DeviceState.Inv.{Inv, backing_bytes}
use virtio_accel.DeviceState.Start.{new-Inv}
use virtio_accel.DeviceState.Reach.{
  create_context, begin_buffer, begin_program, then_step, Step-Inv, Reachable-Inv,
}
use virtio_accel.DeviceState.Promises.{
  retained-exact, children-exact, buffer_in_flight-exact, used_buffer, commit_buffer-ok,
  commit_program-ok,
}
use virtio_accel.DeviceState.Scenario.{
  limits, policy, State, roomy, made, s0, constructed_s0, s1, context_id, s4, buffer_id, program_id,
  queue_id, s5, event_id, the_context, the_buffer, the_program, the_queue, the_event,
  limits-LimitsOk, reach4, reach5, found_context, found_buffer, found_event,
}

-- The witnesses.
Reachable-Inv_example : Inv s5 []
Reachable-Inv_example = Reachable-Inv ℕ s5 reach5

Step-Inv_example : Inv s1 []
Step-Inv_example =
    Step-Inv ℕ s0 s1 (create_context s0 roomy (made 70))
      (new-Inv 5 limits policy s0 limits-LimitsOk constructed_s0)

retained-exact_example :
    (s5.retained.buffer_backing ≡ total backing_bytes s5.buffers)
    × (s5.retained.program_resident ≡ total (λ p. p.resident_bytes) s5.programs)
    × (s5.retained.program_resident ≤ s5.policy.max_program_resident_bytes)
retained-exact_example = retained-exact ℕ s5 reach5

children-exact_example :
    (1 ≡ total (λ b. hit b.context_id context_id) s5.buffers)
    × (1 ≡ total (λ p. hit p.context_id context_id) s5.programs)
    × (1 ≡ total (λ q. hit q.context_id context_id) s5.queues)
    × (1 ≡ total (λ e. hit e.context_id context_id) s5.events)
children-exact_example = children-exact ℕ s5 context_id the_context reach5 found_context

buffer_in_flight-exact_example : 2 ≡ total (λ e. count buffer_id e.buffer_ids) s5.events
buffer_in_flight-exact_example =
    buffer_in_flight-exact ℕ s5 buffer_id the_buffer reach5 found_buffer

used_buffer_example :
    ((x : BufferRecord ℕ) × (get s5.buffers buffer_id ≡ ok x)
      × (x.context_id ≡ context_id)
      × (is_some x.resource.resource ≡ true))
    × (begin_buffer_release s5 buffer_id ≡ (s5, err busy))
unfolding count
used_buffer_example =
    used_buffer ℕ s5 event_id buffer_id the_event reach5 found_event (ground arith)

abbrev going_context_state : State
going_context_state = (begin_context_release s1 context_id).0

abbrev going_context : ContextRecord ℕ
going_context = record {
  resource = record { resource = none; release = releasing };
  children = record { buffers = 0; programs = 0; queues = 0; events = 0 };
}

found_going_context : get going_context_state.contexts context_id ≡ ok going_context
unfolding create_context_with create_buffer_with create_program_with create_queue_with
    create_event_with get slot_number kind_bits tag with_namespace namespace_bits generation_field
    put begin_context_release
found_going_context = refl

abbrev going_buffer_state : State
going_buffer_state = (begin_buffer_release s4 buffer_id).0

abbrev going_buffer : BufferRecord ℕ
going_buffer = record the_buffer {
  resource = record { resource = none; release = releasing };
  in_flight = 0;
}

found_going_buffer : get going_buffer_state.buffers buffer_id ≡ ok going_buffer
unfolding create_context_with create_buffer_with create_program_with create_queue_with
    create_event_with get slot_number kind_bits tag with_namespace namespace_bits generation_field
    put begin_buffer_release
found_going_buffer = refl

commit_buffer-ok_example : (commit_buffer_release going_buffer_state buffer_id).1 ≡ ok tt
commit_buffer-ok_example =
    commit_buffer-ok ℕ going_buffer_state buffer_id going_buffer
      (then_step s4 going_buffer_state reach4 (begin_buffer s4 buffer_id)) found_going_buffer refl

abbrev going_program_state : State
going_program_state = (begin_program_release s4 program_id).0

abbrev going_program : ProgramRecord ℕ
going_program = record the_program {
  resource = record { resource = none; release = releasing };
  in_flight = 0;
}

found_going_program : get going_program_state.programs program_id ≡ ok going_program
unfolding create_context_with create_buffer_with create_program_with create_queue_with
    create_event_with get slot_number kind_bits tag with_namespace namespace_bits generation_field
    put begin_program_release
found_going_program = refl

commit_program-ok_example : (commit_program_release going_program_state program_id).1 ≡ ok tt
commit_program-ok_example =
    commit_program-ok ℕ going_program_state program_id going_program
      (then_step s4 going_program_state reach4 (begin_program s4 program_id)) found_going_program
      refl

abbrev going_queue_state : State
going_queue_state = (begin_queue_release s4 queue_id).0

abbrev going_queue : QueueRecord ℕ
going_queue = record the_queue {
  resource = record { resource = none; release = releasing };
  in_flight = 0;
}

found_going_queue : get going_queue_state.queues queue_id ≡ ok going_queue
unfolding create_context_with create_buffer_with create_program_with create_queue_with
    create_event_with get slot_number kind_bits tag with_namespace namespace_bits generation_field
    put begin_queue_release
found_going_queue = refl
