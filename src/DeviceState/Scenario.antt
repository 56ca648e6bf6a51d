-- ===== src/DeviceState/Scenario.antt =====
-- A small device, run until it holds one context with a buffer, a program, a queue and an event.
use virtio_accel.Prelude.{ℕ, ◌≡◌, refl, true, some, none, [], ◌∷◌, arith, Result, ok}
use virtio_accel.ObjectTable.{
  Reserve, get, put, slot_number, kind_bits, tag, namespace_bits, generation_field, with_namespace,
  context, buffer, program, queue, event,
}
use virtio_accel.DeviceState.Records.{
  DeviceLimits, ResourcePolicy, BufferDesc, BufferInfo, host, live, ContextRecord, BufferRecord,
  ProgramRecord, QueueRecord, EventRecord,
}
use virtio_accel.DeviceState.Graph.{DeviceState, new, aggregate_slots}
use virtio_accel.DeviceState.Create.{
  create_context_with, create_buffer_with, create_program_with, create_queue_with,
}
use virtio_accel.DeviceState.Submit.{SubmissionResources, create_event_with}
use virtio_accel.DeviceState.Inv.{LimitsOk}
use virtio_accel.DeviceState.Admission.{SizesFit}
use virtio_accel.DeviceState.Reach.{
  create_context, create_buffer, create_program, create_queue, create_event, Reachable, constructed,
  then_step,
}

abbrev pub limits : DeviceLimits
limits = record {
  max_contexts = 2;
  max_buffers_per_context = 3;
  max_programs_per_context = 3;
  max_queues_per_context = 2;
  max_events_per_context = 4;
  max_bindings_per_submission = 4;
  max_buffer_bytes = 100;
  max_artifact_bytes = 100;
}

abbrev pub policy : ResourcePolicy
policy = record { max_buffer_backing_bytes = 200; max_program_resident_bytes = 300 }

abbrev pub State : Type 0
State = DeviceState ℕ ℕ ℕ ℕ ℕ

abbrev pub roomy : Reserve
roomy = record { slots = true; free = true }

abbrev pub buffer_desc : BufferDesc
buffer_desc = record { bytes = 16; alignment = 8; domain = host; usage = 1 }

abbrev pub buffer_info : BufferInfo
buffer_info = record { desc = buffer_desc; allocation_bytes = 24; alignment = 8; properties = 0 }

-- The provider of the tests: each call succeeds, with the resource 7 and its kind's own digit.
abbrev pub made : ℕ → Result ℕ ℕ
made n = ok n

abbrev pub made_buffer : ℕ → BufferDesc → Result ℕ (ℕ × BufferInfo)
made_buffer _ _ = ok (71, buffer_info)

abbrev pub made_event : SubmissionResources ℕ ℕ ℕ → Result ℕ ℕ
made_event _ = ok 74

abbrev pub s0 : State
s0 = record {
  namespace = 5;
  limits = limits;
  policy = policy;
  retained = record { buffer_backing = 0; program_resident = 0 };
  contexts = with_namespace context 2 5;
  buffers = with_namespace buffer 6 5;
  programs = with_namespace program 6 5;
  queues = with_namespace queue 4 5;
  events = with_namespace event 8 5;
}

pub constructed_s0 : new 5 limits policy ≡ ok s0
unfolding new aggregate_slots
constructed_s0 = refl

abbrev pub s1 : State
s1 = (create_context_with s0 roomy (made 70)).0

abbrev pub context_id : ℕ
context_id = 1407379178520577

abbrev pub s2 : State
s2 = (create_buffer_with s1 roomy context_id buffer_desc made_buffer).0

abbrev pub s3 : State
s3 = (create_program_with s2 roomy context_id 32 40 (λ _. made 72)).0

abbrev pub s4 : State
s4 = (create_queue_with s3 roomy context_id (λ _. made 73)).0

abbrev pub buffer_id : ℕ
buffer_id = 1407383473487873

abbrev pub program_id : ℕ
program_id = 1407387768455169

abbrev pub queue_id : ℕ
queue_id = 1407392063422465

-- The buffer is bound twice.
abbrev pub s5 : State
s5 = (create_event_with s4 roomy queue_id program_id (buffer_id ∷ buffer_id ∷ []) made_event).0

abbrev pub event_id : ℕ
event_id = 1407396358389761

abbrev pub the_context : ContextRecord ℕ
the_context = record {
  resource = record { resource = some 70; release = live };
  children = record { buffers = 1; programs = 1; queues = 1; events = 1 };
}

abbrev pub the_buffer : BufferRecord ℕ
the_buffer = record {
  resource = record { resource = some 71; release = live };
  context_id = context_id;
  info = buffer_info;
  in_flight = 2;
}

abbrev pub the_program : ProgramRecord ℕ
the_program = record {
  resource = record { resource = some 72; release = live };
  context_id = context_id;
  resident_bytes = 40;
  in_flight = 1;
}

abbrev pub the_queue : QueueRecord ℕ
the_queue = record {
  resource = record { resource = some 73; release = live };
  context_id = context_id;
  in_flight = 1;
}

abbrev pub the_event : EventRecord ℕ
the_event = record {
  resource = record { resource = some 74; release = live };
  context_id = context_id;
  queue_id = queue_id;
  program_id = program_id;
  sequence_program_ids = none;
  buffer_ids = buffer_id ∷ buffer_id ∷ [];
}

pub limits-LimitsOk : LimitsOk limits policy
limits-LimitsOk = ground arith

pub made_buffer-SizesFit : SizesFit made_buffer
made_buffer-SizesFit k desc made h = ground arith

pub reach1 : Reachable ℕ s1
reach1 =
    then_step s0 s1 (constructed 5 limits policy s0 limits-LimitsOk constructed_s0)
      (create_context s0 roomy (made 70))

pub reach4 : Reachable ℕ s4
reach4 =
    then_step s3 s4
      (then_step s2 s3
        (then_step s1 s2 reach1
          (create_buffer s1 roomy context_id buffer_desc made_buffer made_buffer-SizesFit))
        (create_program s2 roomy context_id 32 40 (λ _. made 72)))
      (create_queue s3 roomy context_id (λ _. made 73))

pub reach5 : Reachable ℕ s5
reach5 =
    then_step s4 s5 reach4
      (create_event s4 roomy queue_id program_id (buffer_id ∷ buffer_id ∷ []) made_event)

pub found_context : get s5.contexts context_id ≡ ok the_context
unfolding create_context_with create_buffer_with create_program_with create_queue_with
    create_event_with get slot_number kind_bits tag with_namespace namespace_bits generation_field
    put
found_context = refl

pub found_buffer : get s5.buffers buffer_id ≡ ok the_buffer
unfolding create_context_with create_buffer_with create_program_with create_queue_with
    create_event_with get slot_number kind_bits tag with_namespace namespace_bits generation_field
    put
found_buffer = refl

pub found_program : get s5.programs program_id ≡ ok the_program
unfolding create_context_with create_buffer_with create_program_with create_queue_with
    create_event_with get slot_number kind_bits tag with_namespace namespace_bits generation_field
    put
found_program = refl

pub found_queue : get s5.queues queue_id ≡ ok the_queue
unfolding create_context_with create_buffer_with create_program_with create_queue_with
    create_event_with get slot_number kind_bits tag with_namespace namespace_bits generation_field
    put
found_queue = refl

pub found_event : get s5.events event_id ≡ ok the_event
unfolding create_context_with create_buffer_with create_program_with create_queue_with
    create_event_with get slot_number kind_bits tag with_namespace namespace_bits generation_field
    put
found_event = refl
