-- ===== src/DeviceState/Inv.antt =====
-- The invariant of the device state. `pending` lists the events whose references are counted while
-- the event is not in the table: between two operations it is empty.
use virtio_accel.Prelude.{ℕ, ◌+◌, ◌-◌, ◌<◌, ◌≡◌, Bool, true, false, List, [], ◌∷◌, u32_mod}
use virtio_accel.ObjectTable.{ObjectTable}
use virtio_accel.ObjectTable.Valid.{total, IsValid}
use virtio_accel.DeviceState.Records.{
  u64_mod, ResourcePolicy, DeviceLimits, ChildCounts, ContextRecord, BufferRecord, ProgramRecord,
  QueueRecord, EventRecord, program_ids,
}
use virtio_accel.DeviceState.Graph.{DeviceState}
use virtio_accel.DeviceState.References.{count}
use virtio_accel.DeviceState.Counted.{hit, Counted}
use virtio_accel.DeviceState.Referenced.{EventRefs, Referenced}
use virtio_accel.DeviceState.Settled.{settled, AllOk}

-- How often an event uses a buffer, a program and a queue.
abbrev pub uses_buffer : EventRefs → ℕ → ℕ
uses_buffer e k = count k e.buffers

abbrev pub uses_program : EventRefs → ℕ → ℕ
uses_program e k = count k e.programs

abbrev pub uses_queue : EventRefs → ℕ → ℕ
uses_queue e k = hit e.queue_id k

abbrev pub contexts_of : List EventRefs → List ℕ
contexts_of [] = []
contexts_of (e ∷ pending) = e.context_id ∷ contexts_of pending

-- How many objects the context of these counts has.
abbrev pub children_sum : ChildCounts → ℕ
children_sum c = c.buffers + c.programs + c.queues + c.events

-- The backing bytes of a buffer, and what they exceed a `u64` by: nothing.
abbrev pub backing_bytes : {B : Type 0} → BufferRecord B → ℕ
backing_bytes b = b.info.allocation_bytes

abbrev pub backing_excess : {B : Type 0} → BufferRecord B → ℕ
backing_excess b = b.info.allocation_bytes - (u64_mod - 1)

abbrev pub has_program : {E : Type 0} → EventRecord E → Bool
has_program e = elim (program_ids e) [ [] ↦ false | _ ∷ _ ↦ true ]

-- The limits are `u32`, and the policy is of `u64`.
pub record LimitsOk (l : DeviceLimits) (p : ResourcePolicy) : Type 0 where
  pub contexts : l.max_contexts < u32_mod
  pub buffers : l.max_buffers_per_context < u32_mod
  pub programs : l.max_programs_per_context < u32_mod
  pub queues : l.max_queues_per_context < u32_mod
  pub events : l.max_events_per_context < u32_mod
  pub backing : p.max_buffer_backing_bytes < u64_mod
  pub resident : p.max_program_resident_bytes < u64_mod

pub record ContextsInv {C : Type 0} (contexts : ObjectTable (ContextRecord C)) : Type 0 where
  pub valid : IsValid contexts
  pub slots : AllOk (λ c. settled c.resource (children_sum c.children)) contexts

pub record BuffersInv {C B E : Type 0} (contexts : ObjectTable (ContextRecord C))
    (buffers : ObjectTable (BufferRecord B)) (events : ObjectTable (EventRecord E)) (backing : ℕ)
    (pending : List EventRefs) : Type 0 where
  pub valid : IsValid buffers
  pub kids : Counted (λ c. c.children.buffers) contexts (λ b. b.context_id) buffers []
  pub refs : Referenced (λ b. b.in_flight) (λ b. b.context_id) buffers uses_buffer events pending
  pub slots : AllOk (λ b. settled b.resource b.in_flight) buffers
  pub charged : backing ≡ total backing_bytes buffers
  pub words : total backing_excess buffers ≡ 0

pub record ProgramsInv {C P E : Type 0} (contexts : ObjectTable (ContextRecord C))
    (programs : ObjectTable (ProgramRecord P)) (events : ObjectTable (EventRecord E))
    (resident limit : ℕ) (pending : List EventRefs) : Type 0 where
  pub valid : IsValid programs
  pub kids : Counted (λ c. c.children.programs) contexts (λ p. p.context_id) programs []
  pub refs : Referenced (λ p. p.in_flight) (λ p. p.context_id) programs uses_program events pending
  pub slots : AllOk (λ p. settled p.resource p.in_flight) programs
  pub charged : resident ≡ total (λ p. p.resident_bytes) programs
  pub within : resident < limit + 1

pub record QueuesInv {C Q E : Type 0} (contexts : ObjectTable (ContextRecord C))
    (queues : ObjectTable (QueueRecord Q)) (events : ObjectTable (EventRecord E))
    (pending : List EventRefs) : Type 0 where
  pub valid : IsValid queues
  pub kids : Counted (λ c. c.children.queues) contexts (λ q. q.context_id) queues []
  pub refs : Referenced (λ q. q.in_flight) (λ q. q.context_id) queues uses_queue events pending
  pub slots : AllOk (λ q. settled q.resource q.in_flight) queues

pub record EventsInv {C E : Type 0} (contexts : ObjectTable (ContextRecord C))
    (events : ObjectTable (EventRecord E)) (pending : List EventRefs) : Type 0 where
  pub valid : IsValid events
  pub kids :
      Counted (λ c. c.children.events) contexts (λ e. e.context_id) events (contexts_of pending)
  pub slots : AllOk (λ e. settled e.resource 0) events
  pub programmed : AllOk has_program events

pub record Inv {C B P Q E : Type 0} (s : DeviceState C B P Q E) (pending : List EventRefs)
    : Type 0 where
  pub limits : LimitsOk s.limits s.policy
  pub contexts : ContextsInv s.contexts
  pub buffers : BuffersInv s.contexts s.buffers s.events s.retained.buffer_backing pending
  pub programs :
      ProgramsInv s.contexts s.programs s.events s.retained.program_resident
        s.policy.max_program_resident_bytes pending
  pub queues : QueuesInv s.contexts s.queues s.events pending
  pub events : EventsInv s.contexts s.events pending
