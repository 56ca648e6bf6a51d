-- ===== src/DeviceState/Rebase.antt =====
-- A table's invariant is stated over the tables beside it: with its counts shown against other
-- contexts and other events, the rest of it stays.
use virtio_accel.Prelude.{ℕ, List, []}
use virtio_accel.ObjectTable.{ObjectTable}
use virtio_accel.DeviceState.Records.{
  ContextRecord, BufferRecord, ProgramRecord, QueueRecord, EventRecord,
}
use virtio_accel.DeviceState.Counted.{Counted}
use virtio_accel.DeviceState.Referenced.{EventRefs, Referenced}
use virtio_accel.DeviceState.Inv.{
  uses_buffer, uses_program, uses_queue, contexts_of, BuffersInv, ProgramsInv, QueuesInv, EventsInv,
}

module _ {C E : Type 0} (contexts contexts' : ObjectTable (ContextRecord C))
    (events events' : ObjectTable (EventRecord E)) (pending pending' : List EventRefs) where
  pub rebase_buffers :
      {B : Type 0} (buffers : ObjectTable (BufferRecord B)) (backing : ℕ)
      → Counted (λ c. c.children.buffers) contexts' (λ b. b.context_id) buffers []
      → Referenced (λ b. b.in_flight) (λ b. b.context_id) buffers uses_buffer events' pending'
      → BuffersInv contexts buffers events backing pending
      → BuffersInv contexts' buffers events' backing pending'
  rebase_buffers buffers backing kids refs v = record {
    valid = v.valid;
    kids = kids;
    refs = refs;
    slots = v.slots;
    charged = v.charged;
    words = v.words;
  }

  pub rebase_programs :
      {P : Type 0} (programs : ObjectTable (ProgramRecord P)) (resident limit : ℕ)
      → Counted (λ c. c.children.programs) contexts' (λ p. p.context_id) programs []
      → Referenced (λ p. p.in_flight) (λ p. p.context_id) programs uses_program events' pending'
      → ProgramsInv contexts programs events resident limit pending
      → ProgramsInv contexts' programs events' resident limit pending'
  rebase_programs programs resident limit kids refs v = record {
    valid = v.valid;
    kids = kids;
    refs = refs;
    slots = v.slots;
    charged = v.charged;
    within = v.within;
  }

  pub rebase_queues :
      {Q : Type 0} (queues : ObjectTable (QueueRecord Q))
      → Counted (λ c. c.children.queues) contexts' (λ q. q.context_id) queues []
      → Referenced (λ q. q.in_flight) (λ q. q.context_id) queues uses_queue events' pending'
      → QueuesInv contexts queues events pending
      → QueuesInv contexts' queues events' pending'
  rebase_queues queues kids refs v = record {
    valid = v.valid;
    kids = kids;
    refs = refs;
    slots = v.slots;
  }

module _ {C E : Type 0} (contexts contexts' : ObjectTable (ContextRecord C))
    (events : ObjectTable (EventRecord E)) (pending pending' : List EventRefs) where
  pub rebase_events :
      Counted (λ c. c.children.events) contexts' (λ e. e.context_id) events (contexts_of pending')
      → EventsInv contexts events pending
      → EventsInv contexts' events pending'
  rebase_events kids v = record {
    valid = v.valid;
    kids = kids;
    slots = v.slots;
    programmed = v.programmed;
  }
