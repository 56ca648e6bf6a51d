-- ===== src/SplitQueue/Trace/Runs.antt =====
-- What holds after any sequence of calls on a split queue of
-- crates/virtio-accel-split-queue/src/queue.rs.
use virtio_accel.Prelude.{ℕ, ◌≡◌, List, [], ◌∷◌, arith, ok}
use virtio_accel.Transport.{unconfigured}
use virtio_accel.SplitQueue.Queue.{SplitQueue, new_queue}
use virtio_accel.SplitQueue.Trace.{Trace, Op, step, run, begin}
use virtio_accel.SplitQueue.Trace.Inv.{TraceInv}
use virtio_accel.SplitQueue.Trace.Transfers.{
  publish-TraceInv, inject_available-TraceInv, pop_available-TraceInv, pop_used-TraceInv,
  abandon-TraceInv, complete-TraceInv,
}
use virtio_accel.SplitQueue.Trace.Control.{
  Switched-TraceInv, enable_available-Switched, enable_used-Switched, disable_available-Switched,
  disable_used-Switched, set_ready-TraceInv, driver_reset-TraceInv, device_reset-TraceInv,
}
use virtio_accel.SplitQueue.Trace.Configure.{
  configure-TraceInv, set_next_descriptor-TraceInv, set_empty_ring_index-TraceInv,
}

-- Each call keeps the invariant of a trace, whether it succeeds or fails.
pub step-TraceInv : (op : Op) {t : Trace} → TraceInv t → TraceInv (step op t)
unfolding step
step-TraceInv (Op.publish chain c) inv = publish-TraceInv inv chain c
step-TraceInv (Op.inject_available chain c) inv = inject_available-TraceInv inv chain c
step-TraceInv Op.pop_available inv = pop_available-TraceInv inv
step-TraceInv Op.pop_used inv = pop_used-TraceInv inv
step-TraceInv (Op.complete i used) inv = complete-TraceInv inv i used
step-TraceInv (Op.abandon i) inv = abandon-TraceInv inv i
step-TraceInv (Op.configure reserve value size e) inv = configure-TraceInv inv reserve value size e
step-TraceInv (Op.set_ready ready) inv = set_ready-TraceInv inv ready
step-TraceInv (Op.driver_reset epoch) inv = driver_reset-TraceInv inv epoch
step-TraceInv (Op.device_reset epoch) inv = device_reset-TraceInv inv epoch
step-TraceInv (Op.set_empty_ring_index index lt) inv = set_empty_ring_index-TraceInv inv index lt
step-TraceInv (Op.set_next_descriptor index) inv = set_next_descriptor-TraceInv inv index
step-TraceInv Op.enable_available inv = Switched-TraceInv _ inv (enable_available-Switched inv)
step-TraceInv Op.disable_available inv = Switched-TraceInv _ inv (disable_available-Switched inv)
step-TraceInv Op.enable_used inv = Switched-TraceInv _ inv (enable_used-Switched inv)
step-TraceInv Op.disable_used inv = Switched-TraceInv _ inv (disable_used-Switched inv)

run_from-TraceInv : (ops : List Op) {t : Trace} → TraceInv t → TraceInv (run ops t)
unfolding run
run_from-TraceInv [] inv = inv
run_from-TraceInv (op ∷ ops) inv = run_from-TraceInv ops (step-TraceInv op inv)

begin-TraceInv :
    (max_size max_chain : ℕ) {q : SplitQueue}
    → new_queue max_size max_chain ≡ ok q
    → TraceInv (begin q)
unfolding new_queue unconfigured
begin-TraceInv max_size max_chain {q} e = record {
  queue = record {
    epoch_shared = ground arith;
    stored = λ s found. absurd (ground (arith, found));
    size_stored = ground arith;
    ready_stored = λ on. absurd (ground (arith, on));
  };
  available_fifo = ground arith;
  used_fifo = ground arith;
  no_later = tt;
  in_flight = λ h. omega arith;
}

-- After any sequence of calls on a new queue, by its driver and its device in any order and whether
-- they succeed or fail: the shared epoch is the queue's; a ready queue has a storage of its size; in
-- the storage the counts, the rings, the records and the owners of the descriptors agree; the chains
-- published are those popped and then those in the available ring, the chains completed are those
-- given back and then those in the used ring, in order; and each chain of the present epoch that the
-- device owns is in flight, once.
pub run-TraceInv :
    (max_size max_chain : ℕ) {q : SplitQueue} (ops : List Op)
    → new_queue max_size max_chain ≡ ok q
    → TraceInv (run ops (begin q))
run-TraceInv max_size max_chain ops made =
    run_from-TraceInv ops (begin-TraceInv max_size max_chain made)
