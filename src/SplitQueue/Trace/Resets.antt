-- ===== src/SplitQueue/Trace/Resets.antt =====
-- Resets of a split queue of crates/virtio-accel-split-queue/src/queue.rs: what the driver gets back,
-- and what becomes of the chains that the device still owns.
use virtio_accel.Prelude.{
  ℕ, ◌≤◌, ◌<◌, ◌≡◌, Bool, true, false, List, [], ◌∷◌, length, sum_by, Option, none, some, refl, ◌∙◌,
  sym, arith, ok, err, get_elem?, All-get_elem?,
}
use virtio_accel.Transport.{QueueError, ReclaimedChain, ChainError, unconfigured}
use virtio_accel.SplitQueue.Chain.{DeviceChain, DriverChain, io}
use virtio_accel.SplitQueue.Ring.{RingStorage, ChainRecord, reclaim}
use virtio_accel.SplitQueue.Queue.{new_queue, SplitQueue, advance_epoch, reclaim_storage}
use virtio_accel.SplitQueue.Queue
use virtio_accel.SplitQueue.Queue.Transfer
use virtio_accel.Transport.Bytes.{reset}
use virtio_accel.SplitQueue.Copy.{ByteStore, source_read_at, sink_write_at}
use virtio_accel.SplitQueue.Entries.{present}
use virtio_accel.SplitQueue.Trace.{Trace, Op, step, run, begin}
use virtio_accel.SplitQueue.Trace.Inv.{TraceInv}
use virtio_accel.SplitQueue.Trace.Runs.{step-TraceInv, run-TraceInv}
use virtio_accel.SplitQueue.Trace.Sent.{SentInv, step-Kept, run-RunKept, run-SentInv}

-- How many chains a queue owns.
abbrev pub active : Option RingStorage → ℕ
active none = 0
active (some s) = s.active_chains

length-reclaim :
    (records : List (Option ChainRecord)) → length (reclaim records) ≡ sum_by present records
unfolding reclaim
length-reclaim [] = refl
length-reclaim (none ∷ records) = omega (arith, length-reclaim records)
length-reclaim (some r ∷ records) = omega (arith, length-reclaim records)

module _ {t : Trace} (inv : TraceInv t) (epoch : ℕ) where
  length-reclaim_storage :
      (o : Option RingStorage) → t.queue.storage ≡ o → length (reclaim_storage o) ≡ active o
  unfolding reclaim_storage
  length-reclaim_storage none e = refl
  length-reclaim_storage (some s) e =
      length-reclaim s.records ∙ sym (inv.queue.stored s e).0.rings.active_number

  -- In a queue with the invariant, a reset by the driver to a later epoch gives back as many chains as
  -- the queue owned, and leaves the queue with no size, not ready and without storage, in that epoch.
  pub driver_reset-returns :
      t.queue.state.epoch < epoch
      → (chains : List (ReclaimedChain DriverChain)) × ((Queue.driver_reset t.queue epoch).1
          ≡ ok chains)
        × (length chains ≡ active t.queue.storage)
        × ((Queue.driver_reset t.queue epoch).0.storage ≡ none)
        × ((Queue.driver_reset t.queue epoch).0.state ≡ unconfigured t.queue.state.max_size epoch)
  unfolding Queue.driver_reset advance_epoch unconfigured
  driver_reset-returns later = (
    reclaim_storage t.queue.storage,
    ground arith,
    length-reclaim_storage t.queue.storage refl,
    ground arith,
    ground arith,
  )

-- A reset by the driver or by the device.
abbrev pub reset_by : Bool → ℕ → Op
reset_by true epoch = Op.driver_reset epoch
reset_by false epoch = Op.device_reset epoch

reset_by-epoch :
    (t : Trace) (by_driver : Bool) (epoch : ℕ)
    → t.queue.state.epoch < epoch
    → (step (reset_by by_driver epoch) t).queue.state.epoch ≡ epoch
unfolding step Queue.driver_reset Queue.device_reset advance_epoch unconfigured
reset_by-epoch t true epoch later = ground arith
reset_by-epoch t false epoch later = ground arith

-- A chain of an earlier epoch.
module _ (q : SplitQueue) (c : DeviceChain) (old : c.id.epoch < q.state.epoch)
    (shared : q.current_epoch ≡ q.state.epoch) where
  io-stale : io c q.current_epoch ≡ err (ChainError.reset_race c.id.epoch q.state.epoch)
  unfolding io
  io-stale = ground arith

  read-stale :
      (store : ByteStore) (offset count : ℕ)
      → source_read_at store c q.current_epoch offset count ≡ err reset
  unfolding source_read_at
  read-stale store offset count = ground arith

  write-stale :
      (store : ByteStore) (offset : ℕ) (source : List ℕ)
      → sink_write_at store c q.current_epoch offset source ≡ (store, err reset)
  unfolding sink_write_at
  write-stale store offset source = ground arith

  complete-stale :
      (used : ℕ)
      → Transfer.complete q c used ≡ (q, err (QueueError.reset_race c.id.epoch q.state.epoch))
  unfolding Transfer.complete
  complete-stale used = ground arith

-- In any run from a new queue, once the driver or the device has reset the queue to a later epoch, and
-- whatever calls follow, every chain that the device owned at the reset is stale: its regions are
-- refused as a reset race, a read and a write through the ports that the device already has are
-- refused and write nothing, and its completion is refused as a reset race and changes nothing.
pub reset-stale :
    (max_size max_chain : ℕ) {q : SplitQueue} (before later : List Op) (by_driver : Bool)
    (epoch i : ℕ) (c : DeviceChain) (used offset count : ℕ) (source : List ℕ) (store : ByteStore)
    → new_queue max_size max_chain ≡ ok q
    → (run before (begin q)).queue.state.epoch < epoch
    → get_elem? (run before (begin q)).outstanding i ≡ some c
    → let now = (run later (step (reset_by by_driver epoch) (run before (begin q)))).queue in
      (io c now.current_epoch ≡ err (ChainError.reset_race c.id.epoch now.state.epoch))
      × (source_read_at store c now.current_epoch offset count ≡ err reset)
      × (sink_write_at store c now.current_epoch offset source ≡ (store, err reset))
      × (Transfer.complete now c used
          ≡ (now, err (QueueError.reset_race c.id.epoch now.state.epoch)))
reset-stale max_size max_chain {q} before later by_driver epoch i c used offset count source store
      made advanced owned =
    let t : Trace = run before (begin q) in
    let inv : TraceInv t = run-TraceInv max_size max_chain before made in
    let sent : SentInv t = run-SentInv max_size max_chain before made in
    let after =
      run-RunKept later (step-TraceInv (reset_by by_driver epoch) inv)
        (step-Kept inv sent (reset_by by_driver epoch)).0 in
    let had : c.id.epoch ≤ t.queue.state.epoch =
      All-get_elem? (λ d. d.id.epoch ≤ t.queue.state.epoch) t.outstanding i c inv.no_later owned in
    let now : SplitQueue = (run later (step (reset_by by_driver epoch) t)).queue in
    let old : c.id.epoch < now.state.epoch =
      omega (arith, had, advanced, after.later, reset_by-epoch t by_driver epoch advanced) in
    let shared : now.current_epoch ≡ now.state.epoch = after.invariant.queue.epoch_shared in
    (
      io-stale now c old shared,
      read-stale now c old shared store offset count,
      write-stale now c old shared store offset source,
      complete-stale now c old shared used,
    )
