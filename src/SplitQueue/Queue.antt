-- ===== src/SplitQueue/Queue.antt =====
-- The operations of crates/virtio-accel-split-queue/src/queue.rs: `SplitQueue` with its
-- implementations of `QueueControl`, `DriverQueue` and `DeviceQueue`. A method with `&mut self`
-- returns the queue and its result. The cell `current_epoch`, which the device's chains share, is a
-- field; an access by a chain takes its value.
pub mod Transfer
use virtio_accel.Prelude.{
  ℕ, zero, suc, ◌+◌, ◌-◌, ◌%◌, ◌^◌, Bool, true, false, not, ◌&&◌, ◌||◌, ltb, leb, ◌==◌,
  if◌then◌else◌, List, [], ◌∷◌, length, get_elem?, set, Option, none, some, is_some, Result, ok,
  err, ◌>>=◌, ◌>>◌, reject_if, attempt, map_err, ok_or,
}
use virtio_accel.Transport.{
  ChainId, id_eq, QueueState, unconfigured, new_state, initial_epoch, QueueError, QueueConfigError,
  PublishErrorKind, PublishError, PublishedChain, NotificationHint, NotificationRecheck, UsedChain,
  ReclaimedChain, suppressed, notify, idle, work_pending, size_exceeds_maximum,
  non_increasing_epoch,
}
use virtio_accel.SplitQueue.Chain.{
  DriverChain, DeviceChain, chain_descriptor_count, validation, side_len,
}
use virtio_accel.SplitQueue.Ring.{
  RingStorage, ChainRecord, ChainState, UsedElement, SplitQueueError, at, wrapping_add, ring_slot,
  new_storage, allocate_descriptors, release_descriptors, reclaim, corrupt_state, busy,
  invalid_test_state, chain_limit_exceeds_queue, malformed_driver_chain, allocation_failed,
}

pub data SplitQueueInitError : Type 0 where
  descriptor_limit : SplitQueueInitError

pub record SplitQueue : Type 0 where
  pub state : QueueState
  pub max_chain_descriptors : ℕ
  pub current_epoch : ℕ
  pub storage : Option RingStorage
  pub available_notifications : Bool
  pub used_notifications : Bool

-- The errors and results of the operations.
abbrev pub Error : Type 0
Error = QueueError SplitQueueError

abbrev pub Outcome {ℓ} : Type ℓ → Type ℓ
Outcome A = SplitQueue × Result Error A

-- `==` on chain states.
abbrev pub is_available : ChainState → Bool
is_available ChainState.available = true
is_available _ = false

abbrev pub is_in_flight : ChainState → Bool
is_in_flight ChainState.in_flight = true
is_in_flight _ = false

abbrev pub is_used : ChainState → Bool
is_used ChainState.used = true
is_used _ = false

-- `SplitQueue::new`.
unfoldable pub new_queue : ℕ → ℕ → Result SplitQueueInitError SplitQueue
unfolding unconfigured
new_queue max_size max_chain_descriptors = do
  reject_if (ltb max_chain_descriptors 2 || ltb max_size max_chain_descriptors) descriptor_limit
  ok (record {
    state = unconfigured max_size initial_epoch;
    max_chain_descriptors = max_chain_descriptors;
    current_epoch = initial_epoch;
    storage = none;
    available_notifications = true;
    used_notifications = true;
  })

-- The hint of `publish` and of `complete`.
abbrev pub hint : Bool → NotificationHint
hint notifications = if notifications then notify else suppressed

abbrev pub recheck : ℕ → NotificationRecheck
recheck count = if count == 0 then idle else work_pending

-- `self.storage_mut()?`, with what follows on the storage.
abbrev pub with_storage {ℓ} :
    {A : Type ℓ} → SplitQueue → (RingStorage → RingStorage × Result Error A) → Outcome A
with_storage q f = elim q.storage [
  | none ↦ (q, err QueueError.not_ready)
  | some s ↦ let (s', result) = f s in (record q { storage = some s' }, result)
]

unfoldable pub set_empty_ring_index : SplitQueue → ℕ → Outcome (Unit {0})
set_empty_ring_index q index = with_storage q λ s.
    if not (s.active_chains == 0) then (s, err (QueueError.transport busy)) else (
      record s {
        available_index = index;
        consumed_available = index;
        used_index = index;
        consumed_used = index;
        available_count = 0;
        used_count = 0;
      },
      ok tt,
    )

unfoldable pub set_next_descriptor : SplitQueue → ℕ → Outcome (Unit {0})
set_next_descriptor q index = with_storage q λ s.
    if leb s.size index
    then (s, err (QueueError.transport invalid_test_state))
    else (record s { next_descriptor = index }, ok tt)

-- `advance_epoch`: the storage that the reset takes out.
unfoldable pub advance_epoch : SplitQueue → ℕ → Outcome (Option RingStorage)
unfolding unconfigured
advance_epoch q next_epoch =
    if leb next_epoch q.state.epoch
    then (q, err (QueueError.invalid_configuration non_increasing_epoch))
    else (
      record q {
        current_epoch = next_epoch;
        state = unconfigured q.state.max_size next_epoch;
        available_notifications = true;
        used_notifications = true;
        storage = none;
      },
      ok q.storage,
    )

unfoldable pub reclaim_storage : Option RingStorage → List (ReclaimedChain DriverChain)
unfolding reclaim
reclaim_storage none = []
reclaim_storage (some s) = reclaim s.records

-- `DriverQueue::reset`, and `DeviceQueue::reset`, which drops the chains.
unfoldable pub driver_reset : SplitQueue → ℕ → Outcome (List (ReclaimedChain DriverChain))
unfolding advance_epoch reclaim_storage
driver_reset q next_epoch =
    let (q', result) = advance_epoch q next_epoch in
    elim result [ err e ↦ (q', err e) | ok storage ↦ (q', ok (reclaim_storage storage)) ]

unfoldable pub device_reset : SplitQueue → ℕ → Outcome (Unit {0})
unfolding advance_epoch
device_reset q next_epoch =
    let (q', result) = advance_epoch q next_epoch in
    elim result [ err e ↦ (q', err e) | ok _ ↦ (q', ok tt) ]

abbrev pub has_chains : Option RingStorage → Bool
has_chains none = false
has_chains (some s) = not (s.active_chains == 0)

unfoldable pub configure : (ℕ → Bool) → SplitQueue → ℕ → Outcome (Unit {0})
unfolding new_storage new_state
configure reserve q size = attempt q (reject_if q.state.ready (QueueError.transport busy)) λ _.
    attempt q
      (reject_if (ltb q.state.max_size size)
        (QueueError.invalid_configuration size_exceeds_maximum))
      λ _.
        attempt q
          (reject_if (ltb size q.max_chain_descriptors)
            (QueueError.transport chain_limit_exceeds_queue))
          λ _. attempt q (reject_if (has_chains q.storage) (QueueError.transport busy)) λ _.
            attempt q (map_err QueueError.transport (new_storage reserve size)) λ s.
              attempt q
                (map_err QueueError.invalid_configuration
                  (new_state q.state.max_size (some size) false q.state.epoch))
                λ state. (record q { state = state; storage = some s }, ok tt)

unfoldable pub set_ready : SplitQueue → Bool → Outcome (Unit {0})
unfolding new_state
set_ready q ready =
    attempt q
      (map_err QueueError.invalid_configuration
        (new_state q.state.max_size q.state.size ready q.state.epoch))
      λ state. (record q { state = state }, ok tt)
