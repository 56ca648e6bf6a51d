-- ===== src/SplitQueue/Queue/Transfer.antt =====
-- The transfer of chains in crates/virtio-accel-split-queue/src/queue.rs: publication, the two pops,
-- completion, and the notification switches.
use virtio_accel.Prelude.{
  ℕ, ◌+◌, ◌-◌, ◌^◌, Bool, true, false, not, ◌||◌, ltb, leb, ◌==◌, if◌then◌else◌, get_elem?, set,
  Option, none, some, is_some, Result, ok, err,
}
use virtio_accel.Transport.{
  ChainId, id_eq, QueueError, PublishErrorKind, PublishError, PublishedChain, NotificationHint,
  NotificationRecheck, UsedChain,
}
use virtio_accel.SplitQueue.Chain.{
  DriverChain, DeviceChain, chain_descriptor_count, validation, side_len,
}
use virtio_accel.SplitQueue.Ring.{
  RingStorage, ChainState, SplitQueueError, at, wrapping_add, ring_slot, allocate_descriptors,
  release_descriptors, corrupt_state, malformed_driver_chain,
}
use virtio_accel.SplitQueue.Queue.{
  SplitQueue, Error, Outcome, is_available, is_in_flight, is_used, hint, recheck, with_storage,
}

-- The checks of `publish_inner` on a chain that is not injected.
unfoldable pub check_chain :
    SplitQueue → DriverChain → Bool → Option (PublishErrorKind SplitQueueError)
check_chain q chain inject_malformed = if inject_malformed then none else elim (validation chain) [
  | err error ↦ some (PublishErrorKind.transport (malformed_driver_chain error))
  | ok _ ↦
      if ltb q.max_chain_descriptors (chain_descriptor_count chain)
      then some PublishErrorKind.insufficient_descriptors
      else none
]

-- The writes of `publish_inner`, once the descriptors are allocated.
unfoldable pub enqueue : RingStorage → ChainId → ℕ → DriverChain → RingStorage
enqueue s id head chain = record s {
  records =
      set s.records head (some (record { id = id; state = ChainState.available; chain = chain }));
  available = set s.available (ring_slot s.size s.available_index) head;
  available_index = wrapping_add s.available_index 1;
  available_count = s.available_count + 1;
  active_chains = s.active_chains + 1;
}

-- A refused publication gives the chain back.
abbrev pub Published : Type 0
Published = Result (PublishError DriverChain SplitQueueError) PublishedChain

-- The part of `publish_inner` that changes the storage.
unfoldable pub publish_storage : RingStorage → ℕ → Bool → DriverChain → RingStorage × Published
unfolding enqueue
publish_storage s epoch notifications chain =
    let (s', chain', allocated) = allocate_descriptors s chain in
    elim allocated [
      | err error ↦ (s', err (record { chain = chain'; kind = PublishErrorKind.transport error }))
      | ok head ↦
          if is_some (at s'.records head)
          then (
            release_descriptors s' chain',
            err (record { chain = chain'; kind = PublishErrorKind.transport corrupt_state }),
          )
          else (
            enqueue s' (record { epoch = epoch; token = head }) head chain',
            ok (record {
              id = record { epoch = epoch; token = head };
              notification = hint notifications;
            }),
          )
    ]

unfoldable pub publish_inner : SplitQueue → DriverChain → Bool → SplitQueue × Published
unfolding check_chain publish_storage
publish_inner q chain inject_malformed =
    if not q.state.ready
    then (q, err (record { chain = chain; kind = PublishErrorKind.not_ready }))
    else elim (check_chain q chain inject_malformed) [
      | some kind ↦ (q, err (record { chain = chain; kind = kind }))
      | none ↦ elim q.storage [
        | none ↦
            (q, err (record { chain = chain; kind = PublishErrorKind.transport corrupt_state }))
        | some s ↦
            if s.available_count == s.size
            then (q, err (record { chain = chain; kind = PublishErrorKind.queue_full }))
            else if ltb s.free_descriptors (chain_descriptor_count chain)
            then (
              q,
              err (record { chain = chain; kind = PublishErrorKind.insufficient_descriptors }),
            )
            else (let (s', result) =
                  publish_storage s q.state.epoch q.available_notifications chain in
                (record q { storage = some s' }, result))
      ]
    ]

-- `DriverQueue::publish` and `inject_available`.
unfoldable pub publish : SplitQueue → DriverChain → SplitQueue × Published
unfolding publish_inner
publish q chain = publish_inner q chain false

unfoldable pub inject_available : SplitQueue → DriverChain → SplitQueue × Published
unfolding publish_inner
inject_available q chain = publish_inner q chain true

-- `pop_used`, on the storage.
unfoldable pub pop_used_storage :
    RingStorage → RingStorage × Result Error (Option (UsedChain DriverChain))
pop_used_storage s =
    if s.used_count == 0
    then (s, ok none)
    else (let slot = ring_slot s.size s.consumed_used in
        elim (at s.used slot) [
          | none ↦ (s, err (QueueError.transport corrupt_state))
          | some used ↦ elim (at s.records used.head) [
            | none ↦ (s, err (QueueError.transport corrupt_state))
            | some r ↦
                if not (id_eq r.id used.id) || not (is_used r.state)
                then (s, err (QueueError.transport corrupt_state))
                else (let s' =
                      release_descriptors
                        (record s {
                          used = set s.used slot none;
                          records = set s.records used.head none;
                        })
                        r.chain in
                    (
                      record s' {
                        consumed_used = wrapping_add s'.consumed_used 1;
                        used_count = s'.used_count - 1;
                        active_chains = s'.active_chains - 1;
                      },
                      ok (some (record { id = r.id; used = used.used; chain = r.chain })),
                    ))
          ]
        ])

unfoldable pub pop_used : SplitQueue → Outcome (Option (UsedChain DriverChain))
unfolding pop_used_storage
pop_used q =
    if not q.state.ready then (q, err QueueError.not_ready) else with_storage q pop_used_storage

unfoldable pub disable_used_notifications : SplitQueue → Outcome (Unit {0})
disable_used_notifications q =
    if not q.state.ready
    then (q, err QueueError.not_ready)
    else (record q { used_notifications = false }, ok tt)

unfoldable pub enable_used_notifications : SplitQueue → Outcome NotificationRecheck
enable_used_notifications q =
    if not q.state.ready
    then (q, err QueueError.not_ready)
    else with_storage (record q { used_notifications = true }) λ s. (s, ok (recheck s.used_count))

-- `pop_available`, on the storage.
unfoldable pub pop_available_storage :
    ℕ → ℕ → RingStorage → RingStorage × Result Error (Option DeviceChain)
pop_available_storage epoch max_descriptors s =
    if s.available_count == 0
    then (s, ok none)
    else elim (get_elem? s.available (ring_slot s.size s.consumed_available)) [
      | none ↦ (s, err (QueueError.transport corrupt_state))
      | some head ↦ elim (at s.records head) [
        | none ↦ (s, err (QueueError.transport corrupt_state))
        | some r ↦
            if not (r.id.epoch == epoch) || not (is_available r.state)
            then (s, err (QueueError.transport corrupt_state))
            else (
              record s {
                records = set s.records head (some (record r { state = ChainState.in_flight }));
                consumed_available = wrapping_add s.consumed_available 1;
                available_count = s.available_count - 1;
              },
              ok (
                  some (record {
                    id = r.id;
                    chain_data = r.chain.chain_data;
                    max_descriptors = max_descriptors;
                  })),
            )
      ]
    ]

unfoldable pub pop_available : SplitQueue → Outcome (Option DeviceChain)
unfolding pop_available_storage
pop_available q =
    if not q.state.ready
    then (q, err QueueError.not_ready)
    else with_storage q (pop_available_storage q.state.epoch q.max_chain_descriptors)

-- `complete`, on the storage.
unfoldable pub complete_storage :
    Bool → ChainId → ℕ → ℕ → RingStorage → RingStorage × Result Error NotificationHint
complete_storage notifications id used head s = elim (at s.records head) [
  | none ↦ (s, err (QueueError.transport corrupt_state))
  | some r ↦
      if not (id_eq r.id id) || not (is_in_flight r.state)
      then (s, err (QueueError.transport corrupt_state))
      else if s.used_count == s.size
      then (s, err (QueueError.transport corrupt_state))
      else (
        record s {
          records = set s.records head (some (record r { state = ChainState.used }));
          used =
              set s.used (ring_slot s.size s.used_index)
                (some (record { head = head; id = id; used = used }));
          used_index = wrapping_add s.used_index 1;
          used_count = s.used_count + 1;
        },
        ok (hint notifications),
      )
]

unfoldable pub complete : SplitQueue → DeviceChain → ℕ → Outcome NotificationHint
unfolding complete_storage side_len
complete q chain used =
    if not (chain.id.epoch == q.state.epoch)
    then (q, err (QueueError.reset_race chain.id.epoch q.state.epoch))
    else if not q.state.ready
    then (q, err QueueError.not_ready)
    else if ltb (side_len chain.chain_data true) used
    then (q, err (QueueError.used_length_exceeded used (side_len chain.chain_data true)))
    else if leb (2 ^ 16) chain.id.token
    then (q, err (QueueError.transport corrupt_state))
    else with_storage q (complete_storage q.used_notifications chain.id used chain.id.token)

unfoldable pub disable_available_notifications : SplitQueue → Outcome (Unit {0})
disable_available_notifications q =
    if not q.state.ready
    then (q, err QueueError.not_ready)
    else (record q { available_notifications = false }, ok tt)

unfoldable pub enable_available_notifications : SplitQueue → Outcome NotificationRecheck
enable_available_notifications q =
    if not q.state.ready
    then (q, err QueueError.not_ready)
    else with_storage (record q { available_notifications = true })
        λ s. (s, ok (recheck s.available_count))
