-- ===== src/SplitQueue/Calls.antt =====
-- The outcomes of `publish`, `pop_available`, `pop_used` and `complete` of
-- crates/virtio-accel-split-queue/src/queue.rs on a queue with the invariant.
use virtio_accel.Prelude.{
  ◌≡◌, ◌≢◌, ◌⊎◌, Bool, true, false, some, is_some, arith, ==_cases, inl, inr, Option-cases,
  Bool-cases, Result-cases, ok, err, ltb,
}
use virtio_accel.Transport.{PublishErrorKind}
use virtio_accel.SplitQueue.Chain.{DriverChain, chain_descriptor_count, validation}
use virtio_accel.SplitQueue.Ring.{RingStorage, SplitQueueError, corrupt_state}
use virtio_accel.SplitQueue.Queue.{SplitQueue, hint}
use virtio_accel.SplitQueue.Queue.Transfer.{Published, check_chain, publish_inner}
use virtio_accel.SplitQueue.Rings.{chain_id}
use virtio_accel.SplitQueue.Publish.{IsChain, Allocated, allocate_descriptors-Allocated}
use virtio_accel.SplitQueue.Storage.{Storage, published, publish_storage-ok}

pub record QueueInv (q : SplitQueue) : Type 0 where
  pub epoch_shared : q.current_epoch ≡ q.state.epoch
  pub stored :
      (s : RingStorage)
      → q.storage ≡ some s
      → Storage q.state.epoch s × (q.state.size ≡ some s.size)
  pub size_stored : is_some q.state.size ≡ is_some q.storage
  pub ready_stored : q.state.ready ≡ true → is_some q.storage ≡ true

-- The errors that say that the queue itself is broken.
abbrev pub Sound : PublishErrorKind SplitQueueError → Type 0
Sound kind = kind ≢ PublishErrorKind.transport corrupt_state

-- A refused publication changes nothing and gives the chain back.
abbrev pub Refused : SplitQueue → DriverChain → SplitQueue × Published → Type 0
Refused q chain result =
    (kind : PublishErrorKind SplitQueueError) × (result
      ≡ (q, err (record { chain = chain; kind = kind })))
    × Sound kind

-- The chain is enqueued in the storage under the head of its allocation.
pub record Enqueued (q : SplitQueue) (chain : DriverChain) (result : SplitQueue × Published)
    : Type 0 where
  pub before : RingStorage
  pub stored : q.storage ≡ some before
  pub valid : Storage q.state.epoch before
  pub allocated : Allocated before chain
  pub room : before.available_count ≢ before.size
  pub outcome : result ≡ (
    record q { storage = some (published valid chain allocated) },
    ok (record {
      id = chain_id q.state.epoch allocated.head;
      notification = hint q.available_notifications;
    }),
  )

check_chain-Sound :
    (q : SplitQueue) (chain : DriverChain) (inject : Bool) (kind : PublishErrorKind SplitQueueError)
    → check_chain q chain inject ≡ some kind
    → Sound kind
unfolding check_chain
check_chain-Sound q chain true kind e broken = absurd (cc)
check_chain-Sound q chain false kind e broken = elim (Result-cases (validation chain)) [
  | inl (layout, v) ↦ absurd (ground arith)
  | inr (bad, v) ↦ absurd (ground arith)
]

-- A publication is refused for a reason that is not the queue's, or enqueues its chain.
pub publish_inner-cases :
    {q : SplitQueue} (chain : DriverChain) (inject : Bool)
    → QueueInv q
    → IsChain chain
    → Refused q chain (publish_inner q chain inject)
      ⊎ Enqueued q chain (publish_inner q chain inject)
unfolding publish_inner
publish_inner-cases {q} chain inject inv c = elim (Bool-cases q.state.ready) [
  | inr off ↦ inl (PublishErrorKind.not_ready, ground arith, λ e. cc)
  | inl on ↦ elim (Option-cases (check_chain q chain inject)) [
    | inr (kind, e) ↦ inl (kind, ground arith, check_chain-Sound q chain inject kind e)
    | inl passed ↦ elim (Option-cases q.storage) [
      | inl e ↦ absurd (ground (arith, inv.ready_stored on))
      | inr (s, e) ↦
          let w : Storage q.state.epoch s = (inv.stored s e).0 in
          elim (==_cases s.available_count s.size) [
            | inl full ↦ inl (PublishErrorKind.queue_full, ground arith, λ e'. cc)
            | inr room ↦ elim (Bool-cases (ltb s.free_descriptors (chain_descriptor_count chain))) [
              | inl short ↦ inl (PublishErrorKind.insufficient_descriptors, ground arith, λ e'. cc)
              | inr enough ↦
                  let a : Allocated s chain =
                    allocate_descriptors-Allocated s w.owners chain c (ground arith)
                      w.rings.exponent w.rings.power w.rings.small in
                  inr (record {
                    before = s;
                    stored = e;
                    valid = w;
                    allocated = a;
                    room = ground arith;
                    outcome =
                        ground (arith, publish_storage-ok w chain a q.available_notifications);
                  })
            ]
          ]
    ]
  ]
]
