-- ===== src/SplitQueue/Outcomes.antt =====
-- The outcomes of `pop_available`, `pop_used` and `complete` of
-- crates/virtio-accel-split-queue/src/queue.rs on a queue with the invariant.
use virtio_accel.Prelude.{
  ℕ, ◌≤◌, ◌≡◌, ◌≢◌, ◌⊎◌, refl, ap, true, false, [], Option, none, some, arith, ==_cases, inl, inr,
  Option-cases, Bool-cases, Result-cases, ok, err, get_elem?,
}
use virtio_accel.Transport.{QueueError, UsedChain, NotificationHint}
use virtio_accel.SplitQueue.Chain.{DriverChain, DeviceChain, side_len}
use virtio_accel.SplitQueue.Ring.{RingStorage, ChainRecord, UsedElement, at, ring_slot}
use virtio_accel.SplitQueue.Queue.{
  SplitQueue, Error, Outcome, is_available, is_in_flight, is_used, hint,
}
use virtio_accel.SplitQueue.Queue.Transfer.{
  pop_available, pop_used, complete, complete_storage, pop_available_storage, pop_used_storage,
}
use virtio_accel.SplitQueue.Rings.{waiting, finished, chain_id}
use virtio_accel.SplitQueue.Storage.{Storage}
use virtio_accel.SplitQueue.Finish.{finish}
use virtio_accel.SplitQueue.Pop.{fly, oldest}
use virtio_accel.SplitQueue.PopUsed.{oldest_used}
use virtio_accel.SplitQueue.Steps.{left_by_pop, pop_used_storage-ok}
use virtio_accel.SplitQueue.Calls.{QueueInv}
use virtio_accel.SplitQueue.Window.{window}

-- A queue that is not ready refuses.
abbrev pub NotReady {ℓ} : {A : Type ℓ} → SplitQueue → Outcome A → Type ℓ
NotReady q result = (q.state.ready ≡ false) × (result ≡ (q, err QueueError.not_ready))

-- There is nothing to pop.
abbrev pub NoneWaiting : SplitQueue → Outcome (Option DeviceChain) → Type 0
NoneWaiting q result =
    (s : RingStorage) × (q.storage ≡ some s)
    × (waiting s ≡ [])
    × (result ≡ (record q { storage = some s }, ok none))

abbrev pub NoneFinished : SplitQueue → Outcome (Option (UsedChain DriverChain)) → Type 0
NoneFinished q result =
    (s : RingStorage) × (q.storage ≡ some s)
    × (finished s ≡ [])
    × (result ≡ (record q { storage = some s }, ok none))

-- The oldest available chain is handed to the device, in flight.
pub record Popped (q : SplitQueue) (result : Outcome (Option DeviceChain)) : Type 0 where
  pub before : RingStorage
  pub head : ℕ
  pub entry : ChainRecord
  pub stored : q.storage ≡ some before
  pub valid : Storage q.state.epoch before
  pub some_waiting : before.available_count ≢ 0
  pub first :
      get_elem? before.available (ring_slot before.size before.consumed_available) ≡ some head
  pub held : at before.records head ≡ some entry
  pub available : is_available entry.state ≡ true
  pub outcome : result ≡ (
    record q { storage = some (fly before entry head) },
    ok (
        some (record {
          id = entry.id;
          chain_data = entry.chain.chain_data;
          max_descriptors = q.max_chain_descriptors;
        })),
  )

-- The oldest used chain is given back to the driver.
pub record Reclaimed (q : SplitQueue) (result : Outcome (Option (UsedChain DriverChain)))
    : Type 0 where
  pub before : RingStorage
  pub element : UsedElement
  pub entry : ChainRecord
  pub stored : q.storage ≡ some before
  pub valid : Storage q.state.epoch before
  pub some_used : before.used_count ≢ 0
  pub first : at before.used (ring_slot before.size before.consumed_used) ≡ some element
  pub held : at before.records element.head ≡ some entry
  pub used : is_used entry.state ≡ true
  pub completed : element.id ≡ chain_id q.state.epoch element.head
  pub outcome : result ≡ (
    record q { storage = some (left_by_pop valid element entry some_used first held used) },
    ok (some (record { id = entry.id; used = element.used; chain = entry.chain })),
  )

-- The chain is in flight under its ID, and becomes used.
pub record Finished (q : SplitQueue) (chain : DeviceChain) (used : ℕ)
    (result : Outcome NotificationHint) : Type 0 where
  pub before : RingStorage
  pub entry : ChainRecord
  pub stored : q.storage ≡ some before
  pub valid : Storage q.state.epoch before
  pub held : at before.records chain.id.token ≡ some entry
  pub same : entry.id ≡ chain.id
  pub flying : is_in_flight entry.state ≡ true
  pub fits : used ≤ side_len chain.chain_data true
  pub outcome : result ≡ (
    record q { storage = some (finish before entry entry.id used chain.id.token) },
    ok (hint q.used_notifications),
  )

pop_used_storage-none : (s : RingStorage) → s.used_count ≡ 0 → pop_used_storage s ≡ (s, ok none)
unfolding pop_used_storage
pop_used_storage-none s e = rw e refl

module _ {q : SplitQueue} (inv : QueueInv q) where
  pub pop_available-cases :
      NotReady q (pop_available q) ⊎ (NoneWaiting q (pop_available q) ⊎ Popped q (pop_available q))
  unfolding pop_available pop_available_storage
  pop_available-cases = elim (Bool-cases q.state.ready) [
    | inr off ↦ inl (off, ground arith)
    | inl on ↦ elim (Option-cases q.storage) [
      | inl e ↦ absurd (ground (arith, inv.ready_stored on))
      | inr (s, e) ↦ inr (elim (==_cases s.available_count 0) [
        | inl empty ↦ inl (
          s,
          e,
          ap (window (λ i. get_elem? s.available i) s.size (ring_slot s.size s.consumed_available))
              empty,
          ground arith,
        )
        | inr more ↦
            let w : Storage q.state.epoch s = (inv.stored s e).0 in
            let ne : s.available_count ≢ 0 = ground arith in
            let (h, r, first, held, state) = oldest w.rings ne in
            inr (record {
              before = s;
              head = h;
              entry = r;
              stored = e;
              valid = w;
              some_waiting = ne;
              first = first;
              held = held;
              available = state;
              outcome = ground (arith, w.rings.ids h r held);
            })
      ])
    ]
  ]

  pub pop_used-cases :
      NotReady q (pop_used q) ⊎ (NoneFinished q (pop_used q) ⊎ Reclaimed q (pop_used q))
  unfolding pop_used
  pop_used-cases = elim (Bool-cases q.state.ready) [
    | inr off ↦ inl (off, ground arith)
    | inl on ↦ elim (Option-cases q.storage) [
      | inl e ↦ absurd (ground (arith, inv.ready_stored on))
      | inr (s, e) ↦ inr (elim (==_cases s.used_count 0) [
        | inl empty ↦ inl (
          s,
          e,
          ap (window (λ i. at s.used i) s.size (ring_slot s.size s.consumed_used)) empty,
          ground (arith, pop_used_storage-none s empty),
        )
        | inr more ↦
            let w : Storage q.state.epoch s = (inv.stored s e).0 in
            let ne : s.used_count ≢ 0 = ground arith in
            let (u, r, first, held, state, completed) = oldest_used w.rings ne in
            inr (record {
              before = s;
              element = u;
              entry = r;
              stored = e;
              valid = w;
              some_used = ne;
              first = first;
              held = held;
              used = state;
              completed = completed;
              outcome = ground (arith, pop_used_storage-ok w u r ne first held state completed);
            })
      ])
    ]
  ]

  complete-err :
      (chain : DeviceChain) (used : ℕ) (e : Error)
      → (complete q chain used).1 ≡ err e
      → complete q chain used ≡ (q, err e)
  unfolding complete complete_storage
  complete-err chain used e failed = elim (Option-cases q.storage) [
    | inl n ↦ ground arith
    | inr (s, n) ↦ ground arith
  ]

  complete-Finished :
      (chain : DeviceChain) (used : ℕ) (hint : NotificationHint)
      → (complete q chain used).1 ≡ ok hint
      → Finished q chain used (complete q chain used)
  unfolding complete complete_storage
  complete-Finished chain used hint done = elim (Option-cases q.storage) [
    | inl n ↦ absurd (ground arith)
    | inr (s, n) ↦ elim (Option-cases (at s.records chain.id.token)) [
      | inl none_there ↦ absurd (ground arith)
      | inr (r, held) ↦
          let w : Storage q.state.epoch s = (inv.stored s n).0 in
          record {
            before = s;
            entry = r;
            stored = n;
            valid = w;
            held = held;
            same = ground arith;
            flying = ground arith;
            fits = ground arith;
            outcome = ground arith;
          }
    ]
  ]

  -- A completion that fails changes nothing.
  pub complete-cases :
      (chain : DeviceChain) (used : ℕ)
      → ((e : Error) × (complete q chain used ≡ (q, err e)))
        ⊎ Finished q chain used (complete q chain used)
  complete-cases chain used = elim (Result-cases (complete q chain used).1) [
    | inr (e, failed) ↦ inl (e, complete-err chain used e failed)
    | inl (hint, done) ↦ inr (complete-Finished chain used hint done)
  ]
