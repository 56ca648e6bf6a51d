-- ===== src/SplitQueue/Ring.antt =====
-- The ring storage of crates/virtio-accel-split-queue/src/queue.rs: `RingStorage` with the allocation
-- and the release of descriptors. An index out of range, at which the code would panic, reads as an
-- empty entry here; the invariant excludes it.
use Prim.Native.Nat.{bit_and}
use virtio_accel.Prelude.{
  ℕ, zero, suc, ◌+◌, ◌-◌, ◌%◌, ◌^◌, Bool, true, false, ltb, if◌then◌else◌, List, [], ◌∷◌, get_elem?,
  set, Option, none, some, Result, ok, err, ◌>>=◌, replicate, take,
}
use virtio_accel.Transport.{ChainId, MalformedChain, ReclaimedChain}
use virtio_accel.SplitQueue.Chain.{DriverChain, queue_head_slot, chain_descriptor_count}

pub data SplitQueueError : Type 0 where
  allocation_failed busy chain_limit_exceeds_queue invalid_test_state corrupt_state :
      SplitQueueError
  malformed_driver_chain : MalformedChain → SplitQueueError

pub record RingCounters : Type 0 where
  pub available : ℕ
  pub consumed_available : ℕ
  pub used : ℕ
  pub consumed_used : ℕ

pub record DescriptorOwner : Type 0 where
  pub head : ℕ
  pub local : ℕ

pub data ChainState : Type 0 where
  available in_flight used : ChainState

pub record ChainRecord : Type 0 where
  pub id : ChainId
  pub state : ChainState
  pub chain : DriverChain

pub record UsedElement : Type 0 where
  pub head : ℕ
  pub id : ChainId
  pub used : ℕ

pub record RingStorage : Type 0 where
  pub size : ℕ
  pub descriptors : List (Option DescriptorOwner)
  pub records : List (Option ChainRecord)
  pub available : List ℕ
  pub used : List (Option UsedElement)
  pub available_index : ℕ
  pub consumed_available : ℕ
  pub used_index : ℕ
  pub consumed_used : ℕ
  pub available_count : ℕ
  pub used_count : ℕ
  pub active_chains : ℕ
  pub free_descriptors : ℕ
  pub next_descriptor : ℕ

-- `xs[i]` of a list of optional entries.
abbrev pub at {ℓ} : {A : Type ℓ} → List (Option A) → ℕ → Option A
at xs i = elim (get_elem? xs i) [ none ↦ none | some entry ↦ entry ]

-- `u16::wrapping_add`.
abbrev pub wrapping_add : ℕ → ℕ → ℕ
wrapping_add a b = (a + b) % 2 ^ 16

-- `ring_slot` and `wrapping_descriptor_add`, of a storage of that size.
unfoldable pub ring_slot : ℕ → ℕ → ℕ
ring_slot size index = bit_and index (size - 1)

unfoldable pub wrapping_descriptor_add : ℕ → ℕ → ℕ → ℕ
wrapping_descriptor_add size index amount = bit_and (wrapping_add index amount) (size - 1)

-- `boxed_with`; `reserve` says whether the allocator grants so many entries.
abbrev pub boxed_with {ℓ} : {A : Type ℓ} → (ℕ → Bool) → ℕ → A → Result SplitQueueError (List A)
boxed_with reserve len value =
    if reserve len then ok (replicate len value) else err allocation_failed

-- `RingStorage::new`.
unfoldable pub new_storage : (ℕ → Bool) → ℕ → Result SplitQueueError RingStorage
new_storage reserve size = do
  descriptors ← boxed_with reserve size none
  records ← boxed_with reserve size none
  available_ring ← boxed_with reserve size 0
  used_ring ← boxed_with reserve size none
  ok (record {
    size = size;
    descriptors = descriptors;
    records = records;
    available = available_ring;
    used = used_ring;
    available_index = 0;
    consumed_available = 0;
    used_index = 0;
    consumed_used = 0;
    available_count = 0;
    used_count = 0;
    active_chains = 0;
    free_descriptors = size;
    next_descriptor = 0;
  })

unfoldable pub counters : RingStorage → RingCounters
counters s = record {
  available = s.available_index;
  consumed_available = s.consumed_available;
  used = s.used_index;
  consumed_used = s.consumed_used;
}

-- The inner loop of `allocate_descriptors`: the next cursor with no owner. `left` is the size less
-- `scanned`; `none` is the return when every descriptor has been scanned.
unfoldable pub find_free : ℕ → ℕ → List (Option DescriptorOwner) → ℕ → Option ℕ
unfolding wrapping_descriptor_add
find_free size zero descriptors cursor = none
find_free size (suc left) descriptors cursor = elim (at descriptors cursor) [
  | none ↦ some cursor
  | some _ ↦ find_free size left descriptors (wrapping_descriptor_add size cursor 1)
]

-- `rollback_allocation`, for the slots that were filled.
unfoldable pub rollback_allocation :
    List ℕ → List (Option DescriptorOwner) → List (Option DescriptorOwner)
rollback_allocation [] descriptors = descriptors
rollback_allocation (slot ∷ slots) descriptors =
    rollback_allocation slots (set descriptors slot none)

-- The variables of the outer loop of `allocate_descriptors`.
pub record Allocation : Type 0 where
  pub descriptors : List (Option DescriptorOwner)
  pub slots : List ℕ
  pub cursor : ℕ

-- The outer loop, for the descriptors that are left to allocate; `allocated` counts those before.
unfoldable pub take_slots : ℕ → ℕ → ℕ → Allocation → Allocation × Bool
unfolding find_free rollback_allocation wrapping_descriptor_add
take_slots size zero allocated a = (a, true)
take_slots size (suc left) allocated a = elim (find_free size size a.descriptors a.cursor) [
  | none ↦
      (record a { descriptors = rollback_allocation (take allocated a.slots) a.descriptors }, false)
  | some cursor ↦ take_slots size left (allocated + 1) (record {
    slots = set a.slots allocated cursor;
    descriptors = set a.descriptors cursor (some (record { head = 0; local = allocated % 2 ^ 16 }));
    cursor = wrapping_descriptor_add size cursor 1;
  })
]

-- `for slot in chain.slots() { ... owner.head = head }`.
unfoldable pub set_heads :
    ℕ → List ℕ → List (Option DescriptorOwner) → List (Option DescriptorOwner) × Bool
set_heads head [] descriptors = (descriptors, true)
set_heads head (slot ∷ slots) descriptors = elim (at descriptors slot) [
  | none ↦ (descriptors, false)
  | some owner ↦ set_heads head slots (set descriptors slot (some (record owner { head = head })))
]

-- The last loop of `allocate_descriptors` and its writes.
unfoldable pub own_slots :
    RingStorage → DriverChain → ℕ → RingStorage × DriverChain × Result SplitQueueError ℕ
unfolding set_heads queue_head_slot chain_descriptor_count
own_slots s chain cursor =
    let head = queue_head_slot chain in
    let (descriptors, owned) = set_heads head chain.slots s.descriptors in
    if owned
    then (
      record s {
        descriptors = descriptors;
        next_descriptor = cursor;
        free_descriptors = s.free_descriptors - chain_descriptor_count chain;
      },
      chain,
      ok head,
    )
    else (record s { descriptors = descriptors }, chain, err corrupt_state)

-- `allocate_descriptors`: the storage, the chain and the result.
unfoldable pub allocate_descriptors :
    RingStorage → DriverChain → RingStorage × DriverChain × Result SplitQueueError ℕ
unfolding take_slots own_slots chain_descriptor_count
allocate_descriptors s chain =
    if ltb s.free_descriptors (chain_descriptor_count chain)
    then (s, chain, err corrupt_state)
    else (let (a, done) = take_slots s.size (chain_descriptor_count chain) 0 (record {
      descriptors = s.descriptors;
      slots = chain.slots;
      cursor = s.next_descriptor;
    }) in
        let s' = record s { descriptors = a.descriptors } in
        let chain' = record chain { slots = a.slots } in
        if done then own_slots s' chain' a.cursor else (s', chain', err corrupt_state))

-- `release_descriptors`.
unfoldable pub release_slots : List ℕ → RingStorage → RingStorage
release_slots [] s = s
release_slots (slot ∷ slots) s = elim (at s.descriptors slot) [
  | none ↦ release_slots slots s
  | some _ ↦ release_slots slots (record s {
    descriptors = set s.descriptors slot none;
    free_descriptors = s.free_descriptors + 1;
  })
]

unfoldable pub release_descriptors : RingStorage → DriverChain → RingStorage
unfolding release_slots
release_descriptors s chain = release_slots chain.slots s

-- What `ReclaimedChains` yields: the records that are there, in the order of their heads.
unfoldable pub reclaim : List (Option ChainRecord) → List (ReclaimedChain DriverChain)
reclaim [] = []
reclaim (none ∷ records) = reclaim records
reclaim (some r ∷ records) = (record { id = r.id; chain = r.chain }) ∷ reclaim records
