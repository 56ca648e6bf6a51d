-- ===== src/SplitQueue/Storage.antt =====
-- The invariant of a storage of crates/virtio-accel-split-queue/src/queue.rs, and its publication of a
-- chain: never a corrupt state, and the new chain is behind all that wait.
use virtio_accel.Prelude.{
  ℕ, ◌<◌, ◌≡◌, ◌≢◌, ◌∙◌, sym, ap, Bool, List, [], ◌∷◌, ◌++◌, set, Option, none, some, arith,
  ==_cases, inl, inr, Option-cases, ok,
}
use virtio_accel.SplitQueue.Chain.{DriverChain}
use virtio_accel.SplitQueue.Ring.{RingStorage, DescriptorOwner, ChainRecord, ChainState, at}
use virtio_accel.SplitQueue.Queue.{hint}
use virtio_accel.SplitQueue.Queue.Transfer.{enqueue, publish_storage}
use virtio_accel.SplitQueue.Entries.{at-lt, at-set_self, at-set_ne, sum_by-pos}
use virtio_accel.SplitQueue.Rings.{Rings, waiting, chain_id}
use virtio_accel.SplitQueue.Owners.{Owners, occurrences, holds, present-lt}
use virtio_accel.SplitQueue.Publish.{Allocated, present_once}
use virtio_accel.SplitQueue.Enqueue.{enqueue-Rings, waiting-enqueue, counted_write}

pub record Storage (epoch : ℕ) (s : RingStorage) : Type 0 where
  pub rings : Rings epoch s
  pub owners : Owners s

-- The rings do not depend on the owners of the descriptors.
pub Rings-frame :
    {epoch : ℕ} {s : RingStorage} (ds : List (Option DescriptorOwner)) (free next : ℕ)
    → Rings epoch s
    → Rings epoch (record s { descriptors = ds; free_descriptors = free; next_descriptor = next })
Rings-frame ds free next v = record {
  exponent = v.exponent;
  power = v.power;
  small = v.small;
  records_length = v.records_length;
  available_length = v.available_length;
  used_length = v.used_length;
  available_range = v.available_range;
  consumed_available_range = v.consumed_available_range;
  used_range = v.used_range;
  consumed_used_range = v.consumed_used_range;
  available_end = v.available_end;
  used_end = v.used_end;
  ids = v.ids;
  waiting_filled = v.waiting_filled;
  finished_completed = v.finished_completed;
  waiting_once = v.waiting_once;
  finished_once = v.finished_once;
  available_number = v.available_number;
  used_number = v.used_number;
  active_number = v.active_number;
}

module _ {epoch : ℕ} {s : RingStorage} (w : Storage epoch s) (chain : DriverChain)
    (a : Allocated s chain) where
  pub head_inside : a.head < s.size
  head_inside = omega (
    arith,
    a.kept_length,
    present-lt a.storage.descriptors a.head (omega (arith, a.owned a.head, a.head_in)),
  )

  -- No chain has the new head: its slots would be owned twice.
  pub head_vacant : at s.records a.head ≡ none
  head_vacant = elim (Option-cases (at s.records a.head)) [
    | inl e ↦ e
    | inr (r, e) ↦
        let held : 0 < holds a.head (at s.records a.head) = rw e (w.owners.head_held a.head r e) in
        absurd (
          omega (
            arith,
            held,
            sum_by-pos (holds a.head) s.records a.head (at-lt s.records a.head e),
            w.owners.owned_once a.head,
            a.owned a.head,
            a.head_in,
            present_once (at a.storage.descriptors a.head),
          ))
  ]

  -- The storage after the allocation, written out.
  abbrev allotted : RingStorage
  allotted = record s {
    descriptors = a.storage.descriptors;
    free_descriptors = a.storage.free_descriptors;
    next_descriptor = a.storage.next_descriptor;
  }

  -- The storage that `publish_inner` leaves.
  abbrev pub published : RingStorage
  published = enqueue allotted (chain_id epoch a.head) a.head (record chain { slots = a.slots })

  allotted-Rings : Rings epoch allotted
  allotted-Rings =
      Rings-frame a.storage.descriptors a.storage.free_descriptors a.storage.next_descriptor w.rings

  abbrev fresh : ChainRecord
  fresh = record {
    id = chain_id epoch a.head;
    state = ChainState.available;
    chain = record chain { slots = a.slots };
  }

  fresh-held :
      (h : ℕ) (r : ChainRecord)
      → at (set s.records a.head (some fresh)) h ≡ some r
      → 0 < occurrences h r.chain.slots
  fresh-held h r e = elim (==_cases h a.head) [
    | inl same ↦
        let new : some r ≡ some fresh =
          sym e
          ∙ ap (at (set s.records a.head (some fresh))) same
          ∙ at-set_self s.records a.head (some fresh)
              (omega (arith, head_inside, w.rings.records_length)) in
        let slots : r.chain.slots ≡ a.slots = cc new in rw (slots, same) a.head_in
    | inr other ↦
        w.owners.head_held h r (sym (at-set_ne s.records a.head h (some fresh) (ground arith)) ∙ e)
  ]

  published-Owners : Owners published
  unfolding enqueue
  published-Owners = record {
    descriptors_length = a.kept_length;
    next_range = a.next_range;
    free_number = a.free_number;
    owned_once = λ i. ground (
      arith,
      counted_write allotted-Rings a.head head_inside (holds i) (some fresh),
      head_vacant,
      w.owners.owned_once i,
      a.owned i,
    );
    head_held = fresh-held;
  }

  module _ (room : s.available_count ≢ s.size) where
    pub published-Storage : Storage epoch published
    published-Storage = record {
      rings =
          enqueue-Rings allotted-Rings a.head head_inside (record chain { slots = a.slots }) room
            head_vacant;
      owners = published-Owners;
    }

    pub waiting-published : waiting published ≡ waiting s ++ some a.head ∷ []
    waiting-published =
        waiting-enqueue allotted-Rings a.head (record chain { slots = a.slots }) room

  pub publish_storage-ok :
      (notifications : Bool)
      → publish_storage s epoch notifications chain
        ≡ (published, ok (record { id = chain_id epoch a.head; notification = hint notifications }))
  unfolding publish_storage
  publish_storage-ok notifications = ground (arith, a.result, a.frame, head_vacant)
