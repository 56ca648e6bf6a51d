-- ===== src/SplitQueue/Enqueue.antt =====
-- `publish` and `complete` of crates/virtio-accel-split-queue/src/queue.rs push behind their rings
-- and keep the invariant of the rings.
use native.Mathlib.Nat.{mod-add-mod, mod-lt}
use native.Mathlib.Numerals.{add-one}
use virtio_accel.Prelude.{
  ℕ, ◌+◌, ◌%◌, ◌^◌, ◌≤◌, ◌<◌, ◌≡◌, ◌≢◌, ◌∙◌, ap, sym, Bool, true, [], ◌∷◌, ◌++◌, get_elem?, set,
  sum_by, sum_by-push, length-set, get_elem?-set_at, get_elem?-set_ne, Option, none, some, arith,
  if◌then◌else◌, ◌==◌, All, All-push, ==_refl, ==_ne, ==_cases, inl, inr, refl, subst,
}
use virtio_accel.SplitQueue.Chain.{DriverChain}
use virtio_accel.SplitQueue.Ring.{RingStorage, ChainRecord, ChainState, at, ring_slot, wrapping_add}
use virtio_accel.SplitQueue.Queue.{is_available, is_used}
use virtio_accel.SplitQueue.Queue.Transfer.{enqueue}
use virtio_accel.SplitQueue.Window.{window-push, positive, ring_slot-mod, mod-wrapping_add}
use virtio_accel.SplitQueue.Entries.{present, at-set_self, at-set_ne, sum_by-write, sum_by-at_most}
use virtio_accel.SplitQueue.Rings.{Rings, waiting, state_of, names, chain_id, Filled}

-- The slot of an index one further.
pub slot_after :
    (size k index start count : ℕ)
    → size ≡ 2 ^ k
    → k < 16
    → index < 2 ^ 16
    → ring_slot size index ≡ (start + count) % size
    → ring_slot size (wrapping_add index 1) ≡ (start + (count + 1)) % size
slot_after size k index start count power small range e =
    ring_slot-mod size k power small (wrapping_add index 1)
    ∙ mod-wrapping_add size k power small index range
    ∙ sym (mod-add-mod index size 1)
    ∙ ap (λ t. (t + 1) % size) (sym (ring_slot-mod size k power small index) ∙ e)
    ∙ mod-add-mod (start + count) size 1
    ∙ ap (λ t. t % size) (omega arith)

pub slot_lt : (size k index : ℕ) → size ≡ 2 ^ k → k < 16 → ring_slot size index < size
slot_lt size k index power small =
    rw (ring_slot-mod size k power small index) (mod-lt index (positive size k power small))

-- A state takes one part of the records at most.
pub state_once : (p : ChainState → Bool) (o : Option ChainRecord) → state_of p o + 0 ≤ 1
state_once p none = omega arith
state_once p (some r) = ground arith

module _ {epoch : ℕ} {s : RingStorage} (v : Rings epoch s) where
  pub available_count_le : s.available_count ≤ s.size
  available_count_le = omega (
    arith,
    v.available_number,
    v.records_length,
    sum_by-at_most (state_of is_available) (λ _. 0) s.records (state_once is_available),
  )

  module _ (head : ℕ) (chain : DriverChain) (room : s.available_count ≢ s.size) where
    pub waiting-enqueue :
        waiting (enqueue s (chain_id epoch head) head chain) ≡ waiting s ++ some head ∷ []
    unfolding enqueue
    waiting-enqueue = rw (add-one) (
        window-push (λ i. get_elem? s.available i) (λ i. get_elem? (set s.available slot head) i)
          s.size (some head) s.available_count (ring_slot s.size s.consumed_available) slot
          (λ j ne. get_elem?-set_ne s.available slot j head (λ e. ne (sym e)))
          (get_elem?-set_at s.available slot head (
            omega (
              arith,
              v.available_length,
              slot_lt s.size v.exponent s.available_index v.power v.small,
            )))
          (slot_lt s.size v.exponent s.consumed_available v.power v.small)
          (omega (arith, available_count_le)) v.available_end)
      where
        slot : ℕ
        slot = ring_slot s.size s.available_index

-- Writing a record at a head changes a count by the record's part, and the parts of one head only.
module _ {epoch : ℕ} {s : RingStorage} (v : Rings epoch s) (head : ℕ) (inside : head < s.size) where
  pub counted_write :
      (f : Option ChainRecord → ℕ) (o : Option ChainRecord)
      → sum_by f (set s.records head o) + f (at s.records head) ≡ sum_by f s.records + f o
  counted_write f o = sum_by-write f s.records head o (omega (arith, v.records_length))

  pub ids_write :
      (r' : ChainRecord)
      → r'.id ≡ chain_id epoch head
      → (h : ℕ) (r : ChainRecord) → at (set s.records head (some r')) h ≡ some r
      → r.id ≡ chain_id epoch h
  ids_write r' e h r found = elim (==_cases h head) [
    | inl same ↦
        ground (arith, at-set_self s.records head (some r') (omega (arith, v.records_length)))
    | inr other ↦ v.ids h r (sym (at-set_ne s.records head h (some r') (ground arith)) ∙ found)
  ]

  -- A state of the record at the head and of the others.
  pub state_write :
      (p : ChainState → Bool) (o : Option ChainRecord) (h : ℕ)
      → state_of p (at (set s.records head o) h)
        ≡ (if head == h then state_of p o else state_of p (at s.records h))
  state_write p o h = elim (==_cases h head) [
    | inl same ↦
        rw (same, ==_refl head, at-set_self s.records head o (omega (arith, v.records_length))) refl
    | inr other ↦ rw (==_ne head h (ground arith), at-set_ne s.records head h o (ground arith)) refl
  ]

  pub state_at :
      (p : ChainState → Bool) (o : Option ChainRecord) (h : ℕ)
      → at s.records head ≡ o
      → (head == h) ≡ true
      → state_of p (at s.records h) ≡ state_of p o
  state_at p o h found same = let e : head ≡ h = ground arith in rw (← e, found) refl

  module _ (chain : DriverChain) (room : s.available_count ≢ s.size)
      (vacant : at s.records head ≡ none) where
    pub enqueue-Rings : Rings epoch (enqueue s (chain_id epoch head) head chain)
    unfolding enqueue
    enqueue-Rings = record {
      exponent = v.exponent;
      power = v.power;
      small = v.small;
      records_length = length-set s.records head fresh ∙ v.records_length;
      available_length = length-set s.available slot head ∙ v.available_length;
      used_length = v.used_length;
      available_range = omega arith;
      consumed_available_range = v.consumed_available_range;
      used_range = v.used_range;
      consumed_used_range = v.consumed_used_range;
      available_end =
          slot_after s.size v.exponent s.available_index start s.available_count v.power v.small
            v.available_range v.available_end;
      used_end = v.used_end;
      ids = ids_write fresh_record refl;
      waiting_filled =
          subst (All Filled) (sym (waiting-enqueue v head chain room))
            (All-push Filled (waiting s) (some head) v.waiting_filled tt);
      finished_completed = v.finished_completed;
      waiting_once = λ h. rw (waiting-enqueue v head chain room) (
          ground (
            arith,
            sum_by-push (names h) (waiting s) (some head),
            v.waiting_once h,
            state_write is_available fresh h,
            state_at is_available none h vacant,
          ));
      finished_once = λ h.
          ground
            (arith, v.finished_once h, state_write is_used fresh h, state_at is_used none h vacant);
      available_number =
          ground (arith, counted_write (state_of is_available) fresh, v.available_number, vacant);
      used_number = ground (arith, counted_write (state_of is_used) fresh, v.used_number, vacant);
      active_number = ground (arith, counted_write present fresh, v.active_number, vacant);
    }
      where
        slot : ℕ
        slot = ring_slot s.size s.available_index

        start : ℕ
        start = ring_slot s.size s.consumed_available

        fresh_record : ChainRecord
        fresh_record = record {
          id = chain_id epoch head;
          state = ChainState.available;
          chain = chain;
        }

        fresh : Option ChainRecord
        fresh = some fresh_record
