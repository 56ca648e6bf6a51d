-- ===== src/SplitQueue/Pop.antt =====
-- `pop_available` of crates/virtio-accel-split-queue/src/queue.rs takes the oldest available chain
-- and keeps the invariant of the rings.
use native.Mathlib.Nat.{mod-add-mod}
use virtio_accel.Prelude.{
  ℕ, ◌+◌, ◌-◌, ◌%◌, ◌^◌, ◌<◌, ◌≡◌, ◌≢◌, ◌∙◌, ap, sym, Bool, true, List, ◌∷◌, get_elem?, set, sum_by,
  length-set, Option, none, some, arith, All, ==_refl, inl, inr, ok, Option-cases, refl, subst,
}
use virtio_accel.SplitQueue.Ring.{RingStorage, ChainRecord, ChainState, at, ring_slot, wrapping_add}
use virtio_accel.SplitQueue.Queue.{is_available, is_used}
use virtio_accel.SplitQueue.Window.{window, ring_slot-mod, mod-wrapping_add}
use virtio_accel.SplitQueue.Entries.{present, at-lt}
use virtio_accel.SplitQueue.Rings.{Rings, waiting, state_of, names, Filled}
use virtio_accel.SplitQueue.Enqueue.{counted_write, ids_write, state_write, state_at}
use virtio_accel.SplitQueue.Queue.Transfer.{pop_available_storage}
use virtio_accel.SplitQueue.Window.{window-front, end_behind}

-- The slot of the next index.
pub next_slot :
    (size k index : ℕ)
    → size ≡ 2 ^ k
    → k < 16
    → index < 2 ^ 16
    → ring_slot size (wrapping_add index 1) ≡ (ring_slot size index + 1) % size
next_slot size k index power small range =
    ring_slot-mod size k power small (wrapping_add index 1)
    ∙ mod-wrapping_add size k power small index range
    ∙ sym (mod-add-mod index size 1)
    ∙ ap (λ t. (t + 1) % size) (sym (ring_slot-mod size k power small index))

-- A head that counts as one of a state has a record in that state.
pub record_of_state :
    (p : ChainState → Bool) (o : Option ChainRecord)
    → 0 < state_of p o
    → (r : ChainRecord) × (o ≡ some r) × (p r.state ≡ true)
record_of_state p none h = absurd (omega arith)
record_of_state p (some r) h = (r, refl, ground arith)

-- The writes of `pop_available`.
abbrev pub fly : RingStorage → ChainRecord → ℕ → RingStorage
fly s r head = record s {
  records = set s.records head (some (record r { state = ChainState.in_flight }));
  consumed_available = wrapping_add s.consumed_available 1;
  available_count = s.available_count - 1;
}

abbrev pub rest : RingStorage → List (Option ℕ)
rest s =
    window (λ i. get_elem? s.available i) s.size
      ((ring_slot s.size s.consumed_available + 1) % s.size) (s.available_count - 1)

module _ {epoch : ℕ} {s : RingStorage} (v : Rings epoch s)
    (some_waiting : s.available_count ≢ 0) where
  waiting-front : waiting s ≡ get_elem? s.available (ring_slot s.size s.consumed_available) ∷ rest s
  waiting-front =
      window-front (λ i. get_elem? s.available i) s.size (ring_slot s.size s.consumed_available)
        s.available_count some_waiting

  -- The oldest entry of the available ring and its record.
  pub oldest :
      (h : ℕ) × (r : ChainRecord) × (get_elem? s.available (ring_slot s.size s.consumed_available)
        ≡ some h)
      × (at s.records h ≡ some r)
      × (is_available r.state ≡ true)
  oldest = elim (Option-cases (get_elem? s.available (ring_slot s.size s.consumed_available))) [
    | inl e ↦ absurd (subst Filled e (subst (All Filled) waiting-front v.waiting_filled).0)
    | inr (h, e) ↦
        let counted : 0 < state_of is_available (at s.records h) =
          ground (arith, v.waiting_once h, ap (sum_by (names h)) waiting-front, ==_refl h, e) in
        let (r, held, state) = record_of_state is_available (at s.records h) counted in
        (h, r, e, held, state)
  ]

module _ {epoch : ℕ} {s : RingStorage} (v : Rings epoch s) (head : ℕ) (r : ChainRecord)
    (some_waiting : s.available_count ≢ 0)
    (first : get_elem? s.available (ring_slot s.size s.consumed_available) ≡ some head)
    (held : at s.records head ≡ some r) (state : is_available r.state ≡ true) where
  inside : head < s.size
  inside = omega (arith, v.records_length, at-lt s.records head held)

  pub waiting-cons : waiting s ≡ some head ∷ rest s
  waiting-cons = waiting-front v some_waiting ∙ ap (λ e. e ∷ rest s) first

  pub pop_available_storage-ok :
      (max_descriptors : ℕ)
      → pop_available_storage epoch max_descriptors s ≡ (
        fly s r head,
        ok (
            some (record {
              id = r.id;
              chain_data = r.chain.chain_data;
              max_descriptors = max_descriptors;
            })),
      )
  unfolding pop_available_storage
  pop_available_storage-ok max_descriptors =
      ground (arith, first, held, state, v.ids head r held, some_waiting)

  pub waiting-fly : waiting (fly s r head) ≡ rest s
  waiting-fly =
      ap (λ h. window (λ i. get_elem? s.available i) s.size h (s.available_count - 1))
        (next_slot s.size v.exponent s.consumed_available v.power v.small
          v.consumed_available_range)

  pub fly-Rings : Rings epoch (fly s r head)
  fly-Rings = record {
    exponent = v.exponent;
    power = v.power;
    small = v.small;
    records_length = length-set s.records head flying ∙ v.records_length;
    available_length = v.available_length;
    used_length = v.used_length;
    available_range = v.available_range;
    consumed_available_range = omega arith;
    used_range = v.used_range;
    consumed_used_range = v.consumed_used_range;
    available_end =
        end_behind s.size (ring_slot s.size s.consumed_available) s.available_count
          (ring_slot s.size s.available_index) some_waiting v.available_end
        ∙ ap (λ h. (h + (s.available_count - 1)) % s.size)
            (sym (
              next_slot s.size v.exponent s.consumed_available v.power v.small
                v.consumed_available_range));
    used_end = v.used_end;
    ids = ids_write v head inside (record r { state = ChainState.in_flight }) (v.ids head r held);
    waiting_filled =
        subst (All Filled) (sym waiting-fly) (subst (All Filled) waiting-cons v.waiting_filled).1;
    finished_completed = v.finished_completed;
    waiting_once = λ h. rw waiting-fly (
        ground (
          arith,
          v.waiting_once h,
          ap (sum_by (names h)) waiting-cons,
          state_write v head inside is_available flying h,
          state_at v head inside is_available (some r) h held,
          state,
        ));
    finished_once = λ h. ground (
      arith,
      v.finished_once h,
      state_write v head inside is_used flying h,
      state_at v head inside is_used (some r) h held,
      not_used,
    );
    available_number = ground (
      arith,
      counted_write v head inside (state_of is_available) flying,
      v.available_number,
      held,
      state,
    );
    used_number = ground (
      arith,
      counted_write v head inside (state_of is_used) flying,
      v.used_number,
      held,
      not_used,
    );
    active_number =
        ground (arith, counted_write v head inside present flying, v.active_number, held);
  }
    where
      flying : Option ChainRecord
      flying = some (record r { state = ChainState.in_flight })

      not_used : state_of is_used (some r) ≡ 0
      not_used = ground arith
