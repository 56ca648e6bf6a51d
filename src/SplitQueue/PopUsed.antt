-- ===== src/SplitQueue/PopUsed.antt =====
-- `pop_used` of crates/virtio-accel-split-queue/src/queue.rs takes the oldest used chain, frees its
-- descriptors and keeps the invariant of the storage.
use virtio_accel.Prelude.{
  ℕ, ◌+◌, ◌-◌, ◌%◌, ◌≤◌, ◌<◌, ◌≡◌, ◌≢◌, ◌∙◌, sym, ap, subst, true, List, ◌∷◌, set, length-set,
  sum_by, Option, none, some, arith, ==_refl, ==_cases, inl, inr, Option-cases, All,
}
use virtio_accel.SplitQueue.Ring.{
  RingStorage, DescriptorOwner, ChainRecord, UsedElement, at, ring_slot, wrapping_add,
}
use virtio_accel.SplitQueue.Queue.{is_available, is_used}
use virtio_accel.SplitQueue.Window.{window, window-front, window-behind, end_behind}
use virtio_accel.SplitQueue.Entries.{present, at-lt, at-set_self, at-set_ne, sum_by-at_most}
use virtio_accel.SplitQueue.Rings.{Rings, finished, chain_id, Completed, uses, state_of}
use virtio_accel.SplitQueue.Enqueue.{state_once, counted_write, state_write, state_at, slot_lt}
use virtio_accel.SplitQueue.Pop.{next_slot, record_of_state}

-- What is behind the oldest used element.
abbrev pub rest_used : RingStorage → List (Option UsedElement)
rest_used s =
    window (λ i. at s.used i) s.size ((ring_slot s.size s.consumed_used + 1) % s.size)
      (s.used_count - 1)

-- The writes of `pop_used` but those of `release_descriptors`.
abbrev pub taken : RingStorage → ℕ → RingStorage
taken s head = record s {
  used = set s.used (ring_slot s.size s.consumed_used) none;
  records = set s.records head none;
}

abbrev pub popped : RingStorage → ℕ → List (Option DescriptorOwner) → ℕ → RingStorage
popped s head ds free = record s {
  used = set s.used (ring_slot s.size s.consumed_used) none;
  records = set s.records head none;
  descriptors = ds;
  free_descriptors = free;
  consumed_used = wrapping_add s.consumed_used 1;
  used_count = s.used_count - 1;
  active_chains = s.active_chains - 1;
}

used_bound : {epoch : ℕ} {s : RingStorage} → Rings epoch s → s.used_count ≤ s.size
used_bound {s = s} v = omega (
  arith,
  v.used_number,
  v.records_length,
  sum_by-at_most (state_of is_used) (λ _. 0) s.records (state_once is_used),
)

not_available : (r : ChainRecord) → is_used r.state ≡ true → state_of is_available (some r) ≡ 0
not_available r h = ground arith

ids_clear :
    {epoch : ℕ} {s : RingStorage} (v : Rings epoch s) (head : ℕ)
    → head < s.size
    → (h : ℕ) (r : ChainRecord) → at (set s.records head none) h ≡ some r
    → r.id ≡ chain_id epoch h
ids_clear {s = s} v head inside h r found = elim (==_cases h head) [
  | inl same ↦
      let gone : at (set s.records head none) h ≡ none =
        ap (at (set s.records head none)) same
        ∙ at-set_self s.records head none (omega (arith, v.records_length)) in
      absurd (cc gone)
  | inr other ↦ v.ids h r (sym (at-set_ne s.records head h none (ground arith)) ∙ found)
]

module _ {epoch : ℕ} {s : RingStorage} (v : Rings epoch s) (some_used : s.used_count ≢ 0) where
  finished-front : finished s ≡ at s.used (ring_slot s.size s.consumed_used) ∷ rest_used s
  finished-front =
      window-front (λ i. at s.used i) s.size (ring_slot s.size s.consumed_used) s.used_count
        some_used

  -- The oldest used element and its record.
  pub oldest_used :
      (u : UsedElement) × (r : ChainRecord) × (at s.used (ring_slot s.size s.consumed_used)
        ≡ some u)
      × (at s.records u.head ≡ some r)
      × (is_used r.state ≡ true)
      × (u.id ≡ chain_id epoch u.head)
  oldest_used = elim (Option-cases (at s.used (ring_slot s.size s.consumed_used))) [
    | inl e ↦ absurd (
        subst (Completed epoch) e
          (subst (All (Completed epoch)) finished-front v.finished_completed).0)
    | inr (u, e) ↦
        let completed : u.id ≡ chain_id epoch u.head =
          subst (Completed epoch) e
            (subst (All (Completed epoch)) finished-front v.finished_completed).0 in
        let counted : 0 < state_of is_used (at s.records u.head) = ground (
          arith,
          v.finished_once u.head,
          ap (sum_by (uses u.head)) finished-front,
          ==_refl u.head,
          e,
        ) in
        let (r, held, state) = record_of_state is_used (at s.records u.head) counted in
        (u, r, e, held, state, completed)
  ]

module _ {epoch : ℕ} {s : RingStorage} (v : Rings epoch s) (u : UsedElement) (r : ChainRecord)
    (some_used : s.used_count ≢ 0) (first : at s.used (ring_slot s.size s.consumed_used) ≡ some u)
    (held : at s.records u.head ≡ some r) (state : is_used r.state ≡ true) where
  inside : u.head < s.size
  inside = omega (arith, v.records_length, at-lt s.records u.head held)

  pub finished-cons : finished s ≡ some u ∷ rest_used s
  finished-cons = finished-front v some_used ∙ ap (λ e. e ∷ rest_used s) first

  used_count_le : s.used_count ≤ s.size
  used_count_le = omega (arith, used_bound v)

  module _ (ds : List (Option DescriptorOwner)) (free : ℕ) where
    pub finished-popped : finished (popped s u.head ds free) ≡ rest_used s
    finished-popped =
        ap (λ h. window (λ i. at (set s.used slot none) i) s.size h (s.used_count - 1))
          (next_slot s.size v.exponent s.consumed_used v.power v.small v.consumed_used_range)
        ∙ window-behind (λ i. at s.used i) (λ i. at (set s.used slot none) i) s.size
            (s.used_count - 1) ((slot + 1) % s.size) slot 0
            (λ j ne. at-set_ne s.used slot j none ne)
            (slot_lt s.size v.exponent s.consumed_used v.power v.small)
            (ap (λ k. (slot + k) % s.size) (omega arith)) (omega (arith, used_count_le))
      where
        slot : ℕ
        slot = ring_slot s.size s.consumed_used

    pub popped-Rings : Rings epoch (popped s u.head ds free)
    popped-Rings = record {
      exponent = v.exponent;
      power = v.power;
      small = v.small;
      records_length = length-set s.records u.head none ∙ v.records_length;
      available_length = v.available_length;
      used_length = length-set s.used (ring_slot s.size s.consumed_used) none ∙ v.used_length;
      available_range = v.available_range;
      consumed_available_range = v.consumed_available_range;
      used_range = v.used_range;
      consumed_used_range = omega arith;
      available_end = v.available_end;
      used_end =
          end_behind s.size (ring_slot s.size s.consumed_used) s.used_count
            (ring_slot s.size s.used_index) some_used v.used_end
          ∙ ap (λ h. (h + (s.used_count - 1)) % s.size)
              (sym (
                next_slot s.size v.exponent s.consumed_used v.power v.small v.consumed_used_range));
      ids = ids_clear v u.head inside;
      waiting_filled = v.waiting_filled;
      finished_completed =
          subst (All (Completed epoch)) (sym finished-popped)
            (subst (All (Completed epoch)) finished-cons v.finished_completed).1;
      waiting_once = λ h. ground (
        arith,
        v.waiting_once h,
        state_write v u.head inside is_available none h,
        state_at v u.head inside is_available (some r) h held,
        not_available r state,
      );
      finished_once = λ h. rw finished-popped (
          ground (
            arith,
            v.finished_once h,
            ap (sum_by (uses h)) finished-cons,
            state_write v u.head inside is_used none h,
            state_at v u.head inside is_used (some r) h held,
            state,
          ));
      available_number = ground (
        arith,
        counted_write v u.head inside (state_of is_available) none,
        v.available_number,
        held,
        not_available r state,
      );
      used_number = ground (
        arith,
        counted_write v u.head inside (state_of is_used) none,
        v.used_number,
        held,
        state,
      );
      active_number =
          ground (arith, counted_write v u.head inside present none, v.active_number, held);
    }
