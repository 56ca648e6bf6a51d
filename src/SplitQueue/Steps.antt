-- ===== src/SplitQueue/Steps.antt =====
-- `pop_available`, `complete`, `pop_used` and `RingStorage::new` of
-- crates/virtio-accel-split-queue/src/queue.rs on the invariant of a storage.
use native.Mathlib.Nat.{mod-eq_of_lt, add-zero}
use virtio_accel.Prelude.{
  Bool-cases, ℕ, zero, suc, ◌+◌, ◌%◌, ◌^◌, ◌≤◌, ◌<◌, ◌≡◌, ◌≢◌, ◌∙◌, sym, refl, ap, subst, Bool,
  true, [], length, set, sum_by, Option, none, some, arith, ==_cases, inl, inr, ok, replicate,
  get_elem?,
}
use virtio_accel.SplitQueue.Ring.{
  RingStorage, DescriptorOwner, ChainRecord, ChainState, UsedElement, at, ring_slot, release_slots,
  release_descriptors, new_storage,
}
use virtio_accel.SplitQueue.Queue.{is_available, is_in_flight, is_used}
use virtio_accel.SplitQueue.Queue.Transfer.{pop_used_storage}
use virtio_accel.SplitQueue.Entries.{
  present, absent, at-lt, at-set_self, at-set_ne, sum_by-pos, at-replicate,
}
use virtio_accel.SplitQueue.Rings.{waiting, finished, chain_id, state_of}
use virtio_accel.SplitQueue.Owners.{Owners, occurrences, holds, Released, release_slots-Released}
use virtio_accel.SplitQueue.Storage.{Storage}
use virtio_accel.SplitQueue.Enqueue.{counted_write, slot_lt}
use virtio_accel.SplitQueue.Window.{positive}
use virtio_accel.SplitQueue.Finish.{finish, finish-Rings}
use virtio_accel.SplitQueue.Pop.{fly, fly-Rings}
use virtio_accel.SplitQueue.PopUsed.{taken, popped, popped-Rings}

-- A record that keeps its chain keeps the owners.
module _ {epoch : ℕ} {s : RingStorage} (w : Storage epoch s) (head : ℕ) (r : ChainRecord)
    (held : at s.records head ≡ some r) where
  inside : head < s.size
  inside = omega (arith, w.rings.records_length, at-lt s.records head held)

  module _ (state : ChainState) where
    held_changed :
        (h : ℕ) (r' : ChainRecord)
        → at (set s.records head (some (record r { state = state }))) h ≡ some r'
        → 0 < occurrences h r'.chain.slots
    held_changed h r' e = elim (==_cases h head) [
      | inl same ↦
          let new : some r' ≡ some (record r { state = state }) =
            sym e
            ∙ ap (at (set s.records head (some (record r { state = state })))) same
            ∙ at-set_self s.records head (some (record r { state = state }))
                (omega (arith, inside, w.rings.records_length)) in
          let slots : r'.chain.slots ≡ r.chain.slots = cc new in
          rw (slots, same) (w.owners.head_held head r held)
      | inr other ↦
          w.owners.head_held h r' (
            sym (at-set_ne s.records head h (some (record r { state = state })) (ground arith)) ∙ e)
    ]

    once_changed :
        (i : ℕ)
        → sum_by (holds i) (set s.records head (some (record r { state = state })))
          ≡ present (at s.descriptors i)
    once_changed i = ground (
      arith,
      counted_write w.rings head inside (holds i) (some (record r { state = state })),
      held,
      w.owners.owned_once i,
    )

  pub fly-Storage :
      (some_waiting : s.available_count ≢ 0)
      (first : get_elem? s.available (ring_slot s.size s.consumed_available) ≡ some head)
      (state : is_available r.state ≡ true)
      → Storage epoch (fly s r head)
  fly-Storage some_waiting first state = record {
    rings = fly-Rings w.rings head r some_waiting first held state;
    owners = record {
      descriptors_length = w.owners.descriptors_length;
      next_range = w.owners.next_range;
      free_number = w.owners.free_number;
      owned_once = once_changed ChainState.in_flight;
      head_held = held_changed ChainState.in_flight;
    };
  }

  pub finish-Storage :
      (used : ℕ) → is_in_flight r.state ≡ true → Storage epoch (finish s r r.id used head)
  finish-Storage used flying = record {
    rings = finish-Rings w.rings r used head held flying;
    owners = record {
      descriptors_length = w.owners.descriptors_length;
      next_range = w.owners.next_range;
      free_number = w.owners.free_number;
      owned_once = once_changed ChainState.used;
      head_held = held_changed ChainState.used;
    };
  }

  -- The slots of the chain of a record each have an owner.
  owned_slots : (i : ℕ) → occurrences i r.chain.slots ≤ present (at s.descriptors i)
  owned_slots i =
      let part : holds i (at s.records head) ≡ occurrences i r.chain.slots = rw held refl in
      omega (
        arith,
        part,
        w.owners.owned_once i,
        sum_by-pos (holds i) s.records head (at-lt s.records head held),
      )

  pub released : Released r.chain.slots (taken s head) (release_slots r.chain.slots (taken s head))
  released = release_slots-Released r.chain.slots (taken s head) owned_slots w.owners.free_number

  held_popped :
      (h : ℕ) (r' : ChainRecord)
      → at (set s.records head none) h ≡ some r'
      → 0 < occurrences h r'.chain.slots
  held_popped h r' e = elim (==_cases h head) [
    | inl same ↦
        let gone : at (set s.records head none) h ≡ none =
          ap (at (set s.records head none)) same
          ∙ at-set_self s.records head none (omega (arith, inside, w.rings.records_length)) in
        absurd (cc gone)
    | inr other ↦ w.owners.head_held h r' (sym (at-set_ne s.records head h none (ground arith)) ∙ e)
  ]

  popped-Owners : Owners (
      popped s head
        (release_slots r.chain.slots (taken s head)).descriptors
        (release_slots r.chain.slots (taken s head)).free_descriptors)
  popped-Owners = record {
    descriptors_length = released.kept_length ∙ w.owners.descriptors_length;
    next_range = w.owners.next_range;
    free_number = released.free_number;
    owned_once = λ i. ground (
      arith,
      counted_write w.rings head inside (holds i) none,
      held,
      w.owners.owned_once i,
      released.freed i,
    );
    head_held = held_popped;
  }

module _ {epoch : ℕ} {s : RingStorage} (w : Storage epoch s) (u : UsedElement) (r : ChainRecord)
    (some_used : s.used_count ≢ 0) (first : at s.used (ring_slot s.size s.consumed_used) ≡ some u)
    (held : at s.records u.head ≡ some r) (state : is_used r.state ≡ true) where
  -- The storage that `pop_used` leaves.
  abbrev pub left_by_pop : RingStorage
  left_by_pop =
      popped s u.head (release_slots r.chain.slots (taken s u.head)).descriptors
        (release_slots r.chain.slots (taken s u.head)).free_descriptors

  pub pop_used-Storage : Storage epoch left_by_pop
  pop_used-Storage = record {
    rings =
        popped-Rings w.rings u r some_used first held state
          (release_slots r.chain.slots (taken s u.head)).descriptors
          (release_slots r.chain.slots (taken s u.head)).free_descriptors;
    owners = popped-Owners w u.head r held;
  }

  pub pop_used_storage-ok :
      u.id ≡ chain_id epoch u.head
      → pop_used_storage s
        ≡ (left_by_pop, ok (some (record { id = r.id; used = u.used; chain = r.chain })))
  unfolding pop_used_storage release_descriptors
  pop_used_storage-ok completed = ground (
    arith,
    first,
    held,
    state,
    some_used,
    completed,
    w.rings.ids u.head r held,
    (released w u.head r held).frame,
  )

-- A new storage, of a size that is a power of two.
length-replicate {ℓ} : {A : Type ℓ} (n : ℕ) (x : A) → length (replicate n x) ≡ n
length-replicate zero x = refl
length-replicate (suc n) x = ap suc (length-replicate n x)

sum_by-replicate_zero {ℓ} :
    {A : Type ℓ} (f : Option A → ℕ) (n : ℕ) → f none ≡ 0 → sum_by f (replicate n none) ≡ 0
sum_by-replicate_zero f zero e = refl
sum_by-replicate_zero f (suc n) e = omega (arith, e, sum_by-replicate_zero f n e)

sum_by-absent-replicate :
    (n : ℕ) → sum_by absent (replicate {A = Option DescriptorOwner} n none) ≡ n
sum_by-absent-replicate zero = refl
sum_by-absent-replicate (suc n) = omega (arith, sum_by-absent-replicate n)

module _ (size k epoch : ℕ) (power : size ≡ 2 ^ k) (small : k < 16) where
  abbrev blank : RingStorage
  blank = record {
    size = size;
    descriptors = replicate size none;
    records = replicate size none;
    available = replicate size 0;
    used = replicate size none;
    available_index = 0;
    consumed_available = 0;
    used_index = 0;
    consumed_used = 0;
    available_count = 0;
    used_count = 0;
    active_chains = 0;
    free_descriptors = size;
    next_descriptor = 0;
  }

  slot_zero : ring_slot size 0 ≡ (ring_slot size 0 + 0) % size
  slot_zero = sym (
      ap (λ h. h % size) (add-zero (ring_slot size 0))
      ∙ mod-eq_of_lt (slot_lt size k 0 power small))

  blank-Storage : Storage epoch blank
  blank-Storage = record {
    rings = record {
      exponent = k;
      power = power;
      small = small;
      records_length = length-replicate size none;
      available_length = length-replicate size 0;
      used_length = length-replicate size none;
      available_range = omega arith;
      consumed_available_range = omega arith;
      used_range = omega arith;
      consumed_used_range = omega arith;
      available_end = slot_zero;
      used_end = slot_zero;
      ids = λ h r e. absurd (cc (at-replicate {A = ChainRecord} size h));
      waiting_filled = tt;
      finished_completed = tt;
      waiting_once = λ h. sym (ap (state_of is_available) (at-replicate size h));
      finished_once = λ h. sym (ap (state_of is_used) (at-replicate size h));
      available_number = sym (sum_by-replicate_zero (state_of is_available) size refl);
      used_number = sym (sum_by-replicate_zero (state_of is_used) size refl);
      active_number = sym (sum_by-replicate_zero {A = ChainRecord} present size refl);
    };
    owners = record {
      descriptors_length = length-replicate size none;
      next_range = positive size k power small;
      free_number = sym (sum_by-absent-replicate size);
      owned_once = λ i.
          sum_by-replicate_zero (holds i) size refl
          ∙ sym (ap (present {A = DescriptorOwner}) (at-replicate size i));
      head_held = λ h r e. absurd (cc (at-replicate {A = ChainRecord} size h));
    };
  }

  pub new_storage-Storage :
      (reserve : ℕ → Bool) {s : RingStorage}
      → new_storage reserve size ≡ ok s
      → Storage epoch s × (waiting s ≡ []) × (finished s ≡ []) × (s.size ≡ size)
  unfolding new_storage
  new_storage-Storage reserve {s} e = elim (Bool-cases (reserve size)) [
    | inl granted ↦
        let same : blank ≡ s = ground arith in
        (
          subst (Storage epoch) same blank-Storage,
          ap waiting (sym same),
          ap finished (sym same),
          ap (λ t. t.size) (sym same),
        )
    | inr refused ↦ absurd (ground arith)
  ]
