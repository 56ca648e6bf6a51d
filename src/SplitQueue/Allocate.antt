-- ===== src/SplitQueue/Allocate.antt =====
-- `allocate_descriptors` of crates/virtio-accel-split-queue/src/queue.rs: where enough descriptors are
-- free, its loops end with that many descriptors in the slots of the chain.
use native.Mathlib.Nat.{mod-lt, mod-eq_of_lt, mod-eq-sub-mod, add-zero}
use native.Mathlib.Numerals.{add-one}
use native.Mathlib.Decide.{dec_lt}
use virtio_accel.Prelude.{
  ℕ, zero, suc, ◌+◌, ◌-◌, ◌%◌, ◌^◌, ◌≤◌, ◌<◌, ◌≡◌, ◌∙◌, refl, ap, subst, true, List, [], ◌∷◌,
  length, set, length-set, sum_by, Option, none, some, arith, inl, inr, Option-cases, take,
}
use virtio_accel.SplitQueue.Ring.{
  DescriptorOwner, Allocation, at, find_free, take_slots, wrapping_descriptor_add, wrapping_add,
}
use virtio_accel.SplitQueue.Window.{
  positive, ring_slot-mod, mod-wrapping_add, mod-65536, shift-mod, wrapping_descriptor_add_lem,
}
use virtio_accel.SplitQueue.Entries.{present, absent, sum_by-write}
use virtio_accel.SplitQueue.Owners.{one_at, occurrences, present-set}

-- The sum of no absent entry.
all_there :
    (xs : List (Option DescriptorOwner))
    → ((i : ℕ) → i < length xs → absent (at xs i) ≡ 0)
    → sum_by absent xs ≡ 0
all_there [] h = refl
all_there (x ∷ xs) h =
    omega (arith, h 0 (omega arith), all_there xs (λ i lt. h (suc i) (omega arith)))

module _ (size k : ℕ) (power : size ≡ 2 ^ k) (small : k < 16) where
  pub size_le : size ≤ 2 ^ 16
  size_le = elim (dec_lt (2 ^ 16) size) [
    | yes p ↦
        absurd
          (omega (arith, mod-65536 k small, mod-eq_of_lt {n = 65536} {m = 2 ^ k} (rw (← power) p)))
    | no p ↦ omega arith
  ]

  pub next_cursor : (i : ℕ) → i < size → wrapping_descriptor_add size i 1 ≡ (i + 1) % size
  next_cursor i lt =
      wrapping_descriptor_add_lem size i 1
      ∙ ring_slot-mod size k power small (wrapping_add i 1)
      ∙ mod-wrapping_add size k power small i (omega (arith, size_le))

  next_cursor_lt : (i : ℕ) → i < size → wrapping_descriptor_add size i 1 < size
  next_cursor_lt i lt = rw (next_cursor i lt) (mod-lt (i + 1) (positive size k power small))

  find_free-some :
      (left cursor : ℕ) (ds : List (Option DescriptorOwner)) (c : ℕ)
      → cursor < size
      → find_free size left ds cursor ≡ some c
      → (c < size) × (at ds c ≡ none)
  unfolding find_free
  find_free-some zero cursor ds c lt e = absurd (cc)
  find_free-some (suc left) cursor ds c lt e = elim (Option-cases (at ds cursor)) [
    | inl free ↦ ground (arith, free)
    | inr (o, owned) ↦
        find_free-some left (wrapping_descriptor_add size cursor 1) ds c (next_cursor_lt cursor lt)
          (ground (arith, owned))
  ]

  find_free-none :
      (left cursor : ℕ) (ds : List (Option DescriptorOwner)) (j : ℕ)
      → cursor < size
      → find_free size left ds cursor ≡ none
      → j < left
      → absent (at ds ((cursor + j) % size)) ≡ 0
  unfolding find_free
  find_free-none zero cursor ds j lt e h = absurd (omega arith)
  find_free-none (suc left) cursor ds zero lt e h = elim (Option-cases (at ds cursor)) [
    | inl free ↦ absurd (ground (arith, free))
    | inr (o, owned) ↦ rw (add-zero, mod-eq_of_lt lt, owned) refl
  ]
  find_free-none (suc left) cursor ds (suc j) lt e h = elim (Option-cases (at ds cursor)) [
    | inl free ↦ absurd (ground (arith, free))
    | inr (o, owned) ↦
        subst (λ i. absent (at ds i) ≡ 0)
          (ap (λ t. (t + j) % size) (next_cursor cursor lt) ∙ shift-mod size cursor j)
          (find_free-none left (wrapping_descriptor_add size cursor 1) ds j
            (next_cursor_lt cursor lt) (ground (arith, owned)) (omega arith))
  ]

  -- An index is some number of steps round the ring from the cursor.
  steps_to :
      (cursor i : ℕ) → cursor < size → i < size → (j : ℕ) × (j < size) × ((cursor + j) % size ≡ i)
  steps_to cursor i lt h = elim (dec_lt i cursor) [
    | yes p ↦ (
      i + size - cursor,
      omega arith,
      ap (λ t. t % size) (let e : cursor + (i + size - cursor) ≡ i + size = omega arith in e)
          ∙ mod-eq-sub-mod {n = i + size} {m = size} (omega arith)
          ∙ ap (λ t. t % size) (let e : i + size - size ≡ i = omega arith in e)
          ∙ mod-eq_of_lt h,
    )
    | no p ↦ (
      i - cursor,
      omega arith,
      ap (λ t. t % size) (let e : cursor + (i - cursor) ≡ i = omega arith in e) ∙ mod-eq_of_lt h,
    )
  ]

  -- Some index is free, so the scan finds one.
  pub find_free_lem :
      (cursor : ℕ) (ds : List (Option DescriptorOwner))
      → cursor < size
      → length ds ≡ size
      → 0 < sum_by absent ds
      → (c : ℕ) × (find_free size size ds cursor ≡ some c) × (c < size) × (at ds c ≡ none)
  find_free_lem cursor ds lt e some_free = elim (Option-cases (find_free size size ds cursor)) [
    | inr (c, found) ↦
        let (inside, free) = find_free-some size cursor ds c lt found in (c, found, inside, free)
    | inl missed ↦ absurd (
        omega (
          arith,
          all_there ds λ i h.
              let (j, small_j, reached) = steps_to cursor i lt (omega arith) in
              subst (λ t. absent (at ds t) ≡ 0) reached
                (find_free-none size cursor ds j lt missed small_j),
        ))
  ]

-- The slots that are filled, after one more.
occurrences-take-set :
    (slots : List ℕ) (n c i : ℕ)
    → n < length slots
    → occurrences i (take (suc n) (set slots n c)) ≡ occurrences i (take n slots) + one_at i c
occurrences-take-set [] n c i h = absurd (omega arith)
occurrences-take-set (x ∷ xs) zero c i h = omega arith
occurrences-take-set (x ∷ xs) (suc n) c i h =
    omega (arith, occurrences-take-set xs n c i (omega arith))

pub occurrences-take_all :
    (slots : List ℕ) (i : ℕ) → occurrences i (take (length slots) slots) ≡ occurrences i slots
occurrences-take_all [] i = refl
occurrences-take_all (x ∷ xs) i = ap (λ n. one_at i x + n) (occurrences-take_all xs i)

-- A free index holds nothing.
vacant_at :
    (ds : List (Option DescriptorOwner)) (c i : ℕ)
    → at ds c ≡ none
    → one_at i c ≡ 1
    → present (at ds i) ≡ 0
vacant_at ds c i free e = let same : c ≡ i = ground arith in rw (← same, free) refl

-- What the outer loop does with `left` descriptors to go.
pub record Taken (size left allocated : ℕ) (a b : Allocation) : Type 0 where
  pub kept_length : length b.descriptors ≡ length a.descriptors
  pub slots_length : length b.slots ≡ length a.slots
  pub filled :
      (i : ℕ)
      → present (at b.descriptors i) + occurrences i (take allocated a.slots)
        ≡ present (at a.descriptors i) + occurrences i (take (left + allocated) b.slots)
  pub absent_number : sum_by absent b.descriptors + left ≡ sum_by absent a.descriptors
  pub cursor_range : b.cursor < size

module _ (size k : ℕ) (power : size ≡ 2 ^ k) (small : k < 16) where
  abbrev step : ℕ → Allocation → ℕ → Allocation
  step allocated a c = record {
    slots = set a.slots allocated c;
    descriptors = set a.descriptors c (some (record { head = 0; local = allocated % 2 ^ 16 }));
    cursor = wrapping_descriptor_add size c 1;
  }

  absent-step :
      (allocated : ℕ) (a : Allocation) (c : ℕ)
      → c < length a.descriptors
      → at a.descriptors c ≡ none
      → sum_by absent (step allocated a c).descriptors + 1 ≡ sum_by absent a.descriptors
  absent-step allocated a c inside free = ground (
    arith,
    sum_by-write absent a.descriptors c (some (record { head = 0; local = allocated % 2 ^ 16 }))
        inside,
    free,
  )

  Taken-step :
      (left allocated : ℕ) (a b : Allocation) (c : ℕ)
      → c < length a.descriptors
      → allocated < length a.slots
      → at a.descriptors c ≡ none
      → Taken size left (allocated + 1) (step allocated a c) b
      → Taken size (suc left) allocated a b
  Taken-step left allocated a b c inside room free t = record {
    kept_length = t.kept_length ∙ length-set a.descriptors c _;
    slots_length = t.slots_length ∙ length-set a.slots allocated c;
    filled = λ i. ground (
      arith,
      t.filled i,
      present-set a.descriptors c (some (record { head = 0; local = allocated % 2 ^ 16 })) i inside,
      occurrences-take-set a.slots allocated c i room,
      ap (λ n. occurrences i (take n (set a.slots allocated c))) (add-one allocated),
      ap (λ n. occurrences i (take n b.slots))
          (let e : left + (allocated + 1) ≡ suc left + allocated = omega arith in e),
      vacant_at a.descriptors c i free,
    );
    absent_number = omega (arith, t.absent_number, absent-step allocated a c inside free);
    cursor_range = t.cursor_range;
  }

  pub take_slots-Taken :
      (left allocated : ℕ) (a : Allocation)
      → a.cursor < size
      → length a.descriptors ≡ size
      → allocated + left ≤ length a.slots
      → left ≤ sum_by absent a.descriptors
      → (b : Allocation) × (take_slots size left allocated a ≡ (b, true))
        × Taken size left allocated a b
  unfolding take_slots
  take_slots-Taken zero allocated a range len room enough = (
    a,
    refl,
    record {
      kept_length = refl;
      slots_length = refl;
      filled = λ i.
          ap (λ n. present (at a.descriptors i) + occurrences i (take n a.slots)) (omega arith);
      absent_number = omega arith;
      cursor_range = range;
    },
  )
  take_slots-Taken (suc left) allocated a range len room enough =
      let (c, found, inside, free) =
        find_free_lem size k power small a.cursor a.descriptors range len (omega arith) in
      let lt : c < length a.descriptors = omega arith in
      let (b, done, taken) =
        take_slots-Taken left (allocated + 1) (step allocated a c)
          (next_cursor_lt size k power small c inside) (length-set a.descriptors c _ ∙ len)
          (rw (length-set a.slots allocated c) (omega arith))
          (omega (arith, absent-step allocated a c lt free)) in
      (b, rw (found, take_slots) done, Taken-step left allocated a b c lt (omega arith) free taken)
