-- ===== src/SplitQueue/Owners.antt =====
-- The ownership of descriptors in crates/virtio-accel-split-queue/src/queue.rs: every descriptor with
-- an owner is in one slot of one chain; `release_descriptors` frees the slots of a chain.
use virtio_accel.Prelude.{
  ℕ, ◌+◌, ◌≤◌, ◌<◌, ◌≡◌, ◌∙◌, sym, refl, subst, List, [], ◌∷◌, length, set, length-set, sum_by,
  Option, none, some, arith, if◌then◌else◌, ◌==◌, ==_refl, ==_ne, ==_cases, inl, inr, Option-cases,
}
use virtio_accel.SplitQueue.Ring.{RingStorage, ChainRecord, DescriptorOwner, at, release_slots}
use virtio_accel.SplitQueue.Entries.{present, absent, at-lt, at-set_self, at-set_ne, sum_by-write}

-- How often a list names an index.
abbrev pub one_at : ℕ → ℕ → ℕ
one_at i j = if j == i then 1 else 0

abbrev pub occurrences : ℕ → List ℕ → ℕ
occurrences i slots = sum_by (one_at i) slots

-- How often the slots of a record name an index.
abbrev pub holds : ℕ → Option ChainRecord → ℕ
holds i none = 0
holds i (some r) = occurrences i r.chain.slots

pub record Owners (s : RingStorage) : Type 0 where
  pub descriptors_length : length s.descriptors ≡ s.size
  pub next_range : s.next_descriptor < s.size
  pub free_number : s.free_descriptors ≡ sum_by absent s.descriptors
  pub owned_once : (i : ℕ) → sum_by (holds i) s.records ≡ present (at s.descriptors i)
  pub head_held :
      (h : ℕ) (r : ChainRecord) → at s.records h ≡ some r → 0 < occurrences h r.chain.slots

-- Whether an entry is there, after a write.
pub present-set :
    (descriptors : List (Option DescriptorOwner)) (slot : ℕ) (o : Option DescriptorOwner) (i : ℕ)
    → slot < length descriptors
    → present (at (set descriptors slot o) i)
      ≡ (if slot == i then present o else present (at descriptors i))
present-set descriptors slot o i inside = elim (==_cases i slot) [
  | inl same ↦ rw (same, ==_refl slot, at-set_self descriptors slot o inside) refl
  | inr other ↦ rw (==_ne slot i (ground arith), at-set_ne descriptors slot i o (ground arith)) refl
]

pub present-lt :
    (descriptors : List (Option DescriptorOwner)) (slot : ℕ)
    → 0 < present (at descriptors slot)
    → slot < length descriptors
present-lt descriptors slot h = elim (Option-cases (at descriptors slot)) [
  | inl e ↦ absurd (ground arith)
  | inr (o, e) ↦ at-lt descriptors slot e
]

-- What `release_slots` does, where the slots are different and each has an owner.
pub record Released (slots : List ℕ) (s t : RingStorage) : Type 0 where
  pub kept_length : length t.descriptors ≡ length s.descriptors
  pub freed :
      (i : ℕ) → present (at t.descriptors i) + occurrences i slots ≡ present (at s.descriptors i)
  pub free_number : t.free_descriptors ≡ sum_by absent t.descriptors
  pub frame : t ≡ record s { descriptors = t.descriptors; free_descriptors = t.free_descriptors }

release_step : (s : RingStorage) (slot : ℕ) → RingStorage
release_step s slot = record s {
  descriptors = set s.descriptors slot none;
  free_descriptors = s.free_descriptors + 1;
}

release_slots-cons :
    (slot : ℕ) (slots : List ℕ) (s : RingStorage) {o : DescriptorOwner}
    → at s.descriptors slot ≡ some o
    → release_slots (slot ∷ slots) s ≡ release_slots slots (release_step s slot)
unfolding release_slots release_step
release_slots-cons slot slots s e = ground (arith, e)

pub release_slots-Released :
    (slots : List ℕ) (s : RingStorage)
    → ((i : ℕ) → occurrences i slots ≤ present (at s.descriptors i))
    → s.free_descriptors ≡ sum_by absent s.descriptors
    → Released slots s (release_slots slots s)
unfolding release_slots release_step
release_slots-Released [] s owned free = record {
  kept_length = refl;
  freed = λ i. omega arith;
  free_number = free;
  frame = refl;
}
release_slots-Released (slot ∷ slots) s owned free = elim (Option-cases (at s.descriptors slot)) [
  | inl e ↦ absurd (ground (arith, owned slot, ==_refl slot))
  | inr (o, e) ↦
      let inside : slot < length s.descriptors = at-lt s.descriptors slot e in
      let ih =
        release_slots-Released slots (release_step s slot)
          (λ i. ground (arith, owned i, present-set s.descriptors slot none i inside))
          (ground (arith, sum_by-write absent s.descriptors slot none inside, e)) in
      subst (Released (slot ∷ slots) s) (sym (release_slots-cons slot slots s e)) (record {
        kept_length = ih.kept_length ∙ length-set s.descriptors slot none;
        freed =
            λ i. ground (arith, ih.freed i, owned i, present-set s.descriptors slot none i inside);
        free_number = ih.free_number;
        frame = ih.frame;
      })
]
