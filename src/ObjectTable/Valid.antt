-- ===== src/ObjectTable/Valid.antt =====
-- Well-formed tables: what holds of a table between two operations.
use virtio_accel.Prelude.{
  ℕ, ◌≤◌, ◌<◌, ◌≡◌, ◌≢◌, true, false, not, ◌&&◌, none, some, List, [], ◌∷◌, arith, length,
  get_elem?, sum_by, All, if◌then◌else◌, is_none, u32_mod,
}
use virtio_accel.ObjectTable.{ObjectKind, generation_mask, Slot, ObjectTable, with_namespace}

module _ {T : Type 0} where
  -- A slot counts by what it holds.
  abbrev pub weight : (T → ℕ) → Slot T → ℕ
  weight f s = elim s.value [ none ↦ 0 | some v ↦ f v ]

  -- The sum of `f` over the values of a table.
  unfoldable pub total : (T → ℕ) → ObjectTable T → ℕ
  total f t = sum_by (weight f) t.slots

  -- A slot that an insertion may take.
  abbrev pub spare : Slot T → ℕ
  spare s = if is_none s.value && not s.retired then 1 else 0

  abbrev pub SlotOk : Slot T → Type 0
  SlotOk s = (s.generation ≤ generation_mask) × (s.retired ≡ true → s.value ≡ none)

  abbrev pub IsSpare : List (Slot T) → ℕ → Type 0
  IsSpare slots i =
      (s : Slot T) × (get_elem? slots i ≡ some s) × (s.value ≡ none) × (s.retired ≡ false)

  -- The free list names distinct spare slots.
  abbrev pub FreeOk : List (Slot T) → List ℕ → Type 0
  FreeOk slots [] = Unit
  FreeOk slots (i ∷ free) = IsSpare slots i × All (λ j. j ≢ i) free × FreeOk slots free

  pub record IsValid (t : ObjectTable T) : Type 0 where
    pub bounded : t.max_slots < u32_mod
    pub capacity : length t.slots ≤ t.max_slots
    pub slots_ok : All SlotOk t.slots
    pub counted : t.live ≡ sum_by (weight (λ _. 1)) t.slots
    pub free_ok : FreeOk t.slots t.free
    pub accounted : length t.free ≡ sum_by spare t.slots

  pub with_namespace-IsValid :
      (k : ObjectKind) (max namespace : ℕ)
      → max < u32_mod
      → IsValid (with_namespace k max namespace)
  unfolding with_namespace
  with_namespace-IsValid k max namespace h = ground arith
