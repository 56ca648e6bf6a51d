-- ===== src/ObjectTable/Lookup.antt =====
-- `get` seen through the slot that an ID names: what a write to one slot does to every lookup.
use virtio_accel.Prelude.{
  ℕ, ◌+◌, ◌-◌, ◌≡◌, ◌≢◌, inl, inr, false, ◌||◌, not, Option, none, some, arith, get_elem?, ◌==◌,
  if◌then◌else◌, ==_refl, Option-cases, is_none, Result, ok, err, ok_or, ap, ◌∙◌,
}
use virtio_accel.ObjectTable.{
  slot_number, generation_field, ObjectTableError, stale_id, Slot, ObjectTable, locate, get,
}
use virtio_accel.ObjectTable.Ids.{Decodes}

index_of_number : (i : ℕ) → i + 1 - 1 ≡ i
index_of_number i = omega arith

module _ {T : Type 0} where
  -- What a lookup at generation `g` finds in a slot.
  abbrev pub peek : Option (Slot T) → ℕ → Result ObjectTableError T
  peek none g = err stale_id
  peek (some s) g =
      if not (s.generation == g) || s.retired || is_none s.value
      then err stale_id
      else ok_or s.value stale_id

  -- An ID that names a slot of the table, and what the slot holds.
  pub record Located (t : ObjectTable T) (id : ℕ) (v : T) : Type 0 where
    pub index : ℕ
    pub slot : Slot T
    pub found : get_elem? t.slots index ≡ some slot
    pub decodes : Decodes id index t.namespace slot.generation t.kind
    pub holds : slot.value ≡ some v
    pub kept : slot.retired ≡ false

  peek_of_parts :
      (s : Slot T) (v : T)
      → s.value ≡ some v
      → s.retired ≡ false
      → peek (some s) s.generation ≡ ok v
  peek_of_parts s v h r = rw (==_refl s.generation, r, h)

  -- After the tests of the header, `get` is `peek`.
  pub get-peek :
      (t : ObjectTable T) (id i g : ℕ)
      → Decodes id i t.namespace g t.kind
      → get t id ≡ peek (get_elem? t.slots i) g
  unfolding get
  get-peek t id i g d = ground (arith, ap (get_elem? t.slots) (index_of_number i))

  pub Located-get : (t : ObjectTable T) (id : ℕ) (v : T) → Located t id v → get t id ≡ ok v
  Located-get t id v l =
      get-peek t id l.index l.slot.generation l.decodes
      ∙ ap (λ o. peek o l.slot.generation) l.found
      ∙ peek_of_parts l.slot v l.holds l.kept

  pub locate_of_Located :
      (t : ObjectTable T) (id : ℕ) (v : T) (l : Located t id v) → locate t id ≡ ok l.index
  unfolding locate
  locate_of_Located t id v l = ground (arith, ap (get_elem? t.slots) (index_of_number l.index))

  pub get-Located : (t : ObjectTable T) (id : ℕ) (v : T) → get t id ≡ ok v → Located t id v
  unfolding get
  get-Located t id v h = elim (Option-cases (get_elem? t.slots (slot_number id - 1))) [
    | inl e ↦ absurd (ground arith)
    | inr (s, e) ↦ record {
      index = slot_number id - 1;
      slot = s;
      found = e;
      decodes = record {
        slot = ground arith;
        kind = ground arith;
        space = ground arith;
        age = ground arith;
      };
      holds = ground arith;
      kept = ground arith;
    }
  ]

  -- A table that differs from another in one slot only gives the same answer at every ID for which
  -- that slot gives the same answer.
  pub get-elsewhere :
      (t u : ObjectTable T) (i id : ℕ)
      → u.kind ≡ t.kind
      → u.namespace ≡ t.namespace
      → ((n : ℕ) → n ≢ i → get_elem? u.slots n ≡ get_elem? t.slots n)
      → ((g : ℕ)
          → Decodes id i t.namespace g t.kind
          → peek (get_elem? u.slots i) g ≡ peek (get_elem? t.slots i) g)
      → get u id ≡ get t id
  unfolding get
  get-elsewhere t u i id k n rest same = ground (
    arith,
    rest (slot_number id - 1),
    same (generation_field id),
    get-peek t id i (generation_field id),
    get-peek u id i (generation_field id),
  )
