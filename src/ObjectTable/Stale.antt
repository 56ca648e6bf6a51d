-- ===== src/ObjectTable/Stale.antt =====
-- A removed ID stays stale, whatever is done to the table after: every slot's generation only grows,
-- and a slot under an ID's own generation that was emptied is retired.
use virtio_accel.Prelude.{
  ℕ, ◌+◌, ◌<◌, ◌≡◌, refl, sym, ap, ◌∙◌, ◌≢◌, ◌⊎◌, inl, inr, true, some, List, [], ◌∷◌, arith,
  get_elem?, set, ==_cases, ok, err, Result-cases, get_elem?-set_self, get_elem?-set_ne,
  get_elem?-push_ne, get_elem?-lt,
}
use virtio_accel.ObjectTable.{
  ObjectTableError, Slot, ObjectTable, get, put, remove, insert_prepared, slot_number,
  generation_field, locate, check_slot, Reserve, insert, try_reserve_insert,
}
use virtio_accel.ObjectTable.Lookup.{Located, get-Located}
use virtio_accel.ObjectTable.Valid.{IsValid, FreeOk}
use virtio_accel.ObjectTable.Preserve.{
  HasRoom, insert_prepared_reuse, insert_prepared_grow, insert_prepared-IsValid,
}
use virtio_accel.ObjectTable.Insert.{try_reserve_insert-HasRoom}
use virtio_accel.ObjectTable.Laws.{
  put_lem, remove_lem, remove-IsValid, put-IsValid, vacated, vacate-slots,
}

module _ {T : Type 0} where
  -- The generation has passed: a later one, or this one on a retired slot.
  abbrev Passed : Slot T → ℕ → Type 0
  Passed s g = (g < s.generation) ⊎ ((s.generation ≡ g) × (s.retired ≡ true))

  -- No lookup of the ID can succeed again.
  pub record Dead (t : ObjectTable T) (id : ℕ) : Type 0 where
    pub index : ℕ
    pub slot : Slot T
    pub numbered : slot_number id ≡ index + 1
    pub found : get_elem? t.slots index ≡ some slot
    pub passed : Passed slot (generation_field id)

  -- One slot changes and keeps what has passed.
  Dead-set :
      (t u : ObjectTable T) (id i : ℕ) (s s' : Slot T)
      → get_elem? t.slots i ≡ some s
      → u.slots ≡ set t.slots i s'
      → (Passed s (generation_field id) → Passed s' (generation_field id))
      → Dead t id
      → Dead u id
  Dead-set t u id i s s' found e keeps d = elim (==_cases d.index i) [
    | inr other ↦ record {
      index = d.index;
      slot = d.slot;
      numbered = d.numbered;
      found =
          ap (λ xs. get_elem? xs d.index) e
          ∙ get_elem?-set_ne t.slots i d.index s' (λ q. ground (arith, q))
          ∙ d.found;
      passed = d.passed;
    }
    | inl same ↦ record {
      index = i;
      slot = s';
      numbered = omega (arith, d.numbered, same);
      found = ap (λ xs. get_elem? xs i) e ∙ get_elem?-set_self t.slots i s' found;
      passed = keeps (ground (arith, d.passed, d.found, same, found));
    }
  ]

  vacated-Passed : (s : Slot T) (g : ℕ) → Passed s g → Passed (vacated s) g
  unfolding vacated
  vacated-Passed s g p = ground arith

  -- The removed ID is dead.
  remove-Dead : (t : ObjectTable T) (id : ℕ) (v : T) → get t id ≡ ok v → Dead (remove t id).0 id
  unfolding vacated
  remove-Dead t id v h =
      let l : Located t id v = get-Located t id v h in
      rw (remove_lem t id v l) (record {
        index = l.index;
        slot = vacated l.slot;
        numbered = l.decodes.slot;
        found =
            ap (λ xs. get_elem? xs l.index) (vacate-slots t l.index l.slot).0
            ∙ get_elem?-set_self t.slots l.index (vacated l.slot) l.found;
        passed = ground (arith, l.decodes.age);
      })

  -- A dead ID does not resolve.
  Dead-get : (t : ObjectTable T) (id : ℕ) (v : T) → Dead t id → get t id ≢ ok v
  Dead-get t id v d h =
      let l : Located t id v = get-Located t id v h in
      let same : d.index ≡ l.index = omega (arith, d.numbered, l.decodes.slot) in
      let there : get_elem? t.slots l.index ≡ some d.slot =
        ap (get_elem? t.slots) (sym same) ∙ d.found in
      ground (arith, there, l.found, d.passed, l.decodes.age, l.kept)

  -- Operations on an ID that does not resolve leave the table.
  put_missing :
      (t : ObjectTable T) (id : ℕ) (w : T) (e : ObjectTableError)
      → get t id ≡ err e
      → put t id w ≡ t
  unfolding put get locate check_slot
  put_missing t id w e h = ground arith

  remove_missing :
      (t : ObjectTable T) (id : ℕ) (e : ObjectTableError) → get t id ≡ err e → (remove t id).0 ≡ t
  unfolding remove get locate check_slot
  remove_missing t id e h = ground arith

  put-Dead : (t : ObjectTable T) (j id : ℕ) (w : T) → Dead t id → Dead (put t j w) id
  put-Dead t j id w d = elim (Result-cases (get t j)) [
    | inr (e, bad) ↦ rw (put_missing t j w e bad) d
    | inl (v, h) ↦
        let l : Located t j v = get-Located t j v h in
        rw (put_lem t j v w l) (
          Dead-set t _ id l.index l.slot (record (l.slot) { value = some w }) l.found refl (λ p. p)
            d)
  ]

  remove-keeps-Dead : (t : ObjectTable T) (j id : ℕ) → Dead t id → Dead (remove t j).0 id
  remove-keeps-Dead t j id d = elim (Result-cases (get t j)) [
    | inr (e, bad) ↦ rw (remove_missing t j e bad) d
    | inl (v, h) ↦
        let l : Located t j v = get-Located t j v h in
        rw (remove_lem t j v l) (
          Dead-set t _ id l.index l.slot (vacated l.slot) l.found (vacate-slots t l.index l.slot).0
            (vacated-Passed l.slot (generation_field id)) d)
  ]

  insert_prepared-Dead :
      (t : ObjectTable T) (w : T) (id : ℕ) → IsValid t → Dead t id → Dead (insert_prepared t w).0 id
  insert_prepared-Dead t w id v d = go t.free refl
    where
      go : (free : List ℕ) → t.free ≡ free → Dead (insert_prepared t w).0 id
      go [] e = rw (insert_prepared_grow t w e) (record {
        index = d.index;
        slot = d.slot;
        numbered = d.numbered;
        found =
            get_elem?-push_ne t.slots _ d.index
              (λ q. ground (arith, get_elem?-lt t.slots d.index d.found, q))
            ∙ d.found;
        passed = d.passed;
      })
      go (i ∷ rest) e =
          let f : FreeOk t.slots (i ∷ rest) = rw e at (v.free_ok) in
          let (s, found, empty, kept) = f.0 in
          rw (insert_prepared_reuse t w i rest s e found)
            (Dead-set t _ id i s (record s { value = some w }) found refl (λ p. p) d)

  -- One operation on a table, and any number of them.
  pub data TableStep : ObjectTable T → ObjectTable T → Type 0 where
    inserted : (t : ObjectTable T) (room : Reserve) (w : T) → TableStep t (insert t room w).0
    written : (t : ObjectTable T) (id : ℕ) (w : T) → TableStep t (put t id w)
    removed : (t : ObjectTable T) (id : ℕ) → TableStep t (remove t id).0

  pub data TableRun : ObjectTable T → ObjectTable T → Type 0 where
    stay : (t : ObjectTable T) → TableRun t t
    then_step : (t u w : ObjectTable T) → TableRun t u → TableStep u w → TableRun t w

  insert_rule :
      (S : ObjectTable T → Type 0) (t : ObjectTable T) (room : Reserve) (w : T)
      → S t
      → (HasRoom t → S (insert_prepared t w).0)
      → S (insert t room w).0
  unfolding insert
  insert_rule S t room w kept filled = elim (Result-cases (try_reserve_insert t room)) [
    | inr (e, bad) ↦ rw (bad, insert) kept
    | inl (_, space) ↦ rw (space, insert) (filled (try_reserve_insert-HasRoom t room space))
  ]

  -- Each operation keeps a table well formed, whether it succeeds or fails.
  pub TableStep-IsValid : (t u : ObjectTable T) → TableStep t u → IsValid t → IsValid u
  TableStep-IsValid _ _ (inserted t room w) v =
      insert_rule IsValid t room w v (λ space. insert_prepared-IsValid t w v space)
  TableStep-IsValid _ _ (written t id w) v = elim (Result-cases (get t id)) [
    | inr (e, bad) ↦ rw (put_missing t id w e bad) v
    | inl (x, h) ↦ put-IsValid t id x w v h
  ]
  TableStep-IsValid _ _ (removed t id) v = elim (Result-cases (get t id)) [
    | inr (e, bad) ↦ rw (remove_missing t id e bad) v
    | inl (x, h) ↦ remove-IsValid t id x v h
  ]

  TableStep-Dead :
      (t u : ObjectTable T) (id : ℕ) → TableStep t u → IsValid t → Dead t id → Dead u id
  TableStep-Dead _ _ id (inserted t room w) v d =
      insert_rule (λ t. Dead t id) t room w d (λ space. insert_prepared-Dead t w id v d)
  TableStep-Dead _ _ id (written t j w) v d = put-Dead t j id w d
  TableStep-Dead _ _ id (removed t j) v d = remove-keeps-Dead t j id d

  TableRun-Dead :
      (t u : ObjectTable T) (id : ℕ) → TableRun t u → IsValid t → Dead t id → IsValid u × Dead u id
  TableRun-Dead _ _ id (stay t) v d = (v, d)
  TableRun-Dead _ _ id (then_step t u w run step) v d =
      let (v', d') = TableRun-Dead t u id run v d in
      (TableStep-IsValid u w step v', TableStep-Dead u w id step v' d')

  -- Once an ID of a well-formed table has been removed, it resolves to no value again after any
  -- number of insertions, writes and removals, also when its slot is used again.
  pub removed-stays-stale :
      (t u : ObjectTable T) (id : ℕ) (v w : T)
      → IsValid t
      → get t id ≡ ok v
      → TableRun (remove t id).0 u
      → get u id ≢ ok w
  removed-stays-stale t u id v w valid h run =
      Dead-get u id w
        (TableRun-Dead (remove t id).0 u id run (remove-IsValid t id v valid h)
          (remove-Dead t id v h)).1
