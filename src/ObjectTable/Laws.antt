-- ===== src/ObjectTable/Laws.antt =====
-- The table as a function from IDs: what each operation does to every lookup and every total.
use virtio_accel.Prelude.{
  ℕ, ◌+◌, ◌≡◌, refl, sym, ap, ◌∙◌, ◌≢◌, true, false, Option, none, some, arith, get_elem?, set,
  if◌then◌else◌, sum_by-set, get_elem?-set_self, get_elem?-set_ne, ◌==◌, Result, ok, err,
}
use virtio_accel.ObjectTable.{
  ObjectKind, generation_mask, ObjectTableError, stale_id, Slot, ObjectTable, get, put, remove,
  vacate,
}
use virtio_accel.ObjectTable.Ids.{Decodes, Decodes-new_id}
use virtio_accel.ObjectTable.Lookup.{
  peek, get-peek, Located, get-Located, locate_of_Located, get-elsewhere,
}
use virtio_accel.ObjectTable.Valid.{weight, total, IsValid}
use virtio_accel.ObjectTable.Preserve.{vacate-IsValid, fill-IsValid}

-- Two IDs that name the same slot at the same generation are one.
Decodes-unique :
    (id j i namespace g h : ℕ) (k : ObjectKind)
    → Decodes id i namespace g k
    → Decodes j i namespace h k
    → (j == id) ≡ false
    → (h == g) ≡ false
Decodes-unique id j i namespace g h k d d' ne =
    ground (arith, Decodes-new_id id i namespace g k d, Decodes-new_id j i namespace h k d')

module _ {T : Type 0} where
  pub put_lem :
      (t : ObjectTable T) (id : ℕ) (v w : T) (l : Located t id v)
      → put t id w ≡ record t { slots = set t.slots l.index (record (l.slot) { value = some w }) }
  unfolding put
  put_lem t id v w l = ground (arith, locate_of_Located t id v l)

  pub remove_lem :
      (t : ObjectTable T) (id : ℕ) (v : T) (l : Located t id v)
      → remove t id ≡ (vacate t l.index l.slot, ok v)
  unfolding remove
  remove_lem t id v l = ground (arith, locate_of_Located t id v l)

  -- A change to one slot that only the generation of `id` can see changes no other lookup.
  slot_write :
      (t u : ObjectTable T) (i id j g : ℕ)
      → u.kind ≡ t.kind
      → u.namespace ≡ t.namespace
      → Decodes id i t.namespace g t.kind
      → ((n : ℕ) → n ≢ i → get_elem? u.slots n ≡ get_elem? t.slots n)
      → ((h : ℕ) → (h == g) ≡ false → peek (get_elem? u.slots i) h ≡ peek (get_elem? t.slots i) h)
      → (j == id) ≡ false
      → get u j ≡ get t j
  slot_write t u i id j g k n d rest same ne =
      get-elsewhere t u i j k n rest
        (λ h d'. same h (Decodes-unique id j i t.namespace g h t.kind d d' ne))

  -- A lookup that fails at every generation but one, or at all.
  pub peek_other :
      (o : Option (Slot T)) (s : Slot T) (h : ℕ)
      → o ≡ some s
      → (h == s.generation) ≡ false
      → peek o h ≡ err stale_id
  peek_other o s h e ne = ground arith

  pub peek_empty :
      (o : Option (Slot T)) (s : Slot T) (h : ℕ)
      → o ≡ some s
      → s.value ≡ none
      → peek o h ≡ err stale_id
  peek_empty o s h e empty = ground arith

  pub peek_hit :
      (s : Slot T) (v : T)
      → s.value ≡ some v
      → s.retired ≡ false
      → peek (some s) s.generation ≡ ok v
  peek_hit s v h r = ground arith

  -- What a write to the slot of `id` does to every lookup.
  pub write_law :
      (t u : ObjectTable T) (i id g : ℕ) (r : Result ObjectTableError T)
      → u.kind ≡ t.kind
      → u.namespace ≡ t.namespace
      → Decodes id i t.namespace g t.kind
      → ((n : ℕ) → n ≢ i → get_elem? u.slots n ≡ get_elem? t.slots n)
      → ((h : ℕ) → (h == g) ≡ false → peek (get_elem? u.slots i) h ≡ peek (get_elem? t.slots i) h)
      → peek (get_elem? u.slots i) g ≡ r
      → (j : ℕ) → get u j ≡ (if j == id then r else get t j)
  write_law t u i id g r k n d rest same hit j =
      let there : (j == id) ≡ false → get u j ≡ get t j = slot_write t u i id j g k n d rest same in
      let here : get u id ≡ r = get-peek u id i g (rw (k, n) d) ∙ hit in ground arith

  -- After a write under an ID that resolves, that ID resolves to the written value and every other ID
  -- resolves, or fails, as before.
  pub get-put :
      (t : ObjectTable T) (id j : ℕ) (v w : T)
      → get t id ≡ ok v
      → get (put t id w) j ≡ (if j == id then ok w else get t j)
  get-put t id j v w h = go (get-Located t id v h)
    where
      go : Located t id v → get (put t id w) j ≡ (if j == id then ok w else get t j)
      go l =
          let s' : Slot T = record (l.slot) { value = some w } in
          let u : ObjectTable T = record t { slots = set t.slots l.index s' } in
          let found : get_elem? u.slots l.index ≡ some s' =
            get_elem?-set_self t.slots l.index s' l.found in
          rw (put_lem t id v w l) (
            write_law t u l.index id l.slot.generation (ok w) refl refl l.decodes
              (λ n ne. get_elem?-set_ne t.slots l.index n s' (λ e. ne (sym e)))
              (λ g ne. peek_other _ s' g found ne ∙ sym (peek_other _ l.slot g l.found ne))
              (ap (λ o. peek o l.slot.generation) found ∙ peek_hit s' w refl l.kept) j)

  -- The slot that `vacate` leaves.
  unfoldable pub vacated : Slot T → Slot T
  vacated s =
      if s.generation == generation_mask
      then record s { value = none; retired = true }
      else record s { value = none; generation = s.generation + 1 }

  pub vacate-slots :
      (t : ObjectTable T) (i : ℕ) (s : Slot T)
      → ((vacate t i s).slots ≡ set t.slots i (vacated s))
        × ((vacate t i s).kind ≡ t.kind)
        × ((vacate t i s).namespace ≡ t.namespace)
        × ((vacate t i s).max_slots ≡ t.max_slots)
  unfolding vacate vacated
  vacate-slots t i s = ground arith

  pub vacated-value : (s : Slot T) → (vacated s).value ≡ none
  unfolding vacated
  vacated-value s = ground arith

  -- After the removal of an ID that resolves, that ID fails as stale and every other ID resolves, or
  -- fails, as before.
  pub get-remove :
      (t : ObjectTable T) (id j : ℕ) (v : T)
      → get t id ≡ ok v
      → get (remove t id).0 j ≡ (if j == id then err stale_id else get t j)
  get-remove t id j v h = go (get-Located t id v h)
    where
      go : Located t id v → get (remove t id).0 j ≡ (if j == id then err stale_id else get t j)
      go l =
          let s' : Slot T = vacated l.slot in
          let u : ObjectTable T = vacate t l.index l.slot in
          let (e, k, n, _) = vacate-slots t l.index l.slot in
          let found : get_elem? u.slots l.index ≡ some s' =
            ap (λ xs. get_elem? xs l.index) e ∙ get_elem?-set_self t.slots l.index s' l.found in
          rw (remove_lem t id v l) (
            write_law t u l.index id l.slot.generation (err stale_id) k n l.decodes
              (λ m ne.
                ap (λ xs. get_elem? xs m) e
                ∙ get_elem?-set_ne t.slots l.index m s' (λ q. ne (sym q)))
              (λ g ne.
                peek_empty _ s' g found (vacated-value l.slot)
                ∙ sym (peek_other _ l.slot g l.found ne))
              (peek_empty _ s' l.slot.generation found (vacated-value l.slot)) j)

  -- The removal of an ID that resolves returns the value under it.
  pub remove-ok : (t : ObjectTable T) (id : ℕ) (v : T) → get t id ≡ ok v → (remove t id).1 ≡ ok v
  remove-ok t id v h = ap (λ r. r.1) (remove_lem t id v (get-Located t id v h))

  -- The removal of an ID that resolves keeps a table well formed.
  pub remove-IsValid :
      (t : ObjectTable T) (id : ℕ) (v : T) → IsValid t → get t id ≡ ok v → IsValid (remove t id).0
  remove-IsValid t id v valid h = go (get-Located t id v h)
    where
      go : Located t id v → IsValid (remove t id).0
      go l =
          rw (remove_lem t id v l) (vacate-IsValid t l.index l.slot v valid l.found l.holds l.kept)

  -- A write under an ID that resolves keeps a table well formed.
  pub put-IsValid :
      (t : ObjectTable T) (id : ℕ) (v w : T) → IsValid t → get t id ≡ ok v → IsValid (put t id w)
  put-IsValid t id v w valid h = go (get-Located t id v h)
    where
      go : Located t id v → IsValid (put t id w)
      go l = rw (put_lem t id v w l) (fill-IsValid t l.index l.slot v w valid l.found l.holds)

  -- The totals.
  pub total-put :
      (f : T → ℕ) (t : ObjectTable T) (id : ℕ) (v w : T)
      → get t id ≡ ok v
      → total f (put t id w) + f v ≡ total f t + f w
  unfolding total
  total-put f t id v w h = go (get-Located t id v h)
    where
      go : Located t id v → total f (put t id w) + f v ≡ total f t + f w
      go l =
          let s' : Slot T = record (l.slot) { value = some w } in
          rw (put_lem t id v w l)
            (ground (arith, sum_by-set (weight f) t.slots l.index s' l.slot l.found, l.holds))

  pub total-remove :
      (f : T → ℕ) (t : ObjectTable T) (id : ℕ) (v : T)
      → get t id ≡ ok v
      → total f (remove t id).0 + f v ≡ total f t
  unfolding total
  total-remove f t id v h = go (get-Located t id v h)
    where
      go : Located t id v → total f (remove t id).0 + f v ≡ total f t
      go l =
          rw (remove_lem t id v l, (vacate-slots t l.index l.slot).0)
            (ground (
              arith,
              sum_by-set (weight f) t.slots l.index (vacated l.slot) l.slot l.found,
              l.holds,
              vacated-value l.slot,
            ))
