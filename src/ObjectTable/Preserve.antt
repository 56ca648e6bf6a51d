-- ===== src/ObjectTable/Preserve.antt =====
-- Every operation of the table keeps it well formed and changes totals by the value it moves.
use virtio_accel.Prelude.{
  ℕ, ◌+◌, ◌≤◌, ◌<◌, ◌≡◌, refl, sym, ap, ◌∙◌, ◌≢◌, ◌⊎◌, inl, inr, true, false, none, some, List, [],
  ◌∷◌, ◌++◌, arith, length, get_elem?, set, sum_by, All, add_u32, sub_u32, length-set, length-push,
  sum_by-set, sum_by-push, All-set, All-push, All-get_elem?, get_elem?-set_self, get_elem?-set_ne,
  get_elem?-push_ne, get_elem?-lt, ◌==◌, Bool-cases,
}
use virtio_accel.ObjectTable.{generation_mask, Slot, ObjectTable, insert_prepared, vacate, new_id}
use virtio_accel.ObjectTable.Valid.{weight, spare, SlotOk, IsSpare, FreeOk, IsValid}

module _ {T : Type 0} where
  IsSpare-set :
      (slots : List (Slot T)) (i j : ℕ) (s : Slot T)
      → j ≢ i
      → IsSpare slots j
      → IsSpare (set slots i s) j
  IsSpare-set slots i j s ne (x, e, h, r) =
      (x, get_elem?-set_ne slots i j s (λ p. ne (sym p)) ∙ e, h, r)

  FreeOk-set :
      (slots : List (Slot T)) (free : List ℕ) (i : ℕ) (s : Slot T)
      → FreeOk slots free
      → All (λ j. j ≢ i) free
      → FreeOk (set slots i s) free
  FreeOk-set slots [] i s f a = tt
  FreeOk-set slots (j ∷ free) i s (h, d, f) (ne, a) =
      (IsSpare-set slots i j s ne h, d, FreeOk-set slots free i s f a)

  FreeOk-push :
      (slots : List (Slot T)) (free : List ℕ) (s : Slot T)
      → FreeOk slots free
      → FreeOk (slots ++ s ∷ []) free
  FreeOk-push slots [] s f = tt
  FreeOk-push slots (j ∷ free) s (h, d, f) = (
    (h.0, get_elem?-push_ne slots s j (omega (arith, get_elem?-lt slots j h.1)) ∙ h.1, h.2, h.3),
    d,
    FreeOk-push slots free s f,
  )

  -- An occupied slot is not free.
  pub free_misses :
      (slots : List (Slot T)) (free : List ℕ) (i : ℕ) (s : Slot T) (v : T)
      → FreeOk slots free
      → get_elem? slots i ≡ some s
      → s.value ≡ some v
      → All (λ j. j ≢ i) free
  free_misses slots [] i s v f e h = tt
  free_misses slots (j ∷ free) i s v ((x, e', h', r), d, f) e h =
      ((λ p. ground (arith, ap (get_elem? slots) p)), free_misses slots free i s v f e h)

  -- There is room for the live count to grow while some slot is not occupied.
  pub occupied-le-length : (slots : List (Slot T)) → sum_by (weight (λ _. 1)) slots ≤ length slots
  occupied-le-length [] = omega arith
  occupied-le-length (s ∷ slots) = ground (arith, occupied-le-length slots)

  spare-le :
      (slots : List (Slot T))
      → All SlotOk slots
      → sum_by spare slots + sum_by (weight (λ _. 1)) slots ≤ length slots
  spare-le [] a = omega arith
  spare-le (s ∷ slots) a = ground (arith, spare-le slots a.1)

  -- The room that an insertion needs, which `try_reserve_insert` checks.
  abbrev pub HasRoom : ObjectTable T → Type 0
  HasRoom t = (0 < length t.free) ⊎ (length t.slots < t.max_slots)

  pub insert_prepared_reuse :
      (t : ObjectTable T) (value : T) (i : ℕ) (rest : List ℕ) (s : Slot T)
      → t.free ≡ i ∷ rest
      → get_elem? t.slots i ≡ some s
      → insert_prepared t value ≡ (
        record t {
          slots = set t.slots i (record s { value = some value });
          free = rest;
          live = add_u32 t.live 1;
        },
        new_id i t.namespace s.generation t.kind,
      )
  unfolding insert_prepared
  insert_prepared_reuse t value i rest s e found = ground arith

  pub insert_prepared_grow :
      (t : ObjectTable T) (value : T)
      → t.free ≡ []
      → insert_prepared t value ≡ (
        record t {
          slots = t.slots ++ record { generation = 0; value = some value; retired = false } ∷ [];
          live = add_u32 t.live 1;
        },
        new_id (length t.slots) t.namespace 0 t.kind,
      )
  unfolding insert_prepared
  insert_prepared_grow t value e = ground arith

  pub reuse-IsValid :
      (t : ObjectTable T) (value : T) (i : ℕ) (rest : List ℕ) (s : Slot T)
      → IsValid t
      → FreeOk t.slots (i ∷ rest)
      → t.free ≡ i ∷ rest
      → get_elem? t.slots i ≡ some s
      → s.value ≡ none
      → s.retired ≡ false
      → IsValid (record t {
        slots = set t.slots i (record s { value = some value });
        free = rest;
        live = add_u32 t.live 1;
      })
  reuse-IsValid t value i rest s v f e found empty kept =
      let s' : Slot T = record s { value = some value } in
      record {
        bounded = v.bounded;
        capacity = rw (length-set t.slots i s') v.capacity;
        slots_ok =
            All-set SlotOk t.slots i s' v.slots_ok
              (ground (arith, All-get_elem? SlotOk t.slots i s));
        counted = ground (
          arith,
          sum_by-set (weight (λ _. 1)) t.slots i s' s found,
          occupied-le-length (set t.slots i s'),
          length-set t.slots i s',
        );
        free_ok = FreeOk-set t.slots rest i s' f.2 f.1;
        accounted = ground (arith, sum_by-set spare t.slots i s' s found);
      }

  grow-IsValid :
      (t : ObjectTable T) (value : T)
      → IsValid t
      → t.free ≡ []
      → length t.slots < t.max_slots
      → IsValid (record t {
        slots = t.slots ++ record { generation = 0; value = some value; retired = false } ∷ [];
        live = add_u32 t.live 1;
      })
  grow-IsValid t value v e room =
      let s' : Slot T = record { generation = 0; value = some value; retired = false } in
      record {
        bounded = v.bounded;
        capacity = rw (length-push t.slots s') room;
        slots_ok = All-push SlotOk t.slots s' v.slots_ok (ground arith);
        counted =
            ground (arith, sum_by-push (weight (λ _. 1)) t.slots s', occupied-le-length t.slots);
        free_ok = FreeOk-push t.slots t.free s' v.free_ok;
        accounted = ground (arith, sum_by-push spare t.slots s');
      }

  -- An insertion into a well-formed table with room gives a well-formed table.
  pub insert_prepared-IsValid :
      (t : ObjectTable T) (value : T) → IsValid t → HasRoom t → IsValid (insert_prepared t value).0
  insert_prepared-IsValid t value v room = go t.free refl
    where
      go : (free : List ℕ) → t.free ≡ free → IsValid (insert_prepared t value).0
      go [] e = rw (insert_prepared_grow t value e) (grow-IsValid t value v e (ground arith))
      go (i ∷ rest) e =
          let f : FreeOk t.slots (i ∷ rest) = rw e at v.free_ok in
          let (s, found, empty, kept) = f.0 in
          rw (insert_prepared_reuse t value i rest s e found)
            (reuse-IsValid t value i rest s v f e found empty kept)

  -- An occupied slot is emptied: the counts of any successor that keeps it well formed.
  pub emptied :
      (t : ObjectTable T) (i : ℕ) (s s' : Slot T) (value : T)
      → IsValid t
      → get_elem? t.slots i ≡ some s
      → s.value ≡ some value
      → s'.value ≡ none
      → (sub_u32 t.live 1 ≡ sum_by (weight (λ _. 1)) (set t.slots i s'))
        × (sum_by spare (set t.slots i s') ≡ sum_by spare t.slots + spare s')
  emptied t i s s' value v found holds empty = ground (
    arith,
    sum_by-set (weight (λ _. 1)) t.slots i s' s found,
    sum_by-set spare t.slots i s' s found,
    occupied-le-length t.slots,
  )

  pub vacate-IsValid :
      (t : ObjectTable T) (i : ℕ) (s : Slot T) (value : T)
      → IsValid t
      → get_elem? t.slots i ≡ some s
      → s.value ≡ some value
      → s.retired ≡ false
      → IsValid (vacate t i s)
  unfolding vacate
  vacate-IsValid t i s value v found holds kept =
      let grown : s.generation ≤ generation_mask =
        (All-get_elem? SlotOk t.slots i s v.slots_ok found).0 in
      elim (Bool-cases (s.generation == generation_mask)) [
        | inl last ↦
            let s' : Slot T = record s { value = none; retired = true } in
            rw last (record {
              bounded = v.bounded;
              capacity = rw (length-set t.slots i s') v.capacity;
              slots_ok = All-set SlotOk t.slots i s' v.slots_ok (grown, λ _. refl);
              counted = (emptied t i s s' value v found holds refl).0;
              free_ok =
                  FreeOk-set t.slots t.free i s' v.free_ok
                    (free_misses t.slots t.free i s value v.free_ok found holds);
              accounted = ground (arith, emptied t i s s' value v found holds refl);
            })
        | inr more ↦
            let s' : Slot T = record s { value = none; generation = s.generation + 1 } in
            let apart : All (λ j. j ≢ i) t.free =
              free_misses t.slots t.free i s value v.free_ok found holds in
            rw more (record {
              bounded = v.bounded;
              capacity = rw (length-set t.slots i s') v.capacity;
              slots_ok = All-set SlotOk t.slots i s' v.slots_ok (ground arith);
              counted = (emptied t i s s' value v found holds refl).0;
              free_ok = (
                (s', get_elem?-set_self t.slots i s' found, refl, kept),
                apart,
                FreeOk-set t.slots t.free i s' v.free_ok apart,
              );
              accounted = ground (arith, emptied t i s s' value v found holds refl);
            })
      ]

  pub fill-IsValid :
      (t : ObjectTable T) (i : ℕ) (s : Slot T) (old value : T)
      → IsValid t
      → get_elem? t.slots i ≡ some s
      → s.value ≡ some old
      → IsValid (record t { slots = set t.slots i (record s { value = some value }) })
  fill-IsValid t i s old value v found holds =
      let s' : Slot T = record s { value = some value } in
      record {
        bounded = v.bounded;
        capacity = rw (length-set t.slots i s') v.capacity;
        slots_ok =
            All-set SlotOk t.slots i s' v.slots_ok
              (ground (arith, All-get_elem? SlotOk t.slots i s v.slots_ok));
        counted = ground (arith, sum_by-set (weight (λ _. 1)) t.slots i s' s found);
        free_ok =
            FreeOk-set t.slots t.free i s' v.free_ok
              (free_misses t.slots t.free i s old v.free_ok found holds);
        accounted = ground (arith, sum_by-set spare t.slots i s' s found);
      }
