-- ===== src/ObjectTable/View.antt =====
-- A table seen through a function of its values: the lookups and the totals that the function
-- determines, and what each operation does to them.
use virtio_accel.Prelude.{
  ℕ, ◌+◌, ◌*◌, ◌≤◌, ◌≡◌, refl, ap, inl, inr, Option, none, some, arith, if◌then◌else◌, ◌==◌, ok,
  err, All-get_elem?, sum_by-ge, sum_by-zero, sum_by-le_mul, get_elem?-lt, Option-cases,
}
use virtio_accel.ObjectTable.{Slot, ObjectTable, get, put, remove, new_id}
use virtio_accel.ObjectTable.Ids.{new_id-Decodes}
use virtio_accel.ObjectTable.Lookup.{Located, get-Located, Located-get}
use virtio_accel.ObjectTable.Valid.{weight, total, SlotOk, IsValid}
use virtio_accel.ObjectTable.Laws.{get-put, get-remove, total-put}
use virtio_accel.ObjectTable.Insert.{Inserted}

module _ {T : Type 0} where
  -- What `g` sees under an ID.
  unfoldable pub view : {K : Type 0} → (T → K) → ObjectTable T → ℕ → Option K
  view g t id = elim (get t id) [ ok v ↦ some (g v) | err _ ↦ none ]

  pub view-ok :
      {K : Type 0} (g : T → K) (t : ObjectTable T) (id : ℕ) (v : T)
      → get t id ≡ ok v
      → view g t id ≡ some (g v)
  unfolding view
  view-ok g t id v h = ground arith

  pub view-some :
      {K : Type 0} (g : T → K) (t : ObjectTable T) (id : ℕ) (k : K)
      → view g t id ≡ some k
      → (v : T) × (get t id ≡ ok v) × (g v ≡ k)
  unfolding view
  view-some g t id k h = ground arith

  pub view-put :
      {K : Type 0} (g : T → K) (t : ObjectTable T) (id j : ℕ) (v w : T)
      → get t id ≡ ok v
      → view g (put t id w) j ≡ (if j == id then some (g w) else view g t j)
  unfolding view
  view-put g t id j v w h = ground (arith, get-put t id j v w h)

  pub view-remove :
      {K : Type 0} (g : T → K) (t : ObjectTable T) (id j : ℕ) (v : T)
      → get t id ≡ ok v
      → view g (remove t id).0 j ≡ (if j == id then none else view g t j)
  unfolding view
  view-remove g t id j v h = ground (arith, get-remove t id j v h)

  pub view-insert :
      {K : Type 0} (g : T → K) (t u : ObjectTable T) (id j : ℕ) (v : T)
      → Inserted t u id v
      → view g u j ≡ (if j == id then some (g v) else view g t j)
  unfolding view
  view-insert g t u id j v i = ground (arith, i.lookups j)

  pub view_fresh :
      {K : Type 0} (g : T → K) (t u : ObjectTable T) (id : ℕ) (v : T)
      → Inserted t u id v
      → view g t id ≡ none
  unfolding view
  view_fresh g t u id v i = ground (arith, i.fresh)

  -- Both tables look the same through `g`.
  pub record Same {K : Type 0} (g : T → K) (t u : ObjectTable T) : Type 0 where
    pub views : (j : ℕ) → view g u j ≡ view g t j
    pub totals : (f : K → ℕ) → total (λ x. f (g x)) u ≡ total (λ x. f (g x)) t

  pub Same-refl : {K : Type 0} (g : T → K) (t : ObjectTable T) → Same g t t
  Same-refl g t = record { views = λ _. refl; totals = λ _. refl }

  pub Same-put :
      {K : Type 0} (g : T → K) (t : ObjectTable T) (id : ℕ) (v w : T)
      → get t id ≡ ok v
      → g w ≡ g v
      → Same g t (put t id w)
  Same-put g t id v w h e = record {
    views = λ j. ground (arith, view-put g t id j v w h, view-ok g t id v h);
    totals = λ f. omega (arith, total-put (λ x. f (g x)) t id v w h, ap f e);
  }

  -- A value is part of every total, and a total with no part is 0.
  pub total-ge :
      (f : T → ℕ) (t : ObjectTable T) (id : ℕ) (v : T) → get t id ≡ ok v → f v ≤ total f t
  unfolding total
  total-ge f t id v h = go (get-Located t id v h)
    where
      go : Located t id v → f v ≤ total f t
      go l = ground (arith, sum_by-ge (weight f) t.slots l.index l.slot l.found, l.holds)

  pub total-zero :
      (f : T → ℕ) (t : ObjectTable T)
      → IsValid t
      → ((id : ℕ) (v : T) → get t id ≡ ok v → f v ≡ 0)
      → total f t ≡ 0
  unfolding total
  total-zero f t v h = sum_by-zero (weight f) t.slots λ i s e. elim (Option-cases s.value) [
    | inl empty ↦ ground arith
    | inr (x, holds) ↦
        let ok_slot : SlotOk s = All-get_elem? SlotOk t.slots i s (v.slots_ok) e in
        let id : ℕ = new_id i t.namespace s.generation t.kind in
        let there : get t id ≡ ok x = Located-get t id x (record {
          index = i;
          slot = s;
          found = e;
          decodes =
              new_id-Decodes i t.namespace s.generation t.kind
                (omega (arith, get_elem?-lt t.slots i e, v.capacity, v.bounded))
                (omega (arith, ok_slot.0));
          holds = holds;
          kept = ground arith;
        }) in
        ground (arith, h id x there)
  ]

  weight-le :
      (f g : T → ℕ) (m : ℕ) → ((x : T) → f x ≤ m + g x) → (s : Slot T) → weight f s ≤ m + weight g s
  weight-le f g m h s = elim (Option-cases s.value) [
    | inl empty ↦ ground arith
    | inr (x, holds) ↦ ground (arith, h x)
  ]

  -- A total of values that exceed `m` by nothing is bounded by the capacity.
  pub total-le :
      (f g : T → ℕ) (m : ℕ) (t : ObjectTable T)
      → IsValid t
      → ((x : T) → f x ≤ m + g x)
      → total g t ≡ 0
      → total f t ≤ t.max_slots * m
  unfolding total
  total-le f g m t v h z =
      grind (arith, sum_by-le_mul (weight f) (weight g) m t.slots (weight-le f g m h), v.capacity)
