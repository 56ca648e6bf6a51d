-- ===== src/DeviceState/Counted.antt =====
-- One count of an owner record against the table of what it owns, and what keeps the two in step.
use virtio_accel.Prelude.{
  ℕ, ◌+◌, ◌<◌, ◌≡◌, true, none, some, List, [], ◌∷◌, arith, sum_by, All, if◌then◌else◌, ◌==◌,
  is_some, u32_mod, ok,
}
use virtio_accel.ObjectTable.{ObjectTable, get, put, remove}
use virtio_accel.ObjectTable.Valid.{total, IsValid}
use virtio_accel.ObjectTable.Laws.{total-remove}
use virtio_accel.ObjectTable.Insert.{Inserted}
use virtio_accel.ObjectTable.View.{
  view, view-ok, view-some, view-put, view-remove, view-insert, view_fresh, Same, total-ge,
  total-zero,
}

-- 1 where the two IDs are the same, in sums.
abbrev pub hit : ℕ → ℕ → ℕ
hit a b = if a == b then 1 else 0

module _ {X Y : Type 0} where
  -- `count` of each owner is the number of values that name it, with those of `pending` owners,
  -- whose value has left the table or has not entered it; each value's owner is there.
  pub record Counted (count : X → ℕ) (owners : ObjectTable X) (owner : Y → ℕ) (xs : ObjectTable Y)
      (pending : List ℕ) : Type 0 where
    pub kids :
        (k n : ℕ)
        → view count owners k ≡ some n
        → n ≡ total (λ x. hit (owner x) k) xs + sum_by (λ o. hit o k) pending
    pub owned : (j k : ℕ) → view owner xs j ≡ some k → is_some (view count owners k) ≡ true
    pub awaited : All (λ k. is_some (view count owners k) ≡ true) pending
    pub fits : (k n : ℕ) → view count owners k ≡ some n → n < u32_mod

module _ {X Y : Type 0} (count : X → ℕ) (owner : Y → ℕ) where
  All-owners :
      (t u : ObjectTable X) (pending : List ℕ)
      → ((k : ℕ) → is_some (view count t k) ≡ true → is_some (view count u k) ≡ true)
      → All (λ k. is_some (view count t k) ≡ true) pending
      → All (λ k. is_some (view count u k) ≡ true) pending
  All-owners t u [] h a = tt
  All-owners t u (k ∷ pending) h a = (h k a.0, All-owners t u pending h a.1)

  pub Counted-Same :
      (owners owners' : ObjectTable X) (xs xs' : ObjectTable Y) (pending : List ℕ)
      → Same count owners owners'
      → Same owner xs xs'
      → Counted count owners owner xs pending
      → Counted count owners' owner xs' pending
  Counted-Same owners owners' xs xs' pending a b c = record {
    kids = λ k n h. ground (arith, a.views k, b.totals (λ o. hit o k), c.kids k n);
    owned = λ j k h. ground (arith, a.views k, b.views j, c.owned j k);
    awaited = All-owners owners owners' pending (λ k h. ground (arith, a.views k)) c.awaited;
    fits = λ k n h. ground (arith, a.views k, c.fits k n);
  }

  -- A new value under an owner whose count goes up.
  pub Counted-add :
      (owners : ObjectTable X) (id : ℕ) (c c' : X) (xs xs' : ObjectTable Y) (j : ℕ) (y : Y)
      (pending : List ℕ)
      → get owners id ≡ ok c
      → count c' ≡ count c + 1
      → count c + 1 < u32_mod
      → owner y ≡ id
      → Inserted xs xs' j y
      → Counted count owners owner xs pending
      → Counted count (put owners id c') owner xs' pending
  Counted-add owners id c c' xs xs' j y pending found up small named i h =
      let puts : (k : ℕ)
          → view count (put owners id c') k
            ≡ (if k == id then some (count c') else view count owners k) =
        λ k. view-put count owners id k c c' found in
      let stays : (k : ℕ)
          → is_some (view count owners k) ≡ true
          → is_some (view count (put owners id c') k) ≡ true =
        λ k p. ground (arith, puts k) in
      record {
        kids = λ k n e. ground (
          arith,
          puts k,
          view-ok count owners id c found,
          i.totals (λ x. hit (owner x) k),
          h.kids k n,
          h.kids id (count c),
        );
        owned = λ m k e. ground (arith, puts k, view-insert owner xs xs' j m y i, h.owned m k);
        awaited = All-owners owners (put owners id c') pending stays h.awaited;
        fits = λ k n e. ground (arith, puts k, h.fits k n);
      }

  -- The owner's count goes up for a value that is not in the table yet.
  pub Counted-await :
      (owners : ObjectTable X) (id : ℕ) (c c' : X) (xs : ObjectTable Y) (pending : List ℕ)
      → get owners id ≡ ok c
      → count c' ≡ count c + 1
      → count c + 1 < u32_mod
      → Counted count owners owner xs pending
      → Counted count (put owners id c') owner xs (id ∷ pending)
  Counted-await owners id c c' xs pending found up small h =
      let puts : (k : ℕ)
          → view count (put owners id c') k
            ≡ (if k == id then some (count c') else view count owners k) =
        λ k. view-put count owners id k c c' found in
      let stays : (k : ℕ)
          → is_some (view count owners k) ≡ true
          → is_some (view count (put owners id c') k) ≡ true =
        λ k p. ground (arith, puts k) in
      record {
        kids = λ k n e.
            ground
              (arith, puts k, view-ok count owners id c found, h.kids k n, h.kids id (count c));
        owned = λ m k e. stays k (h.owned m k e);
        awaited =
            (ground (arith, puts id), All-owners owners (put owners id c') pending stays h.awaited);
        fits = λ k n e. ground (arith, puts k, h.fits k n);
      }

  -- The awaited value enters the table, or a value leaves it and is awaited.
  pub Counted-enter :
      (owners : ObjectTable X) (xs xs' : ObjectTable Y) (j : ℕ) (y : Y) (pending : List ℕ)
      → Inserted xs xs' j y
      → Counted count owners owner xs (owner y ∷ pending)
      → Counted count owners owner xs' pending
  Counted-enter owners xs xs' j y pending i h = record {
    kids = λ k n e. ground (arith, i.totals (λ x. hit (owner x) k), h.kids k n);
    owned = λ m k e. ground (arith, view-insert owner xs xs' j m y i, h.owned m k, h.awaited.0);
    awaited = h.awaited.1;
    fits = h.fits;
  }

  pub Counted-leave :
      (owners : ObjectTable X) (xs : ObjectTable Y) (j : ℕ) (y : Y) (pending : List ℕ)
      → get xs j ≡ ok y
      → Counted count owners owner xs pending
      → Counted count owners owner (remove xs j).0 (owner y ∷ pending)
  Counted-leave owners xs j y pending found h = record {
    kids = λ k n e. ground (arith, total-remove (λ x. hit (owner x) k) xs j y found, h.kids k n);
    owned = λ m k e. ground (arith, view-remove owner xs j m y found, h.owned m k);
    awaited = (h.owned j (owner y) (view-ok owner xs j y found), h.awaited);
    fits = h.fits;
  }

  -- An awaited value is given up: its owner's count goes down.
  pub Counted-forget :
      (owners : ObjectTable X) (id : ℕ) (c c' : X) (xs : ObjectTable Y) (pending : List ℕ)
      → get owners id ≡ ok c
      → count c' + 1 ≡ count c
      → Counted count owners owner xs (id ∷ pending)
      → Counted count (put owners id c') owner xs pending
  Counted-forget owners id c c' xs pending found down h =
      let puts : (k : ℕ)
          → view count (put owners id c') k
            ≡ (if k == id then some (count c') else view count owners k) =
        λ k. view-put count owners id k c c' found in
      let stays : (k : ℕ)
          → is_some (view count owners k) ≡ true
          → is_some (view count (put owners id c') k) ≡ true =
        λ k p. ground (arith, puts k) in
      let there : view count owners id ≡ some (count c) = view-ok count owners id c found in
      record {
        kids = λ k n e. ground (arith, puts k, there, h.kids k n, h.kids id (count c));
        owned = λ m k e. stays k (h.owned m k e);
        awaited = All-owners owners (put owners id c') pending stays h.awaited.1;
        fits = λ k n e. ground (arith, puts k, there, h.fits k n, h.fits id (count c));
      }

  -- An awaited value keeps the count of its owner positive.
  pub Counted-pos :
      (owners : ObjectTable X) (id : ℕ) (c : X) (xs : ObjectTable Y) (pending : List ℕ)
      → get owners id ≡ ok c
      → Counted count owners owner xs (id ∷ pending)
      → (0 < count c) × (count c < u32_mod)
  Counted-pos owners id c xs pending found h =
      let there : view count owners id ≡ some (count c) = view-ok count owners id c found in
      (ground (arith, h.kids id (count c) there), h.fits id (count c) there)

  -- A new owner has nothing, and an owner that has nothing may go.
  pub Counted-new_owner :
      (owners owners' : ObjectTable X) (id : ℕ) (c : X) (xs : ObjectTable Y)
      → Inserted owners owners' id c
      → count c ≡ 0
      → IsValid xs
      → Counted count owners owner xs []
      → Counted count owners' owner xs []
  Counted-new_owner owners owners' id c xs i z v h =
      let ins : (k : ℕ)
          → view count owners' k ≡ (if k == id then some (count c) else view count owners k) =
        λ k. view-insert count owners owners' id k c i in
      let no_child : total (λ x. hit (owner x) id) xs ≡ 0 =
        total-zero (λ x. hit (owner x) id) xs v
          λ j y e. ground (
            arith,
            h.owned j (owner y) (view-ok owner xs j y e),
            view_fresh count owners owners' id c i,
          ) in
      record {
        kids = λ k n e. ground (arith, ins k, no_child, h.kids k n);
        owned = λ m k e. ground (arith, ins k, h.owned m k e);
        awaited = tt;
        fits = λ k n e. ground (arith, ins k, h.fits k n);
      }

  pub Counted-drop_owner :
      (owners : ObjectTable X) (id : ℕ) (c : X) (xs : ObjectTable Y)
      → get owners id ≡ ok c
      → count c ≡ 0
      → Counted count owners owner xs []
      → Counted count (remove owners id).0 owner xs []
  Counted-drop_owner owners id c xs found z h =
      let gone : (k : ℕ)
          → view count (remove owners id).0 k ≡ (if k == id then none else view count owners k) =
        λ k. view-remove count owners id k c found in
      let there : view count owners id ≡ some (count c) = view-ok count owners id c found in
      let stay : (m k : ℕ)
          → view owner xs m ≡ some k
          → is_some (view count (remove owners id).0 k) ≡ true =
        λ m k e.
          let (y, f, o) = view-some owner xs m k e in
          ground (
            arith,
            gone k,
            h.owned m k e,
            h.kids id (count c) there,
            total-ge (λ x. hit (owner x) id) xs m y f,
          ) in
      record {
        kids = λ k n e. ground (arith, gone k, h.kids k n);
        owned = stay;
        awaited = tt;
        fits = λ k n e. ground (arith, gone k, h.fits k n);
      }
