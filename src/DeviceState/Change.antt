-- ===== src/DeviceState/Change.antt =====
-- The loops over the IDs of a submission (`change_all`): where every ID resolves they end, and
-- change each record as often as its ID occurs.
use virtio_accel.Prelude.{
  ℕ, zero, suc, ◌<◌, ◌≡◌, refl, ◌∙◌, true, List, [], ◌∷◌, inl, inr, arith, if◌then◌else◌, ◌==◌, ok,
  map_ok, is_ok, Result-cases,
}
use virtio_accel.ObjectTable.{ObjectTable, get, put}
use virtio_accel.ObjectTable.Valid.{IsValid}
use virtio_accel.ObjectTable.Laws.{get-put, put-IsValid}
use virtio_accel.ObjectTable.View.{Same, Same-refl, Same-put}
use virtio_accel.DeviceState.References.{count, change_all}

module _ {T : Type 0} where
  abbrev pub times : (T → T) → ℕ → T → T
  times f zero x = x
  times f (suc n) x = times f n (f x)

  -- What `change_all` did to a table.
  pub record Changed (f : T → T) (ids : List ℕ) (t u : ObjectTable T) : Type 0 where
    pub lookups : (j : ℕ) → get u j ≡ map_ok (times f (count j ids)) (get t j)
    pub valid : IsValid t → IsValid u

  abbrev pub Resolve : ObjectTable T → List ℕ → Type 0
  Resolve t ids = (j : ℕ) → 0 < count j ids → is_ok (get t j) ≡ true

  -- Where every ID of a list resolves, the loop over it ends without an error; every record has been
  -- changed as often as its ID occurs, and a well-formed table stays so.
  pub change_all-Changed :
      (f : T → T) (t : ObjectTable T) (ids : List ℕ)
      → Resolve t ids
      → ((change_all f t ids).1 ≡ ok tt) × Changed f ids t (change_all f t ids).0
  unfolding change_all count
  change_all-Changed f t [] h = (refl, record { lookups = λ j. ground arith; valid = λ v. v })
  change_all-Changed f t (id ∷ ids) h = elim (Result-cases (get t id)) [
    | inr (e, bad) ↦ absurd (ground (arith, h id))
    | inl (r, found) ↦
        let u : ObjectTable T = put t id (f r) in
        let puts : (j : ℕ) → get u j ≡ (if j == id then ok (f r) else get t j) =
          λ j. get-put t id j r (f r) found in
        let (done, rest) = change_all-Changed f u ids (λ j p. ground (arith, puts j, h j)) in
        rw (found, change_all)
          (
            done,
            record {
              lookups = λ j. rest.lookups j ∙ ground (arith, puts j);
              valid = λ v. rest.valid (put-IsValid t id r (f r) v found);
            },
          )
  ]

  -- Where `f` keeps what `g` sees, so does the loop.
  pub change_all-Same :
      {K : Type 0} (g : T → K) (f : T → T)
      → ((x : T) → g (f x) ≡ g x)
      → (t : ObjectTable T) (ids : List ℕ) → Same g t (change_all f t ids).0
  unfolding change_all
  change_all-Same g f keeps t [] = Same-refl g t
  change_all-Same g f keeps t (id ∷ ids) = elim (Result-cases (get t id)) [
    | inr (e, bad) ↦ rw (bad, change_all) (Same-refl g t)
    | inl (r, found) ↦
        let u : ObjectTable T = put t id (f r) in
        let first : Same g t u = Same-put g t id r (f r) found (keeps r) in
        let rest : Same g u (change_all f u ids).0 = change_all-Same g f keeps u ids in
        rw (found, change_all)
          (record {
            views = λ j. rest.views j ∙ first.views j;
            totals = λ h. rest.totals h ∙ first.totals h;
          })
  ]
