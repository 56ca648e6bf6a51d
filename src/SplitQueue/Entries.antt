-- ===== src/SplitQueue/Entries.antt =====
-- Lists of optional entries: a lookup after a write, and sums over the entries.
use virtio_accel.Prelude.{
  ℕ, zero, suc, ◌+◌, ◌≤◌, ◌<◌, ◌≡◌, ◌≢◌, refl, ap, List, [], ◌∷◌, length, get_elem?, set, sum_by,
  sum_by-set, Option, none, some, arith, replicate,
}
use virtio_accel.SplitQueue.Ring.{at}

module _ {ℓ} {A : Type ℓ} where
  -- 1 for an entry that is there.
  abbrev pub present : Option A → ℕ
  present none = 0
  present (some _) = 1

  abbrev pub absent : Option A → ℕ
  absent none = 1
  absent (some _) = 0

  pub get_elem?-at :
      (xs : List (Option A)) (i : ℕ) → i < length xs → get_elem? xs i ≡ some (at xs i)
  get_elem?-at [] i h = absurd (omega arith)
  get_elem?-at (x ∷ xs) zero h = refl
  get_elem?-at (x ∷ xs) (suc i) h = get_elem?-at xs i (omega arith)

  pub at-lt : (xs : List (Option A)) (i : ℕ) {v : A} → at xs i ≡ some v → i < length xs
  at-lt [] i h = absurd (cc)
  at-lt (x ∷ xs) zero h = omega arith
  at-lt (x ∷ xs) (suc i) h = omega (arith, at-lt xs i h)

  pub at-set_self :
      (xs : List (Option A)) (i : ℕ) (v : Option A) → i < length xs → at (set xs i v) i ≡ v
  at-set_self [] i v h = absurd (omega arith)
  at-set_self (x ∷ xs) zero v h = refl
  at-set_self (x ∷ xs) (suc i) v h = at-set_self xs i v (omega arith)

  pub at-set_ne :
      (xs : List (Option A)) (i j : ℕ) (v : Option A) → j ≢ i → at (set xs i v) j ≡ at xs j
  at-set_ne [] i j v h = refl
  at-set_ne (x ∷ xs) zero zero v h = absurd (h refl)
  at-set_ne (x ∷ xs) zero (suc j) v h = refl
  at-set_ne (x ∷ xs) (suc i) zero v h = refl
  at-set_ne (x ∷ xs) (suc i) (suc j) v h = at-set_ne xs i j v (λ e. h (ap suc e))

  -- A write changes a sum by the difference of the two values.
  pub sum_by-write :
      (f : Option A → ℕ) (xs : List (Option A)) (i : ℕ) (v : Option A)
      → i < length xs
      → sum_by f (set xs i v) + f (at xs i) ≡ sum_by f xs + f v
  sum_by-write f xs i v h = sum_by-set f xs i v (at xs i) (get_elem?-at xs i h)

  pub sum_by-at_most :
      (f g : Option A → ℕ) (xs : List (Option A))
      → ((o : Option A) → f o + g o ≤ 1)
      → sum_by f xs + sum_by g xs ≤ length xs
  sum_by-at_most f g [] h = omega arith
  sum_by-at_most f g (x ∷ xs) h = omega (arith, h x, sum_by-at_most f g xs h)

  -- Two parts of the entries and one entry outside both.
  pub sum_by-parts :
      (f g : Option A → ℕ) (xs : List (Option A)) (i : ℕ)
      → ((o : Option A) → f o + g o ≤ 1)
      → i < length xs
      → f (at xs i) ≡ 0
      → g (at xs i) ≡ 0
      → sum_by f xs + sum_by g xs < length xs
  sum_by-parts f g [] i h lt e d = absurd (omega arith)
  sum_by-parts f g (x ∷ xs) zero h lt e d = omega (arith, sum_by-at_most f g xs h)
  sum_by-parts f g (x ∷ xs) (suc i) h lt e d =
      omega (arith, h x, sum_by-parts f g xs i h (omega arith) e d)

  -- The first entry of a sum that is above zero.
  pub sum_by-pos :
      (f : Option A → ℕ) (xs : List (Option A)) (i : ℕ) → i < length xs → f (at xs i) ≤ sum_by f xs
  sum_by-pos f [] i h = absurd (omega arith)
  sum_by-pos f (x ∷ xs) zero h = omega arith
  sum_by-pos f (x ∷ xs) (suc i) h = omega (arith, sum_by-pos f xs i (omega arith))

  pub at-replicate : (n i : ℕ) → at (replicate {A = Option A} n none) i ≡ none
  at-replicate zero i = refl
  at-replicate (suc n) zero = refl
  at-replicate (suc n) (suc i) = at-replicate n i
