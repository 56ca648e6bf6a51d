-- ===== src/Prelude/Lists.antt =====
-- Lists measured and indexed by native numbers, and sums over them.
use Prim.Native.Nat.{ℕ, zero, suc, ◌+◌, ◌*◌, ◌≤◌, ◌<◌}
use mathlib.Core.Path.{◌≡◌, refl, ap, subst}
use mathlib.Core.Logic.{◌≢◌}
use mathlib.Core.List.{List, [], ◌∷◌, ◌++◌}
use mathlib.Core.Option.{Option, none, some}
use native.Mathlib.Omega.{arith}

module _ {ℓ} {A : Type ℓ} where
  abbrev pub length : List A → ℕ
  length [] = 0
  length (x ∷ xs) = suc (length xs)

  abbrev pub get_elem? : List A → ℕ → Option A
  get_elem? [] i = none
  get_elem? (x ∷ xs) zero = some x
  get_elem? (x ∷ xs) (suc i) = get_elem? xs i

  -- A write out of bounds changes nothing.
  abbrev pub set : List A → ℕ → A → List A
  set [] i v = []
  set (x ∷ xs) zero v = v ∷ xs
  set (x ∷ xs) (suc i) v = x ∷ set xs i v

  abbrev pub take : ℕ → List A → List A
  take zero xs = []
  take (suc n) [] = []
  take (suc n) (x ∷ xs) = x ∷ take n xs

  abbrev pub drop : ℕ → List A → List A
  drop zero xs = xs
  drop (suc n) [] = []
  drop (suc n) (x ∷ xs) = drop n xs

  abbrev pub replicate : ℕ → A → List A
  replicate zero x = []
  replicate (suc n) x = x ∷ replicate n x

  -- The sum of `f` over the list.
  abbrev pub sum_by : (A → ℕ) → List A → ℕ
  sum_by f [] = 0
  sum_by f (x ∷ xs) = f x + sum_by f xs

  abbrev pub All {κ} : (A → Type κ) → List A → Type κ
  All P [] = Unit
  All P (x ∷ xs) = P x × All P xs

module _ {ℓ} {A : Type ℓ} where
  pub length-set : (xs : List A) (i : ℕ) (v : A) → length (set xs i v) ≡ length xs
  length-set [] i v = refl
  length-set (x ∷ xs) zero v = refl
  length-set (x ∷ xs) (suc i) v = ap suc (length-set xs i v)

  pub get_elem?-set_self :
      (xs : List A) (i : ℕ) (v : A) {w : A}
      → get_elem? xs i ≡ some w
      → get_elem? (set xs i v) i ≡ some v
  get_elem?-set_self [] i v h = cc
  get_elem?-set_self (x ∷ xs) zero v h = refl
  get_elem?-set_self (x ∷ xs) (suc i) v h = get_elem?-set_self xs i v h

  pub get_elem?-set_at :
      (xs : List A) (i : ℕ) (v : A) → i < length xs → get_elem? (set xs i v) i ≡ some v
  get_elem?-set_at [] i v h = absurd (omega arith)
  get_elem?-set_at (x ∷ xs) zero v h = refl
  get_elem?-set_at (x ∷ xs) (suc i) v h = get_elem?-set_at xs i v (omega arith)

  pub get_elem?-set_ne :
      (xs : List A) (i j : ℕ) (v : A) → i ≢ j → get_elem? (set xs i v) j ≡ get_elem? xs j
  get_elem?-set_ne [] i j v h = refl
  get_elem?-set_ne (x ∷ xs) zero zero v h = absurd (h refl)
  get_elem?-set_ne (x ∷ xs) zero (suc j) v h = refl
  get_elem?-set_ne (x ∷ xs) (suc i) zero v h = refl
  get_elem?-set_ne (x ∷ xs) (suc i) (suc j) v h = get_elem?-set_ne xs i j v (λ e. h (ap suc e))

  pub get_elem?-lt : (xs : List A) (i : ℕ) {w : A} → get_elem? xs i ≡ some w → i < length xs
  get_elem?-lt [] i h = absurd (cc)
  get_elem?-lt (x ∷ xs) zero h = omega arith
  get_elem?-lt (x ∷ xs) (suc i) h = omega (arith, get_elem?-lt xs i h)

  pub get_elem?-push_last : (xs : List A) (v : A) → get_elem? (xs ++ v ∷ []) (length xs) ≡ some v
  get_elem?-push_last [] v = refl
  get_elem?-push_last (x ∷ xs) v = get_elem?-push_last xs v

  pub get_elem?-push_ne :
      (xs : List A) (v : A) (j : ℕ) → j ≢ length xs → get_elem? (xs ++ v ∷ []) j ≡ get_elem? xs j
  get_elem?-push_ne [] v zero h = absurd (h refl)
  get_elem?-push_ne [] v (suc j) h = refl
  get_elem?-push_ne (x ∷ xs) v zero h = refl
  get_elem?-push_ne (x ∷ xs) v (suc j) h = get_elem?-push_ne xs v j (λ e. h (ap suc e))

  pub get_elem?-past : (xs : List A) (j : ℕ) → length xs ≤ j → get_elem? xs j ≡ none
  get_elem?-past [] j h = refl
  get_elem?-past (x ∷ xs) zero h = absurd (omega arith)
  get_elem?-past (x ∷ xs) (suc j) h = get_elem?-past xs j (omega arith)

  pub length-push : (xs : List A) (v : A) → length (xs ++ v ∷ []) ≡ suc (length xs)
  length-push [] v = refl
  length-push (x ∷ xs) v = ap suc (length-push xs v)

  -- A write changes a sum by the difference of the two values.
  pub sum_by-set :
      (f : A → ℕ) (xs : List A) (i : ℕ) (v w : A)
      → get_elem? xs i ≡ some w
      → sum_by f (set xs i v) + f w ≡ sum_by f xs + f v
  sum_by-set f [] i v w h = absurd (cc)
  sum_by-set f (x ∷ xs) zero v w h = ground arith
  sum_by-set f (x ∷ xs) (suc i) v w h = omega (arith, sum_by-set f xs i v w h)

  pub sum_by-push : (f : A → ℕ) (xs : List A) (v : A) → sum_by f (xs ++ v ∷ []) ≡ sum_by f xs + f v
  sum_by-push f [] v = omega arith
  sum_by-push f (x ∷ xs) v = omega (arith, sum_by-push f xs v)

  pub sum_by-ge :
      (f : A → ℕ) (xs : List A) (i : ℕ) (w : A) → get_elem? xs i ≡ some w → f w ≤ sum_by f xs
  sum_by-ge f [] i w h = absurd (cc)
  sum_by-ge f (x ∷ xs) zero w h = ground arith
  sum_by-ge f (x ∷ xs) (suc i) w h = omega (arith, sum_by-ge f xs i w h)

  pub sum_by-zero :
      (f : A → ℕ) (xs : List A)
      → ((i : ℕ) (w : A) → get_elem? xs i ≡ some w → f w ≡ 0)
      → sum_by f xs ≡ 0
  sum_by-zero f [] h = refl
  sum_by-zero f (x ∷ xs) h = omega (arith, h 0 x refl, sum_by-zero f xs (λ i w e. h (suc i) w e))

  -- A sum grows by at most `m` for each entry above what `g` counts.
  pub sum_by-le_mul :
      (f g : A → ℕ) (m : ℕ) (xs : List A)
      → ((a : A) → f a ≤ m + g a)
      → sum_by f xs ≤ length xs * m + sum_by g xs
  sum_by-le_mul f g m [] h = omega arith
  sum_by-le_mul f g m (x ∷ xs) h = grind (arith, h x, sum_by-le_mul f g m xs h)

module _ {ℓ κ} {A : Type ℓ} (P : A → Type κ) where
  -- A property of all entries, at one of them, after a write, and after a push.
  pub All-get_elem? : (xs : List A) (i : ℕ) (v : A) → All P xs → get_elem? xs i ≡ some v → P v
  All-get_elem? [] i v a e = absurd (cc)
  All-get_elem? (x ∷ xs) zero v a e = subst P (cc) a.0
  All-get_elem? (x ∷ xs) (suc i) v a e = All-get_elem? xs i v a.1 e

  pub All-set : (xs : List A) (i : ℕ) (v : A) → All P xs → P v → All P (set xs i v)
  All-set [] i v a h = a
  All-set (x ∷ xs) zero v a h = (h, a.1)
  All-set (x ∷ xs) (suc i) v a h = (a.0, All-set xs i v a.1 h)

  pub All-push : (xs : List A) (v : A) → All P xs → P v → All P (xs ++ v ∷ [])
  All-push [] v a h = (h, tt)
  All-push (x ∷ xs) v a h = (a.0, All-push xs v a.1 h)
