-- ===== src/Prelude/Slices.antt =====
-- Slices of lists: `take`, `drop` and `++` on native numbers.
use Prim.Native.Nat.{ℕ, zero, suc, ◌+◌, ◌-◌, ◌≤◌}
use mathlib.Core.Path.{◌≡◌, refl, ap, sym, ◌∙◌}
use mathlib.Core.List.{List, [], ◌∷◌, ◌++◌}
use native.Mathlib.Omega.{arith}
use virtio_accel.Prelude.Lists.{length, take, drop, get_elem?}
use mathlib.Core.Option.{some}

module _ {ℓ} {A : Type ℓ} where
  pub length-append : (xs ys : List A) → length (xs ++ ys) ≡ length xs + length ys
  length-append [] ys = omega arith
  length-append (x ∷ xs) ys = omega (arith, length-append xs ys)

  pub length-take : (n : ℕ) (xs : List A) → n ≤ length xs → length (take n xs) ≡ n
  length-take zero xs h = refl
  length-take (suc n) [] h = absurd (omega arith)
  length-take (suc n) (x ∷ xs) h = ap suc (length-take n xs (omega arith))

  pub length-drop : (n : ℕ) (xs : List A) → length (drop n xs) ≡ length xs - n
  length-drop zero xs = omega arith
  length-drop (suc n) [] = omega arith
  length-drop (suc n) (x ∷ xs) = omega (arith, length-drop n xs)

  pub take-append : (n : ℕ) (xs ys : List A) → n ≡ length xs → take n (xs ++ ys) ≡ xs
  take-append zero [] ys e = refl
  take-append zero (x ∷ xs) ys e = absurd (omega arith)
  take-append (suc n) [] ys e = absurd (omega arith)
  take-append (suc n) (x ∷ xs) ys e = ap (λ r. x ∷ r) (take-append n xs ys (omega arith))

  pub drop-append : (n : ℕ) (xs ys : List A) → n ≡ length xs → drop n (xs ++ ys) ≡ ys
  drop-append zero [] ys e = refl
  drop-append zero (x ∷ xs) ys e = absurd (omega arith)
  drop-append (suc n) [] ys e = absurd (omega arith)
  drop-append (suc n) (x ∷ xs) ys e = drop-append n xs ys (omega arith)

  -- Past the first list.
  pub drop-append_past : (n : ℕ) (xs ys : List A) → drop (length xs + n) (xs ++ ys) ≡ drop n ys
  drop-append_past n [] ys = ap (λ k. drop k ys) (omega arith)
  drop-append_past n (x ∷ xs) ys =
      drop_suc x (length xs + n) (suc (length xs) + n) (xs ++ ys) (omega arith)
      ∙ drop-append_past n xs ys
    where
      drop_suc : (x : A) (k m : ℕ) (zs : List A) → m ≡ suc k → drop m (x ∷ zs) ≡ drop k zs
      drop_suc x k m zs e = ap (λ t. drop t (x ∷ zs)) e

  -- Within the first list.
  pub slice-append_within :
      (start n : ℕ) (xs ys : List A)
      → start + n ≤ length xs
      → take n (drop start (xs ++ ys)) ≡ take n (drop start xs)
  slice-append_within zero zero xs ys h = refl
  slice-append_within zero (suc n) [] ys h = absurd (omega arith)
  slice-append_within zero (suc n) (x ∷ xs) ys h =
      ap (λ r. x ∷ r) (slice-append_within zero n xs ys (omega arith))
  slice-append_within (suc s) n [] ys h = absurd (omega arith)
  slice-append_within (suc s) n (x ∷ xs) ys h = slice-append_within s n xs ys (omega arith)

  pub slice-take :
      (start n m : ℕ) (xs : List A)
      → start + n ≤ m
      → take n (drop start (take m xs)) ≡ take n (drop start xs)
  slice-take zero zero m xs h = refl
  slice-take zero (suc n) zero xs h = absurd (omega arith)
  slice-take zero (suc n) (suc m) [] h = refl
  slice-take zero (suc n) (suc m) (x ∷ xs) h =
      ap (λ r. x ∷ r) (slice-take zero n m xs (omega arith))
  slice-take (suc s) n zero xs h = absurd (omega arith)
  slice-take (suc s) n (suc m) [] h = refl
  slice-take (suc s) n (suc m) (x ∷ xs) h = slice-take s n m xs (omega arith)

  drop_nil : (k : ℕ) → [] ≡ drop {A = A} k []
  drop_nil zero = refl
  drop_nil (suc k) = refl

  pub drop-drop : (n m : ℕ) (xs : List A) → drop n (drop m xs) ≡ drop (m + n) xs
  drop-drop n zero xs = ap (λ k. drop k xs) (omega arith)
  drop-drop zero (suc m) [] = drop_nil (suc m + 0)
  drop-drop (suc n) (suc m) [] = drop_nil (suc m + suc n)
  drop-drop n (suc m) (x ∷ xs) = drop-drop n m xs ∙ drop_suc x (m + n) (suc m + n) xs (omega arith)
    where
      drop_suc : (x : A) (k t : ℕ) (zs : List A) → t ≡ suc k → drop k zs ≡ drop t (x ∷ zs)
      drop_suc x k t zs e = ap (λ r. drop r (x ∷ zs)) (let s : suc k ≡ t = omega arith in s)

  -- A slice that goes on in the second list, and one that starts in the first.
  pub take-append_past :
      (n : ℕ) (xs ys : List A) → take (length xs + n) (xs ++ ys) ≡ xs ++ take n ys
  take-append_past n [] ys = ap (λ k. take k ys) (omega arith)
  take-append_past n (x ∷ xs) ys =
      ground
        (arith, take-append_past n xs ys, ap (λ k. take k (x ∷ (xs ++ ys))) (add-suc n (length xs)))
    where
      add-suc : (n m : ℕ) → suc m + n ≡ suc (m + n)
      add-suc n m = omega arith

  pub drop-append_within :
      (n : ℕ) (xs ys : List A) → n ≤ length xs → drop n (xs ++ ys) ≡ drop n xs ++ ys
  drop-append_within zero xs ys h = refl
  drop-append_within (suc n) [] ys h = absurd (omega arith)
  drop-append_within (suc n) (x ∷ xs) ys h = drop-append_within n xs ys (omega arith)

  pub drop-cons :
      (n : ℕ) (xs : List A) {x : A} {ys : List A}
      → drop n xs ≡ x ∷ ys
      → (get_elem? xs n ≡ some x) × (drop (suc n) xs ≡ ys)
  drop-cons zero [] e = absurd (cc)
  drop-cons zero (z ∷ xs) e = (cc e, cc e)
  drop-cons (suc n) [] e = absurd (cc)
  drop-cons (suc n) (z ∷ xs) e = drop-cons n xs e

  pub take_all : (n : ℕ) (xs : List A) → length xs ≤ n → take n xs ≡ xs
  take_all zero [] h = refl
  take_all zero (x ∷ xs) h = absurd (omega arith)
  take_all (suc n) [] h = refl
  take_all (suc n) (x ∷ xs) h = ap (λ r. x ∷ r) (take_all n xs (omega arith))

  -- A slice that starts in the first list and ends `m` items into the second.
  pub slice-append_across :
      (start n m : ℕ) (xs ys : List A)
      → start + n ≡ length xs
      → take (n + m) (drop start (xs ++ ys)) ≡ take n (drop start xs) ++ take m ys
  slice-append_across start n m xs ys h =
      ap (take (n + m)) (drop-append_within start xs ys (omega arith))
      ∙ ap (λ k. take (k + m) (drop start xs ++ ys)) long
      ∙ take-append_past m (drop start xs) ys
      ∙ ap (λ r. r ++ take m ys) (sym (take_all n (drop start xs) (omega (arith, long))))
    where
      long : n ≡ length (drop start xs)
      long = omega (arith, h, length-drop start xs)
