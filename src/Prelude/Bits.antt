-- ===== src/Prelude/Bits.antt =====
-- Shifts, and `|` of bit fields that do not overlap, which is their sum.
use Prim.Native.Nat.{
  ℕ, zero, suc, ◌+◌, ◌*◌, ◌/◌, ◌^◌, ◌≤◌, ◌<◌, ◌-◌, ◌%◌, max, min, bit_or, bit_and, digits,
  bit_or-bitwise, bit_and-bitwise,
}
use mathlib.Core.Path.{◌≡◌, refl, ap, sym, subst, ◌∙◌}
use mathlib.Core.Logic.{◌↔◌, ◌⊎◌, inl, inr}
use native.Mathlib.Nat.{pow-suc, one-le-pow, mod_self}
use native.Mathlib.Omega.{arith}

-- `a << k`.
abbrev pub shl : ℕ → ℕ → ℕ
shl a k = a * 2 ^ k

-- `a >> k`.
abbrev pub shr : ℕ → ℕ → ℕ
shr a k = a / 2 ^ k

-- The recursion on digits that `|` stands for, run long enough for its first argument.
abbrev or_digits : ℕ → ℕ → ℕ → ℕ
or_digits = digits (λ b. b) max

or_digits-zero : (n a : ℕ) → a ≤ n → or_digits n a 0 ≡ a
or_digits-zero zero zero h = refl
or_digits-zero (suc n) zero h = refl
or_digits-zero zero (suc a) h = absurd (omega arith)
or_digits-zero (suc n) (suc a) h = omega (arith, or_digits-zero n (suc a / 2) (omega arith))

halve_field : (q k : ℕ) → q * 2 ^ suc k ≡ 2 * (q * 2 ^ k)
halve_field q k = omega (arith, ap (λ (t : ℕ). q * t) (pow-suc 2 k))

or_digits-join : (n k a q r : ℕ) → a ≡ q * 2 ^ k → a ≤ n → r < 2 ^ k → or_digits n a r ≡ a + r
or_digits-join n zero a q r e h fits =
    let z : r ≡ 0 = omega arith in rw z (omega (arith, or_digits-zero n a h))
or_digits-join zero (suc k) zero q r e h fits = omega arith
or_digits-join zero (suc k) (suc a) q r e h fits = absurd (omega arith)
or_digits-join (suc n) (suc k) zero q r e h fits = omega arith
or_digits-join (suc n) (suc k) (suc a) q r e h fits = omega (
  arith,
  halve_field q k,
  pow-suc 2 k,
  or_digits-join n k (suc a / 2) q (r / 2) (omega (arith, halve_field q k)) (omega arith)
      (omega (arith, pow-suc 2 k)),
)

-- `(q << k) | r`, where `r` fits under the shift.
pub bit_or-shl : (q k r : ℕ) → r < 2 ^ k → bit_or (shl q k) r ≡ q * 2 ^ k + r
bit_or-shl q k r fits =
    bit_or-bitwise (shl q k) r ∙ or_digits-join (shl q k) k (shl q k) q r refl (omega arith) fits

-- The recursion on digits that `&` stands for.
abbrev and_digits : ℕ → ℕ → ℕ → ℕ
and_digits = digits (λ b. 0) min

and_digits-zero : (n a : ℕ) → a ≤ n → and_digits n a 0 ≡ 0
and_digits-zero zero zero h = refl
and_digits-zero (suc n) zero h = refl
and_digits-zero zero (suc a) h = absurd (omega arith)
and_digits-zero (suc n) (suc a) h = omega (arith, and_digits-zero n (suc a / 2) (omega arith))

and_digits-mask :
    (n k a q r : ℕ) → a ≡ q * 2 ^ k + r → a ≤ n → r < 2 ^ k → and_digits n a (2 ^ k - 1) ≡ r
and_digits-mask n zero a q r e h fits = omega (arith, and_digits-zero n a h)
and_digits-mask zero (suc k) zero q r e h fits = omega arith
and_digits-mask zero (suc k) (suc a) q r e h fits = absurd (omega arith)
and_digits-mask (suc n) (suc k) zero q r e h fits = omega arith
and_digits-mask (suc n) (suc k) (suc a) q r e h fits =
    let halved : (2 ^ suc k - 1) / 2 ≡ 2 ^ k - 1 = omega (arith, pow-suc 2 k, one-le-pow k 2) in
    rw halved (
      omega (
        arith,
        halve_field q k,
        pow-suc 2 k,
        one-le-pow k 2,
        and_digits-mask n k (suc a / 2) q (r / 2) (omega (arith, halve_field q k)) (omega arith)
            (omega (arith, pow-suc 2 k)),
      ))

-- `a & (2^k - 1)`.
pub bit_and-mask : (k a : ℕ) → bit_and a (2 ^ k - 1) ≡ a % 2 ^ k
bit_and-mask k a =
    bit_and-bitwise a (2 ^ k - 1)
    ∙ and_digits-mask a k a (a / 2 ^ k) (a % 2 ^ k) (ground (arith, one-le-pow k 2)) (omega arith)
        (ground (arith, one-le-pow k 2))

and_digits_self : (n a : ℕ) → a ≤ n → and_digits n a a ≡ a
and_digits_self zero zero h = refl
and_digits_self (suc n) zero h = refl
and_digits_self zero (suc a) h = absurd (omega arith)
and_digits_self (suc n) (suc a) h = omega (arith, and_digits_self n (suc a / 2) (omega arith))

and_digits_pred : (n b : ℕ) → suc b ≤ n → and_digits n (suc b) b ≡ 0 → (k : ℕ) × (suc b ≡ 2 ^ k)
and_digits_pred zero b h e = absurd (omega arith)
and_digits_pred (suc n) b h e = elim (parity (suc b)) [
  | inl even ↦
      let half : suc b / 2 ≡ suc (b / 2) = omega (arith, even) in
      let (k, power) =
        and_digits_pred n (b / 2) (omega (arith, half))
          (subst (λ t. and_digits n t (b / 2) ≡ 0) half low) in
      (suc k, omega (arith, power, half, even, pow-suc 2 k))
  | inr odd ↦
      let half : suc b / 2 ≡ b / 2 = omega (arith, odd) in
      let gone : b / 2 ≡ 0 =
        sym (and_digits_self n (b / 2) (omega arith))
        ∙ subst (λ t. and_digits n t (b / 2) ≡ 0) half low in
      (0, (let one : suc b ≡ 1 = omega (arith, gone, odd) in one))
]
  where
    parity : (m : ℕ) → (m % 2 ≡ 0) ⊎ (m % 2 ≡ 1)
    parity m = ground arith

    low : and_digits n (suc b / 2) (b / 2) ≡ 0
    low = omega (arith, e)

-- `a & (a - 1)` is zero for the powers of two alone.
pub bit_and-pred : (b : ℕ) → (bit_and (suc b) b ≡ 0) ↔ ((k : ℕ) × (suc b ≡ 2 ^ k))
bit_and-pred b = (
  λ e. and_digits_pred (suc b) b (omega arith) (sym (bit_and-bitwise (suc b) b) ∙ e),
  λ (k, e).
      let pred : b ≡ 2 ^ k - 1 = omega (arith, e) in
      rw (e, pred) (bit_and-mask k (2 ^ k) ∙ mod_self (2 ^ k)),
)
