-- ===== src/SplitQueue/Window.antt =====
-- The entries of a ring from an index on, going round at its size: a push behind them, a pop of the
-- first, and the masked 16-bit indices of crates/virtio-accel-split-queue/src/queue.rs.
use native.Mathlib.Nat.{mod-add-mod, mod-eq_of_lt, mod-eq-sub-mod, add-zero, one-le-pow}
use native.Mathlib.Decide.{dec_lt}
use virtio_accel.Prelude.{
  ℕ, zero, suc, ◌+◌, ◌-◌, ◌%◌, ◌^◌, ◌≤◌, ◌<◌, ◌≡◌, ◌≢◌, refl, ap, ◌∙◌, sym, Bool, true, ◌&&◌, ◌==◌,
  List, [], ◌∷◌, ◌++◌, length, arith,
}
use virtio_accel.Prelude.Bits.{bit_and-mask}
use virtio_accel.SplitQueue.Ring.{ring_slot, wrapping_add, wrapping_descriptor_add}

module _ {ℓ} {A : Type ℓ} (entry : ℕ → A) (size : ℕ) where
  -- The `n` entries from index `h` on.
  abbrev pub window : ℕ → ℕ → List A
  window h zero = []
  window h (suc n) = entry h ∷ window ((h + 1) % size) n

  pub length-window : (h n : ℕ) → length (window h n) ≡ n
  length-window h zero = refl
  length-window h (suc n) = ap suc (length-window ((h + 1) % size) n)

-- Fewer than `size` steps round the ring do not come back to the start.
add-mod-ne : (size h k : ℕ) → h < size → suc k < size → (h + suc k) % size ≢ h
add-mod-ne size h k hh hk = elim (dec_lt (h + suc k) size) [
  | yes p ↦ omega (arith, mod-eq_of_lt p)
  | no p ↦ omega (
    arith,
    mod-eq-sub-mod {n = h + suc k} {m = size} (omega arith),
    mod-eq_of_lt {n = h + suc k - size} {m = size} (omega arith),
  )
]

mod-shift : (size h j : ℕ) → ((h + j) % size + 1) % size ≡ (h + suc j) % size
mod-shift size h j = rw mod-add-mod (ap (λ k. k % size) (omega arith))

pub shift-mod : (size h j : ℕ) → ((h + 1) % size + j) % size ≡ (h + suc j) % size
shift-mod size h j = rw mod-add-mod (ap (λ k. k % size) (omega arith))

module _ {ℓ} {A : Type ℓ} (f g : ℕ → A) (size : ℕ) where
  -- A write at the end of a window extends it.
  pub window-push :
      (v : A) (n h i : ℕ)
      → ((j : ℕ) → j ≢ i → g j ≡ f j)
      → g i ≡ v
      → h < size
      → n < size
      → i ≡ (h + n) % size
      → window g size h (suc n) ≡ window f size h n ++ (v ∷ [])
  window-push v zero h i same written hh hn e =
      let at_start : i ≡ h = e ∙ rw (add-zero) (mod-eq_of_lt hh) in
      rw (← at_start) (rw written refl)
  window-push v (suc n) h i same written hh hn e =
      let ne : h ≢ i = λ q. add-mod-ne size h n hh hn (sym e ∙ sym q) in
      cc (
        same h ne,
        window-push v n ((h + 1) % size) i same written (omega arith) (omega arith)
            (e ∙ sym (shift-mod size h n)),
      )

  -- A write at the index in front of a window leaves it as it is.
  pub window-behind :
      (n h i j : ℕ)
      → ((k : ℕ) → k ≢ i → g k ≡ f k)
      → i < size
      → h ≡ (i + suc j) % size
      → suc j + n ≤ size
      → window g size h n ≡ window f size h n
  window-behind zero h i j same hi e fits = refl
  window-behind (suc n) h i j same hi e fits =
      let ne : h ≢ i = λ q. add-mod-ne size i j hi (omega arith) (sym e ∙ q) in
      cc (
        same h ne,
        window-behind n ((h + 1) % size) i (suc j) same hi (rw e (mod-shift size i (suc j)))
            (omega arith),
      )

powers_divide : ℕ → Bool
powers_divide zero = true
powers_divide (suc k) = (65536 % 2 ^ k == 0) && powers_divide k

powers_divide_sound : (n k : ℕ) → k < n → powers_divide n ≡ true → 65536 % 2 ^ k ≡ 0
unfolding powers_divide
powers_divide_sound zero k lt h = absurd (omega arith)
powers_divide_sound (suc n) k lt h = ground (arith, powers_divide_sound n k)

pub mod-65536 : (k : ℕ) → k < 16 → 65536 % 2 ^ k ≡ 0
unfolding powers_divide
mod-65536 k small = powers_divide_sound 16 k small refl

module _ (size k : ℕ) (power : size ≡ 2 ^ k) (small : k < 16) where
  -- A power of two below 2^16 as the size of a ring.
  pub positive : 0 < size
  positive = omega (arith, one-le-pow k 2)

  pub ring_slot-mod : (index : ℕ) → ring_slot size index ≡ index % size
  unfolding ring_slot
  ring_slot-mod index = rw power (bit_and-mask k index)

  pub mod-wrapping_add : (a : ℕ) → a < 2 ^ 16 → wrapping_add a 1 % size ≡ (a + 1) % size
  mod-wrapping_add a h = elim (dec_lt (a + 1) 65536) [
    | yes p ↦ rw (mod-eq_of_lt p) refl
    | no p ↦
        let top : (a + 1) % 2 ^ 16 ≡ 0 = omega arith in
        let sum : a + 1 ≡ 65536 = omega arith in
        rw (top, sum, power)
          (mod-eq_of_lt {n = 0} {m = 2 ^ k} (omega (arith, one-le-pow k 2))
            ∙ sym (mod-65536 k small))
  ]

-- The wrapped descriptor index is masked as a ring slot is.
pub wrapping_descriptor_add_lem :
    (size index amount : ℕ)
    → wrapping_descriptor_add size index amount ≡ ring_slot size (wrapping_add index amount)
unfolding wrapping_descriptor_add ring_slot
wrapping_descriptor_add_lem size index amount = refl

-- The first entry of a window that is not empty, and the window behind it.
pub window-front {ℓ} :
    {A : Type ℓ} (f : ℕ → A) (size h n : ℕ)
    → n ≢ 0
    → window f size h n ≡ f h ∷ window f size ((h + 1) % size) (n - 1)
window-front f size h zero ne = absurd (ne refl)
window-front f size h (suc n) ne = ap (λ k. f h ∷ window f size ((h + 1) % size) k) (omega arith)

pub end_behind :
    (size h n end : ℕ) → n ≢ 0 → end ≡ (h + n) % size → end ≡ ((h + 1) % size + (n - 1)) % size
end_behind size h n end ne e =
    e ∙ sym (mod-add-mod (h + 1) size (n - 1) ∙ ap (λ k. k % size) (omega arith))
