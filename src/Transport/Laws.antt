-- ===== src/Transport/Laws.antt =====
-- Queue sizes and queue states of crates/virtio-accel-transport/src/queue.rs.
use virtio_accel.Prelude.{
  ℕ, zero, suc, ◌+◌, ◌^◌, ◌<◌, ◌≤◌, ◌≡◌, ◌∙◌, ap, none, ◌↔◌, Bool, true, ◌&&◌, not, arith, Option,
  some, ◌==◌, ==_refl, leb, Bool-cases, inl, inr, ok, refl,
}
use virtio_accel.Transport.{
  power_below, new_size, checked_next, max_split_queue_size, QueueState, new_state,
}

power_below_sound :
    (bits value : ℕ) → power_below bits value ≡ true → (k : ℕ) × (k < bits) × (value ≡ 2 ^ k)
unfolding power_below
power_below_sound zero value h = absurd (cc)
power_below_sound (suc bits) value h = elim (Bool-cases (value == 2 ^ bits)) [
  | inl e ↦ (bits, omega arith, ground arith)
  | inr e ↦
      let (k, lt, found) = power_below_sound bits value (ground arith) in (k, omega arith, found)
]

power_below_complete : (bits k : ℕ) → k < bits → power_below bits (2 ^ k) ≡ true
unfolding power_below
power_below_complete zero k h = absurd (omega arith)
power_below_complete (suc bits) k h = elim (Bool-cases (k == bits)) [
  | inl e ↦ let same : k ≡ bits = ground arith in rw (same, ==_refl (2 ^ bits)) refl
  | inr e ↦ ground (arith, power_below_complete bits k)
]

small_power : (k : ℕ) → k < 16 → (leb (2 ^ k) max_split_queue_size && not (2 ^ k == 0)) ≡ true
small_power k h = below 16 k h refl
  where
    all_small : ℕ → Bool
    all_small zero = true
    all_small (suc n) = (leb (2 ^ n) max_split_queue_size && not (2 ^ n == 0)) && all_small n

    below :
        (n k : ℕ)
        → k < n
        → all_small n ≡ true
        → (leb (2 ^ k) max_split_queue_size && not (2 ^ k == 0)) ≡ true
    below zero k h e = absurd (omega arith)
    below (suc n) k h e = elim (Bool-cases (k == n)) [
      | inl same ↦ let eq : k ≡ n = ground arith in rw eq (ground arith)
      | inr other ↦ below n k (ground arith) (ground arith)
    ]

pub new_size-power :
    (value : ℕ) {size : ℕ} → new_size value ≡ some size → (k : ℕ) × (k < 16) × (size ≡ 2 ^ k)
unfolding new_size
new_size-power value e =
    let (k, lt, found) = power_below_sound 16 value (ground arith) in (k, lt, ground arith)

-- `QueueSize::new` accepts a `u16` value exactly if it is a power of two that a split queue can have,
-- and the size is the value.
pub new_size-eq-some :
    (value size : ℕ)
    → (new_size value ≡ some size) ↔ ((size ≡ value) × (k : ℕ) × (k < 16) × (value ≡ 2 ^ k))
unfolding new_size
new_size-eq-some value size = (
  λ e.
      let (k, lt, found) = power_below_sound 16 value (ground arith) in
      (ground arith, k, lt, found),
  λ d.
      let e : value ≡ 2 ^ d.1 = d.3 in
      rw (e, power_below_complete 16 d.1 d.2) (ground (arith, small_power d.1 d.2)),
)

-- What `QueueState::new` accepts keeps its arguments; a size is within the maximum, and a ready queue
-- has a size.
pub record Consistent (s : QueueState) : Type 0 where
  pub within : (n : ℕ) → s.size ≡ some n → n ≤ s.max_size
  pub sized : s.ready ≡ true → (n : ℕ) × (s.size ≡ some n)

-- `QueueState::new` gives a state exactly if it is of the arguments, its size is within the maximum,
-- and it is not ready without a size.
pub new_state-eq-ok :
    (max_size : ℕ) (size : Option ℕ) (ready : Bool) (epoch : ℕ) (s : QueueState)
    → (new_state max_size size ready epoch ≡ ok s) ↔ (
        (s ≡ record { max_size = max_size; size = size; ready = ready; epoch = epoch })
        × Consistent s)
unfolding new_state
new_state-eq-ok max_size none ready epoch s = (
  λ e. (
    ground arith,
    record { within = λ n some_size. ground arith; sized = λ on. absurd (ground arith) },
  ),
  λ d. elim (Bool-cases ready) [
    | inl on ↦
        let (n, e) = d.1.sized (ap (λ t. t.ready) d.0 ∙ on) in absurd (cc (e, ap (λ t. t.size) d.0))
    | inr off ↦ ground (arith, d.0)
  ],
)
new_state-eq-ok max_size (some n) ready epoch s = (
  λ e. (ground arith, record { within = λ m found. ground arith; sized = λ on. (n, ground arith) }),
  λ d.
      let small : n ≤ max_size =
        omega (arith, d.1.within n (ap (λ t. t.size) d.0), ap (λ t. t.max_size) d.0) in
      ground (arith, d.0),
)

-- The next epoch is later, and it is there as long as the counter has room.
pub checked_next-eq-some :
    (epoch next : ℕ) → (checked_next epoch ≡ some next) ↔ ((next ≡ epoch + 1) × (next < 2 ^ 64))
unfolding checked_next
checked_next-eq-some epoch next = (λ e. ground arith, λ d. ground arith)
