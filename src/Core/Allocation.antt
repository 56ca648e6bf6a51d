-- ===== src/Core/Allocation.antt =====
-- `BufferInfo::new` of crates/virtio-accel-core/src/lib.rs: which allocations can back a buffer.
use Prim.Native.Nat.{bit_and, bit_and-bitwise}
use native.Mathlib.Nat.{one-le-pow}
use virtio_accel.Prelude.Bits.{bit_and-pred}
use virtio_accel.Prelude.{
  ℕ, zero, suc, ◌-◌, ◌≤◌, ◌<◌, ◌≡◌, ◌↔◌, ◌^◌, ◌/◌, ◌%◌, ap, ◌⊎◌, inl, inr, all_below-holds,
  Bool-cases, refl, Bool, true, false, not, ◌&&◌, ◌||◌, arith, leb, ◌==◌, ok,
}
use virtio_accel.DeviceState.Records.{MemoryDomain, host, device, shared, BufferDesc, BufferInfo}
use virtio_accel.Core.{
  contains, intersects, is_power_of_two, properties_all, direct_binding, required,
  is_program_visible, new_info,
}

is_power_of_two-eq : (n : ℕ) → (is_power_of_two n ≡ true) ↔ ((k : ℕ) × (n ≡ 2 ^ k))
is_power_of_two-eq zero = (λ h. absurd (cc h), λ (k, e). absurd (omega (arith, e, one-le-pow k 2)))
is_power_of_two-eq (suc b) =
    let (there, back) = bit_and-pred b in
    let pred : suc b - 1 ≡ b = omega arith in
    (
      λ h. there (let e : bit_and (suc b) b ≡ 0 = ground (arith, ap (bit_and (suc b)) pred) in e),
      λ d. ground (arith, back d, ap (bit_and (suc b)) pred),
    )

-- Bit 0 of the properties is host visible, bit 1 is device local, and bit 2 is direct binding.
abbrev pub PlacedIn : MemoryDomain → ℕ → Type 0
PlacedIn host properties = properties % 2 ≡ 1
PlacedIn device properties = properties / 2 % 2 ≡ 1
PlacedIn shared properties = (properties % 2 ≡ 1) × (properties / 4 % 2 ≡ 1)

-- An allocation that can back a buffer: it is large and aligned enough, on a power of two; its
-- properties are declared ones, with those of its memory domain; and a buffer that a program can use,
-- which has one of the usage bits from 2 on, is bound directly.
pub record Backs (desc : BufferDesc) (allocation_bytes alignment properties : ℕ) : Type 0 where
  pub nonempty : 0 < allocation_bytes
  pub allocated : desc.bytes ≤ allocation_bytes
  pub aligned : desc.alignment ≤ alignment
  pub power : (k : ℕ) × (alignment ≡ 2 ^ k)
  pub declared : properties < 8
  pub placed : PlacedIn desc.domain properties
  pub bound : (desc.usage < 4) ⊎ (properties / 4 % 2 ≡ 1)

abbrev agree : Bool → Bool → Bool
agree a b = (a && b) || (not a && not b)

declared-bits : (p : ℕ) → (contains properties_all p ≡ true) ↔ (p < 8)
declared-bits p =
    let low : bit_and 7 p ≡ p % 8 = omega (arith, bit_and-bitwise 7 p) in
    (λ h. ground (arith, low), λ h. ground (arith, low))

required-PlacedIn :
    (domain : MemoryDomain) (p : ℕ)
    → p < 8
    → (contains p (required domain) ≡ true) ↔ PlacedIn domain p
unfolding required
required-PlacedIn host p small =
    let bit = all_below-holds (λ p. agree (contains p 1) (p % 2 == 1)) 8 p small refl in
    (λ h. ground arith, λ h. ground arith)
required-PlacedIn device p small =
    let bit = all_below-holds (λ p. agree (contains p 2) (p / 2 % 2 == 1)) 8 p small refl in
    (λ h. ground arith, λ h. ground arith)
required-PlacedIn shared p small =
    let bit =
      all_below-holds (λ p. agree (contains p 5) (p % 2 == 1 && p / 4 % 2 == 1)) 8 p small refl in
    (λ h. ground arith, λ h. ground arith)

direct-bit : (p : ℕ) → p < 8 → (contains p direct_binding ≡ true) ↔ (p / 4 % 2 ≡ 1)
direct-bit p small =
    let bit = all_below-holds (λ p. agree (contains p 4) (p / 4 % 2 == 1)) 8 p small refl in
    (λ h. ground arith, λ h. ground arith)

is_program_visible-usage :
    (desc : BufferDesc) → desc.usage < 32 → is_program_visible desc ≡ leb 4 desc.usage
unfolding is_program_visible
is_program_visible-usage desc small =
    let bit = all_below-holds (λ u. agree (intersects u 28) (leb 4 u)) 32 desc.usage small refl in
    ground arith

-- `BufferInfo::new` accepts an allocation exactly if it can back the requested buffer, and describes
-- what it was given; the usage of the request is of the five declared bits.
pub new_info-eq-ok :
    (desc : BufferDesc) (allocation_bytes alignment properties : ℕ) (info : BufferInfo)
    → desc.usage < 32
    → (new_info desc allocation_bytes alignment properties ≡ ok info) ↔ (
        (info ≡ record {
          desc = desc;
          allocation_bytes = allocation_bytes;
          alignment = alignment;
          properties = properties;
        })
        × Backs desc allocation_bytes alignment properties)
unfolding new_info
new_info-eq-ok desc allocation_bytes alignment properties info small =
    let (power, power_back) = is_power_of_two-eq alignment in
    let (known, known_back) = declared-bits properties in
    let visible = is_program_visible-usage desc small in
    (
      λ h.
          let fits : properties < 8 = known (ground arith) in
          let (direct, _) = direct-bit properties fits in
          (
            ground arith,
            record {
              nonempty = ground arith;
              allocated = ground arith;
              aligned = ground arith;
              power = power (ground arith);
              declared = fits;
              placed = (required-PlacedIn desc.domain properties fits).0 (ground arith);
              bound = elim (Bool-cases (leb 4 desc.usage)) [
                | inl some_program ↦ inr (direct (ground (arith, visible)))
                | inr no_program ↦ inl (ground arith)
              ];
            },
          ),
      λ (same, b).
          let power_ok = power_back b.power in
          let known_ok = known_back b.declared in
          let placed_ok = (required-PlacedIn desc.domain properties b.declared).1 b.placed in
          let direct_ok : (leb 4 desc.usage && not (contains properties direct_binding)) ≡ false =
            elim b.bound [
              | inl none_seen ↦ ground arith
              | inr bit ↦ ground (arith, (direct-bit properties b.declared).1 bit)
            ] in
          ground (
            arith, same, power_ok, known_ok, placed_ok, direct_ok, visible, b.nonempty, b.allocated,
            b.aligned,
          ),
    )
