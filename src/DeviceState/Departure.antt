-- ===== src/DeviceState/Departure.antt =====
-- What is known of an object on its way out: nothing refers to it, its owner is there, and taking its
-- charge and its count away is exact.
use virtio_accel.Prelude.{
  ℕ, ◌+◌, ◌-◌, ◌*◌, ◌≤◌, ◌<◌, ◌≡◌, true, [], arith, inl, inr, ok, sub_u32, u32_mod, Option-cases,
}
use virtio_accel.ObjectTable.{ObjectTable, get}
use virtio_accel.ObjectTable.Valid.{total, IsValid}
use virtio_accel.ObjectTable.View.{view, view-ok, view-some, total-le}
use virtio_accel.DeviceState.Records.{
  u64_mod, u128_mod, sub_u128, ResourceSlot, is_releasing, BufferRecord,
}
use virtio_accel.DeviceState.Counted.{Counted}
use virtio_accel.DeviceState.Settled.{settled}
use virtio_accel.DeviceState.Inv.{backing_bytes, backing_excess}

-- A slot on its way out is referred to by nothing.
pub releasing_unused :
    {R : Type 0} (slot : ResourceSlot R) (n : ℕ)
    → settled slot n ≡ true
    → is_releasing slot.release ≡ true
    → n ≡ 0
unfolding settled
releasing_unused slot n h r = ground arith

-- Taking away what is there.
pub sub_u32_lem : (a : ℕ) → 0 < a → a < u32_mod → sub_u32 a 1 + 1 ≡ a
sub_u32_lem a p h = omega arith

pub sub_u128_lem : (a b : ℕ) → b ≤ a → a < u128_mod → sub_u128 a b + b ≡ a
sub_u128_lem a b p h = omega arith

-- The retained backing is far from the end of a `u128`.
pub backing_fits :
    {B : Type 0} (buffers : ObjectTable (BufferRecord B)) (backing : ℕ)
    → IsValid buffers
    → backing ≡ total backing_bytes buffers
    → total backing_excess buffers ≡ 0
    → (more : ℕ) → more < u64_mod
    → backing + more < u128_mod
backing_fits buffers backing v e z more small =
    let most : total backing_bytes buffers ≤ buffers.max_slots * (u64_mod - 1) =
      total-le backing_bytes backing_excess (u64_mod - 1) buffers v (λ b. omega arith) z in
    omega (arith, most, e, v.bounded)

module _ {X Y : Type 0} where
  -- The owner of a counted object is there.
  pub owner_there :
      (count : X → ℕ) (owner : Y → ℕ) (owners : ObjectTable X) (xs : ObjectTable Y) (id : ℕ) (y : Y)
      → Counted count owners owner xs []
      → get xs id ≡ ok y
      → (c : X) × (get owners (owner y) ≡ ok c)
  owner_there count owner owners xs id y h found =
      elim (Option-cases (view count owners (owner y))) [
        | inl none_there ↦
            absurd (ground (arith, h.owned id (owner y) (view-ok owner xs id y found)))
        | inr (n, there) ↦ let (c, f, _) = view-some count owners (owner y) n there in (c, f)
      ]
