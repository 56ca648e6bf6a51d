-- ===== src/ObjectTable/Ids.antt =====
-- The encoding of an `ObjectId`: the four fields are recovered, and no other number has them.
use Prim.Native.Nat.{bit_or}
use virtio_accel.Prelude.{ℕ, ◌+◌, ◌*◌, ◌^◌, ◌<◌, ◌≡◌, ◌≢◌, arith, u32_mod}
use virtio_accel.Prelude.Bits.{shl, bit_or-shl}
use virtio_accel.ObjectTable.{
  ObjectKind, context, tag, new_id, slot_number, kind_bits, namespace_bits, generation_field,
  generation_bits,
}

pub tag_bounds : (k : ObjectKind) → tag k < 8
unfolding tag
tag_bounds context = omega arith
tag_bounds _ = omega arith

-- The ID as a sum of its fields.
new_id-sum :
    (index namespace generation : ℕ) (k : ObjectKind)
    → index + 1 < u32_mod
    → generation < 2 ^ generation_bits
    → new_id index namespace generation k
      ≡ (namespace * 2 ^ 16 + generation * 8 + tag k) * 2 ^ 32 + (index + 1)
unfolding new_id
new_id-sum index namespace generation k fits g =
    let high : bit_or (shl namespace 16) (shl generation 3)
        ≡ shl (namespace * 2 ^ 13 + generation) 3 =
      omega (arith, bit_or-shl namespace 16 (shl generation 3) (omega arith)) in
    rw (high, bit_or-shl (namespace * 2 ^ 13 + generation) 3 (tag k) (tag_bounds k))
      (rw (bit_or-shl ((namespace * 2 ^ 13 + generation) * 2 ^ 3 + tag k) 32 (index + 1) fits)
        (omega arith))

-- What `locate` reads from an ID that `new_id` made.
pub record Decodes (id index namespace generation : ℕ) (k : ObjectKind) : Type 0 where
  pub slot : slot_number id ≡ index + 1
  pub kind : kind_bits id ≡ tag k
  pub space : namespace_bits id ≡ namespace
  pub age : generation_field id ≡ generation

-- The slot number, the kind, the namespace and the generation that a lookup reads from a new ID are
-- those it was made of, for a slot below the last `u32` and a generation of 13 bits.
pub new_id-Decodes :
    (index namespace generation : ℕ) (k : ObjectKind)
    → index + 1 < u32_mod
    → generation < 2 ^ generation_bits
    → Decodes (new_id index namespace generation k) index namespace generation k
unfolding slot_number kind_bits namespace_bits generation_field
new_id-Decodes index namespace generation k fits g =
    rw (new_id-sum index namespace generation k fits g) (record {
      slot = omega arith;
      kind = omega (arith, tag_bounds k);
      space = omega (arith, tag_bounds k);
      age = omega (arith, tag_bounds k);
    })

-- An ID is determined by the fields that a lookup reads from it.
pub Decodes-new_id :
    (id index namespace generation : ℕ) (k : ObjectKind)
    → Decodes id index namespace generation k
    → id ≡ new_id index namespace generation k
unfolding slot_number kind_bits namespace_bits generation_field
Decodes-new_id id index namespace generation k d =
    rw (new_id-sum index namespace generation k (omega (arith, d.slot)) (omega (arith, d.age)))
      (omega (arith, d.slot, d.kind, d.space, d.age))

pub new_id-ne-zero :
    (index namespace generation : ℕ) (k : ObjectKind)
    → index + 1 < u32_mod
    → generation < 2 ^ generation_bits
    → new_id index namespace generation k ≢ 0
new_id-ne-zero index namespace generation k fits g =
    rw (new_id-sum index namespace generation k fits g) (omega arith)
