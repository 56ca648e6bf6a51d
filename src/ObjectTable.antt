-- ===== src/ObjectTable.antt =====
-- The bounded generational object table of crates/virtio-accel-device/src/object_table.rs.
-- An `ObjectId` is its raw `u64`, which `from_raw` keeps from being 0. The vectors `slots` and
-- `free` are lists, and the last entry of the vector `free` is the head of the list. What the
-- allocator answers to the two `try_reserve` calls is an argument of the insertions.
pub mod Ids
pub mod Lookup
pub mod Valid
pub mod Preserve
pub mod Laws
pub mod Insert
pub mod View
pub mod Stale
mod Tests
use Prim.Native.Nat.{bit_or}
use virtio_accel.Prelude.{
  ℕ, ◌+◌, ◌-◌, ◌%◌, ◌^◌, Bool, true, false, ◌||◌, not, Option, none, some, List, [], ◌∷◌, ◌++◌,
  length, get_elem?, set, ltb, leb, ◌==◌, if◌then◌else◌, is_none, Result, ok, err, ◌>>=◌, ◌>>◌,
  reject_if, ok_or, attempt, u32_mod, add_u32, sub_u32,
}
use virtio_accel.Prelude.Bits.{shl, shr}

pub data ObjectKind : Type 0 where
  context buffer program queue event : ObjectKind

-- `self as u32`.
unfoldable pub tag : ObjectKind → ℕ
tag context = 1
tag buffer = 2
tag program = 3
tag queue = 4
tag event = 5

abbrev pub generation_bits : ℕ
generation_bits = 13

abbrev pub generation_mask : ℕ
generation_mask = 2 ^ generation_bits - 1

abbrev pub generation_shift : ℕ
generation_shift = 3

abbrev pub namespace_shift : ℕ
namespace_shift = generation_shift + generation_bits

-- A namespace is a nonzero `u16`.
unfoldable pub new_namespace : ℕ → Option ℕ
new_namespace value = if value == 0 then none else some value

unfoldable pub from_raw : ℕ → Option ℕ
from_raw raw = if raw == 0 then none else some raw

-- `ObjectId::new`.
unfoldable pub new_id : ℕ → ℕ → ℕ → ObjectKind → ℕ
unfolding tag
new_id index namespace generation kind =
    let token =
      bit_or (bit_or (shl namespace namespace_shift) (shl generation generation_shift))
        (tag kind) in
    bit_or (shl token 32) (index + 1)

pub data ObjectTableError : Type 0 where
  invalid_id wrong_kind stale_id full allocation_failed : ObjectTableError

pub record Slot {ℓ} (T : Type ℓ) : Type ℓ where
  pub generation : ℕ
  pub value : Option T
  pub retired : Bool

pub record ObjectTable {ℓ} (T : Type ℓ) : Type ℓ where
  pub kind : ObjectKind
  pub namespace : ℕ
  pub max_slots : ℕ
  pub live : ℕ
  pub slots : List (Slot T)
  pub free : List ℕ

-- The allocator's answers: to `slots.try_reserve(1)`, and whether `free` has or gets room for an
-- entry per slot.
pub record Reserve : Type 0 where
  pub slots : Bool
  pub free : Bool

-- The parts of an ID as `locate` reads them. Shifting a `u64` by 32 leaves a `u32`, and shifting
-- that by 16 a `u16`, so those casts drop nothing.
unfoldable pub slot_number : ℕ → ℕ
slot_number raw = raw % u32_mod

unfoldable pub token : ℕ → ℕ
token raw = shr raw 32

unfoldable pub kind_bits : ℕ → ℕ
unfolding token
kind_bits raw = token raw % 2 ^ 3

unfoldable pub namespace_bits : ℕ → ℕ
unfolding token
namespace_bits raw = shr (token raw) namespace_shift

unfoldable pub generation_field : ℕ → ℕ
unfolding token
generation_field raw = shr (token raw) generation_shift % 2 ^ generation_bits

module _ {ℓ} {T : Type ℓ} where
  unfoldable pub with_namespace : ObjectKind → ℕ → ℕ → ObjectTable T
  with_namespace kind max_slots namespace = record {
    kind = kind;
    namespace = namespace;
    max_slots = max_slots;
    live = 0;
    slots = [];
    free = [];
  }

  unfoldable pub new_table : ObjectKind → ℕ → ObjectTable T
  unfolding with_namespace
  new_table kind max_slots = with_namespace kind max_slots 0

  unfoldable pub len : ObjectTable T → ℕ
  len t = t.live

  unfoldable pub is_empty : ObjectTable T → Bool
  is_empty t = t.live == 0

  -- The iterator of `ids` over the slots from `index` on.
  unfoldable pub ids_from : ObjectKind → ℕ → ℕ → List (Slot T) → List ℕ
  ids_from kind namespace index [] = []
  ids_from kind namespace index (s ∷ slots) =
      let rest = ids_from kind namespace (index + 1) slots in
      elim s.value [ none ↦ rest | some _ ↦ new_id index namespace s.generation kind ∷ rest ]

  unfoldable pub ids : ObjectTable T → List ℕ
  unfolding ids_from
  ids t = ids_from t.kind t.namespace 0 t.slots

  unfoldable pub try_reserve_insert : ObjectTable T → Reserve → Result ObjectTableError (Unit {0})
  try_reserve_insert t room = elim t.free [
    | index ∷ rest ↦ ok tt
    | [] ↦ do
      reject_if (leb t.max_slots (length t.slots)) full
      reject_if (not room.slots) allocation_failed
      reject_if (not room.free) allocation_failed
  ]

  -- The generation of the slot that a free index names. An index past the end would panic in the
  -- source; a well-formed table has none.
  abbrev pub generation_at : List (Slot T) → ℕ → ℕ
  generation_at slots index = elim (get_elem? slots index) [ none ↦ 0 | some s ↦ s.generation ]

  -- `slot.value = Some(value)` for the slot at the index.
  abbrev pub fill : List (Slot T) → ℕ → T → List (Slot T)
  fill slots index value = elim (get_elem? slots index) [
    | none ↦ slots
    | some s ↦ set slots index (record s { value = some value })
  ]

  unfoldable pub insert_prepared : ObjectTable T → T → ObjectTable T × ℕ
  insert_prepared t value = elim t.free [
    | index ∷ rest ↦ (
      record t { slots = fill t.slots index value; free = rest; live = add_u32 t.live 1 },
      new_id index t.namespace (generation_at t.slots index) t.kind,
    )
    | [] ↦ (
      record t {
        slots = t.slots ++ record { generation = 0; value = some value; retired = false } ∷ [];
        live = add_u32 t.live 1;
      },
      new_id (length t.slots) t.namespace 0 t.kind,
    )
  ]

  unfoldable pub insert : ObjectTable T → Reserve → T → ObjectTable T × Result ObjectTableError ℕ
  unfolding try_reserve_insert insert_prepared
  insert t room value =
      attempt t (try_reserve_insert t room)
        λ _. let (t', id) = insert_prepared t value in (t', ok id)

  -- The `slots.get(index)` of `locate` and the test behind it.
  unfoldable pub check_slot : List (Slot T) → ℕ → ℕ → Result ObjectTableError ℕ
  check_slot slots index generation = do
    slot ← ok_or (get_elem? slots index) stale_id
    reject_if (not (slot.generation == generation) || slot.retired || is_none slot.value) stale_id
    ok index

  unfoldable pub locate : ObjectTable T → ℕ → Result ObjectTableError ℕ
  unfolding check_slot
  locate t id = do
    reject_if (slot_number id == 0) invalid_id
    reject_if (not (kind_bits id == tag t.kind)) wrong_kind
    reject_if (not (namespace_bits id == t.namespace)) stale_id
    check_slot t.slots (slot_number id - 1) (generation_field id)

  -- The value at an index that `locate` gave; indexing past the end cannot happen then.
  abbrev pub value_at : List (Slot T) → ℕ → Option T
  value_at slots index = elim (get_elem? slots index) [ none ↦ none | some s ↦ s.value ]

  -- `get`, and the read through the reference that `get_mut` returns.
  unfoldable pub get : ObjectTable T → ℕ → Result ObjectTableError T
  unfolding locate
  get t id = do index ← locate t id; ok_or (value_at t.slots index) stale_id

  -- A write through the reference that `get_mut` returns.
  unfoldable pub put : ObjectTable T → ℕ → T → ObjectTable T
  unfolding locate
  put t id value = elim (locate t id) [
    | ok index ↦ record t { slots = fill t.slots index value }
    | err _ ↦ t
  ]

  -- `slot.value.take()`, and the end of `remove`: the slot is retired at the last generation, and
  -- free under the next one otherwise.
  unfoldable pub vacate : ObjectTable T → ℕ → Slot T → ObjectTable T
  vacate t index slot =
      if slot.generation == generation_mask
      then record t {
        slots = set t.slots index (record slot { value = none; retired = true });
        live = sub_u32 t.live 1;
      }
      else record t {
        slots = set t.slots index (record slot { value = none; generation = slot.generation + 1 });
        free = index ∷ t.free;
        live = sub_u32 t.live 1;
      }

  unfoldable pub remove : ObjectTable T → ℕ → ObjectTable T × Result ObjectTableError T
  unfolding locate vacate
  remove t id = attempt t (locate t id) λ index.
      attempt t (ok_or (get_elem? t.slots index) stale_id)
        λ slot. attempt t (ok_or slot.value stale_id) λ value. (vacate t index slot, ok value)

  -- The search of `next_id_from` over the slots from `index` on.
  unfoldable pub next_from : ObjectKind → ℕ → ℕ → ℕ → List (Slot T) → Option (ℕ × ℕ)
  next_from kind namespace start index [] = none
  next_from kind namespace start index (s ∷ slots) =
      let rest = next_from kind namespace start (index + 1) slots in
      if ltb index start || s.retired || is_none s.value
      then rest
      else some (index + 1, new_id index namespace s.generation kind)

  unfoldable pub next_id_from : ObjectTable T → ℕ → Option (ℕ × ℕ)
  unfolding next_from
  next_id_from t start = next_from t.kind t.namespace start 0 t.slots
