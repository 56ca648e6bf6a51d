-- ===== src/ObjectTable/Tests.antt =====
-- Runs of a table of two slots.
use virtio_accel.Prelude.{ℕ, ◌≡◌, refl, ◌==◌, if◌then◌else◌, true, ok, err, arith, inr}
use virtio_accel.ObjectTable.{
  ObjectTable, queue, Reserve, with_namespace, insert_prepared, get, remove, new_id, stale_id,
  slot_number, kind_bits, tag, namespace_bits, generation_field,
}
use virtio_accel.ObjectTable.{insert}
use virtio_accel.ObjectTable.Stale.{
  removed-stays-stale, TableStep-IsValid, stay, then_step, inserted,
}
use virtio_accel.Prelude.{◌≢◌}
use virtio_accel.ObjectTable.Ids.{Decodes, new_id-Decodes}
use virtio_accel.ObjectTable.Valid.{IsValid, with_namespace-IsValid}
use virtio_accel.ObjectTable.Preserve.{HasRoom, insert_prepared-IsValid}
use virtio_accel.ObjectTable.Laws.{get-remove, remove-IsValid}
use virtio_accel.ObjectTable.Insert.{Inserted, insert_prepared-Inserted}

abbrev t0 : ObjectTable ℕ
t0 = with_namespace queue 2 9

abbrev roomy : Reserve
roomy = record { slots = true; free = true }

abbrev t1 : ObjectTable ℕ
t1 = (insert_prepared t0 41).0

abbrev id1 : ℕ
id1 = new_id 0 9 0 queue

valid0 : IsValid t0
valid0 = with_namespace-IsValid queue 2 9 (omega arith)

room0 : HasRoom t0
unfolding with_namespace
room0 = inr (omega arith)

found1 : get t1 id1 ≡ ok 41
unfolding get insert_prepared with_namespace new_id slot_number kind_bits tag namespace_bits
    generation_field
found1 = refl

-- A reused slot gets the next generation, and the old ID stays stale.
reused : (insert_prepared (remove t1 id1).0 43).1 ≡ new_id 0 9 1 queue
unfolding get insert_prepared with_namespace new_id remove slot_number kind_bits tag namespace_bits
    generation_field
reused = refl

-- The witnesses.
new_id-Decodes_example : Decodes (new_id 4 9 17 queue) 4 9 17 queue
new_id-Decodes_example = new_id-Decodes 4 9 17 queue (omega arith) (omega arith)

insert_prepared-Inserted_example : Inserted t0 t1 (insert_prepared t0 41).1 41
insert_prepared-Inserted_example = insert_prepared-Inserted t0 41 valid0 room0

valid1 : IsValid t1
valid1 = insert_prepared-IsValid t0 41 valid0 room0

get-remove_example : get (remove t1 id1).0 id1 ≡ (if id1 == id1 then err stale_id else get t1 id1)
get-remove_example = get-remove t1 id1 id1 41 found1

-- The slot is used again, and the old ID stays stale.
abbrev t2 : ObjectTable ℕ
t2 = (remove t1 id1).0

abbrev t3 : ObjectTable ℕ
t3 = (insert t2 roomy 43).0

removed-stays-stale_example : get t3 id1 ≢ ok 43
removed-stays-stale_example =
    removed-stays-stale t1 t3 id1 41 43 valid1 found1
      (then_step t2 t2 t3 (stay t2) (inserted t2 roomy 43))

TableStep-IsValid_example : IsValid t3
TableStep-IsValid_example =
    TableStep-IsValid t2 t3 (inserted t2 roomy 43) (remove-IsValid t1 id1 41 valid1 found1)
