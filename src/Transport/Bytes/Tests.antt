-- ===== src/Transport/Bytes/Tests.antt =====
-- A write in the middle of a slice.
use virtio_accel.Prelude.{ℕ, ◌≡◌, List, [], ◌∷◌, length, ok, inr, arith, refl}
use virtio_accel.Transport.Bytes.{read_at, write_at}
use virtio_accel.Transport.Bytes.Laws.{read_at-write_at}

abbrev before : List ℕ
before = 1 ∷ 2 ∷ 3 ∷ 4 ∷ 5 ∷ []

abbrev after : List ℕ
after = 1 ∷ 8 ∷ 9 ∷ 4 ∷ 5 ∷ []

write_at-before : write_at before 1 (8 ∷ 9 ∷ []) ≡ ok after
unfolding write_at
write_at-before = refl

read_at-write_at_example :
    (length after ≡ length before)
    × (read_at after 1 2 ≡ ok (8 ∷ 9 ∷ []))
    × (read_at after 3 2 ≡ read_at before 3 2)
read_at-write_at_example =
    read_at-write_at before 1 (8 ∷ 9 ∷ []) 3 2 write_at-before (inr (omega arith))
