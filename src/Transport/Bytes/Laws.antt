-- ===== src/Transport/Bytes/Laws.antt =====
-- A slice of crates/virtio-accel-transport/src/bytes.rs after a write.
use mathlib.Core.List.{append_assoc}
use virtio_accel.Prelude.{
  ℕ, ◌+◌, ◌-◌, ◌^◌, ◌≤◌, ◌<◌, ◌≡◌, ◌⊎◌, inl, inr, ◌∙◌, ap, sym, refl, List, ◌++◌, length, take,
  drop, ok, err, arith, ltb, leb, ◌&&◌, if◌then◌else◌, subst, length-append, length-take,
  length-drop, take-append, drop-append, drop-append_past, slice-append_within, slice-take,
  drop-drop,
}
use virtio_accel.Transport.Bytes.{read_at, write_at, out_of_bounds}

-- A read, with its two tests in one.
pub read_at_lem :
    (bytes : List ℕ) (offset count : ℕ)
    → read_at bytes offset count ≡ (
        if ltb (offset + count) (2 ^ 64) && leb (offset + count) (length bytes)
        then ok (take count (drop offset bytes))
        else err out_of_bounds)
unfolding read_at
read_at_lem bytes offset count =
    let e : offset + count - offset ≡ count = omega arith in
    ground (arith, ap (λ n. take n (drop offset bytes)) e)

module _ (bytes : List ℕ) (offset : ℕ) (source : List ℕ)
    (inside : offset + length source ≤ length bytes) where
  abbrev spliced : List ℕ
  spliced = take offset bytes ++ source ++ drop (offset + length source) bytes

  length-spliced : length spliced ≡ length bytes
  length-spliced = omega (
    arith,
    length-append (take offset bytes ++ source) (drop (offset + length source) bytes),
    length-append (take offset bytes) source,
    length-take offset bytes (omega arith),
    length-drop (offset + length source) bytes,
  )

  own_slice : take (length source) (drop offset spliced) ≡ source
  own_slice =
      ap (λ r. take (length source) (drop offset r))
        (append_assoc (take offset bytes) source (drop (offset + length source) bytes))
      ∙ ap (take (length source)) (
          drop-append offset (take offset bytes) (source ++ drop (offset + length source) bytes)
            (sym (length-take offset bytes (omega arith))))
      ∙ take-append (length source) source (drop (offset + length source) bytes) refl

  slice_before :
      (start count : ℕ)
      → start + count ≤ offset
      → take count (drop start spliced) ≡ take count (drop start bytes)
  slice_before start count h =
      ap (λ r. take count (drop start r))
        (append_assoc (take offset bytes) source (drop (offset + length source) bytes))
      ∙ slice-append_within start count (take offset bytes)
          (source ++ drop (offset + length source) bytes)
          (omega (arith, length-take offset bytes (omega arith)))
      ∙ slice-take start count offset bytes h

  slice_behind :
      (start : ℕ) → offset + length source ≤ start → drop start spliced ≡ drop start bytes
  slice_behind start h =
      ap (λ k. drop k spliced)
        (omega
          (arith, length-append (take offset bytes) source, length-take offset bytes (omega arith)))
      ∙ drop-append_past (start - (offset + length source)) (take offset bytes ++ source)
          (drop (offset + length source) bytes)
      ∙ drop-drop (start - (offset + length source)) (offset + length source) bytes
      ∙ ap (λ k. drop k bytes) (omega arith)

-- After a write to a slice that succeeds, the slice is as long as before, a read of what was written
-- gives the source, and a read of bytes that are all before or all behind it gives what it gave
-- before, errors included.
pub read_at-write_at :
    (bytes : List ℕ) (offset : ℕ) (source : List ℕ) (start count : ℕ) {bytes' : List ℕ}
    → write_at bytes offset source ≡ ok bytes'
    → (start + count ≤ offset) ⊎ (offset + length source ≤ start)
    → (length bytes' ≡ length bytes)
      × (read_at bytes' offset (length source) ≡ ok source)
      × (read_at bytes' start count ≡ read_at bytes start count)
unfolding write_at
read_at-write_at bytes offset source start count {bytes'} e apart =
    let inside : offset + length source ≤ length bytes = ground arith in
    let word : offset + length source < 2 ^ 64 = ground arith in
    let written : spliced bytes offset source inside ≡ bytes' = ground arith in
    let other : take count (drop start (spliced bytes offset source inside))
        ≡ take count (drop start bytes) =
      elim apart [
        | inl h ↦ slice_before bytes offset source inside start count h
        | inr h ↦ ap (take count) (slice_behind bytes offset source inside start h)
      ] in
    subst
      (λ b.
        (length b ≡ length bytes)
        × (read_at b offset (length source) ≡ ok source)
        × (read_at b start count ≡ read_at bytes start count))
      written
      (
        length-spliced bytes offset source inside,
        rw (read_at_lem, length-spliced bytes offset source inside)
            (ground (arith, own_slice bytes offset source inside)),
        rw (read_at_lem, read_at_lem, length-spliced bytes offset source inside)
            (ground (arith, other)),
      )
