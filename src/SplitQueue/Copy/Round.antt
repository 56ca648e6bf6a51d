-- ===== src/SplitQueue/Copy/Round.antt =====
-- One round of the loop of `copy_from_descriptors` in crates/virtio-accel-split-queue/src/chain.rs,
-- over descriptors that are mapped.
use virtio_accel.Prelude.{
  ℕ, suc, ◌+◌, ◌-◌, ◌^◌, ◌≤◌, ◌<◌, ◌≡◌, ◌∙◌, refl, sym, ap, inl, inr, List, [], ◌∷◌, ◌++◌, length,
  get_elem?, some, ok, arith, take, drop, Bool-cases, leb, ◌==◌, if◌then◌else◌, slice-append_within,
}
use virtio_accel.SplitQueue.Chain.{mapped, Descriptor, DescriptorSpan}
use virtio_accel.SplitQueue.Copy.{
  ByteStore, read_buffer, checked_range, locate, span_start, copy_from_spans, min,
}

-- Spans from `start` on whose descriptors are mapped to cells that hold these bytes, and which end
-- where the bytes so far do.
abbrev pub Laid : ByteStore → List Descriptor → ℕ → List DescriptorSpan → List (List ℕ) → Type 0
Laid store ds start [] [] = Unit {0}
Laid store ds start [] (g ∷ gs) = ⊥
Laid store ds start (span ∷ spans) [] = ⊥
Laid store ds start (span ∷ spans) (g ∷ gs) =
    ((d : Descriptor) × (cell : ℕ) × (get_elem? ds span.descriptor ≡ some d)
      × (d.buffer ≡ mapped cell (length g))
      × (store cell ≡ g))
    × (span.end ≡ start + length g)
    × Laid store ds span.end spans gs

-- All the bytes, one descriptor after the other.
abbrev pub joined : List (List ℕ) → List ℕ
joined [] = []
joined (g ∷ gs) = g ++ joined gs

module _ (store : ByteStore) (ds : List Descriptor) (all : List DescriptorSpan) (offset count : ℕ)
    (word : offset + count < 2 ^ 64) where
  -- One round of the loop within a descriptor.
  locate-ok :
      (start index : ℕ) (span : DescriptorSpan) (copied : ℕ)
      → span_start all index ≡ start
      → start ≤ offset + copied
      → offset + copied ≤ span.end
      → copied ≤ count
      → locate all index span offset copied count
        ≡ ok (offset + copied - start, min (span.end - (offset + copied)) (count - copied))
  unfolding locate
  locate-ok start index span copied here low high part = ground (arith, here)

  read_buffer-ok :
      (cell : ℕ) (g : List ℕ) (at n : ℕ)
      → store cell ≡ g
      → at + n ≤ length g
      → at + n < 2 ^ 64
      → read_buffer store (mapped cell (length g)) at n ≡ ok (take n (drop at g))
  unfolding read_buffer checked_range
  read_buffer-ok cell g at n held inside small = ground arith

  -- One round of the loop of `copy_from_descriptors`.
  copy_from_spans-round :
      (start index : ℕ) (span : DescriptorSpan) (rest : List DescriptorSpan) (copied : ℕ)
      (target : List ℕ) (d : Descriptor) (cell : ℕ) (g : List ℕ) (n : ℕ)
      → span_start all index ≡ start
      → get_elem? ds span.descriptor ≡ some d
      → d.buffer ≡ mapped cell (length g)
      → store cell ≡ g
      → span.end ≡ start + length g
      → start ≤ offset + copied
      → offset + copied ≤ span.end
      → copied ≤ count
      → n ≡ min (span.end - (offset + copied)) (count - copied)
      → copy_from_spans store ds all offset count index (span ∷ rest) copied target ≡ (
          if copied + n == count
          then ok (target ++ take n (drop (offset + copied - start) g))
          else copy_from_spans store ds all offset count
              (suc index)
              rest
              (copied + n)
              (target ++ take n (drop (offset + copied - start) g)))
  unfolding copy_from_spans
  copy_from_spans-round start index span rest copied target d cell g n here found is_mapped held
        ends low high part moved =
      rw (copy_from_spans, found, located, is_mapped, chunk) refl
    where
      located : locate all index span offset copied count ≡ ok (offset + copied - start, n)
      located =
          locate-ok start index span copied here low high part
          ∙ ap (λ k. ok (offset + copied - start, k)) (sym moved)

      fits : (offset + copied - start + n ≤ length g) × (n ≤ count - copied)
      fits = elim (Bool-cases (leb (span.end - (offset + copied)) (count - copied))) [
        | inl e ↦ ground arith
        | inr e ↦ ground arith
      ]

      chunk :
          read_buffer store (mapped cell (length g)) (offset + copied - start) n
          ≡ ok (take n (drop (offset + copied - start) g))
      chunk =
          read_buffer-ok cell g (offset + copied - start) n held fits.0
            (omega (arith, fits.0, fits.1, ends))

  -- A round that has all the bytes that are left.
  pub copy_from_spans-last :
      (rest : List DescriptorSpan) (segs : List (List ℕ)) (start index : ℕ) (span : DescriptorSpan)
      (g : List ℕ) (copied : ℕ) (target : List ℕ)
      → span_start all index ≡ start
      → Laid store ds start (span ∷ rest) (g ∷ segs)
      → start ≤ offset + copied
      → offset + count ≤ start + length g
      → copied < count
      → copy_from_spans store ds all offset count index (span ∷ rest) copied target
        ≡ ok (target ++ take (count - copied) (drop (offset + copied - start) (g ++ joined segs)))
  copy_from_spans-last rest segs start index span g copied target here
        ((d, cell, found, is_mapped, held), ends, laid) low fits part =
      copy_from_spans-round start index span rest copied target d cell g (count - copied) here found
        is_mapped held ends low (omega (arith, ends)) (omega arith) (ground (arith, ends))
      ∙ is_done
      ∙ ap (λ r. ok (target ++ r))
          (sym (
            slice-append_within (offset + copied - start) (count - copied) g (joined segs)
              (omega arith)))
    where
      is_done :
          (if copied + (count - copied) == count
            then ok (target ++ take (count - copied) (drop (offset + copied - start) g))
            else copy_from_spans store ds all offset count
                (suc index)
                rest
                (copied + (count - copied))
                (target ++ take (count - copied) (drop (offset + copied - start) g)))
          ≡ ok (target ++ take (count - copied) (drop (offset + copied - start) g))
      is_done = ground arith

  -- A round that ends with its descriptor, when bytes are left to copy.
  pub copy_from_spans-next :
      (rest : List DescriptorSpan) (segs : List (List ℕ)) (start index : ℕ) (span : DescriptorSpan)
      (g : List ℕ) (copied : ℕ) (target : List ℕ)
      → span_start all index ≡ start
      → Laid store ds start (span ∷ rest) (g ∷ segs)
      → start ≤ offset + copied
      → offset + copied ≤ span.end
      → span.end < offset + count
      → copy_from_spans store ds all offset count index (span ∷ rest) copied target
        ≡ copy_from_spans store ds all offset count
            (suc index)
            rest
            (span.end - offset)
            (target ++ take (span.end - (offset + copied)) (drop (offset + copied - start) g))
  copy_from_spans-next rest segs start index span g copied target here
        ((d, cell, found, is_mapped, held), ends, laid) low high more =
      copy_from_spans-round start index span rest copied target d cell g
        (span.end - (offset + copied)) here found is_mapped held ends low high (omega arith)
        (ground arith)
      ∙ goes_on
    where
      goes_on :
          (if copied + (span.end - (offset + copied)) == count
            then ok
                (target ++ take (span.end - (offset + copied)) (drop (offset + copied - start) g))
            else copy_from_spans store ds all offset count
                (suc index)
                rest
                (copied + (span.end - (offset + copied)))
                (target ++ take (span.end - (offset + copied)) (drop (offset + copied - start) g)))
          ≡ copy_from_spans store ds all offset count
              (suc index)
              rest
              (span.end - offset)
              (target ++ take (span.end - (offset + copied)) (drop (offset + copied - start) g))
      goes_on = ground (
        arith,
        ap
            (λ k.
              copy_from_spans store ds all offset count (suc index) rest k
                (target ++ take (span.end - (offset + copied)) (drop (offset + copied - start) g)))
            (let e : copied + (span.end - (offset + copied)) ≡ span.end - offset = omega arith in
              e),
      )
