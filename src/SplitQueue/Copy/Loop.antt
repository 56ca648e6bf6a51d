-- ===== src/SplitQueue/Copy/Loop.antt =====
-- The loop of `copy_from_descriptors` in crates/virtio-accel-split-queue/src/chain.rs, over descriptors
-- that are mapped.
use mathlib.Core.List.{append_assoc}
use virtio_accel.Prelude.{
  ℕ, suc, ◌+◌, ◌-◌, ◌^◌, ◌≤◌, ◌<◌, ◌≡◌, ◌∙◌, refl, sym, ap, inl, inr, List, [], ◌∷◌, ◌++◌, length,
  get_elem?, some, ok, arith, take, drop, Bool-cases, leb, length-append, drop-append_past,
  drop-cons, slice-append_across,
}
use virtio_accel.SplitQueue.Chain.{Descriptor, DescriptorSpan}
use virtio_accel.SplitQueue.Copy.{ByteStore, span_start, copy_from_spans, first_touched_span}
use virtio_accel.SplitQueue.Copy.Round.{Laid, joined, copy_from_spans-last, copy_from_spans-next}

module _ (store : ByteStore) (ds : List Descriptor) (all : List DescriptorSpan) (offset count : ℕ)
    (word : offset + count < 2 ^ 64) where
  span_start-suc :
      (prior : ℕ) (span : DescriptorSpan)
      → get_elem? all prior ≡ some span
      → span_start all (suc prior) ≡ span.end
  unfolding span_start
  span_start-suc prior span found = rw (span_start, found) refl

  -- The loop from a descriptor it starts within.
  copy_from_spans-rest :
      (rest : List DescriptorSpan) (segs : List (List ℕ)) (start index : ℕ) (span : DescriptorSpan)
      (g : List ℕ) (copied : ℕ) (target : List ℕ)
      → drop index all ≡ span ∷ rest
      → span_start all index ≡ start
      → Laid store ds start (span ∷ rest) (g ∷ segs)
      → start ≤ offset + copied
      → offset + copied ≤ start + length g
      → copied < count
      → offset + count ≤ start + length (g ++ joined segs)
      → copy_from_spans store ds all offset count index (span ∷ rest) copied target
        ≡ ok (target ++ take (count - copied) (drop (offset + copied - start) (g ++ joined segs)))
  copy_from_spans-rest [] [] start index span g copied target at here laid low high part total =
      copy_from_spans-last store ds all offset count word [] [] start index span g copied target
        here laid low (omega (arith, length-append g [])) part
  copy_from_spans-rest [] (g' ∷ segs) start index span g copied target at here (first, ends, bad)
        low high part total =
      absurd bad
  copy_from_spans-rest (next ∷ rest) [] start index span g copied target at here (first, ends, bad)
        low high part total =
      absurd bad
  copy_from_spans-rest (next ∷ rest) (g' ∷ segs) start index span g copied target at here
        (first, ends, laid) low high part total =
      elim (Bool-cases (leb (offset + count) (start + length g))) [
        | inl e ↦
            copy_from_spans-last store ds all offset count word (next ∷ rest) (g' ∷ segs) start
              index span g copied target here (first, ends, laid) low (ground arith) part
        | inr e ↦
            let more : start + length g < offset + count = ground arith in
            copy_from_spans-next store ds all offset count word (next ∷ rest) (g' ∷ segs) start
              index span g copied target here (first, ends, laid) low (omega (arith, ends))
              (omega (arith, ends, more))
            ∙ copy_from_spans-rest rest segs span.end (suc index) next g' (span.end - offset)
                (target ++ take (span.end - (offset + copied)) (drop (offset + copied - start) g))
                (drop-cons index all at).1 (span_start-suc index span (drop-cons index all at).0)
                laid (omega (arith, ends, high, part)) (omega (arith, ends, high, more))
                (omega (arith, ends, more))
                (omega (arith, ends, total, length-append g (joined (g' ∷ segs))))
            ∙ ap ok (append_assoc target _ _ ∙ ap (λ r. target ++ r) (across more))
      ]
    where
      across :
          start + length g < offset + count
          → take (span.end - (offset + copied)) (drop (offset + copied - start) g)
              ++ take
                  (count - (span.end - offset))
                  (drop (offset + (span.end - offset) - span.end) (joined (g' ∷ segs)))
            ≡ take (count - copied) (drop (offset + copied - start) (g ++ joined (g' ∷ segs)))
      across more =
          ap
            (λ k.
              take (span.end - (offset + copied)) (drop (offset + copied - start) g)
              ++ take (count - (span.end - offset)) (drop k (joined (g' ∷ segs))))
            (let e : offset + (span.end - offset) - span.end ≡ 0 = omega (arith, ends, high) in e)
          ∙ sym (
              slice-append_across (offset + copied - start) (span.end - (offset + copied))
                (count - (span.end - offset)) g (joined (g' ∷ segs))
                (omega (arith, ends, high, low)))
          ∙ ap (λ k. take k (drop (offset + copied - start) (g ++ joined (g' ∷ segs))))
              (let e : span.end - (offset + copied) + (count - (span.end - offset))
                    ≡ count - copied =
                  omega (arith, ends, high, more, part) in
                e)

  -- The spans that end at or before the offset are skipped.
  pub copy_from_spans-first :
      (rest : List DescriptorSpan) (segs : List (List ℕ)) (start index : ℕ)
      → drop index all ≡ rest
      → span_start all index ≡ start
      → Laid store ds start rest segs
      → start ≤ offset
      → 0 < count
      → offset + count ≤ start + length (joined segs)
      → copy_from_spans store ds all offset count
          (index + first_touched_span rest offset)
          (drop (first_touched_span rest offset) rest)
          0
          []
        ≡ ok (take count (drop (offset - start) (joined segs)))
  unfolding first_touched_span
  copy_from_spans-first [] [] start index at here laid low some_left total = absurd (omega arith)
  copy_from_spans-first [] (g ∷ segs) start index at here laid low some_left total = absurd laid
  copy_from_spans-first (span ∷ rest) [] start index at here laid low some_left total = absurd laid
  copy_from_spans-first (span ∷ rest) (g ∷ segs) start index at here laid low some_left total =
      elim (Bool-cases (leb span.end offset)) [
        | inl e ↦
            let past : span.end ≤ offset = ground arith in
            rw (first_touched_span, e)
              (renamed span rest index
                ∙ copy_from_spans-first rest segs span.end (suc index) (drop-cons index all at).1
                    (span_start-suc index span (drop-cons index all at).0) laid.2 past some_left
                    (omega (arith, laid.1, total, length-append g (joined segs)))
                ∙ ap (λ r. ok (take count r)) (after past))
        | inr e ↦
            rw (first_touched_span, e)
              (ap (λ k. copy_from_spans store ds all offset count k (span ∷ rest) 0 [])
                  (add-zero index)
                ∙ copy_from_spans-rest rest segs start index span g 0 [] at here laid (omega arith)
                    (ground (arith, laid.1)) some_left total
                ∙ ap (λ k. ok (take k (drop (offset + 0 - start) (g ++ joined segs))))
                    (sub-zero count)
                ∙ ap (λ k. ok (take count (drop (k - start) (g ++ joined segs)))) (add-zero offset))
      ]
    where
      add-zero : (n : ℕ) → n + 0 ≡ n
      add-zero n = omega arith

      sub-zero : (n : ℕ) → n - 0 ≡ n
      sub-zero n = omega arith

      renamed :
          (span : DescriptorSpan) (rest : List DescriptorSpan) (index : ℕ)
          → copy_from_spans store ds all offset count
              (index + suc (first_touched_span rest offset))
              (drop (first_touched_span rest offset) rest)
              0
              []
            ≡ copy_from_spans store ds all offset count
                (suc index + first_touched_span rest offset)
                (drop (first_touched_span rest offset) rest)
                0
                []
      renamed span rest index =
          ap
            (λ k.
              copy_from_spans store ds all offset count k
                (drop (first_touched_span rest offset) rest) 0 [])
            (let e : index + suc (first_touched_span rest offset)
                  ≡ suc index + first_touched_span rest offset =
                omega arith in
              e)

      after :
          span.end ≤ offset
          → drop (offset - span.end) (joined segs) ≡ drop (offset - start) (g ++ joined segs)
      after past =
          sym (drop-append_past (offset - span.end) g (joined segs))
          ∙ ap (λ k. drop k (g ++ joined segs))
              (let e : length g + (offset - span.end) ≡ offset - start =
                  omega (arith, laid.1, past) in
                e)
