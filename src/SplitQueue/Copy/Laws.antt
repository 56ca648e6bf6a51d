-- ===== src/SplitQueue/Copy/Laws.antt =====
-- What crates/virtio-accel-split-queue/src/chain.rs reads across descriptors is a slice of the bytes of
-- the descriptors, one after the other.
use virtio_accel.Prelude.{
  ℕ, ◌+◌, ◌-◌, ◌^◌, ◌≤◌, ◌<◌, ◌≡◌, ◌∙◌, refl, sym, ap, inl, inr, Bool, true, false, not, List, [],
  length, ok, err, arith, take, drop, Bool-cases, ==_cases, ltb, leb, ◌==◌, if◌then◌else◌,
}
use virtio_accel.SplitQueue.Chain.{DescriptorSpan, ChainData, analysis_spans, DeviceChain, side_len}
use virtio_accel.Transport.Bytes.{out_of_bounds, reset}
use virtio_accel.SplitQueue.Copy.{
  ByteStore, source_read_at, checked_logical_range, copy_from_descriptors, span_start,
  copy_from_spans, first_touched_span,
}
use virtio_accel.SplitQueue.Copy.Round.{Laid, joined}
use virtio_accel.SplitQueue.Copy.Loop.{copy_from_spans-first}

-- Reading bytes within a side of a chain whose descriptors are mapped gives the slice of the bytes of
-- its descriptors, one after the other, wherever the descriptors' borders are.
pub copy_from_descriptors-joined :
    (store : ByteStore) (chain_data : ChainData) (writable : Bool) (segs : List (List ℕ))
    (offset count : ℕ)
    → Laid store chain_data.descriptors 0 (analysis_spans chain_data.analysis writable) segs
    → offset + count ≤ length (joined segs)
    → offset + count < 2 ^ 64
    → copy_from_descriptors store chain_data writable offset count
      ≡ ok (take count (drop offset (joined segs)))
unfolding copy_from_descriptors span_start
copy_from_descriptors-joined store chain_data writable segs offset count laid total word =
    elim (==_cases count 0) [
      | inl e ↦
          rw (copy_from_descriptors, (let t : (count == 0) ≡ true = ground arith in t))
            (ap (λ k. ok (take k (drop offset (joined segs)))) (sym e))
      | inr e ↦
          rw (copy_from_descriptors, e)
            (ap
                (λ k.
                  copy_from_spans store chain_data.descriptors spans offset count k
                    (drop first spans) 0 [])
                (let e : first ≡ 0 + first = omega arith in e)
              ∙ copy_from_spans-first store chain_data.descriptors spans offset count word spans
                  segs 0 0 refl refl laid (omega arith) (ground arith) (omega (arith, total))
              ∙ ap (λ k. ok (take count (drop k (joined segs))))
                  (let e : offset - 0 ≡ offset = omega arith in e))
    ]
  where
    spans : List DescriptorSpan
    spans = analysis_spans chain_data.analysis writable

    first : ℕ
    first = first_touched_span spans offset

-- A device reads the readable side of a chain as one buffer of bytes: `SplitSource::read_at` answers
-- `Reset` when the epoch has moved on, `OutOfBounds` past the side's length, and the slice otherwise,
-- when the readable descriptors are mapped to the cells that hold those bytes.
pub source_read_at-joined :
    (store : ByteStore) (chain : DeviceChain) (segs : List (List ℕ)) (current offset count : ℕ)
    → Laid store chain.chain_data.descriptors 0
        (analysis_spans chain.chain_data.analysis false)
        segs
    → side_len chain.chain_data false ≡ length (joined segs)
    → length (joined segs) < 2 ^ 64
    → source_read_at store chain current offset count ≡ (
        if not (current == chain.id.epoch)
        then err reset
        else if ltb (length (joined segs)) (offset + count)
        then err out_of_bounds
        else ok (take count (drop offset (joined segs))))
unfolding source_read_at checked_logical_range
source_read_at-joined store chain segs current offset count laid side small =
    elim (Bool-cases (leb (offset + count) (length (joined segs)))) [
      | inl e ↦ ground (
        arith,
        copy_from_descriptors-joined store chain.chain_data false segs offset count laid
            (ground arith) (ground arith),
      )
      | inr e ↦ ground arith
    ]
