-- ===== src/SplitQueue/Copy.antt =====
-- The byte access of descriptor chains in crates/virtio-accel-split-queue/src/chain.rs. The bytes are in
-- a store of cells; no borrow outlives a call, so none is refused as busy. A span names a descriptor of
-- its chain, so that the code never panics on the lookup.
mod Round
mod Loop
pub mod Laws
mod Tests
use virtio_accel.Prelude.{
  ℕ, zero, suc, ◌+◌, ◌-◌, ◌%◌, ◌^◌, Bool, true, false, not, ltb, leb, ◌==◌, if◌then◌else◌, List, [],
  ◌∷◌, ◌++◌, length, get_elem?, Option, none, some, Result, ok, err, ◌>>=◌, ◌>>◌, reject_if, take,
  drop,
}
use virtio_accel.Transport.Bytes.{ByteAccessError, out_of_bounds, reset, access}
use virtio_accel.SplitQueue.Chain.{
  BufferStorage, mapped, unmapped, Descriptor, DescriptorSpan, ChainData, analysis_spans, side_len,
  DeviceChain,
}

abbrev pub ByteStore : Type 0
ByteStore = ℕ → List ℕ

abbrev pub store_cell : ByteStore → ℕ → List ℕ → ByteStore
store_cell store cell bytes = λ c. if c == cell then bytes else store c

-- `checked_range`: the start of a range that ends within `len`, on a 64-bit target.
unfoldable pub checked_range : ℕ → ℕ → ℕ → Result ByteAccessError ℕ
checked_range offset bytes len =
    if ltb (offset + bytes) (2 ^ 64)
    then (if leb (offset + bytes) len then ok offset else err out_of_bounds)
    else err out_of_bounds

unfoldable pub checked_logical_range : ℕ → ℕ → ℕ → Result ByteAccessError (Unit {0})
checked_logical_range offset bytes len = do
  reject_if (not (ltb (offset + bytes) (2 ^ 64))) out_of_bounds
  reject_if (ltb len (offset + bytes)) out_of_bounds
  ok tt

-- `BufferStorage::read_at` and `write_at`.
unfoldable pub read_buffer : ByteStore → BufferStorage → ℕ → ℕ → Result ByteAccessError (List ℕ)
unfolding checked_range
read_buffer store (mapped cell bytes) offset count = do
  start ← checked_range offset count bytes
  ok (take count (drop start (store cell)))
read_buffer store (unmapped bytes) offset count = err access

unfoldable pub write_buffer :
    ByteStore → BufferStorage → ℕ → List ℕ → Result ByteAccessError ByteStore
unfolding checked_range
write_buffer store (mapped cell bytes) offset source = do
  start ← checked_range offset (length source) bytes
  ok (
      store_cell store cell
        (take start (store cell) ++ source ++ drop (start + length source) (store cell)))
write_buffer store (unmapped bytes) offset source = err access

-- `first_touched_span`: the partition point, which for ascending ends is the number of spans in front
-- that end at or before the offset.
unfoldable pub first_touched_span : List DescriptorSpan → ℕ → ℕ
first_touched_span [] offset = 0
first_touched_span (span ∷ spans) offset =
    let behind = suc (first_touched_span spans offset) in if leb span.end offset then behind else 0

-- `index.checked_sub(1).map_or(0, |prior| spans[prior].end)`.
unfoldable pub span_start : List DescriptorSpan → ℕ → ℕ
span_start spans zero = 0
span_start spans (suc prior) = elim (get_elem? spans prior) [ none ↦ 0 | some span ↦ span.end ]

abbrev pub min : ℕ → ℕ → ℕ
min a b = if leb a b then a else b

-- What one round of either loop computes: where it is in the descriptor and how many bytes it moves.
unfoldable pub locate :
    List DescriptorSpan → ℕ → DescriptorSpan → ℕ → ℕ → ℕ → Result ByteAccessError (ℕ × ℕ)
unfolding span_start
locate spans index span offset copied count = do
  let logical_offset = (offset + copied) % 2 ^ 64
  reject_if (ltb logical_offset (span_start spans index)) out_of_bounds
  reject_if (ltb span.end logical_offset) out_of_bounds
  ok (logical_offset - span_start spans index, min (span.end - logical_offset) (count - copied))

-- The loop of `copy_from_descriptors` over the spans that are left; `target` holds what is copied.
unfoldable pub copy_from_spans :
    ByteStore
    → List Descriptor
    → List DescriptorSpan
    → ℕ
    → ℕ
    → ℕ
    → List DescriptorSpan
    → ℕ
    → List ℕ
    → Result ByteAccessError (List ℕ)
unfolding locate read_buffer
copy_from_spans store descriptors spans offset count index [] copied target = err out_of_bounds
copy_from_spans store descriptors spans offset count index (span ∷ rest) copied target =
    elim (get_elem? descriptors span.descriptor) [
      | none ↦ err out_of_bounds
      | some d ↦ locate spans index span offset copied count >>= λ place.
          read_buffer store d.buffer place.0 place.1 >>= λ chunk.
          let more =
            copy_from_spans store descriptors spans offset count (suc index) rest (copied + place.1)
              (target ++ chunk) in
          if copied + place.1 == count then ok (target ++ chunk) else more
    ]

unfoldable pub copy_from_descriptors :
    ByteStore → ChainData → Bool → ℕ → ℕ → Result ByteAccessError (List ℕ)
unfolding copy_from_spans first_touched_span analysis_spans
copy_from_descriptors store chain_data writable offset count =
    let spans = analysis_spans chain_data.analysis writable in
    let first = first_touched_span spans offset in
    if count == 0
    then ok []
    else copy_from_spans store chain_data.descriptors spans offset count first (drop first spans) 0
        []

-- The loop of `copy_to_descriptors`; an error leaves the bytes that are written before it.
unfoldable pub copy_to_spans :
    List Descriptor
    → List DescriptorSpan
    → ℕ
    → List ℕ
    → ℕ
    → List DescriptorSpan
    → ℕ
    → ByteStore
    → ByteStore × Result ByteAccessError (Unit {0})
unfolding locate write_buffer
copy_to_spans descriptors spans offset source index [] copied store = (store, err out_of_bounds)
copy_to_spans descriptors spans offset source index (span ∷ rest) copied store =
    elim (get_elem? descriptors span.descriptor) [
      | none ↦ (store, err out_of_bounds)
      | some d ↦ elim (locate spans index span offset copied (length source)) [
        | err e ↦ (store, err e)
        | ok (at, n) ↦ elim (write_buffer store d.buffer at (take n (drop copied source))) [
          | err e ↦ (store, err e)
          | ok store' ↦
              let more =
                copy_to_spans descriptors spans offset source (suc index) rest (copied + n)
                  store' in
              if copied + n == length source then (store', ok tt) else more
        ]
      ]
    ]

unfoldable pub copy_to_descriptors :
    ByteStore → ChainData → Bool → ℕ → List ℕ → ByteStore × Result ByteAccessError (Unit {0})
unfolding copy_to_spans first_touched_span analysis_spans
copy_to_descriptors store chain_data writable offset source =
    let spans = analysis_spans chain_data.analysis writable in
    let first = first_touched_span spans offset in
    if length source == 0
    then (store, ok tt)
    else copy_to_spans chain_data.descriptors spans offset source first (drop first spans) 0 store

-- `DriverChainBuffer::read_device_writable` and `write_device_readable`.
unfoldable pub read_device_writable :
    ByteStore → ChainData → ℕ → ℕ → Result ByteAccessError (List ℕ)
unfolding checked_logical_range side_len copy_from_descriptors
read_device_writable store chain_data offset count = do
  checked_logical_range offset count (side_len chain_data true)
  copy_from_descriptors store chain_data true offset count

unfoldable pub write_device_readable :
    ByteStore → ChainData → ℕ → List ℕ → ByteStore × Result ByteAccessError (Unit {0})
unfolding checked_logical_range side_len copy_to_descriptors
write_device_readable store chain_data offset source =
    elim (checked_logical_range offset (length source) (side_len chain_data false)) [
      | err e ↦ (store, err e)
      | ok _ ↦ copy_to_descriptors store chain_data false offset source
    ]

-- `SplitSource::read_at` and `SplitSink::write_at`, where the shared epoch is `current`.
unfoldable pub source_read_at :
    ByteStore → DeviceChain → ℕ → ℕ → ℕ → Result ByteAccessError (List ℕ)
unfolding checked_logical_range side_len copy_from_descriptors
source_read_at store chain current offset count = do
  reject_if (not (current == chain.id.epoch)) reset
  checked_logical_range offset count (side_len chain.chain_data false)
  copy_from_descriptors store chain.chain_data false offset count

unfoldable pub sink_write_at :
    ByteStore → DeviceChain → ℕ → ℕ → List ℕ → ByteStore × Result ByteAccessError (Unit {0})
unfolding checked_logical_range side_len copy_to_descriptors
sink_write_at store chain current offset source =
    if not (current == chain.id.epoch)
    then (store, err reset)
    else elim (checked_logical_range offset (length source) (side_len chain.chain_data true)) [
      | err e ↦ (store, err e)
      | ok _ ↦ copy_to_descriptors store chain.chain_data true offset source
    ]
