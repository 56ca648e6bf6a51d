-- ===== src/SplitQueue/Copy/Tests.antt =====
-- The bytes of a chain of two readable descriptors and a writable one.
use virtio_accel.Prelude.{◌≡◌, false, [], ◌∷◌, ok, err, refl, arith}
use virtio_accel.Transport.Bytes.{out_of_bounds, reset}
use virtio_accel.Transport.Regions.{readable, writable}
use virtio_accel.SplitQueue.Chain.{
  mapped, ChainData, DeviceChain, valid, analysis_spans, side_len, analysis_validation,
}
use virtio_accel.SplitQueue.Copy.{
  ByteStore, store_cell, source_read_at, sink_write_at, checked_logical_range, copy_to_descriptors,
  copy_to_spans, copy_from_descriptors, copy_from_spans, first_touched_span, locate, span_start,
  read_buffer, write_buffer, checked_range, read_device_writable, write_device_readable,
}
use virtio_accel.SplitQueue.Copy.Laws.{source_read_at-joined}

abbrev request_data : ChainData
request_data = record {
  descriptors =
      (record { buffer = mapped 0 3; flags = 1; next = 1 })
      ∷ (record { buffer = mapped 1 2; flags = 1; next = 2 })
      ∷ (record { buffer = mapped 2 2; flags = 2; next = 0 })
      ∷ [];
  analysis =
      valid
        (record {
          descriptor_count = 3;
          readable_descriptors = 2;
          writable_descriptors = 1;
          readable_bytes = 5;
          writable_bytes = 2;
        })
        ((record { descriptor = 0; end = 3 })
          ∷ (record { descriptor = 1; end = 5 })
          ∷ (record { descriptor = 2; end = 2 })
          ∷ [])
        (readable 3 ∷ readable 2 ∷ writable 2 ∷ []);
}

abbrev store : ByteStore
store = store_cell (store_cell (λ c. 0 ∷ 0 ∷ []) 0 (7 ∷ 8 ∷ 9 ∷ [])) 1 (4 ∷ 5 ∷ [])

across_border : copy_from_descriptors store request_data false 2 2 ≡ ok (9 ∷ 4 ∷ [])
unfolding copy_from_descriptors copy_from_spans first_touched_span locate span_start read_buffer
    checked_range analysis_spans
across_border = refl

past_end : read_device_writable store request_data 1 2 ≡ err out_of_bounds
unfolding read_device_writable checked_logical_range side_len analysis_validation
past_end = refl

written_across : (write_device_readable store request_data 1 (1 ∷ 2 ∷ 3 ∷ [])).1 ≡ ok tt
unfolding write_device_readable checked_logical_range side_len analysis_validation
    copy_to_descriptors copy_to_spans first_touched_span locate span_start write_buffer
    checked_range analysis_spans
written_across = refl

written_bytes :
    copy_from_descriptors
      (write_device_readable store request_data 1 (1 ∷ 2 ∷ 3 ∷ [])).0
      request_data
      false
      0
      5
    ≡ ok (7 ∷ 1 ∷ 2 ∷ 3 ∷ 5 ∷ [])
unfolding write_device_readable checked_logical_range side_len analysis_validation
    copy_to_descriptors copy_to_spans first_touched_span locate span_start write_buffer
    checked_range analysis_spans copy_from_descriptors copy_from_spans read_buffer
written_bytes = refl

abbrev chain : DeviceChain
chain = record {
  id = record { epoch = 3; token = 0 };
  chain_data = request_data;
  max_descriptors = 3;
}

stale : source_read_at store chain 4 0 1 ≡ err reset
unfolding source_read_at
stale = refl

sink_full : (sink_write_at store chain 3 1 (1 ∷ 2 ∷ [])).1 ≡ err out_of_bounds
unfolding sink_write_at checked_logical_range side_len analysis_validation
sink_full = refl

side : side_len request_data false ≡ 5
unfolding side_len analysis_validation
side = refl

source_read_at-joined_example : source_read_at store chain 3 2 2 ≡ ok (9 ∷ 4 ∷ [])
unfolding analysis_spans
source_read_at-joined_example =
    source_read_at-joined store chain ((7 ∷ 8 ∷ 9 ∷ []) ∷ (4 ∷ 5 ∷ []) ∷ []) 3 2 2
      (
        ((record { buffer = mapped 0 3; flags = 1; next = 1 }), 0, refl, refl, refl),
        refl,
        (((record { buffer = mapped 1 2; flags = 1; next = 2 }), 1, refl, refl, refl), refl, tt),
      )
      side (omega arith)
