-- ===== src/SplitQueue/Trace/Tests.antt =====
-- A run of a small split queue: two chains are published, one is completed, and the queue is reset.
use virtio_accel.Prelude.{
  ℕ, ◌≡◌, ◌≢◌, Bool, true, false, List, [], ◌∷◌, ◌++◌, length, sum_by, none, some, refl, arith, ok,
  err, map_ok,
}
use virtio_accel.Transport.{
  QueueError, PublishErrorKind, ReclaimedChain, ChainError, unconfigured, new_size, power_below,
  new_state, notify,
}
use virtio_accel.Transport.Regions.{
  validate_chain_layout, scan_regions, scan_region, scan_direction, readable, writable,
}
use virtio_accel.SplitQueue.Chain.{
  Descriptor, mapped, DriverChain, DeviceChain, DescriptorSpan, valid, raw, analyze_chain,
  zeroed_u16_box, walk, check_descriptor, push_descriptor, conclude, is_mapped, buffer_len, io,
  start_walk, out_of_fuel, analysis_validation, side_len, validation, chain_descriptor_count,
  queue_head_slot,
}
use virtio_accel.SplitQueue.Ring.{
  corrupt_state, new_storage, ring_slot, allocate_descriptors, take_slots, find_free, own_slots,
  set_heads, wrapping_descriptor_add,
}
use virtio_accel.SplitQueue.Queue.{SplitQueue, new_queue}
use virtio_accel.SplitQueue.Queue
use virtio_accel.SplitQueue.Queue.Transfer
use virtio_accel.SplitQueue.Publish.{IsChain}
use virtio_accel.SplitQueue.Walk.{names_descriptor, walk-ends}
use virtio_accel.SplitQueue.Once.{raw-IsChain, raw-once}
use virtio_accel.SplitQueue.Trace.{Op, step, run, begin}
use virtio_accel.SplitQueue.Trace.Inv.{TraceInv}
use virtio_accel.SplitQueue.Trace.Runs.{run-TraceInv}
use virtio_accel.SplitQueue.Trace.Order.{
  pop_available-next, pop_used-next, complete-outcome, publish_inner-refused,
}
use virtio_accel.SplitQueue.Trace.Resets.{driver_reset-returns, reset-stale, reset_by}
use virtio_accel.SplitQueue.Trace.Views.{returned}
use virtio_accel.SplitQueue.Trace.Sent.{run-SentInv}
use virtio_accel.SplitQueue.Copy.{ByteStore, source_read_at, sink_write_at}
use virtio_accel.Transport.Bytes.{reset}

abbrev grant : ℕ → Bool
grant n = true

-- A request of three bytes and a response of five.
abbrev descriptors : List Descriptor
descriptors =
    (record { buffer = mapped 0 3; flags = 1; next = 1 })
    ∷ (record { buffer = mapped 1 5; flags = 2; next = 0 })
    ∷ []

abbrev spans : List DescriptorSpan
spans = (record { descriptor = 0; end = 3 }) ∷ (record { descriptor = 1; end = 5 }) ∷ []

abbrev chain : DriverChain
chain = record {
  chain_data = record {
    descriptors = descriptors;
    analysis =
        valid
          (record {
            descriptor_count = 2;
            readable_descriptors = 1;
            writable_descriptors = 1;
            readable_bytes = 3;
            writable_bytes = 5;
          })
          spans (readable 3 ∷ writable 5 ∷ []);
  };
  slots = 1 ∷ 1 ∷ [];
  head = 0;
}

raw-chain : raw grant descriptors 0 ≡ ok chain
unfolding raw zeroed_u16_box analyze_chain walk check_descriptor push_descriptor conclude is_mapped
    buffer_len validate_chain_layout scan_regions scan_region scan_direction
raw-chain = refl

raw-once_example : (length spans ≡ 2) × (sum_by (names_descriptor 1) spans ≡ 1)
raw-once_example = raw-once grant descriptors 0 raw-chain 1 refl (omega arith)

walk-ends_example : (walk 3 descriptors 0 (start_walk (0 ∷ 0 ∷ []))).1 ≢ out_of_fuel
walk-ends_example = walk-ends 3 descriptors 0 (start_walk (0 ∷ 0 ∷ [])) (omega arith)

abbrev chain_made : IsChain chain
chain_made = raw-IsChain grant descriptors 0 raw-chain

abbrev fresh : SplitQueue
fresh = record {
  state = record { max_size = 4; size = none; ready = false; epoch = 1 };
  max_chain_descriptors = 2;
  current_epoch = 1;
  storage = none;
  available_notifications = true;
  used_notifications = true;
}

new_queue-fresh : new_queue 4 2 ≡ ok fresh
unfolding new_queue unconfigured
new_queue-fresh = refl

four : new_size 4 ≡ some 4
unfolding new_size power_below
four = refl

-- Two chains are published, both are popped, and one is completed.
abbrev calls : List Op
calls =
    Op.configure grant 4 4 four
    ∷ Op.set_ready true
    ∷ Op.publish chain chain_made
    ∷ Op.publish chain chain_made
    ∷ Op.pop_available
    ∷ []

run-TraceInv_example : TraceInv (run calls (begin fresh))
run-TraceInv_example = run-TraceInv 4 2 calls new_queue-fresh

published-calls : (run calls (begin fresh)).published ≡ 0 ∷ 2 ∷ []
unfolding run step Queue.configure new_storage new_state Queue.set_ready Transfer.publish
    Transfer.publish_inner Transfer.check_chain validation analysis_validation
    chain_descriptor_count Transfer.publish_storage allocate_descriptors take_slots find_free
    own_slots set_heads queue_head_slot Transfer.enqueue ring_slot wrapping_descriptor_add
    Transfer.pop_available Transfer.pop_available_storage
published-calls = refl

pop_available-next_example :
    (Transfer.pop_available (run calls (begin fresh)).queue).1
    ≡ ok (
        some (record {
          id = record { epoch = 1; token = 2 };
          chain_data = chain.chain_data;
          max_descriptors = 2;
        }))
unfolding run step Queue.configure new_storage new_state Queue.set_ready Transfer.publish
    Transfer.publish_inner Transfer.check_chain validation analysis_validation
    chain_descriptor_count Transfer.publish_storage allocate_descriptors take_slots find_free
    own_slots set_heads queue_head_slot Transfer.enqueue ring_slot wrapping_descriptor_add
    Transfer.pop_available Transfer.pop_available_storage
pop_available-next_example =
    pop_available-next (run-TraceInv 4 2 calls new_queue-fresh)
      (run-SentInv 4 2 calls new_queue-fresh)

-- The first chain, as the device owns it after these calls.
abbrev first_chain : DeviceChain
first_chain = record {
  id = record { epoch = 1; token = 0 };
  chain_data = chain.chain_data;
  max_descriptors = 2;
}

complete-outcome_example :
    (Transfer.complete (run calls (begin fresh)).queue first_chain 4).1 ≡ ok notify
unfolding side_len run step Queue.configure new_storage new_state Queue.set_ready Transfer.publish
    Transfer.publish_inner Transfer.check_chain validation analysis_validation
    chain_descriptor_count Transfer.publish_storage allocate_descriptors take_slots find_free
    own_slots set_heads queue_head_slot Transfer.enqueue ring_slot wrapping_descriptor_add
    Transfer.pop_available Transfer.pop_available_storage
complete-outcome_example =
    complete-outcome (run-TraceInv 4 2 calls new_queue-fresh) 0 4 first_chain refl

-- And then the first chain is completed with four bytes.
abbrev calls_done : List Op
calls_done = calls ++ Op.complete 0 4 ∷ []

pop_used-next_example :
    map_ok returned (Transfer.pop_used (run calls_done (begin fresh)).queue).1
    ≡ ok (
        some (
          record {
            id = record { epoch = 1; token = 0 };
            used = 4;
            chain = record chain { slots = [] };
          },
          2,
        ))
unfolding Transfer.complete Transfer.complete_storage side_len run step Queue.configure new_storage
    new_state Queue.set_ready Transfer.publish Transfer.publish_inner Transfer.check_chain
    validation analysis_validation chain_descriptor_count Transfer.publish_storage
    allocate_descriptors take_slots find_free own_slots set_heads queue_head_slot Transfer.enqueue
    ring_slot wrapping_descriptor_add Transfer.pop_available Transfer.pop_available_storage
pop_used-next_example =
    pop_used-next (run-TraceInv 4 2 calls_done new_queue-fresh)
      (run-SentInv 4 2 calls_done new_queue-fresh)

publish_inner-refused_example :
    ((Transfer.publish_inner (run calls (begin fresh)).queue chain false).0
      ≡ (run calls (begin fresh)).queue)
    × (chain ≡ chain)
    × (PublishErrorKind.insufficient_descriptors ≢ PublishErrorKind.transport corrupt_state)
unfolding run step Queue.configure new_storage new_state Queue.set_ready Transfer.publish
    Transfer.publish_inner Transfer.check_chain validation analysis_validation
    chain_descriptor_count Transfer.publish_storage allocate_descriptors take_slots find_free
    own_slots set_heads queue_head_slot Transfer.enqueue ring_slot wrapping_descriptor_add
    Transfer.pop_available Transfer.pop_available_storage
publish_inner-refused_example =
    publish_inner-refused (run-TraceInv 4 2 calls new_queue-fresh) chain false
      {e = record { chain = chain; kind = PublishErrorKind.insufficient_descriptors }} chain_made
      refl

driver_reset-returns_example :
    (chains : List (ReclaimedChain DriverChain)) × ((Queue.driver_reset
        (run calls (begin fresh)).queue
        5).1
      ≡ ok chains)
    × (length chains ≡ 2)
    × ((Queue.driver_reset (run calls (begin fresh)).queue 5).0.storage ≡ none)
    × ((Queue.driver_reset (run calls (begin fresh)).queue 5).0.state ≡ unconfigured 4 5)
unfolding run step Queue.configure new_storage new_state Queue.set_ready Transfer.publish
    Transfer.publish_inner Transfer.check_chain validation analysis_validation
    chain_descriptor_count Transfer.publish_storage allocate_descriptors take_slots find_free
    own_slots set_heads queue_head_slot Transfer.enqueue ring_slot wrapping_descriptor_add
    Transfer.pop_available Transfer.pop_available_storage
driver_reset-returns_example =
    driver_reset-returns (run-TraceInv 4 2 calls new_queue-fresh) 5 (omega arith)

abbrev bytes : ByteStore
bytes = λ cell. 1 ∷ 2 ∷ 3 ∷ []

-- The device resets the queue while it owns the first chain, and the driver configures it again.
reset-stale_example :
    let now =
      (run
        (Op.configure grant 4 4 four ∷ Op.set_ready true ∷ [])
        (step (reset_by false 5) (run calls (begin fresh)))).queue in
    (io first_chain now.current_epoch ≡ err (ChainError.reset_race 1 now.state.epoch))
    × (source_read_at bytes first_chain now.current_epoch 0 2 ≡ err reset)
    × (sink_write_at bytes first_chain now.current_epoch 0 (7 ∷ []) ≡ (bytes, err reset))
    × (Transfer.complete now first_chain 4 ≡ (now, err (QueueError.reset_race 1 now.state.epoch)))
unfolding run step Queue.configure new_storage new_state Queue.set_ready Transfer.publish
    Transfer.publish_inner Transfer.check_chain validation analysis_validation
    chain_descriptor_count Transfer.publish_storage allocate_descriptors take_slots find_free
    own_slots set_heads queue_head_slot Transfer.enqueue ring_slot wrapping_descriptor_add
    Transfer.pop_available Transfer.pop_available_storage
reset-stale_example =
    reset-stale 4 2 calls (Op.configure grant 4 4 four ∷ Op.set_ready true ∷ []) false 5 0
      first_chain 4 0 2 (7 ∷ []) bytes new_queue-fresh (omega arith) refl
