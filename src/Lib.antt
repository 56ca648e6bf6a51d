-- ===== src/Lib.antt =====
-- A model of the device side of virtio-accel, an accelerator device whose guest owns contexts,
-- buffers, programs, queues and events behind 64-bit object IDs.
--
-- The parts and where they are:
--   ObjectTable   the bounded generational table of crates/virtio-accel-device/src/object_table.rs.
--                 `ObjectTable<T>` is a record of the slots, the free list and the live count; an
--                 `ObjectId` is its raw number. `get`, `remove`, `insert`, `try_reserve_insert`,
--                 `insert_prepared`, `ids` and `next_id_from` carry their source names; a write
--                 through `get_mut` is `put`. Ids, Lookup, Valid, Preserve, Laws, Insert and View
--                 hold the lemmas, Stale the runs of operations, Tests examples.
--   DeviceState   the object graph of crates/virtio-accel-device/src/state.rs. Records has the data
--                 (the descriptors are those of crates/virtio-accel-core/src/lib.rs), Graph the
--                 state with its construction, References the validation and counting of a
--                 submission, Create, Submit and Release the transitions under their source names.
--                 Counted, Referenced, Settled and Inv state the invariant; Change, Raise, Raised,
--                 Slots, SlotOps, Rebase, Recount, Departure, Commit, CommitCharged, Admit,
--                 Admission, Checks, Admitted, Increment, Pending, Submission and Start show how
--                 each transition keeps it; Restored takes a submission back; Reach has the step
--                 relation, Promises and Refusal what
--                 follows for every reachable state. Scenario, Tests and SubmissionTests run a
--                 small device.
--   Core          the provider contract of crates/virtio-accel-core/src/lib.rs: `BufferDesc::new` is
--                 `new_desc`, `BufferInfo::new` is `new_info`, `BufferRange::new` is `new_range`;
--                 Info has `DeviceInfo` with its checks, Allocation what `new_info` accepts.
--   Wire          the vocabulary of crates/virtio-accel-proto/src/lib.rs: opcodes, event states, the
--                 configuration and the frame headers; `try_from` is `opcode_from` and
--                 `event_state_from`.
--   Transport     the queue port of crates/virtio-accel-transport/src: queue.rs (`QueueSize::new` is
--                 `new_size`, `QueueState::new` is `new_state`), Regions for regions.rs, and Bytes for
--                 the slices of bytes.rs; Laws and Tests beside each.
--   SplitQueue    the virtqueue of crates/virtio-accel-split-queue/src. Chain has the descriptor chains
--                 of chain.rs with `analyze_chain`, Ring the `RingStorage` of queue.rs, Queue and
--                 Queue.Transfer its operations (`DriverQueue::reset` is `driver_reset`,
--                 `DeviceQueue::reset` is `device_reset`). Window reads a ring as a list; Rings, Owners
--                 and Storage state the invariant; Entries, Enqueue, Finish, Pop, PopUsed, Allocate,
--                 Publish and Steps show how each operation keeps it; Calls and Outcomes list the
--                 outcomes of a call. Trace has the sequences of calls by driver and device with their
--                 histories, with Inv, Lists, Handed, Carried, Transfers, Control, Configure, Runs,
--                 Sent, Views, Order, Resets and Tests below it. Walk and Once are about `analyze_chain`. Copy has the byte access
--                 of chains, with the loops over their descriptors; Round, Loop, Laws and Tests below it.
--   Prelude       the shared names, tests on numbers, lists, results and bit operations.
--
-- How the code is carried over. A method with `&mut self` takes the state and returns the state and
-- a result; an error returns the state as the code leaves it. Machine integers are natural numbers
-- with the wrap-around written out (`add_u32`, `sub_u32`, `sub_u128`, `saturating_add`). The device
-- state uses object tables through `view` and `total`: what a lookup sees, and sums over the values.
-- The provider is a function that each creation takes as an argument, as the code takes a closure;
-- what the allocator answers to `try_reserve` is an argument too. Of the provider only this is
-- assumed, where the statement says so: the backing size that it reports for a buffer is a `u64`. Limits and
-- policy are of their machine types.
-- Loops are structural recursion over lists or over the rounds that are left. Only the walk along a
-- descriptor chain takes fuel, one round more than the chain has descriptors, which is shown to be
-- enough. Sorting is modelled by insertion
-- sort, since equal IDs are indistinguishable, and the binary search in the sorted list as
-- membership.
-- The chains of a split queue share their bytes and the epoch of the queue with the device's view of
-- them: a mapped buffer is the number of its cell in a store of bytes (`ByteStore`) beside its length,
-- which is all that the operations of the queue read of it, and the shared epoch is a field of the queue.
-- The calls are those of safe code: a chain comes from a constructor, and a completion consumes a chain
-- that the device was given. There are no threads in the code, so a run is a sequence of calls. An index
-- out of range, at which the code would panic, reads as an empty entry; the invariant keeps heads and
-- slots within the tables.
--
-- Not modelled: the engine, the decoder, the guest driver, the artifact formats and the vendor backends;
-- of the core and wire crates, the payload layouts, the byte sources and the provider traits.
mod Prelude
pub mod ObjectTable
pub mod DeviceState
pub mod Core
pub mod Wire
pub mod Transport
pub mod SplitQueue
