-- ===== src/SplitQueue.antt =====
-- The split virtqueue of crates/virtio-accel-split-queue/src: Chain has the descriptor chains of
-- chain.rs, Copy their byte access, Ring the ring storage of queue.rs, and Queue its operations.
pub mod Chain
pub mod Copy
pub mod Walk
pub mod Once
pub mod Ring
mod Window
mod Entries
pub mod Rings
mod Enqueue
mod Finish
mod Pop
pub mod Owners
mod Allocate
mod Publish
pub mod Storage
mod PopUsed
mod Steps
pub mod Calls
pub mod Outcomes
pub mod Trace
pub mod Queue
