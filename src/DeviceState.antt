-- ===== src/DeviceState.antt =====
-- The device state of crates/virtio-accel-device/src/state.rs, in parts: `Records` (the data),
-- `Graph` (the state and its accessors), `References` (what an event holds on to), `Create`,
-- `Submit` and `Release` (the transitions), and what is proved of them.
pub mod Records
pub mod Graph
pub mod References
pub mod Counted
pub mod Referenced
pub mod Settled
pub mod Change
pub mod Inv
pub mod Slots
pub mod SlotOps
pub mod Create
pub mod Submit
pub mod Release
mod Rebase
mod Recount
mod Departure
mod Commit
mod CommitCharged
mod Admit
mod Admission
mod Raise
mod Checks
mod Raised
mod Increment
mod Restored
mod Pending
mod Admitted
mod Submission
mod Start
pub mod Reach
pub mod Promises
pub mod Refusal
mod Scenario
mod Tests
mod SubmissionTests
