-- ===== src/Store.antt =====
-- The durable store (internal/store/store.go). `Types` and `Rows` hold its data, `Lock` the lock on a
-- task with its ownership test, and one module for each operation what it does to the rows of the
-- task that it locked.
pub mod Types
pub mod Answer
pub mod Rows
pub mod Lock
pub mod Lease
pub mod Start
pub mod Approval
pub mod Finish
pub mod Control
pub mod Invariant
pub mod Commit
pub mod Database
pub mod Create
pub mod Constraints
pub mod Scan
pub mod Transition
pub mod Extension
pub mod Machine
pub mod Progress
