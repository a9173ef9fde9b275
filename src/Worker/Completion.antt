-- ===== src/Worker/Completion.antt =====
-- A worker that nothing disturbs, on a task whose steps succeed (internal/worker/worker.go).
pub mod Rows
pub mod Course
pub mod Round
pub mod Run
pub mod Claim
