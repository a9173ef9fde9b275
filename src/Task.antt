-- ===== src/Task.antt =====
-- The data of the runtime (internal/task/model.go) and the resolution of step inputs
-- (internal/task/resolve.go).
pub mod Json
pub mod Model
pub mod Resolve
