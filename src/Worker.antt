-- ===== src/Worker.antt =====
-- The worker: internal/app/worker/service.go.
pub mod Model
pub mod Query
pub mod Run
pub mod Settles
pub mod Tests
