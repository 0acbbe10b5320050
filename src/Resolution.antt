-- ===== src/Resolution.antt =====
-- Resolution requests: internal/app/resolution, and the parts of internal/infra/database and of
-- internal/app/worker that move a request through its states.
pub mod Tables
pub mod Store
pub mod Ranking
pub mod Service
pub mod Rows
pub mod Claims
pub mod Listing
pub mod Lifecycle
pub mod Tests
