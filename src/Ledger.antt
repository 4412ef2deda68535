-- ===== src/Ledger.antt =====
-- crates/ledger: the command handlers, their ports, and the in-memory adapter.
pub mod Error
pub mod Json
pub mod Idempotency
pub mod Port
pub mod Store
pub mod Command
pub mod Action
pub mod Service
pub mod Chart
mod Tests
