-- ===== src/Domain.antt =====
-- crates/domain: the pure types of the ledger and the rules that they enforce.
pub mod Error
pub mod Ids
pub mod Asset
pub mod Amount
pub mod Account
pub mod Audit
pub mod Journal
pub mod Flow
pub mod Money
pub mod Event
mod Tests
