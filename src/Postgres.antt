-- ===== src/Postgres.antt =====
-- crates/storage-postgres/src and migrations: the adapter over tables.
pub mod Convert
pub mod Store
pub mod Projection
pub mod Balances
mod Tests
