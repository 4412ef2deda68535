-- ===== src/Grpc.antt =====
-- crates/api-grpc/src over the messages of proto/ironledger/v1/ledger.proto.
pub mod Messages
pub mod Mapping
pub mod Requests
pub mod Server
pub mod Resubmitted
mod Tests
