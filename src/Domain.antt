-- ===== src/Domain.antt =====
-- src/domain: the shape of the ledger, with no I/O.
pub mod Currency
pub mod Money
pub mod Postings
pub mod Bytes
pub mod Fingerprint
