-- ===== src/Db.antt =====
-- src/db: the service's reads and writes, statement by statement.
pub mod Session
pub mod Transactions
pub mod Accounts
pub mod Transfers
pub mod Sweep
pub mod Locks
