-- ===== src/Schema.antt =====
-- migrations/0001_init.sql: the tables, and the statements that the service runs on them with the
-- constraints and triggers that each one meets. A column of type NUMERIC(20, 8) is an integer in
-- units of 10⁻⁸. A statement gives the new tables, or the error that Postgres reports.
pub mod Rows
pub mod Statements
pub mod Deferred
pub mod Invariant
pub mod Effects
pub mod Flights
pub mod Opening
pub mod Carried
pub mod Groups
pub mod Sweep
pub mod Reconciliation
pub mod Writes
pub mod Permanence
pub mod Panics
pub mod Totals
pub mod Conservation
