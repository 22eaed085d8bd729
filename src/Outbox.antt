-- ===== src/Outbox.antt =====
-- The transactional outbox: jobs that workers claim under a lease. app/domain/outbox.py is in
-- Outbox/Policy; the procedures that the migrations define in PostgreSQL are
-- in Outbox/Rows, Outbox/Due and Outbox/Procedures over the table of Outbox/Store;
-- app/repositories/outbox.py, which calls them, is in Outbox/Repository.
pub mod Policy
pub mod Store
pub mod Rows
pub mod Due
pub mod Procedures
pub mod Repository
mod Calls
mod Phases
mod Picking
mod RowMoves
mod TableMoves
mod Leases
mod Once
mod Rounds
mod Draining
mod Tests
