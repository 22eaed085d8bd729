-- ===== src/Quota.antt =====
-- The daily quotas: app/domain/quota.py (Quota/Catalog), app/repositories/quota.py (Quota/Store for
-- the two tables, Quota/Usage and Quota/Holds for the statements) and app/services/quota.py (Quota/Service, Quota/Reserve,
-- Quota/Worker).
pub mod Catalog
pub mod Store
pub mod Usage
pub mod Holds
pub mod Service
pub mod Reserve
pub mod Worker
pub mod Ledger
pub mod Guarantees
mod Tests
