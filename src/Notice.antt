-- ===== src/Notice.antt =====
-- Remote notifications: app/domain/notifications.py in Notice/Rules, the tables and the statements of
-- app/repositories/notifications.py in Notice/Store and Notice/Deliveries, and the planner,
-- app/services/notification_planner.py, in Notice/Plan, Notice/Planner and Notice/Pass, which runs on jobs of
-- the outbox.
pub mod Rules
pub mod Store
pub mod Deliveries
pub mod Plan
pub mod Planner
pub mod Pass
mod Quiet
mod Texts
mod Distinct
mod Cap
mod Room
mod Planned
mod Tests
