-- ===== src/Spirit.antt =====
-- The spirit's own state: the clock-driven status (app/domain/spirit_state.py in Spirit/State), its
-- stages and scholar marks (app/domain/evolution.py in Spirit/Stage and Spirit/Marks) and the growth
-- events (app/domain/growth.py in Spirit/Growth), with their repositories and services over one
-- store (Spirit/Store, Spirit/Events, Spirit/Advance, Spirit/Settle).
pub mod State
pub mod Marks
pub mod Stage
pub mod Growth
pub mod Store
pub mod Events
pub mod Advance
pub mod Settle
mod Tests
