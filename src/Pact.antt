-- ===== src/Pact.antt =====
-- Pacts. The pure part is app/domain/pact.py: the days of a pact in Pact/Calendar, the scores of answers
-- and the completeness in Pact/Score, the questions of a day in Pact/Questions. Pact/Store has the
-- statements of app/repositories/pact.py that Pact/Create, `create_pact` of app/services/pact.py, runs.
pub mod Calendar
pub mod Score
pub mod Questions
pub mod Store
pub mod Create
mod Unique
mod Tables
mod Completed
mod Again
mod Active
mod Replay
mod Days
mod Scores
mod Stored
mod Tests
mod Runs
