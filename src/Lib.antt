-- ===== src/Lib.antt =====
-- A model of the kelin server's core: the daily quotas that meter its calls, and the state of the
-- spirit that a user raises.
--
-- Parts and files:
-- * Quota models app/domain/quota.py, app/repositories/quota.py and app/services/quota.py. The
--   tables `daily_usage` and `quota_reservations` are two lists of a session; each SQL statement is
--   a function on the session (Quota/Usage, Quota/Holds) and each service function a block of them
--   (`consume`, `commit_quota`, `release_quota` in Quota/Service, `reserve_quota` in Quota/Reserve,
--   `hold` and `expire_due_reservations` in Quota/Worker). Quota/Ledger has the invariant of the two
--   tables, Quota/Guarantees what a commit and a release do.
-- * Spirit models the spirit's row and what moves it: app/domain/spirit_state.py (Spirit/State),
--   app/domain/evolution.py (Spirit/Stage, Spirit/Marks) and app/domain/growth.py (Spirit/Growth),
--   and over one session (Spirit/Store) their repositories and services: growth events in
--   Spirit/Events, stages and marks in Spirit/Advance, settling in Spirit/Settle, which calls
--   Spirit/Advance after a changed status.
-- * Outbox models the jobs that workers claim under a lease: app/domain/outbox.py (Outbox/Policy),
--   the PL/pgSQL procedures of app/db/migrations/versions/20260908_0015_visit_settle.py
--   (`reclaim_expired_outbox`) and 20260908_0017_p17_devices_outbox_notifications.py there (Outbox/Rows,
--   Outbox/Due, Outbox/Procedures) and app/repositories/outbox.py, which calls them
--   (Outbox/Repository). A history of calls is a list (Outbox/Calls); Outbox/Phases says in the
--   abstract how one job may move, and Outbox/RowMoves and Outbox/TableMoves that the procedures move
--   it so. `SKIP LOCKED` is a test of the session that says which rows others hold.
-- * Notice models the notification planner: app/domain/notifications.py (Notice/Rules),
--   app/repositories/notifications.py (Notice/Store, Notice/Deliveries) and
--   app/services/notification_planner.py (Notice/Plan, Notice/Planner, Notice/Pass), which completes and
--   fails its jobs through Outbox/Procedures and reads days from Quota/Catalog.
-- * Pact models app/domain/pact.py: the days of a pact (Pact/Calendar), scores and completeness
--   (Pact/Score) and the questions of a day with their stored form (Pact/Questions); and creating a
--   pact: the statements of app/repositories/pact.py on their tables (Pact/Store), with `create_pact` of
--   app/services/pact.py (Pact/Create), the invariant of the tables (Pact/Unique, Pact/Tables), a second call
--   (Pact/Completed, Pact/Again, Pact/Replay) and a call while a pact is active (Pact/Active). Days come
--   from Quota/Catalog.
-- * Clock has `require_aware`, which they use; Prelude the effects, lists, texts and the lemmas on
--   tables.
--
-- A call is a function from a session to a result and a session: the session comes back after a
-- raise too, with what ran before. Each call runs in one transaction that holds its row locks, so
-- the calls of a history follow one another; a rollback is written out where the code opens its own
-- transaction (`transaction` in Prelude/Effects). Instants are seconds, dates day numbers, ids natural
-- numbers; UUIDs are compared only, and a generated one, which is new, is the next of a counter. The only fuel is that of
-- `bit_length` in Pact/Score: 1024, the bits of the largest float, which are enough for every number of
-- as many bits (`bit_length-covers` in Pact/Scores). The loop of `maybe_advance_stage` is written as two
-- rounds.
--
-- Parameters: the IANA time zones (`Zones` in Quota/Catalog), which Python and PostgreSQL
-- read, with their times of day (`Clocks` in Notice/Rules), the parser of UUIDs in
-- Notice/Planner, the digits of
-- Unicode in Pact/Score, and in Pact/Create the digest of a request and whether the interview bank's file
-- loads.
--
-- Not modelled: the HTTP layer, pydantic schemas but for `GrowthEventPayload`, the other migrations,
-- model providers, the schedulers and process loops, device registration, a pact's daily sessions, and the services of feeds,
-- chat, memories, visits, reports and uploads. The outbox procedures' checks for NULL, which
-- no caller passes, are left out, and an integer column has no upper bound but where a cast makes one. Timestamps such as `updated_at`, which no modelled statement reads, are left out.
pub mod Prelude
pub mod Clock
pub mod Quota
pub mod Spirit
pub mod Outbox
pub mod Notice
pub mod Pact
