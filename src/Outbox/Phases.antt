-- ===== src/Outbox/Phases.antt =====
-- What the queue promises of one job: it waits, is leased to a worker, is finished or is given up,
-- and moves between these as the calls of workers allow.
use kelin_server.Prelude.{ℕ, ◌+◌, ◌-◌, ◌≤◌, ◌<◌, String, Option, none, some, ◌≡◌, ◌⊎◌}
use kelin_server.Prelude.Int.{ℤ, pos}
use kelin_server.Outbox.Policy.{at_least_one, retry_backoff_seconds}
use kelin_server.Outbox.Store.{JobStatus, pending, claimed, done, retry, dead, OutboxEvent}

-- A waiting job is due at an instant, and has been claimed a number of times. A leased one has its
-- worker, the end of the lease and the number of claims.
pub data Phase : Type 0 where
  waiting : ℕ → ℕ → Phase
  leased : Option String → Option ℕ → ℕ → Phase
  finished : ℕ → Phase
  abandoned : ℕ → Phase

abbrev pub phase_at : JobStatus → OutboxEvent → Phase
phase_at pending row = waiting row.available_at row.attempt_count
phase_at retry row = waiting row.available_at row.attempt_count
phase_at claimed row = leased row.locked_by row.lease_expires_at row.attempt_count
phase_at done row = finished row.attempt_count
phase_at dead row = abandoned row.attempt_count

abbrev pub phase_of : OutboxEvent → Phase
phase_of row = phase_at row.status row

-- The lease has not ended.
abbrev pub IsOpen : ℕ → Option ℕ → Type 0
IsOpen now none = Unit
IsOpen now (some until) = now < until

-- A move of a job that may be claimed `max` times, at `now`, by a worker or by nobody.
pub data Move (max now : ℕ) : Option String → Phase → Phase → Type 0 where
  start :
      (worker : String) (available attempts : ℕ) (lease : ℤ)
      → available ≤ now
      → Move max now
          (some worker)
          (waiting available attempts)
          (leased (some worker) (some (now + at_least_one lease)) (attempts + 1))
  extend :
      (worker : String) (until attempts : ℕ) (lease : ℤ)
      → now < until
      → Move max now
          (some worker)
          (leased (some worker) (some until) attempts)
          (leased (some worker) (some (now + at_least_one lease)) attempts)
  finish :
      (worker : String) (until : Option ℕ) (attempts : ℕ)
      → IsOpen now until
      → Move max now (some worker) (leased (some worker) until attempts) (finished attempts)
  put_off :
      (worker : String) (until : Option ℕ) (attempts : ℕ)
      → IsOpen now until
      → attempts < max
      → Move max now
          (some worker)
          (leased (some worker) until attempts)
          (waiting (now + retry_backoff_seconds (pos attempts)) attempts)
  give_up :
      (worker : String) (until : Option ℕ) (attempts : ℕ)
      → IsOpen now until
      → max ≤ attempts
      → Move max now (some worker) (leased (some worker) until attempts) (abandoned attempts)
  hand_back :
      (worker : String) (until : Option ℕ) (attempts available : ℕ)
      → IsOpen now until
      → Move max now
          (some worker)
          (leased (some worker) until attempts)
          (waiting available (attempts - 1))
  lapse :
      (holder : Option String) (until attempts : ℕ)
      → until < now
      → attempts < max
      → Move max now none
          (leased holder (some until) attempts)
          (waiting (now + retry_backoff_seconds (pos attempts)) attempts)
  lapse_for_good :
      (holder : Option String) (until attempts : ℕ)
      → until < now
      → max ≤ attempts
      → Move max now none (leased holder (some until) attempts) (abandoned attempts)

-- A row stays as it is, or makes a move and keeps its id and its number of attempts.
abbrev pub Moves : ℕ → Option String → OutboxEvent → OutboxEvent → Type 0
Moves now worker row row' =
    (row' ≡ row)
    ⊎ (Move row.max_attempts now worker (phase_of row) (phase_of row')
        × (row'.id ≡ row.id)
        × (row'.max_attempts ≡ row.max_attempts))
