-- ===== src/Outbox/RowMoves.antt =====
-- Every call moves the rows of the table as Outbox/Phases allows.
use kelin_server.Prelude.{
  ℕ, ◌+◌, ◌^◌, max, true, false, ◌&&◌, String, Option, none, some, ◌≡◌, refl, ap, inl, inr, leb,
  arith, Bool-cases, Option-cases, eq_iff, ok, if◌then◌else◌,
}
use kelin_server.Prelude.Int.{ℤ, pos}
use kelin_server.Outbox.Policy.{
  retry_backoff_seconds, backoff_seconds_sql, max_retry_backoff_seconds,
}
use kelin_server.Outbox.Store.{
  JobStatus, pending, claimed, done, retry, dead, OutboxEvent, is_claimed, is_waiting,
}
use kelin_server.Outbox.Rows.{
  overflows, is_last_attempt, backoff_raises, lease_open, is_locked_by, backoff_until, is_lapsed,
  reclaim_row, claim_row, is_held, is_renewable, renew_row, complete_row, fail_row, release_row,
}
use kelin_server.Outbox.Phases.{
  waiting, phase_at, phase_of, IsOpen, Moves, start, extend, finish, put_off, give_up, hand_back,
  lapse, lapse_for_good,
}

-- The two computations of a backoff agree where the SQL one does not raise.
pub backoff_seconds_sql-retry_backoff_seconds :
    (attempts : ℕ)
    → backoff_seconds_sql attempts ≡ (
        if leb (2 ^ max attempts 1) 2147483647
        then ok (retry_backoff_seconds (pos attempts))
        else backoff_seconds_sql attempts)
unfolding backoff_seconds_sql retry_backoff_seconds max_retry_backoff_seconds
backoff_seconds_sql-retry_backoff_seconds attempts = ground arith

backoff_until_lem :
    (now : ℕ) (row : OutboxEvent)
    → overflows (backoff_seconds_sql row.attempt_count) ≡ false
    → backoff_until now row ≡ now + retry_backoff_seconds (pos row.attempt_count)
unfolding backoff_seconds_sql retry_backoff_seconds max_retry_backoff_seconds
backoff_until_lem now row h = ground arith

open_lem : (now : ℕ) (until : Option ℕ) → lease_open now until ≡ true → IsOpen now until
open_lem now none h = tt
open_lem now (some until) h = ground arith

pub claimed_lem : (status : JobStatus) → is_claimed status ≡ true → status ≡ claimed
claimed_lem claimed h = refl
claimed_lem pending h = cc
claimed_lem retry h = cc
claimed_lem done h = cc
claimed_lem dead h = cc

waiting_at :
    (status : JobStatus) (row : OutboxEvent)
    → is_waiting status ≡ true
    → phase_at status row ≡ waiting row.available_at row.attempt_count
waiting_at pending row h = refl
waiting_at retry row h = refl
waiting_at claimed row h = cc
waiting_at done row h = cc
waiting_at dead row h = cc

pub waiting_lem :
    (row : OutboxEvent)
    → is_waiting row.status ≡ true
    → phase_of row ≡ waiting row.available_at row.attempt_count
waiting_lem row = waiting_at row.status row

locked_lem : (worker : String) (o : Option String) → is_locked_by worker o ≡ true → o ≡ some worker
locked_lem worker none h = cc
locked_lem worker (some holder) h = ap some ((eq_iff holder worker).0 h)

module _ (now job : ℕ) (worker : String) (row : OutboxEvent) where
  pub complete_row-Moves :
      is_held job worker now row ≡ true → Moves now (some worker) row (complete_row now row)
  unfolding is_held complete_row
  complete_row-Moves h =
      let locked = locked_lem worker row.locked_by (ground arith) in
      let status = claimed_lem row.status (ground arith) in
      let valid = open_lem now row.lease_expires_at (ground arith) in
      inr (
        rw (status, locked) (finish worker row.lease_expires_at row.attempt_count valid),
        refl,
        refl,
      )

  pub release_row-Moves :
      (available : ℕ)
      → is_held job worker now row ≡ true
      → Moves now (some worker) row (release_row available row)
  unfolding is_held release_row
  release_row-Moves available h =
      let locked = locked_lem worker row.locked_by (ground arith) in
      let status = claimed_lem row.status (ground arith) in
      let valid = open_lem now row.lease_expires_at (ground arith) in
      inr (
        rw (status, locked)
            (hand_back worker row.lease_expires_at row.attempt_count available valid),
        refl,
        refl,
      )

  pub fail_row-Moves :
      (error : String)
      → is_held job worker now row ≡ true
      → backoff_raises row ≡ false
      → Moves now (some worker) row (fail_row now error row)
  unfolding is_held fail_row backoff_seconds_sql
  fail_row-Moves error h fits =
      let locked = locked_lem worker row.locked_by (ground arith) in
      let status = claimed_lem row.status (ground arith) in
      let valid = open_lem now row.lease_expires_at (ground arith) in
      elim (Bool-cases (is_last_attempt row)) [
        | inl last ↦ inr (
          rw (last, status, locked)
              (give_up worker row.lease_expires_at row.attempt_count valid (ground arith)),
          rw last refl,
          rw last refl,
        )
        | inr more ↦ inr (
          rw (more, status, locked, backoff_until_lem now row (rw more at fits))
              (put_off worker row.lease_expires_at row.attempt_count valid (ground arith)),
          rw more refl,
          rw more refl,
        )
      ]

  pub renew_row-Moves :
      (lease : ℤ)
      → is_renewable job worker now row ≡ true
      → Moves now (some worker) row (renew_row now lease row)
  unfolding is_renewable renew_row
  renew_row-Moves lease h =
      let locked = locked_lem worker row.locked_by (ground arith) in
      let status = claimed_lem row.status (ground arith) in
      elim (Option-cases row.lease_expires_at) [
        | inl e ↦ ground arith
        | inr (until, e) ↦ inr (
          rw (status, locked, e) (extend worker until row.attempt_count lease (ground arith)),
          refl,
          refl,
        )
      ]

  pub reclaim_row-Moves :
      is_lapsed now row ≡ true
      → backoff_raises row ≡ false
      → Moves now none row (reclaim_row now row)
  unfolding is_lapsed reclaim_row backoff_seconds_sql
  reclaim_row-Moves h fits =
      let status = claimed_lem row.status (ground arith) in
      elim (Option-cases row.lease_expires_at) [
        | inl e ↦ ground arith
        | inr (until, e) ↦ elim (Bool-cases (is_last_attempt row)) [
          | inl last ↦ inr (
            rw (last, status, e)
                (lapse_for_good row.locked_by until row.attempt_count (ground arith)
                  (ground arith)),
            rw last refl,
            rw last refl,
          )
          | inr more ↦ inr (
            rw (more, status, e, backoff_until_lem now row (rw more at fits))
                (lapse row.locked_by until row.attempt_count (ground arith) (ground arith)),
            rw more refl,
            rw more refl,
          )
        ]
      ]

  pub claim_row-Moves :
      (lease : ℤ)
      → is_waiting row.status && leb row.available_at now ≡ true
      → Moves now (some worker) row (claim_row now worker lease row)
  unfolding claim_row
  claim_row-Moves lease h = inr (
    rw (waiting_lem row (ground arith))
        (start worker row.available_at row.attempt_count lease (ground arith)),
    refl,
    refl,
  )
