-- ===== src/Outbox/Draining.antt =====
-- A job whose worker never comes back is given up.
use kelin_server.Prelude.{
  ℕ, zero, suc, ◌+◌, ◌-◌, ◌*◌, ◌≤◌, ◌<◌, true, false, String, List, none, some, ◌≡◌, refl, subst,
  In, In-All, arith,
}
use kelin_server.Prelude.Int.{ℤ, pos}
use kelin_server.Outbox.Policy.{at_least_one}
use kelin_server.Outbox.Policy.Backoff.{retry_backoff_seconds_range}
use kelin_server.Outbox.Store.{OutboxEvent, Session, retry, dead, is_waiting}
use kelin_server.Outbox.Rows.{is_blank, is_last_attempt, reclaim_row, claim_row, backoff_until}
use kelin_server.Outbox.Calls.{reclaim, claim, run_call}
use kelin_server.Outbox.RowMoves.{waiting_lem}
use kelin_server.Outbox.Leases.{IsCounted}
use kelin_server.Outbox.Rounds.{
  poll, IsCapped, IsQueue, run_call-IsQueue, backoff_until_lem, poll_due, poll_lapsed,
}

-- Rounds from an instant on, `gap` seconds apart, of a worker that does nothing else.
unfoldable pub polls : ℤ → String → ℤ → ℕ → ℕ → ℕ → Session → Session
polls batch worker lease gap zero now s = s
polls batch worker lease gap (suc n) now s =
    polls batch worker lease gap n (now + gap) (poll batch worker lease now s)

abbrev twice : ℕ → ℕ
twice zero = zero
twice (suc n) = suc (suc (twice n))

twice_lem : (n : ℕ) → twice n ≡ 2 * n
twice_lem zero = refl
twice_lem (suc n) = omega (arith, twice_lem n)

-- The job of a row is dead.
abbrev pub IsGivenUp : OutboxEvent → List OutboxEvent → Type 0
IsGivenUp row rows =
    (end : OutboxEvent) × In end rows
    × (end.id ≡ row.id)
    × (end.status ≡ dead)
    × (end.attempt_count ≡ row.max_attempts)

module _ (batch lease : ℤ) (worker : String) (named : is_blank worker ≡ false) where
  -- A job that waits, with `left` more attempts than one, is given up after two rounds for each.
  polls_dead :
      (gap left now : ℕ) (s : Session) (row : OutboxEvent)
      → 300 ≤ gap
      → at_least_one lease < gap
      → IsQueue batch s
      → In row s.events
      → is_waiting row.status ≡ true
      → row.available_at ≤ now
      → row.attempt_count + suc left ≡ row.max_attempts
      → IsGivenUp row (polls batch worker lease gap (twice (suc left)) now s).events
  unfolding polls reclaim_row claim_row
  polls_dead gap zero now s row wide over q m waits due rest =
      let started = claim_row now worker lease row in
      let s' = poll batch worker lease now s in
      let q' =
        run_call-IsQueue batch (claim now batch worker lease none (λ id. false))
          (run_call (reclaim now) s) (run_call-IsQueue batch (reclaim now) s q) in
      let m' = poll_due batch lease worker named now s row q m waits due in
      let k =
        poll_lapsed batch lease worker named (now + gap) (now + at_least_one lease) s' started q' m'
          refl refl (omega (arith, over)) in
      let q'' =
        run_call-IsQueue batch (claim (now + gap) batch worker lease none (λ id. false))
          (run_call (reclaim (now + gap)) s')
          (run_call-IsQueue batch (reclaim (now + gap)) s' q') in
      let cap = (In-All IsCapped m q.capped).1 in
      let last : is_last_attempt started ≡ true = ground (arith, rest) in
      (
        reclaim_row (now + gap) started,
        k,
        rw last refl,
        rw last refl,
        rw last (omega (arith, rest)),
      )
  polls_dead gap (suc left) now s row wide over q m waits due rest =
      let started = claim_row now worker lease row in
      let s' = poll batch worker lease now s in
      let q' =
        run_call-IsQueue batch (claim now batch worker lease none (λ id. false))
          (run_call (reclaim now) s) (run_call-IsQueue batch (reclaim now) s q) in
      let m' = poll_due batch lease worker named now s row q m waits due in
      let k =
        poll_lapsed batch lease worker named (now + gap) (now + at_least_one lease) s' started q' m'
          refl refl (omega (arith, over)) in
      let q'' =
        run_call-IsQueue batch (claim (now + gap) batch worker lease none (λ id. false))
          (run_call (reclaim (now + gap)) s')
          (run_call-IsQueue batch (reclaim (now + gap)) s' q') in
      let cap = (In-All IsCapped m q.capped).1 in
      let more : is_last_attempt started ≡ false = ground (arith, rest) in
      let wait = backoff_until_lem (now + gap) started (omega (arith, rest, cap)) in
      let most =
        retry_backoff_seconds_range (pos started.attempt_count) (pos started.attempt_count)
          (omega arith) in
      let returned = record started {
        status = retry;
        last_error_code = some "LEASE_EXPIRED";
        locked_by = none;
        locked_at = none;
        lease_expires_at = none;
        available_at = backoff_until (now + gap) started;
      } in
      let k' : In returned (poll batch worker lease (now + gap) s').events = rw more at k in
      polls_dead gap left (now + gap + gap) (poll batch worker lease (now + gap) s') returned wide
        over q'' k' refl (omega (arith, wait, most.2, wide)) (omega (arith, rest))

  -- A job that waits and is due is dead after two rounds of reclaim and claim for each attempt
  -- that it has left, where a worker with a name claims jobs and never finishes them, the rounds
  -- are at least 300 seconds and longer than a lease apart, and the table has no more rows than
  -- a batch, unique ids, and jobs within at most 31 attempts.
  pub polls-IsGivenUp :
      (gap now : ℕ) (s : Session) (row : OutboxEvent)
      → 300 ≤ gap
      → at_least_one lease < gap
      → IsQueue batch s
      → In row s.events
      → is_waiting row.status ≡ true
      → row.available_at ≤ now
      → IsGivenUp row
          (polls batch worker lease gap (2 * (row.max_attempts - row.attempt_count)) now s).events
  polls-IsGivenUp gap now s row wide over q m waits due =
      let left = row.max_attempts - row.attempt_count - 1 in
      let counted : row.attempt_count < row.max_attempts =
        subst (IsCounted row.max_attempts) (waiting_lem row waits) (In-All IsCapped m q.capped).0 in
      let rounds : twice (suc left) ≡ 2 * (row.max_attempts - row.attempt_count) =
        omega (arith, counted, twice_lem (suc left)) in
      subst (λ n. IsGivenUp row (polls batch worker lease gap n now s).events) rounds
        (polls_dead gap left now s row wide over q m waits due (omega (arith, counted)))
