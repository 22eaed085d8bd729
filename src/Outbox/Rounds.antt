-- ===== src/Outbox/Rounds.antt =====
-- One round of a worker, reclaim and claim, and what it makes of a row.
use kelin_server.Prelude.{
  ℕ, ◌+◌, ◌≤◌, ◌<◌, Bool, true, false, ◌&&◌, String, Option, none, some, ◌≡◌, refl, sym, ap, subst,
  inl, inr, In, In-All, All-Along, length-Along, In-update_where, All, count_none, find?,
  find?-none_of_count, length, Bool-cases, arith, leb, if◌then◌else◌,
}
use kelin_server.Prelude.Int.{ℤ, pos}
use kelin_server.Outbox.Policy.{retry_backoff_seconds, backoff_seconds_sql}
use kelin_server.Outbox.Policy.Backoff.{backoff_seconds_sql_lem, retry_backoff_seconds_range}
use kelin_server.Outbox.Store.{OutboxEvent, Session, claimed, is_waiting}
use kelin_server.Outbox.Rows.{
  is_blank, is_last_attempt, backoff_raises, is_lapsed, reclaim_row, claim_row, overflows,
  backoff_until, seconds_or_zero,
}
use kelin_server.Outbox.Due.{is_due, is_picked, picked_events, batch_size}
use kelin_server.Outbox.Procedures.{reclaim_expired_outbox, claim_due_outbox}
use kelin_server.Outbox.Phases.{Moves}
use kelin_server.Outbox.Picking.{HasUniqueIds, picked_events-due, due-is_picked}
use kelin_server.Outbox.Calls.{Call, reclaim, claim, call_time, call_worker, run_call}
use kelin_server.Outbox.TableMoves.{run_call-Queue}
use kelin_server.Outbox.Leases.{IsCountedRow, Moves-IsCounted, run_call-HasUniqueIds}

-- One round of a worker: reclaim, then claim.
abbrev pub poll : ℤ → String → ℤ → ℕ → Session → Session
poll batch worker lease now s =
    run_call (claim now batch worker lease none (λ id. false)) (run_call (reclaim now) s)

abbrev pub IsCapped : OutboxEvent → Type 0
IsCapped row = IsCountedRow row × (row.max_attempts ≤ 31)

-- A table of jobs within their attempts, no more of them than a batch takes.
pub record IsQueue (batch : ℤ) (s : Session) : Type 0 where
  pub unique : HasUniqueIds s.events
  pub capped : All (λ row. IsCountedRow row × (row.max_attempts ≤ 31)) s.events
  pub room : length s.events ≤ batch_size batch

Moves-IsCapped :
    (now : ℕ) (who : Option String) (x y : OutboxEvent)
    → Moves now who x y
    → IsCapped x
    → IsCapped y
Moves-IsCapped now who x y r (h, cap) = (
  Moves-IsCounted now who r h,
  elim r [
    | inl e ↦ subst (λ z. z.max_attempts ≤ 31) (sym e) cap
    | inr (move, same, most) ↦ omega (arith, most, cap)
  ],
)

pub run_call-IsQueue :
    (batch : ℤ) (call : Call) (s : Session) → IsQueue batch s → IsQueue batch (run_call call s)
run_call-IsQueue batch call s q =
    let along = run_call-Queue call s q.unique in
    record {
      unique = run_call-HasUniqueIds call s q.unique;
      capped =
          All-Along IsCapped along (Moves-IsCapped (call_time call) (call_worker call)) q.capped;
      room = omega (arith, q.room, length-Along along);
    }

backoff_fits : (row : OutboxEvent) → row.max_attempts ≤ 31 → backoff_raises row ≡ false
unfolding backoff_seconds_sql
backoff_fits row cap = elim (Bool-cases (is_last_attempt row)) [
  | inl last ↦ rw last refl
  | inr more ↦ rw more (ap overflows (backoff_seconds_sql_lem row.attempt_count (ground arith)))
]

pub backoff_until_lem :
    (now : ℕ) (row : OutboxEvent)
    → row.attempt_count ≤ 30
    → backoff_until now row ≡ now + retry_backoff_seconds (pos row.attempt_count)
unfolding backoff_seconds_sql
backoff_until_lem now row h =
    ap (λ r. now + seconds_or_zero r) (backoff_seconds_sql_lem row.attempt_count h)

waiting-lapsed :
    (now : ℕ) (row : OutboxEvent) → is_waiting row.status ≡ true → is_lapsed now row ≡ false
unfolding is_lapsed
waiting-lapsed now row h = ground arith

-- A row that a reclaim has returned is not due at once.
reclaimed-rests :
    (now : ℕ) (row : OutboxEvent)
    → IsCapped row
    → (is_waiting (reclaim_row now row).status && leb (reclaim_row now row).available_at now)
      ≡ false
unfolding reclaim_row
reclaimed-rests now row (counted, cap) = elim (Bool-cases (is_last_attempt row)) [
  | inl last ↦ rw last refl
  | inr more ↦
      let wait = backoff_until_lem now row (ground arith) in
      let least =
        retry_backoff_seconds_range (pos row.attempt_count) (pos row.attempt_count) (omega arith) in
      rw (more, wait) (ground (arith, least.0))
]

module _ (batch lease : ℤ) (worker : String) (named : is_blank worker ≡ false) where
  -- What a reclaim makes of a row.
  reclaim-In :
      (now : ℕ) (s : Session) (row : OutboxEvent)
      → IsQueue batch s
      → In row s.events
      → In
          (if is_lapsed now row then reclaim_row now row else row)
          (reclaim_expired_outbox now s).1.events
  unfolding reclaim_expired_outbox
  reclaim-In now s row q m =
      let test : OutboxEvent → Bool = λ r. is_lapsed now r && backoff_raises r in
      let fits : find? test s.events ≡ none = find?-none_of_count test s.events (
        count_none test s.events (λ x k.
          let (c, cap) = In-All IsCapped k q.capped in
          let fit = backoff_fits x cap in ground arith)) in
      rw fits (In-update_where (is_lapsed now) (reclaim_row now) m)

  -- What a claim makes of a row.
  claim-In :
      (now : ℕ) (s : Session) (row : OutboxEvent)
      → In row s.events
      → In
          (if is_picked (picked_events now batch none s) row
            then claim_row now worker lease row
            else row)
          (claim_due_outbox now batch worker lease none s).1.events
  unfolding claim_due_outbox
  claim-In now s row m =
      rw named (
        In-update_where (is_picked (picked_events now batch none s)) (claim_row now worker lease) m)

  -- A row that waits and is due is claimed by a claim that nothing disturbs.
  claim-In-due :
      (now : ℕ) (s : Session) (row : OutboxEvent)
      → IsQueue batch s
      → In row s.events
      → is_waiting row.status ≡ true
      → row.available_at ≤ now
      → In
          (claim_row now worker lease row)
          (run_call (claim now batch worker lease none (λ id. false)) s).events
  unfolding run_call is_due
  claim-In-due now s row q m waits due =
      let free : Session = record s { locked_elsewhere = λ id. false } in
      rw (due-is_picked now batch none free row q.room m (ground arith)) at
        (claim-In now free row m)

  -- Another row stays.
  claim-In-rest :
      (now : ℕ) (s : Session) (row : OutboxEvent)
      → IsQueue batch s
      → In row s.events
      → (is_waiting row.status && leb row.available_at now) ≡ false
      → In row (run_call (claim now batch worker lease none (λ id. false)) s).events
  unfolding run_call is_due
  claim-In-rest now s row q m rests =
      let free : Session = record s { locked_elsewhere = λ id. false } in
      elim (Bool-cases (is_picked (picked_events now batch none free) row)) [
        | inl hit ↦
            let due = picked_events-due now batch none free q.unique row m hit in ground arith
        | inr miss ↦ rw miss at (claim-In now free row m)
      ]

  -- The first round starts a job that is due.
  pub poll_due :
      (now : ℕ) (s : Session) (row : OutboxEvent)
      → IsQueue batch s
      → In row s.events
      → is_waiting row.status ≡ true
      → row.available_at ≤ now
      → In (claim_row now worker lease row) (poll batch worker lease now s).events
  unfolding run_call is_lapsed
  poll_due now s row q m waits due =
      let live : is_lapsed now row ≡ false = waiting-lapsed now row waits in
      claim-In-due now (run_call (reclaim now) s) row (run_call-IsQueue batch (reclaim now) s q)
        (rw live at (reclaim-In now s row q m)) waits due

  -- A round after the end of the lease gives the job up, or has it wait.
  pub poll_lapsed :
      (now until : ℕ) (s : Session) (row : OutboxEvent)
      → IsQueue batch s
      → In row s.events
      → row.status ≡ claimed
      → row.lease_expires_at ≡ some until
      → until < now
      → In (reclaim_row now row) (poll batch worker lease now s).events
  unfolding run_call is_lapsed reclaim_row
  poll_lapsed now until s row q m status held over =
      let lapsed : is_lapsed now row ≡ true = rw (status, held) (ground arith) in
      claim-In-rest now (run_call (reclaim now) s) (reclaim_row now row)
        (run_call-IsQueue batch (reclaim now) s q) (rw lapsed at (reclaim-In now s row q m))
        (reclaimed-rests now row (In-All IsCapped m q.capped))
