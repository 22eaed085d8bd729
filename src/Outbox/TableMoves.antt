-- ===== src/Outbox/TableMoves.antt =====
-- Every call leads from a table to one whose rows have moved as Outbox/Phases allows.
use kelin_server.Prelude.{
  ℕ, leb, Option-cases, Bool, true, false, String, List, Option, none, some, ◌≡◌, refl, inl, inr,
  In, In-find?-none, Along, Along-refl, Along-update_where, find?, update_where, is_some,
  Bool-cases, arith, ◌&&◌,
}
use kelin_server.Prelude.Int.{ℤ}
use kelin_server.Outbox.Store.{OutboxEvent, Session, is_waiting}
use kelin_server.Outbox.Rows.{
  is_blank, backoff_raises, is_lapsed, reclaim_row, claim_row, is_held, is_renewable, renew_row,
  complete_row, fail_row, release_row,
}
use kelin_server.Outbox.Due.{is_due, is_picked, picked_events}
use kelin_server.Outbox.Procedures.{
  update_job, reclaim_expired_outbox, claim_due_outbox, renew_outbox_lease, complete_outbox_job,
  fail_outbox_job, release_outbox_until,
}
use kelin_server.Outbox.Calls.{
  Call, reclaim, claim, renew, complete, fail, release, call_time, call_worker, run_call,
}
use kelin_server.Outbox.Phases.{Moves}
use kelin_server.Outbox.Picking.{HasUniqueIds, picked_events-due}
use kelin_server.Outbox.RowMoves.{
  complete_row-Moves, release_row-Moves, fail_row-Moves, renew_row-Moves, reclaim_row-Moves,
  claim_row-Moves,
}

-- The rows of a session move to those of another.
abbrev pub Queue : ℕ → Option String → Session → Session → Type 0
Queue now worker s t = Along (Moves now worker) s.events t.events

module _ (now : ℕ) (worker : Option String) where
  stays : (s : Session) → Queue now worker s s
  stays s = Along-refl (Moves now worker) (λ x. inl refl) s.events

  updates :
      (p : OutboxEvent → Bool) (f : OutboxEvent → OutboxEvent) (rows : List OutboxEvent)
      → ((x : OutboxEvent) → In x rows → p x ≡ true → Moves now worker x (f x))
      → Along (Moves now worker) rows (update_where p f rows)
  updates p f rows = Along-update_where (Moves now worker) p f rows (λ x. inl refl)

due_waiting :
    (now : ℕ) (names : Option (List String)) (others : ℕ → Bool) (row : OutboxEvent)
    → is_due now names others row ≡ true
    → is_waiting row.status && leb row.available_at now ≡ true
unfolding is_due
due_waiting now names others row h = ground arith

-- The row of a check that found none to raise on.
checked_row :
    (p q : OutboxEvent → Bool) (rows : List OutboxEvent) {x : OutboxEvent}
    → In x rows
    → is_some (find? (λ r. p r && q r) rows) ≡ false
    → p x ≡ true
    → q x ≡ false
checked_row p q rows {x} m h e = elim (Option-cases (find? (λ r. p r && q r) rows)) [
  | inl none_found ↦ let fails = In-find?-none (λ r. p r && q r) m none_found in ground arith
  | inr (y, found) ↦ cc
]

module _ (s : Session) (now : ℕ) (worker : String) where
  update_job-Queue :
      (message : String) (p : OutboxEvent → Bool) (f : OutboxEvent → OutboxEvent)
      → ((x : OutboxEvent) → In x s.events → p x ≡ true → Moves now (some worker) x (f x))
      → Queue now (some worker) s (update_job worker message p f s).1
  update_job-Queue message p f change = elim (Bool-cases (is_blank worker)) [
    | inl blank ↦ rw blank (stays now (some worker) s)
    | inr named ↦ rw named (updates now (some worker) p f s.events change)
  ]

  complete-Queue : (job : ℕ) → Queue now (some worker) s (complete_outbox_job job worker now s).1
  unfolding complete_outbox_job
  complete-Queue job =
      update_job-Queue "complete inputs are required" (is_held job worker now) (complete_row now)
        (λ x m h. complete_row-Moves now job worker x h)

  renew-Queue :
      (job : ℕ) (lease : ℤ)
      → Queue now (some worker) s (renew_outbox_lease job worker now lease s).1
  unfolding renew_outbox_lease
  renew-Queue job lease =
      update_job-Queue "renew inputs are required" (is_renewable job worker now)
        (renew_row now lease) (λ x m h. renew_row-Moves now job worker x lease h)

  release-Queue :
      (job available : ℕ)
      → Queue now (some worker) s (release_outbox_until job worker available now s).1
  unfolding release_outbox_until
  release-Queue job available =
      update_job-Queue "release inputs are required" (is_held job worker now)
        (release_row available) (λ x m h. release_row-Moves now job worker x available h)

  fail-Queue :
      (job : ℕ) (error : String)
      → Queue now (some worker) s (fail_outbox_job job worker now error s).1
  unfolding fail_outbox_job
  fail-Queue job error = elim (Bool-cases (is_blank worker)) [
    | inl blank ↦ rw blank (stays now (some worker) s)
    | inr named ↦
        elim (Bool-cases
          (is_some (find? (λ r. is_held job worker now r && backoff_raises r) s.events))) [
            | inl raises ↦ rw (named, raises) (stays now (some worker) s)
            | inr fits ↦
                rw (named, fits)
                  (updates now (some worker) (is_held job worker now) (fail_row now error) s.events
                    (λ x m h.
                      fail_row-Moves now job worker x error h
                        (checked_row (is_held job worker now) backoff_raises s.events m fits h)))
          ]
  ]

  claim-Queue :
      (batch lease : ℤ) (names : Option (List String))
      → HasUniqueIds s.events
      → Queue now (some worker) s (claim_due_outbox now batch worker lease names s).1
  unfolding claim_due_outbox
  claim-Queue batch lease names unique = elim (Bool-cases (is_blank worker)) [
    | inl blank ↦ rw blank (stays now (some worker) s)
    | inr named ↦ rw named (
        updates now (some worker) (is_picked (picked_events now batch names s))
          (claim_row now worker lease) s.events
          (λ x m h. claim_row-Moves now 0 worker x lease (
            due_waiting now names s.locked_elsewhere x
              (picked_events-due now batch names s unique x m h))))
  ]

reclaim-Queue : (s : Session) (now : ℕ) → Queue now none s (reclaim_expired_outbox now s).1
unfolding reclaim_expired_outbox
reclaim-Queue s now =
    elim (Bool-cases (is_some (find? (λ r. is_lapsed now r && backoff_raises r) s.events))) [
      | inl raises ↦ rw raises (stays now none s)
      | inr fits ↦ rw fits (
          updates now none (is_lapsed now) (reclaim_row now) s.events (λ x m h.
            reclaim_row-Moves now 0 "" x h
              (checked_row (is_lapsed now) backoff_raises s.events m fits h)))
    ]

-- Where ids are unique, every call moves each row of the table as the phases of a job allow, or
-- leaves it as it is, whether the call returns or raises: a claim starts a job that waits and is
-- due, only the worker of a lease that has not ended extends, finishes, fails or hands back its
-- job, and only a lease that has ended lapses.
pub run_call-Queue :
    (call : Call) (s : Session)
    → HasUniqueIds s.events
    → Queue (call_time call) (call_worker call) s (run_call call s)
unfolding run_call
run_call-Queue (reclaim now) s unique = reclaim-Queue s now
run_call-Queue (claim now batch worker lease names others) s unique =
    claim-Queue (record s { locked_elsewhere = others }) now worker batch lease names unique
run_call-Queue (renew job worker now lease) s unique = renew-Queue s now worker job lease
run_call-Queue (complete job worker now) s unique = complete-Queue s now worker job
run_call-Queue (fail job worker now error) s unique = fail-Queue s now worker job error
run_call-Queue (release job worker available now) s unique =
    release-Queue s now worker job available
