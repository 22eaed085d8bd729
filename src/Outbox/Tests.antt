-- ===== src/Outbox/Tests.antt =====
-- Runs of the outbox, and the theorems about it at concrete inputs.
use kelin_server.Prelude.{
  ℕ, ◌≡◌, refl, true, false, none, some, ok, [], ◌∷◌, String, List, Option, In, here, there, arith,
  str_eq, btrim, ◌≢◌, subst, All, Bool, ◌≤◌,
}
use kelin_server.Prelude.Int.{pos, negsuc}
use kelin_server.Outbox.Policy.{max_outbox_batch, retry_backoff_seconds, backoff_seconds_sql}
use kelin_server.Outbox.Policy.Backoff.{backoff_seconds_sql_lem, retry_backoff_seconds_range}
use kelin_server.Outbox.Store.{OutboxEvent, Session, pending, claimed}
use kelin_server.Outbox.Rows.{is_blank, is_locked_by, is_lapsed, is_held, complete_row, reclaim_row}
use kelin_server.Outbox.Due.{batch_size}
use kelin_server.Outbox.Calls.{Call, reclaim, claim, complete, fail, run_call, run_calls}
use kelin_server.Outbox.Procedures
use kelin_server.Outbox.Picking.{HasUniqueIds}
use kelin_server.Outbox.TableMoves.{Queue, run_call-Queue}
use kelin_server.Outbox.Leases.{IsCountedRow, run_calls_kept, run_calls-IsCounted}
use kelin_server.Outbox.Once.{complete_outbox_job_once}
use kelin_server.Outbox.Rounds.{IsQueue}
use kelin_server.Outbox.Draining.{IsGivenUp, polls, polls-IsGivenUp}

abbrev waiting_job : OutboxEvent
waiting_job = record {
  id = 1;
  event_type = "notification.plan_user";
  aggregate_id = 9;
  owner_id = some 7;
  dedupe_key = "push:pact:1";
  payload = ("type", some "pact") ∷ [];
  status = pending;
  available_at = 100;
  created_at = 90;
  attempt_count = 0;
  max_attempts = 2;
  locked_by = none;
  locked_at = none;
  lease_expires_at = none;
  last_error_code = none;
  processed_at = none;
}

abbrev held_job : OutboxEvent
held_job = record waiting_job {
  id = 2;
  status = claimed;
  attempt_count = 1;
  locked_by = some "a";
  locked_at = some 100;
  lease_expires_at = some 220;
}

abbrev queue : Session
queue = record {
  events = waiting_job ∷ held_job ∷ [];
  locked_elsewhere = λ id. false;
  read_only = false;
}

queue-HasUniqueIds : HasUniqueIds queue.events
queue-HasUniqueIds job = ground arith

queue-IsQueue : IsQueue (pos 20) queue
unfolding batch_size max_outbox_batch
queue-IsQueue = record {
  unique = queue-HasUniqueIds;
  capped = ((omega arith, omega arith), (((omega arith, omega arith), omega arith), tt));
  room = omega arith;
}

abbrev other_worker : Option String
other_worker = some "b"

different : other_worker ≢ held_job.locked_by
different e =
    let same : str_eq "a" "b" ≡ true = subst (λ o. is_locked_by "b" o ≡ true) e refl in cc same

-- The worker of a job completes it, another worker and a late one do not.
owner_completes : (Procedures.complete_outbox_job 2 "a" 150 queue).0 ≡ ok true
unfolding Procedures.complete_outbox_job is_blank btrim is_held complete_row
owner_completes = refl

other_completes : (Procedures.complete_outbox_job 2 "b" 150 queue).0 ≡ ok false
unfolding Procedures.complete_outbox_job is_blank btrim is_held complete_row
other_completes = refl

late_completes : (Procedures.complete_outbox_job 2 "a" 220 queue).0 ≡ ok false
unfolding Procedures.complete_outbox_job is_blank btrim is_held complete_row
late_completes = refl

-- A lease that ends at the instant of a reclaim is not reclaimed.
reclaim_at_end : (Procedures.reclaim_expired_outbox 220 queue).0 ≡ ok 0
unfolding Procedures.reclaim_expired_outbox is_lapsed reclaim_row
reclaim_at_end = refl

reclaim_after : (Procedures.reclaim_expired_outbox 221 queue).0 ≡ ok 1
unfolding Procedures.reclaim_expired_outbox is_lapsed reclaim_row backoff_seconds_sql
reclaim_after = refl

abbrev no_one : ℕ → Bool
no_one id = false

abbrev history : List Call
history =
    claim 100 (pos 20) "b" (pos 120) none no_one
    ∷ reclaim 110
    ∷ complete 2 "b" 120
    ∷ fail 1 "b" 130 " "
    ∷ []

run_call-Queue_example :
    Queue 100 (some "b") queue (run_call (claim 100 (pos 20) "b" (pos 120) none no_one) queue)
run_call-Queue_example =
    run_call-Queue (claim 100 (pos 20) "b" (pos 120) none no_one) queue queue-HasUniqueIds

run_calls_kept_example : In held_job (run_calls history queue).events
run_calls_kept_example = run_calls_kept history queue held_job queue-HasUniqueIds (there here) (
  (different, omega arith),
  ((λ e. cc, omega arith), ((different, omega arith), ((different, omega arith), tt))),
)

run_calls-IsCounted_example : All IsCountedRow (run_calls history queue).events
run_calls-IsCounted_example =
    run_calls-IsCounted history queue queue-HasUniqueIds
      (omega arith, ((omega arith, omega arith), tt))

complete_outbox_job_once_example :
    (Procedures.complete_outbox_job 2 "b" 400
      (run_calls history (run_call (complete 2 "a" 150) queue))).0
    ≡ ok false
unfolding Procedures.complete_outbox_job is_blank btrim is_held complete_row
complete_outbox_job_once_example =
    complete_outbox_job_once queue 2 150 "a" history 400 "b" queue-HasUniqueIds refl refl

polls-IsGivenUp_example :
    IsGivenUp waiting_job (polls (pos 20) "w" (pos 120) 300 4 100 queue).events
unfolding is_blank btrim
polls-IsGivenUp_example =
    polls-IsGivenUp (pos 20) (pos 120) "w" refl 300 100 queue waiting_job (omega arith)
      (omega arith) queue-IsQueue here refl (omega arith)

backoff_seconds_sql_lem_example : backoff_seconds_sql 9 ≡ ok (retry_backoff_seconds (pos 9))
backoff_seconds_sql_lem_example = backoff_seconds_sql_lem 9 (omega arith)

retry_backoff_seconds_range_example :
    (2 ≤ retry_backoff_seconds (negsuc 0))
    × (retry_backoff_seconds (negsuc 0) ≤ retry_backoff_seconds (pos 40))
    × (retry_backoff_seconds (pos 40) ≤ 300)
retry_backoff_seconds_range_example = retry_backoff_seconds_range (negsuc 0) (pos 40) (omega arith)
