-- ===== src/Outbox/Calls.antt =====
-- The calls that workers make, one after another, and how each changes the table row by row. The
-- rows that other transactions hold locked at a claim are an argument of that call.
use kelin_server.Prelude.{ℕ, Bool, String, List, [], ◌∷◌, Option, none, some}
use kelin_server.Prelude.Int.{ℤ}
use kelin_server.Outbox.Store.{Session}
use kelin_server.Outbox.Procedures

pub data Call : Type 0 where
  reclaim : ℕ → Call
  claim : ℕ → ℤ → String → ℤ → Option (List String) → (ℕ → Bool) → Call
  renew : ℕ → String → ℕ → ℤ → Call
  complete : ℕ → String → ℕ → Call
  fail : ℕ → String → ℕ → String → Call
  release : ℕ → String → ℕ → ℕ → Call

abbrev pub call_time : Call → ℕ
call_time (reclaim now) = now
call_time (claim now batch worker lease names others) = now
call_time (renew job worker now lease) = now
call_time (complete job worker now) = now
call_time (fail job worker now error) = now
call_time (release job worker available now) = now

-- The worker that calls, but for `reclaim`, which any process may call.
abbrev pub call_worker : Call → Option String
call_worker (reclaim now) = none
call_worker (claim now batch worker lease names others) = some worker
call_worker (renew job worker now lease) = some worker
call_worker (complete job worker now) = some worker
call_worker (fail job worker now error) = some worker
call_worker (release job worker available now) = some worker

-- The session that a call leaves, whether it returns or raises.
unfoldable pub run_call : Call → Session → Session
run_call (reclaim now) s = (Procedures.reclaim_expired_outbox now s).1
run_call (claim now batch worker lease names others) s =
    (Procedures.claim_due_outbox now batch worker lease names
      (record s { locked_elsewhere = others })).1
run_call (renew job worker now lease) s = (Procedures.renew_outbox_lease job worker now lease s).1
run_call (complete job worker now) s = (Procedures.complete_outbox_job job worker now s).1
run_call (fail job worker now error) s = (Procedures.fail_outbox_job job worker now error s).1
run_call (release job worker available now) s =
    (Procedures.release_outbox_until job worker available now s).1

unfoldable pub run_calls : List Call → Session → Session
unfolding run_call
run_calls [] s = s
run_calls (c ∷ cs) s = run_calls cs (run_call c s)
