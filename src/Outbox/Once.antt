-- ===== src/Outbox/Once.antt =====
-- A job is completed once.
use kelin_server.Prelude.{
  ℕ, ◌≤◌, Bool, true, false, String, List, ok, ◌≡◌, refl, sym, subst, inl, inr, In, count-In,
  count_none, In-update_where, same_member, every_member-All, count, Bool-cases, update_where,
  arith,
}
use kelin_server.Outbox.Store.{OutboxEvent, Session, has_id}
use kelin_server.Outbox.Rows.{is_blank, is_held, complete_row}
use kelin_server.Outbox.Procedures.{update_job, complete_outbox_job}
use kelin_server.Outbox.Picking.{HasUniqueIds}
use kelin_server.Outbox.Calls.{Call, complete, run_call, run_calls}
use kelin_server.Outbox.Leases.{run_call-HasUniqueIds, run_calls-HasUniqueIds, run_calls_kept}

-- A procedure on a job that returns `true` has found a row, and a worker that has a name.
update_job-true :
    (worker message : String) (p : OutboxEvent → Bool) (f : OutboxEvent → OutboxEvent) (s : Session)
    → (update_job worker message p f s).0 ≡ ok true
    → ((update_job worker message p f s).1.events ≡ update_where p f s.events)
      × (1 ≤ count p s.events)
update_job-true worker message p f s h = elim (Bool-cases (is_blank worker)) [
  | inl blank ↦ ground arith
  | inr named ↦ (rw named refl, ground arith)
]

is_held-id :
    (job : ℕ) (worker : String) (now : ℕ) (row : OutboxEvent)
    → is_held job worker now row ≡ true
    → has_id job row ≡ true
unfolding is_held
is_held-id job worker now row h = ground arith

-- No row is held where the row of the id is done.
done-held :
    (job now : ℕ) (worker : String) (s : Session) (row : OutboxEvent) (since : ℕ)
    → HasUniqueIds s.events
    → In (complete_row since row) s.events
    → has_id job row ≡ true
    → count (is_held job worker now) s.events ≡ 0
unfolding is_held complete_row
done-held job now worker s row since unique m e =
    count_none (is_held job worker now) s.events (λ x k.
      elim (Bool-cases (is_held job worker now x)) [
        | inr miss ↦ miss
        | inl hit ↦
            let same =
              same_member (has_id job) (unique job) m e k (is_held-id job worker now x hit) in
            subst (λ y. is_held job worker now y ≡ false) same (ground arith)
      ])

-- Once `complete_outbox_job` has returned true for a job, it returns false for that job ever after, whoever calls it and when, over any history of calls. Ids are unique.
pub complete_outbox_job_once :
    (s : Session) (job now : ℕ) (worker : String) (calls : List Call) (later : ℕ) (other : String)
    → HasUniqueIds s.events
    → (complete_outbox_job job worker now s).0 ≡ ok true
    → is_blank other ≡ false
    → (complete_outbox_job job other later
        (run_calls calls (run_call (complete job worker now) s))).0
      ≡ ok false
unfolding complete_outbox_job run_call
complete_outbox_job_once s job now worker calls later other unique returned named =
    let picks = is_held job worker now in
    let t = run_call (complete job worker now) s in
    let (after, found) =
      update_job-true worker "complete inputs are required" picks (complete_row now) s returned in
    let (row, m, hit) = count-In picks s.events found in
    let kept : In (complete_row now row) t.events =
      subst (In (complete_row now row)) (sym after)
        (rw hit at (In-update_where picks (complete_row now) m)) in
    let unique' = run_call-HasUniqueIds (complete job worker now) s unique in
    let last =
      run_calls_kept calls t (complete_row now row) unique' kept
        (every_member-All _ calls (λ c x. tt)) in
    rw
      (
        named,
        done-held job later other (run_calls calls t) row now
            (run_calls-HasUniqueIds calls t unique') last (is_held-id job worker now row hit),
      )
      refl
