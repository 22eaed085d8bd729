-- ===== src/Notice/Pass.antt =====
-- `process_due_notification_plans` of app/services/notification_planner.py: a pass of the worker.
use kelin_server.Prelude.{
  zero, is_some, transaction, ◌>>◌, ℕ, String, List, [], ◌∷◌, Option, some, if◌then◌else◌, pure,
  lift, ◌>>=◌, ◌>>◌,
}
use kelin_server.Clock.{Moment, require_aware}
use kelin_server.Notice.Rules.{Clocks}
use kelin_server.Notice.Store.{Action}
use kelin_server.Outbox.Repository.{OutboxJob}
use kelin_server.Outbox.Repository
use kelin_server.Prelude.Int.{ℤ, pos}
use kelin_server.Outbox.Policy.{default_outbox_lease_seconds}
use kelin_server.Outbox.Procedures.{reclaim_expired_outbox}
use kelin_server.Notice.Planner.{NotificationPlanResult, on_outbox, plan_notification_job}

module _ (k : Clocks) (parse_uuid : String → Option ℕ) where
  -- The jobs that a pass has claimed, one transaction each; a job without an owner is passed over.
  unfoldable pub plan_jobs : List OutboxJob → Moment → Action (List NotificationPlanResult)
  unfolding plan_notification_job
  plan_jobs [] moment = pure []
  plan_jobs (job ∷ jobs) moment =
      let rest = plan_jobs jobs moment in
      if is_some job.owner_id
      then (do
        result ← transaction (plan_notification_job k parse_uuid job moment)
        results ← rest
        pure (result ∷ results))
      else rest

  -- `resolved.outbox_lease_seconds or DEFAULT_OUTBOX_LEASE_SECONDS`
  unfoldable pub lease_or_default : ℤ → ℤ
  unfolding default_outbox_lease_seconds
  lease_or_default (pos zero) = default_outbox_lease_seconds
  lease_or_default seconds = seconds

  unfoldable pub claim_plans : ℕ → String → ℤ → ℤ → Action (List OutboxJob)
  unfolding lease_or_default
  claim_plans now worker_id limit lease_seconds = do
    on_outbox (reclaim_expired_outbox now)
    on_outbox (
        Repository.claim_due_outbox now worker_id limit (lease_or_default lease_seconds)
          (some ("notification.plan_user" ∷ [])))

  unfoldable pub process_due_notification_plans :
      Moment → String → ℤ → ℤ → Action (List NotificationPlanResult)
  unfolding require_aware claim_plans plan_jobs
  process_due_notification_plans moment worker_id limit lease_seconds = do
    now ← lift (require_aware moment)
    jobs ← transaction (claim_plans now worker_id limit lease_seconds)
    plan_jobs jobs moment
