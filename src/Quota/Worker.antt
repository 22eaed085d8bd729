-- ===== src/Quota/Worker.antt =====
-- `hold`, the context manager of app/services/quota.py, and its worker, `expire_due_reservations`.
use kelin_server.Prelude.{
  transaction, ℕ, ◌+◌, String, Option, List, [], ◌∷◌, if◌then◌else◌, Result, ok, err, pure, raise,
  lift, ◌>>=◌, ◌>>◌,
}
use kelin_server.Clock.{Moment, require_aware}
use kelin_server.Quota.Catalog.{Zones}
use kelin_server.Quota.Store.{held, ReservationRow, QuotaReservation, Action, is_status, is_active}
use kelin_server.Quota.Holds.{claim_expired_reservations}
use kelin_server.Quota.Service.{give_back, commit_quota, release_quota}
use kelin_server.Quota.Reserve.{reserve_quota}

module _ (z : Zones) where
  -- The end of the `async with hold(…)` block, by how its body ended.
  abbrev finish_hold : {A : Type 0} → ℕ → QuotaReservation → Moment → Result A → Action A
  finish_hold owner reservation now (ok a) =
      if is_status held reservation.status
      then (do commit_quota z owner reservation now; pure a)
      else pure a
  finish_hold owner reservation now (err e) =
      if is_status held reservation.status
      then (do release_quota z owner reservation now; raise e)
      else raise e

  -- `hold`, a context manager, around the body of the `async with` block.
  unfoldable pub hold :
      {A : Type 0}
      → ℕ
      → String
      → ℕ
      → Moment
      → Option String
      → ℕ
      → Option ℕ
      → (QuotaReservation → Action A)
      → Action A
  hold owner capability source_id now timezone amount limit_value body = do
    reservation ← reserve_quota z owner capability source_id now timezone amount limit_value
    λ s. let (r, s') = body reservation s in finish_hold owner reservation now r s'

  unfoldable pub expire_one : ReservationRow → Action (Unit {0})
  unfolding give_back
  expire_one row = do give_back z row.window row.amount row.id is_active; pure tt

  unfoldable pub expire_all : List ReservationRow → ℕ → Action ℕ
  expire_all [] count = pure count
  expire_all (row ∷ rest) count = do transaction (expire_one row); expire_all rest (count + 1)

  unfoldable pub expire_due_reservations : Moment → ℕ → Action ℕ
  unfolding expire_all
  expire_due_reservations now limit = do
    t ← lift (require_aware now)
    claimed ← transaction (claim_expired_reservations t limit)
    expire_all claimed 0
