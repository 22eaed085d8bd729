-- ===== src/Spirit/Advance/Order.antt =====
-- Stages only advance.
use kelin_server.Prelude.{
  ℕ, ◌≡◌, ◌≤◌, true, All, ok, arith, ◌>>=◌, pure, All-update_where, Keeps, Keeps-bind, Keeps-pure,
  Keeps-bind-lift,
}
use kelin_server.Spirit.Stage.{Stage, stage_rank, require_forward_step}
use kelin_server.Spirit.Store.{SpiritRow, Session, is_owned, update_spirit}
use kelin_server.Spirit.Advance.{
  same_stage, stands_at, with_stage, stage_row, advance_stage, maybe_advance_stage,
}
use kelin_server.Spirit.Advance.Keeps.{maybe_advance_stage-Keeps}

-- The spirit stands at rank `k` or further.
pub record HasReached (owner spirit k : ℕ) (s : Session) : Type 0 where
  pub rows :
      All
        (λ (row : SpiritRow). is_owned owner spirit row ≡ true → k ≤ stage_rank row.stage)
        s.spirits

module _ (owner spirit k : ℕ) where
  abbrev Reached : Session → Type 0
  Reached = HasReached owner spirit k

  same_stage-rank : (a b : Stage) → same_stage a b ≡ true → stage_rank a ≡ stage_rank b
  same_stage-rank a b h = ground arith

  -- A step that is accepted, from where the row stands.
  step_reaches :
      (from_stage to_stage : Stage) (row : SpiritRow)
      → require_forward_step from_stage to_stage ≡ ok tt
      → stands_at owner spirit from_stage row ≡ true
      → (is_owned owner spirit row ≡ true → k ≤ stage_rank row.stage)
      → is_owned owner spirit (with_stage to_stage row) ≡ true
      → k ≤ stage_rank to_stage
  unfolding stands_at require_forward_step is_owned
  step_reaches from_stage to_stage row e at h o =
      ground (arith, same_stage-rank row.stage from_stage)

  advance_stage-Keeps :
      (from_stage to_stage : Stage) → Keeps Reached (advance_stage owner spirit from_stage to_stage)
  unfolding advance_stage update_spirit
  advance_stage-Keeps from_stage to_stage =
      Keeps-bind-lift (require_forward_step from_stage to_stage)
        (λ _. update_spirit (stands_at owner spirit from_stage) (with_stage to_stage) >>= λ row.
          pure (stage_row row))
        λ t e.
          Keeps-bind (update_spirit (stands_at owner spirit from_stage) (with_stage to_stage))
            (λ row. pure (stage_row row))
            (record {
              at = λ s h. record {
                rows =
                    All-update_where _ (stands_at owner spirit from_stage) (with_stage to_stage)
                      s.spirits
                      (λ row at reached. step_reaches from_stage to_stage row e at reached) h.rows;
              };
            })
            (λ row. Keeps-pure (stage_row row))

  -- No call of `maybe_advance_stage` takes a spirit back, whether it returns or raises: a spirit
  -- that has reached a rank has reached it after the call.
  pub maybe_advance_stage-HasReached :
      Keeps (HasReached owner spirit k) (maybe_advance_stage owner spirit)
  maybe_advance_stage-HasReached =
      maybe_advance_stage-Keeps owner spirit Reached advance_stage-Keeps
