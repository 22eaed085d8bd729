-- ===== src/Spirit/Stage/Facts.antt =====
-- What the stage functions guarantee.
use kelin_server.Prelude.{◌+◌, ◌≡◌, ◌≤◌, ◌↔◌, true, some, ok, arith, length, ◌⊎◌}
use kelin_server.Spirit.Stage.{
  Stage, formed, awake, stage_rank, EvolutionFacts, formed_ready, awake_ready, next_stage,
  require_forward_step,
}

-- A step that `next_stage` proposes is one that `require_forward_step` accepts, and its facts meet
-- the thresholds of the stage it leads to.
pub next_stage-forward :
    (facts : EvolutionFacts) (nxt : Stage)
    → next_stage facts ≡ ok (some nxt)
    → (require_forward_step facts.stage nxt ≡ ok tt)
      × (((nxt ≡ formed) × (20 ≤ facts.bond) × (3 ≤ length facts.active_memory_types))
          ⊎ ((nxt ≡ awake)
              × (50 ≤ facts.bond)
              × (facts.has_knowledge_or_pact_growth ≡ true)
              × ((facts.has_visited ≡ true) ⊎ (facts.has_been_lost ≡ true))))
unfolding next_stage formed_ready awake_ready require_forward_step
next_stage-forward facts nxt e = (ground arith, ground arith)

-- `require_forward_step` accepts a stage that is one rank further, where a text outside the catalog
-- has the rank below whelp.
pub require_forward_step_iff :
    (current nxt : Stage)
    → (require_forward_step current nxt ≡ ok tt) ↔ (stage_rank nxt ≡ stage_rank current + 1)
unfolding require_forward_step
require_forward_step_iff current nxt = (λ e. ground arith, λ e. ground arith)
