-- ===== src/Spirit/Advance/Keeps.antt =====
-- What a step keeps, `maybe_advance_stage` keeps.
use kelin_server.Prelude.{
  ℕ, List, [], Option, none, some, ◌>>=◌, lift, Keeps, Keeps-bind, Keeps-pure, Keeps-bind-lift,
}
use kelin_server.Spirit.Stage.{
  Stage, EvolutionFacts, EvolutionSummaryPatch, StageAdvance, next_stage, evolution_summary_patch,
}
use kelin_server.Spirit.Store.{Session, assert_writable_transaction}
use kelin_server.Spirit.Advance.{
  fetch_evolution_facts, StageRow, advance_stage, Rest, finish_rounds, advance_written,
  advance_step, advance_known, advance_round, maybe_advance_stage, writable_message,
}

module _ (owner spirit : ℕ) (P : Session → Type 0)
    (keep_stage : (from_stage to_stage : Stage)
      → Keeps P (advance_stage owner spirit from_stage to_stage)) where
  module _ (rest : Rest)
      (keep : (advances : List StageAdvance) (summary : Option EvolutionSummaryPatch)
        → Keeps P (rest advances summary)) where
    advance_written-Keeps :
        (advances : List StageAdvance) (facts : EvolutionFacts) (summary : EvolutionSummaryPatch)
        (row : Option StageRow)
        → Keeps P (advance_written advances rest facts summary row)
    advance_written-Keeps advances facts summary none = Keeps-pure _
    advance_written-Keeps advances facts summary (some row) =
        Keeps-bind-lift (evolution_summary_patch facts (some row.stage)) _
          λ after _. keep _ (some after)

    advance_step-Keeps :
        (advances : List StageAdvance) (facts : EvolutionFacts) (summary : EvolutionSummaryPatch)
        (nxt : Option Stage)
        → Keeps P (advance_step owner spirit advances rest facts summary nxt)
    advance_step-Keeps advances facts summary none = Keeps-pure _
    advance_step-Keeps advances facts summary (some nxt) =
        Keeps-bind (advance_stage owner spirit facts.stage nxt)
          (advance_written advances rest facts summary) (keep_stage facts.stage nxt)
          (advance_written-Keeps advances facts summary)

    advance_known-Keeps :
        (advances : List StageAdvance) (facts : Option EvolutionFacts)
        → Keeps P (advance_known owner spirit advances rest facts)
    advance_known-Keeps advances none = Keeps-pure _
    advance_known-Keeps advances (some facts) =
        Keeps-bind-lift (next_stage facts)
          (λ nxt. lift (evolution_summary_patch facts none) >>= λ summary.
            advance_step owner spirit advances rest facts summary nxt)
          λ nxt _.
            Keeps-bind-lift (evolution_summary_patch facts none)
              (λ summary. advance_step owner spirit advances rest facts summary nxt)
              λ summary _. advance_step-Keeps advances facts summary nxt

    advance_round-Keeps :
        (advances : List StageAdvance) (summary : Option EvolutionSummaryPatch)
        → Keeps P (advance_round owner spirit rest advances summary)
    unfolding advance_round fetch_evolution_facts
    advance_round-Keeps advances summary =
        Keeps-bind (fetch_evolution_facts owner spirit) (advance_known owner spirit advances rest)
          (record { at = λ s h. h }) (advance_known-Keeps advances)

  pub maybe_advance_stage-Keeps : Keeps P (maybe_advance_stage owner spirit)
  unfolding maybe_advance_stage assert_writable_transaction
  maybe_advance_stage-Keeps =
      Keeps-bind (assert_writable_transaction writable_message)
        (λ _. advance_round owner spirit (advance_round owner spirit finish_rounds) [] none)
        (record { at = λ s h. h })
        λ _.
          advance_round-Keeps (advance_round owner spirit finish_rounds)
            (advance_round-Keeps finish_rounds (λ advances summary. Keeps-pure _)) [] none
