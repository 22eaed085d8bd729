-- ===== src/Spirit/Advance.antt =====
-- Stages advance and marks are granted: app/repositories/evolution.py and app/services/evolution.py.
pub mod Keeps
pub mod Grant
pub mod Order
use kelin_server.Prelude.{
  ℕ, ◌+◌, Bool, true, false, ◌&&◌, ◌||◌, not, String, List, [], ◌∷◌, ◌++◌, Option, none, some, ◌==◌,
  str_eq, if◌then◌else◌, Result, ok, err, bind_result, Exec, runtime_error, raise_if, lift, ◌>>=◌,
  ◌>>◌, gets, find?, update_where, pure, is_some,
}
use kelin_server.Spirit.Marks.{
  Text, has_mark, require_scholar_mark_key, unique_scholar_marks, pact_scholar_mark_key,
}
use kelin_server.Spirit.Stage.{
  Stage, stage_rank, whelp, formed, awake, uncatalogued, EvolutionFacts, StageAdvance,
  EvolutionSummaryPatch, next_stage, require_forward_step, evolution_summary_patch,
}
use kelin_server.Spirit.Store.{
  SpiritRow, MemoryRow, FeedRow, EventRow, Session, Action, assert_writable_transaction, is_owned,
  update_spirit,
}

abbrev has_text : String → List String → Bool
has_text t [] = false
has_text t (u ∷ rest) = str_eq t u || has_text t rest

-- `SELECT DISTINCT m.type FROM public.memories m WHERE m.spirit_id = s.id AND m.status = 'active'`
unfoldable pub memory_types : ℕ → List MemoryRow → List String
memory_types spirit [] = []
memory_types spirit (m ∷ rest) =
    let kinds = memory_types spirit rest in
    if (m.spirit_id == spirit && m.active) && not (has_text m.kind kinds)
    then m.kind ∷ kinds
    else kinds

abbrev pub is_knowledge_growth : ℕ → FeedRow → Bool
is_knowledge_growth spirit f =
    f.spirit_id == spirit
    && (str_eq f.kind "knowledge" && (f.accepted && is_some f.effect_applied_at))

abbrev pub is_pact_growth : ℕ → EventRow → Bool
is_pact_growth spirit g =
    g.spirit_id == spirit && (str_eq g.key.event_type "pact_completed" && is_some g.applied_at)

-- The facts of one row, for the marks that it has once they are unique.
unfoldable pub facts_of : Session → SpiritRow → List Text → EvolutionFacts
facts_of s row marks = record {
  stage = row.stage;
  bond = row.vitals.bond;
  active_memory_types = memory_types row.id s.memories;
  has_knowledge_or_pact_growth =
      is_some (find? (is_knowledge_growth row.id) s.feeds)
      || is_some (find? (is_pact_growth row.id) s.events);
  has_visited = row.has_visited;
  has_been_lost = row.has_been_lost;
  scholar_marks = marks;
}

abbrev pub row_facts : Session → Option SpiritRow → Result (Option EvolutionFacts)
row_facts s none = ok none
row_facts s (some row) =
    bind_result (unique_scholar_marks row.scholar_marks) λ marks. ok (some (facts_of s row marks))

unfoldable pub fetch_evolution_facts : ℕ → ℕ → Action (Option EvolutionFacts)
fetch_evolution_facts owner spirit s = (row_facts s (find? (is_owned owner spirit) s.spirits), s)

pub record StageRow : Type 0 where
  pub stage : Stage
  pub version : ℕ

-- Two texts outside the catalog are never compared: `require_forward_step` refuses one from there,
-- but for whelp.
abbrev pub same_stage : Stage → Stage → Bool
same_stage (uncatalogued a) (uncatalogued b) = str_eq a b
same_stage (uncatalogued a) _ = false
same_stage _ (uncatalogued b) = false
same_stage a b = stage_rank a == stage_rank b

-- `WHERE id = :id AND user_id = :user_id AND stage = :from_stage`
unfoldable pub stands_at : ℕ → ℕ → Stage → SpiritRow → Bool
stands_at owner spirit from_stage row = is_owned owner spirit row && same_stage row.stage from_stage

abbrev pub with_stage : Stage → SpiritRow → SpiritRow
with_stage to_stage row = record row { stage = to_stage; version = row.version + 1 }

abbrev pub stage_row : Option SpiritRow → Option StageRow
stage_row none = none
stage_row (some row) = some (record { stage = row.stage; version = row.version })

unfoldable pub advance_stage : ℕ → ℕ → Stage → Stage → Action (Option StageRow)
advance_stage owner spirit from_stage to_stage = do
  _ ← lift (require_forward_step from_stage to_stage)
  row ← update_spirit (stands_at owner spirit from_stage) (with_stage to_stage)
  pure (stage_row row)

-- `WHERE … AND NOT (scholar_marks @> ARRAY[:mark])`
unfoldable pub lacks_mark : ℕ → ℕ → Text → SpiritRow → Bool
lacks_mark owner spirit mark row =
    is_owned owner spirit row && not (has_mark mark row.scholar_marks)

abbrev pub with_mark : Text → SpiritRow → SpiritRow
with_mark mark row = record row {
  scholar_marks = row.scholar_marks ++ mark ∷ [];
  version = row.version + 1;
}

pub record ScholarMarkRow : Type 0 where
  pub scholar_marks : List Text
  pub version : ℕ

abbrev pub mark_row : Option SpiritRow → Result (Option ScholarMarkRow)
mark_row none = ok none
mark_row (some row) =
    bind_result (unique_scholar_marks row.scholar_marks)
      λ marks. ok (some (record { scholar_marks = marks; version = row.version }))

abbrev pub append_key : ℕ → ℕ → Text → Action (Option ScholarMarkRow)
append_key owner spirit key =
    update_spirit (lacks_mark owner spirit key) (with_mark key) >>= λ row. lift (mark_row row)

unfoldable pub append_scholar_mark : ℕ → ℕ → Text → Action (Option ScholarMarkRow)
append_scholar_mark owner spirit mark =
    lift (require_scholar_mark_key mark) >>= append_key owner spirit

pub record EvolutionRecord : Type 0 where
  pub advances : List StageAdvance
  pub summary : Option EvolutionSummaryPatch

abbrev pub writable_message : String
writable_message = "evolution cannot write in a read-only transaction"

-- What follows a round: the advances and the summary so far.
abbrev pub Rest : Type 0
Rest = List StageAdvance → Option EvolutionSummaryPatch → Action EvolutionRecord

abbrev pub finish_rounds : Rest
finish_rounds advances summary = pure (record { advances = advances; summary = summary })

-- The end of a round whose step wrote a row, or did not.
abbrev pub advance_written :
    List StageAdvance
    → Rest
    → EvolutionFacts
    → EvolutionSummaryPatch
    → Option StageRow
    → Action EvolutionRecord
advance_written advances rest facts summary none = finish_rounds advances (some summary)
advance_written advances rest facts summary (some row) =
    lift (evolution_summary_patch facts (some row.stage)) >>= λ after.
    rest (advances ++ record { from_stage = facts.stage; to_stage = row.stage } ∷ []) (some after)

abbrev pub advance_step :
    ℕ
    → ℕ
    → List StageAdvance
    → Rest
    → EvolutionFacts
    → EvolutionSummaryPatch
    → Option Stage
    → Action EvolutionRecord
advance_step owner spirit advances rest facts summary none = finish_rounds advances (some summary)
advance_step owner spirit advances rest facts summary (some nxt) =
    advance_stage owner spirit facts.stage nxt >>= advance_written advances rest facts summary

abbrev pub advance_known :
    ℕ → ℕ → List StageAdvance → Rest → Option EvolutionFacts → Action EvolutionRecord
advance_known owner spirit advances rest none = finish_rounds [] none
advance_known owner spirit advances rest (some facts) = do
  nxt ← lift (next_stage facts)
  summary ← lift (evolution_summary_patch facts none)
  advance_step owner spirit advances rest facts summary nxt

-- The body of the loop.
unfoldable pub advance_round : ℕ → ℕ → Rest → Rest
advance_round owner spirit rest advances summary =
    fetch_evolution_facts owner spirit >>= advance_known owner spirit advances rest

-- `for _ in range(2)`
unfoldable pub maybe_advance_stage : ℕ → ℕ → Action EvolutionRecord
maybe_advance_stage owner spirit = do
  _ ← assert_writable_transaction writable_message
  advance_round owner spirit (advance_round owner spirit finish_rounds) [] none

abbrev pub granted_or_known : ℕ → ℕ → Option ScholarMarkRow → Action (Option (List Text))
granted_or_known owner spirit (some row) = pure (some row.scholar_marks)
granted_or_known owner spirit none = fetch_evolution_facts owner spirit >>= λ facts.
    pure (elim facts [ none ↦ none | some known ↦ some known.scholar_marks ])

-- What follows the key.
abbrev pub grant_key : ℕ → ℕ → Text → Action (Option (List Text))
grant_key owner spirit key = append_scholar_mark owner spirit key >>= granted_or_known owner spirit

abbrev pub grant_checked : ℕ → ℕ → String → Text → Action (Option (List Text))
grant_checked owner spirit theme question_bank_version =
    lift (pact_scholar_mark_key theme question_bank_version) >>= grant_key owner spirit

unfoldable pub grant_pact_scholar_mark : ℕ → ℕ → String → Text → Action (Option (List Text))
grant_pact_scholar_mark owner spirit theme question_bank_version =
    assert_writable_transaction writable_message
    >> grant_checked owner spirit theme question_bank_version
