-- ===== src/Spirit/Stage.antt =====
-- The stages of a spirit: app/domain/evolution.py.
pub mod Facts
use kelin_server.Prelude.{
  ℕ, ◌+◌, Bool, true, false, ◌&&◌, ◌||◌, not, String, List, [], ◌∷◌, length, Option, none, some,
  leb, ◌==◌, if◌then◌else◌, Result, ok, err, value_error, bind_result,
}
use kelin_server.Spirit.Marks.{Text, unique_scholar_marks, title_suffix}

-- A `str` in the place of a stage: one of `STAGES`, or another text.
pub data Stage : Type 0 where
  whelp formed awake : Stage
  uncatalogued : String → Stage

-- `STAGE_ORDER.get(stage, -1) + 1`
abbrev pub stage_rank : Stage → ℕ
stage_rank (uncatalogued name) = 0
stage_rank whelp = 1
stage_rank formed = 2
stage_rank awake = 3

abbrev pub formed_bond_min : ℕ
formed_bond_min = 20

abbrev pub awake_bond_min : ℕ
awake_bond_min = 50

abbrev pub formed_active_memory_types : ℕ
formed_active_memory_types = 3

-- The memory types are a set, listed without repetition.
pub record EvolutionFacts : Type 0 where
  pub stage : Stage
  pub bond : ℕ
  pub active_memory_types : List String
  pub has_knowledge_or_pact_growth : Bool
  pub has_visited : Bool
  pub has_been_lost : Bool
  pub scholar_marks : List Text

pub record StageAdvance : Type 0 where
  pub from_stage : Stage
  pub to_stage : Stage

pub record EvolutionSummaryPatch : Type 0 where
  pub stage : Stage
  pub scholar_marks : List Text
  pub room_layers_include_scholar : Bool
  pub report_title_suffix : Option Text

unfoldable pub formed_ready : EvolutionFacts → Bool
formed_ready facts =
    leb formed_bond_min facts.bond
    && leb formed_active_memory_types (length facts.active_memory_types)

unfoldable pub awake_ready : EvolutionFacts → Bool
awake_ready facts =
    leb awake_bond_min facts.bond
    && (facts.has_knowledge_or_pact_growth && (facts.has_visited || facts.has_been_lost))

abbrev pub step_from : Stage → Bool → Bool → Result (Option Stage)
step_from (uncatalogued name) to_formed to_awake =
    err (value_error "spirit stage is not in the catalog")
step_from whelp to_formed to_awake = if to_formed then ok (some formed) else ok none
step_from formed to_formed to_awake = if to_awake then ok (some awake) else ok none
step_from awake to_formed to_awake = ok none

unfoldable pub next_stage : EvolutionFacts → Result (Option Stage)
next_stage facts = step_from facts.stage (formed_ready facts) (awake_ready facts)

-- The difference of two orders is the difference of two ranks.
unfoldable pub require_forward_step : Stage → Stage → Result (Unit {0})
require_forward_step current nxt =
    if stage_rank nxt == stage_rank current + 1
    then ok tt
    else err (value_error "stage must advance one step without skip or regress")

abbrev pub has_marks : List Text → Bool
has_marks [] = false
has_marks (m ∷ marks) = true

unfoldable pub evolution_summary_patch :
    EvolutionFacts → Option Stage → Result EvolutionSummaryPatch
evolution_summary_patch facts stage =
    bind_result (unique_scholar_marks facts.scholar_marks) λ marks. ok (record {
      stage = elim stage [ none ↦ facts.stage | some given ↦ given ];
      scholar_marks = marks;
      room_layers_include_scholar = has_marks marks;
      report_title_suffix = if has_marks marks then some title_suffix else none;
    })
