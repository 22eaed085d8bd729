-- ===== src/Spirit/Tests.antt =====
-- Runs of the spirit's code, and the theorems about it at concrete inputs.
use kelin_server.Prelude.{
  ℕ, codes, List, String, ◌≡◌, ◌≤◌, ◌⊎◌, refl, true, false, none, some, Result, ok, [], ◌∷◌, arith,
  ◌<◌, ◌↔◌, length, In, Bool-cases, str_eq, inl, inr, eq_iff, count, subst,
}
use kelin_server.Prelude.Int.{ℤ, pos, negsuc}
use kelin_server.Clock.{aware, instant}
use kelin_server.Spirit.State.{
  home, lost, SpiritStateSnapshot, decide_state, apply_patch, patch_equals_snapshot, idle_for,
  desired_spirit_state, idle_lost, idle_study_or_away,
}
use kelin_server.Spirit.State.Facts.{
  lost_iff, settle_idempotent, IsCoherent, decide_state-IsCoherent, IsAware, IsAwareOptional,
  desired_spirit_state_iff,
}
use kelin_server.Spirit.Stage.{
  whelp, formed, awake, EvolutionFacts, next_stage, require_forward_step, formed_ready,
}
use kelin_server.Spirit.Stage.Facts.{next_stage-forward}
use kelin_server.Spirit.Growth.{
  Payload, source_type_of, all_parse, compact_growth_payload, parse_growth_payload,
}
use kelin_server.Spirit.Growth.Facts.{compact_growth_payload-stable}
use kelin_server.Spirit.Store.{Vitals, SpiritRow, MemoryRow, Session, is_owned}
use kelin_server.Spirit.Events.{GrowthRecord, record_and_apply}
use kelin_server.Spirit.Events.Once.{IsIdle}
use kelin_server.Spirit.Events.Repeat.{record_and_apply_once}
use kelin_server.Spirit.Events.Fresh.{record_and_apply_run}
use kelin_server.Spirit.Events.Columns.{IsDict, HasGrown, record_and_apply_new}
use kelin_server.Spirit.Events.Range.{IsRanged, record_and_apply-IsRanged}
use kelin_server.Spirit.Marks.Facts.{notes_key}
use kelin_server.Spirit.Advance.Grant.{
  HasAll, grant_pact_scholar_mark_again, grant_pact_scholar_mark-HasAll,
}
use kelin_server.Spirit.Advance.{grant_pact_scholar_mark, maybe_advance_stage}
use kelin_server.Spirit.Advance.Order.{HasReached, maybe_advance_stage-HasReached}

-- A spirit that was lost, has a study time ahead, and has idled for 20 hours.
abbrev wanderer : SpiritStateSnapshot
wanderer = record {
  status = lost;
  last_interact_at = aware 1000;
  study_until = some (aware 80000);
  away_until = none;
  has_been_lost = true;
  visit_on = true;
  has_due_study_task = true;
}

lost_iff_example : ((decide_state wanderer 73000).status ≡ lost) ↔ (
    (idle_lost ≤ idle_for wanderer 73000)
    ⊎ ((wanderer.status ≡ lost) × (idle_for wanderer 73000 < idle_study_or_away)))
lost_iff_example = lost_iff wanderer 73000

settle_idempotent_example :
    patch_equals_snapshot
      (apply_patch wanderer (decide_state wanderer 73000))
      (decide_state (apply_patch wanderer (decide_state wanderer 73000)) 73000)
    ≡ true
settle_idempotent_example = settle_idempotent wanderer 73000

decide_state-IsCoherent_example :
    IsCoherent (decide_state wanderer 73000) 73000
    × (true ≡ true → (decide_state wanderer 73000).has_been_lost ≡ true)
decide_state-IsCoherent_example = decide_state-IsCoherent wanderer 73000

desired_spirit_state_iff_example :
    (desired_spirit_state wanderer (aware 73000)
      ≡ ok (decide_state wanderer (instant (aware 73000))))
    ↔ (IsAware (aware 73000)
        × IsAware wanderer.last_interact_at
        × IsAwareOptional wanderer.study_until
        × IsAwareOptional wanderer.away_until)
desired_spirit_state_iff_example = desired_spirit_state_iff wanderer (aware 73000)

abbrev ready_facts : EvolutionFacts
ready_facts = record {
  stage = whelp;
  bond = 20;
  active_memory_types = "a" ∷ "b" ∷ "c" ∷ [];
  has_knowledge_or_pact_growth = false;
  has_visited = false;
  has_been_lost = false;
  scholar_marks = [];
}

next_stage-forward_example :
    (require_forward_step whelp formed ≡ ok tt)
    × (((formed ≡ formed) × (20 ≤ 20) × (3 ≤ length ready_facts.active_memory_types))
        ⊎ ((formed ≡ awake) × (50 ≤ 20) × (false ≡ true) × ((false ≡ true) ⊎ (false ≡ true))))
unfolding next_stage formed_ready
next_stage-forward_example = next_stage-forward ready_facts formed refl

abbrev meal : Payload
meal = ("hunger_delta", pos 10) ∷ ("mood_delta", pos 0) ∷ ("bond_delta", negsuc 4) ∷ []

compact_growth_payload-stable_example :
    (parse_growth_payload meal ≡ ok meal)
    × (compact : Payload) × (compact_growth_payload meal ≡ ok compact)
    × ((entry : String × ℤ) → In entry compact ↔ (In entry meal × ¬ (entry.1 ≡ pos 0)))
    × (parse_growth_payload compact ≡ ok compact)
    × (compact_growth_payload compact ≡ ok compact)
unfolding all_parse
compact_growth_payload-stable_example = compact_growth_payload-stable meal refl

abbrev even_vitals : Vitals
even_vitals = record {
  hunger = 95;
  energy = 50;
  mood = 50;
  bond = 20;
  closeness = 50;
  curiosity = 50;
  sharpness = 50;
  nocturnal = 50;
  stubborn = 50;
}

abbrev young : SpiritRow
young = record {
  id = 1;
  user_id = 7;
  stage = whelp;
  status = home;
  vitals = even_vitals;
  last_interact_at = 1000;
  study_until = none;
  away_until = none;
  has_visited = false;
  has_been_lost = false;
  scholar_marks = [];
  version = 3;
}

abbrev memory : String → MemoryRow
memory kind = record { spirit_id = 1; kind = kind; active = true }

abbrev nest : Session
nest = record {
  spirits = young ∷ [];
  memories = memory "a" ∷ memory "b" ∷ memory "c" ∷ [];
  feeds = [];
  events = [];
  pacts = [];
  preferences = [];
  outbox = [];
  next_id = 5;
  read_only = false;
}

abbrev fed : Result GrowthRecord × Session
fed = record_and_apply 7 1 "feed_accepted" 9 meal 2000 true nest

meal-IsDict : IsDict meal
meal-IsDict key = elim (Bool-cases (str_eq "hunger_delta" key)) [
  | inl hit ↦
      subst (λ k. count (λ (e : String × ℤ). str_eq e.0 k) meal ≤ 1)
        ((eq_iff "hunger_delta" key).0 hit) (omega arith)
  | inr miss ↦ elim (Bool-cases (str_eq "mood_delta" key)) [
    | inl hit ↦
        subst (λ k. count (λ (e : String × ℤ). str_eq e.0 k) meal ≤ 1)
          ((eq_iff "mood_delta" key).0 hit) (omega arith)
    | inr other ↦ rw (miss, other) (ground arith)
  ]
]

record_and_apply_new_example : HasGrown 7 1 meal 2000 true nest young fed
unfolding source_type_of all_parse is_owned
record_and_apply_new_example =
    record_and_apply_new 7 1 "feed_accepted" "feed" 9 meal 2000 true nest young refl refl
      meal-IsDict refl refl refl (ground arith)

nest-IsRanged : IsRanged nest
nest-IsRanged = record {
  spirits = (
    record {
      hunger = omega arith;
      energy = omega arith;
      mood = omega arith;
      bond = omega arith;
      closeness = omega arith;
      curiosity = omega arith;
      sharpness = omega arith;
      nocturnal = omega arith;
      stubborn = omega arith;
    },
    tt,
  );
}

record_and_apply-IsRanged_example : IsRanged fed.1
record_and_apply-IsRanged_example =
    record_and_apply-IsRanged 7 1 "feed_accepted" 9 meal 2000 true nest nest-IsRanged

record_and_apply_once_example :
    IsIdle fed.1 (record_and_apply 7 1 "feed_accepted" 9 meal 3000 true fed.1)
unfolding source_type_of all_parse is_owned
record_and_apply_once_example =
    record_and_apply_once 7 1 "feed_accepted" 9 meal 2000 true nest _ 7 1 meal 3000 true
      (record_and_apply_run 7 1 "feed_accepted" "feed" 9 meal 2000 true nest young refl refl refl
        refl refl (ground arith)).0

maybe_advance_stage-HasReached_example : HasReached 7 1 1 (maybe_advance_stage 7 1 nest).1
maybe_advance_stage-HasReached_example =
    (maybe_advance_stage-HasReached 7 1 1).at nest (record { rows = ((λ e. omega arith), tt) })

-- `a` is the version.
abbrev version_a : List ℕ
version_a = 97 ∷ []

abbrev granted : Session
granted = (grant_pact_scholar_mark 7 1 "notes" version_a nest).1

grant_pact_scholar_mark_again_example :
    (grant_pact_scholar_mark 7 1 "notes" version_a granted).1 ≡ granted
grant_pact_scholar_mark_again_example = grant_pact_scholar_mark_again 7 1 "notes" version_a nest

grant_pact_scholar_mark-HasAll_example : HasAll 7 1 (codes "notes-a") granted
grant_pact_scholar_mark-HasAll_example =
    grant_pact_scholar_mark-HasAll 7 1 "notes" version_a (codes "notes-a") nest refl notes_key
