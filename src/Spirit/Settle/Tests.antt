-- ===== src/Spirit/Settle/Tests.antt =====
-- A settle that writes, and the settle after it.
use kelin_server.Prelude.{◌≡◌, refl, true, false, none, ok, [], ◌∷◌}
use kelin_server.Clock.{aware, require_aware, require_aware_optional}
use kelin_server.Spirit.State.{
  home, study, decide_state, desired_spirit_state, patch_equals_snapshot,
}
use kelin_server.Spirit.Marks.{unique_scholar_marks, unique_from}
use kelin_server.Spirit.Stage.{
  awake, next_stage, formed_ready, awake_ready, evolution_summary_patch,
}
use kelin_server.Spirit.Store.{
  SpiritRow, Session, Vitals, assert_writable_transaction, is_owned, update_spirit,
}
use kelin_server.Spirit.Advance.{
  maybe_advance_stage, advance_round, fetch_evolution_facts, facts_of, memory_types,
}
use kelin_server.Spirit.Settle.{
  settle_spirit_state, settle_owner, settle_locked, settle_patch, write_settled, record_settled,
  apply_spirit_state_patch, insert_state_settle_outbox, lock_spirit_state_for_owner, locked_row,
  snapshot_of_row, visit_on_of, owned_by, is_expected, settled, SpiritSettleResult,
}
use kelin_server.Spirit.Settle.Again.{IsQuiet, settle_spirit_state_again}

abbrev even_vitals : Vitals
even_vitals = record {
  hunger = 50;
  energy = 50;
  mood = 50;
  bond = 60;
  closeness = 50;
  curiosity = 50;
  sharpness = 50;
  nocturnal = 50;
  stubborn = 50;
}

-- It has idled for 20 hours at the instant 73000.
abbrev grown_up : SpiritRow
grown_up = record {
  id = 1;
  user_id = 7;
  stage = awake;
  status = home;
  vitals = even_vitals;
  last_interact_at = 1000;
  study_until = none;
  away_until = none;
  has_visited = false;
  has_been_lost = false;
  scholar_marks = [];
  version = 3;
}

abbrev den : Session
den = record {
  spirits = grown_up ∷ [];
  memories = [];
  feeds = [];
  events = [];
  pacts = [];
  preferences = (7, false) ∷ [];
  outbox = [];
  next_id = 5;
  read_only = false;
}

-- The first call moves the spirit to study, with a new version.
abbrev to_study : SpiritSettleResult
to_study = settled (locked_row den grown_up) study 4 true

den_settled : (settle_spirit_state 7 (aware 73000) den).0 ≡ ok to_study
unfolding settle_spirit_state settle_owner settle_locked settle_patch write_settled record_settled
    apply_spirit_state_patch insert_state_settle_outbox lock_spirit_state_for_owner snapshot_of_row
    visit_on_of owned_by is_expected is_owned update_spirit assert_writable_transaction
    require_aware require_aware_optional desired_spirit_state decide_state patch_equals_snapshot
    maybe_advance_stage advance_round fetch_evolution_facts facts_of memory_types
    unique_scholar_marks unique_from next_stage formed_ready awake_ready evolution_summary_patch
den_settled = refl

settle_spirit_state_again_example :
    IsQuiet
      (settle_spirit_state 7 (aware 73000) den).1
      (settle_spirit_state 7 (aware 73000) (settle_spirit_state 7 (aware 73000) den).1)
unfolding settle_spirit_state settle_owner settle_locked settle_patch write_settled record_settled
    apply_spirit_state_patch insert_state_settle_outbox lock_spirit_state_for_owner snapshot_of_row
    visit_on_of owned_by is_expected is_owned update_spirit assert_writable_transaction
    require_aware require_aware_optional desired_spirit_state decide_state patch_equals_snapshot
    maybe_advance_stage advance_round fetch_evolution_facts facts_of memory_types
    unique_scholar_marks unique_from next_stage formed_ready awake_ready evolution_summary_patch
settle_spirit_state_again_example = settle_spirit_state_again 7 73000 den to_study den_settled refl
