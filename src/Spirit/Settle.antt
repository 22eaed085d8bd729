-- ===== src/Spirit/Settle.antt =====
-- The status is settled: app/repositories/spirit_state.py and app/services/spirit_state.py.
pub mod Settled
pub mod Again
mod Tests
use kelin_server.Prelude.{
  ℕ, ◌+◌, Bool, true, false, ◌&&◌, ◌||◌, not, String, List, [], ◌∷◌, ◌++◌, Option, none, some, ◌==◌,
  if◌then◌else◌, Result, ok, err, bind_result, Exec, runtime_error, integrity_error, raise_if, lift,
  ◌>>=◌, ◌>>◌, gets, find?, update_where, pure, is_some,
}
use kelin_server.Prelude
use kelin_server.Clock.{Moment, aware, instant, require_aware}
use kelin_server.Spirit.State.{
  SpiritStatus, SpiritStateSnapshot, SpiritStatePatch, desired_spirit_state, patch_equals_snapshot,
}
use kelin_server.Spirit.Store.{
  SpiritRow, PactRow, SettleKey, Session, Action, assert_writable_transaction, is_owned,
  same_settle_key, update_spirit,
}
use kelin_server.Spirit.Advance.{maybe_advance_stage}

pub record LockedSpiritState : Type 0 where
  pub spirit_id : ℕ
  pub version : ℕ
  pub last_interact_at : ℕ
  pub snapshot : SpiritStateSnapshot

-- `COALESCE(p.visit_on, true)`
unfoldable pub visit_on_of : ℕ → List (ℕ × Bool) → Bool
visit_on_of owner [] = true
visit_on_of owner ((user, visit_on) ∷ rest) =
    if user == owner then visit_on else visit_on_of owner rest

abbrev pub is_active_pact : ℕ → PactRow → Bool
is_active_pact spirit p = p.spirit_id == spirit && p.active

-- Columns of a `timestamptz` come back as aware values.
abbrev pub aware_optional : Option ℕ → Option Moment
aware_optional none = none
aware_optional (some t) = some (aware t)

unfoldable pub snapshot_of_row : Session → SpiritRow → SpiritStateSnapshot
snapshot_of_row s row = record {
  status = row.status;
  last_interact_at = aware row.last_interact_at;
  study_until = aware_optional row.study_until;
  away_until = aware_optional row.away_until;
  has_been_lost = row.has_been_lost;
  visit_on = visit_on_of row.user_id s.preferences;
  has_due_study_task = is_some (find? (is_active_pact row.id) s.pacts);
}

abbrev pub locked_row : Session → SpiritRow → LockedSpiritState
locked_row s row = record {
  spirit_id = row.id;
  version = row.version;
  last_interact_at = row.last_interact_at;
  snapshot = snapshot_of_row s row;
}

unfoldable pub owned_by : ℕ → SpiritRow → Bool
owned_by owner row = row.user_id == owner

unfoldable pub lock_spirit_state_for_owner : ℕ → Action (Option LockedSpiritState)
lock_spirit_state_for_owner owner s =
    (ok (Prelude.Option.map (locked_row s) (find? (owned_by owner) s.spirits)), s)

-- A `timestamptz` column holds the instant.
abbrev pub instant_optional : Option Moment → Option ℕ
instant_optional none = none
instant_optional (some m) = some (instant m)

abbrev pub patched : SpiritStatePatch → SpiritRow → SpiritRow
patched patch row = record row {
  status = patch.status;
  study_until = instant_optional patch.study_until;
  away_until = instant_optional patch.away_until;
  has_been_lost = patch.has_been_lost;
  version = row.version + 1;
}

unfoldable pub is_expected : ℕ → ℕ → ℕ → SpiritRow → Bool
is_expected owner spirit expected_version row =
    is_owned owner spirit row && row.version == expected_version

abbrev pub returned_version : Option SpiritRow → Result ℕ
returned_version none = err (runtime_error "spirit settle update matched no owner row")
returned_version (some row) = ok row.version

unfoldable pub apply_spirit_state_patch : ℕ → ℕ → SpiritStatePatch → ℕ → Action ℕ
apply_spirit_state_patch owner spirit patch expected_version = do
  row ← update_spirit (is_expected owner spirit expected_version) (patched patch)
  lift (returned_version row)

-- `dedupe_key` is unique.
unfoldable pub insert_state_settle_outbox :
    ℕ → ℕ → SpiritStatus → SpiritStatus → ℕ → Action (Unit {0})
insert_state_settle_outbox owner spirit from_status to_status version s =
    let key : SettleKey = record {
      spirit_id = spirit;
      from_status = from_status;
      to_status = to_status;
      version = version;
    } in
    if is_some (find? (same_settle_key key) s.outbox)
    then (err (integrity_error "uq_outbox_events_dedupe_key"), s)
    else (
      ok tt,
      record s { outbox = s.outbox ++ record { dedupe_key = key; owner_id = owner } ∷ [] },
    )

pub record SpiritSettleResult : Type 0 where
  pub spirit_id : Option ℕ
  pub status : Option SpiritStatus
  pub version : Option ℕ
  pub changed : Bool
  pub last_interact_at : Option ℕ

abbrev pub no_spirit : SpiritSettleResult
no_spirit = record {
  spirit_id = none;
  status = none;
  version = none;
  changed = false;
  last_interact_at = none;
}

abbrev pub settled : LockedSpiritState → SpiritStatus → ℕ → Bool → SpiritSettleResult
settled locked status version changed = record {
  spirit_id = some locked.spirit_id;
  status = some status;
  version = some version;
  changed = changed;
  last_interact_at = some locked.last_interact_at;
}

-- What follows the write of the patch.
unfoldable pub record_settled :
    ℕ → LockedSpiritState → SpiritStatePatch → ℕ → Action SpiritSettleResult
record_settled owner locked patch version = do
  _ ← insert_state_settle_outbox owner locked.spirit_id locked.snapshot.status patch.status version
  _ ← maybe_advance_stage owner locked.spirit_id
  pure (settled locked patch.status version true)

unfoldable pub write_settled : ℕ → LockedSpiritState → SpiritStatePatch → Action SpiritSettleResult
write_settled owner locked patch =
    apply_spirit_state_patch owner locked.spirit_id patch locked.version
    >>= record_settled owner locked patch

unfoldable pub settle_patch : ℕ → LockedSpiritState → SpiritStatePatch → Action SpiritSettleResult
settle_patch owner locked patch =
    if patch_equals_snapshot locked.snapshot patch
    then pure (settled locked locked.snapshot.status locked.version false)
    else write_settled owner locked patch

unfoldable pub settle_locked : ℕ → Moment → Option LockedSpiritState → Action SpiritSettleResult
settle_locked owner now none = pure no_spirit
settle_locked owner now (some locked) =
    lift (desired_spirit_state locked.snapshot now) >>= settle_patch owner locked

-- What follows the checks.
unfoldable pub settle_owner : ℕ → Moment → Action SpiritSettleResult
settle_owner owner now = lock_spirit_state_for_owner owner >>= settle_locked owner now

abbrev pub settle_message : String
settle_message = "spirit settle cannot write in a read-only transaction"

unfoldable pub settle_spirit_state : ℕ → Moment → Action SpiritSettleResult
settle_spirit_state owner now =
    lift (require_aware now)
    >> (assert_writable_transaction settle_message >> settle_owner owner now)
