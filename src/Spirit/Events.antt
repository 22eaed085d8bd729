-- ===== src/Spirit/Events.antt =====
-- Growth is applied once: app/repositories/growth.py and app/services/growth.py.
pub mod Once
pub mod Repeat
pub mod Fresh
pub mod Columns
pub mod Range
use kelin_server.Prelude.{
  ℕ, ◌+◌, Bool, true, false, ◌&&◌, ◌||◌, not, String, List, [], ◌∷◌, ◌++◌, Option, none, some, ltb,
  ◌==◌, if◌then◌else◌, Exec, Result, ok, err, bind_result, runtime_error, raise, raise_if, lift,
  ◌>>=◌, ◌>>◌, gets, modify, find?, update_where, pure, is_some,
}
use kelin_server.Prelude.Int.{ℤ}
use kelin_server.Spirit.Growth.{
  Payload, SourceKey, source_type_of, growth_dedupe_key, parse_growth_payload,
  compact_growth_payload, delta_of, clamp_growth_value,
}
use kelin_server.Spirit.Store.{
  Vitals, SpiritRow, EventRow, Session, Action, assert_writable_transaction, is_owned, same_key,
  update_spirit,
}

pub record GrowthEventRow : Type 0 where
  pub id : ℕ
  pub applied_at : Option ℕ
  pub payload : Payload
  pub inserted : Bool

pub record AppliedGrowth : Type 0 where
  pub vitals : Vitals
  pub version : ℕ
  pub last_interact_at : ℕ

-- `_event_row`
unfoldable pub event_row : EventRow → Bool → Result GrowthEventRow
event_row row inserted = bind_result (compact_growth_payload row.payload) λ compact.
    ok (record { id = row.id; applied_at = row.applied_at; payload = compact; inserted = inserted })

abbrev pub new_event : ℕ → SourceKey → Payload → ℕ → ℕ → EventRow
new_event spirit key payload occurred_at id = record {
  id = id;
  spirit_id = spirit;
  key = key;
  payload = payload;
  occurred_at = occurred_at;
  applied_at = none;
}

-- `INSERT … ON CONFLICT (source_type, source_id, event_type) DO NOTHING`, and where nothing is
-- inserted the row in its way. The row is there: it is what the insertion met.
abbrev pub insert_unless : ℕ → SourceKey → Payload → ℕ → Option EventRow → Action GrowthEventRow
insert_unless spirit key compact occurred_at (some old) s = (event_row old false, s)
insert_unless spirit key compact occurred_at none s = (
  event_row (new_event spirit key compact occurred_at s.next_id) true,
  record s {
    events = s.events ++ new_event spirit key compact occurred_at s.next_id ∷ [];
    next_id = s.next_id + 1;
  },
)

unfoldable pub insert_or_find : ℕ → SourceKey → Payload → ℕ → Action GrowthEventRow
insert_or_find spirit key compact occurred_at s =
    insert_unless spirit key compact occurred_at (find? (same_key key) s.events) s

-- The key and the payload of the row, before it is inserted.
pub record Prepared : Type 0 where
  pub key : SourceKey
  pub compact : Payload

unfoldable pub prepare_event : String → ℕ → Payload → Result Prepared
prepare_event event_type source_id payload = bind_result (source_type_of event_type) λ source_type.
    bind_result (growth_dedupe_key source_type source_id event_type) λ key.
      bind_result (parse_growth_payload payload) λ parsed.
        bind_result (compact_growth_payload parsed)
          λ compact. ok (record { key = key; compact = compact })

abbrev pub insert_prepared : ℕ → ℕ → Prepared → Action GrowthEventRow
insert_prepared spirit occurred_at p = insert_or_find spirit p.key p.compact occurred_at

unfoldable pub insert_growth_event : ℕ → String → ℕ → Payload → ℕ → Action GrowthEventRow
insert_growth_event spirit event_type source_id payload occurred_at =
    lift (prepare_event event_type source_id payload) >>= insert_prepared spirit occurred_at

abbrev pub is_unapplied : ℕ → EventRow → Bool
is_unapplied id row = row.id == id && not (is_some row.applied_at)

unfoldable pub mark_applied : ℕ → ℕ → Action Bool
mark_applied event now s = (
  ok (is_some (find? (is_unapplied event) s.events)),
  record s {
    events = update_where (is_unapplied event) (λ r. record r { applied_at = some now }) s.events;
  },
)

unfoldable pub grown : Payload → Vitals → Vitals
grown compact v = record {
  hunger = clamp_growth_value v.hunger (delta_of "hunger_delta" compact);
  energy = clamp_growth_value v.energy (delta_of "energy_delta" compact);
  mood = clamp_growth_value v.mood (delta_of "mood_delta" compact);
  bond = clamp_growth_value v.bond (delta_of "bond_delta" compact);
  closeness = clamp_growth_value v.closeness (delta_of "closeness_delta" compact);
  curiosity = clamp_growth_value v.curiosity (delta_of "curiosity_delta" compact);
  sharpness = clamp_growth_value v.sharpness (delta_of "sharpness_delta" compact);
  nocturnal = clamp_growth_value v.nocturnal (delta_of "nocturnal_delta" compact);
  stubborn = clamp_growth_value v.stubborn (delta_of "stubborn_delta" compact);
}

-- `GREATEST(last_interact_at, :now)`, where the call touches it
abbrev pub touched : Bool → ℕ → ℕ → ℕ
touched touch_interact last now =
    if touch_interact then (if ltb last now then now else last) else last

unfoldable pub grow_row : Payload → ℕ → Bool → SpiritRow → SpiritRow
grow_row compact now touch_interact row = record row {
  vitals = grown compact row.vitals;
  last_interact_at = touched touch_interact row.last_interact_at now;
  version = row.version + 1;
}

abbrev pub is_empty : Payload → Bool
is_empty [] = true
is_empty (p ∷ payload) = false

abbrev pub applied_growth : Option SpiritRow → Result (Option AppliedGrowth)
applied_growth none = err (runtime_error "growth spirit update matched no owner row")
applied_growth (some row) = ok (
    some (record {
      vitals = row.vitals;
      version = row.version;
      last_interact_at = row.last_interact_at;
    }))

unfoldable pub write_growth : ℕ → ℕ → Payload → ℕ → Bool → Action (Option AppliedGrowth)
write_growth owner spirit compact now touch_interact = do
  row ← update_spirit (is_owned owner spirit) (grow_row compact now touch_interact)
  lift (applied_growth row)

unfoldable pub apply_growth_to_spirit : ℕ → ℕ → Payload → ℕ → Bool → Action (Option AppliedGrowth)
apply_growth_to_spirit owner spirit payload now touch_interact = do
  compact ← lift (compact_growth_payload payload)
  if is_empty compact && not touch_interact
      then pure none
      else write_growth owner spirit compact now touch_interact

pub record GrowthRecord : Type 0 where
  pub event_id : ℕ
  pub applied : Bool
  pub spirit : Option AppliedGrowth

abbrev pub not_applied : ℕ → GrowthRecord
not_applied id = record { event_id = id; applied = false; spirit = none }

abbrev pub claimed_record : ℕ → Option AppliedGrowth → Bool → GrowthRecord
claimed_record id spirit claimed =
    if claimed then record { event_id = id; applied = true; spirit = spirit } else not_applied id

-- What follows the growth of the spirit.
unfoldable pub claim_event : ℕ → ℕ → Option AppliedGrowth → Action GrowthRecord
claim_event id now spirit =
    mark_applied id now >>= λ claimed. pure (claimed_record id spirit claimed)

-- What follows a new event.
unfoldable pub apply_event : ℕ → ℕ → ℕ → Bool → GrowthEventRow → Action GrowthRecord
apply_event owner spirit now touch_interact row =
    apply_growth_to_spirit owner spirit row.payload now touch_interact >>= claim_event row.id now

unfoldable pub apply_if_new : ℕ → ℕ → ℕ → Bool → GrowthEventRow → Action GrowthRecord
apply_if_new owner spirit now touch_interact row =
    if not row.inserted || is_some row.applied_at
    then pure (not_applied row.id)
    else apply_event owner spirit now touch_interact row

-- The lookup and the checks before the insertion.
unfoldable pub check_payload : String → Payload → Result Payload
check_payload event_type payload =
    bind_result (source_type_of event_type)
      λ _. bind_result (parse_growth_payload payload) compact_growth_payload

abbrev pub insert_and_apply : ℕ → ℕ → String → ℕ → ℕ → Bool → Payload → Action GrowthRecord
insert_and_apply owner spirit event_type source_id now touch_interact compact =
    insert_growth_event spirit event_type source_id compact now
    >>= apply_if_new owner spirit now touch_interact

abbrev pub check_and_apply : ℕ → ℕ → String → ℕ → Payload → ℕ → Bool → Action GrowthRecord
check_and_apply owner spirit event_type source_id payload now touch_interact =
    lift (check_payload event_type payload)
    >>= insert_and_apply owner spirit event_type source_id now touch_interact

abbrev pub growth_message : String
growth_message = "growth cannot write in a read-only transaction"

unfoldable pub record_and_apply : ℕ → ℕ → String → ℕ → Payload → ℕ → Bool → Action GrowthRecord
record_and_apply owner spirit event_type source_id payload now touch_interact =
    assert_writable_transaction growth_message
    >> check_and_apply owner spirit event_type source_id payload now touch_interact
