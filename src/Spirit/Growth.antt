-- ===== src/Spirit/Growth.antt =====
-- Growth events: app/domain/growth.py, and `GrowthEventPayload` of app/schemas/jsonb.py.
pub mod Facts
use kelin_server.Prelude.{
  ℕ, ◌+◌, ◌-◌, Bool, true, false, ◌&&◌, ◌||◌, not, String, List, [], ◌∷◌, leb, ◌==◌, str_eq,
  if◌then◌else◌, Result, ok, err, value_error, key_error, bind_result,
}
use kelin_server.Prelude.Int.{ℤ, pos, negsuc, leb_ℤ}

abbrev pub growth_value_max : ℕ
growth_value_max = 100

-- A `dict` from field names to deltas.
abbrev pub Payload : Type 0
Payload = List (String × ℤ)

abbrev pub is_zero : ℤ → Bool
is_zero (pos n) = n == 0
is_zero (negsuc n) = false

abbrev pub is_trait_field : String → Bool
is_trait_field key =
    str_eq key "closeness_delta"
    || (str_eq key "curiosity_delta"
        || (str_eq key "sharpness_delta"
            || (str_eq key "nocturnal_delta" || str_eq key "stubborn_delta")))

-- `GROWTH_PAYLOAD_FIELDS`
abbrev pub is_payload_field : String → Bool
is_payload_field key =
    is_trait_field key
    || (str_eq key "hunger_delta"
        || (str_eq key "energy_delta" || (str_eq key "mood_delta" || str_eq key "bond_delta")))

abbrev pub in_trait_range : ℤ → Bool
in_trait_range delta = leb_ℤ (negsuc 1) delta && leb_ℤ delta (pos 2)

-- The fields of the model: a name outside it is refused, and so is a trait beyond -2 to 2.
abbrev pub field_parses : String → ℤ → Bool
field_parses key delta = is_payload_field key && (not (is_trait_field key) || in_trait_range delta)

unfoldable pub all_parse : Payload → Bool
all_parse [] = true
all_parse ((key, delta) ∷ rest) = field_parses key delta && all_parse rest

-- What is set of the parsed model is what was given.
unfoldable pub parse_growth_payload : Payload → Result Payload
unfolding all_parse
parse_growth_payload payload =
    if all_parse payload then ok payload else err (value_error "GrowthEventPayload")

-- `{key: int(delta) for key, delta in values.items() if delta}`
unfoldable pub nonzero : Payload → Payload
nonzero [] = []
nonzero ((key, delta) ∷ rest) =
    let kept = nonzero rest in if is_zero delta then kept else (key, delta) ∷ kept

unfoldable pub all_known : Payload → Bool
all_known [] = true
all_known ((key, delta) ∷ rest) = is_payload_field key && all_known rest

unfoldable pub compact_growth_payload : Payload → Result Payload
unfolding nonzero all_known
compact_growth_payload payload =
    if all_known (nonzero payload)
    then ok (nonzero payload)
    else err (value_error "growth payload contains keys outside the catalog")

-- `payload.get(key, 0)`
unfoldable pub delta_of : String → Payload → ℤ
delta_of key [] = pos 0
delta_of key ((name, delta) ∷ rest) = if str_eq name key then delta else delta_of key rest

-- `max(0, min(100, current + delta))`, for a value that is not negative.
unfoldable pub clamp_growth_value : ℕ → ℤ → ℕ
clamp_growth_value current (pos n) =
    if leb growth_value_max (current + n) then growth_value_max else current + n
clamp_growth_value current (negsuc n) =
    if leb growth_value_max (current - (n + 1)) then growth_value_max else current - (n + 1)

-- The event types of `GROWTH_CATALOG`, each with its source type.
abbrev pub growth_catalog : List (String × String)
growth_catalog =
    ("chat_completed", "chat_turn")
    ∷ ("feed_accepted", "feed")
    ∷ ("promise_completed", "feed")
    ∷ ("pact_answered", "pact")
    ∷ ("pact_completed", "pact")
    ∷ ("memory_added", "memory")
    ∷ ("visit_completed", "visit")
    ∷ ("returned_from_lost", "recall")
    ∷ ("time_passed", "scheduler")
    ∷ []

abbrev pub source_in : String → List (String × String) → Result String
source_in event_type [] = err (key_error event_type)
source_in event_type ((event, source) ∷ rest) =
    if str_eq event_type event then ok source else source_in event_type rest

-- `growth_catalog_by_event()[event_type].source_type`
unfoldable pub source_type_of : String → Result String
source_type_of event_type = source_in event_type growth_catalog

abbrev pub is_source_type : String → Bool
is_source_type source =
    str_eq source "chat_turn"
    || (str_eq source "feed"
        || (str_eq source "memory"
            || (str_eq source "pact"
                || (str_eq source "visit"
                    || (str_eq source "recall" || str_eq source "scheduler")))))

abbrev pub is_ok : {A : Type 0} → Result A → Bool
is_ok (ok a) = true
is_ok (err e) = false

pub record SourceKey : Type 0 where
  pub source_type : String
  pub source_id : ℕ
  pub event_type : String

-- The catalog has each event type once, so its keys are the event types.
unfoldable pub growth_dedupe_key : String → ℕ → String → Result SourceKey
growth_dedupe_key source_type source_id event_type =
    if not (is_source_type source_type)
    then err (value_error "growth source_type is not in the catalog")
    else if not (is_ok (source_type_of event_type))
    then err (value_error "growth event_type is not in the catalog")
    else bind_result (source_type_of event_type) λ expected.
      if str_eq source_type expected
      then ok (record { source_type = source_type; source_id = source_id; event_type = event_type })
      else err (value_error "growth source_type does not match the event catalog")
