-- ===== src/Spirit/Growth/Facts.antt =====
-- What the growth functions guarantee: payloads are compacted once, keys follow the catalog.
use text.Mathlib.TextPositions.{eq_refl}
use kelin_server.Prelude.{
  ℕ, ◌≡◌, ◌≤◌, refl, inl, inr, Bool, true, String, List, [], ◌∷◌, ok, arith, Bool-cases, str_eq,
  &&-true, not, ◌||◌, ◌&&◌, subst, sym, ◌∙◌, false, In, here, there, In-cons, ◌↔◌, ap,
}
use kelin_server.Prelude.Int.{ℤ, pos, negsuc}
use kelin_server.Spirit.Growth.{
  Payload, is_zero, is_payload_field, field_parses, all_parse, parse_growth_payload, nonzero,
  all_known, compact_growth_payload, clamp_growth_value, source_type_of, growth_dedupe_key,
  is_source_type, growth_catalog, source_in, is_trait_field, in_trait_range,
}

pub clamp_growth_value_le : (current : ℕ) (delta : ℤ) → clamp_growth_value current delta ≤ 100
unfolding clamp_growth_value
clamp_growth_value_le current (pos n) = ground arith
clamp_growth_value_le current (negsuc n) = ground arith

nonzero_idem : (payload : Payload) → nonzero (nonzero payload) ≡ nonzero payload
unfolding nonzero
nonzero_idem [] = refl
nonzero_idem ((key, delta) ∷ rest) = ground (arith, nonzero_idem rest)

field_parses-known :
    (key : String) (delta : ℤ) → field_parses key delta ≡ true → is_payload_field key ≡ true
field_parses-known key delta h =
    (&&-true (is_payload_field key) (not (is_trait_field key) || in_trait_range delta) h).0

pub all_parse-known :
    (payload : Payload) → all_parse payload ≡ true → all_known (nonzero payload) ≡ true
unfolding nonzero all_parse all_known
all_parse-known [] h = refl
all_parse-known ((key, delta) ∷ rest) h =
    let both = &&-true (field_parses key delta) (all_parse rest) h in
    elim (Bool-cases (is_zero delta)) [
      | inl z ↦ rw z (all_parse-known rest both.1)
      | inr z ↦ rw (z, field_parses-known key delta both.0) (all_parse-known rest both.1)
    ]

all_parse-nonzero :
    (payload : Payload) → all_parse payload ≡ true → all_parse (nonzero payload) ≡ true
unfolding nonzero all_parse
all_parse-nonzero [] h = refl
all_parse-nonzero ((key, delta) ∷ rest) h =
    let both = &&-true (field_parses key delta) (all_parse rest) h in
    elim (Bool-cases (is_zero delta)) [
      | inl z ↦ rw z (all_parse-nonzero rest both.1)
      | inr z ↦ rw (z, both.0) (all_parse-nonzero rest both.1)
    ]

-- What parsing and compacting return.
pub compacted :
    (payload : Payload)
    → all_parse payload ≡ true
    → (parse_growth_payload payload ≡ ok payload)
      × (compact_growth_payload payload ≡ ok (nonzero payload))
      × (parse_growth_payload (nonzero payload) ≡ ok (nonzero payload))
      × (compact_growth_payload (nonzero payload) ≡ ok (nonzero payload))
unfolding parse_growth_payload compact_growth_payload
compacted payload h = (
  rw h refl,
  rw (all_parse-known payload h) refl,
  rw (all_parse-nonzero payload h) refl,
  rw (nonzero_idem payload, all_parse-known payload h) refl,
)

is_zero-pos : (delta : ℤ) → is_zero delta ≡ true → delta ≡ pos 0
is_zero-pos (pos n) e = ground arith
is_zero-pos (negsuc n) e = cc

pos_zero-kept : (delta : ℤ) → is_zero delta ≡ false → ¬ (delta ≡ pos 0)
pos_zero-kept delta kept z = ground (arith, z)

-- What is kept is what is there and not zero.
In-nonzero :
    (payload : Payload) (entry : String × ℤ)
    → In entry payload
    → ¬ (entry.1 ≡ pos 0)
    → In entry (nonzero payload)
unfolding nonzero
In-nonzero [] entry m h = elim m [ ]
In-nonzero ((key, delta) ∷ rest) entry m h = elim (Bool-cases (is_zero delta)) [
  | inr kept ↦ rw kept (elim (In-cons m) [
    | inl same ↦ subst (λ x. In x ((key, delta) ∷ nonzero rest)) (sym same) here
    | inr later ↦ there (In-nonzero rest entry later h)
  ])
  | inl zero_delta ↦ rw zero_delta (elim (In-cons m) [
    | inl same ↦ absurd (h (ap (λ (x : String × ℤ). x.1) same ∙ is_zero-pos delta zero_delta))
    | inr later ↦ In-nonzero rest entry later h
  ])
]

nonzero-In :
    (payload : Payload) (entry : String × ℤ)
    → In entry (nonzero payload)
    → In entry payload × ¬ (entry.1 ≡ pos 0)
unfolding nonzero
nonzero-In [] entry m = elim m [ ]
nonzero-In ((key, delta) ∷ rest) entry m = elim (Bool-cases (is_zero delta)) [
  | inl zero_delta ↦
      let (later, wanted) = nonzero-In rest entry (rw zero_delta at m) in (there later, wanted)
  | inr kept ↦ elim (In-cons (rw kept at m)) [
    | inl same ↦ (
      subst (λ x. In x ((key, delta) ∷ rest)) (sym same) here,
      λ z. pos_zero-kept delta kept (sym (ap (λ (x : String × ℤ). x.1) same) ∙ z),
    )
    | inr later ↦ let (found, wanted) = nonzero-In rest entry later in (there found, wanted)
  ]
]

-- A payload that parses is compacted to a payload that has exactly its entries whose delta is not 0,
-- that parses again, and that stays as it is when it is compacted again.
pub compact_growth_payload-stable :
    (payload : Payload)
    → all_parse payload ≡ true
    → (parse_growth_payload payload ≡ ok payload)
      × (compact : Payload) × (compact_growth_payload payload ≡ ok compact)
      × ((entry : String × ℤ) → In entry compact ↔ (In entry payload × ¬ (entry.1 ≡ pos 0)))
      × (parse_growth_payload compact ≡ ok compact)
      × (compact_growth_payload compact ≡ ok compact)
compact_growth_payload-stable payload h =
    let (parsed, done, again, fixed) = compacted payload h in
    (
      parsed,
      nonzero payload,
      done,
      λ entry. (nonzero-In payload entry, λ both. In-nonzero payload entry both.0 both.1),
      again,
      fixed,
    )

abbrev is_listed : List (String × String) → Bool
is_listed [] = true
is_listed ((event, source) ∷ rest) = is_source_type source && is_listed rest

name_injective : (a b : String) → ok a ≡ ok b → a ≡ b
name_injective a b e = cc e

source_in-listed :
    (event_type source_type : String) (catalog : List (String × String))
    → is_listed catalog ≡ true
    → source_in event_type catalog ≡ ok source_type
    → is_source_type source_type ≡ true
source_in-listed event_type source_type [] l h = cc
source_in-listed event_type source_type ((event, source) ∷ rest) l h =
    let both = &&-true (is_source_type source) (is_listed rest) l in
    elim (Bool-cases (str_eq event_type event)) [
      | inl hit ↦
          subst (λ t. is_source_type t ≡ true) (name_injective source source_type (rw hit at h))
            both.0
      | inr miss ↦ source_in-listed event_type source_type rest both.1 (rw miss at h)
    ]

-- An event type of the catalog has its key, under the source type of the catalog.
pub growth_dedupe_key-source :
    (source_type : String) (source_id : ℕ) (event_type : String)
    → source_type_of event_type ≡ ok source_type
    → growth_dedupe_key source_type source_id event_type
      ≡ ok (record { source_type = source_type; source_id = source_id; event_type = event_type })
unfolding growth_dedupe_key source_type_of
growth_dedupe_key-source source_type source_id event_type h =
    rw (source_in-listed event_type source_type growth_catalog refl h, h, eq_refl source_type) refl
