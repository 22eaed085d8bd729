-- ===== src/Spirit/Events/Columns.antt =====
-- How each column of a spirit moves when a new event is applied.
use kelin_server.Prelude.{
  ℕ, ◌+◌, ◌-◌, ◌≡◌, ◌≤◌, refl, subst, sym, ◌∙◌, ap, min, max, inl, inr, Bool, true, false, not,
  ◌&&◌, String, [], ◌∷◌, none, some, Result, ok, arith, find?, find?-update_where_self, str_eq,
  Bool-cases, count, In, In-update_where,
}
use kelin_server.Prelude.Int.{ℤ, pos, negsuc, pos_part, neg_part}
use kelin_server.Spirit.Growth.{
  Payload, is_zero, source_type_of, all_parse, nonzero, delta_of, clamp_growth_value,
}
use kelin_server.Spirit.Store.{Vitals, SpiritRow, Session, same_key, is_owned}
use kelin_server.Spirit.Events.{grown, grow_row, record_and_apply, GrowthRecord, is_empty}
use kelin_server.Spirit.Events.Once.{key_of}
use kelin_server.Spirit.Events.Fresh.{growth_of, record_and_apply_run}

-- A `dict` has a key once.
abbrev pub IsDict : Payload → Type 0
IsDict payload = (key : String) → count (λ (e : String × ℤ). str_eq e.0 key) payload ≤ 1

-- A value and a delta, kept from 0 to 100.
abbrev pub moved : ℕ → ℤ → ℕ
moved value delta = min 100 (value + pos_part delta - neg_part delta)

-- Every column is moved by the delta of its own key, or stays within its bounds where it has none.
pub record HasMoved (payload : Payload) (old new : Vitals) : Type 0 where
  pub hunger : new.hunger ≡ moved old.hunger (delta_of "hunger_delta" payload)
  pub energy : new.energy ≡ moved old.energy (delta_of "energy_delta" payload)
  pub mood : new.mood ≡ moved old.mood (delta_of "mood_delta" payload)
  pub bond : new.bond ≡ moved old.bond (delta_of "bond_delta" payload)
  pub closeness : new.closeness ≡ moved old.closeness (delta_of "closeness_delta" payload)
  pub curiosity : new.curiosity ≡ moved old.curiosity (delta_of "curiosity_delta" payload)
  pub sharpness : new.sharpness ≡ moved old.sharpness (delta_of "sharpness_delta" payload)
  pub nocturnal : new.nocturnal ≡ moved old.nocturnal (delta_of "nocturnal_delta" payload)
  pub stubborn : new.stubborn ≡ moved old.stubborn (delta_of "stubborn_delta" payload)

clamp_growth_value-moved :
    (value : ℕ) (delta : ℤ) → clamp_growth_value value delta ≡ moved value delta
unfolding clamp_growth_value
clamp_growth_value-moved value (pos n) = ground arith
clamp_growth_value-moved value (negsuc n) = ground arith

absent_key :
    (key : String) (payload : Payload)
    → count (λ (e : String × ℤ). str_eq e.0 key) payload ≡ 0
    → delta_of key (nonzero payload) ≡ pos 0
unfolding delta_of nonzero
absent_key key [] h = refl
absent_key key ((name, delta) ∷ rest) h = ground (arith, absent_key key rest)

absent_delta :
    (key : String) (payload : Payload)
    → count (λ (e : String × ℤ). str_eq e.0 key) payload ≡ 0
    → delta_of key payload ≡ pos 0
unfolding delta_of
absent_delta key [] h = refl
absent_delta key ((name, delta) ∷ rest) h = ground (arith, absent_delta key rest)

delta_of-zero : (delta : ℤ) → is_zero delta ≡ true → delta ≡ pos 0
delta_of-zero (pos n) e = ground arith
delta_of-zero (negsuc n) e = cc

-- Compacting keeps the delta of every key.
delta_of-nonzero :
    (key : String) (payload : Payload)
    → count (λ (e : String × ℤ). str_eq e.0 key) payload ≤ 1
    → delta_of key (nonzero payload) ≡ delta_of key payload
unfolding delta_of nonzero
delta_of-nonzero key [] h = refl
delta_of-nonzero key ((name, delta) ∷ rest) h = elim (Bool-cases (str_eq name key)) [
  | inl hit ↦ elim (Bool-cases (is_zero delta)) [
    | inl z ↦ rw (hit, z) (absent_key key rest (ground arith) ∙ sym (delta_of-zero delta z))
    | inr kept ↦ rw (hit, kept, hit) refl
  ]
  | inr miss ↦ elim (Bool-cases (is_zero delta)) [
    | inl z ↦ rw (miss, z) (delta_of-nonzero key rest (ground arith))
    | inr kept ↦ rw (miss, kept, miss) (delta_of-nonzero key rest (ground arith))
  ]
]

module _ (payload : Payload) (dict : IsDict payload) where
  column :
      (value : ℕ) (key : String)
      → clamp_growth_value value (delta_of key (nonzero payload))
        ≡ moved value (delta_of key payload)
  column value key =
      clamp_growth_value-moved value (delta_of key (nonzero payload))
      ∙ ap (moved value) (delta_of-nonzero key payload (dict key))

  grown-HasMoved : (v : Vitals) → HasMoved payload v (grown (nonzero payload) v)
  unfolding grown
  grown-HasMoved v = record {
    hunger = column v.hunger "hunger_delta";
    energy = column v.energy "energy_delta";
    mood = column v.mood "mood_delta";
    bond = column v.bond "bond_delta";
    closeness = column v.closeness "closeness_delta";
    curiosity = column v.curiosity "curiosity_delta";
    sharpness = column v.sharpness "sharpness_delta";
    nocturnal = column v.nocturnal "nocturnal_delta";
    stubborn = column v.stubborn "stubborn_delta";
  }

-- The spirit that a call leaves, and what it reports.
pub record HasGrown (owner spirit : ℕ) (payload : Payload) (now : ℕ) (touch : Bool) (s : Session)
    (row : SpiritRow) (r : Result GrowthRecord × Session) : Type 0 where
  pub after : SpiritRow
  pub columns : HasMoved payload row.vitals after.vitals
  pub version : after.version ≡ row.version + 1
  pub touched : touch ≡ true → after.last_interact_at ≡ max row.last_interact_at now
  pub untouched : touch ≡ false → after.last_interact_at ≡ row.last_interact_at
  pub reported :
      r.0 ≡ ok (record { event_id = s.next_id; applied = true; spirit = some (growth_of after) })
  pub stored : find? (is_owned owner spirit) r.1.spirits ≡ some after
  pub others : (x : SpiritRow) → In x s.spirits → is_owned owner spirit x ≡ false → In x r.1.spirits

-- A call for an event of the catalog that is not recorded, with a payload that is a dict and parses, on
-- a spirit of the owner, where the payload has an entry that is not zero or the call touches the spirit:
-- each column of the spirit is its old value and the delta of its own key, kept from 0 to 100; the
-- version is one more; the last interaction is the later of the old one and now where the call touches
-- the spirit, and the old one where it does not. The call reports the grown spirit under the next id, the
-- table has it, and every other spirit stays as it is.
pub record_and_apply_new :
    (owner spirit : ℕ) (event_type source_type : String) (source_id : ℕ) (payload : Payload)
    (now : ℕ) (touch : Bool) (s : Session) (row : SpiritRow)
    → s.read_only ≡ false
    → source_type_of event_type ≡ ok source_type
    → IsDict payload
    → all_parse payload ≡ true
    → find? (same_key (key_of source_type source_id event_type)) s.events ≡ none
    → find? (is_owned owner spirit) s.spirits ≡ some row
    → (is_empty (nonzero payload) && not touch) ≡ false
    → HasGrown owner spirit payload now touch s row
        (record_and_apply owner spirit event_type source_id payload now touch s)
unfolding grow_row is_owned
record_and_apply_new owner spirit event_type source_type source_id payload now touch s row writable
      catalog dict parses new owned moves =
    let run =
      record_and_apply_run owner spirit event_type source_type source_id payload now touch s row
        writable catalog parses new owned moves in
    record {
      after = grow_row (nonzero payload) now touch row;
      columns = grown-HasMoved payload dict row.vitals;
      version = refl;
      touched = λ e. ground arith;
      untouched = λ e. rw e refl;
      reported = run.0;
      stored =
          ap (find? (is_owned owner spirit)) run.1
          ∙ find?-update_where_self (is_owned owner spirit) (grow_row (nonzero payload) now touch)
              s.spirits (λ y. refl) owned;
      others = λ x m other. subst (In x) (sym run.1) (
          rw other at
            (In-update_where (is_owned owner spirit) (grow_row (nonzero payload) now touch) m));
    }
