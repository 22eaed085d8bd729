-- ===== src/Spirit/Events/Range.antt =====
-- Growth stays in range.
use kelin_server.Prelude.{
  ℕ, ◌≤◌, Bool, not, ◌&&◌, ◌||◌, String, Option, none, some, All, is_some, lift, pure,
  All-update_where, Keeps, Keeps-bind, Keeps-bind-lift, Keeps-if, Keeps-pure, Keeps-lift, find?,
}
use kelin_server.Spirit.Growth.{Payload, delta_of, compact_growth_payload}
use kelin_server.Spirit.Growth.Facts.{clamp_growth_value_le}
use kelin_server.Spirit.Store.{
  Vitals, SpiritRow, EventRow, Session, same_key, is_owned, update_spirit,
  assert_writable_transaction,
}
use kelin_server.Spirit.Events.{
  GrowthEventRow, Prepared, insert_unless, insert_or_find, insert_prepared, insert_growth_event,
  prepare_event, check_payload, mark_applied, grown, grow_row, write_growth, apply_growth_to_spirit,
  not_applied, apply_event, claim_event, apply_if_new, insert_and_apply, check_and_apply,
  record_and_apply, growth_message, applied_growth, is_empty, claimed_record, AppliedGrowth,
}

pub record IsInRange (v : Vitals) : Type 0 where
  pub hunger : v.hunger ≤ 100
  pub energy : v.energy ≤ 100
  pub mood : v.mood ≤ 100
  pub bond : v.bond ≤ 100
  pub closeness : v.closeness ≤ 100
  pub curiosity : v.curiosity ≤ 100
  pub sharpness : v.sharpness ≤ 100
  pub nocturnal : v.nocturnal ≤ 100
  pub stubborn : v.stubborn ≤ 100

-- Every column of every spirit is in range.
pub record IsRanged (s : Session) : Type 0 where
  pub spirits : All (λ (row : SpiritRow). IsInRange row.vitals) s.spirits

grown-IsInRange : (compact : Payload) (v : Vitals) → IsInRange (grown compact v)
unfolding grown
grown-IsInRange compact v = record {
  hunger = clamp_growth_value_le v.hunger (delta_of "hunger_delta" compact);
  energy = clamp_growth_value_le v.energy (delta_of "energy_delta" compact);
  mood = clamp_growth_value_le v.mood (delta_of "mood_delta" compact);
  bond = clamp_growth_value_le v.bond (delta_of "bond_delta" compact);
  closeness = clamp_growth_value_le v.closeness (delta_of "closeness_delta" compact);
  curiosity = clamp_growth_value_le v.curiosity (delta_of "curiosity_delta" compact);
  sharpness = clamp_growth_value_le v.sharpness (delta_of "sharpness_delta" compact);
  nocturnal = clamp_growth_value_le v.nocturnal (delta_of "nocturnal_delta" compact);
  stubborn = clamp_growth_value_le v.stubborn (delta_of "stubborn_delta" compact);
}

write_growth-IsRanged :
    (owner spirit : ℕ) (compact : Payload) (now : ℕ) (touch : Bool)
    → Keeps IsRanged (write_growth owner spirit compact now touch)
unfolding write_growth update_spirit grow_row
write_growth-IsRanged owner spirit compact now touch =
    Keeps-bind (update_spirit (is_owned owner spirit) (grow_row compact now touch))
      (λ row. lift (applied_growth row))
      (record {
        at = λ s h. record {
          spirits =
              All-update_where _ (is_owned owner spirit) (grow_row compact now touch) s.spirits
                (λ row _ _. grown-IsInRange compact row.vitals) h.spirits;
        };
      })
      (λ row. Keeps-lift (applied_growth row))

apply_growth_to_spirit-IsRanged :
    (owner spirit : ℕ) (payload : Payload) (now : ℕ) (touch : Bool)
    → Keeps IsRanged (apply_growth_to_spirit owner spirit payload now touch)
unfolding apply_growth_to_spirit
apply_growth_to_spirit-IsRanged owner spirit payload now touch =
    Keeps-bind-lift (compact_growth_payload payload) _ λ compact e.
      Keeps-if (is_empty compact && not touch) (pure none)
        (write_growth owner spirit compact now touch) (λ _. Keeps-pure none)
        (λ _. write_growth-IsRanged owner spirit compact now touch)

-- A write to the events leaves the spirits.
claim_event-IsRanged :
    (id now : ℕ) (spirit : Option AppliedGrowth) → Keeps IsRanged (claim_event id now spirit)
unfolding claim_event mark_applied
claim_event-IsRanged id now spirit =
    Keeps-bind (mark_applied id now) (λ claimed. pure (claimed_record id spirit claimed))
      (record { at = λ s h. record { spirits = h.spirits } })
      (λ claimed. Keeps-pure (claimed_record id spirit claimed))

apply_if_new-IsRanged :
    (owner spirit now : ℕ) (touch : Bool) (row : GrowthEventRow)
    → Keeps IsRanged (apply_if_new owner spirit now touch row)
unfolding apply_if_new apply_event
apply_if_new-IsRanged owner spirit now touch row =
    Keeps-if (not row.inserted || is_some row.applied_at) (pure (not_applied row.id))
      (apply_event owner spirit now touch row) (λ _. Keeps-pure (not_applied row.id))
      (λ _.
        Keeps-bind (apply_growth_to_spirit owner spirit row.payload now touch)
          (claim_event row.id now)
          (apply_growth_to_spirit-IsRanged owner spirit row.payload now touch)
          (claim_event-IsRanged row.id now))

insert_unless-IsRanged :
    (spirit : ℕ) (p : Prepared) (at : ℕ) (old : Option EventRow)
    → Keeps IsRanged (insert_unless spirit p.key p.compact at old)
insert_unless-IsRanged spirit p at none = record { at = λ s h. record { spirits = h.spirits } }
insert_unless-IsRanged spirit p at (some old) = record { at = λ s h. h }

insert_growth_event-IsRanged :
    (spirit : ℕ) (event_type : String) (source_id : ℕ) (payload : Payload) (at : ℕ)
    → Keeps IsRanged (insert_growth_event spirit event_type source_id payload at)
unfolding insert_growth_event insert_or_find
insert_growth_event-IsRanged spirit event_type source_id payload at =
    Keeps-bind-lift (prepare_event event_type source_id payload) (insert_prepared spirit at) λ p _.
      record {
        at = λ s h. (insert_unless-IsRanged spirit p at (find? (same_key p.key) s.events)).at s h;
      }

-- Whatever the payload, a call of `record_and_apply` keeps every column of every spirit between 0
-- and 100, where it raises too.
pub record_and_apply-IsRanged :
    (owner spirit : ℕ) (event_type : String) (source_id : ℕ) (payload : Payload) (now : ℕ)
    (touch : Bool) (s : Session)
    → IsRanged s
    → IsRanged (record_and_apply owner spirit event_type source_id payload now touch s).1
unfolding record_and_apply assert_writable_transaction
record_and_apply-IsRanged owner spirit event_type source_id payload now touch s h =
    (Keeps-bind {P = IsRanged} (assert_writable_transaction growth_message)
        (λ _. check_and_apply owner spirit event_type source_id payload now touch)
        (record { at = λ s h. h })
        λ _.
          Keeps-bind-lift (check_payload event_type payload)
            (insert_and_apply owner spirit event_type source_id now touch)
            λ compact _.
              Keeps-bind (insert_growth_event spirit event_type source_id compact now)
                (apply_if_new owner spirit now touch)
                (insert_growth_event-IsRanged spirit event_type source_id compact now)
                (apply_if_new-IsRanged owner spirit now touch)).at
      s h
