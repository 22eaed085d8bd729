-- ===== src/Spirit/Events/Fresh.antt =====
-- A call for a new event applies it.
use kelin_server.Prelude.{
  ℕ, ◌+◌, ◌≡◌, refl, sym, ◌∙◌, ap, subst, Bool, true, false, not, ◌&&◌, String, List, [], ◌∷◌, ◌++◌,
  Option, none, some, Result, ok, arith, find?, update_where, is_some, lift, after,
}
use kelin_server.Spirit.Growth.{Payload, source_type_of, all_parse, nonzero, compact_growth_payload}
use kelin_server.Spirit.Growth.Facts.{growth_dedupe_key-source, compacted}
use kelin_server.Spirit.Store.{
  SpiritRow, EventRow, Session, same_key, is_owned, update_spirit, assert_writable_transaction,
}
use kelin_server.Spirit.Events.{
  GrowthEventRow, AppliedGrowth, event_row, new_event, insert_or_find, insert_growth_event,
  prepare_event, check_payload, is_unapplied, mark_applied, grow_row, write_growth,
  apply_growth_to_spirit, GrowthRecord, apply_event, claim_event, apply_if_new, insert_and_apply,
  check_and_apply, record_and_apply, growth_message, is_empty, claimed_record,
}
use kelin_server.Spirit.Events.Once.{key_of}

module _ (event_type source_type : String) (source_id : ℕ) (payload : Payload)
    (catalog : source_type_of event_type ≡ ok source_type) (parses : all_parse payload ≡ true) where
  check_payload-ok : check_payload event_type payload ≡ ok (nonzero payload)
  unfolding check_payload
  check_payload-ok = let stable = compacted payload parses in rw (catalog, stable.0, stable.1) refl

  prepare_event-ok :
      prepare_event event_type source_id (nonzero payload)
      ≡ ok (record { key = key_of source_type source_id event_type; compact = nonzero payload })
  unfolding prepare_event
  prepare_event-ok =
      let stable = compacted payload parses in
      rw
        (
          catalog,
          growth_dedupe_key-source source_type source_id event_type catalog,
          stable.2,
          stable.3,
        )
        refl

  abbrev inserted_row : ℕ → GrowthEventRow
  inserted_row id = record {
    id = id;
    applied_at = none;
    payload = nonzero payload;
    inserted = true;
  }

  abbrev with_event : ℕ → ℕ → Session → Session
  with_event spirit now s = record s {
    events =
        s.events
        ++ new_event spirit (key_of source_type source_id event_type) (nonzero payload) now
            s.next_id
          ∷ [];
    next_id = s.next_id + 1;
  }

  insert_growth_event-new :
      (spirit now : ℕ) (s : Session)
      → find? (same_key (key_of source_type source_id event_type)) s.events ≡ none
      → insert_growth_event spirit event_type source_id (nonzero payload) now s
        ≡ (ok (inserted_row s.next_id), with_event spirit now s)
  unfolding insert_growth_event insert_or_find event_row
  insert_growth_event-new spirit now s new =
      rw (prepare_event-ok, new, (compacted payload parses).3) refl

-- What the insertion of an event changes, and what the update changes.
unapplied_new :
    (rows : List EventRow) (row : EventRow)
    → row.applied_at ≡ none
    → is_some (find? (is_unapplied row.id) (rows ++ row ∷ [])) ≡ true
unapplied_new [] row h = ground arith
unapplied_new (r ∷ rows) row h = ground (arith, unapplied_new rows row)

-- What the update of the spirit returns.
abbrev pub growth_of : SpiritRow → AppliedGrowth
growth_of row = record {
  vitals = row.vitals;
  version = row.version;
  last_interact_at = row.last_interact_at;
}

write_growth-owned :
    (owner spirit : ℕ) (compact : Payload) (now : ℕ) (touch : Bool) (s : Session) (row : SpiritRow)
    → find? (is_owned owner spirit) s.spirits ≡ some row
    → write_growth owner spirit compact now touch s ≡ (
      ok (some (growth_of (grow_row compact now touch row))),
      record s {
        spirits = update_where (is_owned owner spirit) (grow_row compact now touch) s.spirits;
      },
    )
unfolding write_growth update_spirit
write_growth-owned owner spirit compact now touch s row owned = rw owned refl

apply_growth_to_spirit-moves :
    (owner spirit : ℕ) (payload : Payload) (now : ℕ) (touch : Bool) (s : Session)
    → compact_growth_payload payload ≡ ok payload
    → (is_empty payload && not touch) ≡ false
    → apply_growth_to_spirit owner spirit payload now touch s
      ≡ write_growth owner spirit payload now touch s
unfolding apply_growth_to_spirit
apply_growth_to_spirit-moves owner spirit payload now touch s fixed moves = rw (fixed, moves) refl

assert_writable-ok :
    (message : String) (s : Session)
    → s.read_only ≡ false
    → assert_writable_transaction message s ≡ (ok tt, s)
unfolding assert_writable_transaction
assert_writable-ok message s writable = simp (writable)

-- The claim of an event that is not applied yet.
claim_event-unapplied :
    (Q : Result GrowthRecord × Session → Type 0) (id now : ℕ) (spirit : Option AppliedGrowth)
    (s : Session)
    → is_some (find? (is_unapplied id) s.events) ≡ true
    → Q (ok (claimed_record id spirit true), (mark_applied id now s).1)
    → Q (claim_event id now spirit s)
unfolding claim_event mark_applied
claim_event-unapplied Q id now spirit s found q =
    subst (λ b. Q (ok (claimed_record id spirit b), (mark_applied id now s).1)) (sym found) q

-- What is reported, and the spirits that are left.
abbrev pub IsGrown :
    ℕ
    → ℕ
    → Payload
    → ℕ
    → Bool
    → ℕ
    → SpiritRow
    → List SpiritRow
    → Result GrowthRecord × Session
    → Type 0
IsGrown owner spirit compact now touch id row spirits r =
    (r.0
      ≡ ok (record {
        event_id = id;
        applied = true;
        spirit = some (growth_of (grow_row compact now touch row));
      }))
    × (r.1.spirits ≡ update_where (is_owned owner spirit) (grow_row compact now touch) spirits)

-- What the call returns, by the update of the row.
pub record_and_apply_run :
    (owner spirit : ℕ) (event_type source_type : String) (source_id : ℕ) (payload : Payload)
    (now : ℕ) (touch : Bool) (s : Session) (row : SpiritRow)
    → s.read_only ≡ false
    → source_type_of event_type ≡ ok source_type
    → all_parse payload ≡ true
    → find? (same_key (key_of source_type source_id event_type)) s.events ≡ none
    → find? (is_owned owner spirit) s.spirits ≡ some row
    → (is_empty (nonzero payload) && not touch) ≡ false
    → IsGrown owner spirit
        (nonzero payload)
        now
        touch
        s.next_id
        row
        s.spirits
        (record_and_apply owner spirit event_type source_id payload now touch s)
unfolding record_and_apply apply_if_new apply_event mark_applied
record_and_apply_run owner spirit event_type source_type source_id payload now touch s row writable
      catalog parses new owned moves =
    let Q = IsGrown owner spirit (nonzero payload) now touch s.next_id row s.spirits in
    let s' = with_event event_type source_type source_id payload catalog parses spirit now s in
    let fixed = (compacted payload parses).3 in
    after Q (assert_writable_transaction growth_message)
      (λ _. check_and_apply owner spirit event_type source_id payload now touch) s
      (assert_writable-ok growth_message s writable)
      (after Q (lift (check_payload event_type payload))
        (insert_and_apply owner spirit event_type source_id now touch) s
        (ap (λ r. (r, s))
          (check_payload-ok event_type source_type source_id payload catalog parses))
        (after Q (insert_growth_event spirit event_type source_id (nonzero payload) now)
          (apply_if_new owner spirit now touch) s
          (insert_growth_event-new event_type source_type source_id payload catalog parses spirit
            now s new)
          (after Q (apply_growth_to_spirit owner spirit (nonzero payload) now touch)
            (claim_event s.next_id now) s'
            (apply_growth_to_spirit-moves owner spirit (nonzero payload) now touch s' fixed moves
              ∙ write_growth-owned owner spirit (nonzero payload) now touch s' row owned)
            (claim_event-unapplied Q s.next_id now
              (some (growth_of (grow_row (nonzero payload) now touch row)))
              (record s' {
                spirits =
                    update_where (is_owned owner spirit) (grow_row (nonzero payload) now touch)
                      s.spirits;
              })
              (unapplied_new s.events
                (new_event spirit (key_of source_type source_id event_type) (nonzero payload) now
                  s.next_id)
                refl)
              (refl, refl)))))
