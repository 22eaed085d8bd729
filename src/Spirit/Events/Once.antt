-- ===== src/Spirit/Events/Once.antt =====
-- A growth event is applied at most once.
use text.Mathlib.TextPositions.{eq_refl}
use kelin_server.Prelude.{
  ℕ, ◌≡◌, refl, Bool, true, false, ◌&&◌, not, String, List, [], ◌∷◌, Option, none, some, Result, ok,
  err, Error, arith, find?, update_where, is_some, lift, pure, Keeps, Keeps-bind, Keeps-bind-lift,
  Keeps-if, Keeps-pure, Keeps-lift, find?-append_none, ◌||◌,
}
use kelin_server.Spirit.Growth.{
  Payload, SourceKey, source_type_of, growth_dedupe_key, compact_growth_payload,
}
use kelin_server.Spirit.Store.{EventRow, Session, same_key, update_spirit, is_owned}
use kelin_server.Spirit.Events.{
  GrowthEventRow, event_row, new_event, insert_unless, insert_or_find, is_unapplied, mark_applied,
  grow_row, write_growth, apply_growth_to_spirit, GrowthRecord, not_applied, apply_event,
  claim_event, apply_if_new, applied_growth, is_empty, claimed_record,
}

abbrev pub key_of : String → ℕ → String → SourceKey
key_of source_type source_id event_type = record {
  source_type = source_type;
  source_id = source_id;
  event_type = event_type;
}

-- The session has an event of the key.
pub record IsRecorded (key : SourceKey) (s : Session) : Type 0 where
  pub found : is_some (find? (same_key key) s.events) ≡ true

pub growth_dedupe_key-eq :
    (source_type : String) (source_id : ℕ) (event_type : String) {key : SourceKey}
    → growth_dedupe_key source_type source_id event_type ≡ ok key
    → key ≡ key_of source_type source_id event_type
unfolding growth_dedupe_key
growth_dedupe_key-eq source_type source_id event_type e = ground arith

same_key_new :
    (spirit : ℕ) (key : SourceKey) (compact : Payload) (at id : ℕ)
    → same_key key (new_event spirit key compact at id) ≡ true
unfolding same_key
same_key_new spirit key compact at id =
    rw (eq_refl key.source_type, eq_refl key.event_type) (ground arith)

insert_unless-IsRecorded :
    (spirit : ℕ) (key : SourceKey) (compact : Payload) (at : ℕ) (old : Option EventRow)
    (s : Session)
    → find? (same_key key) s.events ≡ old
    → IsRecorded key (insert_unless spirit key compact at old s).1
insert_unless-IsRecorded spirit key compact at (some row) s e = record { found = rw e refl }
insert_unless-IsRecorded spirit key compact at none s e = record {
  found =
      rw
        (find?-append_none (same_key key) s.events (new_event spirit key compact at s.next_id) e
          (same_key_new spirit key compact at s.next_id))
        refl;
}

pub insert_or_find-IsRecorded :
    (spirit : ℕ) (key : SourceKey) (compact : Payload) (at : ℕ) (s : Session)
    → IsRecorded key (insert_or_find spirit key compact at s).1
unfolding insert_or_find
insert_or_find-IsRecorded spirit key compact at s =
    insert_unless-IsRecorded spirit key compact at (find? (same_key key) s.events) s refl

-- Marking changes no key.
found_of_update :
    (key : SourceKey) (p : EventRow → Bool) (at : ℕ) (rows : List EventRow)
    → is_some (find? (same_key key) rows) ≡ true
    → is_some (find? (same_key key) (update_where p (λ r. record r { applied_at = some at }) rows))
      ≡ true
unfolding same_key
found_of_update key p at [] h = cc
found_of_update key p at (row ∷ rows) h = ground (arith, found_of_update key p at rows)

mark_applied-Keeps :
    (key : SourceKey) (event now : ℕ) → Keeps (IsRecorded key) (mark_applied event now)
unfolding mark_applied
mark_applied-Keeps key event now = record {
  at = λ s h. record { found = found_of_update key (is_unapplied event) now s.events h.found };
}

write_growth-Keeps :
    (key : SourceKey) (owner spirit : ℕ) (compact : Payload) (now : ℕ) (touch : Bool)
    → Keeps (IsRecorded key) (write_growth owner spirit compact now touch)
unfolding write_growth update_spirit
write_growth-Keeps key owner spirit compact now touch =
    Keeps-bind (update_spirit (is_owned owner spirit) (grow_row compact now touch))
      (λ row. lift (applied_growth row)) (record { at = λ s h. record { found = h.found } })
      (λ row. Keeps-lift (applied_growth row))

apply_growth_to_spirit-Keeps :
    (key : SourceKey) (owner spirit : ℕ) (payload : Payload) (now : ℕ) (touch : Bool)
    → Keeps (IsRecorded key) (apply_growth_to_spirit owner spirit payload now touch)
unfolding apply_growth_to_spirit
apply_growth_to_spirit-Keeps key owner spirit payload now touch =
    Keeps-bind-lift (compact_growth_payload payload) _ λ compact e.
      Keeps-if (is_empty compact && not touch) (pure none)
        (write_growth owner spirit compact now touch) (λ _. Keeps-pure none)
        (λ _. write_growth-Keeps key owner spirit compact now touch)

pub apply_if_new-Keeps :
    (key : SourceKey) (owner spirit now : ℕ) (touch : Bool) (row : GrowthEventRow)
    → Keeps (IsRecorded key) (apply_if_new owner spirit now touch row)
unfolding apply_if_new apply_event claim_event
apply_if_new-Keeps key owner spirit now touch row =
    Keeps-if (not row.inserted || is_some row.applied_at) (pure (not_applied row.id))
      (apply_event owner spirit now touch row) (λ _. Keeps-pure (not_applied row.id))
      (λ _.
        Keeps-bind (apply_growth_to_spirit owner spirit row.payload now touch)
          (claim_event row.id now)
          (apply_growth_to_spirit-Keeps key owner spirit row.payload now touch)
          (λ grown.
            Keeps-bind (mark_applied row.id now)
              (λ claimed. pure (claimed_record row.id grown claimed))
              (mark_applied-Keeps key row.id now)
              (λ claimed. Keeps-pure (claimed_record row.id grown claimed))))

-- Once a key is recorded, a call with it changes nothing.
pub insert_unless_old :
    (spirit : ℕ) (key : SourceKey) (compact : Payload) (at : ℕ) (old : Option EventRow)
    (s : Session)
    → is_some old ≡ true
    → ((insert_unless spirit key compact at old s).1 ≡ s)
      × ((row : GrowthEventRow)
          → (insert_unless spirit key compact at old s).0 ≡ ok row
          → row.inserted ≡ false)
unfolding event_row
insert_unless_old spirit key compact at (some old) s h = (refl, λ row e. ground arith)
insert_unless_old spirit key compact at none s h = cc

-- What a call does when the key of its event is recorded: it leaves the session, and says so.
abbrev pub IsIdle : Session → Result GrowthRecord × Session → Type 0
IsIdle s r = (r.1 ≡ s) × ((rec : GrowthRecord) → r.0 ≡ ok rec → rec.applied ≡ false)

pub IsIdle-err : (s : Session) (e : Error) → IsIdle s (err e, s)
IsIdle-err s e = (refl, λ rec h. cc h)

pub apply_if_new_old :
    (owner spirit now : ℕ) (touch : Bool) (row : GrowthEventRow) (s : Session)
    → row.inserted ≡ false
    → IsIdle s (apply_if_new owner spirit now touch row s)
unfolding apply_if_new
apply_if_new_old owner spirit now touch row s h = rw h (refl, λ rec e. ground arith)

-- The event of `event_type` and `source_id` is in the session, under the source type of the catalog.
pub record IsKnown (event_type : String) (source_id : ℕ) (s : Session) : Type 0 where
  pub source_type : String
  pub catalog : source_type_of event_type ≡ ok source_type
  pub recorded : IsRecorded (key_of source_type source_id event_type) s
