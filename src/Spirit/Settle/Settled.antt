-- ===== src/Spirit/Settle/Settled.antt =====
-- What a write of the patch leaves: nothing more to settle.
use kelin_server.Prelude
use kelin_server.Prelude.{
  ℕ, ◌+◌, ◌≡◌, refl, sym, ◌∙◌, ap, subst, inl, inr, Bool, true, false, if◌then◌else◌, List, [], ◌∷◌,
  Option, none, some, Result, ok, err, Error, arith, Bool-cases, Option-cases, find?, update_where,
  lift, pure, ◌>>=◌, Keeps, Keeps-bind, Keeps-bind-lift, Keeps-pure, Keeps-lift, cases_run, if_run,
  runtime_error, find?_holds, after, bind_result,
}
use kelin_server.Clock.{aware, require_aware, require_aware_optional}
use kelin_server.Spirit.State.{
  SpiritStatePatch, decide_state, desired_spirit_state, patch_equals_snapshot, apply_patch,
}
use kelin_server.Spirit.State.Facts.{settle_idempotent}
use kelin_server.Spirit.Stage.{Stage, require_forward_step}
use kelin_server.Spirit.Store.{OutboxRow, SpiritRow, Session, is_owned, update_spirit}
use kelin_server.Spirit.Advance.{
  stands_at, with_stage, stage_row, advance_stage, maybe_advance_stage,
}
use kelin_server.Spirit.Advance.Keeps.{maybe_advance_stage-Keeps}
use kelin_server.Spirit.Settle.{
  aware_optional, instant_optional, snapshot_of_row, locked_row, owned_by, patched, is_expected,
  apply_spirit_state_patch, insert_state_settle_outbox, LockedSpiritState, SpiritSettleResult,
  settled, write_settled, record_settled,
}

-- An update that does not change what a test reads.
find?_of_update :
    {A : Type 0} (p q : A → Bool) (f : A → A) (xs : List A)
    → ((x : A) → q (f x) ≡ q x)
    → find? q (update_where p f xs) ≡ Prelude.Option.map (λ x. if p x then f x else x) (find? q xs)
find?_of_update p q f [] same = refl
find?_of_update p q f (x ∷ xs) same = elim (Bool-cases (p x)) [
  | inl hit ↦ elim (Bool-cases (q x)) [
    | inl found ↦ rw (hit, same x, found) (rw hit refl)
    | inr off ↦ rw (hit, same x, off) (find?_of_update p q f xs same)
  ]
  | inr miss ↦ elim (Bool-cases (q x)) [
    | inl found ↦ rw (miss, found) (rw miss refl)
    | inr off ↦ rw (miss, off) (find?_of_update p q f xs same)
  ]
]

-- There is nothing to settle on a row.
abbrev pub IsSettledRow : ℕ → Session → Option SpiritRow → Type 0
IsSettledRow now s none = Unit
IsSettledRow now s (some row) =
    patch_equals_snapshot (snapshot_of_row s row) (decide_state (snapshot_of_row s row) now) ≡ true

-- Nor for an owner.
pub record IsSettled (owner now : ℕ) (s : Session) : Type 0 where
  pub row : IsSettledRow now s (find? (owned_by owner) s.spirits)

-- A snapshot of a row is aware.
pub desired-aware :
    (s : Session) (row : SpiritRow) (now : ℕ)
    → desired_spirit_state (snapshot_of_row s row) (aware now)
      ≡ ok (decide_state (snapshot_of_row s row) now)
unfolding desired_spirit_state snapshot_of_row require_aware require_aware_optional
desired-aware s row now = ground arith

-- Times that a patch keeps are those of the snapshot, which come from columns.
patch-times :
    (s : Session) (row : SpiritRow) (now : ℕ)
    → let patch = decide_state (snapshot_of_row s row) now in
      (aware_optional (instant_optional patch.study_until) ≡ patch.study_until)
      × (aware_optional (instant_optional patch.away_until) ≡ patch.away_until)
unfolding decide_state snapshot_of_row
patch-times s row now = (ground arith, ground arith)

patched-snapshot :
    (s : Session) (row : SpiritRow) (now : ℕ)
    → snapshot_of_row s (patched (decide_state (snapshot_of_row s row) now) row)
      ≡ apply_patch (snapshot_of_row s row) (decide_state (snapshot_of_row s row) now)
unfolding snapshot_of_row apply_patch
patched-snapshot s row now = let times = patch-times s row now in rw (times.0, times.1) refl

-- The row that is written is settled.
patched-IsSettledRow :
    (s : Session) (row : SpiritRow) (now : ℕ)
    → IsSettledRow now s (some (patched (decide_state (snapshot_of_row s row) now) row))
patched-IsSettledRow s row now =
    rw (patched-snapshot s row now) (settle_idempotent (snapshot_of_row s row) now)

staged-snapshot :
    (s : Session) (rows : List SpiritRow) (moves : Bool) (to_stage : Stage) (row : SpiritRow)
    → snapshot_of_row (record s { spirits = rows }) (if moves then with_stage to_stage row else row)
      ≡ snapshot_of_row s row
unfolding snapshot_of_row
staged-snapshot s rows true to_stage row = refl
staged-snapshot s rows false to_stage row = refl

IsSettledRow-with_stage :
    (now : ℕ) (s : Session) (rows : List SpiritRow) (p : SpiritRow → Bool) (to_stage : Stage)
    (row : Option SpiritRow)
    → IsSettledRow now s row
    → IsSettledRow now
        (record s { spirits = rows })
        (Prelude.Option.map (λ x. if p x then with_stage to_stage x else x) row)
IsSettledRow-with_stage now s rows p to_stage none h = tt
IsSettledRow-with_stage now s rows p to_stage (some row) h =
    subst (λ c. patch_equals_snapshot c (decide_state c now) ≡ true)
      (sym (staged-snapshot s rows (p row) to_stage row)) h

-- A step of the stage keeps the status, the times and the owner.
advance_stage-IsSettled :
    (owner now spirit : ℕ) (from_stage to_stage : Stage)
    → Keeps (IsSettled owner now) (advance_stage owner spirit from_stage to_stage)
unfolding advance_stage update_spirit owned_by
advance_stage-IsSettled owner now spirit from_stage to_stage =
    Keeps-bind-lift (require_forward_step from_stage to_stage)
      (λ _. update_spirit (stands_at owner spirit from_stage) (with_stage to_stage) >>= λ row.
        pure (stage_row row))
      λ t e.
        Keeps-bind (update_spirit (stands_at owner spirit from_stage) (with_stage to_stage))
          (λ row. pure (stage_row row))
          (record {
            at = λ s h. record {
              row =
                  subst
                    (IsSettledRow now (record s {
                      spirits =
                          update_where (stands_at owner spirit from_stage) (with_stage to_stage)
                            s.spirits;
                    }))
                    (sym (
                      find?_of_update (stands_at owner spirit from_stage) (owned_by owner)
                        (with_stage to_stage) s.spirits (λ x. refl)))
                    (IsSettledRow-with_stage now s _ (stands_at owner spirit from_stage) to_stage
                      (find? (owned_by owner) s.spirits) h.row);
            };
          })
          (λ row. Keeps-pure (stage_row row))

-- The call that writes: what it leaves is settled where it returns.
abbrev pub Settles : ℕ → ℕ → Result SpiritSettleResult × Session → Type 0
Settles owner now r = (res : SpiritSettleResult) → r.0 ≡ ok res → IsSettled owner now r.1

-- Neither the outbox nor the stage unsettles it.
IsSettledRow-outbox :
    (now : ℕ) (s : Session) (outbox : List OutboxRow) (row : Option SpiritRow)
    → IsSettledRow now s row
    → IsSettledRow now (record s { outbox = outbox }) row
unfolding snapshot_of_row
IsSettledRow-outbox now s outbox none h = tt
IsSettledRow-outbox now s outbox (some row) h = h

by_test :
    {S A : Type 0} (P : S → Type 0) (test : Bool) (x y : A × S)
    → P x.1
    → P y.1
    → P (if test then x else y).1
by_test P true x y px py = px
by_test P false x y px py = py

insert_outbox-IsSettled :
    (owner now : ℕ) (locked : LockedSpiritState) (patch : SpiritStatePatch) (version : ℕ)
    → Keeps (IsSettled owner now) (
        insert_state_settle_outbox owner locked.spirit_id locked.snapshot.status patch.status
          version)
unfolding insert_state_settle_outbox
insert_outbox-IsSettled owner now locked patch version = record {
  at = λ s h.
      by_test (IsSettled owner now) _ _ _ h
        (record { row = IsSettledRow-outbox now s _ (find? (owned_by owner) s.spirits) h.row });
}

record_settled-IsSettled :
    (owner now : ℕ) (locked : LockedSpiritState) (patch : SpiritStatePatch) (version : ℕ)
    → Keeps (IsSettled owner now) (record_settled owner locked patch version)
unfolding record_settled
record_settled-IsSettled owner now locked patch version =
    Keeps-bind
      (insert_state_settle_outbox owner locked.spirit_id locked.snapshot.status patch.status
        version)
      (λ _. maybe_advance_stage owner locked.spirit_id >>= λ _.
        pure (settled locked patch.status version true))
      (insert_outbox-IsSettled owner now locked patch version)
      λ _.
        Keeps-bind (maybe_advance_stage owner locked.spirit_id)
          (λ _. pure (settled locked patch.status version true))
          (maybe_advance_stage-Keeps owner locked.spirit_id (IsSettled owner now)
            (advance_stage-IsSettled owner now locked.spirit_id))
          (λ _. Keeps-pure (settled locked patch.status version true))

-- The row that was locked is the one that is written.
expected_row :
    (owner : ℕ) (row : SpiritRow)
    → owned_by owner row ≡ true
    → is_expected owner row.id row.version row ≡ true
unfolding owned_by is_expected is_owned
expected_row owner row h = ground arith

apply_patch-IsSettled :
    (owner now : ℕ) (s : Session) (row : SpiritRow)
    → find? (owned_by owner) s.spirits ≡ some row
    → IsSettled owner now
        (apply_spirit_state_patch owner row.id
          (decide_state (snapshot_of_row s row) now)
          row.version
          s).1
unfolding apply_spirit_state_patch update_spirit owned_by snapshot_of_row
apply_patch-IsSettled owner now s row found =
    let patch = decide_state (snapshot_of_row s row) now in
    let rows = update_where (is_expected owner row.id row.version) (patched patch) s.spirits in
    record {
      row =
          subst (IsSettledRow now (record s { spirits = rows }))
            (sym (
              find?_of_update (is_expected owner row.id row.version) (owned_by owner)
                (patched patch) s.spirits (λ x. refl)
              ∙ ap
                  (Prelude.Option.map
                    (λ x. if is_expected owner row.id row.version x then patched patch x else x))
                  found))
            (subst
              (λ b.
                IsSettledRow now (record s { spirits = rows })
                  (some (if b then patched patch row else row)))
              (sym (expected_row owner row (find?_holds (owned_by owner) s.spirits found)))
              (patched-IsSettledRow s row now));
    }

pub write_settled-IsSettled :
    (owner now : ℕ) (s : Session) (row : SpiritRow)
    → find? (owned_by owner) s.spirits ≡ some row
    → Settles owner now
        (write_settled owner (locked_row s row) (decide_state (snapshot_of_row s row) now) s)
unfolding write_settled
write_settled-IsSettled owner now s row found =
    let patch = decide_state (snapshot_of_row s row) now in
    cases_run (Settles owner now) (apply_spirit_state_patch owner row.id patch row.version)
      (record_settled owner (locked_row s row) patch) s (λ e _ res r. cc r)
      λ version v res r.
        (record_settled-IsSettled owner now (locked_row s row) patch version).at
          (apply_spirit_state_patch owner row.id patch row.version s).1
          (apply_patch-IsSettled owner now s row found)
