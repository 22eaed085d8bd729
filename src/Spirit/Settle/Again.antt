-- ===== src/Spirit/Settle/Again.antt =====
-- Settling again at the same instant.
use kelin_server.Prelude
use kelin_server.Prelude.{
  ℕ, ◌+◌, ◌≡◌, refl, sym, ◌∙◌, ap, subst, inl, inr, Bool, true, false, if◌then◌else◌, List, [], ◌∷◌,
  Option, none, some, Result, ok, err, Error, arith, Bool-cases, Option-cases, find?, update_where,
  lift, pure, ◌>>=◌, Keeps, Keeps-bind, Keeps-bind-lift, Keeps-pure, Keeps-lift, cases_run, if_run,
  runtime_error, find?_holds, after, bind_result,
}
use kelin_server.Clock.{aware, require_aware}
use kelin_server.Spirit.State.{
  SpiritStatePatch, decide_state, desired_spirit_state, patch_equals_snapshot,
}
use kelin_server.Spirit.Store.{SpiritRow, Session, assert_writable_transaction}
use kelin_server.Spirit.Settle.{
  snapshot_of_row, locked_row, owned_by, lock_spirit_state_for_owner, SpiritSettleResult, no_spirit,
  settled, write_settled, settle_owner, settle_message, settle_patch, settle_locked,
  settle_spirit_state,
}
use kelin_server.Spirit.Settle.Settled.{
  IsSettledRow, IsSettled, desired-aware, Settles, write_settled-IsSettled,
}

settle_patch-IsSettled :
    (owner now : ℕ) (s : Session) (row : SpiritRow)
    → find? (owned_by owner) s.spirits ≡ some row
    → Settles owner now
        (settle_patch owner (locked_row s row) (decide_state (snapshot_of_row s row) now) s)
unfolding settle_patch
settle_patch-IsSettled owner now s row found =
    let patch = decide_state (snapshot_of_row s row) now in
    if_run (Settles owner now) (patch_equals_snapshot (snapshot_of_row s row) patch)
      (pure (settled (locked_row s row) (snapshot_of_row s row).status row.version false))
      (write_settled owner (locked_row s row) patch) s
      (λ same res _. record { row = subst (IsSettledRow now s) (sym found) same })
      (λ _. write_settled-IsSettled owner now s row found)

settle_locked-IsSettled :
    (owner now : ℕ) (s : Session) (row : Option SpiritRow)
    → find? (owned_by owner) s.spirits ≡ row
    → Settles owner now (settle_locked owner (aware now) (Prelude.Option.map (locked_row s) row) s)
unfolding settle_locked
settle_locked-IsSettled owner now s none found =
    λ res e. record { row = subst (IsSettledRow now s) (sym found) tt }
settle_locked-IsSettled owner now s (some row) found =
    after (Settles owner now) (lift (desired_spirit_state (snapshot_of_row s row) (aware now)))
      (settle_patch owner (locked_row s row)) s (ap (λ r. (r, s)) (desired-aware s row now))
      (settle_patch-IsSettled owner now s row found)

-- A settle that returns leaves nothing to settle at its instant.
settle_spirit_state-IsSettled :
    (owner now : ℕ) (s : Session) → Settles owner now (settle_spirit_state owner (aware now) s)
unfolding settle_spirit_state settle_owner lock_spirit_state_for_owner assert_writable_transaction
    require_aware
settle_spirit_state-IsSettled owner now s =
    cases_run (Settles owner now) (assert_writable_transaction settle_message)
      (λ _. settle_owner owner (aware now)) s (λ e _ res r. cc r)
      λ _ _. settle_locked-IsSettled owner now s (find? (owned_by owner) s.spirits) refl

-- The call returns, changes nothing and says so.
abbrev pub IsQuiet : Session → Result SpiritSettleResult × Session → Type 0
IsQuiet s r = (res : SpiritSettleResult) × (r.0 ≡ ok res) × (r.1 ≡ s) × (res.changed ≡ false)

settle_patch-IsQuiet :
    (owner : ℕ) (s : Session) (row : SpiritRow) (patch : SpiritStatePatch)
    → patch_equals_snapshot (snapshot_of_row s row) patch ≡ true
    → IsQuiet s (settle_patch owner (locked_row s row) patch s)
unfolding settle_patch
settle_patch-IsQuiet owner s row patch same =
    rw same (
      settled (locked_row s row) (snapshot_of_row s row).status row.version false,
      refl,
      refl,
      refl,
    )

settle_locked-IsQuiet :
    (owner now : ℕ) (s : Session) (row : Option SpiritRow)
    → IsSettledRow now s row
    → IsQuiet s (settle_locked owner (aware now) (Prelude.Option.map (locked_row s) row) s)
unfolding settle_locked
settle_locked-IsQuiet owner now s none h = (no_spirit, refl, refl, refl)
settle_locked-IsQuiet owner now s (some row) h =
    after (IsQuiet s) (lift (desired_spirit_state (snapshot_of_row s row) (aware now)))
      (settle_patch owner (locked_row s row)) s (ap (λ r. (r, s)) (desired-aware s row now))
      (settle_patch-IsQuiet owner s row (decide_state (snapshot_of_row s row) now) h)

settle_spirit_state-IsQuiet :
    (owner now : ℕ) (s : Session)
    → s.read_only ≡ false
    → IsSettled owner now s
    → IsQuiet s (settle_spirit_state owner (aware now) s)
unfolding settle_spirit_state settle_owner lock_spirit_state_for_owner assert_writable_transaction
    require_aware
settle_spirit_state-IsQuiet owner now s writable h =
    after (IsQuiet s) (assert_writable_transaction settle_message)
      (λ _. settle_owner owner (aware now)) s
      (ap (λ b. (if b then err (runtime_error settle_message) else ok tt, s)) writable)
      (settle_locked-IsQuiet owner now s (find? (owned_by owner) s.spirits) h.row)

-- Where a call of `settle_spirit_state` has returned, and its session can be written, a second call
-- for the owner at the same instant returns, leaves the session as it is, and reports no change.
pub settle_spirit_state_again :
    (owner now : ℕ) (s : Session) (res : SpiritSettleResult)
    → (settle_spirit_state owner (aware now) s).0 ≡ ok res
    → (settle_spirit_state owner (aware now) s).1.read_only ≡ false
    → IsQuiet
        (settle_spirit_state owner (aware now) s).1
        (settle_spirit_state owner (aware now) (settle_spirit_state owner (aware now) s).1)
settle_spirit_state_again owner now s res e writable =
    settle_spirit_state-IsQuiet owner now (settle_spirit_state owner (aware now) s).1 writable
      (settle_spirit_state-IsSettled owner now s res e)
