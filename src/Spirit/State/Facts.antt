-- ===== src/Spirit/State/Facts.antt =====
-- What `desired_spirit_state` decides.
use kelin_server.Prelude.{ℕ, ◌≤◌, ◌<◌, ◌≡◌, ◌⊎◌, ◌↔◌, true, Option, none, some, ok, arith}
use kelin_server.Clock.{Moment, aware, naive, instant, require_aware, require_aware_optional}
use kelin_server.Spirit.State.{
  away, study, lost, SpiritStateSnapshot, SpiritStatePatch, idle_for, idle_lost, idle_study_or_away,
  decide_state, desired_spirit_state, patch_equals_snapshot, apply_patch,
}

module _ (current : SpiritStateSnapshot) (now : ℕ) where
  -- A spirit is lost exactly when it has idled for 72 hours, or was lost and has idled for less
  -- than 18: a lost spirit that has idled for 18 hours or more, and less than 72, is not.
  pub lost_iff : ((decide_state current now).status ≡ lost) ↔ (
      (idle_lost ≤ idle_for current now)
      ⊎ ((current.status ≡ lost) × (idle_for current now < idle_study_or_away)))
  unfolding decide_state
  lost_iff = (λ e. ground arith, λ e. ground arith)

  -- Writing the patch and settling again at the same instant changes nothing.
  pub settle_idempotent :
      patch_equals_snapshot
        (apply_patch current (decide_state current now))
        (decide_state (apply_patch current (decide_state current now)) now)
      ≡ true
  unfolding decide_state apply_patch patch_equals_snapshot
  settle_idempotent = ground arith

-- What a patch says of the times: they go with the status, lie ahead, and are never both set.
pub record IsCoherent (patch : SpiritStatePatch) (now : ℕ) : Type 0 where
  pub study_time :
      (t : Moment) → patch.study_until ≡ some t → (patch.status ≡ study) × (now < instant t)
  pub away_time :
      (t : Moment) → patch.away_until ≡ some t → (patch.status ≡ away) × (now < instant t)

-- The patch that is decided has coherent times, and never forgets that a spirit has been lost.
pub decide_state-IsCoherent :
    (current : SpiritStateSnapshot) (now : ℕ)
    → IsCoherent (decide_state current now) now
      × (current.has_been_lost ≡ true → (decide_state current now).has_been_lost ≡ true)
unfolding decide_state
decide_state-IsCoherent current now = (
  record { study_time = λ t e. ground arith; away_time = λ t e. ground arith },
  λ e. ground arith,
)

abbrev pub IsAware : Moment → Type 0
IsAware (aware t) = Unit
IsAware (naive t) = ⊥

abbrev pub IsAwareOptional : Option Moment → Type 0
IsAwareOptional none = Unit
IsAwareOptional (some m) = IsAware m

-- `desired_spirit_state` returns what `decide_state` says exactly when all its instants are aware.
pub desired_spirit_state_iff :
    (current : SpiritStateSnapshot) (now : Moment)
    → (desired_spirit_state current now ≡ ok (decide_state current (instant now))) ↔ (
        IsAware now
        × IsAware current.last_interact_at
        × IsAwareOptional current.study_until
        × IsAwareOptional current.away_until)
unfolding desired_spirit_state require_aware require_aware_optional
desired_spirit_state_iff current now = (λ e. ground arith, λ e. ground arith)
