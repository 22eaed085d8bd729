-- ===== src/Spirit/State.antt =====
-- The status of a spirit by the clock: app/domain/spirit_state.py. Durations are in seconds.
pub mod Facts
use kelin_server.Prelude.{
  ℕ, ◌-◌, Bool, true, false, ◌&&◌, Option, none, some, ltb, leb, if◌then◌else◌, Result, ok,
  bind_result, ◌==◌,
}
use kelin_server.Clock.{Moment, instant, require_aware, require_aware_optional}

pub data SpiritStatus : Type 0 where
  home away study lost : SpiritStatus

abbrev pub is_lost : SpiritStatus → Bool
is_lost lost = true
is_lost home = false
is_lost away = false
is_lost study = false

-- 18 and 72 hours.
abbrev pub idle_study_or_away : ℕ
idle_study_or_away = 64800

abbrev pub idle_lost : ℕ
idle_lost = 259200

pub record SpiritStateSnapshot : Type 0 where
  pub status : SpiritStatus
  pub last_interact_at : Moment
  pub study_until : Option Moment
  pub away_until : Option Moment
  pub has_been_lost : Bool
  pub visit_on : Bool
  pub has_due_study_task : Bool

pub record SpiritStatePatch : Type 0 where
  pub status : SpiritStatus
  pub study_until : Option Moment
  pub away_until : Option Moment
  pub has_been_lost : Bool

-- `_until_active`
abbrev pub until_active : Option Moment → ℕ → Bool
until_active none now = false
until_active (some until) now = ltb now (instant until)

-- `_kept_until`
abbrev pub kept_until : Option Moment → ℕ → Option Moment
kept_until none now = none
kept_until (some until) now = if ltb now (instant until) then some until else none

abbrev pub lost_patch : SpiritStatePatch
lost_patch = record { status = lost; study_until = none; away_until = none; has_been_lost = true }

abbrev pub study_patch : SpiritStateSnapshot → Option Moment → SpiritStatePatch
study_patch current until = record {
  status = study;
  study_until = until;
  away_until = none;
  has_been_lost = current.has_been_lost;
}

abbrev pub away_patch : SpiritStateSnapshot → Option Moment → SpiritStatePatch
away_patch current until = record {
  status = away;
  study_until = none;
  away_until = until;
  has_been_lost = current.has_been_lost;
}

abbrev pub home_patch : SpiritStateSnapshot → SpiritStatePatch
home_patch current = record {
  status = home;
  study_until = none;
  away_until = none;
  has_been_lost = current.has_been_lost;
}

-- `now - last_interact_at`, at least 0
abbrev pub idle_for : SpiritStateSnapshot → ℕ → ℕ
idle_for current now = now - instant current.last_interact_at

-- The branches of `desired_spirit_state`, in their order, once every `datetime` is aware.
unfoldable pub decide_state : SpiritStateSnapshot → ℕ → SpiritStatePatch
decide_state current now =
    if leb idle_lost (idle_for current now)
    then lost_patch
    else if leb idle_study_or_away (idle_for current now)
    then (if current.has_due_study_task
        then study_patch current (kept_until current.study_until now)
        else if current.visit_on
        then away_patch current (kept_until current.away_until now)
        else study_patch current (kept_until current.study_until now))
    else if is_lost current.status
    then lost_patch
    else if until_active current.study_until now
    then study_patch current current.study_until
    else if until_active current.away_until now
    then away_patch current current.away_until
    else home_patch current

unfoldable pub desired_spirit_state : SpiritStateSnapshot → Moment → Result SpiritStatePatch
desired_spirit_state current now = bind_result (require_aware now) λ t.
    bind_result (require_aware current.last_interact_at) λ _.
      bind_result (require_aware_optional current.study_until) λ _.
        bind_result (require_aware_optional current.away_until) λ _. ok (decide_state current t)

abbrev pub same_status : SpiritStatus → SpiritStatus → Bool
same_status home home = true
same_status away away = true
same_status study study = true
same_status lost lost = true
same_status _ _ = false

abbrev pub same_bool : Bool → Bool → Bool
same_bool true b = b
same_bool false true = false
same_bool false false = true

-- `==` on two values that are None or aware
abbrev pub same_until : Option Moment → Option Moment → Bool
same_until none none = true
same_until none (some b) = false
same_until (some a) none = false
same_until (some a) (some b) = instant a == instant b

unfoldable pub patch_equals_snapshot : SpiritStateSnapshot → SpiritStatePatch → Bool
patch_equals_snapshot current patch =
    same_status current.status patch.status
    && (same_until current.study_until patch.study_until
        && (same_until current.away_until patch.away_until
            && same_bool current.has_been_lost patch.has_been_lost))

-- The snapshot after the patch is written.
unfoldable pub apply_patch : SpiritStateSnapshot → SpiritStatePatch → SpiritStateSnapshot
apply_patch current patch = record current {
  status = patch.status;
  study_until = patch.study_until;
  away_until = patch.away_until;
  has_been_lost = patch.has_been_lost;
}
