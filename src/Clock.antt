-- ===== src/Clock.antt =====
-- Instants: `require_aware` of app/domain/spirit_state.py. A `datetime` is aware, and then it is an
-- instant (a number of seconds), or naive.
use kelin_server.Prelude.{ℕ, Option, none, some, Result, ok, err, value_error, bind_result}

pub data Moment : Type 0 where
  aware naive : ℕ → Moment

abbrev pub instant : Moment → ℕ
instant (aware t) = t
instant (naive t) = t

-- The instant of an aware `datetime`.
unfoldable pub require_aware : Moment → Result ℕ
require_aware (aware t) = ok t
require_aware (naive t) = err (value_error "moment must be timezone-aware")

-- `if moment is not None: require_aware(moment)`
unfoldable pub require_aware_optional : Option Moment → Result (Unit {0})
unfolding require_aware
require_aware_optional none = ok tt
require_aware_optional (some m) = bind_result (require_aware m) (λ _. ok tt)
