-- ===== src/Quota/Catalog.antt =====
-- The catalog, limits and windows of app/domain/quota.py.
-- An instant is a number of seconds and a date a day number. The IANA time zones are a parameter:
-- `ZoneInfo` of Python and `AT TIME ZONE` of PostgreSQL read the same database.
use kelin_server.Prelude.{
  ℕ, ◌+◌, ◌≡◌, String, Bool, Option, none, some, List, [], ◌∷◌, str_eq, strip_string, if◌then◌else◌,
  Result, ok, err, value_error,
}

pub record Zones : Type 0 where
  -- `ZoneInfo(name)` does not raise
  pub known : String → Bool
  -- the local date of an instant
  pub local_date : String → ℕ → ℕ
  -- the instant at which a local date begins
  pub midnight : String → ℕ → ℕ

abbrev pub default_timezone : String
default_timezone = "Asia/Shanghai"

abbrev pub reservation_ttl : ℕ
reservation_ttl = 120

-- The keys of `QUOTA_CAPABILITIES` with their limits, `DEFAULT_DAILY_LIMITS`.
abbrev pub default_daily_limits : List (String × ℕ)
default_daily_limits =
    ("chat", 100)
    ∷ ("asr", 60)
    ∷ ("tts", 20)
    ∷ ("sight", 2)
    ∷ ("search", 20)
    ∷ ("food", 3)
    ∷ ("knowledge", 10)
    ∷ ("emotion", 10)
    ∷ ("visit", 3)
    ∷ ("pact", 1)
    ∷ []

abbrev limit_in : List (String × ℕ) → String → Option ℕ
limit_in [] capability = none
limit_in ((name, limit) ∷ rest) capability =
    if str_eq capability name then some limit else limit_in rest capability

abbrev in_catalog : Option ℕ → String → Result String
in_catalog none capability = err (value_error "quota capability is not in the catalog")
in_catalog (some limit) capability = ok capability

unfoldable pub require_capability : String → Result String
require_capability capability = in_catalog (limit_in default_daily_limits capability) capability

in_catalog-eq : (o : Option ℕ) (c d : String) → in_catalog o c ≡ ok d → c ≡ d
in_catalog-eq none c d e = cc
in_catalog-eq (some limit) c d e = cc

-- What `require_capability` returns is what it was given.
pub require_capability-eq : (c d : String) → require_capability c ≡ ok d → c ≡ d
unfolding require_capability
require_capability-eq c d e = in_catalog-eq (limit_in default_daily_limits c) c d e

unfoldable pub daily_limit : String → Result ℕ
daily_limit capability = elim (limit_in default_daily_limits capability) [
  | none ↦ err (value_error "quota capability is not in the catalog")
  | some limit ↦ ok limit
]

-- `text or other` for strings
abbrev or_else : String → String → String
or_else name other = if str_eq name "" then other else name

unfoldable pub coerce_timezone : Zones → Option String → String
coerce_timezone z timezone_name =
    let given : String = elim timezone_name [
      | none ↦ default_timezone
      | some name ↦ or_else name default_timezone
    ] in
    let name = or_else (strip_string given) default_timezone in
    if z.known name then name else default_timezone

unfoldable pub local_usage_date : Zones → ℕ → String → ℕ
unfolding coerce_timezone
local_usage_date z now timezone_name = z.local_date (coerce_timezone z (some timezone_name)) now

unfoldable pub usage_reset_at : Zones → ℕ → String → ℕ
unfolding coerce_timezone
usage_reset_at z usage_date timezone_name =
    z.midnight (coerce_timezone z (some timezone_name)) (usage_date + 1)
