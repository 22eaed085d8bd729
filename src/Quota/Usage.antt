-- ===== src/Quota/Usage.antt =====
-- The statements of app/repositories/quota.py on `daily_usage`, each a function on the session.
use kelin_server.Prelude.{
  ℕ, ◌+◌, ◌-◌, String, Bool, ◌&&◌, Option, none, some, List, [], ◌∷◌, ◌++◌, find?, update_where,
  ltb, leb, ◌==◌, str_eq, if◌then◌else◌, Result, ok, value_error, runtime_error, pure, gets, lift,
  modify, raise_if, ◌>>=◌, ◌>>◌,
}
use kelin_server.Quota.Catalog.{
  Zones, require_capability, daily_limit, coerce_timezone, local_usage_date,
}
use kelin_server.Quota.Store.{Window, UsageRow, QuotaSnapshot, Action, same_window}

unfoldable pub assert_writable_transaction : Action (Unit {0})
assert_writable_transaction s =
    raise_if s.read_only (runtime_error "quota cannot write in a read-only transaction") s

abbrev preference : ℕ → List (ℕ × String) → Option String
preference owner [] = none
preference owner ((user, zone) ∷ rest) = if user == owner then some zone else preference owner rest

-- Of two rows the one with the later date (`ORDER BY usage_date DESC LIMIT 1`).
abbrev later_row : UsageRow → Option UsageRow → Option UsageRow
later_row a none = some a
later_row a (some b) = if ltb a.window.usage_date b.window.usage_date then some b else some a

-- `limit_value`, or the limit of the catalog where none is given
unfoldable pub limit_or_default : String → Option ℕ → Result ℕ
limit_or_default capability none = daily_limit capability
limit_or_default capability (some limit) = ok limit

-- The transition that `mode` names: the assignments of `SET`, and the condition of `WHERE`.
pub data Mode : Type 0 where
  reserve release commit : Mode

abbrev pub mode_allows : Mode → ℕ → UsageRow → Bool
mode_allows reserve amount row = leb (row.used + row.reserved + amount) row.limit_value
mode_allows release amount row = leb amount row.reserved
mode_allows commit amount row = leb amount row.reserved

abbrev pub mode_assigns : Mode → ℕ → UsageRow → UsageRow
mode_assigns reserve amount row = record row {
  reserved = row.reserved + amount;
  version = row.version + 1;
}
mode_assigns release amount row = record row {
  reserved = row.reserved - amount;
  version = row.version + 1;
}
mode_assigns commit amount row = record row {
  reserved = row.reserved - amount;
  used = row.used + amount;
  version = row.version + 1;
}

abbrev pub window_at : ℕ → ℕ → String → Window
window_at owner date capability = record {
  user_id = owner;
  usage_date = date;
  capability = capability;
}

unfoldable pub consume_row : ℕ → UsageRow → UsageRow
consume_row amount row = record row { used = row.used + amount; version = row.version + 1 }

module _ (z : Zones) where
  unfoldable pub owner_timezone : ℕ → Action String
  owner_timezone owner s = (ok (coerce_timezone z (preference owner s.preferences)), s)

  -- The latest row of the owner and capability whose local day has not ended.
  unfoldable pub active_window : ℕ → String → ℕ → List UsageRow → Option UsageRow
  active_window owner capability now [] = none
  active_window owner capability now (row ∷ rest) =
      let later = active_window owner capability now rest in
      if row.window.user_id == owner
        && str_eq row.window.capability capability
        && ltb now (z.midnight row.timezone (row.window.usage_date + 1))
      then later_row row later
      else later

  abbrev window_of : Option UsageRow → ℕ → String → ℕ × String
  window_of none now zone = (local_usage_date z now zone, zone)
  window_of (some row) now zone = (row.window.usage_date, coerce_timezone z (some row.timezone))

  unfoldable pub resolve_usage_window : ℕ → String → ℕ → String → Action (ℕ × String)
  resolve_usage_window owner capability now timezone = do
    cap ← lift (require_capability capability)
    usage ← gets (λ s. s.usage)
    pure (window_of (active_window owner cap now usage) now (coerce_timezone z (some timezone)))

  -- `INSERT … ON CONFLICT DO NOTHING`
  abbrev pub insert_usage : UsageRow → List UsageRow → List UsageRow
  insert_usage row rows = elim (find? (λ r. same_window r.window row.window) rows) [
    | none ↦ rows ++ row ∷ []
    | some old ↦ rows
  ]

  unfoldable pub ensure_usage_row : Window → String → ℕ → Action (Unit {0})
  ensure_usage_row w timezone limit = do
    cap ← lift (require_capability w.capability)
    modify (λ s. record s {
      usage =
          insert_usage
            (record {
              window = w;
              timezone = coerce_timezone z (some timezone);
              used = 0;
              reserved = 0;
              limit_value = limit;
              version = 1;
            })
            s.usage;
    })

  -- `_snapshot`
  unfoldable pub snapshot_of : UsageRow → String → QuotaSnapshot
  snapshot_of row capability = record {
    capability = capability;
    used = row.used;
    reserved = row.reserved;
    limit = row.limit_value;
    usage_date = row.window.usage_date;
    timezone = coerce_timezone z (some row.timezone);
    version = row.version;
  }

  unfoldable pub load_usage : Window → Action (Option QuotaSnapshot)
  load_usage w = do
    cap ← lift (require_capability w.capability)
    usage ← gets (λ s. s.usage)
    pure (elim (find? (λ r. same_window r.window w) usage) [
      | none ↦ none
      | some row ↦ some (snapshot_of row cap)
    ])

  -- `UPDATE public.daily_usage SET … WHERE key AND condition RETURNING …`, the first row returned
  unfoldable pub update_usage :
      Window → (UsageRow → Bool) → (UsageRow → UsageRow) → Action (Option QuotaSnapshot)
  unfolding snapshot_of
  update_usage w allows assigns = do
    usage ← gets (λ s. s.usage)
    modify (λ s. record s {
      usage = update_where (λ r. same_window r.window w && allows r) assigns s.usage;
    })
    pure (elim (find? (λ r. same_window r.window w && allows r) usage) [
      | none ↦ none
      | some row ↦ some (snapshot_of (assigns row) w.capability)
    ])

  unfoldable pub consume : ℕ → String → ℕ → String → ℕ → Option ℕ → Action (Option QuotaSnapshot)
  unfolding consume_row
  consume owner capability now timezone amount limit_value = do
    cap ← lift (require_capability capability)
    raise_if (amount == 0) (value_error "quota amount must be positive")
    limit ← lift (limit_or_default cap limit_value)
    found ← resolve_usage_window owner cap now timezone
    ensure_usage_row (window_at owner found.0 cap) found.1 limit
    update_usage (window_at owner found.0 cap) (mode_allows reserve amount) (consume_row amount)

  unfoldable pub apply_reserved_delta : Window → ℕ → Mode → Action (Option QuotaSnapshot)
  apply_reserved_delta w amount mode = do
    cap ← lift (require_capability w.capability)
    raise_if (amount == 0) (value_error "quota amount must be positive")
    update_usage w (mode_allows mode amount) (mode_assigns mode amount)
