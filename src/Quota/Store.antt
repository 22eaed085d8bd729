-- ===== src/Quota/Store.antt =====
-- The two tables behind the quotas, `public.daily_usage` and `private.quota_reservations`, with the
-- zone of `public.user_preferences`, and the objects that app/domain/quota.py and
-- app/repositories/quota.py make of their rows. Ids of users, sources and rows are numbers.
use kelin_server.Prelude.{ℕ, String, Bool, true, false, ◌&&◌, List, Exec, ◌==◌, str_eq}

-- The primary key of `daily_usage`.
pub record Window : Type 0 where
  pub user_id : ℕ
  pub usage_date : ℕ
  pub capability : String

pub record UsageRow : Type 0 where
  pub window : Window
  pub timezone : String
  pub used : ℕ
  pub reserved : ℕ
  pub limit_value : ℕ
  pub version : ℕ

pub data Status : Type 0 where
  held expiring committed released : Status

pub record ReservationRow : Type 0 where
  pub id : ℕ
  pub window : Window
  pub timezone : String
  pub source_id : ℕ
  pub amount : ℕ
  pub expires_at : ℕ
  pub status : Status

pub record QuotaSnapshot : Type 0 where
  pub capability : String
  pub used : ℕ
  pub reserved : ℕ
  pub limit : ℕ
  pub usage_date : ℕ
  pub timezone : String
  pub version : ℕ

pub record QuotaReservation : Type 0 where
  pub id : ℕ
  pub source_id : ℕ
  pub capability : String
  pub amount : ℕ
  pub usage_date : ℕ
  pub timezone : String
  pub expires_at : ℕ
  pub status : Status
  pub snapshot : QuotaSnapshot

-- A session: the tables, the next id that the database generates, and the transaction's mode.
pub record Session : Type 0 where
  pub usage : List UsageRow
  pub reservations : List ReservationRow
  pub preferences : List (ℕ × String)
  pub next_id : ℕ
  pub read_only : Bool

abbrev pub Action : Type 0 → Type 0
Action A = Exec Session A

-- `user_id = … AND usage_date = … AND capability = …`
unfoldable pub same_window : Window → Window → Bool
same_window a b =
    a.user_id == b.user_id && (a.usage_date == b.usage_date && str_eq a.capability b.capability)

-- `user_id = … AND capability = … AND source_id = …`
unfoldable pub same_source : ℕ → String → ℕ → ReservationRow → Bool
same_source owner capability source_id row =
    row.window.user_id == owner
    && (str_eq row.window.capability capability && row.source_id == source_id)

-- `status IN (…)`
abbrev pub is_status : Status → Status → Bool
is_status held held = true
is_status expiring expiring = true
is_status committed committed = true
is_status released released = true
is_status _ _ = false

abbrev pub is_active : Status → Bool
is_active held = true
is_active expiring = true
is_active committed = false
is_active released = false
