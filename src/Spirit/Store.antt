-- ===== src/Spirit/Store.antt =====
-- The tables that the spirit's repositories read and write: `spirits`, `memories`, `feeds`,
-- `growth_events`, `pacts`, `user_preferences` and the outbox, one list each.
use kelin_server.Prelude.{
  ℕ, Bool, ◌&&◌, String, List, Option, none, some, ◌==◌, str_eq, Exec, runtime_error, raise_if,
  find?, update_where, ok,
}
use kelin_server.Spirit.Marks.{Text}
use kelin_server.Spirit.State.{SpiritStatus, same_status}
use kelin_server.Spirit.Stage.{Stage}
use kelin_server.Spirit.Growth.{Payload, SourceKey}

-- The columns that growth moves.
pub record Vitals : Type 0 where
  pub hunger : ℕ
  pub energy : ℕ
  pub mood : ℕ
  pub bond : ℕ
  pub closeness : ℕ
  pub curiosity : ℕ
  pub sharpness : ℕ
  pub nocturnal : ℕ
  pub stubborn : ℕ

pub record SpiritRow : Type 0 where
  pub id : ℕ
  pub user_id : ℕ
  pub stage : Stage
  pub status : SpiritStatus
  pub vitals : Vitals
  pub last_interact_at : ℕ
  pub study_until : Option ℕ
  pub away_until : Option ℕ
  pub has_visited : Bool
  pub has_been_lost : Bool
  pub scholar_marks : List Text
  pub version : ℕ

pub record MemoryRow : Type 0 where
  pub spirit_id : ℕ
  pub kind : String
  pub active : Bool

pub record FeedRow : Type 0 where
  pub spirit_id : ℕ
  pub kind : String
  pub accepted : Bool
  pub effect_applied_at : Option ℕ

pub record EventRow : Type 0 where
  pub id : ℕ
  pub spirit_id : ℕ
  pub key : SourceKey
  pub payload : Payload
  pub occurred_at : ℕ
  pub applied_at : Option ℕ

pub record PactRow : Type 0 where
  pub spirit_id : ℕ
  pub active : Bool

-- `state:{spirit_id}:{from_status}:{to_status}:{version}`
pub record SettleKey : Type 0 where
  pub spirit_id : ℕ
  pub from_status : SpiritStatus
  pub to_status : SpiritStatus
  pub version : ℕ

pub record OutboxRow : Type 0 where
  pub dedupe_key : SettleKey
  pub owner_id : ℕ

pub record Session : Type 0 where
  pub spirits : List SpiritRow
  pub memories : List MemoryRow
  pub feeds : List FeedRow
  pub events : List EventRow
  pub pacts : List PactRow
  pub preferences : List (ℕ × Bool)
  pub outbox : List OutboxRow
  pub next_id : ℕ
  pub read_only : Bool

abbrev pub Action : Type 0 → Type 0
Action = Exec Session

unfoldable pub assert_writable_transaction : String → Action (Unit {0})
assert_writable_transaction message s = raise_if s.read_only (runtime_error message) s

-- `id = :id AND user_id = :user_id`
unfoldable pub is_owned : ℕ → ℕ → SpiritRow → Bool
is_owned owner spirit row = row.id == spirit && row.user_id == owner

unfoldable pub same_key : SourceKey → EventRow → Bool
same_key key row =
    row.key.source_id == key.source_id
    && (str_eq row.key.source_type key.source_type && str_eq row.key.event_type key.event_type)

abbrev pub same_settle_key : SettleKey → OutboxRow → Bool
same_settle_key key row =
    row.dedupe_key.spirit_id == key.spirit_id
    && (same_status row.dedupe_key.from_status key.from_status
        && (same_status row.dedupe_key.to_status key.to_status
            && row.dedupe_key.version == key.version))

-- `UPDATE public.spirits SET … WHERE … RETURNING …`: the row as it is returned, or none.
unfoldable pub update_spirit :
    (SpiritRow → Bool) → (SpiritRow → SpiritRow) → Action (Option SpiritRow)
update_spirit picks change s = (
  ok (elim (find? picks s.spirits) [ none ↦ none | some row ↦ some (change row) ]),
  record s { spirits = update_where picks change s.spirits },
)
