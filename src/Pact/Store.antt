-- ===== src/Pact/Store.antt =====
-- The tables behind pacts, with the columns that app/repositories/pact.py reads and writes when a pact
-- is created, and its statements on them.
use kelin_server.Prelude.{
  ℕ, suc, ◌+◌, Bool, true, false, ◌&&◌, ◌||◌, not, String, List, [], ◌∷◌, ◌++◌, Option, none, some,
  ◌==◌, str_eq, leb, length, find?, update_where, is_some, if◌then◌else◌, Exec, Result, ok, err,
  raise, raise_if, modify, lift, runtime_error, integrity_error, ◌>>=◌,
}
use kelin_server.Spirit.Marks.{Text}

pub record SpiritRow : Type 0 where
  pub id : ℕ
  pub user_id : ℕ
  pub version : ℕ

pub record MemoryRow : Type 0 where
  pub id : ℕ
  pub spirit_id : ℕ
  pub kind : String
  pub status : String

pub record PactRow : Type 0 where
  pub id : ℕ
  pub spirit_id : ℕ
  pub client_id : ℕ
  pub theme : String
  pub title : Text
  pub notes_memory_id : Option ℕ
  pub question_bank_version : String
  pub week_start : ℕ
  pub starts_at : ℕ
  pub ends_at : ℕ
  pub status : String
  pub completed_sessions : ℕ
  pub skipped_sessions : ℕ
  pub completeness : ℕ
  pub version : ℕ

pub record IdempotencyRow : Type 0 where
  pub user_id : ℕ
  pub operation : String
  pub client_id : ℕ
  pub request_hash : String
  pub status : String
  pub resource_type : Option String
  pub resource_id : Option ℕ

pub record Session : Type 0 where
  pub spirits : List SpiritRow
  pub preferences : List (ℕ × String)
  pub memories : List MemoryRow
  pub pacts : List PactRow
  pub records : List IdempotencyRow
  pub next_id : ℕ
  pub read_only : Bool

abbrev pub Action : Type 0 → Type 0
Action = Exec Session

pub record LockedPactSpirit : Type 0 where
  pub id : ℕ
  pub version : ℕ
  pub timezone : String

pub record IdempotencyClaim : Type 0 where
  pub inserted : Bool
  pub request_hash : String
  pub status : String
  pub resource_id : Option ℕ

unfoldable pub assert_writable_transaction : Action (Unit {0})
assert_writable_transaction s =
    raise_if s.read_only (runtime_error "pact cannot write in a read-only transaction") s

-- `COALESCE(p.timezone, 'Asia/Shanghai')`
abbrev timezone_in : ℕ → List (ℕ × String) → String
timezone_in owner [] = "Asia/Shanghai"
timezone_in owner ((user, timezone) ∷ rest) =
    if user == owner then timezone else timezone_in owner rest

unfoldable pub lock_owned_spirit : ℕ → Session → Option LockedPactSpirit
lock_owned_spirit owner s = elim (find? (λ r. r.user_id == owner) s.spirits) [
  | none ↦ none
  | some row ↦
      some
        (record { id = row.id; version = row.version; timezone = timezone_in owner s.preferences })
]

-- `spirit_id IN (SELECT id FROM public.spirits WHERE user_id = :user_id)`
unfoldable pub owns_spirit : ℕ → ℕ → List SpiritRow → Bool
owns_spirit owner spirit rows = is_some (find? (λ r. r.id == spirit && r.user_id == owner) rows)

unfoldable pub fetch_owned_notes_memory : ℕ → ℕ → Session → Option MemoryRow
unfolding owns_spirit
fetch_owned_notes_memory owner memory s =
    find? (λ m. m.id == memory && owns_spirit owner m.spirit_id s.spirits) s.memories

unfoldable pub is_active_of : ℕ → PactRow → Bool
is_active_of spirit row = row.spirit_id == spirit && str_eq row.status "active"

unfoldable pub fetch_active_pact : ℕ → ℕ → Session → Option PactRow
unfolding is_active_of owns_spirit
fetch_active_pact owner spirit s =
    find? (λ p. is_active_of spirit p && owns_spirit owner p.spirit_id s.spirits) s.pacts

unfoldable pub fetch_pact_by_id : ℕ → ℕ → Session → Option PactRow
unfolding owns_spirit
fetch_pact_by_id owner pact s =
    find? (λ p. p.id == pact && owns_spirit owner p.spirit_id s.spirits) s.pacts

unfoldable pub fetch_pact_by_client_id : ℕ → ℕ → Session → Option PactRow
unfolding owns_spirit
fetch_pact_by_client_id owner client s =
    find? (λ p. p.client_id == client && owns_spirit owner p.spirit_id s.spirits) s.pacts

-- The constraints of `pacts` on one row, in the order of their names.
abbrev pub check_pact : PactRow → Result (Unit {0})
check_pact row =
    if str_eq row.theme "notes" && not (is_some row.notes_memory_id)
    then err (integrity_error "ck_pacts_notes_memory_required")
    else if not (leb (suc row.starts_at) row.ends_at)
    then err (integrity_error "ck_pacts_starts_before_ends")
    else if not (str_eq row.theme "interview" || str_eq row.theme "notes")
    then err (integrity_error "ck_pacts_theme")
    else if not (leb 1 (length row.title) && leb (length row.title) 80)
    then err (integrity_error "ck_pacts_title_length")
    else ok tt

abbrev pub insert_row : PactRow → Action PactRow
insert_row row s = (
  ok (record row { id = s.next_id }),
  record s { pacts = s.pacts ++ record row { id = s.next_id } ∷ []; next_id = s.next_id + 1 },
)

-- The unique index `uq_pacts_spirit_one_active`
unfoldable pub insert_unique : PactRow → Action PactRow
unfolding is_active_of
insert_unique row s =
    if is_some (find? (is_active_of row.spirit_id) s.pacts)
    then (err (integrity_error "uq_pacts_spirit_one_active"), s)
    else insert_row row s

-- `INSERT … SELECT … FROM public.spirits s WHERE … RETURNING …`; the next id of the
-- counter stands for the UUID that is generated, which no row has yet.
unfoldable pub insert_pact : ℕ → PactRow → Action PactRow
unfolding owns_spirit insert_unique
insert_pact owner row s =
    (if owns_spirit owner row.spirit_id s.spirits
        then lift (check_pact row) >>= (λ checked. insert_unique row)
        else raise (runtime_error "pact insert did not return a row"))
      s

abbrev pub bumped : Option SpiritRow → Result ℕ
bumped none = err (runtime_error "spirit version bump did not return a row")
bumped (some row) = ok (row.version + 1)

unfoldable pub bump_spirit_version : ℕ → ℕ → Action ℕ
bump_spirit_version owner spirit s =
    let picks = λ (r : SpiritRow). r.id == spirit && r.user_id == owner in
    (
      bumped (find? picks s.spirits),
      record s {
        spirits = update_where picks (λ r. record r { version = r.version + 1 }) s.spirits;
      },
    )

unfoldable pub is_record : ℕ → String → ℕ → IdempotencyRow → Bool
is_record owner operation client row =
    row.user_id == owner && (str_eq row.operation operation && row.client_id == client)

abbrev pub new_record : ℕ → ℕ → String → String → IdempotencyRow
new_record owner client request_hash operation = record {
  user_id = owner;
  operation = operation;
  client_id = client;
  request_hash = request_hash;
  status = "in_progress";
  resource_type = none;
  resource_id = none;
}

-- `INSERT … ON CONFLICT DO NOTHING`, and the existing row where there is one. Nobody deletes a row
-- between the two statements of a round, so that the first of the three rounds returns.
unfoldable pub claim_pact_idempotency : ℕ → ℕ → String → String → Action IdempotencyClaim
unfolding is_record
claim_pact_idempotency owner client request_hash operation s =
    elim (find? (is_record owner operation client) s.records) [
      | some row ↦ (
        ok (record {
          inserted = false;
          request_hash = row.request_hash;
          status = row.status;
          resource_id = row.resource_id;
        }),
        s,
      )
      | none ↦ (
        ok (record {
          inserted = true;
          request_hash = request_hash;
          status = "in_progress";
          resource_id = none;
        }),
        record s { records = s.records ++ new_record owner client request_hash operation ∷ [] },
      )
    ]

unfoldable pub complete_pact_idempotency : ℕ → ℕ → ℕ → String → String → Action (Unit {0})
unfolding is_record
complete_pact_idempotency owner client resource operation resource_type = modify (λ s. record s {
  records =
      update_where (is_record owner operation client)
        (λ r. record r {
          status = "completed";
          resource_type = some resource_type;
          resource_id = some resource;
        })
        s.records;
})
