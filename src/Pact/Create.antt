-- ===== src/Pact/Create.antt =====
-- `create_pact` of app/services/pact.py, with its replay. Ids of events are left out. Parameters: the
-- time zones, the digest of a request, and whether the interview bank loads.
use kelin_server.Prelude.{
  ℕ, ◌&&◌, not, String, List, [], ◌∷◌, Option, none, some, str_eq, if◌then◌else◌, Error, Result, ok,
  err, pure, raise_if, gets, lift, is_some, api_error, integrity_error, ◌>>=◌, ◌>>◌,
}
use kelin_server.Clock.{Moment, instant}
use kelin_server.Quota.Catalog.{Zones}
use kelin_server.Spirit.Marks.{Text}
use kelin_server.Pact.Calendar.{week_window}
use kelin_server.Pact.Store.{
  MemoryRow, PactRow, Session, Action, LockedPactSpirit, IdempotencyClaim,
  assert_writable_transaction, lock_owned_spirit, fetch_owned_notes_memory, fetch_active_pact,
  fetch_pact_by_id, fetch_pact_by_client_id, insert_pact, bump_spirit_version,
  claim_pact_idempotency, complete_pact_idempotency,
}

pub record CreatePactRequest : Type 0 where
  pub client_id : ℕ
  pub theme : String
  pub title : Text
  pub notes_memory_id : Option ℕ

pub record PactCreateSettlement : Type 0 where
  pub snapshot_version : ℕ
  pub pact : PactRow
  pub events : List (String × ℕ)

abbrev pub pact_create_operation : String
pact_create_operation = "pacts.create"

unfoldable pub question_bank_version_for : String → String
question_bank_version_for theme = if str_eq theme "notes" then "notes-v1" else "interview-v1"

-- `is_active_pact_conflict`: the error of the unique index becomes one of the API.
unfoldable pub as_conflict : Error → Error
as_conflict (integrity_error name) =
    if str_eq name "uq_pacts_spirit_one_active"
    then api_error "PACT_ALREADY_ACTIVE" 409
    else integrity_error name
as_conflict e = e

unfoldable pub caught : {A : Type 0} → Result A → Result A
unfolding as_conflict
caught (ok a) = ok a
caught (err e) = err (as_conflict e)

-- `try: … except IntegrityError`
unfoldable pub or_conflict : {A : Type 0} → Action A → Action A
unfolding caught
or_conflict m s = let (r, s') = m s in (caught r, s')

abbrev pub found : {A : Type 0} → Option A → Result A
found none = err (api_error "NOT_FOUND" 404)
found (some a) = ok a

abbrev usable_memory : Option MemoryRow → Result (Option ℕ)
usable_memory none = err (api_error "NOT_FOUND" 404)
usable_memory (some m) =
    if str_eq m.kind "knowledge" && str_eq m.status "active"
    then ok (some m.id)
    else err (api_error "NOT_FOUND" 404)

abbrev notes_memory : ℕ → Option ℕ → Session → Result (Option ℕ)
unfolding fetch_owned_notes_memory
notes_memory owner none s = err (api_error "INVALID_INPUT" 422)
notes_memory owner (some memory) s = usable_memory (fetch_owned_notes_memory owner memory s)

unfoldable pub require_notes_memory : ℕ → CreatePactRequest → Action (Option ℕ)
unfolding notes_memory
require_notes_memory owner body s =
    ((if str_eq body.theme "notes" then notes_memory owner body.notes_memory_id s else ok none), s)

module _ (z : Zones) (digest : String → Text → Option ℕ → String) (bank : Result (Unit {0})) where
  abbrev pub pact_create_hash : CreatePactRequest → String
  pact_create_hash body = digest body.theme body.title body.notes_memory_id

  -- The row that a replay returns.
  unfoldable pub resource_row : ℕ → CreatePactRequest → IdempotencyClaim → Session → Option PactRow
  unfolding fetch_pact_by_id fetch_pact_by_client_id
  resource_row owner body claim s =
      let by_client = fetch_pact_by_client_id owner body.client_id s in
      elim claim.resource_id [
        | none ↦ by_client
        | some pact ↦ elim (fetch_pact_by_id owner pact s) [
          | none ↦ by_client
          | some row ↦ some row
        ]
      ]

  abbrev pub snapshot_of : Option LockedPactSpirit → PactRow → ℕ
  snapshot_of none row = row.version
  snapshot_of (some locked) row = locked.version

  unfoldable pub replayed : ℕ → PactRow → Action PactCreateSettlement
  unfolding lock_owned_spirit
  replayed owner row s = (
    ok (record {
      snapshot_version = snapshot_of (lock_owned_spirit owner s) row;
      pact = row;
      events = [];
    }),
    s,
  )

  -- What the record of an earlier call says.
  unfoldable pub check_claim : IdempotencyClaim → String → Result (Unit {0})
  check_claim claim request_hash =
      if not (str_eq claim.request_hash request_hash)
      then err (api_error "IDEMPOTENCY_CONFLICT" 409)
      else if str_eq claim.status "in_progress"
      then err (api_error "IDEMPOTENCY_IN_PROGRESS" 409)
      else if str_eq claim.status "conflict"
      then err (api_error "IDEMPOTENCY_CONFLICT" 409)
      else if not (str_eq claim.status "completed")
      then err (api_error "IDEMPOTENCY_IN_PROGRESS" 409)
      else ok tt

  unfoldable pub replay : ℕ → CreatePactRequest → IdempotencyClaim → Action PactCreateSettlement
  unfolding check_claim resource_row replayed
  replay owner body claim = do
    lift (check_claim claim (pact_create_hash body))
    row ← gets (resource_row owner body claim)
    pact ← lift (found row)
    replayed owner pact

  unfoldable pub settle_created :
      ℕ → CreatePactRequest → Moment → PactRow → ℕ → Action PactCreateSettlement
  unfolding complete_pact_idempotency
  settle_created owner body now row snapshot = do
    complete_pact_idempotency owner body.client_id row.id pact_create_operation "pact"
    pure (record {
      snapshot_version = snapshot;
      pact = row;
      events = ("pact.created", instant now) ∷ [];
    })

  unfoldable pub finish_create :
      ℕ → CreatePactRequest → LockedPactSpirit → Moment → PactRow → Action PactCreateSettlement
  unfolding bump_spirit_version settle_created
  finish_create owner body locked now row =
      bump_spirit_version owner locked.id >>= settle_created owner body now row

  unfoldable pub new_pact : CreatePactRequest → LockedPactSpirit → Option ℕ → ℕ × ℕ × ℕ → PactRow
  unfolding question_bank_version_for
  new_pact body locked notes (starts_at, ends_at, week_start) = record {
    id = 0;
    spirit_id = locked.id;
    client_id = body.client_id;
    theme = body.theme;
    title = body.title;
    notes_memory_id = notes;
    question_bank_version = question_bank_version_for body.theme;
    week_start = week_start;
    starts_at = starts_at;
    ends_at = ends_at;
    status = "active";
    completed_sessions = 0;
    skipped_sessions = 0;
    completeness = 0;
    version = 1;
  }

  unfoldable pub create_in :
      ℕ → CreatePactRequest → LockedPactSpirit → Moment → Option ℕ → Action PactCreateSettlement
  unfolding week_window or_conflict insert_pact new_pact finish_create
  create_in owner body locked now notes = do
    window ← lift (week_window z now locked.timezone)
    row ← or_conflict (insert_pact owner (new_pact body locked notes window))
    finish_create owner body locked now row

  unfoldable pub create_new :
      ℕ → CreatePactRequest → LockedPactSpirit → Moment → Action PactCreateSettlement
  unfolding require_notes_memory fetch_active_pact create_in
  create_new owner body locked now = do
    notes ← require_notes_memory owner body
    active ← gets (fetch_active_pact owner locked.id)
    raise_if (is_some active) (api_error "PACT_ALREADY_ACTIVE" 409)
    create_in owner body locked now notes

  unfoldable pub create_claimed :
      ℕ
      → CreatePactRequest
      → LockedPactSpirit
      → Moment
      → IdempotencyClaim
      → Action PactCreateSettlement
  unfolding create_new replay
  create_claimed owner body locked now claim =
      if claim.inserted then create_new owner body locked now else replay owner body claim

  unfoldable pub create_locked :
      ℕ → CreatePactRequest → Moment → LockedPactSpirit → Action PactCreateSettlement
  unfolding claim_pact_idempotency create_claimed
  create_locked owner body now locked =
      claim_pact_idempotency owner body.client_id (pact_create_hash body) pact_create_operation
      >>= create_claimed owner body locked now

  unfoldable pub create_pact : ℕ → CreatePactRequest → Moment → Action PactCreateSettlement
  unfolding assert_writable_transaction lock_owned_spirit create_locked
  create_pact owner body now = do
    assert_writable_transaction
    lift bank
    locked ← gets (lock_owned_spirit owner)
    spirit ← lift (found locked)
    create_locked owner body now spirit
