-- ===== src/Pact/Runs.antt =====
-- Runs of create_pact, and the theorems about it at concrete inputs.
use kelin_server.Prelude.{
  ℕ, ◌*◌, ◌/◌, ◌≡◌, refl, false, ok, err, api_error, none, [], ◌∷◌, String, Option, codes, str_eq,
  strip_string, map, arith,
}
use kelin_server.Clock.{aware}
use kelin_server.Quota.Catalog.{Zones, coerce_timezone}
use kelin_server.Spirit.Marks.{Text}
use kelin_server.Pact.Store.{PactRow, Session, is_record, lock_owned_spirit, fetch_active_pact}
use kelin_server.Pact.Create.{CreatePactRequest, PactCreateSettlement, create_pact, snapshot_of}
use kelin_server.Pact.Active.{create_pact-active}
use kelin_server.Pact.Replay.{create_pact-replay}
use kelin_server.Pact.Tables.{IsPactStore, create_pact-IsPactStore}

abbrev utc : Zones
utc = record {
  known = λ name. str_eq name "Asia/Shanghai";
  local_date = λ name t. t / 86400;
  midnight = λ name d. d * 86400;
}

abbrev by_theme : String → Text → Option ℕ → String
by_theme theme title notes = theme

abbrev body : CreatePactRequest
body = record { client_id = 4; theme = "interview"; title = codes "week"; notes_memory_id = none }

abbrev home : Session
home = record {
  spirits = record { id = 1; user_id = 7; version = 3 } ∷ [];
  preferences = [];
  memories = [];
  pacts = [];
  records = [];
  next_id = 10;
  read_only = false;
}

home-IsPactStore : IsPactStore home
home-IsPactStore = record {
  one_active = λ spirit. omega arith;
  one_id = λ id. omega arith;
  one_record = λ owner operation client. omega arith;
  fresh = tt;
}

pact_ids :
    map (λ (p : PactRow). p.id) (create_pact utc by_theme (ok tt) 7 body (aware 100) home).1.pacts
    ≡ 10 ∷ []
unfolding create_pact coerce_timezone strip_string
pact_ids = refl

create_pact-IsPactStore_example :
    IsPactStore (create_pact utc by_theme (ok tt) 7 body (aware 100) home).1
create_pact-IsPactStore_example =
    create_pact-IsPactStore utc by_theme (ok tt) 7 body (aware 100) home home-IsPactStore

abbrev first : PactCreateSettlement
first = record {
  snapshot_version = 4;
  pact = record {
    id = 10;
    spirit_id = 1;
    client_id = 4;
    theme = "interview";
    title = codes "week";
    notes_memory_id = none;
    question_bank_version = "interview-v1";
    week_start = 0;
    starts_at = 100;
    ends_at = 604900;
    status = "active";
    completed_sessions = 0;
    skipped_sessions = 0;
    completeness = 0;
    version = 1;
  };
  events = ("pact.created", 100) ∷ [];
}

first_ok : (create_pact utc by_theme (ok tt) 7 body (aware 100) home).0 ≡ ok first
unfolding create_pact coerce_timezone strip_string
first_ok = refl

create_pact-replay_example :
    let t = (create_pact utc by_theme (ok tt) 7 body (aware 100) home).1 in
    create_pact utc by_theme (ok tt) 7 body (aware 500) t ≡ (
      ok (record {
        snapshot_version = snapshot_of utc by_theme (ok tt) (lock_owned_spirit 7 t) first.pact;
        pact = first.pact;
        events = [];
      }),
      t,
    )
unfolding is_record
create_pact-replay_example =
    create_pact-replay utc by_theme (ok tt) 7 body (aware 100) (aware 500) home home-IsPactStore
      refl first first_ok

-- A second body, under another client id, while the first pact is active.
abbrev other_body : CreatePactRequest
other_body = record {
  client_id = 5;
  theme = "interview";
  title = codes "next";
  notes_memory_id = none;
}

abbrev occupied : Session
occupied = record home { pacts = first.pact ∷ []; next_id = 11 }

create_pact-active_example :
    let (result, s') = create_pact utc by_theme (ok tt) 7 other_body (aware 500) occupied in
    (s'.pacts ≡ first.pact ∷ []) × ((v : PactCreateSettlement) → result ≡ ok v → v.events ≡ [])
unfolding lock_owned_spirit fetch_active_pact
create_pact-active_example =
    create_pact-active utc by_theme (ok tt) 7 other_body (aware 500) occupied
      (record { id = 1; version = 3; timezone = "Asia/Shanghai" }) refl refl

refused :
    (create_pact utc by_theme (ok tt) 7 other_body (aware 500) occupied).0
    ≡ err (api_error "PACT_ALREADY_ACTIVE" 409)
unfolding create_pact coerce_timezone strip_string
refused = refl
