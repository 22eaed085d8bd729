-- ===== src/Pact/Completed.antt =====
-- The record and the row that a call of create_pact leaves for the next.
use kelin_server.Prelude.{
  ℕ, ◌+◌, ◌≡◌, refl, subst, ap, ◌∙◌, true, false, ◌&&◌, String, Option, some, ◌==◌, find?, is_some,
  find?_cong, is_some-update_where, find?-update_where_self, ok_inj, Result, ok, cases_run,
}
use kelin_server.Clock.{Moment}
use kelin_server.Quota.Catalog.{Zones}
use kelin_server.Spirit.Marks.{Text}
use kelin_server.Pact.Store.{
  SpiritRow, PactRow, IdempotencyRow, LockedPactSpirit, Session, is_record, owns_spirit,
  bump_spirit_version, complete_pact_idempotency, fetch_pact_by_id,
}
use kelin_server.Pact.Create.{
  PactCreateSettlement, CreatePactRequest, settle_created, finish_create, pact_create_hash,
  pact_create_operation,
}

module _ (z : Zones) (digest : String → Text → Option ℕ → String) (bank : Result (Unit {0}))
    (owner : ℕ) (body : CreatePactRequest) where
  -- The call is claimed under the hash of its body, and the spirit is there.
  pub record IsClaimed (s : Session) : Type 0 where
    pub writable : s.read_only ≡ false
    pub locked : is_some (find? (λ (r : SpiritRow). r.user_id == owner) s.spirits) ≡ true
    pub claim : IdempotencyRow
    pub recorded :
        find? (is_record owner pact_create_operation body.client_id) s.records ≡ some claim
    pub hash : claim.request_hash ≡ pact_create_hash z digest bank body

  pub record IsStored (row : PactRow) (s : Session) : Type 0 where
    pub claimed : IsClaimed s
    pub stored : fetch_pact_by_id owner row.id s ≡ some row

  pub record IsCompleted (row : PactRow) (s : Session) : Type 0 where
    pub kept : IsStored row s
    pub status : kept.claimed.claim.status ≡ "completed"
    pub resource : kept.claimed.claim.resource_id ≡ some row.id

  unfoldable pub Completes : Result PactCreateSettlement × Session → Type 0
  Completes r = (v : PactCreateSettlement) → r.0 ≡ ok v → IsCompleted v.pact r.1

  owns_spirit-bump :
      (spirit other : ℕ) (s : Session)
      → owns_spirit owner spirit (bump_spirit_version owner other s).1.spirits
        ≡ owns_spirit owner spirit s.spirits
  unfolding owns_spirit bump_spirit_version
  owns_spirit-bump spirit other s =
      is_some-update_where (λ r. r.id == spirit && r.user_id == owner)
        (λ r. r.id == other && r.user_id == owner) (λ r. record r { version = r.version + 1 })
        s.spirits (λ x. refl)

  settle_created-IsCompleted :
      (now : Moment) (row : PactRow) (other snapshot : ℕ) (s : Session)
      → IsStored row s
      → Completes (
          settle_created z digest bank owner body now row snapshot
            (bump_spirit_version owner other s).1)
  unfolding Completes settle_created bump_spirit_version complete_pact_idempotency fetch_pact_by_id
      is_record
  settle_created-IsCompleted now row other snapshot s h v e =
      subst
        (λ (w : PactCreateSettlement).
          IsCompleted w.pact
            (settle_created z digest bank owner body now row snapshot
              (bump_spirit_version owner other s).1).1)
        (ok_inj e)
        (record {
          kept = record {
            claimed = record {
              writable = h.claimed.writable;
              locked =
                  is_some-update_where (λ r. r.user_id == owner)
                    (λ r. r.id == other && r.user_id == owner)
                    (λ r. record r { version = r.version + 1 }) s.spirits (λ x. refl)
                  ∙ h.claimed.locked;
              claim = record h.claimed.claim {
                status = "completed";
                resource_type = some "pact";
                resource_id = some row.id;
              };
              recorded =
                  find?-update_where_self (is_record owner pact_create_operation body.client_id)
                    (λ r. record r {
                      status = "completed";
                      resource_type = some "pact";
                      resource_id = some row.id;
                    })
                    s.records (λ y. refl) h.claimed.recorded;
              hash = h.claimed.hash;
            };
            stored =
                find?_cong
                  (λ p.
                    p.id == row.id
                    && owns_spirit owner p.spirit_id (bump_spirit_version owner other s).1.spirits)
                  (λ p. p.id == row.id && owns_spirit owner p.spirit_id s.spirits) s.pacts
                  (λ x. ap (λ b. x.id == row.id && b) (owns_spirit-bump x.spirit_id other s))
                ∙ h.stored;
          };
          status = refl;
          resource = refl;
        })

  pub finish_create-IsCompleted :
      (locked : LockedPactSpirit) (now : Moment) (row : PactRow) (s : Session)
      → IsStored row s
      → Completes (finish_create z digest bank owner body locked now row s)
  unfolding finish_create Completes
  finish_create-IsCompleted locked now row s h =
      cases_run Completes (bump_spirit_version owner locked.id)
        (settle_created z digest bank owner body now row) s (λ e k v r. cc)
        (λ snapshot k. settle_created-IsCompleted now row locked.id snapshot s h)
