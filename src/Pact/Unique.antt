-- ===== src/Pact/Unique.antt =====
-- A row that is new in the tables behind pacts is the only one of its key.
use kelin_server.Prelude.{
  ℕ, ◌+◌, ◌≤◌, ◌<◌, ◌≡◌, refl, String, List, [], ◌∷◌, ◌++◌, none, eq_iff, find?, ◌==◌, inl, inr,
  Bool-cases, arith, All, count, count-append, count-eq-zero,
}
use kelin_server.Pact.Store.{new_record, PactRow, IdempotencyRow, is_active_of, is_record}

module _ (owner client : ℕ) (hash operation : String) where
  -- A new record is the only one of its key.
  pub one_more :
      (o : ℕ) (p : String) (c : ℕ) (rows : List IdempotencyRow)
      → count (is_record o p c) rows ≤ 1
      → find? (is_record owner operation client) rows ≡ none
      → count (is_record o p c) (rows ++ new_record owner client hash operation ∷ []) ≤ 1
  unfolding is_record
  one_more o p c rows h e =
      let added = new_record owner client hash operation in
      let split = count-append (is_record o p c) rows (added ∷ []) in
      elim (Bool-cases (is_record o p c added)) [
        | inr other ↦ ground (arith, split)
        | inl hit ↦
            let user : owner ≡ o = ground arith in
            let kind : operation ≡ p = ground (arith, eq_iff operation p) in
            let id : client ≡ c = ground arith in
            let zero_of : count (is_record o p c) rows ≡ 0 =
              rw (user, kind, id) at (count-eq-zero (is_record owner operation client) rows e) in
            ground (arith, split)
      ]

-- A new active pact is the only one of its spirit.
pub one_pact :
    (row : PactRow) (spirit : ℕ) (rows : List PactRow)
    → count (is_active_of spirit) rows ≤ 1
    → find? (is_active_of row.spirit_id) rows ≡ none
    → count (is_active_of spirit) (rows ++ row ∷ []) ≤ 1
unfolding is_active_of
one_pact row spirit rows h e =
    let split = count-append (is_active_of spirit) rows (row ∷ []) in
    elim (Bool-cases (is_active_of spirit row)) [
      | inr other ↦ ground (arith, split)
      | inl hit ↦
          let same : row.spirit_id ≡ spirit = ground arith in
          let zero_of : count (is_active_of spirit) rows ≡ 0 =
            rw same at (count-eq-zero (is_active_of row.spirit_id) rows e) in
          ground (arith, split)
    ]

-- A row under the next id is the only one of its id.
none_yet :
    (n : ℕ) (rows : List PactRow)
    → All (λ p. p.id < n) rows
    → count (λ (p : PactRow). p.id == n) rows ≡ 0
none_yet n [] h = refl
none_yet n (x ∷ xs) (h, hs) = ground (arith, none_yet n xs hs)

pub one_more_id :
    (row : PactRow) (id : ℕ) (rows : List PactRow) (n : ℕ)
    → All (λ p. p.id < n) rows
    → row.id ≡ n
    → count (λ (p : PactRow). p.id == id) rows ≤ 1
    → count (λ (p : PactRow). p.id == id) (rows ++ row ∷ []) ≤ 1
one_more_id row id rows n fresh e h =
    let split = count-append (λ (p : PactRow). p.id == id) rows (row ∷ []) in
    elim (Bool-cases (row.id == id)) [
      | inr other ↦ ground (arith, split)
      | inl hit ↦
          let same : n ≡ id = ground arith in
          let zero_of : count (λ (p : PactRow). p.id == id) rows ≡ 0 =
            rw same at (none_yet n rows fresh) in
          ground (arith, split)
    ]

pub All-fresh :
    (n : ℕ) (rows : List PactRow) → All (λ p. p.id < n) rows → All (λ p. p.id < n + 1) rows
All-fresh n [] h = tt
All-fresh n (x ∷ xs) (h, hs) = (omega (arith, h), All-fresh n xs hs)
