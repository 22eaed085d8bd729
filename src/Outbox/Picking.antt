-- ===== src/Outbox/Picking.antt =====
-- The rows that `claim_due_outbox` picks are due, where ids are unique.
use kelin_server.Prelude.{
  ℕ, ◌≤◌, ◌+◌, Bool, true, String, List, [], ◌∷◌, Option, ◌≡◌, refl, sym, ◌∙◌, subst, inl, inr, ◌⊎◌,
  In, here, there, In-cons, In-take, In-take-all, length, In-find?, count, Bool-cases, ==_iff, ◌==◌,
  arith,
}
use mathlib.Core.Option.{some-injective}
use kelin_server.Prelude.Int.{ℤ}
use kelin_server.Outbox.Store.{OutboxEvent, Session, has_id}
use kelin_server.Outbox.Due.{
  is_due, due_before, insert_due, due_events, is_picked, batch_size, picked_events,
}

-- `id` is the primary key.
abbrev pub HasUniqueIds : List OutboxEvent → Type 0
HasUniqueIds rows = (job : ℕ) → count (has_id job) rows ≤ 1

In-insert_due :
    (row : OutboxEvent) (rows : List OutboxEvent) {x : OutboxEvent}
    → In x (insert_due row rows)
    → (x ≡ row) ⊎ In x rows
unfolding insert_due
In-insert_due row [] here = inl refl
In-insert_due row [] (there m) = elim m [ ]
In-insert_due row (other ∷ rows) {x} m = elim (Bool-cases (due_before row other)) [
  | inl first ↦ In-cons (rw first at m)
  | inr later ↦ elim (In-cons {y = other} {xs = insert_due row rows} (rw later at m)) [
    | inl e ↦ inr (subst (λ y. In y (other ∷ rows)) (sym e) here)
    | inr k ↦ elim (In-insert_due row rows k) [ inl e ↦ inl e | inr k' ↦ inr (there k') ]
  ]
]

module _ (now : ℕ) (names : Option (List String)) (others : ℕ → Bool) where
  In-due_events :
      (rows : List OutboxEvent) {x : OutboxEvent}
      → In x (due_events now names others rows)
      → (is_due now names others x ≡ true) × In x rows
  unfolding due_events
  In-due_events [] m = elim m [ ]
  In-due_events (row ∷ rows) {x} m = elim (Bool-cases (is_due now names others row)) [
    | inl due ↦ elim (In-insert_due row (due_events now names others rows) {x = x} (rw due at m)) [
      | inl e ↦ (
        subst (λ y. is_due now names others y ≡ true) (sym e) due,
        subst (λ y. In y (row ∷ rows)) (sym e) here,
      )
      | inr k ↦ let (d, k') = In-due_events rows k in (d, there k')
    ]
    | inr waits ↦ let (d, k') = In-due_events rows {x = x} (rw waits at m) in (d, there k')
  ]

  insert_due-In :
      (row : OutboxEvent) (rows : List OutboxEvent) {x : OutboxEvent}
      → (x ≡ row) ⊎ In x rows
      → In x (insert_due row rows)
  unfolding insert_due
  insert_due-In row [] (inl e) = subst (λ y. In y (row ∷ [])) (sym e) here
  insert_due-In row [] (inr m) = elim m [ ]
  insert_due-In row (other ∷ rows) {x} (inl e) = elim (Bool-cases (due_before row other)) [
    | inl first ↦ rw first (subst (λ y. In y (row ∷ other ∷ rows)) (sym e) here)
    | inr later ↦ rw later (there (insert_due-In row rows (inl e)))
  ]
  insert_due-In row (other ∷ rows) {x} (inr m) = elim (Bool-cases (due_before row other)) [
    | inl first ↦ rw first (there m)
    | inr later ↦ rw later (elim (In-cons m) [
      | inl e ↦ subst (λ y. In y (other ∷ insert_due row rows)) (sym e) here
      | inr k ↦ there (insert_due-In row rows (inr k))
    ])
  ]

  due_events-In :
      (rows : List OutboxEvent) {x : OutboxEvent}
      → In x rows
      → is_due now names others x ≡ true
      → In x (due_events now names others rows)
  unfolding due_events
  due_events-In [] m due = elim m [ ]
  due_events-In (row ∷ rows) {x} here due =
      rw due (insert_due-In row (due_events now names others rows) (inl refl))
  due_events-In (row ∷ rows) (there m) due = elim (Bool-cases (is_due now names others row)) [
    | inl hit ↦
        rw hit
          (insert_due-In row (due_events now names others rows) (inr (due_events-In rows m due)))
    | inr miss ↦ rw miss (due_events-In rows m due)
  ]

length-insert_due :
    (row : OutboxEvent) (rows : List OutboxEvent) → length (insert_due row rows) ≡ 1 + length rows
unfolding insert_due
length-insert_due row [] = refl
length-insert_due row (other ∷ rows) = ground (arith, length-insert_due row rows)

length-due_events :
    (now : ℕ) (names : Option (List String)) (others : ℕ → Bool) (rows : List OutboxEvent)
    → length (due_events now names others rows) ≤ length rows
unfolding due_events
length-due_events now names others [] = omega arith
length-due_events now names others (row ∷ rows) = ground (
  arith,
  length-due_events now names others rows,
  length-insert_due row (due_events now names others rows),
)

In-is_picked :
    (picked : List OutboxEvent) {row : OutboxEvent} → In row picked → is_picked picked row ≡ true
unfolding is_picked
In-is_picked [] m = elim m [ ]
In-is_picked (p ∷ picked) here = ground arith
In-is_picked (p ∷ picked) (there m) = ground (arith, In-is_picked picked m)

-- A row that is due is picked, where the batch has room for the whole table.
pub due-is_picked :
    (now : ℕ) (batch : ℤ) (names : Option (List String)) (s : Session) (row : OutboxEvent)
    → length s.events ≤ batch_size batch
    → In row s.events
    → is_due now names s.locked_elsewhere row ≡ true
    → is_picked (picked_events now batch names s) row ≡ true
unfolding picked_events
due-is_picked now batch names s row room m due = In-is_picked (picked_events now batch names s) (
    In-take-all (batch_size batch) (due_events now names s.locked_elsewhere s.events)
      (omega (arith, room, length-due_events now names s.locked_elsewhere s.events))
      (due_events-In now names s.locked_elsewhere s.events m due))

is_picked-In :
    (picked : List OutboxEvent) (row : OutboxEvent)
    → is_picked picked row ≡ true
    → (p : OutboxEvent) × In p picked × (p.id ≡ row.id)
unfolding is_picked
is_picked-In [] row h = cc
is_picked-In (p ∷ picked) row h = elim (Bool-cases (p.id == row.id)) [
  | inl e ↦ (p, here, (==_iff p.id row.id).0 e)
  | inr e ↦ let (q, m, same) = is_picked-In picked row (rw e at h) in (q, there m, same)
]

-- A row that is picked is due.
pub picked_events-due :
    (now : ℕ) (batch : ℤ) (names : Option (List String)) (s : Session)
    → HasUniqueIds s.events
    → (row : OutboxEvent) → In row s.events
    → is_picked (picked_events now batch names s) row ≡ true
    → is_due now names s.locked_elsewhere row ≡ true
unfolding picked_events
picked_events-due now batch names s unique row m h =
    let (p, k, same) = is_picked-In (picked_events now batch names s) row h in
    let (due, k') =
      In-due_events now names s.locked_elsewhere s.events
        (In-take (batch_size batch) (due_events now names s.locked_elsewhere s.events) k) in
    let found = In-find? (has_id row.id) m ((==_iff row.id row.id).1 refl) (unique row.id) in
    let found' = In-find? (has_id row.id) k' ((==_iff p.id row.id).1 same) (unique row.id) in
    subst (λ y. is_due now names s.locked_elsewhere y ≡ true)
      (some-injective _ _ (sym found' ∙ found)) due
