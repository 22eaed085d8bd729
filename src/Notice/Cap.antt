-- ===== src/Notice/Cap.antt =====
-- The daily cap: what a delivery adds to the active notifications of a day.
use kelin_server.Prelude.{
  ℕ, ◌≤◌, Bool, true, ◌&&◌, String, List, [], ◌∷◌, ◌++◌, Option, ◌≡◌, refl, sym, subst, ◌∙◌, inl,
  inr, ◌⊎◌, length, find?, update_where, Bool-cases, Option-cases, &&-true, if◌then◌else◌, arith,
  ◌==◌,
}
use kelin_server.Quota.Catalog.{Zones}
use kelin_server.Notice.Rules.{PushKey}
use kelin_server.Notice.Store.{DeliveryStatus, Delivery, Session, is_active, is_final}
use kelin_server.Notice.Deliveries.{
  same_push_key, has_key, distinct, active_keys, same_delivery, redeliver, upsert_delivery,
}
use kelin_server.Notice.Distinct.{
  same_push_key-eq, same_push_key_refl, distinct-IsWithin, distinct_more,
}

module _ (z : Zones) (owner : ℕ) (timezone_name : String) where
  -- A row counts for a local date.
  abbrev counts : ℕ → Delivery → Bool
  counts day row =
      row.user_id == owner
      && (is_active row.status && z.local_date timezone_name row.scheduled_for == day)

  abbrev pub keys_on : ℕ → List Delivery → List PushKey
  keys_on day rows = active_keys z owner day timezone_name rows

  -- An active key is that of the first row, or one of the rest.
  keys_on-cons :
      (day : ℕ) (k : PushKey) (x : Delivery) (xs : List Delivery)
      → has_key k (keys_on day (x ∷ xs)) ≡ true
      → ((counts day x ≡ true) × (k ≡ x.dedupe_key)) ⊎ (has_key k (keys_on day xs) ≡ true)
  unfolding active_keys
  keys_on-cons day k x xs h = elim (Bool-cases (counts day x)) [
    | inr out ↦ inr (rw out at h)
    | inl hit ↦ elim (Bool-cases (same_push_key k x.dedupe_key)) [
      | inl e ↦ inl (hit, same_push_key-eq k x.dedupe_key e)
      | inr e ↦ inr (rw (hit, e) at h)
    ]
  ]

  keys_on_rest :
      (day : ℕ) (k : PushKey) (x : Delivery) (xs : List Delivery)
      → has_key k (keys_on day xs) ≡ true
      → has_key k (keys_on day (x ∷ xs)) ≡ true
  unfolding active_keys
  keys_on_rest day k x xs h = elim (Bool-cases (counts day x)) [
    | inr out ↦ rw out h
    | inl hit ↦ rw hit (ground arith)
  ]

  keys_on_here :
      (day : ℕ) (x : Delivery) (xs : List Delivery)
      → counts day x ≡ true
      → has_key x.dedupe_key (keys_on day (x ∷ xs)) ≡ true
  unfolding active_keys
  keys_on_here day x xs hit = rw hit (rw (same_push_key_refl x.dedupe_key) refl)

  -- `rows'` has no active key that `rows` has not, but `key` on the day of `when`, where that is active.
  abbrev pub AddsOnly : PushKey → ℕ → DeliveryStatus → List Delivery → List Delivery → Type 0
  AddsOnly key when status rows rows' =
      (day : ℕ) (k : PushKey)
      → has_key k (keys_on day rows') ≡ true
      → (has_key k (keys_on day rows) ≡ true)
        ⊎ ((k ≡ key) × (is_active status ≡ true) × (z.local_date timezone_name when ≡ day))

  module _ (key : PushKey) (when : ℕ) (status : DeliveryStatus) where
    -- A row with the key, the time and the status counts on that day only.
    planned-counts :
        (row : Delivery) (day : ℕ)
        → row.status ≡ status
        → row.scheduled_for ≡ when
        → counts day row ≡ true
        → (is_active status ≡ true) × (z.local_date timezone_name when ≡ day)
    planned-counts row day same_status same_time h = (
      subst (λ t. is_active t ≡ true) same_status (ground arith),
      subst (λ t. z.local_date timezone_name t ≡ day) same_time (ground arith),
    )

    append-AddsOnly :
        (row : Delivery) (rows : List Delivery)
        → row.dedupe_key ≡ key
        → row.status ≡ status
        → row.scheduled_for ≡ when
        → AddsOnly key when status rows (rows ++ row ∷ [])
    append-AddsOnly row [] same_key same_status same_time day k h =
        elim (keys_on-cons day k row [] h) [
          | inl (hit, e) ↦
              let (active, on_day) = planned-counts row day same_status same_time hit in
              inr (e ∙ same_key, active, on_day)
          | inr old ↦ inl old
        ]
    append-AddsOnly row (x ∷ rows) same_key same_status same_time day k h =
        elim (keys_on-cons day k x (rows ++ row ∷ []) h) [
          | inl (hit, e) ↦ inl (
              subst (λ y. has_key y (keys_on day (x ∷ rows)) ≡ true) (sym e)
                (keys_on_here day x rows hit))
          | inr old ↦ elim (append-AddsOnly row rows same_key same_status same_time day k old) [
            | inl known ↦ inl (keys_on_rest day k x rows known)
            | inr new ↦ inr new
          ]
        ]

    -- What becomes of a row that is delivered again.
    redeliver-counts :
        (x : Delivery) (day : ℕ)
        → counts day (redeliver when status x) ≡ true
        → (counts day x ≡ true)
          ⊎ ((is_active status ≡ true) × (z.local_date timezone_name when ≡ day))
    unfolding redeliver
    redeliver-counts x day h = elim (Bool-cases (is_final x.status)) [
      | inl final ↦ inl (rw final at h)
      | inr open_row ↦ inr (ground arith)
    ]

    redeliver-dedupe_key : (x : Delivery) → (redeliver when status x).dedupe_key ≡ x.dedupe_key
    unfolding redeliver
    redeliver-dedupe_key x = elim (Bool-cases (is_final x.status)) [
      | inl final ↦ rw final refl
      | inr rest ↦ rw rest refl
    ]

    update-AddsOnly :
        (p : Delivery → Bool) (rows : List Delivery)
        → ((x : Delivery) → p x ≡ true → x.dedupe_key ≡ key)
        → AddsOnly key when status rows (update_where p (redeliver when status) rows)
    update-AddsOnly p [] only day k h = inl h
    update-AddsOnly p (x ∷ rows) only day k h =
        let y = if p x then redeliver when status x else x in
        elim (keys_on-cons day k y (update_where p (redeliver when status) rows) h) [
          | inr rest ↦ elim (update-AddsOnly p rows only day k rest) [
            | inl known ↦ inl (keys_on_rest day k x rows known)
            | inr new ↦ inr new
          ]
          | inl (hit, e) ↦ elim (Bool-cases (p x)) [
            | inr miss ↦ inl (
                subst (λ q. has_key q (keys_on day (x ∷ rows)) ≡ true) (sym (rw miss at e))
                  (keys_on_here day x rows (rw miss at hit)))
            | inl match ↦
                let same : k ≡ x.dedupe_key = (rw match at e) ∙ redeliver-dedupe_key x in
                elim (redeliver-counts x day (rw match at hit)) [
                  | inl old ↦ inl (
                      subst (λ q. has_key q (keys_on day (x ∷ rows)) ≡ true) (sym same)
                        (keys_on_here day x rows old))
                  | inr (active, on_day) ↦ inr (same ∙ only x match, active, on_day)
                ]
          ]
        ]

    -- One delivery adds no other key, and none on another day.
    pub upsert_delivery-AddsOnly :
        (user : ℕ) (device : Option ℕ) (event_type : String) (resource : Option ℕ) (s : Session)
        → AddsOnly key when status s.deliveries
            (upsert_delivery user device event_type resource key when status s).1.deliveries
    unfolding upsert_delivery same_delivery
    upsert_delivery-AddsOnly user device event_type resource s =
        elim (Option-cases (find? (same_delivery key device) s.deliveries)) [
          | inl e ↦ rw (upsert_delivery, e) (append-AddsOnly _ s.deliveries refl refl refl)
          | inr (old, e) ↦
              rw (upsert_delivery, e)
                (update-AddsOnly (same_delivery key device) s.deliveries
                  (λ x h. same_push_key-eq x.dedupe_key key (&&-true _ _ h).0))
        ]

    pub AddsOnly-refl : (rows : List Delivery) → AddsOnly key when status rows rows
    AddsOnly-refl rows day k h = inl h

    pub AddsOnly-trans :
        (a b c : List Delivery)
        → AddsOnly key when status a b
        → AddsOnly key when status b c
        → AddsOnly key when status a c
    AddsOnly-trans a b c first second day k h = elim (second day k h) [
      | inl known ↦ first day k known
      | inr new ↦ inr new
    ]

  -- No local date has more active notifications than two.
  abbrev pub IsCapped : List Delivery → Type 0
  IsCapped rows = (day : ℕ) → length (distinct (keys_on day rows)) ≤ 2

  -- What is added under one key keeps the cap, where the day had room for it.
  pub AddsOnly-IsCapped :
      (key : PushKey) (when : ℕ) (status : DeliveryStatus) (a b : List Delivery)
      → AddsOnly key when status a b
      → (is_active status ≡ true
          → length (distinct (keys_on (z.local_date timezone_name when) a)) ≤ 1)
      → IsCapped a
      → IsCapped b
  AddsOnly-IsCapped key when status a b adds room capped day =
      elim (Bool-cases (is_active status && z.local_date timezone_name when == day)) [
        | inl new ↦
            let same : z.local_date timezone_name when ≡ day = ground arith in
            let free =
              subst (λ d. length (distinct (keys_on d a)) ≤ 1) same (room (ground arith)) in
            omega (
              arith,
              free,
              distinct_more (keys_on day b) (keys_on day a) key (λ k h. elim (adds day k h) [
                | inl old ↦ inl old
                | inr (e, active, on_day) ↦ inr e
              ]),
            )
        | inr old ↦ omega (
          arith,
          capped day,
          distinct-IsWithin (keys_on day b) (keys_on day a) (λ k h. elim (adds day k h) [
            | inl known ↦ known
            | inr (e, active, on_day) ↦ ground arith
          ]),
        )
      ]
