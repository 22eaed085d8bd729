-- ===== src/Notice/Distinct.antt =====
-- Lists of notification keys, and how many different ones they have.
use kelin_server.Prelude.{
  ℕ, suc, ◌≤◌, true, false, List, [], ◌∷◌, Option, none, some, ◌≡◌, refl, sym, ap, subst, inl, inr,
  ◌⊎◌, length, eq_iff, Bool-cases, if◌then◌else◌, arith,
}
use kelin_server.Notice.Rules.{PushKey}
use kelin_server.Notice.Deliveries.{same_option, same_push_key, has_key, distinct}

same_option-eq : (a b : Option ℕ) → same_option a b ≡ true → a ≡ b
same_option-eq none none h = refl
same_option-eq none (some b) h = cc
same_option-eq (some a) none h = cc
same_option-eq (some a) (some b) h = ap some (ground arith)

same_option_refl : (a : Option ℕ) → same_option a a ≡ true
same_option_refl none = refl
same_option_refl (some a) = ground arith

pub same_push_key-eq : (a b : PushKey) → same_push_key a b ≡ true → a ≡ b
unfolding same_push_key
same_push_key-eq a b h =
    ground (arith, eq_iff a.event_type b.event_type, same_option-eq a.resource_id b.resource_id)

pub same_push_key_refl : (a : PushKey) → same_push_key a a ≡ true
unfolding same_push_key
same_push_key_refl a =
    ground (arith, eq_iff a.event_type a.event_type, same_option_refl a.resource_id)

-- Every key of the first list is a key of the second.
abbrev pub IsWithin : List PushKey → List PushKey → Type 0
IsWithin xs ys = (k : PushKey) → has_key k xs ≡ true → has_key k ys ≡ true

abbrev remove : PushKey → List PushKey → List PushKey
remove k [] = []
remove k (x ∷ xs) = let rest = remove k xs in if same_push_key k x then rest else x ∷ rest

length-remove : (k : PushKey) (xs : List PushKey) → length (remove k xs) ≤ length xs
length-remove k [] = omega arith
length-remove k (x ∷ xs) = ground (arith, length-remove k xs)

length-remove_found :
    (k : PushKey) (xs : List PushKey) → has_key k xs ≡ true → suc (length (remove k xs)) ≤ length xs
length-remove_found k [] h = cc
length-remove_found k (x ∷ xs) h = ground (arith, length-remove k xs, length-remove_found k xs)

has_key-remove :
    (j k : PushKey) (xs : List PushKey)
    → same_push_key j k ≡ false
    → has_key j xs ≡ true
    → has_key j (remove k xs) ≡ true
has_key-remove j k [] other h = cc
has_key-remove j k (x ∷ xs) other h = elim (Bool-cases (same_push_key k x)) [
  | inl hit ↦
      let same : k ≡ x = same_push_key-eq k x hit in
      let apart : same_push_key j x ≡ false = subst (λ y. same_push_key j y ≡ false) same other in
      rw hit (has_key-remove j k xs other (rw apart at h))
  | inr miss ↦ rw miss (elim (Bool-cases (same_push_key j x)) [
    | inl e ↦ rw e refl
    | inr e ↦ rw e (has_key-remove j k xs other (rw e at h))
  ])
]

-- No key stands twice.
abbrev NoRepeat : List PushKey → Type 0
NoRepeat [] = Unit
NoRepeat (k ∷ ks) = (has_key k ks ≡ false) × NoRepeat ks

length-IsWithin : (xs ys : List PushKey) → NoRepeat xs → IsWithin xs ys → length xs ≤ length ys
length-IsWithin [] ys once within = omega arith
length-IsWithin (x ∷ xs) ys (fresh, once) within =
    let found = within x (rw (same_push_key_refl x) refl) in
    let rest : IsWithin xs (remove x ys) = λ k h. elim (Bool-cases (same_push_key k x)) [
      | inl e ↦
          let same = same_push_key-eq k x e in
          let stale = subst (λ y. has_key y xs ≡ true) same h in cc
      | inr e ↦ has_key-remove k x ys e (within k (rw (e, h) refl))
    ] in
    omega (arith, length-remove_found x ys found, length-IsWithin xs (remove x ys) once rest)

has_key-distinct : (k : PushKey) (xs : List PushKey) → has_key k (distinct xs) ≡ has_key k xs
unfolding distinct
has_key-distinct k [] = refl
has_key-distinct k (x ∷ xs) = elim (Bool-cases (has_key x (distinct xs))) [
  | inr fresh ↦ rw (fresh, has_key-distinct k xs) refl
  | inl known ↦
      rw (known, has_key-distinct k xs)
        (elim (Bool-cases (same_push_key k x)) [
          | inr e ↦ rw e refl
          | inl e ↦
              let same = same_push_key-eq k x e in
              let found : has_key k xs ≡ true =
                subst (λ y. has_key y xs ≡ true) (sym same) (rw (has_key-distinct x xs) at known) in
              rw (e, found) refl
        ])
]

distinct-NoRepeat : (xs : List PushKey) → NoRepeat (distinct xs)
unfolding distinct
distinct-NoRepeat [] = tt
distinct-NoRepeat (x ∷ xs) = elim (Bool-cases (has_key x (distinct xs))) [
  | inl known ↦ rw known (distinct-NoRepeat xs)
  | inr fresh ↦ rw fresh (fresh, distinct-NoRepeat xs)
]

-- A list whose keys are among those of another has no more different ones.
pub distinct-IsWithin :
    (xs ys : List PushKey) → IsWithin xs ys → length (distinct xs) ≤ length (distinct ys)
distinct-IsWithin xs ys within =
    length-IsWithin (distinct xs) (distinct ys) (distinct-NoRepeat xs)
      (λ k h. rw (has_key-distinct k ys) (within k (rw (has_key-distinct k xs) at h)))

-- With one more key it has at most one more.
pub distinct_more :
    (xs ys : List PushKey) (key : PushKey)
    → ((k : PushKey) → has_key k xs ≡ true → (has_key k ys ≡ true) ⊎ (k ≡ key))
    → length (distinct xs) ≤ suc (length (distinct ys))
distinct_more xs ys key more =
    length-IsWithin (distinct xs) (key ∷ distinct ys) (distinct-NoRepeat xs) (λ k h.
      elim (more k (rw (has_key-distinct k xs) at h)) [
        | inl old ↦
            let kept : has_key k (distinct ys) ≡ true = rw (has_key-distinct k ys) old in
            ground arith
        | inr e ↦
            let same : same_push_key k key ≡ true =
              subst (λ y. same_push_key k y ≡ true) e (same_push_key_refl k) in
            ground arith
      ])
