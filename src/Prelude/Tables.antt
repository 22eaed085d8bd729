-- ===== src/Prelude/Tables.antt =====
-- Sums and counts over a table, and how an update of its matching rows moves them.
use Prim.Native.Nat.{ℕ, ◌+◌, ◌≤◌}
use mathlib.Core.Path.{◌≡◌, refl, subst}
use mathlib.Core.Bool.{Bool, true, false, ◌&&◌}
use mathlib.Core.List.{List, [], ◌∷◌, ◌++◌}
use mathlib.Core.Logic.{inl, inr}
use mathlib.Core.Option.{none, some, some-injective}
use native.Mathlib.Omega.{arith}
use kelin_server.Prelude.Tests.{if◌then◌else◌, Bool-cases}
use kelin_server.Prelude.Lists.{find?, update_where, All}

module _ {ℓ} {A : Type ℓ} where
  -- The sum of a column.
  abbrev pub sum_by : (A → ℕ) → List A → ℕ
  sum_by g [] = 0
  sum_by g (x ∷ xs) = g x + sum_by g xs

  -- How many rows pass the test.
  abbrev pub count : (A → Bool) → List A → ℕ
  count p [] = 0
  count p (x ∷ xs) = (if p x then 1 else 0) + count p xs

  pub sum_by-append : (g : A → ℕ) (xs ys : List A) → sum_by g (xs ++ ys) ≡ sum_by g xs + sum_by g ys
  sum_by-append g [] ys = omega arith
  sum_by-append g (x ∷ xs) ys = omega (arith, sum_by-append g xs ys)

  pub count-append : (p : A → Bool) (xs ys : List A) → count p (xs ++ ys) ≡ count p xs + count p ys
  count-append p [] ys = omega arith
  count-append p (x ∷ xs) ys = omega (arith, count-append p xs ys)

  -- No row is found exactly where none is counted.
  pub count-eq-zero : (p : A → Bool) (xs : List A) → find? p xs ≡ none → count p xs ≡ 0
  count-eq-zero p [] h = refl
  count-eq-zero p (x ∷ xs) h = ground (arith, count-eq-zero p xs)

  pub find?-none_of_count : (p : A → Bool) (xs : List A) → count p xs ≡ 0 → find? p xs ≡ none
  find?-none_of_count p [] h = refl
  find?-none_of_count p (x ∷ xs) h = ground (arith, find?-none_of_count p xs)

  pub find?_holds : (p : A → Bool) (xs : List A) {x : A} → find? p xs ≡ some x → p x ≡ true
  find?_holds p [] h = cc
  find?_holds p (y ∷ xs) h = elim (Bool-cases (p y)) [
    | inl e ↦ ground arith
    | inr e ↦ find?_holds p xs (ground arith)
  ]

  -- A row that is found is summed.
  pub find?-le-sum_by :
      (g : A → ℕ) (p : A → Bool) (xs : List A) {x : A} → find? p xs ≡ some x → g x ≤ sum_by g xs
  find?-le-sum_by g p [] h = cc
  find?-le-sum_by g p (y ∷ xs) {x} h = elim (Bool-cases (p y)) [
    | inl e ↦ ground arith
    | inr e ↦ omega (arith, find?-le-sum_by g p xs {x = x} (ground arith))
  ]

  pub update_where_none :
      (p : A → Bool) (f : A → A) (xs : List A) → count p xs ≡ 0 → update_where p f xs ≡ xs
  update_where_none p f [] h = refl
  update_where_none p f (x ∷ xs) h = ground (arith, update_where_none p f xs)

  -- An update of the one matching row moves a column's sum by that row's change.
  pub sum_by-update_where :
      (g : A → ℕ) (p : A → Bool) (f : A → A) (xs : List A) {x : A}
      → count p xs ≤ 1
      → find? p xs ≡ some x
      → sum_by g (update_where p f xs) + g x ≡ sum_by g xs + g (f x)
  sum_by-update_where g p f [] h e = cc
  sum_by-update_where g p f (y ∷ xs) {x} h e = elim (Bool-cases (p y)) [
    | inl hit ↦ ground (arith, update_where_none p f xs)
    | inr miss ↦ ground (arith, sum_by-update_where g p f xs {x = x})
  ]

  -- An update that keeps a test keeps its count.
  pub count-update_where :
      (q p : A → Bool) (f : A → A) (xs : List A)
      → ((x : A) → p x ≡ true → q (f x) ≡ q x)
      → count q (update_where p f xs) ≡ count q xs
  count-update_where q p f [] keep = refl
  count-update_where q p f (x ∷ xs) keep = ground (arith, keep x, count-update_where q p f xs keep)

  -- A property of every row is kept by an update that keeps it on the rows that it changes.
  pub All-update_where {κ} :
      (P : A → Type κ) (p : A → Bool) (f : A → A) (xs : List A)
      → ((x : A) → p x ≡ true → P x → P (f x))
      → All P xs
      → All P (update_where p f xs)
  All-update_where P p f [] keep h = tt
  All-update_where P p f (x ∷ xs) keep (h, hs) = elim (Bool-cases (p x)) [
    | inl hit ↦ rw hit (keep x hit h, All-update_where P p f xs keep hs)
    | inr miss ↦ rw miss (h, All-update_where P p f xs keep hs)
  ]

  pub All-append {κ} : (P : A → Type κ) (xs ys : List A) → All P xs → All P ys → All P (xs ++ ys)
  All-append P [] ys h k = k
  All-append P (x ∷ xs) ys (h, hs) k = (h, All-append P xs ys hs k)

  pub find?_All {κ} :
      (P : A → Type κ) (p : A → Bool) (xs : List A) {x : A} → find? p xs ≡ some x → All P xs → P x
  find?_All P p [] e h = cc
  find?_All P p (y ∷ xs) {x} e (h, hs) = elim (Bool-cases (p y)) [
    | inl hit ↦ subst P (some-injective _ _ (rw hit at e)) h
    | inr miss ↦ find?_All P p xs (rw miss at e) hs
  ]

  -- A narrower test counts no more rows.
  pub count_mono :
      (p q : A → Bool) (xs : List A) → ((x : A) → p x ≡ true → q x ≡ true) → count p xs ≤ count q xs
  count_mono p q [] h = omega arith
  count_mono p q (x ∷ xs) h = ground (arith, h x, count_mono p q xs h)

  pub find?-append_none :
      (p : A → Bool) (xs : List A) (x : A)
      → find? p xs ≡ none
      → p x ≡ true
      → find? p (xs ++ x ∷ []) ≡ some x
  find?-append_none p [] x h e = rw e
  find?-append_none p (y ∷ xs) x h e = ground (arith, find?-append_none p xs x)

  sum_by-count : (q : A → Bool) (xs : List A) → sum_by (λ r. if q r then 1 else 0) xs ≡ count q xs
  sum_by-count q [] = refl
  sum_by-count q (x ∷ xs) = omega (arith, sum_by-count q xs)

  -- A row that was changed, and is now the only one that passes a test, is found by that test.
  pub find?-update_where :
      (p q : A → Bool) (f : A → A) (xs : List A) {x : A}
      → find? p xs ≡ some x
      → q (f x) ≡ true
      → count q (update_where p f xs) ≤ 1
      → find? q (update_where p f xs) ≡ some (f x)
  find?-update_where p q f [] h e one = cc
  find?-update_where p q f (y ∷ xs) {x} h e one = elim (Bool-cases (p y)) [
    | inl hit ↦ ground arith
    | inr miss ↦ ground (
      arith,
      find?-update_where p q f xs {x = x},
      find?-le-sum_by (λ r. if q r then 1 else 0) q (update_where p f xs) {x = f x},
      sum_by-count q (update_where p f xs),
    )
  ]

  -- The sum over the rows of a unique key is the value of its row.
  pub sum_by-none :
      (p : A → Bool) (g : A → ℕ) (xs : List A)
      → find? p xs ≡ none
      → sum_by (λ r. if p r then g r else 0) xs ≡ 0
  sum_by-none p g [] e = refl
  sum_by-none p g (x ∷ xs) e = ground (arith, sum_by-none p g xs)

  pub sum_by_one :
      (p : A → Bool) (g : A → ℕ) (xs : List A) {x : A}
      → count p xs ≤ 1
      → find? p xs ≡ some x
      → sum_by (λ r. if p r then g r else 0) xs ≡ g x
  sum_by_one p g [] one e = cc
  sum_by_one p g (y ∷ xs) {x} one e = elim (Bool-cases (p y)) [
    | inl hit ↦ ground (arith, sum_by-none p g xs, find?-none_of_count p xs)
    | inr miss ↦ ground (arith, sum_by_one p g xs {x = x})
  ]

  pub find?-and :
      (p q : A → Bool) (xs : List A) {x : A}
      → find? p xs ≡ some x
      → q x ≡ true
      → find? (λ r. p r && q r) xs ≡ some x
  find?-and p q [] e h = cc
  find?-and p q (y ∷ xs) {x} e h = elim (Bool-cases (p y)) [
    | inl hit ↦ ground arith
    | inr miss ↦ ground (arith, find?-and p q xs {x = x})
  ]

  -- A row that is found one way is found by any test that only it passes.
  pub find?_unique :
      (p q : A → Bool) (xs : List A) {x : A}
      → find? p xs ≡ some x
      → q x ≡ true
      → count q xs ≤ 1
      → find? q xs ≡ some x
  find?_unique p q [] e h one = cc
  find?_unique p q (y ∷ xs) {x} e h one = elim (Bool-cases (p y)) [
    | inl hit ↦ ground arith
    | inr miss ↦ ground (
      arith,
      find?_unique p q xs {x = x},
      find?-le-sum_by (λ r. if q r then 1 else 0) q xs {x = x},
      sum_by-count q xs,
    )
  ]

  -- An update that makes its test fail leaves nothing to find.
  pub find?-update_where-none :
      (p : A → Bool) (f : A → A) (xs : List A)
      → ((x : A) → p x ≡ true → p (f x) ≡ false)
      → find? p (update_where p f xs) ≡ none
  find?-update_where-none p f [] off = refl
  find?-update_where-none p f (x ∷ xs) off =
      ground (arith, off x, find?-update_where-none p f xs off)
