-- ===== src/Prelude/Members.antt =====
-- The members of a list, and two lists that are related element by element.
use Prim.Native.Nat.{ℕ, zero, suc, ◌≤◌}
use mathlib.Core.Path.{◌≡◌, refl, sym, ap, ◌∙◌}
use mathlib.Core.Bool.{Bool, true, false}
use mathlib.Core.List.{List, [], ◌∷◌}
use mathlib.Core.Logic.{◌⊎◌, inl, inr}
use mathlib.Core.Option.{none, some, some-injective}
use native.Mathlib.Omega.{arith}
use kelin_server.Prelude.Tests.{if◌then◌else◌, Bool-cases}
use kelin_server.Prelude.Lists.{find?, update_where, length, take, All}
use kelin_server.Prelude.Tables.{count}

-- `x` is a member, at a place.
pub data In {A : Type 0} (x : A) : List A → Type 0 where
  here : {xs : List A} → In x (x ∷ xs)
  there : {y : A} {xs : List A} → In x xs → In x (y ∷ xs)

-- Lists of one length, whose elements are related place by place.
pub data Along {A : Type 0} (R : A → A → Type 0) : List A → List A → Type 0 where
  empty : Along R [] []
  both : {x y : A} {xs ys : List A} → R x y → Along R xs ys → Along R (x ∷ xs) (y ∷ ys)

module _ {A : Type 0} where
  -- A property of every member is a property of the list.
  pub every_member-All : (P : A → Type 0) (xs : List A) → ((x : A) → In x xs → P x) → All P xs
  every_member-All P [] h = tt
  every_member-All P (x ∷ xs) h = (h x here, every_member-All P xs (λ y m. h y (there m)))

  pub In-All : (P : A → Type 0) {x : A} {xs : List A} → In x xs → All P xs → P x
  In-All P here (h, hs) = h
  In-All P (there m) (h, hs) = In-All P m hs

  pub In-cons : {x y : A} {xs : List A} → In x (y ∷ xs) → (x ≡ y) ⊎ In x xs
  In-cons here = inl refl
  In-cons (there m) = inr m

  pub In-take : (n : ℕ) {x : A} (xs : List A) → In x (take n xs) → In x xs
  In-take zero xs m = elim m [ ]
  In-take (suc n) [] m = elim m [ ]
  In-take (suc n) (x ∷ xs) here = here
  In-take (suc n) (x ∷ xs) (there m) = there (In-take n xs m)

  In-count : (p : A → Bool) {x : A} {xs : List A} → In x xs → p x ≡ true → 1 ≤ count p xs
  In-count p here e = ground arith
  In-count p (there m) e = ground (arith, In-count p m e)

  -- A member is found by a test that only it passes.
  pub In-find? :
      (p : A → Bool) {x : A} {xs : List A}
      → In x xs
      → p x ≡ true
      → count p xs ≤ 1
      → find? p xs ≡ some x
  In-find? p here e one = ground arith
  In-find? p (there {y} m) e one = elim (Bool-cases (p y)) [
    | inl hit ↦ ground (arith, In-count p m e)
    | inr miss ↦ ground (arith, In-find? p m e)
  ]

  -- Nothing is found exactly where every member fails the test.
  pub In-find?-none :
      (p : A → Bool) {x : A} {xs : List A} → In x xs → find? p xs ≡ none → p x ≡ false
  In-find?-none p {x} here e = elim (Bool-cases (p x)) [ inl hit ↦ ground arith | inr miss ↦ miss ]
  In-find?-none p (there {y} m) e = elim (Bool-cases (p y)) [
    | inl hit ↦ ground arith
    | inr miss ↦ In-find?-none p m (rw miss at e)
  ]

  module _ (R : A → A → Type 0) where
    pub Along-refl : ((x : A) → R x x) → (xs : List A) → Along R xs xs
    Along-refl same [] = empty
    Along-refl same (x ∷ xs) = both (same x) (Along-refl same xs)

    -- An update relates a table to the one that it leaves, where it relates every row it changes.
    pub Along-update_where :
        (p : A → Bool) (f : A → A) (xs : List A)
        → ((x : A) → R x x)
        → ((x : A) → In x xs → p x ≡ true → R x (f x))
        → Along R xs (update_where p f xs)
    Along-update_where p f [] same change = empty
    Along-update_where p f (x ∷ xs) same change =
        let rest = Along-update_where p f xs same (λ y m. change y (there m)) in
        elim (Bool-cases (p x)) [
          | inl hit ↦ rw hit (both (change x here hit) rest)
          | inr miss ↦ rw miss (both (same x) rest)
        ]

  pub In-Along :
      {R : A → A → Type 0} {x : A} {xs ys : List A}
      → In x xs
      → Along R xs ys
      → (y : A) × In y ys × R x y
  In-Along here (both {y = y} r rs) = (y, here, r)
  In-Along (there m) (both r rs) = let (y, k, q) = In-Along m rs in (y, there k, q)

  -- A test that related rows answer alike counts as many of each.
  pub count-Along :
      {R : A → A → Type 0} (p : A → Bool) {xs ys : List A}
      → Along R xs ys
      → ((x y : A) → R x y → p y ≡ p x)
      → count p ys ≡ count p xs
  count-Along p empty same = refl
  count-Along p (both {x} {y} r rs) same = rw (same x y r, count-Along p rs same) refl

  pub All-Along :
      {R : A → A → Type 0} (P : A → Type 0) {xs ys : List A}
      → Along R xs ys
      → ((x y : A) → R x y → P x → P y)
      → All P xs
      → All P ys
  All-Along P empty keep h = tt
  All-Along P (both {x} {y} r rs) keep (h, hs) = (keep x y r h, All-Along P rs keep hs)

  pub count-In : (p : A → Bool) (xs : List A) → 1 ≤ count p xs → (x : A) × In x xs × (p x ≡ true)
  count-In p [] h = absurd (omega (arith, h))
  count-In p (x ∷ xs) h = elim (Bool-cases (p x)) [
    | inl hit ↦ (x, here, hit)
    | inr miss ↦ let (y, m, e) = count-In p xs (ground arith) in (y, there m, e)
  ]

  pub count_none : (p : A → Bool) (xs : List A) → ((x : A) → In x xs → p x ≡ false) → count p xs ≡ 0
  count_none p [] h = refl
  count_none p (x ∷ xs) h = rw (h x here, count_none p xs (λ y m. h y (there m))) refl

  pub In-update_where :
      (p : A → Bool) (f : A → A) {x : A} {xs : List A}
      → In x xs
      → In (if p x then f x else x) (update_where p f xs)
  In-update_where p f here = here
  In-update_where p f (there m) = there (In-update_where p f m)

  -- Two members that pass a test of one row are the same row.
  pub same_member :
      (p : A → Bool) {x y : A} {xs : List A}
      → count p xs ≤ 1
      → In x xs
      → p x ≡ true
      → In y xs
      → p y ≡ true
      → x ≡ y
  same_member p one m e k d = some-injective _ _ (sym (In-find? p m e one) ∙ In-find? p k d one)

  pub In-take-all : (n : ℕ) {x : A} (xs : List A) → length xs ≤ n → In x xs → In x (take n xs)
  In-take-all zero [] h m = m
  In-take-all (suc n) [] h m = elim m [ ]
  In-take-all zero (x ∷ xs) h m = absurd (omega (arith, h))
  In-take-all (suc n) (x ∷ xs) h here = here
  In-take-all (suc n) (x ∷ xs) h (there m) = there (In-take-all n xs (omega (arith, h)) m)

  pub length-Along : {R : A → A → Type 0} {xs ys : List A} → Along R xs ys → length ys ≡ length xs
  length-Along empty = refl
  length-Along (both r rs) = ap suc (length-Along rs)
