-- ===== src/Prelude/Finding.antt =====
-- How an update of a table moves what a test finds.
use mathlib.Core.Path.{◌≡◌, refl}
use mathlib.Core.Bool.{Bool}
use mathlib.Core.List.{List, [], ◌∷◌}
use mathlib.Core.Logic.{inl, inr}
use mathlib.Core.Option.{some}
use native.Mathlib.Omega.{arith}
use kelin_server.Prelude.Tests.{Bool-cases, is_some}
use kelin_server.Prelude.Lists.{find?, update_where}

module _ {A : Type 0} where
  -- Tests that agree find the same row.
  pub find?_cong : (p q : A → Bool) (xs : List A) → ((x : A) → p x ≡ q x) → find? p xs ≡ find? q xs
  find?_cong p q [] same = refl
  find?_cong p q (x ∷ xs) same = rw (same x, find?_cong p q xs same) refl

  -- An update that keeps a test leaves it a row to find, or none.
  pub is_some-update_where :
      (q p : A → Bool) (f : A → A) (xs : List A)
      → ((x : A) → q (f x) ≡ q x)
      → is_some (find? q (update_where p f xs)) ≡ is_some (find? q xs)
  is_some-update_where q p f [] same = refl
  is_some-update_where q p f (x ∷ xs) same =
      ground (arith, same x, is_some-update_where q p f xs same)

  -- A row that is updated under a test that it still passes is found changed.
  pub find?-update_where_self :
      (p : A → Bool) (f : A → A) (xs : List A) {x : A}
      → ((y : A) → p (f y) ≡ p y)
      → find? p xs ≡ some x
      → find? p (update_where p f xs) ≡ some (f x)
  find?-update_where_self p f [] same e = cc
  find?-update_where_self p f (y ∷ xs) {x} same e = elim (Bool-cases (p y)) [
    | inl hit ↦ ground (arith, same y)
    | inr miss ↦ ground (arith, find?-update_where_self p f xs {x = x} same)
  ]
