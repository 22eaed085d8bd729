-- ===== src/Prelude/Strip.antt =====
-- What `strip` leaves is stripped.
use Prim.Native.Nat.{ℕ}
use mathlib.Core.Path.{◌≡◌, refl}
use mathlib.Core.Bool.{false}
use mathlib.Core.List.{List, [], ◌∷◌}
use mathlib.Core.Logic.{inl, inr}
use kelin_server.Prelude.Tests.{Bool-cases}
use kelin_server.Prelude.Texts.{is_space, lstrip, rstrip, keep_char, strip}

keep_char_stays : (c : ℕ) (s : List ℕ) → rstrip s ≡ s → rstrip (keep_char c s) ≡ keep_char c s
unfolding rstrip
keep_char_stays c [] e = elim (Bool-cases (is_space c)) [
  | inl space ↦ rw space refl
  | inr mark ↦ rw (mark, mark) refl
]
keep_char_stays c (d ∷ s) e = rw e refl

rstrip-rstrip : (s : List ℕ) → rstrip (rstrip s) ≡ rstrip s
unfolding rstrip
rstrip-rstrip [] = refl
rstrip-rstrip (c ∷ s) = keep_char_stays c (rstrip s) (rstrip-rstrip s)

-- A text that begins with no space begins with none when its end is stripped.
keep_char-lstrip :
    (c : ℕ) (s : List ℕ) → is_space c ≡ false → lstrip (keep_char c s) ≡ keep_char c s
unfolding lstrip
keep_char-lstrip c [] mark = rw (mark, mark) refl
keep_char-lstrip c (d ∷ s) mark = rw mark refl

lstrip-rstrip : (s : List ℕ) → lstrip (rstrip (lstrip s)) ≡ rstrip (lstrip s)
unfolding lstrip rstrip
lstrip-rstrip [] = refl
lstrip-rstrip (c ∷ s) = elim (Bool-cases (is_space c)) [
  | inl space ↦ rw space (lstrip-rstrip s)
  | inr mark ↦ rw mark (keep_char-lstrip c (rstrip s) mark)
]

pub strip-strip : (s : List ℕ) → strip (strip s) ≡ strip s
unfolding strip
strip-strip s = rw (lstrip-rstrip s) (rstrip-rstrip (lstrip s))
