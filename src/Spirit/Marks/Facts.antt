-- ===== src/Spirit/Marks/Facts.antt =====
-- What the mark functions guarantee.
use kelin_server.Prelude.{
  codes, ℕ, ◌≡◌, refl, inl, inr, true, false, ◌&&◌, [], ◌∷◌, ok, arith, Bool-cases, is_space, strip,
  lstrip, rstrip, &&-true, ◌==◌,
}
use kelin_server.Spirit.Marks.{
  pact_scholar_mark_key, Text, lower_char, lower, is_mark_char, wants_word, in_word, is_stable,
  require_scholar_mark_key,
}

lower_char_fix : (c : ℕ) → is_mark_char c ≡ true → lower_char c ≡ c
unfolding is_mark_char lower_char
lower_char_fix c h = ground arith

dash_fix : (c : ℕ) → (c == 45) ≡ true → lower_char c ≡ c
unfolding lower_char
dash_fix c h = ground arith

-- Marks are in lower case.
mutual
  unfolding wants_word in_word lower

  lower_wants : (s : Text) → wants_word s ≡ true → lower s ≡ s
  lower_wants [] h = refl
  lower_wants (c ∷ s) h = ground (arith, lower_char_fix c, lower_in s)

  lower_in : (s : Text) → in_word s ≡ true → lower s ≡ s
  lower_in [] h = refl
  lower_in (c ∷ s) h = ground (arith, lower_char_fix c, dash_fix c, lower_in s, lower_wants s)

mark_not_space : (c : ℕ) → is_mark_char c ≡ true → is_space c ≡ false
unfolding is_mark_char is_space
mark_not_space c h = ground arith

dash_not_space : (c : ℕ) → (c == 45) ≡ true → is_space c ≡ false
unfolding is_space
dash_not_space c h = ground arith

-- A character that is no space keeps what is stripped behind it.
keep_not_space : (c : ℕ) (s : Text) → is_space c ≡ false → rstrip s ≡ s → rstrip (c ∷ s) ≡ c ∷ s
unfolding rstrip
keep_not_space c [] h e = ground arith
keep_not_space c (d ∷ s) h e = rw e refl

rstrip_nil : rstrip [] ≡ []
unfolding rstrip
rstrip_nil = refl

mutual
  unfolding wants_word in_word

  rstrip_wants : (s : Text) → wants_word s ≡ true → rstrip s ≡ s
  rstrip_wants [] h = cc
  rstrip_wants (c ∷ s) h =
      let both = &&-true (is_mark_char c) (in_word s) h in
      keep_not_space c s (mark_not_space c both.0) (rstrip_in s both.1)

  rstrip_in : (s : Text) → in_word s ≡ true → rstrip s ≡ s
  rstrip_in [] h = rstrip_nil
  rstrip_in (c ∷ s) h = elim (Bool-cases (is_mark_char c && in_word s)) [
    | inl word ↦
        let both = &&-true (is_mark_char c) (in_word s) word in
        keep_not_space c s (mark_not_space c both.0) (rstrip_in s both.1)
    | inr dash ↦
        let both = &&-true (c == 45) (wants_word s) (ground arith) in
        keep_not_space c s (dash_not_space c both.0) (rstrip_wants s both.1)
  ]

lstrip_mark : (s : Text) → wants_word s ≡ true → lstrip s ≡ s
unfolding wants_word lstrip
lstrip_mark [] h = cc
lstrip_mark (c ∷ s) h = rw (mark_not_space c (&&-true (is_mark_char c) (in_word s) h).0) refl

strip_mark : (s : Text) → wants_word s ≡ true → strip s ≡ s
unfolding strip
strip_mark s h = rw (lstrip_mark s h) (rstrip_wants s h)

stable_wants : (s : Text) → is_stable s ≡ true → wants_word s ≡ true
unfolding is_stable
stable_wants s h = ground arith

-- What `require_scholar_mark_key` accepts is stable.
pub require_scholar_mark_key-IsStable :
    (key m : Text) → require_scholar_mark_key key ≡ ok m → is_stable m ≡ true
unfolding require_scholar_mark_key
require_scholar_mark_key-IsStable key m h = ground arith

pub stable_fixed : (m : Text) → is_stable m ≡ true → require_scholar_mark_key m ≡ ok m
unfolding require_scholar_mark_key
stable_fixed m h =
    let e : lower (strip m) ≡ m =
      rw (strip_mark m (stable_wants m h)) (lower_wants m (stable_wants m h)) in
    rw (e, h) refl

-- A key that was accepted is accepted again, as it is.
pub require_scholar_mark_key_idem :
    (key m : Text) → require_scholar_mark_key key ≡ ok m → require_scholar_mark_key m ≡ ok m
require_scholar_mark_key_idem key m h = stable_fixed m (require_scholar_mark_key-IsStable key m h)

-- A key of the notes.
pub notes_key : pact_scholar_mark_key "notes" (97 ∷ []) ≡ ok (codes "notes-a")
unfolding pact_scholar_mark_key require_scholar_mark_key is_stable lower lower_char strip lstrip
    rstrip is_space wants_word in_word is_mark_char
notes_key = refl
