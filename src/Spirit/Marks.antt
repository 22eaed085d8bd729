-- ===== src/Spirit/Marks.antt =====
-- Scholar marks: the keys of app/domain/evolution.py. Texts are lists of code points.
pub mod Facts
pub mod Unique
mod Tests
use kelin_server.Prelude.{
  ℕ, ◌+◌, Bool, true, false, ◌&&◌, ◌||◌, not, String, List, [], ◌∷◌, ◌++◌, map, leb, ltb, ◌==◌,
  length, if◌then◌else◌, str_eq, Result, ok, err, value_error, bind_result, strip, text_eq, codes,
  Option,
}

abbrev pub Text : Type 0
Text = List ℕ

-- `str.lower` on the letters A to Z and the Kelvin sign, which becomes k. It changes other capital
-- letters too, into characters that the pattern refuses as it refuses the letters themselves.
unfoldable pub lower_char : ℕ → ℕ
lower_char c = if leb 65 c && leb c 90 then c + 32 else if c == 8490 then 107 else c

unfoldable pub lower : Text → Text
unfolding lower_char
lower = map lower_char

-- `[a-z0-9]`
unfoldable pub is_mark_char : ℕ → Bool
is_mark_char c = (leb 97 c && leb c 122) || (leb 48 c && leb c 57)

-- `^[a-z0-9]+(?:-[a-z0-9]+)*$`: a character of a word is wanted, or the word may end.
mutual
  unfolding is_mark_char

  pub wants_word : Text → Bool
  wants_word [] = false
  wants_word (c ∷ s) = is_mark_char c && in_word s

  pub in_word : Text → Bool
  in_word [] = true
  in_word (c ∷ s) = (is_mark_char c && in_word s) || (c == 45 && wants_word s)

abbrev pub mark_max_len : ℕ
mark_max_len = 64

unfoldable pub is_stable : Text → Bool
is_stable mark = not (text_eq mark []) && (leb (length mark) mark_max_len && wants_word mark)

unfoldable pub require_scholar_mark_key : Text → Result Text
require_scholar_mark_key key =
    let mark = lower (strip key) in
    if is_stable mark then ok mark else err (value_error "scholar mark key is not stable")

-- `key in seen`
unfoldable pub has_mark : Text → List Text → Bool
has_mark key [] = false
has_mark key (m ∷ seen) = text_eq key m || has_mark key seen

unfoldable pub add_mark : Text → List Text → List Text
unfolding has_mark
add_mark key seen = if has_mark key seen then seen else seen ++ key ∷ []

-- The loop of `unique_scholar_marks`.
unfoldable pub unique_from : List Text → List Text → Result (List Text)
unique_from seen [] = ok seen
unique_from seen (raw ∷ rest) =
    bind_result (require_scholar_mark_key raw) λ key. unique_from (add_mark key seen) rest

unfoldable pub unique_scholar_marks : List Text → Result (List Text)
unfolding unique_from
unique_scholar_marks marks = unique_from [] marks

unfoldable pub pact_scholar_mark_key : String → Text → Result Text
pact_scholar_mark_key theme question_bank_version =
    if str_eq theme "interview" || str_eq theme "notes"
    then (let version = lower (strip question_bank_version) in
        if text_eq version []
        then err (value_error "question_bank_version is required")
        else require_scholar_mark_key (codes theme ++ (45 ∷ version)))
    else err (value_error "pact theme is not in the catalog")

abbrev pub title_suffix : Text
title_suffix = codes " · 学者"

unfoldable pub ends_with : Text → Text → Bool
ends_with suffix [] = text_eq suffix []
ends_with suffix (c ∷ s) = text_eq suffix (c ∷ s) || ends_with suffix s

unfoldable pub apply_scholar_title_suffix : Text → List Text → Result Text
unfolding ends_with
apply_scholar_title_suffix title marks = bind_result (unique_scholar_marks marks) λ unique.
    elim unique [
      | [] ↦ ok title
      | m ∷ rest ↦ if ends_with title_suffix title then ok title else ok (title ++ title_suffix)
    ]
