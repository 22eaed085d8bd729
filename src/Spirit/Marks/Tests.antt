-- ===== src/Spirit/Marks/Tests.antt =====
-- The theorems on marks at concrete keys.
use kelin_server.Prelude.{◌≡◌, refl, ok, [], ◌∷◌, strip, lstrip, rstrip, is_space}
use kelin_server.Spirit.Marks.{
  Text, is_stable, lower, lower_char, is_mark_char, wants_word, in_word, require_scholar_mark_key,
  unique_scholar_marks, unique_from, add_mark, has_mark,
}
use kelin_server.Spirit.Marks.Facts.{require_scholar_mark_key_idem}
use kelin_server.Spirit.Marks.Unique.{IsMarkSet, unique_scholar_marks-IsMarkSet}

-- `A-b` stands for `a-b`.
abbrev dashed : Text
dashed = 65 ∷ 45 ∷ 98 ∷ []

abbrev dashed_low : Text
dashed_low = 97 ∷ 45 ∷ 98 ∷ []

require_scholar_mark_key_idem_example : require_scholar_mark_key dashed_low ≡ ok dashed_low
unfolding require_scholar_mark_key is_stable wants_word in_word lower lower_char is_mark_char strip
    lstrip rstrip is_space
require_scholar_mark_key_idem_example = require_scholar_mark_key_idem dashed dashed_low refl

unique_scholar_marks-IsMarkSet_example :
    IsMarkSet (dashed_low ∷ (99 ∷ []) ∷ [])
    × (unique_scholar_marks (dashed_low ∷ (99 ∷ []) ∷ []) ≡ ok (dashed_low ∷ (99 ∷ []) ∷ []))
unfolding unique_scholar_marks unique_from add_mark has_mark require_scholar_mark_key is_stable
    wants_word in_word lower lower_char is_mark_char strip lstrip rstrip is_space
unique_scholar_marks-IsMarkSet_example =
    unique_scholar_marks-IsMarkSet (dashed ∷ dashed_low ∷ (99 ∷ []) ∷ [])
      (dashed_low ∷ (99 ∷ []) ∷ []) refl
