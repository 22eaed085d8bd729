-- ===== src/Pact/Tests.antt =====
-- Runs of the pact's pure part, and the theorems about it at concrete inputs.
use kelin_server.Prelude.{
  ℕ, ◌≡◌, ◌≤◌, ◌<◌, ◌+◌, ◌↔◌, refl, Bool, ok, some, [], ◌∷◌, List, codes, leb, ◌&&◌, strip, arith,
}
use kelin_server.Spirit.Marks.{Text}
use kelin_server.Pact.Calendar.{session_day_index}
use kelin_server.Pact.Score.{round_div, next_completeness, score_answer_text, session_score}
use kelin_server.Pact.Questions.{
  PactQuestion, Stored, array, object, question_members, encode_session_questions,
  decode_session_questions, question_of,
}
use kelin_server.Pact.Scores.{next_completeness_range, session_score_range}
use kelin_server.Pact.Stored.{decode_session_questions-encode_session_questions}
use kelin_server.Pact.Days.{session_day_index_iff}

abbrev ascii_digit : ℕ → Bool
ascii_digit c = leb 48 c && leb c 57

short_score : score_answer_text ascii_digit (codes "短") ≡ 50
unfolding score_answer_text strip
short_score = refl

numbered_score : score_answer_text ascii_digit (codes "因为当时结果提升了20个百分点，例如上线后转化。") ≡ 100
unfolding score_answer_text strip
numbered_score = refl

-- A half goes to the even neighbour.
half_down : round_div 5 2 ≡ 2
unfolding round_div
half_down = refl

-- Beyond 53 bits the division is not exact.
float_loss : round_div 9007199254740993 1 ≡ 9007199254740992
unfolding round_div
float_loss = refl

abbrev question : Text → PactQuestion
question id = record { question_id = id; category = codes "star"; text = codes "why" }

abbrev three : List PactQuestion
three = question (codes "a") ∷ question (codes "b") ∷ question (codes "c") ∷ []

abbrev stored : Stored
stored = array (
    object (question_members (question (codes "a")))
    ∷ object (question_members (question (codes "b")))
    ∷ object (question_members (question (codes "c")))
    ∷ [])

decodes : decode_session_questions stored ≡ ok three
unfolding decode_session_questions question_of strip
decodes = refl

decode_session_questions-encode_session_questions_example :
    (v : Stored) × (encode_session_questions three ≡ ok v) × (decode_session_questions v ≡ ok three)
decode_session_questions-encode_session_questions_example =
    decode_session_questions-encode_session_questions stored three decodes

next_completeness_range_example :
    (60 ≤ next_completeness 60 3 95) × (next_completeness 60 3 95 ≤ 100)
next_completeness_range_example =
    next_completeness_range 60 3 95 60 100 (omega arith) (omega arith) (omega arith) (omega arith)
      (omega arith)

session_score_range_example :
    (0 < 1 → 50 ≤ session_score ascii_digit (codes "短" ∷ []))
    × (session_score ascii_digit (codes "短" ∷ []) ≤ 100)
session_score_range_example = session_score_range ascii_digit (codes "短" ∷ [])

session_day_index_iff_example :
    (session_day_index 100 103 ≡ some 4) ↔ ((1 ≤ 4) × (4 ≤ 7) × (103 + 1 ≡ 100 + 4))
session_day_index_iff_example = session_day_index_iff 100 103 4
