-- ===== src/Pact/Score.antt =====
-- Scores and completeness in app/domain/pact.py. Python divides integers into a float, to the nearest
-- even of 53 bits, and `round` goes to the even neighbour at a half. Which characters are digits,
-- `str.isdigit`, is a parameter.
use kelin_server.Prelude.{
  ℕ, zero, suc, ◌+◌, ◌-◌, ◌*◌, ◌/◌, ◌%◌, ◌^◌, min, Bool, true, false, ◌&&◌, ◌||◌, not, List, [],
  ◌∷◌, Option, none, some, length, leb, ltb, ◌==◌, codes, strip, text_eq, if◌then◌else◌,
}
use kelin_server.Spirit.Marks.{Text}

abbrev pub skip_score : ℕ
skip_score = 50

abbrev pub pact_complete_session_min : ℕ
pact_complete_session_min = 5

abbrev pub pact_complete_completeness_min : ℕ
pact_complete_completeness_min = 70

-- `any(…)`
abbrev pub any : {A : Type 0} → (A → Bool) → List A → Bool
any p [] = false
any p (x ∷ xs) = p x || any p xs

abbrev text_starts : Text → Text → Bool
text_starts s [] = true
text_starts [] (d ∷ p) = false
text_starts (c ∷ s) (d ∷ p) = c == d && text_starts s p

-- `token in text`
abbrev pub contains_text : Text → Text → Bool
contains_text token [] = text_starts [] token
contains_text token (c ∷ s) = text_starts (c ∷ s) token || contains_text token s

-- The integer that is nearest to a quotient, the even one at a half.
unfoldable pub nearest_div : ℕ → ℕ → ℕ
nearest_div a b =
    let q = a / b in
    let r = a % b in
    if ltb (2 * r) b then q else if ltb b (2 * r) then q + 1 else if q % 2 == 0 then q else q + 1

-- The bits of a number, on fuel.
unfoldable pub bit_length : ℕ → ℕ → ℕ
bit_length zero n = 0
bit_length (suc fuel) n = let rest = bit_length fuel (n / 2) in if n == 0 then 0 else 1 + rest

abbrev pub float_bits : ℕ
float_bits = 53

-- A quotient of 1024 bits or more is no float: Python raises there, which is left out.
abbrev pub float_max_bits : ℕ
float_max_bits = 1024

-- `int(round(a / b))`. The float is a number of 53 bits over `2 ^ down`, or times `2 ^ up`. Below one it
-- has 53 bits after the point, where the float has as many or more: from a half they agree, and below
-- it both round to 0.
unfoldable pub round_div : ℕ → ℕ → ℕ
unfolding nearest_div bit_length
round_div a b =
    let bits = bit_length float_max_bits (a / b) in
    let down = float_bits - bits in
    let up = bits - float_bits in
    nearest_div (nearest_div (a * 2 ^ down) (b * 2 ^ up)) (2 ^ down) * 2 ^ up

unfoldable pub next_completeness : ℕ → ℕ → ℕ → ℕ
unfolding round_div
next_completeness previous completed_before scored =
    round_div (previous * completed_before + scored) (completed_before + 1)

unfoldable pub next_skip_completeness : ℕ → ℕ → ℕ → ℕ
unfolding next_completeness
next_skip_completeness previous completed_sessions skipped_before =
    next_completeness previous (completed_sessions + skipped_before) skip_score

unfoldable pub pact_meets_complete_rule : ℕ → ℕ → Bool
pact_meets_complete_rule completed_sessions completeness =
    leb pact_complete_session_min completed_sessions
    && leb pact_complete_completeness_min completeness

module _ (is_digit : ℕ → Bool) where
  unfoldable pub score_answer_text : Text → ℕ
  unfolding strip
  score_answer_text text =
      let stripped = strip text in
      min 100 (
        50
        + (if leb 8 (length stripped) then 10 else 0)
        + (if leb 16 (length stripped) then 10 else 0)
        + (if any is_digit stripped then 15 else 0)
        + (if any (λ token. contains_text token stripped)
              (codes "因为" ∷ codes "所以" ∷ codes "结果" ∷ codes "例如" ∷ codes "当时" ∷ [])
            then 10
            else 0)
        + (if leb 24 (length stripped) then 5 else 0))

  -- The sum of the scores of the answers' texts.
  unfoldable pub total_score : List Text → ℕ
  unfolding score_answer_text
  total_score [] = 0
  total_score (text ∷ texts) = score_answer_text text + total_score texts

  unfoldable pub session_score : List Text → ℕ
  unfolding total_score round_div
  session_score [] = 0
  session_score (text ∷ texts) = round_div (total_score (text ∷ texts)) (length (text ∷ texts))

  -- The category and the summary of a mistake, by the category of the question.
  unfoldable pub answer_mistake : Text → Text → Option (Text × Text)
  unfolding score_answer_text
  answer_mistake category text =
      let has_digit = any is_digit text in
      if leb 80 (score_answer_text text) && has_digit
      then none
      else if not has_digit
      then some (codes "result", codes "结果不够具体")
      else some ((if text_eq category [] then codes "answer" else category), codes "回答还可以再展开")
