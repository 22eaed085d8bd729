-- ===== src/Pact/Questions.antt =====
-- The questions of a day in app/domain/pact.py. A stored value is JSON; `json.dumps` and `json.loads`
-- on a column are left out, as they give back the value.
use kelin_server.Prelude.{
  ℕ, ◌-◌, ◌*◌, Bool, true, false, ◌&&◌, ◌||◌, not, List, [], ◌∷◌, Option, none, some, length, take,
  drop, find?, leb, ◌==◌, codes, strip, text_eq, if◌then◌else◌, Result, ok, err, bind_result,
  runtime_error, key_error,
}
use kelin_server.Spirit.Marks.{Text}

pub record PactQuestion : Type 0 where
  pub question_id : Text
  pub category : Text
  pub text : Text

pub record PactAnswerFeedbackValue : Type 0 where
  pub summary : Text
  pub improvements : List Text

pub record StoredPactAnswer : Type 0 where
  pub question_id : Text
  pub client_id : ℕ
  pub text : Text
  pub request_hash : Text
  pub feedback : PactAnswerFeedbackValue

abbrev pub session_question_count : ℕ
session_question_count = 3

-- What a stored value may be, as far as the questions go: an array of objects, each with its members,
-- whose values are texts or render as one.
pub data Json : Type 0 where
  string : Text → Json
  other : Text → Json

-- `str(value)`
abbrev pub text_of : Json → Text
text_of (string text) = text
text_of (other rendered) = rendered

pub data Item : Type 0 where
  object : List (Text × Json) → Item
  no_object : Item

pub data Stored : Type 0 where
  array : List Item → Stored
  no_array : Stored

abbrev pub has_member : Text → List (Text × Json) → Bool
has_member name [] = false
has_member name ((key, value) ∷ rest) = text_eq name key || has_member name rest

-- `str(item.get(name, default))`
abbrev pub get : Text → Text → List (Text × Json) → Text
get name default [] = default
get name default ((key, value) ∷ rest) =
    if text_eq name key then text_of value else get name default rest

abbrev pub question_members : PactQuestion → List (Text × Json)
question_members q =
    (codes "category", string q.category)
    ∷ (codes "question_id", string q.question_id)
    ∷ (codes "text", string q.text)
    ∷ []

-- The loop of `encode_session_questions`.
unfoldable pub encode_from : List PactQuestion → Result (List Item)
encode_from [] = ok []
encode_from (q ∷ qs) =
    if text_eq q.question_id [] || text_eq q.text []
    then err (runtime_error "session question requires question_id and text")
    else bind_result (encode_from qs) (λ items. ok (object (question_members q) ∷ items))

unfoldable pub encode_session_questions : List PactQuestion → Result Stored
unfolding encode_from
encode_session_questions questions =
    if length questions == session_question_count
    then bind_result (encode_from questions) (λ items. ok (array items))
    else err (runtime_error "session questions must be exactly 3")

abbrev pub seen_id : Text → List Text → Bool
seen_id id [] = false
seen_id id (other_id ∷ seen) = text_eq id other_id || seen_id id seen

unfoldable pub question_of : List (Text × Json) → PactQuestion
unfolding strip
question_of members = record {
  question_id = get (codes "question_id") [] members;
  category = get (codes "category") (codes "interview") members;
  text = strip (get (codes "text") [] members);
}

abbrev pub is_wanting : PactQuestion → List Text → Bool
is_wanting q seen = text_eq q.question_id [] || (seen_id q.question_id seen || text_eq q.text [])

-- The loop of `decode_session_questions`.
unfoldable pub decode_from : List Item → List Text → Result (List PactQuestion)
unfolding question_of
decode_from [] seen = ok []
decode_from (no_object ∷ items) seen =
    err (runtime_error "stored session question must be an object")
decode_from (object members ∷ items) seen =
    let q = question_of members in
    let rest = decode_from items (q.question_id ∷ seen) in
    if has_member (codes "prompt") members
    then err (runtime_error "stored session questions must not use prompt keys")
    else if is_wanting q seen
    then err (runtime_error "stored session question_id and text are required")
    else bind_result rest (λ qs. ok (q ∷ qs))

unfoldable pub decode_session_questions : Stored → Result (List PactQuestion)
unfolding decode_from
decode_session_questions no_array = err (runtime_error "stored session questions must be exactly 3")
decode_session_questions (array items) =
    if length items == session_question_count
    then decode_from items []
    else err (runtime_error "stored session questions must be exactly 3")

abbrev pub ids_of : List PactQuestion → List Text
ids_of [] = []
ids_of (q ∷ qs) = q.question_id ∷ ids_of qs

-- `len(set(ids)) == len(ids)`
abbrev pub all_different : List Text → Bool
all_different [] = true
all_different (id ∷ ids) = not (seen_id id ids) && all_different ids

-- The questions of a day from the bank. On day 0 the slice ends at its first index from the end, and is
-- empty; no day is negative.
unfoldable pub interview_session_questions : List PactQuestion → ℕ → Result (List PactQuestion)
interview_session_questions bank day_index =
    let start = (day_index - 1) * session_question_count in
    let picked = if day_index == 0 then [] else take session_question_count (drop start bank) in
    if not (length picked == session_question_count)
    then err (runtime_error "interview session must pick exactly 3 questions")
    else if not (all_different (ids_of picked))
    then err (runtime_error "interview session question_id must be unique")
    else ok picked

abbrev pub first_id : List PactQuestion → Result (Option Text)
first_id [] = err (key_error "tuple index out of range")
first_id (q ∷ qs) = ok (some q.question_id)

-- The question after the last answer.
unfoldable pub next_answer_question_id :
    List PactQuestion → List StoredPactAnswer → Result (Option Text)
next_answer_question_id questions answers =
    if leb session_question_count (length answers)
    then ok none
    else first_id (drop (length answers) questions)

unfoldable pub find_stored_answer : List StoredPactAnswer → Text → Option StoredPactAnswer
find_stored_answer answers question_id = find? (λ a. text_eq a.question_id question_id) answers
