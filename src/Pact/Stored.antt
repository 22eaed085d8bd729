-- ===== src/Pact/Stored.antt =====
-- Stored questions: what `decode_session_questions` returns, `encode_session_questions` stores.
use kelin_server.Prelude.{
  suc, true, false, ◌||◌, List, [], ◌∷◌, length, ◌≡◌, refl, sym, ap, subst, inl, inr, Bool-cases,
  ◌==◌, arith, strip, strip-strip, text_eq, codes, ok_inj, Result, ok, err, bind_result,
}
use kelin_server.Spirit.Marks.{Text}
use kelin_server.Pact.Questions.{
  PactQuestion, Json, Item, object, no_object, Stored, array, no_array, session_question_count, get,
  has_member, question_members, encode_from, encode_session_questions, question_of, is_wanting,
  decode_from, decode_session_questions,
}

-- Questions that are complete, each with an id that none before it has, and with a stripped text.
abbrev pub IsStorable : List PactQuestion → List Text → Type 0
IsStorable [] seen = Unit
IsStorable (q ∷ qs) seen =
    (is_wanting q seen ≡ false) × (strip q.text ≡ q.text) × IsStorable qs (q.question_id ∷ seen)

question_of-text :
    (members : List (Text × Json)) → strip (question_of members).text ≡ (question_of members).text
unfolding question_of
question_of-text members = strip-strip (get (codes "text") [] members)

bind_ok :
    (r : Result (List PactQuestion)) (q : PactQuestion) (qs : List PactQuestion)
    → bind_result r (λ rest. ok (q ∷ rest)) ≡ ok qs
    → (rest : List PactQuestion) × (r ≡ ok rest) × (qs ≡ q ∷ rest)
bind_ok (ok rest) q qs h = (rest, refl, sym (ok_inj h))
bind_ok (err e) q qs h = cc

decode_from-IsStorable :
    (items : List Item) (seen : List Text) (qs : List PactQuestion)
    → decode_from items seen ≡ ok qs
    → IsStorable qs seen × (length qs ≡ length items)
unfolding decode_from
decode_from-IsStorable [] seen qs h =
    subst (λ l. IsStorable l seen × (length l ≡ 0)) (ok_inj h) (tt, refl)
decode_from-IsStorable (no_object ∷ items) seen qs h = cc
decode_from-IsStorable (object members ∷ items) seen qs h =
    let q = question_of members in
    elim (Bool-cases (has_member (codes "prompt") members)) [
      | inl prompt ↦ ground arith
      | inr clean ↦ elim (Bool-cases (is_wanting q seen)) [
        | inl wanting ↦ ground arith
        | inr whole ↦
            let (rest, e, same) =
              bind_ok (decode_from items (q.question_id ∷ seen)) q qs (rw (clean, whole) at h) in
            let (good, long) = decode_from-IsStorable items (q.question_id ∷ seen) rest e in
            subst (λ l. IsStorable l seen × (length l ≡ suc (length items))) (sym same)
              ((whole, question_of-text members, good), ap suc long)
      ]
    ]

question_of-question_members :
    (q : PactQuestion) → strip q.text ≡ q.text → question_of (question_members q) ≡ q
unfolding question_of
question_of-question_members q e = ap (λ (t : Text). record q { text = t }) e

decode_from-cons :
    (members : List (Text × Json)) (q : PactQuestion) (qs : List PactQuestion) (items : List Item)
    (seen : List Text)
    → question_of members ≡ q
    → has_member (codes "prompt") members ≡ false
    → is_wanting q seen ≡ false
    → decode_from items (q.question_id ∷ seen) ≡ ok qs
    → decode_from (object members ∷ items) seen ≡ ok (q ∷ qs)
unfolding decode_from
decode_from-cons members q qs items seen e clean whole d =
    let whole' : is_wanting (question_of members) seen ≡ false =
      subst (λ p. is_wanting p seen ≡ false) (sym e) whole in
    let d' : decode_from items ((question_of members).question_id ∷ seen) ≡ ok qs =
      subst (λ (p : PactQuestion). decode_from items (p.question_id ∷ seen) ≡ ok qs) (sym e) d in
    rw (clean, whole', d') (ap (λ p. ok (p ∷ qs)) e)

-- Questions that can be stored come back.
encode_from-decode_from :
    (qs : List PactQuestion) (seen : List Text)
    → IsStorable qs seen
    → (items : List Item) × (encode_from qs ≡ ok items)
      × (decode_from items seen ≡ ok qs)
      × (length items ≡ length qs)
unfolding encode_from decode_from
encode_from-decode_from [] seen h = ([], refl, refl, refl)
encode_from-decode_from (q ∷ qs) seen (whole, stripped, rest) =
    let (items, e, d, l) = encode_from-decode_from qs (q.question_id ∷ seen) rest in
    let full : text_eq q.question_id [] || text_eq q.text [] ≡ false = ground arith in
    (
      object (question_members q) ∷ items,
      rw (full, e) refl,
      decode_from-cons (question_members q) q qs items seen
          (question_of-question_members q stripped) refl whole d,
      ap suc l,
    )

-- What decode_session_questions returns, encode_session_questions stores, and decoding what it has
-- stored returns the same questions.
pub decode_session_questions-encode_session_questions :
    (value : Stored) (questions : List PactQuestion)
    → decode_session_questions value ≡ ok questions
    → (stored : Stored) × (encode_session_questions questions ≡ ok stored)
      × (decode_session_questions stored ≡ ok questions)
unfolding decode_session_questions encode_session_questions
decode_session_questions-encode_session_questions no_array questions h = cc
decode_session_questions-encode_session_questions (array items) questions h =
    elim (Bool-cases (length items == session_question_count)) [
      | inr wrong ↦ ground arith
      | inl three ↦
          let (good, long) = decode_from-IsStorable items [] questions (rw three at h) in
          let (stored, e, d, same) = encode_from-decode_from questions [] good in
          let count : length questions == session_question_count ≡ true = rw long three in
          let count' : length stored == session_question_count ≡ true = rw (same, long) three in
          (array stored, rw (count, e) refl, rw count' d)
    ]
