-- ===== src/Spirit/Marks/Unique.antt =====
-- `unique_scholar_marks`: its result has stable keys, each once, and is its own result.
use mathlib.Core.List.{append-nil, append_assoc}
use kelin_server.Prelude.{
  ap, ◌≡◌, refl, ◌∙◌, inl, inr, true, false, List, [], ◌∷◌, ◌++◌, Result, ok, err, arith,
  Bool-cases, Error, ◌⊎◌, subst,
}
use kelin_server.Spirit.Marks.{
  Text, is_stable, require_scholar_mark_key, has_mark, add_mark, unique_from, unique_scholar_marks,
}
use kelin_server.Spirit.Marks.Facts.{require_scholar_mark_key-IsStable, stable_fixed}

-- Every key is stable, and no key stands in `seen` or twice.
abbrev pub IsNew : List Text → List Text → Type 0
IsNew seen [] = Unit
IsNew seen (m ∷ rest) =
    (is_stable m ≡ true) × (has_mark m seen ≡ false) × IsNew (seen ++ m ∷ []) rest

-- The keys are stable, and each stands once.
abbrev pub IsMarkSet : List Text → Type 0
IsMarkSet = IsNew []

IsNew-append :
    (seen xs : List Text) (m : Text)
    → IsNew seen xs
    → is_stable m ≡ true
    → has_mark m (seen ++ xs) ≡ false
    → IsNew seen (xs ++ m ∷ [])
IsNew-append seen [] m h stable off = (stable, rw append-nil at off, tt)
IsNew-append seen (x ∷ xs) m (s, o, h) stable off =
    (s, o, IsNew-append (seen ++ x ∷ []) xs m h stable (rw append_assoc off))

add_mark-IsMarkSet :
    (key : Text) (seen : List Text)
    → IsMarkSet seen
    → is_stable key ≡ true
    → IsMarkSet (add_mark key seen)
unfolding add_mark
add_mark-IsMarkSet key seen h stable = elim (Bool-cases (has_mark key seen)) [
  | inl old ↦ rw old h
  | inr new ↦ rw new (IsNew-append [] seen key h stable new)
]

Result-cases : (r : Result Text) → ((m : Text) × (r ≡ ok m)) ⊎ ((e : Error) × (r ≡ err e))
Result-cases (ok m) = inl (m, refl)
Result-cases (err e) = inr (e, refl)

unique_from-IsMarkSet :
    (seen marks : List Text) {out : List Text}
    → IsMarkSet seen
    → unique_from seen marks ≡ ok out
    → IsMarkSet out
unfolding unique_from
unique_from-IsMarkSet seen [] h e = subst IsMarkSet (cc e) h
unique_from-IsMarkSet seen (raw ∷ rest) {out} h e =
    elim (Result-cases (require_scholar_mark_key raw)) [
      | inl (m, k) ↦
          unique_from-IsMarkSet (add_mark m seen) rest
            (add_mark-IsMarkSet m seen h (require_scholar_mark_key-IsStable raw m k)) (ground arith)
      | inr (b, k) ↦ absurd (ground arith)
    ]

new_kept : (seen marks : List Text) → IsNew seen marks → unique_from seen marks ≡ ok (seen ++ marks)
unfolding unique_from add_mark
new_kept seen [] h = rw append-nil refl
new_kept seen (m ∷ rest) (stable, new, h) =
    rw (stable_fixed m stable)
      (rw new (new_kept (seen ++ m ∷ []) rest h ∙ ap ok (append_assoc seen (m ∷ []) rest)))

-- The marks that `unique_scholar_marks` returns are stable, each stands once, and the function
-- returns them as they are.
pub unique_scholar_marks-IsMarkSet :
    (marks out : List Text)
    → unique_scholar_marks marks ≡ ok out
    → IsMarkSet out × (unique_scholar_marks out ≡ ok out)
unfolding unique_scholar_marks
unique_scholar_marks-IsMarkSet marks out e =
    let h : IsMarkSet out = unique_from-IsMarkSet [] marks tt e in (h, new_kept [] out h)
