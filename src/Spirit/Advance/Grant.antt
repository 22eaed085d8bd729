-- ===== src/Spirit/Advance/Grant.antt =====
-- Marks are granted once.
use kelin_server.Prelude.{
  ℕ, ◌≡◌, refl, sym, ◌∙◌, ap, subst, true, false, String, List, [], ◌∷◌, ◌++◌, Option, none, some,
  Result, ok, err, Error, arith, lift, cases_run, after, codes, strip, text_eq, count,
  count-eq-zero, update_where_none, find?-update_where-none, Reads, Reads-bind, Reads-pure,
  Keeps-read,
}
use kelin_server.Spirit.Marks.Facts.{require_scholar_mark_key_idem}
use kelin_server.Spirit.Marks.{
  lower, Text, has_mark, require_scholar_mark_key, pact_scholar_mark_key,
}
use kelin_server.Spirit.Store.{SpiritRow, Session, update_spirit, assert_writable_transaction}
use kelin_server.Spirit.Advance.{
  lacks_mark, with_mark, append_key, append_scholar_mark, ScholarMarkRow, granted_or_known,
  grant_key, grant_checked, grant_pact_scholar_mark, fetch_evolution_facts, writable_message,
}

text_eq_refl : (m : Text) → text_eq m m ≡ true
text_eq_refl [] = refl
text_eq_refl (c ∷ m) = ground (arith, text_eq_refl m)

has_mark-append : (m : Text) (marks : List Text) → has_mark m (marks ++ m ∷ []) ≡ true
unfolding has_mark
has_mark-append m [] = ground (arith, text_eq_refl m)
has_mark-append m (x ∷ marks) = ground (arith, has_mark-append m marks)

-- The key of a pact stands for itself.
pact_key_fixed :
    (theme : String) (version key : Text)
    → pact_scholar_mark_key theme version ≡ ok key
    → require_scholar_mark_key key ≡ ok key
unfolding pact_scholar_mark_key
pact_key_fixed theme version key e =
    ground (arith, require_scholar_mark_key_idem (codes theme ++ (45 ∷ lower (strip version))) key)

assert_writable-ok :
    (s : Session)
    → s.read_only ≡ false
    → assert_writable_transaction writable_message s ≡ (ok tt, s)
unfolding assert_writable_transaction
assert_writable-ok s writable = simp (writable)

module _ (owner spirit : ℕ) where
  given_mark :
      (key : Text) (row : SpiritRow)
      → lacks_mark owner spirit key row ≡ true
      → lacks_mark owner spirit key (with_mark key row) ≡ false
  unfolding lacks_mark
  given_mark key row h = ground (arith, has_mark-append key row.scholar_marks)

  -- No row of the spirit lacks the mark.
  abbrev pub HasAll : Text → Session → Type 0
  HasAll key s = count (lacks_mark owner spirit key) s.spirits ≡ 0

  append_key-HasAll : (key : Text) (s : Session) → HasAll key (append_key owner spirit key s).1
  unfolding update_spirit
  append_key-HasAll key s = count-eq-zero (lacks_mark owner spirit key) _ (
      find?-update_where-none (lacks_mark owner spirit key) (with_mark key) s.spirits
        (given_mark key))

  append_key_same :
      (key : Text) (s : Session) → HasAll key s → (append_key owner spirit key s).1 ≡ s
  unfolding update_spirit
  append_key_same key s h =
      ap (λ rows. record s { spirits = rows })
        (update_where_none (lacks_mark owner spirit key) (with_mark key) s.spirits h)

  granted_or_known-Reads : (row : Option ScholarMarkRow) → Reads (granted_or_known owner spirit row)
  unfolding fetch_evolution_facts
  granted_or_known-Reads none =
      Reads-bind (fetch_evolution_facts owner spirit) _ (record { same = λ s. refl })
        (λ facts. record { same = λ s. refl })
  granted_or_known-Reads (some row) = Reads-pure (some row.scholar_marks)

  -- The call with a key: it is refused, or the mark that the key stands for is appended.
  append_run :
      (Q : Session → Type 0) (key : Text) (s : Session)
      → ((e : Error) → require_scholar_mark_key key ≡ err e → Q s)
      → ((m : Text) → require_scholar_mark_key key ≡ ok m → Q (append_key owner spirit m s).1)
      → Q (append_scholar_mark owner spirit key s).1
  unfolding append_scholar_mark
  append_run Q key s refused appended =
      cases_run (λ r. Q r.1) (lift (require_scholar_mark_key key)) (append_key owner spirit) s
        refused appended

  grant_run :
      (Q : Session → Type 0) (key : Text) (s : Session)
      → Q (append_scholar_mark owner spirit key s).1
      → Q (grant_key owner spirit key s).1
  grant_run Q key s q =
      cases_run (λ r. Q r.1) (append_scholar_mark owner spirit key) (granted_or_known owner spirit)
        s (λ e _. q)
        (λ row _.
          (Keeps-read {P = Q} (granted_or_known owner spirit row) (granted_or_known-Reads row)).at
            (append_scholar_mark owner spirit key s).1 q)

  -- A second call with the key leaves the session.
  Stays : Text → Session → Type 0
  Stays key t = (grant_key owner spirit key t).1 ≡ t

  ok_injective : (a b : Text) → ok a ≡ ok b → a ≡ b
  ok_injective a b e = cc e

  HasAll-Stays :
      (key m : Text) (t : Session) → require_scholar_mark_key key ≡ ok m → HasAll m t → Stays key t
  unfolding Stays
  HasAll-Stays key m t known h =
      grant_run (λ u. u ≡ t) key t
        (append_run (λ u. u ≡ t) key t (λ e _. refl)
          (λ n k.
            append_key_same n t (subst (λ q. HasAll q t) (ok_injective m n (sym known ∙ k)) h)))

  refused-Stays :
      (key : Text) (e : Error) (t : Session) → require_scholar_mark_key key ≡ err e → Stays key t
  unfolding Stays
  refused-Stays key e t refused =
      grant_run (λ u. u ≡ t) key t
        (append_run (λ u. u ≡ t) key t (λ e _. refl) (λ n k. absurd (cc (sym refused ∙ k))))

  grant_key-Stays :
      (key : Text) (s : Session) (r : Result Text)
      → require_scholar_mark_key key ≡ r
      → Stays key (grant_key owner spirit key s).1
  grant_key-Stays key s (err e) k = refused-Stays key e (grant_key owner spirit key s).1 k
  grant_key-Stays key s (ok m) k = HasAll-Stays key m (grant_key owner spirit key s).1 k (
      grant_run (HasAll m) key s (
        append_run (HasAll m) key s (λ e c. absurd (cc (sym k ∙ c)))
          (λ n c.
            subst (λ q. HasAll m (append_key owner spirit q s).1) (ok_injective m n (sym k ∙ c))
              (append_key-HasAll m s))))

  grant_checked-Stays :
      (theme : String) (version : Text) (t : Session)
      → ((key : Text) → pact_scholar_mark_key theme version ≡ ok key → Stays key t)
      → (grant_pact_scholar_mark owner spirit theme version t).1 ≡ t
  unfolding grant_pact_scholar_mark assert_writable_transaction Stays
  grant_checked-Stays theme version t stays =
      cases_run (λ r. r.1 ≡ t) (assert_writable_transaction writable_message)
        (λ _. grant_checked owner spirit theme version) t (λ e _. refl)
        λ _ _.
          cases_run (λ r. r.1 ≡ t) (lift (pact_scholar_mark_key theme version))
            (grant_key owner spirit) t (λ e _. refl) stays

  -- Whether it returns or raises, and whatever the session, a second call of
  -- `grant_pact_scholar_mark` with the same theme and version leaves the session of the first.
  pub grant_pact_scholar_mark_again :
      (theme : String) (version : Text) (s : Session)
      → (grant_pact_scholar_mark owner spirit theme version
          (grant_pact_scholar_mark owner spirit theme version s).1).1
        ≡ (grant_pact_scholar_mark owner spirit theme version s).1
  unfolding grant_pact_scholar_mark assert_writable_transaction
  grant_pact_scholar_mark_again theme version s =
      let Again : Result (Option (List Text)) × Session → Type 0 =
        λ r. (grant_pact_scholar_mark owner spirit theme version r.1).1 ≡ r.1 in
      cases_run Again (assert_writable_transaction writable_message)
        (λ _. grant_checked owner spirit theme version) s
        (λ e k.
          cases_run (λ r. r.1 ≡ s) (assert_writable_transaction writable_message)
            (λ _. grant_checked owner spirit theme version) s (λ _ _. refl)
            (λ t c. absurd (cc (sym k ∙ c))))
        λ _ _.
          cases_run Again (lift (pact_scholar_mark_key theme version)) (grant_key owner spirit) s
            (λ e k. grant_checked-Stays theme version s (λ key c. absurd (cc (sym k ∙ c))))
            (λ key k. grant_checked-Stays theme version (grant_key owner spirit key s).1 (λ other c.
              subst (λ q. Stays q (grant_key owner spirit key s).1)
                (ok_injective key other (sym k ∙ c))
                (grant_key-Stays key s (require_scholar_mark_key key) refl)))

  -- In a writable session, and for a theme and a version that have a key, every row of the spirit
  -- has the mark after the call, whether it returns or raises.
  pub grant_pact_scholar_mark-HasAll :
      (theme : String) (version key : Text) (s : Session)
      → s.read_only ≡ false
      → pact_scholar_mark_key theme version ≡ ok key
      → HasAll key (grant_pact_scholar_mark owner spirit theme version s).1
  unfolding grant_pact_scholar_mark
  grant_pact_scholar_mark-HasAll theme version key s writable known =
      let fixed = pact_key_fixed theme version key known in
      after (λ r. HasAll key r.1) (assert_writable_transaction writable_message)
        (λ _. grant_checked owner spirit theme version) s (assert_writable-ok s writable)
        (after (λ r. HasAll key r.1) (lift (pact_scholar_mark_key theme version))
          (grant_key owner spirit) s (ap (λ r. (r, s)) known)
          (grant_run (HasAll key) key s (
            append_run (HasAll key) key s (λ e c. absurd (cc (sym fixed ∙ c)))
              (λ m c.
                subst (λ q. HasAll key (append_key owner spirit q s).1)
                  (ok_injective key m (sym fixed ∙ c)) (append_key-HasAll key s)))))
