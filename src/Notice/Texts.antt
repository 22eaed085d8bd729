-- ===== src/Notice/Texts.antt =====
-- The texts that a notification shows.
use kelin_server.Prelude.{
  ◌≡◌, refl, sym, subst, inl, inr, true, false, List, [], ◌∷◌, String, ok, err, ◌⊎◌, str_eq, eq_iff,
  value_error, Bool-cases, arith, In, In-cons, contains, All,
}
use kelin_server.Notice.Rules.{
  require_remote_type, fixed_alert_body, fixed_alerts, alert_in, one_of, remote_notification_types,
  banned_words, contains_any,
}

abbrev HasPublicText : String → Type 0
HasPublicText event_type =
    (body : String) × (alert_in fixed_alerts event_type ≡ ok body)
    × (contains_any banned_words body ≡ false)

-- A type of the catalog has what all of them have.
one_of-All :
    (P : String → Type 0) (event_type : String) (names : List String)
    → All P names
    → one_of event_type names ≡ true
    → P event_type
unfolding one_of
one_of-All P event_type [] all h = cc
one_of-All P event_type (name ∷ names) (one, all) h = elim (Bool-cases (str_eq event_type name)) [
  | inl hit ↦ subst P (sym ((eq_iff event_type name).0 hit)) one
  | inr miss ↦ one_of-All P event_type names all (rw miss at h)
]

no_word :
    (words : List String) (body word : String)
    → contains_any words body ≡ false
    → In word words
    → contains word body ≡ false
no_word [] body word h m = elim m [ ]
no_word (other ∷ words) body word h m = elim (In-cons m) [
  | inl same ↦ subst (λ w. contains w body ≡ false) (sym same) (ground arith)
  | inr later ↦ no_word words body word (ground arith) later
]

texts : All HasPublicText remote_notification_types
texts = (
  ("你有一个约定", refl, refl),
  (
    ("共学有新进展", refl, refl),
    (("你收到一张明信片", refl, refl), (("刻灵走失了", refl, refl), (("刻灵想你了", refl, refl), tt))),
  ),
)

-- A type of the catalog of remote types has a text among the fixed alerts, and the text has none of the
-- banned words: fixed_alert_body returns it. A type outside the catalog has no text, and both functions
-- refuse it. No type fails in another way.
pub fixed_alert_body-require_remote_type :
    (event_type : String)
    → ((require_remote_type event_type ≡ ok event_type)
        × (body : String) × (fixed_alert_body event_type ≡ ok body)
        × ((word : String) → In word banned_words → contains word body ≡ false))
      ⊎ ((require_remote_type event_type
            ≡ err (value_error "notification type is not in the catalog"))
          × (fixed_alert_body event_type
              ≡ err (value_error "notification type is not in the catalog")))
unfolding require_remote_type fixed_alert_body
fixed_alert_body-require_remote_type event_type =
    elim (Bool-cases (one_of event_type remote_notification_types)) [
      | inr outside ↦ rw (require_remote_type, fixed_alert_body, outside) (inr (refl, refl))
      | inl inside ↦
          let (body, found, public) =
            one_of-All HasPublicText event_type remote_notification_types texts inside in
          rw (require_remote_type, fixed_alert_body, inside)
            (inl (
              refl,
              body,
              rw (found, public) refl,
              λ word m. no_word banned_words body word public m,
            ))
    ]
