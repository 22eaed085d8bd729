-- ===== src/Prelude/Preserve.antt =====
-- Calls that keep a property of the session, whether they return or raise.
use mathlib.Core.Path.{◌≡◌, refl, sym, subst}
use mathlib.Core.Bool.{Bool, true, false}
use kelin_server.Prelude.Tests.{if◌then◌else◌}
use kelin_server.Prelude.Effects.{
  Error, Result, ok, err, Exec, pure, raise, gets, lift, raise_if, ◌>>=◌,
}

pub ok_inj : {A : Type 0} {a b : A} → ok a ≡ ok b → a ≡ b
ok_inj h = cc

-- `m` leads from `P` to `Q`, whether it returns or raises.
pub record Leads {S A : Type 0} (P Q : S → Type 0) (m : Exec S A) : Type 0 where
  pub at : (s : S) → P s → Q (m s).1

abbrev pub Keeps : {S A : Type 0} → (S → Type 0) → Exec S A → Type 0
Keeps P m = Leads P P m

-- `m` only reads.
pub record Reads {S A : Type 0} (m : Exec S A) : Type 0 where
  pub same : (s : S) → (m s).1 ≡ s

module _ {S A : Type 0} {P : S → Type 0} where
  pub Keeps-lift : (r : Result A) → Keeps P (lift r)
  Keeps-lift r = record { at = λ s holds. holds }

  pub Keeps-read : (m : Exec S A) → Reads m → Keeps P m
  Keeps-read m reads = record { at = λ s holds. subst P (sym (reads.same s)) holds }

  pub Keeps-gets : (f : S → A) → Keeps P (gets f)
  Keeps-gets f = Keeps-read (gets f) (record { same = λ s. refl })

  pub Keeps-pure : (a : A) → Keeps P (pure a)
  Keeps-pure a = Keeps-lift (ok a)

  pub Keeps-raise : (e : Error) → Keeps P (raise {A = A} e)
  Keeps-raise e = Keeps-lift (err e)

  -- A branch may use what its test says.
  pub Keeps-if :
      (test : Bool) (then_run else_run : Exec S A)
      → (test ≡ true → Keeps P then_run)
      → (test ≡ false → Keeps P else_run)
      → Keeps P (if test then then_run else else_run)
  Keeps-if false then_run else_run then_keeps else_keeps = else_keeps refl
  Keeps-if true then_run else_run then_keeps else_keeps = then_keeps refl

pub Keeps-raise_if :
    {S : Type 0} {P : S → Type 0} (b : Bool) (e : Error) → Keeps P (raise_if {S = S} b e)
Keeps-raise_if b e = record { at = λ s h. h }

finish :
    {S A B : Type 0} (Q : S → Type 0) (r : Result A) (f : A → Exec S B) (s : S)
    → Q s
    → ((a : A) → r ≡ ok a → Q (f a s).1)
    → Q ((lift r >>= f) s).1
finish Q (ok a) f s q k = k a refl
finish Q (err e) f s q k = q

finish_result :
    {S A B : Type 0} (Q : Result B × S → Type 0) (r : Result A) (f : A → Exec S B) (s : S)
    → ((e : Error) → r ≡ err e → Q (err e, s))
    → ((a : A) → r ≡ ok a → Q (f a s))
    → Q ((lift r >>= f) s)
finish_result Q (ok a) f s failed returned = returned a refl
finish_result Q (err e) f s failed returned = failed e refl

-- A block, by what its first call returns.
pub cases_run :
    {S A B : Type 0} (Q : Result B × S → Type 0) (m : Exec S A) (f : A → Exec S B) (s : S)
    → ((e : Error) → (m s).0 ≡ err e → Q (err e, (m s).1))
    → ((a : A) → (m s).0 ≡ ok a → Q (f a (m s).1))
    → Q ((m >>= f) s)
cases_run Q m f s = finish_result Q (m s).0 f (m s).1

-- What holds before a read holds after it.
pub after_read :
    {S A : Type 0} (P : S → Type 0) (m : Exec S A) → Reads m → (s : S) → P s → P (m s).1
after_read P m r s h = subst P (sym (r.same s)) h

pure_result :
    {S A B : Type 0} (r : Result A) (f : A → B) (s : S) → ((lift r >>= (λ a. pure (f a))) s).1 ≡ s
pure_result (ok a) f s = refl
pure_result (err e) f s = refl

-- A call whose result is only worked on leaves the session that it leaves.
pub after_pure :
    {S A B : Type 0} (m : Exec S A) (f : A → B) (s : S) → ((m >>= (λ a. pure (f a))) s).1 ≡ (m s).1
after_pure m f s = pure_result (m s).0 f (m s).1

-- A call under a test.
pub if_run :
    {S A : Type 0} (Q : Result A × S → Type 0) (b : Bool) (m n : Exec S A) (s : S)
    → (b ≡ true → Q (m s))
    → (b ≡ false → Q (n s))
    → Q ((if b then m else n) s)
if_run Q true m n s yes_case no_case = yes_case refl
if_run Q false m n s yes_case no_case = no_case refl

-- A block whose first call is known.
pub after :
    {S A B : Type 0} (Q : Result B × S → Type 0) (m : Exec S A) (f : A → Exec S B) (s : S) {a : A}
    {s' : S}
    → m s ≡ (ok a, s')
    → Q (f a s')
    → Q ((m >>= f) s)
after {S} {A} Q m f s e q = subst (λ (r : Result A × S). Q (◌>>=◌ (λ _. r) f s)) (sym e) q

pub after_error :
    {S A B : Type 0} (Q : Result B × S → Type 0) (m : Exec S A) (f : A → Exec S B) (s : S)
    {e : Error} {s' : S}
    → m s ≡ (err e, s')
    → Q (err e, s')
    → Q ((m >>= f) s)
after_error {S} {A} Q m f s p q = subst (λ (r : Result A × S). Q (◌>>=◌ (λ _. r) f s)) (sym p) q

module _ {S A B : Type 0} {P : S → Type 0} where
  -- The rest of a block may use what the first call returned, and the session that it left.
  pub Leads-bind :
      {Q : S → Type 0} (m : Exec S A) (f : A → Exec S B)
      → ((s : S) → P s → Q (m s).1)
      → ((s : S) (a : A) → P s → (m s).0 ≡ ok a → Q (f a (m s).1).1)
      → Leads P Q (m >>= f)
  Leads-bind {Q} m f km kf = record {
    at = λ s h. finish Q (m s).0 f (m s).1 (km s h) (λ a e. kf s a h e);
  }

  pub Keeps-bind-lift :
      (r : Result A) (f : A → Exec S B)
      → ((a : A) → r ≡ ok a → Keeps P (f a))
      → Keeps P (lift r >>= f)
  Keeps-bind-lift (ok a) f k = k a refl
  Keeps-bind-lift (err e) f k = record { at = λ s h. h }

  pub Keeps-bind :
      (m : Exec S A) (f : A → Exec S B) → Keeps P m → ((a : A) → Keeps P (f a)) → Keeps P (m >>= f)
  Keeps-bind m f km kf = Leads-bind m f km.at (λ s a h e. (kf a).at (m s).1 (km.at s h))

-- Reads compose.
pub Reads-bind :
    {S A B : Type 0} (m : Exec S A) (f : A → Exec S B)
    → Reads m
    → ((a : A) → Reads (f a))
    → Reads (m >>= f)
Reads-bind {S} m f rm rf = record {
  same = λ s.
      (Leads-bind {P = λ t. t ≡ s} {Q = λ t. t ≡ s} m f
          (λ t e. subst (λ u. (m t).1 ≡ u) e (rm.same t))
          (λ t a e r.
            subst (λ u. (f a (m t).1).1 ≡ u) e
              (subst (λ u. (f a (m t).1).1 ≡ u) (rm.same t) ((rf a).same (m t).1)))).at
        s refl;
}

pub Reads-pure : {S A : Type 0} (a : A) → Reads {S = S} (pure a)
Reads-pure a = record { same = λ s. refl }

pub Reads-raise : {S A : Type 0} (e : Error) → Reads {S = S} {A = A} (raise e)
Reads-raise e = record { same = λ s. refl }

pub Reads-lift : {S A : Type 0} (r : Result A) → Reads {S = S} (lift r)
Reads-lift r = record { same = λ s. refl }

pub Reads-gets : {S A : Type 0} (f : S → A) → Reads (gets f)
Reads-gets f = record { same = λ s. refl }

pub Reads-raise_if : {S : Type 0} (b : Bool) (e : Error) → Reads (raise_if {S = S} b e)
Reads-raise_if b e = record { same = λ s. refl }

pub Reads-if :
    {S A : Type 0} (b : Bool) (m n : Exec S A) → Reads m → Reads n → Reads (if b then m else n)
Reads-if true m n rm rn = rm
Reads-if false m n rm rn = rn

pub ruleset read_rules =
    (Reads-bind, Reads-pure, Reads-raise, Reads-lift, Reads-gets, Reads-raise_if, Reads-if)
