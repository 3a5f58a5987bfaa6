-- ===== src/Action/Keeps.antt =====
-- Invariants of the database under actions: one rule for each way to build an action.
use mcpbouncer.Prelude.{
  ◌<>◌, ◌∙◌, ap, refl, ℕ, Done, String, ◌≡◌, Bool, true, false, Option, none, some, inl, inr,
  Option-cases, List, arith, if◌then◌else◌,
}
use mcpbouncer.Platform.{Platform}
use mcpbouncer.Store.Rows.{Db, Result, ok, err}
use mcpbouncer.Action.{
  on_result, on_option, stored, after, Outcome, World, Response, ret, exit, Action, ◌>>=◌, pure,
  fail, fail_with, finish, reject_if, must, given, attempt, attempt_step, attempt_pure, now,
  read_random, query, exec,
}

-- Whatever `m` answers, it leaves a database with `P` where it found one.
pub record Keeps {ℓ} {A : Type ℓ} (P : Db → Type 0) (m : Action A) : Type ℓ where
  pub at : (w : World) → P w.db → P (m w).1.db

module _ {ℓ} {A : Type ℓ} {P : Db → Type 0} where
  pub Keeps-pure : (a : A) → Keeps P (pure a)
  unfolding pure
  Keeps-pure a = record { at = λ w h. h }

  pub Keeps-fail_with :
      (hs : List (String × String)) (status : ℕ) (code description : String)
      → Keeps P (fail_with {A = A} hs status code description)
  unfolding fail_with
  Keeps-fail_with hs status code description = record { at = λ w h. h }

  pub Keeps-fail :
      (status : ℕ) (code description : String) → Keeps P (fail {A = A} status code description)
  unfolding fail
  Keeps-fail status code description = record { at = λ w h. h }

  pub Keeps-finish : (r : Response) → Keeps P (finish {A = A} r)
  unfolding finish
  Keeps-finish r = record { at = λ w h. h }

  pub Keeps-given : (o : Option A) (m : Action A) → Keeps P m → Keeps P (given o m)
  unfolding given
  Keeps-given none m k = k
  Keeps-given (some a) m k = Keeps-pure a

  pub Keeps-if : (b : Bool) (m n : Action A) → Keeps P m → Keeps P n → Keeps P (if b then m else n)
  Keeps-if true m n km kn = km
  Keeps-if false m n km kn = kn

module _ {ℓ κ} {A : Type ℓ} {B : Type κ} {P : Db → Type 0} where
  after-keeps :
      (o : Outcome A) (f : A → Action B) (w : World)
      → ((a : A) → Keeps P (f a))
      → P w.db
      → P (after o f w).1.db
  after-keeps (ret a) f w kf h = (kf a).at w h
  after-keeps (exit r) f w kf h = h

  -- What the first action brings about, the second keeps.
  pub bind-holds :
      (m : Action A) (f : A → Action B) (w : World)
      → P (m w).1.db
      → ((a : A) → Keeps P (f a))
      → P ((m >>= f) w).1.db
  unfolding ◌>>=◌
  bind-holds m f w h kf = after-keeps (m w).0 f (m w).1 kf h

  pub Keeps-bind :
      (m : Action A) (f : A → Action B) → Keeps P m → ((a : A) → Keeps P (f a)) → Keeps P (m >>= f)
  unfolding ◌>>=◌
  Keeps-bind m f km kf = record { at = λ w h. after-keeps (m w).0 f (m w).1 kf (km.at w h) }

module _ {ℓ κ} {A : Type ℓ} {B : Type κ} {P : Db → Type 0} where
  Keeps-result :
      (f : A → Action (Result B)) (g : String → String) (r : Result A)
      → ((a : A) → Keeps P (f a))
      → Keeps P (elim r [ ok a ↦ f a | err e ↦ pure (err (g e)) ])
  Keeps-result f g (ok a) kf = kf a
  Keeps-result f g (err e) kf = Keeps-pure _

  pub Keeps-attempt :
      (name : String) (m : Action (Result A)) (f : A → Action (Result B))
      → Keeps P m
      → ((a : A) → Keeps P (f a))
      → Keeps P (attempt name m f)
  unfolding attempt
  Keeps-attempt name m f km kf = Keeps-bind m _ km (λ r. Keeps-result f _ r kf)

  pub Keeps-attempt_step :
      (m : Action (Result A)) (f : A → Action (Result B))
      → Keeps P m
      → ((a : A) → Keeps P (f a))
      → Keeps P (attempt_step m f)
  unfolding attempt_step
  Keeps-attempt_step m f km kf = Keeps-bind m _ km (λ r. Keeps-result f _ r kf)

  pub Keeps-attempt_pure :
      (name : String) (r : Result A) (f : A → Action (Result B))
      → ((a : A) → Keeps P (f a))
      → Keeps P (attempt_pure name r f)
  unfolding attempt_pure
  Keeps-attempt_pure name r f kf = Keeps-result f _ r kf

module _ {ℓ} {A : Type ℓ} {P : Db → Type 0} where
  must-Keeps :
      (r : Result A) (h : String → Action A)
      → ((e : String) → Keeps P (h e))
      → Keeps P (elim r [ ok a ↦ pure a | err e ↦ h e ])
  must-Keeps (ok a) h kh = Keeps-pure a
  must-Keeps (err e) h kh = kh e

  pub Keeps-must :
      (m : Action (Result A)) (h : String → Action A)
      → Keeps P m
      → ((e : String) → Keeps P (h e))
      → Keeps P (must m h)
  unfolding must
  Keeps-must m h km kh = Keeps-bind m _ km (λ r. must-Keeps r h kh)

module _ {P : Db → Type 0} where
  pub Keeps-reject_if : (b : Bool) (m : Action Done) → Keeps P m → Keeps P (reject_if b m)
  unfolding reject_if
  Keeps-reject_if true m k = k
  Keeps-reject_if false m k = Keeps-pure tt

module _ ⦃p : Platform⦄ {P : Db → Type 0} where
  pub Keeps-now : Keeps P now
  unfolding now
  Keeps-now = record { at = λ w h. h }

  pub Keeps-read_random : (n : ℕ) → Keeps P (read_random n)
  unfolding read_random
  Keeps-read_random n = record { at = λ w h. h }

  pub Keeps-query {ℓ} : {A : Type ℓ} (name : String) (f : Db → A) → Keeps P (query name f)
  unfolding query
  Keeps-query name f = record { at = λ w h. ground arith }

  stored-keeps :
      (name : String) (o : Option Db) (w : World)
      → P w.db
      → ((d : Db) → o ≡ some d → P d)
      → P (stored name o w).1.db
  stored-keeps name none w h k = h
  stored-keeps name (some d) w h k = k d refl

  -- A statement that fails, on a fault or on a primary key, writes nothing.
  pub Keeps-exec :
      (name : String) (f : Db → Option Db)
      → ((d d' : Db) → P d → f d ≡ some d' → P d')
      → Keeps P (exec name f)
  unfolding exec
  Keeps-exec name f step = record {
    at = λ w h. elim (Option-cases (p.db_fault w.step)) [
      | inr (cause, e) ↦ rw (e, exec) h
      | inl e ↦ rw (e, exec) (stored-keeps name (f w.db) w h (λ d. step w.db d h))
    ];
  }

module _ {ℓ κ} {A : Type ℓ} {B : Type κ} {P : Db → Type 0} where
  pub Keeps-on_result :
      (r : Result A) (f : A → Action B) (g : String → Action B)
      → ((a : A) → Keeps P (f a))
      → ((e : String) → Keeps P (g e))
      → Keeps P (on_result r f g)
  unfolding on_result
  Keeps-on_result (ok a) f g kf kg = kf a
  Keeps-on_result (err e) f g kf kg = kg e

  pub Keeps-on_option :
      (o : Option A) (f : A → Action B) (m : Action B)
      → ((a : A) → Keeps P (f a))
      → Keeps P m
      → Keeps P (on_option o f m)
  unfolding on_option
  Keeps-on_option (some a) f m kf km = kf a
  Keeps-on_option none f m kf km = km

module _ {ℓ κ} {A : Type ℓ} {B : Type κ} where
  after-holds :
      (P : Db → Type 0) (o : Outcome A) (f : A → Action B) (w : World)
      → P w.db
      → ((a : A) → o ≡ ret a → P (f a w).1.db)
      → P (after o f w).1.db
  after-holds P (ret a) f w h k = k a refl
  after-holds P (exit r) f w h k = h

  -- The second action is run on what the first has returned, and on the state that it left.
  pub bind-after :
      (P : Db → Type 0) (m : Action A) (f : A → Action B) (w : World)
      → P (m w).1.db
      → ((a : A) → m w ≡ (ret a, (m w).1) → P (f a (m w).1).1.db)
      → P ((m >>= f) w).1.db
  unfolding ◌>>=◌
  bind-after P m f w h k = after-holds P (m w).0 f (m w).1 h (λ a e. k a (ap (λ o. (o, (m w).1)) e))

attempt-elim {ℓ κ} :
    {A : Type ℓ} {B : Type κ} (P : Db → Type 0) (r : Result A) (f : A → Action (Result B))
    (g : String → String) (w : World)
    → P w.db
    → ((a : A) → r ≡ ok a → P (f a w).1.db)
    → let rest : Action (Result B) = elim r [ ok a ↦ f a | err e ↦ pure (err (g e)) ] in
      P (rest w).1.db
unfolding pure
attempt-elim P (ok a) f g w h k = k a refl
attempt-elim P (err e) f g w h k = h

-- What holds where the first call fails, and where the rest goes on from its value, holds.
pub attempt-after {ℓ κ} :
    {A : Type ℓ} {B : Type κ} (P : Db → Type 0) (name : String) (m : Action (Result A))
    (f : A → Action (Result B)) (w : World)
    → P (m w).1.db
    → ((a : A) → m w ≡ (ret (ok a), (m w).1) → P (f a (m w).1).1.db)
    → P (attempt name m f w).1.db
unfolding attempt
attempt-after P name m f w h k = bind-after P m _ w h λ r e.
    attempt-elim P r f (λ e'. name <> ": " <> e') (m w).1 h
      λ a e'. k a (e ∙ ap (λ x. (ret x, (m w).1)) e')

pub step-after {ℓ κ} :
    {A : Type ℓ} {B : Type κ} (P : Db → Type 0) (m : Action (Result A)) (f : A → Action (Result B))
    (w : World)
    → P (m w).1.db
    → ((a : A) → m w ≡ (ret (ok a), (m w).1) → P (f a (m w).1).1.db)
    → P (attempt_step m f w).1.db
unfolding attempt_step
step-after P m f w h k =
    bind-after P m _ w h
      λ r e. attempt-elim P r f (λ e'. e') (m w).1 h λ a e'. k a (e ∙ ap (λ x. (ret x, (m w).1)) e')

-- A call that reads no state: the handler stops, or goes on from its value.
pub Keeps-must-pure {ℓ κ} :
    {A : Type ℓ} {B : Type κ} {P : Db → Type 0} (x : Result A) (status : ℕ)
    (code description : String) (f : A → Action B)
    → ((a : A) → x ≡ ok a → Keeps P (f a))
    → Keeps P (must (pure x) (λ _. fail status code description) >>= f)
unfolding must pure ◌>>=◌ fail fail_with
Keeps-must-pure (ok a) status code description f k = record { at = (k a refl).at }
Keeps-must-pure (err e) status code description f k = record { at = λ w h. h }

-- A check that stops the handler changes nothing; where the handler goes on, the check has passed.
pub reject-after {ℓ} :
    {B : Type ℓ} (P : Db → Type 0) (b : Bool) (hs : List (String × String)) (status : ℕ)
    (code description : String) (f : Done → Action B) (w : World)
    → P w.db
    → (b ≡ false → P (f tt w).1.db)
    → P ((reject_if b (fail_with hs status code description) >>= f) w).1.db
unfolding reject_if fail_with pure ◌>>=◌
reject-after P true hs status code description f w h k = h
reject-after P false hs status code description f w h k = k refl

pub ruleset keeps_rules = (
  Keeps-on_result, Keeps-on_option, Keeps-pure, Keeps-fail, Keeps-fail_with, Keeps-finish,
  Keeps-given, Keeps-if, Keeps-bind, Keeps-attempt, Keeps-attempt_step, Keeps-attempt_pure,
  Keeps-must, Keeps-reject_if, Keeps-now, Keeps-read_random, Keeps-query,
)
