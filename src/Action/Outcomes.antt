-- ===== src/Action/Outcomes.antt =====
-- How an action comes to its outcome, from those of its parts.
use mcpbouncer.Prelude.{
  String, Bool, true, false, if◌then◌else◌, ◌≡◌, refl, ◌⊎◌, inl, inr, ◌<>◌, arith, ℕ, ap, List, ◌≢◌,
}
use mcpbouncer.Action.{
  after, must, fail_with, reject_if, World, Action, Response, Outcome, ret, exit, respond, ◌>>=◌,
  pure, attempt, attempt_pure, bind-eq-ret,
}
use mcpbouncer.Store.Rows.{Result, ok, err}

outcome-cases {ℓ} :
    {A : Type ℓ} (o : Outcome A × World)
    → ((a : A) × (w' : World) × (o ≡ (ret a, w')))
      ⊎ ((x : Response) × (w' : World) × (o ≡ (exit x, w')))
outcome-cases (ret a, w') = inl (a, w', refl)
outcome-cases (exit x, w') = inr (x, w', refl)

bind-ret {ℓ κ} :
    {A : Type ℓ} {B : Type κ} (m : Action A) (f : A → Action B) (w : World) {a : A} {w' : World}
    → m w ≡ (ret a, w')
    → (m >>= f) w ≡ f a w'
unfolding ◌>>=◌
bind-ret m f w e = rw e refl

bind-exit {ℓ κ} :
    {A : Type ℓ} {B : Type κ} (m : Action A) (f : A → Action B) (w : World) {x : Response}
    {w' : World}
    → m w ≡ (exit x, w')
    → (m >>= f) w ≡ (exit x, w')
unfolding ◌>>=◌
bind-exit m f w e = rw e refl

-- Each way in which a handler may answer has `Q`: the first part's early returns, and what follows it.
pub respond-bind {ℓ} :
    {A : Type ℓ} (Q : Response → Type 0) (m : Action A) (f : A → Action Response) (w : World)
    → ((x : Response) (w' : World) → m w ≡ (exit x, w') → Q x)
    → ((a : A) (w' : World) → m w ≡ (ret a, w') → Q (respond (f a) w').0)
    → Q (respond (m >>= f) w).0
unfolding respond
respond-bind Q m f w early rest = elim (outcome-cases (m w)) [
  | inl (a, w', e) ↦ rw (bind-ret m f w e, respond) (rest a w' e)
  | inr (x, w', e) ↦ rw (bind-exit m f w e, respond) (early x w' e)
]

attempted {ℓ κ} :
    {A : Type ℓ} {B : Type κ} (name : String) (r : Result A) (f : A → Action (Result B)) (w : World)
    {b : B} {w'' : World}
    → elim r as (λ _. Action (Result B)) [ ok a ↦ f a | err e ↦ pure (err (name <> ": " <> e)) ] w
      ≡ (ret (ok b), w'')
    → (a : A) × (r ≡ ok a) × (f a w ≡ (ret (ok b), w''))
unfolding pure
attempted name (ok a) f w h = (a, refl, h)
attempted name (err e) f w h = ground arith

pub attempt_pure-ok {ℓ κ} :
    {A : Type ℓ} {B : Type κ} (name : String) (r : Result A) (f : A → Action (Result B)) (w : World)
    {b : B} {w'' : World}
    → attempt_pure name r f w ≡ (ret (ok b), w'')
    → (a : A) × (r ≡ ok a) × (f a w ≡ (ret (ok b), w''))
unfolding attempt_pure
attempt_pure-ok = attempted

-- An attempt that succeeds took a first action that did.
pub attempt-ok {ℓ κ} :
    {A : Type ℓ} {B : Type κ} (name : String) (m : Action (Result A)) (f : A → Action (Result B))
    (w : World) {b : B} {w'' : World}
    → attempt name m f w ≡ (ret (ok b), w'')
    → (a : A) × (w' : World) × (m w ≡ (ret (ok a), w')) × (f a w' ≡ (ret (ok b), w''))
unfolding attempt
attempt-ok name m f w h =
    let (r, w', e, k) = bind-eq-ret m _ w h in
    let (a, is, l) = attempted name r f w' k in (a, w', rw (← is) e, l)

-- A call behind a test that has not failed.
pub unless-ok {ℓ} :
    {A : Type ℓ} (b : Bool) (e : String) (m : Action (Result A)) (w : World) {a : A} {w' : World}
    → (if b then pure (err e) else m) w ≡ (ret (ok a), w')
    → (b ≡ false) × (m w ≡ (ret (ok a), w'))
unfolding pure
unless-ok false e m w h = (refl, h)
unless-ok true e m w h = ground arith

must-refused-of {ℓ} :
    {A : Type ℓ} (o : Outcome (Result A)) (hs : List (String × String)) (status : ℕ) (code : String)
    (description : String → String) (w : World) {x : Response} {w' : World}
    → ((y : Response) → o ≢ exit y)
    → after o (λ r. elim r [ ok a ↦ pure a | err e ↦ fail_with hs status code (description e) ]) w
      ≡ (exit x, w')
    → x.status ≡ status
unfolding fail_with pure
must-refused-of (ret (ok a)) hs status code description w goes_on h = ground arith
must-refused-of (ret (err e)) hs status code description w goes_on h = ground arith
must-refused-of (exit y) hs status code description w goes_on h = absurd (goes_on y refl)

-- A call whose failure is answered with an error: what ends the request is that error.
pub must-refused {ℓ} :
    {A : Type ℓ} (m : Action (Result A)) (hs : List (String × String)) (status : ℕ) (code : String)
    (description : String → String) (w : World) {x : Response} {w' : World}
    → ((y : Response) (v : World) → m w ≢ (exit y, v))
    → must m (λ e. fail_with hs status code (description e)) w ≡ (exit x, w')
    → x.status ≡ status
unfolding must ◌>>=◌
must-refused m hs status code description w goes_on h =
    must-refused-of (m w).0 hs status code description (m w).1
      (λ y e. goes_on y (m w).1 (ap (λ o. (o, (m w).1)) e)) h

pub reject_if-refused :
    (b : Bool) (hs : List (String × String)) (status : ℕ) (code description : String) (w : World)
    {x : Response} {w' : World}
    → reject_if b (fail_with hs status code description) w ≡ (exit x, w')
    → x.status ≡ status
unfolding reject_if fail_with pure
reject_if-refused true hs status code description w h = ground arith
reject_if-refused false hs status code description w h = ground arith
