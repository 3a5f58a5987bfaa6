-- ===== src/Action.antt =====
-- The actions of a request handler: it reads and writes the process's state, and may write an
-- error response and return early.
pub mod Keeps
pub mod Outcomes
use mcpbouncer.Prelude.{
  ℕ, suc, Done, String, ◌≡◌, refl, ap, Bool, true, false, Option, none, some, List, [], ◌<>◌, arith,
}
use mcpbouncer.Json.{Claims}
use mcpbouncer.Platform.{Platform, Provider}
use mcpbouncer.Store.Rows.{Bytes, Db, Result, ok, err}

-- The process's state: the database, the cache of `oidc.Manager`, and the number of calls so far
-- of what lies outside the program.
pub record World : Type 0 where
  pub db : Db
  pub providers : List (String × Provider)
  pub step : ℕ

-- The body of a response.
pub data Body : Type 0 where
  empty : Body
  error_body : (code description : String) → Body
  token_body : (access_token : String) (expires_in : ℕ) (refresh_token scope : String) → Body
  claims_body : Claims → Body
  text_body : String → Body
  -- The key id and the encoded public key of each JWK; kty, crv, alg and use are always the same.
  jwks_body : List (String × String) → Body
  -- A redirect to a URL with parameters added to its query, whose encoding is net/url's.
  location : (url : String) (params : List (String × String)) → Body
  register_body :
      (client_id client_secret registration_access_token uri : String)
      → (redirect_uris : List String) → Body

pub record Response : Type 0 where
  pub status : ℕ
  pub headers : List (String × String)
  pub body : Body

-- `exit r`: the handler has written `r` and returned.
pub data Outcome {ℓ} (A : Type ℓ) : Type ℓ where
  ret : A → Outcome A
  exit : Response → Outcome A

abbrev pub Action {ℓ} : Type ℓ → Type ℓ
Action A = World → Outcome A × World

abbrev after {ℓ κ} : {A : Type ℓ} {B : Type κ} → Outcome A → (A → Action B) → Action B
after (ret a) f w = f a w
after (exit r) f w = (exit r, w)

infixl 5 ◌>>=◌ ◌>>◌
unfoldable pub ◌>>=◌ {ℓ κ} : {A : Type ℓ} {B : Type κ} → Action A → (A → Action B) → Action B
◌>>=◌ m f w = let (o, w') = m w in after o f w'

abbrev pub ◌>>◌ {ℓ κ} : {A : Type ℓ} {B : Type κ} → Action A → Action B → Action B
m >> n = m >>= λ _. n

unfoldable pub pure {ℓ} : {A : Type ℓ} → A → Action A
pure a w = (ret a, w)

-- writeError, with the headers set before it, and `return`.
unfoldable pub fail_with {ℓ} :
    {A : Type ℓ} → List (String × String) → ℕ → String → String → Action A
fail_with hs status code description w =
    (exit (record { status = status; headers = hs; body = error_body code description }), w)

unfoldable pub fail {ℓ} : {A : Type ℓ} → ℕ → String → String → Action A
unfolding fail_with
fail = fail_with []

-- An early return of a response that is no error.
unfoldable pub finish {ℓ} : {A : Type ℓ} → Response → Action A
finish r w = (exit r, w)

-- `if cond { writeError(...); return }`
unfoldable pub reject_if : Bool → Action Done → Action Done
unfolding pure
reject_if b m = elim b [ true ↦ m | false ↦ pure tt ]

-- x, err := m; if err != nil { h(err) }
unfoldable pub must {ℓ} : {A : Type ℓ} → Action (Result A) → (String → Action A) → Action A
unfolding ◌>>=◌ pure
must m h = m >>= λ r. elim r [ ok a ↦ pure a | err e ↦ h e ]

-- if x == nil { m }
unfoldable pub given {ℓ} : {A : Type ℓ} → Option A → Action A → Action A
unfolding pure
given o m = elim o [ some a ↦ pure a | none ↦ m ]

-- x, err := m; if err != nil { return fmt.Errorf(name+": %w", err) }
unfoldable pub attempt {ℓ κ} :
    {A : Type ℓ} {B : Type κ}
    → String
    → Action (Result A)
    → (A → Action (Result B))
    → Action (Result B)
unfolding ◌>>=◌ pure
attempt name m f = m >>= λ r. elim r [ ok a ↦ f a | err e ↦ pure (err (name <> ": " <> e)) ]

-- if err := m; err != nil { return err }
unfoldable pub attempt_step {ℓ κ} :
    {A : Type ℓ} {B : Type κ} → Action (Result A) → (A → Action (Result B)) → Action (Result B)
unfolding ◌>>=◌ pure
attempt_step m f = m >>= λ r. elim r [ ok a ↦ f a | err e ↦ pure (err e) ]

-- As `attempt`, of a pure call.
unfoldable pub attempt_pure {ℓ κ} :
    {A : Type ℓ} {B : Type κ} → String → Result A → (A → Action (Result B)) → Action (Result B)
unfolding pure
attempt_pure name r f = elim r [ ok a ↦ f a | err e ↦ pure (err (name <> ": " <> e)) ]

-- A value or its error, and a value that may be nil: each case goes on in its own way.
unfoldable pub on_result {ℓ κ} :
    {A : Type ℓ} {B : Type κ} → Result A → (A → Action B) → (String → Action B) → Action B
on_result (ok a) f g = f a
on_result (err e) f g = g e

unfoldable pub on_option {ℓ κ} :
    {A : Type ℓ} {B : Type κ} → Option A → (A → Action B) → Action B → Action B
on_option (some a) f m = f a
on_option none f m = m

-- A handler's response, whether it returned early or reached its end.
unfoldable pub respond : Action Response → World → Response × World
respond m w = let (o, w') = m w in (elim o [ ret r ↦ r | exit r ↦ r ], w')

after-eq-ret {ℓ κ} :
    {A : Type ℓ} {B : Type κ} (o : Outcome A) (f : A → Action B) (w : World) {b : B} {w'' : World}
    → after o f w ≡ (ret b, w'')
    → (a : A) × (o ≡ ret a) × (f a w ≡ (ret b, w''))
after-eq-ret (ret a) f w h = (a, refl, h)
after-eq-ret (exit r) f w h = cc

-- A bind that returns a value took a first action that did.
pub bind-eq-ret {ℓ κ} :
    {A : Type ℓ} {B : Type κ} (m : Action A) (f : A → Action B) (w : World) {b : B} {w'' : World}
    → (m >>= f) w ≡ (ret b, w'')
    → (a : A) × (w' : World) × (m w ≡ (ret a, w')) × (f a w' ≡ (ret b, w''))
unfolding ◌>>=◌
bind-eq-ret m f w h =
    let (a, e, k) = after-eq-ret (m w).0 f (m w).1 h in (a, (m w).1, ap (λ o. (o, (m w).1)) e, k)

pub pure-ret {ℓ} :
    {A : Type ℓ} (a : A) (w : World) {b : A} {w' : World}
    → pure a w ≡ (ret b, w')
    → (a ≡ b) × (w ≡ w')
unfolding pure
pure-ret a w h = ground arith

must-ret-of {ℓ} :
    {A : Type ℓ} (o : Outcome (Result A)) (w : World) (hs : List (String × String)) (status : ℕ)
    (code : String) (description : String → String) {a : A} {w' : World}
    → after o (λ r. elim r [ ok x ↦ pure x | err e ↦ fail_with hs status code (description e) ]) w
      ≡ (ret a, w')
    → Path (Outcome (Result A) × World) (o, w) (ret (ok a), w')
unfolding fail_with pure
must-ret-of (ret (ok x)) w hs status code description h = ground arith
must-ret-of (ret (err e)) w hs status code description h = ground arith
must-ret-of (exit r) w hs status code description h = ground arith

-- A call whose failure is answered with an error has succeeded where the handler goes on.
pub must-ret {ℓ} :
    {A : Type ℓ} (m : Action (Result A)) (hs : List (String × String)) (status : ℕ) (code : String)
    (description : String → String) (w : World) {a : A} {w' : World}
    → must m (λ e. fail_with hs status code (description e)) w ≡ (ret a, w')
    → m w ≡ (ret (ok a), w')
unfolding must ◌>>=◌
must-ret m hs status code description w h = must-ret-of (m w).0 (m w).1 hs status code description h

-- A check that lets the handler go on changes nothing.
pub reject_if-passed :
    (b : Bool) (hs : List (String × String)) (status : ℕ) (code description : String) (w : World)
    {d : Done} {w' : World}
    → reject_if b (fail_with hs status code description) w ≡ (ret d, w')
    → (b ≡ false) × (w' ≡ w)
unfolding reject_if fail_with pure
reject_if-passed true hs status code description w h = ground arith
reject_if-passed false hs status code description w h = ground arith

module _ ⦃p : Platform⦄ where
  abbrev pub tick : World → World
  tick w = record w { step = suc w.step }

  unfoldable pub now : Action ℕ
  now w = (ret (p.clock w.step), tick w)

  unfoldable pub read_random : ℕ → Action (Result Bytes)
  read_random n w = (ret (p.random w.step n), tick w)

  -- db.QueryRowContext, db.QueryContext: a read of the tables, or SQLite's error.
  unfoldable pub query {ℓ} : {A : Type ℓ} → String → (Db → A) → Action (Result A)
  query name f w = elim (p.db_fault w.step) [
    | none ↦ (ret (ok (f w.db)), tick w)
    | some cause ↦ (ret (err (name <> ": " <> cause)), tick w)
  ]

  abbrev stored : String → Option Db → World → Outcome (Result Done) × World
  stored name (some d) w = (ret (ok tt), record (tick w) { db = d })
  stored name none w = (ret (err (name <> ": " <> p.unique_violation)), tick w)

  -- db.ExecContext: a statement that fails leaves the tables as they were. none is a violation of
  -- a primary key.
  unfoldable pub exec : String → (Db → Option Db) → Action (Result Done)
  exec name f w = elim (p.db_fault w.step) [
    | none ↦ stored name (f w.db) w
    | some cause ↦ (ret (err (name <> ": " <> cause)), tick w)
  ]
