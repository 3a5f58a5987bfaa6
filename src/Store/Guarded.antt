-- ===== src/Store/Guarded.antt =====
-- The PKCE challenges in the tables of sessions and codes (sidecar/internal/store/repos.go).
use mathlib.Core.Path.{subst}
use mcpbouncer.Prelude.{
  ◌≢◌, ℕ, String, ◌≡◌, refl, sym, inl, inr, Bool, Bool-cases, some, Option, List, [], ◌∷◌, ◌++◌,
  All, keep, ◌==◌, arith,
}
use mcpbouncer.Platform.{Platform}
use mcpbouncer.Action.{exec}
use mcpbouncer.Action.Keeps.{Keeps, Keeps-exec, Keeps-bind, Keeps-now, Keeps-attempt, Keeps-pure}
use mcpbouncer.Store.Rows.{
  Db, AuthSession, Code, SigningKey-keyed, Client-keyed, AuthSession-keyed, Code-keyed,
  RefreshToken-keyed,
}
use mcpbouncer.Store.Table.{Keyed, find, insert, remove}
use mcpbouncer.Store.Stable.{IsStable, Keeps-insert}
use mcpbouncer.Store.Keys.{
  insert_signing_key, update_signing_key_status, delete_expired_signing_keys,
}
use mcpbouncer.Store.Clients.{
  insert_client, touch_client, count_stale, delete_stale_clients, upsert_resource_config,
}
use mcpbouncer.Store.Grants.{
  session_row, code_row, insert_auth_session, delete_auth_session, delete_expired_auth_sessions,
  insert_code, delete_code, delete_expired_codes, insert_refresh_token,
  delete_refresh_token_by_hash, delete_expired_refresh_tokens,
}

module _ {R : Type 0} (P : R → Type 0) where
  All-snoc : (rs : List R) (r : R) → All P rs → P r → All P (rs ++ r ∷ [])
  All-snoc [] r h g = (g, tt)
  All-snoc (x ∷ rs) r (hx, h) g = (hx, All-snoc rs r h g)

  All-keep : (p : R → Bool) (rs : List R) → All P rs → All P (keep p rs)
  All-keep p [] h = tt
  All-keep p (x ∷ rs) (hx, h) = elim (Bool-cases (p x)) [
    | inl e ↦ rw e (hx, All-keep p rs h)
    | inr e ↦ rw e (All-keep p rs h)
  ]

  module _ ⦃k : Keyed R⦄ where
    All-insert :
        (r : R) (rs : List R) {rs' : List R} → insert r rs ≡ some rs' → All P rs → P r → All P rs'
    unfolding insert
    All-insert r rs {rs'} e h g =
        let same : rs ++ r ∷ [] ≡ rs' = ground arith in subst (All P) same (All-snoc rs r h g)

    All-find : (i : String) (rs : List R) {r : R} → find i rs ≡ some r → All P rs → P r
    unfolding find
    All-find i [] e h = ground arith
    All-find i (x ∷ rs) {r} e (hx, h) = elim (Bool-cases (k.key x == i)) [
      | inl e' ↦ let same : x ≡ r = ground arith in subst P same hx
      | inr e' ↦ All-find i rs (rw (e', find) at e) h
    ]

-- Every session and every code has a challenge, and S256 as its method.
pub record IsGuarded (challenge method : String) : Type 0 where
  pub given : challenge ≢ ""
  pub s256 : method ≡ "S256"

abbrev pub GuardedSession : AuthSession → Type 0
GuardedSession s = IsGuarded s.code_challenge s.code_challenge_method

abbrev pub GuardedCode : Code → Type 0
GuardedCode c = IsGuarded c.code_challenge c.code_challenge_method

pub record HasPkce (d : Db) : Type 0 where
  pub sessions : All GuardedSession d.auth_sessions
  pub codes : All GuardedCode d.codes

module _ ⦃p : Platform⦄ where
  -- A statement on other tables.
  elsewhere :
      (name : String) (f : Db → Option Db)
      → ((d d' : Db) → f d ≡ some d' → (d'.auth_sessions ≡ d.auth_sessions) × (d'.codes ≡ d.codes))
      → Keeps HasPkce (exec name f)
  elsewhere name f same = Keeps-exec name f λ d d' h e.
      let (sessions, codes) = same d d' e in
      record {
        sessions = subst (All GuardedSession) (sym sessions) h.sessions;
        codes = subst (All GuardedCode) (sym codes) h.codes;
      }

  fewer_sessions :
      (name : String) (p : AuthSession → Bool)
      → Keeps HasPkce (exec name (λ d. some (record d { auth_sessions = keep p d.auth_sessions })))
  fewer_sessions name p = Keeps-exec name _ λ d d' h e.
      let same : record d { auth_sessions = keep p d.auth_sessions } ≡ d' = ground arith in
      subst HasPkce same (record {
        sessions = All-keep GuardedSession p d.auth_sessions h.sessions;
        codes = h.codes;
      })

  fewer_codes :
      (name : String) (p : Code → Bool)
      → Keeps HasPkce (exec name (λ d. some (record d { codes = keep p d.codes })))
  fewer_codes name p = Keeps-exec name _ λ d d' h e.
      let same : record d { codes = keep p d.codes } ≡ d' = ground arith in
      subst HasPkce same
        (record { sessions = h.sessions; codes = All-keep GuardedCode p d.codes h.codes })

  count_stale-HasPkce : (cutoff : ℕ) → Keeps HasPkce (count_stale cutoff)
  unfolding count_stale
  count_stale-HasPkce cutoff = record { at = λ w h. h }

  pub HasPkce-IsStable : IsStable HasPkce IsGuarded
  unfolding insert_code insert_auth_session insert_refresh_token delete_code delete_auth_session
      delete_refresh_token_by_hash insert_signing_key update_signing_key_status touch_client
      insert_client upsert_resource_config delete_expired_auth_sessions delete_expired_codes
      delete_expired_refresh_tokens delete_expired_signing_keys delete_stale_clients remove
  HasPkce-IsStable = record {
    good_s256 = λ c h. record { given = h; s256 = refl };
    session_found = λ d state x h e. All-find GuardedSession state d.auth_sessions e h.sessions;
    code_inserted = λ x good. Keeps-insert _ (code_row x) _ _ λ d rows h e. record {
      sessions = h.sessions;
      codes = All-insert GuardedCode (code_row x) d.codes e h.codes good;
    };
    session_inserted = λ x good. Keeps-insert _ (session_row x) _ _ λ d rows h e. record {
      sessions = All-insert GuardedSession (session_row x) d.auth_sessions e h.sessions good;
      codes = h.codes;
    };
    token_inserted =
        λ x. Keeps-insert _ _ _ _ (λ d rows h e. record { sessions = h.sessions; codes = h.codes });
    code_deleted = λ k. fewer_codes _ _;
    session_deleted = λ k. fewer_sessions _ _;
    token_deleted = λ k. elsewhere _ _ (λ d d' e. ground arith);
    key_inserted = λ kid alg private public retires_at status. Keeps-bind _ _ Keeps-now (λ at.
        Keeps-insert _ _ _ _ (λ d rows h e. record { sessions = h.sessions; codes = h.codes }));
    key_updated = λ kid status retires_at. elsewhere _ _ (λ d d' e. ground arith);
    client_touched = λ c. Keeps-bind _ _ Keeps-now (λ at. elsewhere _ _ (λ d d' e. ground arith));
    client_inserted = λ c. Keeps-bind _ _ Keeps-now (λ at.
        Keeps-insert _ _ _ _ (λ d rows h e. record { sessions = h.sessions; codes = h.codes }));
    resource_upserted = λ r. elsewhere _ _ (λ d d' e. ground arith);
    sessions_expired = Keeps-bind _ _ Keeps-now (λ at. fewer_sessions _ _);
    codes_expired = Keeps-bind _ _ Keeps-now (λ at. fewer_codes _ _);
    tokens_expired = Keeps-bind _ _ Keeps-now (λ at. elsewhere _ _ (λ d d' e. ground arith));
    keys_expired = Keeps-bind _ _ Keeps-now (λ at. elsewhere _ _ (λ d d' e. ground arith));
    clients_expired = λ n. Keeps-bind _ _ Keeps-now λ at.
        Keeps-bind _ _ (count_stale-HasPkce _)
          λ k. Keeps-attempt _ _ _ (elsewhere _ _ (λ d d' e. ground arith)) (λ _. Keeps-pure _);
  }
