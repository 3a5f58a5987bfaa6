-- ===== src/Store/Stable.antt =====
-- What every writing statement of sidecar/internal/store/repos.go that a handler or a background loop
-- calls keeps of the database: an invariant of these is an invariant of the sidecar.
use mathlib.Core.Option
use mcpbouncer.Prelude.{ℕ, String, ◌≢◌, ◌≡◌, some, List}
use mcpbouncer.Platform.{Platform}
use mcpbouncer.Action.Keeps.{Keeps, Keeps-exec, keeps_rules}
use mcpbouncer.Action.{exec}
use mcpbouncer.Store.Table.{Keyed, find, insert}
use mcpbouncer.Store.Rows.{
  AuthSession-keyed, Bytes, Db, KeyStatus, Client, AuthSession, Code, RefreshToken, ResourceRow,
}
use mcpbouncer.Store.Keys.{
  insert_signing_key, update_signing_key_status, delete_expired_signing_keys,
}
use mcpbouncer.Store.Clients.{
  insert_client, touch_client, delete_stale_clients, upsert_resource_config,
}
use mcpbouncer.Store.Grants.{
  insert_auth_session, delete_auth_session, delete_expired_auth_sessions, insert_code, delete_code,
  delete_expired_codes, insert_refresh_token, delete_refresh_token_by_hash,
  delete_expired_refresh_tokens,
}
use mcpbouncer.Store.Janitor.{janitor_tick}

module _ ⦃p : Platform⦄ where
  -- An INSERT into one table.
  pub Keeps-insert {ℓ} :
      {R : Type ℓ} ⦃k : Keyed R⦄ {P : Db → Type 0} (name : String) (r : R) (get : Db → List R)
      (set : Db → List R → Db)
      → ((d : Db) (rows : List R) → P d → insert r (get d) ≡ some rows → P (set d rows))
      → Keeps P (exec name (λ d. Option.map (set d) (insert r (get d))))
  Keeps-insert name r get set step = Keeps-exec _ _ λ d d' h e.
      let (rows, found, same) = (Option.map-eq-some_iff _ _).0 e in
      rw (← same) (step d rows h found)

-- `Good` is what the invariant asks of the PKCE challenge and method of a session and of a code. A
-- session that is found has it, and a challenge of the method S256.
pub record IsStable ⦃p : Platform⦄ (P : Db → Type 0) (Good : String → String → Type 0)
    : Type 0 where
  pub good_s256 : (challenge : String) → challenge ≢ "" → Good challenge "S256"
  pub session_found :
      (d : Db) (state : String) (x : AuthSession)
      → P d
      → find state d.auth_sessions ≡ some x
      → Good x.code_challenge x.code_challenge_method
  pub code_inserted :
      (x : Code) → Good x.code_challenge x.code_challenge_method → Keeps P (insert_code x)
  pub session_inserted :
      (x : AuthSession)
      → Good x.code_challenge x.code_challenge_method
      → Keeps P (insert_auth_session x)
  pub token_inserted : (x : RefreshToken) → Keeps P (insert_refresh_token x)
  pub code_deleted : (k : String) → Keeps P (delete_code k)
  pub session_deleted : (k : String) → Keeps P (delete_auth_session k)
  pub token_deleted : (k : String) → Keeps P (delete_refresh_token_by_hash k)
  pub key_inserted :
      (kid alg : String) (private_pem public_pem : Bytes) (retires_at : ℕ) (status : KeyStatus)
      → Keeps P (insert_signing_key kid alg private_pem public_pem retires_at status)
  pub key_updated :
      (kid : String) (status : KeyStatus) (retires_at : ℕ)
      → Keeps P (update_signing_key_status kid status retires_at)
  pub client_touched : (c : String) → Keeps P (touch_client c)
  pub client_inserted : (c : Client) → Keeps P (insert_client c)
  pub resource_upserted : (r : ResourceRow) → Keeps P (upsert_resource_config r)
  pub sessions_expired : Keeps P delete_expired_auth_sessions
  pub codes_expired : Keeps P delete_expired_codes
  pub tokens_expired : Keeps P delete_expired_refresh_tokens
  pub keys_expired : Keeps P delete_expired_signing_keys
  pub clients_expired : (n : ℕ) → Keeps P (delete_stale_clients n)

module _ ⦃p : Platform⦄ {P : Db → Type 0} {Good : String → String → Type 0}
    (stable : IsStable P Good) where
  pub insert_code-Keeps :
      (x : Code) → Good x.code_challenge x.code_challenge_method → Keeps P (insert_code x)
  insert_code-Keeps x good = stable.code_inserted x good

  pub insert_auth_session-Keeps :
      (x : AuthSession)
      → Good x.code_challenge x.code_challenge_method
      → Keeps P (insert_auth_session x)
  insert_auth_session-Keeps x good = stable.session_inserted x good

  pub insert_refresh_token-Keeps : (x : RefreshToken) → Keeps P (insert_refresh_token x)
  insert_refresh_token-Keeps x = stable.token_inserted x

  pub delete_code-Keeps : (k : String) → Keeps P (delete_code k)
  delete_code-Keeps k = stable.code_deleted k

  pub delete_auth_session-Keeps : (k : String) → Keeps P (delete_auth_session k)
  delete_auth_session-Keeps k = stable.session_deleted k

  pub delete_refresh_token_by_hash-Keeps : (k : String) → Keeps P (delete_refresh_token_by_hash k)
  delete_refresh_token_by_hash-Keeps k = stable.token_deleted k

  pub insert_signing_key-Keeps :
      (kid alg : String) (private_pem public_pem : Bytes) (retires_at : ℕ) (status : KeyStatus)
      → Keeps P (insert_signing_key kid alg private_pem public_pem retires_at status)
  insert_signing_key-Keeps kid alg private_pem public_pem retires_at status =
      stable.key_inserted kid alg private_pem public_pem retires_at status

  pub update_signing_key_status-Keeps :
      (kid : String) (status : KeyStatus) (retires_at : ℕ)
      → Keeps P (update_signing_key_status kid status retires_at)
  update_signing_key_status-Keeps kid status retires_at = stable.key_updated kid status retires_at

  pub touch_client-Keeps : (c : String) → Keeps P (touch_client c)
  touch_client-Keeps c = stable.client_touched c

  pub insert_client-Keeps : (c : Client) → Keeps P (insert_client c)
  insert_client-Keeps c = stable.client_inserted c

  pub upsert_resource_config-Keeps : (r : ResourceRow) → Keeps P (upsert_resource_config r)
  upsert_resource_config-Keeps r = stable.resource_upserted r

  pub delete_expired_auth_sessions-Keeps : Keeps P delete_expired_auth_sessions
  delete_expired_auth_sessions-Keeps = stable.sessions_expired

  pub delete_expired_codes-Keeps : Keeps P delete_expired_codes
  delete_expired_codes-Keeps = stable.codes_expired

  pub delete_expired_refresh_tokens-Keeps : Keeps P delete_expired_refresh_tokens
  delete_expired_refresh_tokens-Keeps = stable.tokens_expired

  pub delete_expired_signing_keys-Keeps : Keeps P delete_expired_signing_keys
  delete_expired_signing_keys-Keeps = stable.keys_expired

  pub delete_stale_clients-Keeps : (n : ℕ) → Keeps P (delete_stale_clients n)
  delete_stale_clients-Keeps n = stable.clients_expired n

pub ruleset stable_rules = (
  keeps_rules, insert_code-Keeps, insert_auth_session-Keeps, insert_refresh_token-Keeps,
  delete_code-Keeps, delete_auth_session-Keeps, delete_refresh_token_by_hash-Keeps,
  insert_signing_key-Keeps, update_signing_key_status-Keeps, touch_client-Keeps,
  insert_client-Keeps, upsert_resource_config-Keeps, delete_expired_auth_sessions-Keeps,
  delete_expired_codes-Keeps, delete_expired_refresh_tokens-Keeps,
  delete_expired_signing_keys-Keeps, delete_stale_clients-Keeps,
)

pub janitor_tick-Keeps :
    ⦃p : Platform⦄ {P : Db → Type 0} {Good : String → String → Type 0} (stable : IsStable P Good)
    (client_ttl : ℕ)
    → Keeps P (janitor_tick client_ttl)
unfolding janitor_tick
janitor_tick-Keeps stable client_ttl = search stable_rules depth 12
