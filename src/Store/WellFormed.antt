-- ===== src/Store/WellFormed.antt =====
-- The primary keys of sidecar/internal/store/sqlite.go: every statement of repos.go keeps them.
use mcpbouncer.Prelude.{sym, inl, inr, Option-cases, ◌-◌, not, leb, ℕ, String, refl, List, arith}
use mcpbouncer.Platform.{Platform}
use mcpbouncer.Action.Keeps.{Keeps, Keeps-exec, Keeps-bind, Keeps-now, Keeps-pure, Keeps-attempt}
use mcpbouncer.Store.Table.{
  IsUnique, insert, insert-IsUnique, update-IsUnique, keep-IsUnique, remove-IsUnique,
}
use mcpbouncer.Store.Rows.{
  Bytes, KeyStatus, Client, unix, SigningKey, AuthSession, Code, RefreshToken, ResourceRow, Db,
  SigningKey-keyed, Client-keyed, AuthSession-keyed, Code-keyed, RefreshToken-keyed,
  ResourceRow-keyed, EncryptionKey-keyed,
}
use mcpbouncer.Store.Keys.{
  is_expired_key, insert_signing_key, update_signing_key_status, delete_expired_signing_keys,
}
use mcpbouncer.Store.Clients.{
  is_stale, insert_client, touch_client, count_stale, delete_stale_clients, upsert,
  upsert_resource_config,
}
use mcpbouncer.Store.Grants.{
  code_row, session_row, token_row, insert_auth_session, delete_auth_session,
  delete_expired_auth_sessions, insert_code, delete_code, delete_expired_codes,
  insert_refresh_token, delete_refresh_token_by_hash, delete_expired_refresh_tokens,
}
use mcpbouncer.Store.Stable.{IsStable, Keeps-insert}

-- No table has two rows with one primary key.
pub record IsWellFormed (d : Db) : Type 0 where
  pub signing_keys : IsUnique d.signing_keys
  pub clients : IsUnique d.clients
  pub auth_sessions : IsUnique d.auth_sessions
  pub codes : IsUnique d.codes
  pub refresh_tokens : IsUnique d.refresh_tokens
  pub resource_configs : IsUnique d.resource_configs
  pub encryption_keys : IsUnique d.encryption_keys

upsert-IsUnique :
    (r : ResourceRow) (rows : List ResourceRow) → IsUnique rows → IsUnique (upsert r rows)
upsert-IsUnique r rows h = elim (Option-cases (insert r rows)) [
  | inl e ↦ rw (e, upsert) (update-IsUnique r.name (λ _. r) (λ x e'. sym e') rows h)
  | inr (rows', e) ↦ rw (e, upsert) (insert-IsUnique r rows e h)
]

module _ ⦃p : Platform⦄ where
  pub insert_code-IsWellFormed : (x : Code) → Keeps IsWellFormed (insert_code x)
  unfolding insert_code
  insert_code-IsWellFormed x =
      Keeps-insert _ (code_row x) _ _
        λ d rows h e. ground (arith, insert-IsUnique (code_row x) d.codes e)

  pub insert_auth_session-IsWellFormed :
      (x : AuthSession) → Keeps IsWellFormed (insert_auth_session x)
  unfolding insert_auth_session
  insert_auth_session-IsWellFormed x =
      Keeps-insert _ (session_row x) _ _
        λ d rows h e. ground (arith, insert-IsUnique (session_row x) d.auth_sessions e)

  pub insert_refresh_token-IsWellFormed :
      (x : RefreshToken) → Keeps IsWellFormed (insert_refresh_token x)
  unfolding insert_refresh_token
  insert_refresh_token-IsWellFormed x =
      Keeps-insert _ (token_row x) _ _
        λ d rows h e. ground (arith, insert-IsUnique (token_row x) d.refresh_tokens e)

  pub delete_code-IsWellFormed : (k : String) → Keeps IsWellFormed (delete_code k)
  unfolding delete_code
  delete_code-IsWellFormed k = Keeps-exec _ _ λ d d' h e. ground (arith, remove-IsUnique k d.codes)

  pub delete_auth_session-IsWellFormed : (k : String) → Keeps IsWellFormed (delete_auth_session k)
  unfolding delete_auth_session
  delete_auth_session-IsWellFormed k =
      Keeps-exec _ _ λ d d' h e. ground (arith, remove-IsUnique k d.auth_sessions)

  pub delete_refresh_token_by_hash-IsWellFormed :
      (k : String) → Keeps IsWellFormed (delete_refresh_token_by_hash k)
  unfolding delete_refresh_token_by_hash
  delete_refresh_token_by_hash-IsWellFormed k =
      Keeps-exec _ _ λ d d' h e. ground (arith, remove-IsUnique k d.refresh_tokens)

  pub insert_signing_key-IsWellFormed :
      (kid alg : String) (private_pem public_pem : Bytes) (retires_at : ℕ) (status : KeyStatus)
      → Keeps IsWellFormed (insert_signing_key kid alg private_pem public_pem retires_at status)
  unfolding insert_signing_key
  insert_signing_key-IsWellFormed kid alg private_pem public_pem retires_at status =
      Keeps-bind _ _ Keeps-now
        λ t. Keeps-insert _ _ _ _ λ d rows h e. ground (arith, insert-IsUnique _ d.signing_keys e)

  pub update_signing_key_status-IsWellFormed :
      (kid : String) (status : KeyStatus) (retires_at : ℕ)
      → Keeps IsWellFormed (update_signing_key_status kid status retires_at)
  unfolding update_signing_key_status
  update_signing_key_status-IsWellFormed kid status retires_at = Keeps-exec _ _ λ d d' h e. ground (
    arith,
    update-IsUnique kid
        (λ (k : SigningKey). record k { status = status; retires_at = unix retires_at })
        (λ k _. refl) d.signing_keys,
  )

  pub touch_client-IsWellFormed : (c : String) → Keeps IsWellFormed (touch_client c)
  unfolding touch_client
  touch_client-IsWellFormed c = Keeps-bind _ _ Keeps-now λ t. Keeps-exec _ _ λ d d' h e. ground (
    arith,
    update-IsUnique c (λ (k : Client). record k { last_used_at = unix t }) (λ k _. refl) d.clients,
  )

  pub insert_client-IsWellFormed : (c : Client) → Keeps IsWellFormed (insert_client c)
  unfolding insert_client
  insert_client-IsWellFormed c =
      Keeps-bind _ _ Keeps-now
        λ t. Keeps-insert _ _ _ _ λ d rows h e. ground (arith, insert-IsUnique _ d.clients e)

  pub upsert_resource_config-IsWellFormed :
      (r : ResourceRow) → Keeps IsWellFormed (upsert_resource_config r)
  unfolding upsert_resource_config
  upsert_resource_config-IsWellFormed r = Keeps-exec _ _ λ d d' h e.
      let row : ResourceRow = record r { updated_at = unix r.updated_at } in
      ground (arith, upsert-IsUnique row d.resource_configs)

  pub delete_expired_auth_sessions-IsWellFormed : Keeps IsWellFormed delete_expired_auth_sessions
  unfolding delete_expired_auth_sessions
  delete_expired_auth_sessions-IsWellFormed = Keeps-bind _ _ Keeps-now λ t.
      Keeps-exec _ _ λ d d' h e. ground (
        arith,
        keep-IsUnique (λ (s : AuthSession). not (leb s.expires_at (unix t))) d.auth_sessions,
      )

  pub delete_expired_codes-IsWellFormed : Keeps IsWellFormed delete_expired_codes
  unfolding delete_expired_codes
  delete_expired_codes-IsWellFormed = Keeps-bind _ _ Keeps-now λ t. Keeps-exec _ _ λ d d' h e.
      ground (arith, keep-IsUnique (λ (s : Code). not (leb s.expires_at (unix t))) d.codes)

  pub delete_expired_refresh_tokens-IsWellFormed : Keeps IsWellFormed delete_expired_refresh_tokens
  unfolding delete_expired_refresh_tokens
  delete_expired_refresh_tokens-IsWellFormed = Keeps-bind _ _ Keeps-now λ t.
      Keeps-exec _ _ λ d d' h e. ground (
        arith,
        keep-IsUnique (λ (s : RefreshToken). not (leb s.expires_at (unix t))) d.refresh_tokens,
      )

  pub delete_expired_signing_keys-IsWellFormed : Keeps IsWellFormed delete_expired_signing_keys
  unfolding delete_expired_signing_keys
  delete_expired_signing_keys-IsWellFormed = Keeps-bind _ _ Keeps-now λ t.
      Keeps-exec _ _ λ d d' h e.
        ground (
          arith,
          keep-IsUnique (λ (k : SigningKey). not (is_expired_key (unix t) k)) d.signing_keys,
        )

  count_stale-IsWellFormed : (cutoff : ℕ) → Keeps IsWellFormed (count_stale cutoff)
  unfolding count_stale
  count_stale-IsWellFormed cutoff = record { at = λ w h. h }

  pub delete_stale_clients-IsWellFormed : (n : ℕ) → Keeps IsWellFormed (delete_stale_clients n)
  unfolding delete_stale_clients
  delete_stale_clients-IsWellFormed n = Keeps-bind _ _ Keeps-now λ t.
      Keeps-bind _ _ (count_stale-IsWellFormed _) λ k.
        Keeps-attempt _ _ _
          (Keeps-exec _ _ λ d d' h e.
            ground
              (arith, keep-IsUnique (λ (c : Client). not (is_stale (unix (t - n)) c)) d.clients))
          λ _. Keeps-pure _

  pub IsWellFormed-IsStable : IsStable IsWellFormed (λ _ _. Unit)
  IsWellFormed-IsStable = record {
    good_s256 = λ c h. tt;
    session_found = λ d state x h e. tt;
    code_inserted = λ x _. insert_code-IsWellFormed x;
    session_inserted = λ x _. insert_auth_session-IsWellFormed x;
    token_inserted = insert_refresh_token-IsWellFormed;
    code_deleted = delete_code-IsWellFormed;
    session_deleted = delete_auth_session-IsWellFormed;
    token_deleted = delete_refresh_token_by_hash-IsWellFormed;
    key_inserted = insert_signing_key-IsWellFormed;
    key_updated = update_signing_key_status-IsWellFormed;
    client_touched = touch_client-IsWellFormed;
    client_inserted = insert_client-IsWellFormed;
    resource_upserted = upsert_resource_config-IsWellFormed;
    sessions_expired = delete_expired_auth_sessions-IsWellFormed;
    codes_expired = delete_expired_codes-IsWellFormed;
    tokens_expired = delete_expired_refresh_tokens-IsWellFormed;
    keys_expired = delete_expired_signing_keys-IsWellFormed;
    clients_expired = delete_stale_clients-IsWellFormed;
  }
