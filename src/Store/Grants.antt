-- ===== src/Store/Grants.antt =====
-- sidecar/internal/store/repos.go: the tables auth_sessions, codes and refresh_tokens. An empty
-- `upstream_refresh_enc` is stored as NULL and read back empty.
use mcpbouncer.Prelude.{Done, String, Option, some, not, leb, keep}
use mathlib.Core.Option
use mcpbouncer.Platform.{Platform}
use mcpbouncer.Action.{Action, ◌>>=◌, now, query, exec}
use mcpbouncer.Store.Table.{find, insert, remove}
use mcpbouncer.Store.Rows.{
  Result, AuthSession, Code, RefreshToken, unix, from_unix, AuthSession-keyed, Code-keyed,
  RefreshToken-keyed,
}

-- The bound values of an INSERT and the scan of a SELECT.
abbrev pub session_row : AuthSession → AuthSession
session_row s = record s { created_at = unix s.created_at; expires_at = unix s.expires_at }

abbrev pub scan_session : AuthSession → AuthSession
scan_session s = record s {
  created_at = from_unix s.created_at;
  expires_at = from_unix s.expires_at;
}

abbrev pub code_row : Code → Code
code_row c = record c { expires_at = unix c.expires_at }

abbrev pub scan_code : Code → Code
scan_code c = record c { expires_at = from_unix c.expires_at }

abbrev pub token_row : RefreshToken → RefreshToken
token_row t = record t { expires_at = unix t.expires_at }

abbrev pub scan_token : RefreshToken → RefreshToken
scan_token t = record t { expires_at = from_unix t.expires_at }

module _ ⦃p : Platform⦄ where
  unfoldable pub insert_auth_session : AuthSession → Action (Result Done)
  insert_auth_session s = exec "InsertAuthSession" λ d.
      Option.map (λ rows. record d { auth_sessions = rows })
        (insert (session_row s) d.auth_sessions)

  unfoldable pub get_auth_session : String → Action (Result (Option AuthSession))
  get_auth_session state =
      query "GetAuthSession" λ d. Option.map scan_session (find state d.auth_sessions)

  unfoldable pub delete_auth_session : String → Action (Result Done)
  delete_auth_session state =
      exec "DeleteAuthSession" λ d. some (record d { auth_sessions = remove state d.auth_sessions })

  unfoldable pub delete_expired_auth_sessions : Action (Result Done)
  delete_expired_auth_sessions = do
    t ← now
    exec "DeleteExpiredAuthSessions" λ d.
        some
          (record d { auth_sessions = keep (λ s. not (leb s.expires_at (unix t))) d.auth_sessions })

  unfoldable pub insert_code : Code → Action (Result Done)
  insert_code c =
      exec "InsertCode"
        λ d. Option.map (λ rows. record d { codes = rows }) (insert (code_row c) d.codes)

  unfoldable pub get_code : String → Action (Result (Option Code))
  get_code code = query "GetCode" λ d. Option.map scan_code (find code d.codes)

  unfoldable pub delete_code : String → Action (Result Done)
  delete_code code = exec "DeleteCode" λ d. some (record d { codes = remove code d.codes })

  unfoldable pub delete_expired_codes : Action (Result Done)
  delete_expired_codes = do
    t ← now
    exec "DeleteExpiredCodes"
        λ d. some (record d { codes = keep (λ c. not (leb c.expires_at (unix t))) d.codes })

  unfoldable pub insert_refresh_token : RefreshToken → Action (Result Done)
  insert_refresh_token t = exec "InsertRefreshToken" λ d.
      Option.map (λ rows. record d { refresh_tokens = rows })
        (insert (token_row t) d.refresh_tokens)

  unfoldable pub get_refresh_token_by_hash : String → Action (Result (Option RefreshToken))
  get_refresh_token_by_hash hash =
      query "GetRefreshTokenByHash" λ d. Option.map scan_token (find hash d.refresh_tokens)

  unfoldable pub delete_refresh_token_by_hash : String → Action (Result Done)
  delete_refresh_token_by_hash hash =
      exec "DeleteRefreshTokenByHash"
        λ d. some (record d { refresh_tokens = remove hash d.refresh_tokens })

  unfoldable pub delete_expired_refresh_tokens : Action (Result Done)
  delete_expired_refresh_tokens = do
    t ← now
    exec "DeleteExpiredRefreshTokens" λ d.
        some (record d {
          refresh_tokens = keep (λ r. not (leb r.expires_at (unix t))) d.refresh_tokens;
        })
