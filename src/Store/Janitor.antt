-- ===== src/Store/Janitor.antt =====
-- sidecar/internal/store/janitor.go: one tick of the cleanup loop. Each error is only logged.
use mcpbouncer.Prelude.{ℕ, Done}
use mcpbouncer.Platform.{Platform}
use mcpbouncer.Action.{Action, ◌>>◌, pure}
use mcpbouncer.Store.Keys.{delete_expired_signing_keys}
use mcpbouncer.Store.Clients.{delete_stale_clients}
use mcpbouncer.Store.Grants.{
  delete_expired_auth_sessions, delete_expired_codes, delete_expired_refresh_tokens,
}

module _ ⦃p : Platform⦄ where
  unfoldable pub janitor_tick : ℕ → Action Done
  janitor_tick client_ttl = do
    delete_expired_auth_sessions
    delete_expired_codes
    delete_expired_refresh_tokens
    delete_expired_signing_keys
    delete_stale_clients client_ttl
    pure tt
