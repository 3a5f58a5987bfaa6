-- ===== src/Store/Reads.antt =====
-- The statements of repos.go that only read: whatever holds of the tables holds behind them.
use mcpbouncer.Prelude.{String}
use mcpbouncer.Platform.{Platform}
use mcpbouncer.Action.Keeps.{Keeps, Keeps-query}
use mcpbouncer.Store.Rows.{Db}
use mcpbouncer.Store.Keys.{list_signing_keys, get_active_signing_key, list_encryption_keys}
use mcpbouncer.Store.Clients.{get_client, get_resource_config}
use mcpbouncer.Store.Grants.{get_auth_session, get_code, get_refresh_token_by_hash}

module _ ⦃p : Platform⦄ {P : Db → Type 0} where
  pub list_signing_keys-Keeps : Keeps P list_signing_keys
  unfolding list_signing_keys
  list_signing_keys-Keeps = Keeps-query _ _

  pub get_active_signing_key-Keeps : Keeps P get_active_signing_key
  unfolding get_active_signing_key
  get_active_signing_key-Keeps = Keeps-query _ _

  pub list_encryption_keys-Keeps : Keeps P list_encryption_keys
  unfolding list_encryption_keys
  list_encryption_keys-Keeps = Keeps-query _ _

  pub get_client-Keeps : (id : String) → Keeps P (get_client id)
  unfolding get_client
  get_client-Keeps id = Keeps-query _ _

  pub get_resource_config-Keeps : (name : String) → Keeps P (get_resource_config name)
  unfolding get_resource_config
  get_resource_config-Keeps name = Keeps-query _ _

  pub get_auth_session-Keeps : (state : String) → Keeps P (get_auth_session state)
  unfolding get_auth_session
  get_auth_session-Keeps state = Keeps-query _ _

  pub get_code-Keeps : (code : String) → Keeps P (get_code code)
  unfolding get_code
  get_code-Keeps code = Keeps-query _ _

  pub get_refresh_token_by_hash-Keeps : (hash : String) → Keeps P (get_refresh_token_by_hash hash)
  unfolding get_refresh_token_by_hash
  get_refresh_token_by_hash-Keeps hash = Keeps-query _ _

pub ruleset read_rules = (
  list_signing_keys-Keeps, get_active_signing_key-Keeps, list_encryption_keys-Keeps,
  get_client-Keeps, get_resource_config-Keeps, get_auth_session-Keeps, get_code-Keeps,
  get_refresh_token_by_hash-Keeps,
)
