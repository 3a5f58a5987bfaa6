-- ===== src/As/Token/Endpoint.antt =====
-- HandleToken of sidecar/internal/as/token.go.
use mcpbouncer.Prelude.{◌==◌, ◌<>◌, if◌then◌else◌}
use mcpbouncer.Platform.{Platform}
use mcpbouncer.Action.{Action, Response, ◌>>=◌, ◌>>◌, fail}
use mcpbouncer.Store.Rows.{Client}
use mcpbouncer.Store.Clients.{touch_client}
use mcpbouncer.Http.{Request}
use mcpbouncer.Crypto.{Cipher}
use mcpbouncer.Config.{ResourceConfig}
use mcpbouncer.Tokens.{Issuer}
use mcpbouncer.As.Clients.{read_credentials, find_client, check_secret}
use mcpbouncer.As.Token.{handle_authorization_code}
use mcpbouncer.As.Token.Refresh.{handle_refresh_token}

module _ ⦃p : Platform⦄ where
  unfoldable pub dispatch_grant :
      Issuer → Cipher → ResourceConfig → Client → Request → Action Response
  dispatch_grant i cipher rc client r =
      let grant_type = r.form_value "grant_type" in
      if grant_type == "authorization_code"
      then handle_authorization_code i rc client r
      else if grant_type == "refresh_token"
      then handle_refresh_token i cipher rc client r
      else fail 400 "unsupported_grant_type" ("unsupported grant_type: " <> grant_type)

  unfoldable pub handle_token : Issuer → Cipher → ResourceConfig → Request → Action Response
  handle_token i cipher rc r = do
    credentials ← read_credentials r
    client ← find_client credentials.0
    touch_client client.client_id
    check_secret client credentials.1
    dispatch_grant i cipher rc client r
