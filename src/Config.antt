-- ===== src/Config.antt =====
-- sidecar/internal/config/context.go: the resource's configuration, which the plugin sends in
-- headers with every request.
use mcpbouncer.Prelude.{String, Done, Option, none, some, ◌==◌, ◌<>◌, if◌then◌else◌}
use mcpbouncer.Platform.{Platform}
use mcpbouncer.Action.{on_option, Action, ◌>>=◌, pure, attempt, attempt_pure, now}
use mcpbouncer.Http.{Request}
use mcpbouncer.Store.Rows.{Bytes, ResourceRow, Result, ok, err}
use mcpbouncer.Store.Clients.{upsert_resource_config, get_resource_config}
use mcpbouncer.Crypto.{Cipher, encrypt, decrypt}

pub record ResourceConfig : Type 0 where
  pub name : String
  pub public_base : String
  pub provider_issuer : String
  pub client_id : String
  pub client_secret : String
  pub scopes : String
  pub audience : String

abbrev read_headers : Request → ResourceConfig
read_headers r = record {
  name = r.header "X-MCPB-Resource";
  public_base = r.header "X-MCPB-Public-Base";
  provider_issuer = r.header "X-MCPB-Provider-Issuer";
  client_id = r.header "X-MCPB-Client-ID";
  client_secret = r.header "X-MCPB-Client-Secret";
  scopes = r.header "X-MCPB-Scopes";
  audience = r.header "X-MCPB-Audience";
}

abbrev require : String → String → Result ResourceConfig → Result ResourceConfig
require field value r =
    if value == "" then err ("config.FromRequest: missing required header " <> field) else r

-- Go ranges over a map here, so which of several missing headers is named is not fixed.
unfoldable pub from_request : Request → Result ResourceConfig
from_request r =
    let rc = read_headers r in
    require "X-MCPB-Resource" rc.name (
      require "X-MCPB-Public-Base" rc.public_base (
        require "X-MCPB-Provider-Issuer" rc.provider_issuer (
          require "X-MCPB-Client-ID" rc.client_id (
            require "X-MCPB-Client-Secret" rc.client_secret (
              require "X-MCPB-Scopes" rc.scopes (require "X-MCPB-Audience" rc.audience (ok rc)))))))

module _ ⦃p : Platform⦄ where
  unfoldable pub persist_encrypted : ResourceConfig → Cipher → Action (Result Done)
  persist_encrypted rc c =
      attempt "PersistEncrypted encrypt" (encrypt c (p.utf8 rc.client_secret)) λ enc. do
        t ← now
        upsert_resource_config (record {
          name = rc.name;
          provider_issuer = rc.provider_issuer;
          client_id = rc.client_id;
          client_secret_enc = enc;
          scopes = rc.scopes;
          audience = rc.audience;
          updated_at = t;
        })

  -- The public base is not stored.
  unfoldable open_row : ResourceRow → Bytes → ResourceConfig
  open_row row secret = record {
    name = row.name;
    public_base = "";
    provider_issuer = row.provider_issuer;
    client_id = row.client_id;
    client_secret = p.text secret;
    scopes = row.scopes;
    audience = row.audience;
  }

  unfoldable pub load_resource_config : Cipher → String → Action (Result (Option ResourceConfig))
  unfolding open_row
  load_resource_config c name = attempt "LoadResourceConfig" (get_resource_config name) λ found.
      on_option found
        (λ row.
          attempt_pure "LoadResourceConfig decrypt" (decrypt c row.client_secret_enc)
            λ secret. pure (ok (some (open_row row secret))))
        (pure (ok none))
