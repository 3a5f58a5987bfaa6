-- ===== src/As/Neutral.antt =====
-- The parts of the endpoints (sidecar/internal/as, tokens, oidc, crypto, keys) that write to no table:
-- whatever holds of the database holds behind them.
use mcpbouncer.Prelude.{[], ◌∷◌, String, List}
use mcpbouncer.Platform.{Platform, Provider, TokenResponse}
use mcpbouncer.Json.{Claims}
use mcpbouncer.Action.Keeps.{Keeps, Keeps-pure, keeps_rules, Keeps-on_result, Keeps-on_option}
use mcpbouncer.Store.Rows.{Bytes, Db, Client, RefreshToken, Code}
use mcpbouncer.Store.Reads.{read_rules}
use mcpbouncer.Crypto.{Cipher, encrypt, encrypt_with}
use mcpbouncer.Config.{ResourceConfig}
use mcpbouncer.Tokens.{Issuer, mint_access_token, mint_refresh_token}
use mcpbouncer.Keys.{active_key, generate_ed25519, new_key}
use mcpbouncer.Oidc.{
  discover, look_up, remember, fetch_provider, accept, get, post, post_token, exchange_code,
  refresh_tokens, userinfo,
}
use mcpbouncer.As.Callback.{seal_upstream, user_claims}
use mcpbouncer.As.Register.{check_uris, check_initial_token, read_registration}
use mcpbouncer.Http.{Request}
use mcpbouncer.As.Clients.{read_credentials, find_client, check_secret}
use mcpbouncer.As.Token.{check_code}
use mcpbouncer.As.Token.Refresh.{refresh_upstream, check_refresh_token}

module _ ⦃p : Platform⦄ where
  -- What does not write to the tables keeps whatever holds of them.
  module _ {P : Db → Type 0} where
    pub active_key-Keeps : Keeps P active_key
    unfolding active_key
    active_key-Keeps = search (keeps_rules, read_rules) depth 8

    pub mint_access_token-Keeps :
        (i : Issuer) (rc : ResourceConfig) (sub scopes client_id : String) (extra : Claims)
        → Keeps P (mint_access_token i rc sub scopes client_id extra)
    unfolding mint_access_token
    mint_access_token-Keeps i rc sub scopes client_id extra =
        search (keeps_rules, active_key-Keeps) depth 12

    pub mint_refresh_token-Keeps : (i : Issuer) → Keeps P (mint_refresh_token i)
    unfolding mint_refresh_token
    mint_refresh_token-Keeps i = search keeps_rules depth 8

    pub read_credentials-Keeps : (r : Request) → Keeps P (read_credentials r)
    unfolding read_credentials
    read_credentials-Keeps r = search keeps_rules depth 8

    pub find_client-Keeps : (id : String) → Keeps P (find_client id)
    unfolding find_client
    find_client-Keeps id = search (keeps_rules, read_rules) depth 8

    pub check_secret-Keeps : (c : Client) (secret : String) → Keeps P (check_secret c secret)
    unfolding check_secret
    check_secret-Keeps c secret = search keeps_rules depth 8

    pub encrypt-Keeps : (c : Cipher) (b : Bytes) → Keeps P (encrypt c b)
    unfolding encrypt encrypt_with
    encrypt-Keeps c b = search keeps_rules depth 8

    pub get-Keeps : (url authorization : String) → Keeps P (get url authorization)
    unfolding get
    get-Keeps url authorization = record { at = λ w h. h }

    pub post-Keeps : (url : String) (form : List (String × String)) → Keeps P (post url form)
    unfolding post
    post-Keeps url form = record { at = λ w h. h }

    pub look_up-Keeps : (issuer : String) → Keeps P (look_up issuer)
    unfolding look_up
    look_up-Keeps issuer = record { at = λ w h. h }

    pub remember-Keeps : (issuer : String) (q : Provider) → Keeps P (remember issuer q)
    unfolding remember
    remember-Keeps issuer q = record { at = λ w h. h }

    pub discover-Keeps : (issuer : String) → Keeps P (discover issuer)
    unfolding discover fetch_provider accept
    discover-Keeps issuer = search (keeps_rules, get-Keeps, look_up-Keeps, remember-Keeps) depth 12

    pub post_token-Keeps :
        (endpoint : String) (form : List (String × String)) → Keeps P (post_token endpoint form)
    unfolding post_token
    post_token-Keeps endpoint form = search (keeps_rules, post-Keeps) depth 8

    pub exchange_code-Keeps :
        (q : Provider) (id secret code uri verifier : String)
        → Keeps P (exchange_code q id secret code uri verifier)
    unfolding exchange_code
    exchange_code-Keeps q id secret code uri verifier = post_token-Keeps _ _

    pub refresh_tokens-Keeps :
        (q : Provider) (id secret token : String) → Keeps P (refresh_tokens q id secret token)
    unfolding refresh_tokens
    refresh_tokens-Keeps q id secret token = post_token-Keeps _ _

    pub userinfo-Keeps : (q : Provider) (token : String) → Keeps P (userinfo q token)
    unfolding userinfo
    userinfo-Keeps q token = search (keeps_rules, get-Keeps) depth 8

    pub refresh_upstream-Keeps :
        (c : Cipher) (rc : ResourceConfig) (old : Bytes) → Keeps P (refresh_upstream c rc old)
    unfolding refresh_upstream
    refresh_upstream-Keeps c rc old =
        search (keeps_rules, discover-Keeps, refresh_tokens-Keeps, encrypt-Keeps) depth 12

    pub check_code-Keeps :
        (c : Client) (row : Code) (uri verifier : String) → Keeps P (check_code c row uri verifier)
    unfolding check_code
    check_code-Keeps c row uri verifier = search keeps_rules depth 12

    pub check_refresh_token-Keeps :
        (c : Client) (row : RefreshToken) → Keeps P (check_refresh_token c row)
    unfolding check_refresh_token
    check_refresh_token-Keeps c row = search keeps_rules depth 12

    pub seal_upstream-Keeps : (c : Cipher) (t : String) → Keeps P (seal_upstream c t)
    unfolding seal_upstream
    seal_upstream-Keeps c t = search (keeps_rules, encrypt-Keeps) depth 8

    pub user_claims-Keeps : (q : Provider) (tr : TokenResponse) → Keeps P (user_claims q tr)
    unfolding user_claims
    user_claims-Keeps q tr = search (keeps_rules, userinfo-Keeps) depth 8

    check_uris-Keeps : (us : List String) → Keeps P (check_uris us)
    unfolding check_uris
    check_uris-Keeps [] = Keeps-pure tt
    check_uris-Keeps (u ∷ us) = search (keeps_rules, check_uris-Keeps us) depth 6

    pub read_registration-Keeps : (r : Request) → Keeps P (read_registration r)
    unfolding read_registration check_initial_token
    read_registration-Keeps r = search (keeps_rules, check_uris-Keeps) depth 14

    pub new_key-Keeps : Keeps P new_key
    unfolding new_key
    new_key-Keeps = record { at = λ w h. h }

    pub generate_ed25519-Keeps : Keeps P generate_ed25519
    unfolding generate_ed25519
    generate_ed25519-Keeps = search (keeps_rules, new_key-Keeps) depth 8

pub ruleset neutral_rules = (
  keeps_rules, read_rules, active_key-Keeps, mint_access_token-Keeps, mint_refresh_token-Keeps,
  read_credentials-Keeps, find_client-Keeps, check_secret-Keeps, encrypt-Keeps, get-Keeps,
  post-Keeps, look_up-Keeps, remember-Keeps, discover-Keeps, post_token-Keeps, exchange_code-Keeps,
  refresh_tokens-Keeps, userinfo-Keeps, refresh_upstream-Keeps, check_code-Keeps,
  check_refresh_token-Keeps, seal_upstream-Keeps, user_claims-Keeps, read_registration-Keeps,
  new_key-Keeps, generate_ed25519-Keeps,
)
