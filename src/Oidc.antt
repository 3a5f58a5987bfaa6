-- ===== src/Oidc.antt =====
-- sidecar/internal/oidc/upstream.go: discovery of the provider with its cache, and the requests to
-- the provider's endpoints.
use mcpbouncer.Prelude.{
  String, not, Option, none, some, List, [], ◌∷◌, ◌++◌, ◌==◌, ◌<>◌, nat_beq, if◌then◌else◌,
}
use mcpbouncer.Prelude.Strings.{trim_right_slashes, split_dots}
use mcpbouncer.Json.{Claims}
use mcpbouncer.Platform.{Platform, Provider, TokenResponse, HttpReply}
use mcpbouncer.Action.{on_option, Action, ret, ◌>>=◌, pure, attempt, attempt_pure, tick}
use mcpbouncer.Store.Rows.{Result, ok, err}

unfoldable pub cached : String → List (String × Provider) → Option Provider
cached issuer [] = none
cached issuer ((j, q) ∷ qs) = if j == issuer then some q else cached issuer qs

module _ ⦃p : Platform⦄ where
  unfoldable pub get : String → String → Action (Result HttpReply)
  get url authorization w = (ret (p.http_get w.step url authorization), tick w)

  unfoldable pub post : String → List (String × String) → Action (Result HttpReply)
  post url form w = (ret (p.http_post w.step url form), tick w)

  unfoldable pub look_up : String → Action (Option Provider)
  look_up issuer w = (ret (cached issuer w.providers), w)

  unfoldable pub remember : String → Provider → Action (Result Provider)
  remember issuer q w = (ret (ok q), record w { providers = (issuer, q) ∷ w.providers })

  unfoldable well_known_url : String → String
  well_known_url issuer = trim_right_slashes issuer <> "/.well-known/openid-configuration"

  -- From the reply to the request on.
  unfoldable pub accept : String → HttpReply → Action (Result Provider)
  unfolding remember
  accept issuer reply =
      if not (nat_beq reply.status 200)
      then pure (err "Discover: unexpected status")
      else attempt_pure "Discover read" reply.body λ body.
        attempt_pure "Discover parse" (p.unmarshal_provider body) λ meta.
          if not (meta.issuer == issuer)
          then pure (err "Discover: issuer mismatch")
          else remember issuer meta

  unfoldable pub fetch_provider : String → Action (Result Provider)
  unfolding accept well_known_url
  fetch_provider issuer =
      if not (p.url_ok (well_known_url issuer))
      then pure (err "Discover new request")
      else attempt "Discover fetch" (get (well_known_url issuer) "") (accept issuer)

  unfoldable pub discover : String → Action (Result Provider)
  unfolding look_up
  discover issuer = do
    found ← look_up issuer
    on_option found (λ q. pure (ok q)) (fetch_provider issuer)

  unfoldable pub post_token : String → List (String × String) → Action (Result TokenResponse)
  post_token endpoint form =
      if not (p.url_ok endpoint)
      then pure (err "postToken new request")
      else attempt "postToken do" (post endpoint form) λ reply.
        attempt_pure "postToken read" reply.body λ body.
          if not (nat_beq reply.status 200)
          then pure (err "postToken: status")
          else attempt_pure "postToken parse" (p.unmarshal_token body) λ tr. pure (ok tr)

  unfoldable pub exchange_code :
      Provider
      → (client_id client_secret code redirect_uri code_verifier : String)
      → Action (Result TokenResponse)
  exchange_code q client_id client_secret code redirect_uri code_verifier =
      post_token q.token_endpoint (
        (("grant_type", "authorization_code")
          ∷ ("code", code)
          ∷ ("redirect_uri", redirect_uri)
          ∷ ("client_id", client_id)
          ∷ ("client_secret", client_secret)
          ∷ [])
        ++ (if code_verifier == "" then [] else ("code_verifier", code_verifier) ∷ []))

  unfoldable pub refresh_tokens :
      Provider → (client_id client_secret refresh_token : String) → Action (Result TokenResponse)
  refresh_tokens q client_id client_secret refresh_token = post_token q.token_endpoint (
      ("grant_type", "refresh_token")
      ∷ ("refresh_token", refresh_token)
      ∷ ("client_id", client_id)
      ∷ ("client_secret", client_secret)
      ∷ [])

  -- A reply that is no success, or does not parse, gives no claims.
  unfoldable read_userinfo : HttpReply → Result Claims
  read_userinfo reply = elim reply.body [
    | err e ↦ err ("Userinfo read: " <> e)
    | ok body ↦
        if not (nat_beq reply.status 200)
        then ok []
        else elim (p.unmarshal_claims body) [ ok claims ↦ ok claims | err e ↦ ok [] ]
  ]

  unfoldable pub userinfo : Provider → String → Action (Result Claims)
  unfolding read_userinfo
  userinfo q access_token =
      if q.userinfo_endpoint == ""
      then pure (ok [])
      else if not (p.url_ok q.userinfo_endpoint)
      then pure (err "Userinfo new request")
      else attempt "Userinfo do" (get q.userinfo_endpoint ("Bearer " <> access_token))
          λ reply. pure (read_userinfo reply)

  -- The claims of a token of three parts, with no check of its signature.
  unfoldable pub decode_id_token : String → Result Claims
  decode_id_token id_token = elim (split_dots id_token) [
    | none ↦ err "DecodeIDToken: malformed JWT"
    | some (h, payload, s) ↦ elim (p.base64url_decode payload) [
      | err e ↦ err ("DecodeIDToken decode payload: " <> e)
      | ok bytes ↦ elim (p.unmarshal_claims bytes) [
        | err e ↦ err ("DecodeIDToken parse claims: " <> e)
        | ok claims ↦ ok claims
      ]
    ]
  ]
