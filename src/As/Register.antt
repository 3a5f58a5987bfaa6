-- ===== src/As/Register.antt =====
-- sidecar/internal/as/dcr.go: dynamic client registration (RFC 7591).
use mcpbouncer.Prelude.{
  ℕ, Done, String, Bool, true, false, not, ◌&&◌, ◌||◌, Option, none, some, List, [], ◌∷◌, ◌==◌,
  ◌<>◌, contains_string, if◌then◌else◌,
}
use mcpbouncer.Prelude.Strings.{strip_prefix}
use mcpbouncer.Platform.{Platform, RegisterRequest, Url}
use mcpbouncer.Action.{
  on_option, Action, Response, register_body, ◌>>=◌, ◌>>◌, pure, must, fail, reject_if, now,
  read_random,
}
use mcpbouncer.Store.Rows.{ok, err, Client}
use mcpbouncer.Store.Clients.{insert_client}
use mcpbouncer.Http.{Request, write_json}
use mcpbouncer.Config.{ResourceConfig}
use mcpbouncer.Tokens.{hash_token}

abbrev pub scheme_denylist : List String
scheme_denylist = "javascript" ∷ "data" ∷ "file" ∷ "vbscript" ∷ "blob" ∷ "about" ∷ []

module _ ⦃p : Platform⦄ where
  -- The reason to refuse a URI that parses.
  unfoldable pub check_url : String → Url → Option String
  check_url raw u =
      if u.scheme == "" || u.host == ""
      then some ("invalid redirect_uri: " <> raw)
      else if contains_string scheme_denylist u.scheme
      then some ("redirect_uri scheme not allowed: " <> u.scheme)
      else if u.scheme == "https" || u.scheme == "mcp"
      then none
      else if u.scheme == "http"
      then if not (u.hostname == "localhost") && not (u.hostname == "127.0.0.1")
        then some ("http redirect_uri only allowed for localhost or 127.0.0.1, got: " <> raw)
        else none
      else if not (p.scheme_matches u.scheme)
      then some ("redirect_uri has invalid scheme: " <> u.scheme)
      else none

  -- validateRedirectURI: none stands for the empty description.
  unfoldable pub validate_redirect_uri : String → Option String
  validate_redirect_uri raw = elim (p.parse_request_uri raw) [
    | err e ↦ some ("invalid redirect_uri: " <> raw)
    | ok u ↦ check_url raw u
  ]

  -- The loop over the URIs: the first that is refused ends the request.
  unfoldable pub check_uris : List String → Action Done
  check_uris [] = pure tt
  check_uris (u ∷ us) =
      on_option (validate_redirect_uri u) (fail 400 "invalid_redirect_uri") (check_uris us)

  -- The token behind "Bearer ", empty where there is none.
  unfoldable pub bearer_or_empty : String → String
  bearer_or_empty header = elim (strip_prefix "Bearer " header) [ some s ↦ s | none ↦ "" ]

  unfoldable pub check_initial_token : Request → Action Done
  check_initial_token r =
      let initial = p.getenv "BOUNCER_DCR_INITIAL_TOKEN" in
      if initial == ""
      then pure tt
      else reject_if (not (bearer_or_empty (r.header "Authorization") == initial))
          (fail 401 "invalid_token" "valid Bearer token required for registration")

  abbrev is_empty : List String → Bool
  is_empty [] = true
  is_empty (_ ∷ _) = false

  unfoldable pub read_registration : Request → Action RegisterRequest
  read_registration r = do
    reject_if (not (r.method == "POST")) (fail 405 "invalid_request" "method not allowed")
    check_initial_token r
    body ← must (pure r.body) (λ _. fail 400 "invalid_request" "cannot read body")
    req ← must (pure (p.unmarshal_register body)) (λ _. fail 400 "invalid_request" "invalid JSON")
    reject_if (is_empty req.redirect_uris)
        (fail 400 "invalid_redirect_uri" "at least one redirect_uri required")
    check_uris req.redirect_uris
    pure req

  -- The new client's row; its zero `last_used_at` is filled in by the insert.
  unfoldable pub client_of :
      ResourceConfig → RegisterRequest → (id secret rat uris_json : String) → ℕ → Client
  client_of rc req id secret rat uris_json t = record {
    client_id = id;
    client_secret_hash = hash_token secret;
    redirect_uris_json = uris_json;
    registration_access_token_hash = hash_token rat;
    resource = rc.name;
    scopes = if req.scope == "" then rc.scopes else req.scope;
    created_at = t;
    last_used_at = 0;
  }

  -- From the request on: the client's identifiers and secrets are drawn, and its row is stored.
  unfoldable pub save_client : ResourceConfig → RegisterRequest → Action Response
  save_client rc req = do
    id_bytes ← must (read_random 16) (λ _. fail 500 "server_error" "failed to generate client_id")
    secret_bytes ← must (read_random 32) (λ _. fail 500 "server_error" "failed to generate secret")
    rat_bytes ←
        must (read_random 32)
          (λ _. fail 500 "server_error" "failed to generate registration_access_token")
    let id = p.hex id_bytes
    let secret = p.base64url secret_bytes
    let rat = p.base64url rat_bytes
    uris_json ←
        must (pure (p.marshal_strings req.redirect_uris))
          (λ _. fail 500 "server_error" "failed to serialize redirect_uris")
    t ← now
    must (insert_client (client_of rc req id secret rat uris_json t))
        (λ _. fail 500 "server_error" "failed to persist client")
    pure (
        write_json 201 (
          register_body id secret rat (rc.public_base <> "/oauth/register/" <> id)
            req.redirect_uris))

  unfoldable pub handle_register : ResourceConfig → Request → Action Response
  handle_register rc r = do req ← read_registration r; save_client rc req
