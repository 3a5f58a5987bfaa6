-- ===== src/Tests/World.antt =====
-- A platform, a database and requests to run the program on.
use Prim.Native.Char.{code}
use Prim.Native.String.{[], ◌∷◌}
use mcpbouncer.Prelude.{
  ℕ, zero, suc, ◌+◌, ◌*◌, String, ◌≡◌, refl, ap, true, false, none, some, List, ◌==◌, arith,
  nat_beq, length, if◌then◌else◌,
}
use mcpbouncer.Prelude.Int.{pos}
use mcpbouncer.Prelude.Strings.{cut_dot}
use mcpbouncer.Json.{Claims, str, num, get_claim}
use mcpbouncer.Platform.{Platform, ed25519}
use mcpbouncer.Store.Rows.{
  Bytes, ok, err, second, Db, AuthSession, Client, Code, RefreshToken, SigningKey, active,
}
use mcpbouncer.Action.{World}
use mcpbouncer.Http.{Request}
use mcpbouncer.Config.{ResourceConfig}
use mcpbouncer.Tokens.{Issuer}
use mcpbouncer.Crypto.{Cipher}

abbrev pub codes_of : String → Bytes
codes_of [] = List.[]
codes_of (c ∷ s) = List.◌∷◌ (code c) (codes_of s)

abbrev pub times : ℕ → ℕ → Bytes
times zero b = List.[]
times (suc n) b = List.◌∷◌ b (times n b)

pub times-length : (n b : ℕ) → length (times n b) ≡ n
times-length zero b = refl
times-length (suc n) b = ap suc (times-length n b)

-- A number as that many letters `a` and one `b`.
abbrev unary : ℕ → String → String
unary zero s = "b" ∷ s
unary (suc n) s = "a" ∷ unary n s

abbrev pub encode : Bytes → String
encode List.[] = []
encode (List.◌∷◌ b bs) = unary b (encode bs)

abbrev pub decode : ℕ → String → Bytes
decode n [] = List.[]
decode n (c ∷ s) =
    let more = decode (suc n) s in
    let rest = List.◌∷◌ n (decode 0 s) in if nat_beq (code c) b'a' then more else rest

decode-unary : (n k : ℕ) (s : String) → decode k (unary n s) ≡ List.◌∷◌ (k + n) (decode 0 s)
decode-unary zero k s = ground arith
decode-unary (suc n) k s = ground (arith, decode-unary n (suc k) s)

pub decode-encode : (b : Bytes) → decode 0 (encode b) ≡ b
decode-encode List.[] = refl
decode-encode (List.◌∷◌ b bs) = ground (arith, decode-unary b 0 (encode bs), decode-encode bs)

cut_dot-unary : (n : ℕ) (s : String) → cut_dot s ≡ none → cut_dot (unary n s) ≡ none
unfolding cut_dot
cut_dot-unary zero s h = ground arith
cut_dot-unary (suc n) s h = ground (arith, cut_dot-unary n s h)

pub cut_dot-encode : (b : Bytes) → cut_dot (encode b) ≡ none
unfolding cut_dot
cut_dot-encode List.[] = refl
cut_dot-encode (List.◌∷◌ b bs) = cut_dot-unary b (encode bs) (cut_dot-encode bs)

abbrev pub token_header : Claims
token_header = List.◌∷◌ ("alg", str "EdDSA") (List.◌∷◌ ("kid", str "key") List.[])

abbrev pub token_claims : Claims
token_claims =
    List.◌∷◌ ("iss", str "https://a")
      (List.◌∷◌ ("aud", str "https://a")
        (List.◌∷◌ ("exp", num (pos 2000))
          (List.◌∷◌ ("sub", str "ann") (List.◌∷◌ ("scope", str "read") List.[]))))

-- The database answers, the clock stands, and every signature is accepted.
instance abbrev pub test_platform : Platform
test_platform = record {
  db_fault = λ n. none;
  unique_violation = "UNIQUE constraint failed";
  clock = λ n. 1000 * second;
  random = λ n k. ok (times k n);
  sha256 = λ b. List.◌∷◌ (length b) List.[];
  hex = encode;
  utf8 = codes_of;
  text = λ b. "k1";
  base64url = encode;
  base64url_decode = λ s. ok (decode 0 s);
  base64_decoders = List.[];
  unmarshal_strings = λ s. if s == "u" then some (List.◌∷◌ "u" List.[]) else none;
  marshal_strings = λ l. ok "";
  unmarshal_claims = λ b. if nat_beq (length b) 1 then ok token_header else ok token_claims;
  unmarshal_provider = λ b. err "";
  unmarshal_token = λ b. ok (record { access_token = "up"; refresh_token = ""; id_token = "" });
  unmarshal_jwks = λ b. ok List.[];
  unmarshal_register =
      λ b. ok (record { redirect_uris = List.◌∷◌ "https://x" List.[]; scope = "" });
  marshal_claims = λ c. ok (elim (get_claim c "alg") [ some v ↦ "h" | none ↦ "cc" ]);
  pem_decode = λ b. some b;
  pem_encode = λ s b. b;
  parse_pkcs8 = λ b. ok (ed25519 b);
  parse_pkix = λ b. ok (ed25519 b);
  marshal_pkcs8 = λ b. ok b;
  marshal_pkix = λ b. ok b;
  generate_key = λ n. ok (times 1 n, times 1 n);
  ed25519_sign = λ k m. times 2 3;
  ed25519_verify = λ k m s. true;
  rsa_verify = λ n e d s. false;
  gcm_seal = λ k n b. b;
  gcm_open = λ k n b. ok b;
  getenv = λ s. "";
  http_get = λ n url authorization. err "down";
  http_post = λ n url form.
      if url == "https://idp/token"
      then ok (record { status = 200; body = ok List.[] })
      else err "down";
  trim_space = λ s. s;
  parse_request_uri = λ s.
      if s == "https://x"
      then ok (record { scheme = "https"; host = "x"; hostname = "x" })
      else err "";
  scheme_matches = λ s. true;
  url_ok = λ s. true;
  decimal = λ n. unary n "";
  atoi = λ s. if s == "0" then ok (pos 0) else if s == "no" then err "" else ok (pos 200000);
  parse_duration = λ s. if s == "90m" then ok (pos (5400 * second)) else err "";
  split_host_port = λ s. if s == "1.2.3.4:5" then ok "1.2.3.4" else err "";
  to_lower = λ s. s;
  base64_std = encode;
}

abbrev pub test_client : Client
test_client = record {
  client_id = "c";
  client_secret_hash = "";
  redirect_uris_json = "u";
  registration_access_token_hash = "";
  resource = "r";
  scopes = "read";
  created_at = 1;
  last_used_at = 1;
}

abbrev pub test_code : Code
test_code = record {
  code = "x";
  client_id = "c";
  resource = "r";
  sub = "ann";
  claims_json = "";
  upstream_refresh_enc = List.[];
  scopes = "read";
  redirect_uri = "u";
  code_challenge = encode (List.◌∷◌ 1 List.[]);
  code_challenge_method = "S256";
  expires_at = 1001;
}

abbrev pub test_token : RefreshToken
test_token = record {
  token_hash = encode (List.◌∷◌ 1 List.[]);
  sub = "ann";
  resource = "r";
  client_id = "c";
  claims_json = "";
  upstream_refresh_enc = List.[];
  scopes = "read";
  expires_at = 1001;
}

abbrev pub test_key : SigningKey
test_key = record {
  kid = "key";
  alg = "EdDSA";
  private_pem = List.[];
  public_pem = List.[];
  created_at = 1;
  retires_at = 2;
  status = active;
}

abbrev pub test_db : Db
test_db = record {
  signing_keys = List.◌∷◌ test_key List.[];
  clients = List.◌∷◌ test_client List.[];
  auth_sessions = List.[];
  codes = List.◌∷◌ test_code List.[];
  refresh_tokens = List.◌∷◌ test_token List.[];
  resource_configs = List.[];
  audit_events = List.[];
  encryption_keys = List.[];
}

abbrev pub test_world : World
test_world = record { db = test_db; providers = List.[]; step = 0 }

abbrev pub test_rc : ResourceConfig
test_rc = record {
  name = "r";
  public_base = "https://a";
  provider_issuer = "https://idp";
  client_id = "up";
  client_secret = "s";
  scopes = "read";
  audience = "a";
}

abbrev pub test_issuer : Issuer
test_issuer = record {
  rotator = record { rotation_interval = 100; overlap = 10; max_token_ttl = 10 };
  access_ttl = 3600 * second;
  refresh_ttl = 7200 * second;
}

abbrev pub test_cipher : Cipher
test_cipher = record { keys = List.◌∷◌ ("k1", times 32 1) List.[]; active_id = "k1"; legacy = none }

-- A POST of a form to a path.
abbrev pub post : String → (String → String) → Request
post path form = record {
  method = "POST";
  path = path;
  header = λ s. "";
  query = λ s. "";
  form_value = form;
  form_ok = true;
  basic_auth = none;
  body = err "";
  remote_addr = "1.2.3.4:5";
}

abbrev pub code_form : String → String
code_form k =
    if k == "client_id"
    then "c"
    else if k == "grant_type"
    then "authorization_code"
    else if k == "code"
    then "x"
    else if k == "redirect_uri"
    then "u"
    else if k == "code_verifier"
    then "v"
    else ""

abbrev pub refresh_form : String → String
refresh_form k = if k == "refresh_token" then "t" else if k == "client_id" then "d" else ""

-- A login that is under way.
abbrev pub test_session : AuthSession
test_session = record {
  state = "st";
  code_challenge = "h";
  code_challenge_method = "S256";
  redirect_uri = "u";
  client_id = "c";
  resource = "r";
  scopes = "read";
  provider_issuer = "https://idp";
  public_base = "https://a";
  upstream_state = "st";
  upstream_pkce_verifier = "v";
  original_state = "";
  created_at = 990;
  expires_at = 1001;
}

-- The provider is cached, and the login is stored.
abbrev pub login_world : World
login_world = record {
  db = record test_db { auth_sessions = List.◌∷◌ test_session List.[] };
  providers =
      List.◌∷◌
        (
          "https://idp",
          record {
            issuer = "https://idp";
            auth_endpoint = "https://idp/auth";
            token_endpoint = "https://idp/token";
            userinfo_endpoint = "";
            jwks_uri = "";
          },
        )
        List.[];
  step = 0;
}

abbrev pub get_request : String → (String → String) → Request
get_request path query = record (post path (λ k. "")) { method = "GET"; query = query }
