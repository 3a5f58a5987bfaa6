-- ===== src/Platform.antt =====
-- What the sidecar calls and does not implement: the clock, the random source, SQLite's failures,
-- hashes, encodings, JSON, PEM, Ed25519, AES-GCM, URLs, and HTTP to the provider. Each call that
-- may answer differently from time to time is given the number of the call in the run.
use mcpbouncer.Prelude.{ℕ, String, Bool, Option, List}
use mcpbouncer.Prelude.Int.{ℤ}
use mcpbouncer.Json.{Claims}
use mcpbouncer.Store.Rows.{Bytes, Result}

pub data PublicKey : Type 0 where
  ed25519 : Bytes → PublicKey
  rsa : Bytes → ℕ → PublicKey
  other : PublicKey

pub record HttpReply : Type 0 where
  pub status : ℕ
  pub body : Result Bytes

-- oidc.Provider
pub record Provider : Type 0 where
  pub issuer : String
  pub auth_endpoint : String
  pub token_endpoint : String
  pub userinfo_endpoint : String
  pub jwks_uri : String

-- oidc.TokenResponse; its `token_type`, `scope` and `expires_in` are read by nothing.
pub record TokenResponse : Type 0 where
  pub access_token : String
  pub refresh_token : String
  pub id_token : String

-- registerRequest of sidecar/internal/as/dcr.go; its client name and grant types change nothing.
pub record RegisterRequest : Type 0 where
  pub redirect_uris : List String
  pub scope : String

-- url.URL: its scheme, its host and its host without the port.
pub record Url : Type 0 where
  pub scheme : String
  pub host : String
  pub hostname : String

-- jwkEntry of plugin/jwks_cache.go
pub record JwkEntry : Type 0 where
  pub kty : String
  pub kid : String
  pub crv : String
  pub x : String
  pub n : String
  pub e : String

pub record Platform : Type 0 where
  -- The text of the error with which the call of SQLite fails, if it does.
  pub db_fault : ℕ → Option String
  -- The text of SQLite's error on a second row with one primary key.
  pub unique_violation : String
  -- time.Now(), in nanoseconds since 1970.
  pub clock : ℕ → ℕ
  -- io.ReadFull(rand.Reader, b) for a buffer of the given length.
  pub random : ℕ → ℕ → Result Bytes
  pub sha256 : Bytes → Bytes
  pub hex : Bytes → String
  -- []byte(s) and string(b).
  pub utf8 : String → Bytes
  pub text : Bytes → String
  -- base64.RawURLEncoding and base64.StdEncoding, RawStdEncoding, URLEncoding, RawURLEncoding.
  pub base64url : Bytes → String
  pub base64url_decode : String → Result Bytes
  pub base64_decoders : List (String → Result Bytes)
  -- json.Marshal and json.Unmarshal at the types that the program uses.
  pub unmarshal_strings : String → Option (List String)
  pub marshal_strings : List String → Result String
  pub unmarshal_claims : Bytes → Result Claims
  pub unmarshal_provider : Bytes → Result Provider
  pub unmarshal_token : Bytes → Result TokenResponse
  pub unmarshal_jwks : Bytes → Result (List JwkEntry)
  pub unmarshal_register : Bytes → Result RegisterRequest
  pub marshal_claims : Claims → Result String
  -- pem.Decode, x509.ParsePKCS8PrivateKey, x509.ParsePKIXPublicKey, and their inverses.
  pub pem_decode : Bytes → Option Bytes
  pub pem_encode : String → Bytes → Bytes
  pub parse_pkcs8 : Bytes → Result PublicKey
  pub parse_pkix : Bytes → Result PublicKey
  pub marshal_pkcs8 : Bytes → Result Bytes
  pub marshal_pkix : Bytes → Result Bytes
  -- ed25519.GenerateKey(rand.Reader): the public and the private key.
  pub generate_key : ℕ → Result (Bytes × Bytes)
  pub ed25519_sign : Bytes → Bytes → Bytes
  pub ed25519_verify : Bytes → Bytes → Bytes → Bool
  -- rsa.VerifyPKCS1v15 succeeds: the modulus, the exponent, the digest and the signature.
  pub rsa_verify : Bytes → ℕ → Bytes → Bytes → Bool
  -- An AES-256-GCM cipher with a key: Seal and Open at a nonce.
  pub gcm_seal : Bytes → Bytes → Bytes → Bytes
  pub gcm_open : Bytes → Bytes → Bytes → Result Bytes
  -- os.Getenv
  pub getenv : String → String
  -- httpClient.Do for a GET (url, Authorization header) and for a POST (url, form).
  pub http_get : ℕ → String → String → Result HttpReply
  pub http_post : ℕ → String → List (String × String) → Result HttpReply
  -- strings.TrimSpace
  pub trim_space : String → String
  -- url.ParseRequestURI, and the match of `schemeRe`.
  pub parse_request_uri : String → Result Url
  pub scheme_matches : String → Bool
  -- url.Parse succeeds.
  pub url_ok : String → Bool
  -- fmt.Sprintf("%d", n) and strconv.Atoi.
  pub decimal : ℕ → String
  pub atoi : String → Result ℤ
  -- time.ParseDuration, in nanoseconds.
  pub parse_duration : String → Result ℤ
  -- The host of net.SplitHostPort.
  pub split_host_port : String → Result String
  -- strings.ToLower
  pub to_lower : String → String
  -- base64.StdEncoding.EncodeToString
  pub base64_std : Bytes → String
