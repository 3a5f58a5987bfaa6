-- ===== src/Store/Rows.antt =====
-- The row types of sidecar/internal/store/repos.go and their columns for times, which hold Unix
-- seconds (sidecar/internal/store/sqlite.go). A Go `time.Time` is its number of nanoseconds since
-- 1970; `T.to_row` is what the INSERT binds, `T.of_row` what the SELECT's scan gives back.
use mcpbouncer.Prelude.{ℕ, ◌*◌, ◌/◌, ◌^◌, String, List, ◌≡◌, refl, ◌⊎◌, inl, inr}
use mcpbouncer.Store.Table.{Keyed}

abbrev pub Bytes : Type 0
Bytes = List ℕ

abbrev pub second : ℕ
second = 10 ^ 9

-- t.Unix()
unfoldable pub unix : ℕ → ℕ
unix t = t / second

-- time.Unix(s, 0)
unfoldable pub from_unix : ℕ → ℕ
from_unix s = s * second

-- A database write that succeeds, or the text of its error.
pub data Result {ℓ} (A : Type ℓ) : Type ℓ where
  ok : A → Result A
  err : String → Result A

pub Result-cases {ℓ} :
    {A : Type ℓ} (r : Result A) → ((a : A) × (r ≡ ok a)) ⊎ ((e : String) × (r ≡ err e))
Result-cases (ok a) = inl (a, refl)
Result-cases (err e) = inr (e, refl)

pub data KeyStatus : Type 0 where
  next active retiring : KeyStatus

pub record SigningKey : Type 0 where
  pub kid : String
  pub alg : String
  pub private_pem : Bytes
  pub public_pem : Bytes
  pub created_at : ℕ
  pub retires_at : ℕ
  pub status : KeyStatus

pub record Client : Type 0 where
  pub client_id : String
  pub client_secret_hash : String
  pub redirect_uris_json : String
  pub registration_access_token_hash : String
  pub resource : String
  pub scopes : String
  pub created_at : ℕ
  pub last_used_at : ℕ

pub record AuthSession : Type 0 where
  pub state : String
  pub code_challenge : String
  pub code_challenge_method : String
  pub redirect_uri : String
  pub client_id : String
  pub resource : String
  pub scopes : String
  pub provider_issuer : String
  pub public_base : String
  pub upstream_state : String
  pub upstream_pkce_verifier : String
  pub original_state : String
  pub created_at : ℕ
  pub expires_at : ℕ

pub record Code : Type 0 where
  pub code : String
  pub client_id : String
  pub resource : String
  pub sub : String
  pub claims_json : String
  pub upstream_refresh_enc : Bytes
  pub scopes : String
  pub redirect_uri : String
  pub code_challenge : String
  pub code_challenge_method : String
  pub expires_at : ℕ

pub record RefreshToken : Type 0 where
  pub token_hash : String
  pub sub : String
  pub resource : String
  pub client_id : String
  pub claims_json : String
  pub upstream_refresh_enc : Bytes
  pub scopes : String
  pub expires_at : ℕ

pub record ResourceRow : Type 0 where
  pub name : String
  pub provider_issuer : String
  pub client_id : String
  pub client_secret_enc : Bytes
  pub scopes : String
  pub audience : String
  pub updated_at : ℕ

pub record EncryptionKey : Type 0 where
  pub key_id : String
  pub material : Bytes
  pub status : String
  pub created_at : ℕ

pub record AuditRow : Type 0 where
  pub event_type : String
  pub client_id : String
  pub sub : String
  pub ip : String
  pub success : ℕ
  pub details_json : String
  pub timestamp : ℕ

-- The primary keys of `migrate`.
instance abbrev pub SigningKey-keyed : Keyed SigningKey
SigningKey-keyed = record { key = λ r. r.kid }

instance abbrev pub Client-keyed : Keyed Client
Client-keyed = record { key = λ r. r.client_id }

instance abbrev pub AuthSession-keyed : Keyed AuthSession
AuthSession-keyed = record { key = λ r. r.state }

instance abbrev pub Code-keyed : Keyed Code
Code-keyed = record { key = λ r. r.code }

instance abbrev pub RefreshToken-keyed : Keyed RefreshToken
RefreshToken-keyed = record { key = λ r. r.token_hash }

instance abbrev pub ResourceRow-keyed : Keyed ResourceRow
ResourceRow-keyed = record { key = λ r. r.name }

instance abbrev pub EncryptionKey-keyed : Keyed EncryptionKey
EncryptionKey-keyed = record { key = λ r. r.key_id }

-- The database: one list of rows for each table.
pub record Db : Type 0 where
  pub signing_keys : List SigningKey
  pub clients : List Client
  pub auth_sessions : List AuthSession
  pub codes : List Code
  pub refresh_tokens : List RefreshToken
  pub resource_configs : List ResourceRow
  pub audit_events : List AuditRow
  pub encryption_keys : List EncryptionKey
