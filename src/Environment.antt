-- ===== src/Environment.antt =====
-- sidecar/cmd/bouncer/main.go: the settings that are read from the environment, and what is built from
-- them before the server listens; sidecar/internal/logx/level.go: the level of the log.
pub mod Ranges
use mathlib.Core.Option
use mcpbouncer.Prelude.{
  ◌||◌, ℕ, ◌*◌, String, Option, none, some, List, [], ◌==◌, if◌then◌else◌, ltb,
}
use mcpbouncer.Prelude.Int.{ℤ, pos, negsuc, pos_part, ltb_ℤ, wrap64}
use mcpbouncer.Platform.{Platform}
use mcpbouncer.Action.{World, Outcome, ret, exit, Action, ◌>>=◌, pure, attempt, attempt_step}
use mcpbouncer.Store.Rows.{Result, ok, err, second}
use mcpbouncer.Crypto.{Cipher, new_cipher_with_store}
use mcpbouncer.Keys.{Rotator, ensure, hour}
use mcpbouncer.Tokens.{Issuer}
use mcpbouncer.Audit.{new_logger, default_buffer_size}
use mcpbouncer.Process.{Process, Server}

abbrev pub day : ℕ
day = 24 * hour

-- The values that `main` reads. A duration is an int64 of nanoseconds.
pub record Settings : Type 0 where
  pub db_path : String
  pub listen_addr : String
  pub encryption_key : String
  pub rotation : ℤ
  pub overlap : ℤ
  pub access_ttl : ℤ
  pub refresh_ttl : ℤ
  pub client_ttl : ℤ
  pub register_limit : ℤ
  pub register_window : ℤ
  pub metrics_addr : String

-- The levels of slog that `ParseLevel` gives, with the -8 of `LevelTrace`.
pub data Level : Type 0 where
  trace debug info warn error : Level

-- `err != nil || n <= 0`: the default, in the place of what is no positive number.
unfoldable pub positive_or : ℤ → (ℕ → ℤ) → Result ℤ → ℤ
positive_or default f (ok (pos n)) = if ltb 0 n then f n else default
positive_or default f (ok (negsuc n)) = default
positive_or default f (err e) = default

-- time.Duration(n) * unit
unfoldable pub scaled : ℕ → ℕ → ℤ
unfolding wrap64
scaled unit n = wrap64 (pos (n * unit))

module _ ⦃p : Platform⦄ where
  unfoldable pub env_or : String → String → String
  env_or key default = let v = p.getenv key in if v == "" then default else v

  unfoldable pub env_int : String → ℕ → ℤ
  unfolding positive_or
  env_int key default =
      let v = p.getenv key in
      if v == "" then pos default else positive_or (pos default) pos (p.atoi v)

  -- none: the process exits with status 1.
  unfoldable pub must_env : String → Option String
  must_env key = let v = p.getenv key in if v == "" then none else some v

  unfoldable pub env_duration : String → ℕ → ℕ → ℤ
  unfolding positive_or scaled
  env_duration key default unit =
      let v = p.getenv key in
      if v == ""
      then scaled unit default
      else positive_or (positive_or (scaled unit default) (scaled unit) (p.atoi v)) pos
          (p.parse_duration v)

  -- What is read besides the key.
  unfoldable pub settings_with : String → Settings
  unfolding env_or env_int env_duration
  settings_with key = record {
    db_path = env_or "BOUNCER_DB_PATH" "/data/bouncer.db";
    listen_addr = env_or "BOUNCER_LISTEN_ADDR" ":8080";
    encryption_key = key;
    rotation = env_duration "BOUNCER_KEY_ROTATION_DAYS" 30 day;
    overlap = env_duration "BOUNCER_KEY_OVERLAP_HOURS" 24 hour;
    access_ttl = env_duration "BOUNCER_ACCESS_TOKEN_TTL" 1 hour;
    refresh_ttl = env_duration "BOUNCER_REFRESH_TOKEN_TTL" 30 day;
    client_ttl = env_duration "BOUNCER_CLIENT_TTL_DAYS" 90 day;
    register_limit = env_int "BOUNCER_REGISTER_RATE_LIMIT" 10;
    register_window = env_duration "BOUNCER_REGISTER_RATE_WINDOW" 1 hour;
    metrics_addr = env_or "BOUNCER_METRICS_ADDR" ":9090";
  }

  unfoldable pub read_settings : Option Settings
  unfolding must_env settings_with
  read_settings = Option.map settings_with (must_env "BOUNCER_ENCRYPTION_KEY")

  unfoldable pub parse_level : String → Level
  parse_level s =
      let v = p.to_lower (p.trim_space s) in
      if v == "trace"
      then trace
      else if v == "debug"
      then debug
      else if v == "info" || v == ""
      then info
      else if v == "warn" || v == "warning"
      then warn
      else if v == "error" || v == "err"
      then error
      else info

  -- keys.New and tokens.NewIssuer. Here and below, durations that an overflow has made negative are
  -- not followed any further.
  unfoldable pub issuer_of : Settings → Issuer
  issuer_of st = record {
    rotator = record {
      rotation_interval = pos_part st.rotation;
      overlap = pos_part st.overlap;
      max_token_ttl = pos_part st.access_ttl;
    };
    access_ttl = pos_part st.access_ttl;
    refresh_ttl = pos_part st.refresh_ttl;
  }

  -- What is there when the server listens, once the cipher is there: httpx.NewLimiter has no
  -- buckets, and audit.NewSQLiteLogger no events.
  unfoldable pub server_of : Settings → Cipher → Server
  unfolding issuer_of
  server_of st cipher = record {
    issuer = issuer_of st;
    cipher = cipher;
    limiter = record { limit = pos_part st.register_limit; window = pos_part st.register_window };
    client_ttl = pos_part st.client_ttl;
  }

  abbrev pub process_of : World → Process
  process_of w = record { world = w; buckets = []; audit = new_logger default_buffer_size }

  -- From the opened database to the server. An error ends the process with status 1.
  unfoldable pub boot : Settings → Action (Result Server)
  unfolding server_of
  boot st =
      attempt_step (new_cipher_with_store st.encryption_key)
        λ cipher. attempt_step (ensure (issuer_of st).rotator) λ _. pure (ok (server_of st cipher))
