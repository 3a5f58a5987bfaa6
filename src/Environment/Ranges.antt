-- ===== src/Environment/Ranges.antt =====
-- The ranges of the settings (sidecar/cmd/bouncer/main.go).
use mathlib.Core.Option
use mcpbouncer.Environment.{
  settings_with, ltb, Settings, day, positive_or, scaled, env_or, env_int, must_env, env_duration,
  read_settings,
}
use mcpbouncer.Prelude.{
  zero, suc, suc, lt→ltb, ltb→lt, ℕ, ◌*◌, ◌≤◌, ◌<◌, ◌^◌, String, ◌≡◌, ◌≢◌, refl, true, false, some,
  arith, Bool-cases, inl, inr, ◌==◌, eq_iff,
}
use mcpbouncer.Prelude.Int.{ℤ, pos, negsuc, pos_part, neg_part, wrap64}
use mcpbouncer.Platform.{Platform}
use mcpbouncer.Store.Rows.{Result, ok, err}
use mcpbouncer.Keys.{hour}

abbrev pub IsPositive : ℤ → Type 0
IsPositive a = 0 < pos_part a

scaled_exact : (unit n : ℕ) → n * unit < 2 ^ 63 → scaled unit n ≡ pos (n * unit)
unfolding scaled wrap64
scaled_exact unit n h = ground arith

scaled_wraps : (unit n : ℕ) → 2 ^ 63 ≤ n * unit → n * unit < 2 ^ 64 → 0 < neg_part (scaled unit n)
unfolding scaled wrap64
scaled_wraps unit n h k = ground arith

pos_factor : (n unit : ℕ) → 0 < n * unit → 0 < n
pos_factor zero unit h = ground arith
pos_factor (suc n) unit h = omega arith

scaled-IsPositive :
    (unit n : ℕ)
    → 0 < unit
    → 106751 * unit < 2 ^ 63
    → 0 < n
    → n ≤ 106751
    → IsPositive (scaled unit n)
scaled-IsPositive unit n u h k l =
    let fits : n * unit < 2 ^ 63 = grind arith in rw (scaled_exact unit n fits) (grind arith)

positive_or-IsPositive :
    (default : ℤ) (f : ℕ → ℤ) (r : Result ℤ)
    → IsPositive default
    → ((n : ℕ) → r ≡ ok (pos n) → 0 < n → IsPositive (f n))
    → IsPositive (positive_or default f r)
unfolding positive_or
positive_or-IsPositive default f (ok (pos n)) h k = elim (Bool-cases (ltb 0 n)) [
  | inl e ↦ rw (e, positive_or) (k n refl (ltb→lt 0 n e))
  | inr e ↦ rw (e, positive_or) h
]
positive_or-IsPositive default f (ok (negsuc n)) h k = h
positive_or-IsPositive default f (err e) h k = h

-- Every duration and the limit are positive, and the key and the addresses are not empty.
pub record IsUsable (st : Settings) : Type 0 where
  pub encryption_key : st.encryption_key ≢ ""
  pub listen_addr : st.listen_addr ≢ ""
  pub metrics_addr : st.metrics_addr ≢ ""
  pub rotation : IsPositive st.rotation
  pub overlap : IsPositive st.overlap
  pub access_ttl : IsPositive st.access_ttl
  pub refresh_ttl : IsPositive st.refresh_ttl
  pub client_ttl : IsPositive st.client_ttl
  pub register_limit : IsPositive st.register_limit
  pub register_window : IsPositive st.register_window

module _ ⦃p : Platform⦄ where
  env_or-ne : (key default : String) → default ≢ "" → env_or key default ≢ ""
  unfolding env_or
  env_or-ne key default h = ground (arith, eq_iff (p.getenv key) "")

  env_int-IsPositive : (key : String) (default : ℕ) → 0 < default → IsPositive (env_int key default)
  unfolding env_int
  env_int-IsPositive key default h = elim (Bool-cases (p.getenv key == "")) [
    | inl e ↦ rw (e, env_int) h
    | inr e ↦
        rw (e, env_int)
          (positive_or-IsPositive (pos default) pos (p.atoi (p.getenv key)) h (λ n _ k. k))
  ]

  module _ (small : (key : String) (n : ℕ) → p.atoi (p.getenv key) ≡ ok (pos n) → n ≤ 106751) where
    env_duration-IsPositive :
        (key : String) (default unit : ℕ)
        → 0 < unit
        → 106751 * unit < 2 ^ 63
        → 0 < default
        → default ≤ 106751
        → IsPositive (env_duration key default unit)
    unfolding env_duration
    env_duration-IsPositive key default unit u h k l =
        let fallback = scaled-IsPositive unit default u h k l in
        elim (Bool-cases (p.getenv key == "")) [
          | inl e ↦ rw (e, env_duration) fallback
          | inr e ↦
              let read =
                positive_or-IsPositive (scaled unit default) (scaled unit) (p.atoi (p.getenv key))
                  fallback
                  (λ n found above. scaled-IsPositive unit n u h above (small key n found)) in
              rw (e, env_duration)
                (positive_or-IsPositive _ pos (p.parse_duration (p.getenv key)) read
                  (λ n _ above. above))
        ]

    settings_with-IsUsable : (key : String) → key ≢ "" → IsUsable (settings_with key)
    unfolding settings_with
    settings_with-IsUsable key h = record {
      encryption_key = h;
      listen_addr = env_or-ne "BOUNCER_LISTEN_ADDR" ":8080" (cc);
      metrics_addr = env_or-ne "BOUNCER_METRICS_ADDR" ":9090" (cc);
      rotation =
          env_duration-IsPositive "BOUNCER_KEY_ROTATION_DAYS" 30 day (omega arith) (omega arith)
            (omega arith) (omega arith);
      overlap =
          env_duration-IsPositive "BOUNCER_KEY_OVERLAP_HOURS" 24 hour (omega arith) (omega arith)
            (omega arith) (omega arith);
      access_ttl =
          env_duration-IsPositive "BOUNCER_ACCESS_TOKEN_TTL" 1 hour (omega arith) (omega arith)
            (omega arith) (omega arith);
      refresh_ttl =
          env_duration-IsPositive "BOUNCER_REFRESH_TOKEN_TTL" 30 day (omega arith) (omega arith)
            (omega arith) (omega arith);
      client_ttl =
          env_duration-IsPositive "BOUNCER_CLIENT_TTL_DAYS" 90 day (omega arith) (omega arith)
            (omega arith) (omega arith);
      register_limit = env_int-IsPositive "BOUNCER_REGISTER_RATE_LIMIT" 10 (omega arith);
      register_window =
          env_duration-IsPositive "BOUNCER_REGISTER_RATE_WINDOW" 1 hour (omega arith) (omega arith)
            (omega arith) (omega arith);
    }

    must_env-some : (key : String) {v : String} → must_env key ≡ some v → v ≢ ""
    unfolding must_env
    must_env-some key h = ground (arith, eq_iff (p.getenv key) "")

    -- Where the process goes on from reading its environment, the key, the listen address and the
    -- metrics address are not empty, and every duration and the limit of registrations are positive,
    -- whatever the variables hold, provided that none holds an integer above 106751, which is the number of
    -- days that an int64 of nanoseconds can hold.
    pub read_settings-IsUsable : {st : Settings} → read_settings ≡ some st → IsUsable st
    unfolding read_settings
    read_settings-IsUsable h =
        let (key, found, same) = (Option.map-eq-some_iff _ _).0 h in
        rw (← same) (settings_with-IsUsable key (must_env-some "BOUNCER_ENCRYPTION_KEY" found))

  -- A plain integer that is too large for its unit gives a negative duration: from 2^63
  -- nanoseconds on, and below 2^64, the product has wrapped around.
  pub env_duration-overflow :
      (key : String) (default unit n : ℕ) (cause : String)
      → (p.getenv key == "") ≡ false
      → p.parse_duration (p.getenv key) ≡ err cause
      → p.atoi (p.getenv key) ≡ ok (pos n)
      → 2 ^ 63 ≤ n * unit
      → n * unit < 2 ^ 64
      → 0 < neg_part (env_duration key default unit)
  unfolding env_duration
  env_duration-overflow key default unit n cause e f g h k =
      let above : ltb 0 n ≡ true = lt→ltb 0 n (pos_factor n unit (omega arith)) in
      rw (e, f, g, env_duration, positive_or, above) (scaled_wraps unit n h k)
