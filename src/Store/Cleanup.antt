-- ===== src/Store/Cleanup.antt =====
-- The cleanup loop of sidecar/internal/store/janitor.go: what one tick takes, and what it leaves.
use mcpbouncer.Store.WellFormed.{IsWellFormed}
use mcpbouncer.Action.{ret, ◌>>=◌, pure, World, now, exec, attempt}
use mcpbouncer.Store.Rows.{
  Result, ok, SigningKey-keyed, Client-keyed, AuthSession-keyed, Code-keyed, RefreshToken-keyed,
  unix,
}
use mcpbouncer.Prelude.{
  if◌then◌else◌, inr, ◌∙◌, inl, Option-cases, Bool, ℕ, suc, ◌-◌, String, ◌≡◌, refl, not, Option,
  none, some, List, leb, keep, length,
}
use mcpbouncer.Platform.{Platform}
use mcpbouncer.Store.Table.{Keyed, find, IsUnique, find-keep}
use mcpbouncer.Store.Keys.{is_expired_key, delete_expired_signing_keys}
use mcpbouncer.Store.Clients.{is_stale, count_stale, delete_stale_clients}
use mcpbouncer.Store.Grants.{
  delete_expired_auth_sessions, delete_expired_codes, delete_expired_refresh_tokens,
}
use mcpbouncer.Store.Janitor.{janitor_tick}

-- A statement that reads the clock makes two calls.
abbrev pub after_two : ℕ → ℕ
after_two n = suc (suc n)

module _ ⦃p : Platform⦄ where
  abbrev without_sessions : World → World
  without_sessions w = record w {
    db = record w.db {
      auth_sessions = keep (λ s. not (leb s.expires_at (unix (p.clock w.step)))) w.db.auth_sessions;
    };
    step = after_two w.step;
  }

  abbrev without_codes : World → World
  without_codes w = record w {
    db = record w.db {
      codes = keep (λ c. not (leb c.expires_at (unix (p.clock w.step)))) w.db.codes;
    };
    step = after_two w.step;
  }

  abbrev without_tokens : World → World
  without_tokens w = record w {
    db = record w.db {
      refresh_tokens =
          keep (λ t. not (leb t.expires_at (unix (p.clock w.step)))) w.db.refresh_tokens;
    };
    step = after_two w.step;
  }

  abbrev without_keys : World → World
  without_keys w = record w {
    db = record w.db {
      signing_keys = keep (λ k. not (is_expired_key (unix (p.clock w.step)) k)) w.db.signing_keys;
    };
    step = after_two w.step;
  }

  abbrev without_clients : ℕ → World → World
  without_clients client_ttl w = record w {
    db = record w.db {
      clients = keep (λ c. not (is_stale (unix (p.clock w.step - client_ttl)) c)) w.db.clients;
    };
    step = after_two w.step;
  }

  module _ (calm : (n : ℕ) → p.db_fault n ≡ none) where
    sessions_lem : (w : World) → delete_expired_auth_sessions w ≡ (ret (ok tt), without_sessions w)
    unfolding delete_expired_auth_sessions ◌>>=◌ now exec
    sessions_lem w = rw (calm (suc w.step), exec) refl

    codes_lem : (w : World) → delete_expired_codes w ≡ (ret (ok tt), without_codes w)
    unfolding delete_expired_codes ◌>>=◌ now exec
    codes_lem w = rw (calm (suc w.step), exec) refl

    tokens_lem : (w : World) → delete_expired_refresh_tokens w ≡ (ret (ok tt), without_tokens w)
    unfolding delete_expired_refresh_tokens ◌>>=◌ now exec
    tokens_lem w = rw (calm (suc w.step), exec) refl

    keys_lem : (w : World) → delete_expired_signing_keys w ≡ (ret (ok tt), without_keys w)
    unfolding delete_expired_signing_keys ◌>>=◌ now exec
    keys_lem w = rw (calm (suc w.step), exec) refl

    clients_lem :
        (client_ttl : ℕ) (w : World)
        → (delete_stale_clients client_ttl w).1 ≡ without_clients client_ttl w
    unfolding delete_stale_clients count_stale attempt pure ◌>>=◌ now exec
    clients_lem client_ttl w = rw (calm (suc w.step), exec) refl

    clients-ret :
        (client_ttl : ℕ) (w : World)
        → (r : Result ℕ) × ((delete_stale_clients client_ttl w).0 ≡ ret r)
    unfolding delete_stale_clients count_stale attempt pure ◌>>=◌ now exec
    clients-ret client_ttl w = (
      ok (length (keep (is_stale (unix (p.clock w.step - client_ttl))) w.db.clients)),
      rw (calm (suc w.step), exec) refl,
    )

    janitor_tick_lem :
        (client_ttl : ℕ) (w : World)
        → (janitor_tick client_ttl w).1
          ≡ without_clients client_ttl
              (without_keys (without_tokens (without_codes (without_sessions w))))
    unfolding janitor_tick ◌>>=◌ pure
    janitor_tick_lem client_ttl w =
        let w1 = without_sessions w in
        let w2 = without_codes w1 in
        let w3 = without_tokens w2 in
        let w4 = without_keys w3 in
        rw
          (
            sessions_lem w,
            codes_lem w1,
            tokens_lem w2,
            keys_lem w3,
            (clients-ret client_ttl w4).1,
            clients_lem client_ttl w4,
          )
          refl

  -- What is left under a key by a cleanup that takes what fails a test.
  abbrev pub unless {ℓ} : {R : Type ℓ} → (R → Bool) → Option R → Option R
  unless gone none = none
  unless gone (some r) = if not (gone r) then some r else none

  unless-find {ℓ} :
      {R : Type ℓ} ⦃k : Keyed R⦄ (gone : R → Bool) (i : String) (rs : List R)
      → IsUnique rs
      → find i (keep (λ r. not (gone r)) rs) ≡ unless gone (find i rs)
  unless-find gone i rs u = elim (Option-cases (find i rs)) [
    | inl e ↦ find-keep (λ r. not (gone r)) i rs u ∙ rw e refl
    | inr (r, e) ↦ find-keep (λ r'. not (gone r')) i rs u ∙ rw e refl
  ]

  -- Where SQLite does not fail, and no table has two rows with one key, a tick of the cleanup removes
  -- the sessions, codes and refresh tokens whose second of expiry has come, the retiring keys that are
  -- due, and the clients that nobody has used for the clients' time to live; every other row of these
  -- tables is found under its key as before, and the other tables stay as they were. Each
  -- statement goes by its own read of the clock.
  pub find-janitor_tick :
      (calm : (n : ℕ) → p.db_fault n ≡ none) (client_ttl : ℕ) (w : World) (i : String)
      → IsWellFormed w.db
      → let d = (janitor_tick client_ttl w).1.db in
        (find i d.auth_sessions
          ≡ unless (λ s. leb s.expires_at (unix (p.clock w.step))) (find i w.db.auth_sessions))
        × (find i d.codes
            ≡ unless
                (λ c. leb c.expires_at (unix (p.clock (after_two w.step))))
                (find i w.db.codes))
        × (find i d.refresh_tokens
            ≡ unless
                (λ t. leb t.expires_at (unix (p.clock (after_two (after_two w.step)))))
                (find i w.db.refresh_tokens))
        × (find i d.signing_keys
            ≡ unless
                (is_expired_key (unix (p.clock (after_two (after_two (after_two w.step))))))
                (find i w.db.signing_keys))
        × (find i d.clients
            ≡ unless
                (is_stale (
                  unix
                    (p.clock (after_two (after_two (after_two (after_two w.step)))) - client_ttl)))
                (find i w.db.clients))
        × (d.resource_configs ≡ w.db.resource_configs)
        × (d.audit_events ≡ w.db.audit_events)
        × (d.encryption_keys ≡ w.db.encryption_keys)
  find-janitor_tick calm client_ttl w i u = rw (janitor_tick_lem calm client_ttl w) (
    unless-find _ i w.db.auth_sessions u.auth_sessions,
    unless-find _ i w.db.codes u.codes,
    unless-find _ i w.db.refresh_tokens u.refresh_tokens,
    unless-find _ i w.db.signing_keys u.signing_keys,
    unless-find _ i w.db.clients u.clients,
    refl,
    refl,
    refl,
  )
