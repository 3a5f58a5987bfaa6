-- ===== src/Tests/Settings.antt =====
-- Settings read from an environment, and statements on the store.
use mathlib.Core.Option
use mcpbouncer.Prelude.{◌*◌, ◌-◌, ◌<◌, ◌≡◌, refl, List, [], ◌∷◌, ◌==◌, arith, leb, if◌then◌else◌}
use mcpbouncer.Prelude.Int.{pos, neg_part}
use mcpbouncer.Platform.{Platform}
use mcpbouncer.Action.{ret}
use mcpbouncer.Store.Rows.{
  ok, second, unix, AuthSession-keyed, Code-keyed, RefreshToken-keyed, SigningKey-keyed,
  Client-keyed,
}
use mcpbouncer.Store.Table.{find}
use mcpbouncer.Store.Keys.{is_expired_key}
use mcpbouncer.Store.Clients.{is_stale}
use mcpbouncer.Store.Grants.{scan_code, get_code}
use mcpbouncer.Store.Janitor.{janitor_tick}
use mcpbouncer.Store.Refinement.{
  Statement, add, delete, expire, perform_all, meaning_all, view, get_code-perform_all,
}
use mcpbouncer.Store.Cleanup.{unless, find-janitor_tick}
use mcpbouncer.Environment.{day, env_duration, read_settings, settings_with}
use mcpbouncer.Environment.Ranges.{IsUsable, read_settings-IsUsable, env_duration-overflow}
use mcpbouncer.Tests.World.{test_platform, test_world, test_code}

-- A key, and seven days or hours of everything else.
abbrev week : Platform
week = record test_platform {
  getenv = λ k. if k == "BOUNCER_ENCRYPTION_KEY" then "key" else "7";
  atoi = λ s. ok (pos 7);
}

IsUsable-example : IsUsable (settings_with ⦃p = week⦄ "key")
unfolding read_settings
IsUsable-example = read_settings-IsUsable ⦃p = week⦄ (λ k n e. ground arith) refl

-- 200000 days.
abbrev long : Platform
long = record test_platform { getenv = λ k. "200000" }

overflow_example : 0 < neg_part (env_duration ⦃p = long⦄ "BOUNCER_KEY_ROTATION_DAYS" 30 day)
overflow_example =
    env_duration-overflow ⦃p = long⦄ "BOUNCER_KEY_ROTATION_DAYS" 30 day 200000 "" refl refl refl
      (omega arith) (omega arith)

abbrev statements : List Statement
statements = add test_code ∷ delete "x" ∷ add test_code ∷ expire ∷ []

map_example :
    (get_code "x" (perform_all statements test_world)).0
    ≡ ret (ok (Option.map scan_code (meaning_all statements test_world (view test_world) "x")))
unfolding find
map_example = get_code-perform_all (λ n. refl) statements test_world "x" (refl, tt)

cleanup_example :
    (find "x" (janitor_tick 5 test_world).1.db.auth_sessions
      ≡ unless
          (λ s. leb s.expires_at (unix (1000 * second)))
          (find "x" test_world.db.auth_sessions))
    × (find "x" (janitor_tick 5 test_world).1.db.codes
        ≡ unless (λ c. leb c.expires_at (unix (1000 * second))) (find "x" test_world.db.codes))
    × (find "x" (janitor_tick 5 test_world).1.db.refresh_tokens
        ≡ unless
            (λ t. leb t.expires_at (unix (1000 * second)))
            (find "x" test_world.db.refresh_tokens))
    × (find "x" (janitor_tick 5 test_world).1.db.signing_keys
        ≡ unless (is_expired_key (unix (1000 * second))) (find "x" test_world.db.signing_keys))
    × (find "x" (janitor_tick 5 test_world).1.db.clients
        ≡ unless (is_stale (unix (1000 * second - 5))) (find "x" test_world.db.clients))
    × ((janitor_tick 5 test_world).1.db.resource_configs ≡ test_world.db.resource_configs)
    × ((janitor_tick 5 test_world).1.db.audit_events ≡ test_world.db.audit_events)
    × ((janitor_tick 5 test_world).1.db.encryption_keys ≡ test_world.db.encryption_keys)
unfolding find
cleanup_example =
    find-janitor_tick (λ n. refl) 5 test_world "x"
      (record {
        signing_keys = (refl, tt);
        clients = (refl, tt);
        auth_sessions = tt;
        codes = (refl, tt);
        refresh_tokens = (refl, tt);
        resource_configs = tt;
        encryption_keys = tt;
      })
