-- ===== src/Tests/Running.antt =====
-- Runs of the whole process, of its settings and of the store.
use mcpbouncer.Prelude.{◌+◌, ◌*◌, ◌≤◌, ◌<◌, ◌≡◌, refl, List, [], ◌∷◌, ◌++◌, map, arith}
use mcpbouncer.Store.Rows.{second}
use mcpbouncer.RateLimit.{admit, decide, current, retry_after, bucket_of}
use mcpbouncer.Action.{text_body}
use mcpbouncer.Http.{Request}
use mcpbouncer.Audit.{new_logger}
use mcpbouncer.Audit.Trail.{forget, row_of}
use mcpbouncer.Process.{
  Process, Server, Event, request, rotation, cleanup, sweep, write, mux, run, shut_down,
}
use mcpbouncer.Process.Trail.{trail, accepted, run-trail}
use mcpbouncer.Process.Room.{audited, shut_down-run}
use mcpbouncer.Process.Limits.{served, served-le}
use mcpbouncer.Process.Refusal.{mux-limited}
use mcpbouncer.Tests.World.{test_platform, test_world, test_issuer, test_cipher, post, code_form}

abbrev server : Server
server = record {
  issuer = test_issuer;
  cipher = test_cipher;
  limiter = record { limit = 2; window = 10 * second };
  client_ttl = 5;
}

-- A server that refuses every registration.
abbrev closed_server : Server
closed_server = record server { limiter = record { limit = 0; window = 10 * second } }

abbrev start : Process
start = record { world = test_world; buckets = []; audit = new_logger 8 }

abbrev registration : Request
registration = post "/oauth/register" λ k. ""

abbrev events : List Event
events =
    request registration
    ∷ write
    ∷ request (post "/oauth/token" code_form)
    ∷ sweep
    ∷ cleanup
    ∷ rotation
    ∷ []

trail_example :
    trail (run server events start) ≡ trail start ++ map row_of (accepted server events start)
trail_example = run-trail server (λ n. refl) events start

shut_down_example :
    ((shut_down server (run server events start)).audit.pending ≡ [])
    × (map forget (shut_down server (run server events start)).world.db.audit_events
        ≡ trail start ++ audited server events start)
shut_down_example = shut_down-run server (λ n. refl) events start (refl, omega arith)

served_example : served server "1.2.3.4" events start ≤ 2 * server.limiter.limit
served_example =
    served-le server "1.2.3.4" (1000 * second) events start tt
      ((omega arith, omega arith, (omega arith, omega arith, tt)))

refused_example :
    ((mux closed_server registration start).0 ≡ record {
      status = 429;
      headers = ("Retry-After", test_platform.decimal 10) ∷ [];
      body = text_body "rate limit exceeded";
    })
    × (1 ≤ 10)
    × (10 * second < closed_server.limiter.window + second)
    × ((mux closed_server registration start).1.world.db ≡ start.world.db)
    × ((mux closed_server registration start).1.world.providers ≡ start.world.providers)
    × ((mux closed_server registration start).1.audit ≡ start.audit)
unfolding admit decide current retry_after bucket_of
refused_example =
    mux-limited closed_server registration start (1000 * second) 10 (omega arith) (omega arith) tt
      refl refl
