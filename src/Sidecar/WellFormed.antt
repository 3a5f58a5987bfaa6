-- ===== src/Sidecar/WellFormed.antt =====
-- The primary keys of the sidecar's database through any run (sidecar/cmd/bouncer/main.go).
use mcpbouncer.Prelude.{List}
use mcpbouncer.Platform.{Platform}
use mcpbouncer.Action.{World}
use mcpbouncer.Crypto.{Cipher}
use mcpbouncer.Tokens.{Issuer}
use mcpbouncer.Store.WellFormed.{IsWellFormed, IsWellFormed-IsStable}
use mcpbouncer.Sidecar.{Event, run}
use mcpbouncer.Sidecar.Stable.{run-keeps}

module _ ⦃p : Platform⦄ (i : Issuer) (cipher : Cipher) where
  -- A run of requests to any endpoints, of rotations and of cleanups, with whatever failures of
  -- the database and of the upstream, never leaves two rows with one primary key.
  pub run-IsWellFormed :
      (es : List Event) (w : World) → IsWellFormed w.db → IsWellFormed (run i cipher es w).db
  run-IsWellFormed es w h = run-keeps IsWellFormed-IsStable i cipher es w h
