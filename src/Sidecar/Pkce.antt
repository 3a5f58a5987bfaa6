-- ===== src/Sidecar/Pkce.antt =====
-- PKCE through any run of the sidecar (sidecar/cmd/bouncer/main.go).
use mcpbouncer.Prelude.{List}
use mcpbouncer.Platform.{Platform}
use mcpbouncer.Action.{World}
use mcpbouncer.Crypto.{Cipher}
use mcpbouncer.Tokens.{Issuer}
use mcpbouncer.Store.Guarded.{HasPkce, HasPkce-IsStable}
use mcpbouncer.Sidecar.{Event, run}
use mcpbouncer.Sidecar.Stable.{run-keeps}

module _ ⦃p : Platform⦄ (i : Issuer) (cipher : Cipher) where
  -- Where every stored session and every stored code has a challenge that is not empty and the method
  -- S256, they have so after any run of requests to any endpoints, of rotations and of cleanups, with
  -- whatever failures of the database and of the upstream.
  pub run-HasPkce : (es : List Event) (w : World) → HasPkce w.db → HasPkce (run i cipher es w).db
  run-HasPkce es w h = run-keeps HasPkce-IsStable i cipher es w h
