-- ===== src/As/Refusals.antt =====
-- How the authentication of a client that the endpoints share ends (sidecar/internal/as/introspect.go).
use mcpbouncer.Prelude.{Done, String, ◌≡◌, ◌≢◌, arith}
use mcpbouncer.Platform.{Platform}
use mcpbouncer.Action.{
  World, Response, ret, exit, tick, ◌>>=◌, pure, must, given, fail, fail_with, reject_if, query,
}
use mcpbouncer.Store.Rows.{Client, Client-keyed, RefreshToken-keyed}
use mcpbouncer.Store.Clients.{get_client}
use mcpbouncer.Http.{Request}
use mcpbouncer.As.Clients.{read_credentials, find_client, check_secret}

module _ ⦃p : Platform⦄ where
  pub read_credentials-refused :
      (r : Request) (w : World) {x : Response} {w' : World}
      → read_credentials r w ≡ (exit x, w')
      → x.status ≢ 200
  unfolding read_credentials reject_if must fail fail_with ◌>>=◌ pure
  read_credentials-refused r w h e = ground arith

  pub find_client-refused :
      (id : String) (w : World) {x : Response} {w' : World}
      → find_client id w ≡ (exit x, w')
      → x.status ≢ 200
  unfolding find_client must given get_client query fail fail_with ◌>>=◌ pure
  find_client-refused id w h e = ground arith

  pub find_client-reads :
      (id : String) (w : World) {c : Client} {w' : World}
      → find_client id w ≡ (ret c, w')
      → w' ≡ tick w
  unfolding find_client must given get_client query fail fail_with ◌>>=◌ pure
  find_client-reads id w h = ground arith

  pub check_secret-refused :
      (c : Client) (secret : String) (w : World) {x : Response} {w' : World}
      → check_secret c secret w ≡ (exit x, w')
      → x.status ≢ 200
  unfolding check_secret reject_if fail_with ◌>>=◌ pure
  check_secret-refused c secret w h e = ground arith

  pub check_secret-reads :
      (c : Client) (secret : String) (w : World) {d : Done} {w' : World}
      → check_secret c secret w ≡ (ret d, w')
      → w' ≡ w
  unfolding check_secret reject_if fail_with ◌>>=◌ pure
  check_secret-reads c secret w h = ground arith
