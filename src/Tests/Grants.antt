-- ===== src/Tests/Grants.antt =====
-- Runs of the endpoints that add rows: a login, a callback, a registration.
use mcpbouncer.Store.Guarded.{HasPkce}
use mcpbouncer.Sidecar.{request, rotation, cleanup, run}
use mcpbouncer.Sidecar.Pkce.{run-HasPkce}
use mcpbouncer.Tokens.{hash_token}
use mcpbouncer.Json.{string_or_empty, retain, get_claim}
use mcpbouncer.Crypto.{
  key_of, is_key_id_byte, is_key_id, header, encrypt_with, encrypt, all_key_id_bytes,
}
use mcpbouncer.Prelude.Strings.{strip_prefix, split_dots, cut_dot, trim_right_slashes}
use mcpbouncer.As.Token.{pkce_s256_challenge}
use mcpbouncer.Oidc.{
  userinfo, post as oidc_post, decode_id_token, post_token, exchange_code, remember, look_up,
  fetch_provider, accept, cached, discover,
}
use mcpbouncer.Store.Clients.{insert_client, touch_client, get_client}
use mcpbouncer.Action.{
  on_result, finish, pure, fail_with, fail, attempt_pure, attempt, read_random, on_option, exec,
  now, given, query, must, reject_if, ◌>>=◌,
}
use mcpbouncer.Prelude.{
  true, eq_iff, arith, ◌*◌, String, ◌≡◌, ◌⊎◌, refl, some, [], ◌∷◌, ◌==◌, if◌then◌else◌,
}
use mcpbouncer.Store.Rows.{
  unix, from_unix, ok, AuthSession, Code, Client, second, Client-keyed, AuthSession-keyed,
  Code-keyed,
}
use mcpbouncer.Store.Table.{remove, update, insert, find}
use mcpbouncer.Store.Grants.{
  insert_code, delete_auth_session, get_auth_session, insert_auth_session, code_row, scan_session,
  session_row,
}
use mcpbouncer.Http.{write_json, redirect, Request}
use mcpbouncer.As.Authorize.{
  upstream_query, start_login, find_registered, session_of, handle_authorize,
}
use mcpbouncer.As.Callback.{
  user_claims, subject_of, seal_upstream, issue_code, error_params, finish_login, find_session,
  handle_upstream_error, code_of, handle_callback,
}
use mcpbouncer.As.Register.{
  bearer_or_empty, save_client, check_url, validate_redirect_uri, check_uris, check_initial_token,
  read_registration, client_of, handle_register,
}
use mcpbouncer.As.Login.{IsSessionOf, IsRegistered, handle_authorize-added}
use mcpbouncer.As.Issue.{IsIssuedFrom, handle_callback-added}
use mcpbouncer.As.Registration.{IsRegistration, handle_register-added}
use mcpbouncer.Tests.World.{
  test_code, test_issuer, test_world, test_platform, test_rc, test_cipher, login_world,
  test_session, times, encode, get_request, post,
}

abbrev authorize : Request
authorize = get_request "/oauth/authorize" λ k.
    if k == "response_type"
    then "code"
    else if k == "client_id"
    then "c"
    else if k == "redirect_uri"
    then "u"
    else if k == "code_challenge"
    then "h"
    else if k == "code_challenge_method"
    then "S256"
    else ""

-- The state and the verifier are drawn in the calls 4 and 3.
abbrev login_state : String
login_state = encode (times 16 4)

abbrev new_session : AuthSession
new_session =
    session_row (session_of test_rc authorize login_state (encode (times 32 3)) (1000 * second))

login_example :
    (find login_state login_world.db.auth_sessions ≡ some new_session)
    ⊎ (IsSessionOf test_rc authorize new_session × IsRegistered login_world.db authorize)
unfolding handle_authorize find ◌>>=◌ reject_if find_registered must get_client query given
    touch_client now exec start_login discover on_option cached read_random insert_auth_session
    insert attempt attempt_pure fail fail_with pure session_of upstream_query pkce_s256_challenge
    redirect accept fetch_provider look_up remember trim_right_slashes from_unix unix update
login_example =
    handle_authorize-added test_rc authorize login_world login_state {s = new_session} refl

abbrev callback : Request
callback =
    get_request "/oauth/callback"
      λ k. if k == "code" then "up" else if k == "state" then "st" else ""

abbrev new_code : String
new_code = encode (times 32 3)

abbrev code_of_login : Code
code_of_login =
    code_row (code_of (scan_session test_session) new_code "unknown" "cc" [] (1000 * second))

callback_example :
    (find new_code login_world.db.codes ≡ some code_of_login)
    ⊎ IsIssuedFrom (1000 * second) login_world.db callback code_of_login
unfolding handle_callback find ◌>>=◌ handle_upstream_error pure reject_if find_session must
    get_auth_session query given now from_unix finish_login discover on_option cached exchange_code
    post_token attempt attempt_pure exec fail fail_with finish on_result read_random code_of
    error_params issue_code seal_upstream subject_of user_claims all_key_id_bytes encrypt
    encrypt_with header is_key_id is_key_id_byte key_of redirect get_claim retain string_or_empty
    accept decode_id_token fetch_provider look_up oidc_post remember userinfo cut_dot split_dots
    trim_right_slashes delete_auth_session insert_code unix insert remove
callback_example =
    handle_callback-added test_cipher test_rc callback login_world new_code {c = code_of_login} refl

abbrev registration : Request
registration = record (post "/oauth/register" (λ k. "")) { body = ok [] }

abbrev new_client : Client
new_client = record {
  client_id = encode (times 16 0);
  client_secret_hash = encode (64 ∷ []);
  redirect_uris_json = "";
  registration_access_token_hash = encode (96 ∷ []);
  resource = "r";
  scopes = "read";
  created_at = 1000;
  last_used_at = 1000;
}

registration_example :
    (find new_client.client_id login_world.db.clients ≡ some new_client)
    ⊎ IsRegistration test_rc registration new_client
unfolding handle_register find ◌>>=◌ read_registration reject_if check_initial_token must check_uris
    on_option validate_redirect_uri check_url save_client read_random now insert_client exec insert
    client_of hash_token fail fail_with pure bearer_or_empty write_json strip_prefix unix
registration_example =
    handle_register-added test_rc registration login_world new_client.client_id {c = new_client}
      refl

pkce_example :
    HasPkce
      (run test_issuer test_cipher
        (request authorize ∷ request callback ∷ rotation ∷ cleanup 5 ∷ [])
        test_world).db
pkce_example =
    run-HasPkce test_issuer test_cipher
      (request authorize ∷ request callback ∷ rotation ∷ cleanup 5 ∷ []) test_world
      (record {
        sessions = tt;
        codes = (
          record {
            given = λ e.
                let same : (test_code.code_challenge == "") ≡ true = (eq_iff _ "").1 e in
                ground arith;
            s256 = refl;
          },
          tt,
        );
      })
