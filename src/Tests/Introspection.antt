-- ===== src/Tests/Introspection.antt =====
-- Runs of the introspection and the userinfo endpoint.
use mcpbouncer.Keys.Jwks.{decode_public_pem}
use mcpbouncer.Json.{retain, get_claim, as_number, string_or_empty}
use mcpbouncer.Store.Keys.{list_signing_keys}
use mcpbouncer.Keys.{all_publishable_keys}
use mcpbouncer.Prelude.Strings.{cut_dot, split_dots, strip_prefix}
use mcpbouncer.Store.Rows.{unix, from_unix}
use mcpbouncer.Tokens.{hash_token}
use mcpbouncer.Store.Grants.{get_refresh_token_by_hash}
use mcpbouncer.Store.Table.{find}
use mcpbouncer.Store.Clients.{get_client}
use mcpbouncer.As.Clients.{check_secret, find_client, extract_client_credentials, read_credentials}
use mcpbouncer.Prelude.{◌≡◌, refl, ◌==◌, if◌then◌else◌, arith}
use mcpbouncer.Action.{
  pure, now, finish, fail_with, fail, attempt_pure, attempt, on_option, on_result, given, query,
  must, reject_if, ◌>>=◌, respond,
}
use mcpbouncer.Http.{write_json, Request}
use mcpbouncer.As.Userinfo.{
  local_key, key_map, key_in, is_foreign, verify_local_parts, verify_local_jwt, read_bearer,
  handle_userinfo,
}
use mcpbouncer.As.Profile.{IsProfile, handle_userinfo-IsProfile}
use mcpbouncer.As.Authentication.{IsAuthenticated}
use mcpbouncer.As.Introspect.{
  verify_signed, is_past, is_ahead, report_refresh_token, refresh_info, try_refresh_token,
  handle_introspect,
}
use mcpbouncer.As.Introspection.{IsOwn, handle_introspect-IsOwn}
use mcpbouncer.Tests.World.{test_platform, test_world, test_rc, post}

-- The client `c` asks for its refresh token.
abbrev introspection : Request
introspection =
    post "/oauth/introspect" λ k. if k == "client_id" then "c" else if k == "token" then "t" else ""

introspection_example :
    (introspection.method ≡ "POST")
    × (caller : IsAuthenticated test_world.db introspection) × IsOwn test_rc test_world.db 0
        caller.id "t"
        (respond (handle_introspect test_rc introspection) test_world).0
unfolding respond handle_introspect ◌>>=◌ read_credentials reject_if must extract_client_credentials
    find_client get_client query given find check_secret try_refresh_token get_refresh_token_by_hash
    on_result on_option hash_token attempt attempt_pure fail fail_with finish now pure refresh_info
    report_refresh_token write_json from_unix
introspection_example =
    handle_introspect-IsOwn test_rc introspection test_world refl λ e. ground arith

abbrev profile : Request
profile = record (post "/oauth/userinfo" (λ k. "")) { header = λ k. "Bearer b.bb.b" }

profile_example :
    IsProfile test_rc test_world.db 0 profile
      (respond (handle_userinfo test_rc profile) test_world).0
unfolding respond handle_userinfo ◌>>=◌ reject_if read_bearer given strip_prefix must
    all_publishable_keys list_signing_keys query verify_local_jwt on_option split_dots cut_dot
    verify_local_parts attempt_pure string_or_empty attempt fail fail_with now pure is_ahead is_past
    verify_signed is_foreign key_in key_map local_key write_json as_number get_claim retain
    decode_public_pem unix
profile_example = handle_userinfo-IsProfile test_rc profile test_world refl
