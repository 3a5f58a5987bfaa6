-- ===== src/As/Profile.antt =====
-- What the userinfo endpoint (sidecar/internal/as/userinfo.go) answers.
use mcpbouncer.Prelude.{
  ℕ, Done, Bool, Option, String, List, [], map, not, ◌≡◌, ◌≢◌, ap, inl, inr, false, some, none,
  ◌==◌, arith, Option-cases, Bool-cases, contains_string, ◌≤◌,
}
use mcpbouncer.Prelude.Int.{pos}
use mcpbouncer.Prelude.Strings.{strip_prefix, split_dots}
use mcpbouncer.Json.{Claims, get_claim, string_or_empty, retain, as_number}
use mcpbouncer.Platform.{Platform}
use mcpbouncer.Action.{
  World, Action, must-ret, reject_if-passed, pure-ret, Response, ret, exit, respond, claims_body,
  ◌>>=◌, ◌>>◌, pure, must, given, fail, fail_with, reject_if, now, query, on_option, attempt,
  attempt_pure,
}
use mcpbouncer.Action.Outcomes.{
  respond-bind, attempt-ok, attempt_pure-ok, unless-ok, must-refused, reject_if-refused,
}
use mcpbouncer.Store.Rows.{Bytes, ok, err, Result, Db, unix}
use mcpbouncer.Store.Keys.{get_active_signing_key, scan_signing_key, list_signing_keys}
use mcpbouncer.Keys.{all_publishable_keys, active_key}
use mcpbouncer.Http.{Request, write_json}
use mcpbouncer.Config.{ResourceConfig}
use mcpbouncer.As.Introspect.{verify_signed, is_past, is_ahead}
use mcpbouncer.As.AccessToken.{keys-listed}
use mcpbouncer.As.Userinfo.{
  token_challenge, profile_claims, read_bearer, key_in, key_map, is_foreign, local_key,
  verify_local_parts, verify_local_jwt, handle_userinfo,
}

module _ ⦃p : Platform⦄ where
  -- A token that carries the claims under the signature of one of the stored keys.
  pub record IsSignedLocally (d : Db) (token : String) (claims : Claims) : Type 0 where
    pub parts : String × String × String
    pub split : split_dots token ≡ some parts
    pub kid : String
    pub public : Bytes
    pub known : key_in kid (key_map (map scan_signing_key d.signing_keys)) ≡ some public
    pub signed : verify_signed public parts ≡ ok claims

  read_bearer-passed :
      (r : Request) (w : World) {token : String} {w' : World}
      → read_bearer r w ≡ (ret token, w')
      → (strip_prefix "Bearer " (r.header "Authorization") ≡ some token) × (w' ≡ w)
  unfolding read_bearer reject_if given fail_with ◌>>=◌ pure
  read_bearer-passed r w h = ground arith

  read_bearer-refused :
      (r : Request) (w : World) {x : Response} {w' : World}
      → read_bearer r w ≡ (exit x, w')
      → x.status ≢ 200
  unfolding read_bearer reject_if given fail_with ◌>>=◌ pure
  read_bearer-refused r w h e = ground arith

  found-key :
      (o : Option Bytes) (why : String) (w : World) {public : Bytes} {w' : World}
      → on_option o (λ k. pure (ok k)) (pure (err why)) w ≡ (ret (ok public), w')
      → o ≡ some public
  unfolding on_option pure
  found-key (some k) why w h = ground arith
  found-key none why w h = ground arith

  local_key-known :
      (keys : List (String × Bytes)) (kid : String) (w : World) {public : Bytes} {w' : World}
      → local_key keys kid w ≡ (ret (ok public), w')
      → (k : String) × (key_in k keys ≡ some public)
  unfolding local_key
  local_key-known keys kid w h = elim (Bool-cases (kid == "")) [
    | inl e ↦
        let (active, w1, e1, h1) =
          attempt-ok "no kid and no active key" active_key
            (λ active.
              on_option (key_in active.0.kid keys) (λ k. pure (ok k))
                (pure (err "active key not found in publishable set")))
            w (rw (e, local_key) at h) in
        (active.0.kid, found-key _ "active key not found in publishable set" w1 h1)
    | inr e ↦ (kid, found-key _ "unknown kid" w (rw (e, local_key) at h))
  ]

  verify_local_parts-IsSigned :
      (d : Db) (token : String) (parts : String × String × String) (w : World) {claims : Claims}
      {w' : World}
      → split_dots token ≡ some parts
      → verify_local_parts (key_map (map scan_signing_key d.signing_keys)) parts w
        ≡ (ret (ok claims), w')
      → IsSignedLocally d token claims
  unfolding verify_local_parts
  verify_local_parts-IsSigned d token parts w split h =
      let keys = key_map (map scan_signing_key d.signing_keys) in
      let (json, e1, h1) = attempt_pure-ok _ _ _ w h in
      let (header, e2, h2) = attempt_pure-ok _ _ _ w h1 in
      let (alg, h3) =
        unless-ok (not (string_or_empty (get_claim header "alg") == "EdDSA")) "unsupported alg"
          (attempt "key lookup" (local_key keys (string_or_empty (get_claim header "kid")))
            λ public. pure (verify_signed public parts))
          w h2 in
      let (public, w1, e4, h4) =
        attempt-ok "key lookup" (local_key keys (string_or_empty (get_claim header "kid")))
          (λ public. pure (verify_signed public parts)) w h3 in
      let (kid, known) = local_key-known keys _ w e4 in
      record {
        parts = parts;
        split = split;
        kid = kid;
        public = public;
        known = known;
        signed = (pure-ret (verify_signed public parts) w1 h4).0;
      }

  verify_local_jwt-IsSigned :
      (d : Db) (token : String) (w : World) {claims : Claims} {w' : World}
      → verify_local_jwt (key_map (map scan_signing_key d.signing_keys)) token w
        ≡ (ret (ok claims), w')
      → IsSignedLocally d token claims
  unfolding verify_local_jwt on_option pure
  verify_local_jwt-IsSigned d token w h = elim (Option-cases (split_dots token)) [
    | inl e ↦ let stopped = rw (e, on_option) at h in ground arith
    | inr (parts, e) ↦ verify_local_parts-IsSigned d token parts w e (rw (e, on_option) at h)
  ]

  listing-goes_on : (w : World) {x : Response} {w' : World} → all_publishable_keys w ≢ (exit x, w')
  unfolding all_publishable_keys list_signing_keys query
  listing-goes_on w h = ground arith

  verify_local_jwt-goes_on :
      (keys : List (String × Bytes)) (token : String) (w : World) {x : Response} {w' : World}
      → verify_local_jwt keys token w ≢ (exit x, w')
  unfolding verify_local_jwt verify_local_parts on_option attempt attempt_pure local_key active_key
      get_active_signing_key query ◌>>=◌ pure
  verify_local_jwt-goes_on keys token w h = ground arith

  verify_local_jwt-reads :
      (keys : List (String × Bytes)) (token : String) (w : World) {c : Result Claims} {w' : World}
      → verify_local_jwt keys token w ≡ (ret c, w')
      → w.step ≤ w'.step
  unfolding verify_local_jwt verify_local_parts on_option attempt attempt_pure local_key active_key
      get_active_signing_key query ◌>>=◌ pure
  verify_local_jwt-reads keys token w h = ground arith

  -- The answer `x` has the profile claims of a token that the request shows, which is signed under
  -- a stored key, is within its times at a read of the clock that is the one of the number `from` or a
  -- later one, and names no other issuer.
  pub record IsProfile (rc : ResourceConfig) (d : Db) (from : ℕ) (r : Request) (x : Response)
      : Type 0 where
    pub token : String
    pub shown : strip_prefix "Bearer " (r.header "Authorization") ≡ some token
    pub claims : Claims
    pub verified : IsSignedLocally d token claims
    pub read : ℕ
    pub recent : from ≤ read
    pub not_expired :
        is_past (as_number (get_claim claims "exp")) (pos (unix (p.clock read))) ≡ false
    pub begun : is_ahead (as_number (get_claim claims "nbf")) (pos (unix (p.clock read))) ≡ false
    pub issuer : is_foreign (get_claim claims "iss") rc.public_base ≡ false
    pub answer : x ≡ write_json 200 (claims_body (retain (contains_string profile_claims) claims))

  -- Where the request is answered with success, the answer is such a profile.
  abbrev OnlyProfile : ResourceConfig → Db → ℕ → Request → Response → Type 0
  OnlyProfile rc d from r x = x.status ≡ 200 → IsProfile rc d from r x

  -- The checks of the claims, and the answer.
  checked-OnlyProfile :
      (rc : ResourceConfig) (d : Db) (from : ℕ) (r : Request) (token : String) (claims : Claims)
      (w : World)
      → strip_prefix "Bearer " (r.header "Authorization") ≡ some token
      → IsSignedLocally d token claims
      → from ≤ w.step
      → OnlyProfile rc d from r
          (respond
            (do
              t ← now
              reject_if
                  (is_past (as_number (get_claim claims "exp")) (pos (unix t)))
                  (fail_with token_challenge 401 "invalid_token" "token expired")
              reject_if
                  (is_ahead (as_number (get_claim claims "nbf")) (pos (unix t)))
                  (fail_with token_challenge 401 "invalid_token" "token not yet valid")
              reject_if
                  (is_foreign (get_claim claims "iss") rc.public_base)
                  (fail_with token_challenge 401 "invalid_token" "invalid issuer")
              pure (write_json 200 (claims_body (retain (contains_string profile_claims) claims))))
            w).0
  unfolding now ◌>>=◌ reject_if fail_with respond pure
  checked-OnlyProfile rc d from r token claims w shown verified late success = record {
    token = token;
    shown = shown;
    claims = claims;
    verified = verified;
    read = w.step;
    recent = late;
    not_expired = ground arith;
    begun = ground arith;
    issuer = ground arith;
    answer = ground arith;
  }

  -- A check passes, or ends the request with a status that is not 200.
  reject-OnlyProfile :
      (Q : Response → Type 0) (b : Bool) (hs : List (String × String)) (status : ℕ)
      (code description : String) (f : Done → Action Response) (w : World)
      → ((x : Response) → x.status ≡ status → Q x)
      → Q (respond (f tt) w).0
      → Q (respond (reject_if b (fail_with hs status code description) >>= f) w).0
  reject-OnlyProfile Q b hs status code description f w refused rest =
      respond-bind Q (reject_if b (fail_with hs status code description)) f w
        (λ x w' e. refused x (reject_if-refused b hs status code description w e))
        λ d w' e. rw ((reject_if-passed b hs status code description w e).1) rest

  -- Where a request to /oauth/userinfo is answered with status 200, it shows a bearer token that is
  -- signed under a stored key, is within its times by the clock, and names no other issuer than the
  -- resource's public base; and the answer has those of the token's claims that are profile claims, and
  -- no others.
  pub handle_userinfo-IsProfile :
      (rc : ResourceConfig) (r : Request) (w : World)
      → (respond (handle_userinfo rc r) w).0.status ≡ 200
      → IsProfile rc w.db w.step r (respond (handle_userinfo rc r) w).0
  unfolding handle_userinfo fail
  handle_userinfo-IsProfile rc r w =
      let Q = OnlyProfile rc w.db w.step r in
      reject-OnlyProfile Q _ _ 405 _ _ _ w (λ x e success. absurd (omega (arith, e, success)))
        (respond-bind Q (read_bearer r) _ w
          (λ x w' e success. absurd (read_bearer-refused r w e success))
          λ token w1 e1.
            let (shown, same) = read_bearer-passed r w e1 in
            rw same (
              respond-bind Q (must all_publishable_keys _) _ w
                (λ x w' e success.
                  let failed =
                    must-refused all_publishable_keys [] 500 _ _ w (λ y v. listing-goes_on w) e in
                  absurd (omega (arith, failed, success)))
                λ keys w2 e2.
                  let (listed, next) =
                    keys-listed w (must-ret all_publishable_keys [] 500 _ _ w e2) in
                  rw listed (
                    respond-bind Q (must (verify_local_jwt _ token) _) _ w2
                      (λ x w' e success.
                        let failed =
                          must-refused (verify_local_jwt _ token) token_challenge 401 _ _ w2
                            (λ y v. verify_local_jwt-goes_on _ token w2) e in
                        absurd (omega (arith, failed, success)))
                      λ claims w3 e3.
                        let verified =
                          must-ret (verify_local_jwt _ token) token_challenge 401 _ _ w2 e3 in
                        let later = verify_local_jwt-reads _ token w2 verified in
                        checked-OnlyProfile rc w.db w.step r token claims w3 shown
                          (verify_local_jwt-IsSigned w.db token w2 verified)
                          (omega (arith, later, ap (λ (v : World). v.step) next)))))
