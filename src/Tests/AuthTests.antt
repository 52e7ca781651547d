-- ===== src/Tests/AuthTests.antt =====
-- app/auth and app/security at concrete tables and requests. The digests are stood in for by
-- functions that collide nowhere.
use sre_tab.Common.{
  ◌+◌, ◌*◌, ◌&&◌, ◌≡◌, refl, true, false, none, some, List, [], ◌∷◌, ◌++◌, if◌then◌else◌, Text,
  ◌==◌, text_eq, text_beq, codes, ltb, eqb, arith, select, scalar, exists_row, update_rows,
  delete_rows, count_rows, lower_char, strip, partition, starts_with, lacks,
}
use sre_tab.Models.{User, UserSession, ApiToken, read, full, Settings, day}
use sre_tab.Auth.Tokens.{
  Crypto, CollisionFree, hash_session_token, hash_api_token, generate_api_token, compare_secret,
}
use sre_tab.Auth.Csrf.{
  Request, sign, generate_csrf_token, validate_csrf_token, require_csrf, or_empty,
  validate-generate,
}
use sre_tab.Auth.Sessions
use sre_tab.Auth.ApiTokens
use sre_tab.Auth.Pipeline.{
  Db, Readings, is_authorised, presented_credential, identify, find_user, authenticate, is_unsafe,
  csrf_middleware, admit_identity, offered, api_token_middleware, get_current_user, user_route,
  serve, contains_id,
}
use sre_tab.Auth.Pipeline.Authority.{Authority, serve-Authority}

program : Unit {0}
unfolding text_beq compare_secret sign generate_csrf_token validate_csrf_token require_csrf or_empty
    hash_session_token hash_api_token generate_api_token Sessions.create_session Sessions.is_live
    Sessions.owner Sessions.resolve_session Sessions.is_unrevoked Sessions.revoke_session
    Sessions.is_dead Sessions.prune_sessions ApiTokens.is_unexpired ApiTokens.is_live
    ApiTokens.resolve_token ApiTokens.is_revocable ApiTokens.revoke_token ApiTokens.touch_last_used
    ApiTokens.create_token is_authorised presented_credential identify find_user authenticate
    is_unsafe csrf_middleware admit_identity offered api_token_middleware get_current_user
    user_route serve contains_id select scalar exists_row update_rows delete_rows count_rows
    partition starts_with lacks strip lower_char
program = tt

abbrev crypto : Crypto
crypto = record { sha256 = λ text. text; hmac = λ secret message. secret ++ message }

append_cancel : (p a b : Text) → p ++ a ≡ p ++ b → a ≡ b
append_cancel [] a b h = h
append_cancel (x ∷ p) a b h = append_cancel p a b (cc)

abbrev free : CollisionFree crypto
free = record { sha256_injective = λ a b h. h; hmac_injective = append_cancel }

abbrev alice : User
alice = record {
  id = 1;
  github_id = 501;
  github_login = codes "alice";
  display_name = none;
  avatar_url = none;
}

abbrev bob : User
bob = record {
  id = 2;
  github_id = 502;
  github_login = codes "bob";
  display_name = none;
  avatar_url = none;
}

abbrev settings : Settings
settings = record {
  allowed_github_ids = 501 ∷ 502 ∷ [];
  session_secret = codes "s";
  session_ttl_days = 30;
  session_cookie_name = codes "session";
  csrf_cookie_name = codes "csrf";
  csrf_header_name = codes "x-csrf-token";
  feed_retention_days = 90;
  source_refresh_enabled = true;
}

abbrev sessions : List UserSession
sessions =
    record { user_id = 1; token_hash = codes "t1"; expires_at = 1000; revoked_at = none }
    ∷ record { user_id = 2; token_hash = codes "t2"; expires_at = 400; revoked_at = none }
    ∷ []

abbrev tokens : List ApiToken
tokens =
    record {
      id = 7;
      user_id = 2;
      label = codes "cli";
      token_hash = codes "sretab_pat_x";
      display_prefix = codes "sretab_pat_x";
      scope = read;
      created_at = 10;
      expires_at = none;
      revoked_at = none;
      last_used_at = none;
    }
    ∷ []

validate-generate_example :
    validate_csrf_token crypto
      (generate_csrf_token crypto (codes "n") (codes "s") (codes "t1"))
      (codes "s")
      (codes "t2")
    ≡ (codes "t1" == codes "t2")
unfolding program
validate-generate_example =
    validate-generate crypto (codes "n") (codes "s") (codes "t1") (codes "t2") free refl refl

resolve_session-prune_sessions_example :
    Sessions.resolve_session crypto 500
      (alice ∷ bob ∷ [])
      (Sessions.prune_sessions 500 7 sessions).0
      (codes "t1")
    ≡ Sessions.resolve_session crypto 500 (alice ∷ bob ∷ []) sessions (codes "t1")
resolve_session-prune_sessions_example =
    Sessions.resolve_session-prune_sessions crypto 500 500 7 (alice ∷ bob ∷ []) sessions
      (codes "t1") (omega arith)

-- The second session has expired, and is removed.
pruned : (Sessions.prune_sessions 500 7 sessions).1 ≡ 1
unfolding program
pruned = refl

resolve_session-revoke_session_example :
    Sessions.resolve_session crypto 500
      (alice ∷ bob ∷ [])
      (Sessions.revoke_session crypto 450 sessions (codes "t1")).0
      (codes "t1")
    ≡ none
resolve_session-revoke_session_example =
    Sessions.resolve_session-revoke_session crypto 450 500 (alice ∷ bob ∷ []) sessions (codes "t1")

resolve_session-create_session_example :
    Sessions.resolve_session crypto 500
      (alice ∷ bob ∷ [])
      (Sessions.create_session crypto settings 450 alice (codes "t3") sessions)
      (codes "t3")
    ≡ (if ltb 500 (450 + 30 * day) then some alice else none)
unfolding program
resolve_session-create_session_example =
    Sessions.resolve_session-create_session crypto settings 450 500 (alice ∷ bob ∷ []) alice
      (codes "t3") sessions refl refl

abbrev made : List ApiToken × ApiToken × Text
made = ApiTokens.create_token crypto 8 500 alice (codes "ci") full (some 900) (codes "y") tokens

-- One token is revoked, and the other still resolves.
abbrev revoked : List ApiToken
revoked = (ApiTokens.revoke_token 550 bob 7 made.0).0

resolve_token-revoke_token_example : (eqb made.1.id 7 && eqb made.1.user_id 2) ≡ false
unfolding program
resolve_token-revoke_token_example =
    ApiTokens.resolve_token-revoke_token crypto 550 600 bob 7 made.0 (codes "sretab_pat_y")
      {row = made.1} refl

revoke_token_foreign_example : ApiTokens.revoke_token 550 alice 7 tokens ≡ (tokens, false)
unfolding program
revoke_token_foreign_example =
    ApiTokens.revoke_token_foreign 550 alice 7 tokens ((λ e f. absurd (omega (arith, f))), tt)

abbrev at : Readings
at = record { resolved_at = 500; touched_at = 501; session_at = 502 }

abbrev db : Db
db = record { users = alice ∷ bob ∷ []; sessions = sessions; api_tokens = tokens }

-- A GET by a token, without a cookie.
abbrev by_header : Request
by_header = record {
  is_http = true;
  method = codes "GET";
  cookies = λ name. none;
  headers =
      λ name. if name == codes "authorization" then some (codes "Bearer sretab_pat_x") else none;
}

serve-Authority_example : Authority crypto at settings by_header db (is_unsafe (codes "GET")) bob
unfolding program
serve-Authority_example = serve-Authority crypto at settings by_header db bob refl refl
