-- ===== src/Tests/SignInTests.antt =====
-- app/auth/state.py and app/auth/flow.py: a sign-in of one account. The digests are stood in for by
-- functions that write no separator.
use sre_tab.Common.{
  count_rows, length, All, Text, codes, lacks, text_beq, text_eq, nat_eq, ◌==◌, scalar, exists_row,
  ◌+◌, ◌≤◌, ◌≡◌, refl, true, false, none, some, List, [], ◌∷◌, ◌++◌, map, arith,
}
use sre_tab.Models.{Settings}
use sre_tab.Auth.Tokens.{Crypto, hash_session_token}
use sre_tab.Auth.Sessions.{resolve_session}
use sre_tab.Auth.State.{
  dot, max_outstanding, Outstanding, issue, consume, Call, issued, was_reset, after_calls,
}
use sre_tab.Auth.State.Once.{nonce_of, IsOther, consume_once}
use sre_tab.Auth.State.Issue.{consume-issue}
use sre_tab.Auth.State.Bounds.{after_calls_bounded}
use sre_tab.Auth.SignIn.{
  GitHubProfile, GitHub, state_unbound, not_allow_listed, Tables, Callback, SignIn, signed_in,
  denied, has_github_id, new_user, upsert_user, complete_sign_in,
}
use sre_tab.Auth.SignIn.Users.{known_id, upsert_user_lem}
use sre_tab.Auth.SignIn.Session.{IsSignedIn, complete_sign_in-IsSignedIn, complete_sign_in_rotates}

abbrev crypto : Crypto
crypto = record {
  sha256 = λ text. text;
  hmac = λ secret message. map (λ c. 100 + c) (secret ++ message);
}

no_dots : (s : Text) → lacks dot (map (λ c. 100 + c) s) ≡ true
unfolding lacks
no_dots [] = refl
no_dots (c ∷ s) = ground (arith, no_dots s)

abbrev secret : Text
secret = codes "key"

abbrev issued_state : Outstanding × Text
issued_state = issue crypto 600 secret (codes "n1") 5000000 5000001 []

consume-issue_example :
    (consume crypto secret 9000000 9000001
      (issue crypto 600 secret (codes "n1") 5000000 5000001 []).1
      (issue crypto 600 secret (codes "n1") 5000000 5000001 []).0).1
    ≡ true
consume-issue_example =
    consume-issue crypto 600 secret (codes "n1") 5000000 5000001 9000000 9000001 []
      (unfold lacks in refl) (λ message. no_dots (secret ++ message)) (omega arith) (omega arith)

-- Calls that come between: another sign-in, and a restart of the store.
abbrev between : List Call
between = issued (codes "n2") 9000002 9000003 ∷ was_reset ∷ []

others : All (IsOther (nonce_of issued_state.1)) between
unfolding nonce_of issue text_beq
others = (refl, (tt, tt))

comes_back : (consume crypto secret 9000000 9000001 issued_state.1 issued_state.0).1 ≡ true
comes_back =
    consume-issue crypto 600 secret (codes "n1") 5000000 5000001 9000000 9000001 []
      (unfold lacks in refl) (λ message. no_dots (secret ++ message)) (omega arith) (omega arith)

consume_once_example :
    (consume crypto secret 9500000 9500001 issued_state.1 (
      after_calls crypto 600 secret between
        (consume crypto secret 9000000 9000001 issued_state.1 issued_state.0).0)).1
    ≡ false
consume_once_example =
    consume_once crypto 600 secret issued_state.1 9000000 9000001 9500000 9500001 between
      issued_state.0 others comes_back

after_calls_bounded_example : length (after_calls crypto 600 secret between []) ≤ max_outstanding
after_calls_bounded_example = after_calls_bounded crypto 600 secret between [] (omega arith)

abbrev settings : Settings
settings = record {
  allowed_github_ids = 42 ∷ [];
  session_secret = secret;
  session_ttl_days = 14;
  session_cookie_name = codes "session";
  csrf_cookie_name = codes "csrf";
  csrf_header_name = codes "x-csrf";
  feed_retention_days = 90;
  source_refresh_enabled = true;
}

abbrev profile : GitHubProfile
profile = record { github_id = 42; login = codes "ann"; display_name = none; avatar_url = none }

abbrev github : GitHub
github = record { exchange_code = λ code. some code; fetch_profile = λ token. some profile }

abbrev tables : Tables
tables = record {
  users = new_user 1 (record profile { github_id = 7 }) ∷ [];
  sessions =
      record { user_id = 1; token_hash = codes "old"; expires_at = 99; revoked_at = none } ∷ [];
  profiles = record {
    preferences = [];
    topics = [];
    sources = [];
    preference_topics = [];
    preference_sources = [];
    muted_terms = [];
    preference_languages = [];
  };
}

abbrev callback : Callback
callback = record {
  code = codes "c";
  state = issued_state.1;
  state_cookie = some issued_state.1;
  current_session_token = some (codes "old");
  before_redeem = 9000000;
  before_purge = 9000001;
  before_revoke = 9000002;
  before_session = 9000003;
  new_user_id = 2;
  new_token = codes "new";
}

abbrev tables_of : SignIn → Tables
tables_of (signed_in user after) = after
tables_of (denied reason) = tables

abbrev run : SignIn
run = (complete_sign_in crypto settings github callback issued_state.0 tables).1

signed : run ≡ signed_in (new_user 2 profile) (tables_of run)
unfolding complete_sign_in issue text_beq
signed = refl

unbound :
    (complete_sign_in crypto settings github
      (record callback { state_cookie = none })
      issued_state.0
      tables).1
    ≡ denied state_unbound
unfolding complete_sign_in
unbound = refl

unlisted :
    (complete_sign_in crypto
      (record settings { allowed_github_ids = [] })
      github
      callback
      issued_state.0
      tables).1
    ≡ denied not_allow_listed
unfolding complete_sign_in issue text_beq
unlisted = refl

fresh :
    exists_row
      (λ row. row.token_hash == hash_session_token crypto callback.new_token)
      tables.sessions
    ≡ false
unfolding exists_row text_beq hash_session_token
fresh = refl

complete_sign_in-IsSignedIn_example :
    IsSignedIn crypto settings callback issued_state.0 10000000 (new_user 2 profile) (tables_of run)
complete_sign_in-IsSignedIn_example =
    complete_sign_in-IsSignedIn crypto settings github callback issued_state.0 tables
      (tables_of run) (new_user 2 profile) 10000000 (tt, tt) (refl, tt) fresh signed

other_digest :
    (hash_session_token crypto callback.new_token == hash_session_token crypto (codes "old"))
    ≡ false
unfolding text_beq hash_session_token
other_digest = refl

complete_sign_in_rotates_example :
    resolve_session crypto 10000000 (tables_of run).users (tables_of run).sessions (codes "old")
    ≡ none
complete_sign_in_rotates_example =
    complete_sign_in_rotates crypto settings github callback issued_state.0 tables (tables_of run)
      (new_user 2 profile) 10000000 b'o' (codes "ld") refl other_digest signed

upsert_user_lem_example :
    (count_rows (has_github_id 42) (upsert_user 2 profile tables.users).0 ≡ 1)
    × (scalar (has_github_id 42) (upsert_user 2 profile tables.users).0
        ≡ some (upsert_user 2 profile tables.users).1)
    × (((upsert_user 2 profile tables.users).1
          ≡ new_user (known_id 2 (scalar (has_github_id 42) tables.users)) profile)
        × (scalar (has_github_id 7) (upsert_user 2 profile tables.users).0
            ≡ scalar (has_github_id 7) tables.users)
        × (count_rows (has_github_id 7) (upsert_user 2 profile tables.users).0
            ≡ count_rows (has_github_id 7) tables.users))
upsert_user_lem_example =
    upsert_user_lem 2 profile tables.users 7 refl (unfold count_rows in omega arith)
