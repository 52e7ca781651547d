-- ===== src/Auth/Sessions.antt =====
-- app/auth/sessions.py: the server-side sessions. A statement of the source is one function on the
-- table; the clock that it reads is an argument.
use sre_tab.Common.{
  ℕ, ◌+◌, ◌*◌, ◌≤◌, ◌≡◌, refl, ap, ◌∙◌, Bool, true, false, not, ◌&&◌, Option, none, some, List, [],
  ◌∷◌, ◌++◌, if◌then◌else◌, Text, ◌==◌, text_eq, nat_eq, arith, is_some, text_beq_iff, ltb, leb,
  eqb, scalar, delete_rows, update_rows, count_rows, scalar-delete_rows, scalar-update_rows-none,
  scalar-append_none,
}
use sre_tab.Models.{User, UserSession, Settings, day}
use sre_tab.Auth.Tokens.{Crypto, hash_session_token}

-- `REVOKED_RETENTION_DAYS`
abbrev pub revoked_retention_days : ℕ
revoked_retention_days = 7

-- `token` is the random text that `generate_session_token` returns; the caller hands it on.
unfoldable pub create_session :
    Crypto → Settings → ℕ → User → Text → List UserSession → List UserSession
create_session crypto settings now user token sessions =
    sessions
    ++ record {
      user_id = user.id;
      token_hash = hash_session_token crypto token;
      expires_at = now + settings.session_ttl_days * day;
      revoked_at = none;
    }
      ∷ []

-- The `WHERE` of `resolve_session`.
unfoldable pub is_live : Text → ℕ → UserSession → Bool
is_live token_hash now row =
    row.token_hash == token_hash && not (is_some row.revoked_at) && ltb now row.expires_at

-- The user that a session row joins to.
unfoldable pub owner : List User → Option UserSession → Option User
owner users none = none
owner users (some row) = scalar (λ user. eqb user.id row.user_id) users

-- `scalar_one_or_none`: `token_hash` and the users' ids are unique, so the first match is the one.
unfoldable pub resolve_session : Crypto → ℕ → List User → List UserSession → Text → Option User
unfolding owner
resolve_session crypto now users sessions token =
    owner users (scalar (is_live (hash_session_token crypto token) now) sessions)

unfoldable pub is_unrevoked : Text → UserSession → Bool
is_unrevoked token_hash row = row.token_hash == token_hash && not (is_some row.revoked_at)

-- The table and whether a session was revoked.
unfoldable pub revoke_session : Crypto → ℕ → List UserSession → Text → List UserSession × Bool
revoke_session crypto now sessions token =
    let hit = is_unrevoked (hash_session_token crypto token) in
    (
      update_rows hit (λ row. record row { revoked_at = some now }) sessions,
      ltb 0 (count_rows hit sessions),
    )

-- `dead`, with the comparison to a missing `revoked_at` false.
unfoldable pub is_dead : ℕ → ℕ → UserSession → Bool
is_dead moment revoked_days row = elim row.revoked_at [
  | none ↦ leb row.expires_at moment
  | some at ↦ leb (at + revoked_days * day) moment
]

-- The table and the number of rows removed.
unfoldable pub prune_sessions : ℕ → ℕ → List UserSession → List UserSession × ℕ
prune_sessions moment revoked_days sessions = (
  delete_rows (is_dead moment revoked_days) sessions,
  count_rows (is_dead moment revoked_days) sessions,
)

live_not_dead :
    (hash : Text) (moment now days : ℕ) (row : UserSession)
    → moment ≤ now
    → is_live hash now row ≡ true
    → is_dead moment days row ≡ false
unfolding is_live is_dead
live_not_dead hash moment now days row le h = ground arith

-- Pruning at any retention signs nobody out: looked at from that moment on, every token resolves
-- as it would have.
pub resolve_session-prune_sessions :
    (crypto : Crypto) (moment now days : ℕ) (users : List User) (sessions : List UserSession)
    (token : Text)
    → moment ≤ now
    → resolve_session crypto now users (prune_sessions moment days sessions).0 token
      ≡ resolve_session crypto now users sessions token
unfolding resolve_session prune_sessions
resolve_session-prune_sessions crypto moment now days users sessions token le = ap (owner users) (
    scalar-delete_rows (is_live (hash_session_token crypto token) now) (is_dead moment days)
      sessions (λ row. live_not_dead _ moment now days row le))

-- What is not a candidate for revocation, and what has been revoked, is not live.
not_live_of_revoked :
    (hash : Text) (now : ℕ) (row : UserSession)
    → is_unrevoked hash row ≡ false
    → is_live hash now row ≡ false
unfolding is_unrevoked is_live
not_live_of_revoked hash now row h = ground arith

-- No row of a revoked token is live.
pub revoke_session_not_live :
    (crypto : Crypto) (at now : ℕ) (sessions : List UserSession) (token : Text)
    → scalar
        (is_live (hash_session_token crypto token) now)
        (revoke_session crypto at sessions token).0
      ≡ none
unfolding revoke_session is_live
revoke_session_not_live crypto at now sessions token =
    scalar-update_rows-none (is_live (hash_session_token crypto token) now)
      (is_unrevoked (hash_session_token crypto token)) (λ row. record row { revoked_at = some at })
      sessions (not_live_of_revoked _ now) (λ row h. ground arith)

-- Once revoked, a token never signs anybody in again, at whatever time it is presented.
pub resolve_session-revoke_session :
    (crypto : Crypto) (at now : ℕ) (users : List User) (sessions : List UserSession) (token : Text)
    → resolve_session crypto now users (revoke_session crypto at sessions token).0 token ≡ none
unfolding resolve_session
resolve_session-revoke_session crypto at now users sessions token =
    ap (owner users) (revoke_session_not_live crypto at now sessions token)

-- A fresh token of a user in the table, whose digest no live session has, resolves to that user
-- until the session's lifetime is over, and to nobody from then on.
pub resolve_session-create_session :
    (crypto : Crypto) (settings : Settings) (at now : ℕ) (users : List User) (user : User)
    (token : Text) (sessions : List UserSession)
    → scalar (is_live (hash_session_token crypto token) now) sessions ≡ none
    → scalar (λ u. eqb u.id user.id) users ≡ some user
    → resolve_session crypto now users (create_session crypto settings at user token sessions) token
      ≡ (if ltb now (at + settings.session_ttl_days * day) then some user else none)
unfolding resolve_session create_session is_live
resolve_session-create_session crypto settings at now users user token sessions fresh known =
    ap (owner users) (scalar-append_none _ sessions _ fresh)
    ∙ rw ((text_beq_iff (hash_session_token crypto token) _).1 refl) (ground arith)
