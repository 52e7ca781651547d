-- ===== src/Auth/Pipeline.antt =====
-- app/auth/bearer.py, app/auth/allowlist.py, app/auth/csrf_middleware.py and app/api/deps.py: what
-- stands between a request and a route. A middleware is a function of the application that it
-- wraps. Each statement that reads the clock has its own reading.
pub mod Authority
use sre_tab.Common.{
  ℕ, zero, suc, ◌+◌, ◌-◌, ◌*◌, ◌/◌, ◌≤◌, ◌<◌, ◌≡◌, ◌≢◌, ◌↔◌, ◌⊎◌, refl, sym, ap, ◌∙◌, Bool, true,
  false, not, ◌&&◌, ◌||◌, Option, none, some, List, [], ◌∷◌, ◌++◌, map, if◌then◌else◌, Text, ◌==◌,
  text_eq, nat_eq, arith, inl, inr, Bool-cases, Option-cases, is_some, eq_of_true, eq_refl,
  text_beq_iff, text_beq, eqb_iff, false_of_ne, ne_of_false, is_nil, codes, ltb, leb, eqb, ltb→lt,
  ltb→le, lt→ltb, leb→le, le→leb, leb→lt, length, take, drop, All, All-append, All-map,
  length-append, select, scalar, exists_row, delete_rows, update_rows, count_rows,
  count_rows-delete_rows, scalar_sound, exists_row-scalar, scalar-delete_rows,
  scalar-update_rows-none, scalar-update_rows_some, scalar-append_none, update_rows_none, sort_by,
  insert_by, Sorted, Apart, Transitive, sort_by-Sorted, select-sort_by, select-Apart,
  count_rows-sort_by, starts_with, strip, lower, partition, split, lacks, min,
}
use sre_tab.Models.{User, UserSession, ApiToken, ApiTokenScope, read, full, Settings}
use sre_tab.Auth.Tokens.{Crypto}
use sre_tab.Auth.Csrf.{Request, require_csrf, or_empty}
use sre_tab.Auth.Sessions.{resolve_session}
use sre_tab.Auth.ApiTokens.{resolve_token, touch_last_used}

-- The tables that decide who is calling.
pub record Db : Type 0 where
  pub users : List User
  pub sessions : List UserSession
  pub api_tokens : List ApiToken

pub record BearerIdentity : Type 0 where
  pub token_id : ℕ
  pub user_id : ℕ
  pub scope : ApiTokenScope

-- What the clock shows when a token, its last use and a session are looked at.
pub record Readings : Type 0 where
  pub resolved_at : ℕ
  pub touched_at : ℕ
  pub session_at : ℕ

-- What a request gets: an error of the given status, or what its route returns.
pub data Response (R : Type 0) : Type 0 where
  http_error : ℕ → Response R
  route_result : R → Response R

unfoldable pub contains_id : ℕ → List ℕ → Bool
contains_id x [] = false
contains_id x (y ∷ ys) = if eqb x y then true else contains_id x ys

-- `is_authorised`
unfoldable pub is_authorised : ℕ → Settings → Bool
unfolding contains_id
is_authorised github_id settings =
    if is_nil settings.allowed_github_ids
    then false
    else contains_id github_id settings.allowed_github_ids

-- `presented_credential`; the scheme is "bearer" in any case.
unfoldable pub presented_credential : Text → Option Text
unfolding strip
presented_credential authorization =
    let (scheme, found, rest) = partition b' ' authorization in
    if not found || not (lower scheme == codes "bearer")
    then none
    else let credential = strip rest in if is_nil credential then none else some credential

-- The identity of a live token of an allow-listed user, and the use of it recorded.
unfoldable pub identify :
    Readings → Settings → Db → ApiToken → Option User → Option BearerIdentity × Db
identify at settings db token none = (none, db)
identify at settings db token (some user) =
    if is_authorised user.github_id settings
    then (
      some (record { token_id = token.id; user_id = user.id; scope = token.scope }),
      record db { api_tokens = touch_last_used at.touched_at token.id db.api_tokens },
    )
    else (none, db)

unfoldable pub find_user : ℕ → Db → Option User
find_user user_id db = scalar (λ user. eqb user.id user_id) db.users

-- `authenticate`
unfoldable pub authenticate : Crypto → Readings → Settings → Db → Text → Option BearerIdentity × Db
unfolding identify find_user
authenticate crypto at settings db presented =
    elim (resolve_token crypto at.resolved_at db.api_tokens presented) [
      | none ↦ (none, db)
      | some token ↦ identify at settings db token (find_user token.user_id db)
    ]

-- `UNSAFE_METHODS`
unfoldable pub is_unsafe : Text → Bool
is_unsafe method =
    method == codes "POST"
    || method == codes "PATCH"
    || method == codes "PUT"
    || method == codes "DELETE"

-- An application, as a middleware sees it: it is handed the identity that
-- `request.state.api_token` holds, and the database.
abbrev pub App : Type 0 → Type 0
App R = Option BearerIdentity → Db → Response R × Db

module _ {R : Type 0} where
  -- `CSRFMiddleware.__call__`
  unfoldable pub csrf_middleware : Crypto → Settings → Request → App R → App R
  csrf_middleware crypto settings request app identity db =
      if not request.is_http || not (is_unsafe request.method)
      then app identity db
      else if not (is_some (request.cookies settings.session_cookie_name))
      then app identity db
      else if require_csrf crypto settings request
      then app identity db
      else (http_error 403, db)

  -- The end of `ApiTokenMiddleware.__call__`, with what `_authenticate` found.
  unfoldable pub admit_identity : Request → App R → Option BearerIdentity × Db → Response R × Db
  admit_identity request app (none, db) = app none db
  admit_identity request app (some identity, db) = elim identity.scope [
    | read ↦ if is_unsafe request.method then (http_error 403, db) else app (some identity) db
    | full ↦ app (some identity) db
  ]

  unfoldable pub offered :
      Crypto → Readings → Settings → Request → App R → Db → Option Text → Response R × Db
  unfolding admit_identity
  offered crypto at settings request app db none = app none db
  offered crypto at settings request app db (some presented) =
      admit_identity request app (authenticate crypto at settings db presented)

  -- `ApiTokenMiddleware.__call__`. No identity is set before it runs.
  unfoldable pub api_token_middleware :
      Crypto → Readings → Settings → Request → App R → Db → Response R × Db
  unfolding offered
  api_token_middleware crypto at settings request app db =
      if not request.is_http
      then app none db
      else if is_some (request.cookies settings.session_cookie_name)
      then app none db
      else offered crypto at settings request app db
          (presented_credential (or_empty (request.headers (codes "authorization"))))

-- `get_current_user`, for a bearer identity, then for a session cookie.
unfoldable pub get_current_user :
    Crypto → Readings → Settings → Request → Option BearerIdentity → Db → Option User
unfolding find_user
get_current_user crypto at settings request (some identity) db = find_user identity.user_id db
get_current_user crypto at settings request none db =
    let token = or_empty (request.cookies settings.session_cookie_name) in
    if is_nil token then none else resolve_session crypto at.session_at db.users db.sessions token

-- `require_interactive_session`: false where it raises its 403.
unfoldable pub require_interactive_session : Option BearerIdentity → Bool
require_interactive_session identity = not (is_some identity)

module _ {R : Type 0} where
  -- A route with a `CurrentUser`: the 401, or the body for that user.
  unfoldable pub user_route :
      Crypto → Readings → Settings → Request → (User → Db → Response R × Db) → App R
  unfolding get_current_user
  user_route crypto at settings request body identity db =
      elim (get_current_user crypto at settings request identity db) [
        | none ↦ (http_error 401, db)
        | some user ↦ body user db
      ]

  -- A route of the token-management router: its dependency runs first.
  unfoldable pub token_route :
      Crypto → Readings → Settings → Request → (User → Db → Response R × Db) → App R
  token_route crypto at settings request body identity db =
      if require_interactive_session identity
      then user_route crypto at settings request body identity db
      else (http_error 403, db)

  -- The order of `create_app`: the token middleware around the CSRF middleware around the router.
  unfoldable pub serve : Crypto → Readings → Settings → Request → App R → Db → Response R × Db
  serve crypto at settings request route db =
      api_token_middleware crypto at settings request
        (csrf_middleware crypto settings request route) db
