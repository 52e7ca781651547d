-- ===== src/Auth/SignIn.antt =====
-- app/auth/flow.py and app/auth/users.py: what a callback of the OAuth flow does. The answers of
-- GitHub are arguments, and so are the readings of the clock, the new random token and the id that
-- the database gives a new row. A sign-in that is denied writes nothing: its caller rolls back.
pub mod Users
pub mod Session
use sre_tab.Common.{
  if◌then◌else◌, Text, is_nil, text_eq, nat_eq, ◌==◌, scalar, merged, upsert, ℕ, Bool, not, ◌&&◌,
  Option, none, some, List, [], ◌∷◌,
}
use sre_tab.Models.{User, UserSession, Settings}
use sre_tab.Auth.Tokens.{Crypto, compare_secret}
use sre_tab.Auth.Csrf.{or_empty}
use sre_tab.Auth.Sessions.{create_session, revoke_session}
use sre_tab.Auth.Pipeline.{is_authorised}
use sre_tab.Auth.State.{Outstanding, consume}
use sre_tab.Preferences.{Db}
use sre_tab.Preferences.Profile.{ensure_profile}

-- `GitHubProfile`
pub record GitHubProfile : Type 0 where
  pub github_id : ℕ
  pub login : Text
  pub display_name : Option Text
  pub avatar_url : Option Text

-- `exchange_code` and `fetch_profile`, none where they raise `GitHubOAuthError`.
pub record GitHub : Type 0 where
  pub exchange_code : Text → Option Text
  pub fetch_profile : Text → Option GitHubProfile

-- The reasons of `SignInDenied`.
pub data SignInDenied : Type 0 where
  state_unbound state_invalid github_unavailable not_allow_listed : SignInDenied

-- The tables that a sign-in writes.
pub record Tables : Type 0 where
  pub users : List User
  pub sessions : List UserSession
  pub profiles : Db

-- What a callback brings, and what it is given: the clock before the state is redeemed, when it is
-- purged, when the old session is revoked and when the new one starts.
pub record Callback : Type 0 where
  pub code : Text
  pub state : Text
  pub state_cookie : Option Text
  pub current_session_token : Option Text
  pub before_redeem : ℕ
  pub before_purge : ℕ
  pub before_revoke : ℕ
  pub before_session : ℕ
  pub new_user_id : ℕ
  pub new_token : Text

pub data SignIn : Type 0 where
  signed_in : User → Tables → SignIn
  denied : SignInDenied → SignIn

abbrev pub has_github_id : ℕ → User → Bool
has_github_id github_id user = user.github_id == github_id

-- The row of a new account.
abbrev pub new_user : ℕ → GitHubProfile → User
new_user id profile = record {
  id = id;
  github_id = profile.github_id;
  github_login = profile.login;
  display_name = profile.display_name;
  avatar_url = profile.avatar_url;
}

-- The row of a known account, with its mutable fields.
abbrev pub refreshed : GitHubProfile → User → User
refreshed profile user = record {
  id = user.id;
  github_id = user.github_id;
  github_login = profile.login;
  display_name = profile.display_name;
  avatar_url = profile.avatar_url;
}

-- `upsert_user`: the table, and the row that its statement returns.
unfoldable pub upsert_user : ℕ → GitHubProfile → List User → List User × User
unfolding upsert scalar merged
upsert_user new_id profile users = (
  upsert (has_github_id profile.github_id) (new_user new_id profile) (refreshed profile) users,
  merged (new_user new_id profile) (refreshed profile)
      (scalar (has_github_id profile.github_id) users),
)

-- The old session of the browser, if it has one, is revoked.
unfoldable pub revoke_current : Crypto → ℕ → Option Text → List UserSession → List UserSession
unfolding revoke_session
revoke_current crypto now none sessions = sessions
revoke_current crypto now (some []) sessions = sessions
revoke_current crypto now (some (c ∷ token)) sessions =
    (revoke_session crypto now sessions (c ∷ token)).0

-- `complete_sign_in` from the authorised profile on.
unfoldable pub admit : Crypto → Settings → Callback → GitHubProfile → Tables → SignIn
unfolding upsert_user ensure_profile revoke_current create_session
admit crypto settings callback profile tables =
    let (users, user) = upsert_user callback.new_user_id profile tables.users in
    signed_in user (record {
      users = users;
      sessions = create_session crypto settings callback.before_session user callback.new_token (
          revoke_current crypto callback.before_revoke callback.current_session_token
            tables.sessions);
      profiles = ensure_profile user.id tables.profiles;
    })

-- `_load_profile`
unfoldable pub load_profile : GitHub → Text → Option GitHubProfile
load_profile github code = elim (github.exchange_code code) [
  | none ↦ none
  | some access_token ↦ github.fetch_profile access_token
]

-- `complete_sign_in` once the profile is there or not.
unfoldable pub admit_profile : Crypto → Settings → Callback → Option GitHubProfile → Tables → SignIn
unfolding is_authorised admit
admit_profile crypto settings callback none tables = denied github_unavailable
admit_profile crypto settings callback (some profile) tables =
    if is_authorised profile.github_id settings
    then admit crypto settings callback profile tables
    else denied not_allow_listed

-- The cookie names the state, which is not empty (first test of `_validate_state`).
unfoldable pub is_bound : Callback → Bool
unfolding or_empty compare_secret
is_bound callback =
    not (is_nil (or_empty callback.state_cookie))
    && compare_secret (or_empty callback.state_cookie) callback.state

-- `complete_sign_in`: the state store, and the sign-in.
unfoldable pub complete_sign_in :
    Crypto → Settings → GitHub → Callback → Outstanding → Tables → Outstanding × SignIn
unfolding is_bound consume load_profile admit_profile
complete_sign_in crypto settings github callback outstanding tables =
    let (left, redeemed) =
      consume crypto settings.session_secret callback.before_redeem callback.before_purge
        callback.state outstanding in
    if not (is_bound callback)
    then (outstanding, denied state_unbound)
    else if redeemed
    then (left, admit_profile crypto settings callback (load_profile github callback.code) tables)
    else (left, denied state_invalid)
