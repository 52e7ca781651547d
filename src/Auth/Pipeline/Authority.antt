-- ===== src/Auth/Pipeline/Authority.antt =====
-- What a request must present for a route to run, through the middlewares of app/auth.
use sre_tab.Common.{
  ℕ, ◌≡◌, refl, sym, ap, ◌∙◌, Bool, true, Option, none, some, Text, text_eq, nat_eq, arith, inl,
  inr, Option-cases, is_some, eqb_iff, codes, eqb, scalar_sound,
}
use sre_tab.Models.{User, ApiToken, full, Settings}
use sre_tab.Auth.Tokens.{Crypto}
use sre_tab.Auth.Csrf.{Request, require_csrf, or_empty}
use sre_tab.Auth.Sessions.{resolve_session}
use sre_tab.Auth.ApiTokens.{resolve_token}
use sre_tab.Auth.Pipeline.{
  Db, BearerIdentity, Readings, Response, route_result, is_authorised, presented_credential,
  identify, find_user, authenticate, is_unsafe, App, csrf_middleware, admit_identity, offered,
  api_token_middleware, get_current_user, user_route, serve,
}

-- A route that only tells which user it runs for.
abbrev pub whoami : User → Db → Response User × Db
whoami user db = (route_result user, db)

-- The two ways to be somebody: a live session, or a live token of an allow-listed user that comes
-- without the session cookie.
pub data Authority (crypto : Crypto) (at : Readings) (settings : Settings) (request : Request)
    (db : Db) (unsafe : Bool) (user : User) : Type 0 where
  by_session :
      (unsafe ≡ true → require_csrf crypto settings request ≡ true)
      → resolve_session crypto at.session_at db.users db.sessions
          (or_empty (request.cookies settings.session_cookie_name))
        ≡ some user
      → Authority crypto at settings request db unsafe user
  by_token :
      (token : ApiToken) (presented : Text)
      → request.cookies settings.session_cookie_name ≡ none
      → presented_credential (or_empty (request.headers (codes "authorization"))) ≡ some presented
      → resolve_token crypto at.resolved_at db.api_tokens presented ≡ some token
      → find_user token.user_id db ≡ some user
      → is_authorised user.github_id settings ≡ true
      → (unsafe ≡ true → token.scope ≡ full)
      → Authority crypto at settings request db unsafe user

module _ (crypto : Crypto) (at : Readings) (settings : Settings) (request : Request) where
  abbrev route : App User
  route = user_route crypto at settings request whoami

  route-user :
      (identity : Option BearerIdentity) (db : Db) (user : User)
      → (route identity db).0 ≡ route_result user
      → get_current_user crypto at settings request identity db ≡ some user
  unfolding user_route
  route-user identity db user h = ground arith

  csrf-reach :
      (identity : Option BearerIdentity) (db : Db) (user : User)
      → request.is_http ≡ true
      → (csrf_middleware crypto settings request route identity db).0 ≡ route_result user
      → (get_current_user crypto at settings request identity db ≡ some user)
        × (is_unsafe request.method ≡ true
            → is_some (request.cookies settings.session_cookie_name) ≡ true
            → require_csrf crypto settings request ≡ true)
  unfolding csrf_middleware
  csrf-reach identity db user http h =
      (ground (arith, route-user identity db user), λ u c. ground arith)

  module _ (db : Db) where
    -- The user that a token's row names has that id.
    id-find_user :
        (user_id : ℕ) (user : User) → find_user user_id db ≡ some user → user.id ≡ user_id
    unfolding find_user
    id-find_user user_id user h =
        (eqb_iff user.id user_id).0 (scalar_sound (λ u. eqb u.id user_id) db.users h)

    find_user_again :
        (db' : Db) (a b : ℕ) (user : User)
        → find_user a db ≡ some user
        → b ≡ user.id
        → db'.users ≡ db.users
        → find_user b db' ≡ some user
    unfolding find_user
    find_user_again db' a b user h e same =
        let ids : b ≡ a = e ∙ id-find_user a user h in rw (ids, same) h

    identify-some :
        (db' : Db) (token : ApiToken) (identity : BearerIdentity) (found : Option User)
        → identify at settings db token found ≡ (some identity, db')
        → (user : User) × (found ≡ some user)
          × (is_authorised user.github_id settings ≡ true)
          × (identity.scope ≡ token.scope)
          × (identity.user_id ≡ user.id)
          × (db'.users ≡ db.users)
    unfolding identify
    identify-some db' token identity none h = absurd (ground (arith, h))
    identify-some db' token identity (some user) h =
        (user, refl, ground (arith, h), ground (arith, h), ground (arith, h), ground (arith, h))

    -- What `authenticate` finds out about the identity that it returns.
    authenticate-some :
        (db' : Db) (presented : Text) (identity : BearerIdentity)
        → authenticate crypto at settings db presented ≡ (some identity, db')
        → (token : ApiToken) × (user : User) × (resolve_token crypto at.resolved_at db.api_tokens
              presented
            ≡ some token)
          × (find_user token.user_id db ≡ some user)
          × (is_authorised user.github_id settings ≡ true)
          × (identity.scope ≡ token.scope)
          × (find_user identity.user_id db' ≡ some user)
    unfolding authenticate
    authenticate-some db' presented identity h =
        elim (Option-cases (resolve_token crypto at.resolved_at db.api_tokens presented)) [
          | inl unknown ↦ absurd (ground (arith, unknown, h))
          | inr (token, known) ↦
              let (user, found, allowed, scope, id, same) =
                identify-some db' token identity (find_user token.user_id db)
                  (ground (arith, known, h)) in
              (
                token,
                user,
                known,
                found,
                allowed,
                scope,
                find_user_again db' token.user_id identity.user_id user found id same,
              )
        ]

  -- Without an identity and without the cookie nobody is found.
  nobody-get_current_user :
      (db : Db)
      → request.cookies settings.session_cookie_name ≡ none
      → get_current_user crypto at settings request none db ≡ none
  unfolding get_current_user or_empty
  nobody-get_current_user db h = rw h

  abbrev app : App User
  app = csrf_middleware crypto settings request route

  -- The token middleware's last step: a refusal, or the application with that identity, which a
  -- read-only token does not get to with an unsafe method.
  admit_identity-reach :
      (db : Db) (identity : BearerIdentity) (user : User)
      → (admit_identity request app (some identity, db)).0 ≡ route_result user
      → ((app (some identity) db).0 ≡ route_result user)
        × (is_unsafe request.method ≡ true → identity.scope ≡ full)
  unfolding admit_identity
  admit_identity-reach db identity user h = (ground arith, λ u. ground arith)

  module _ (db : Db) (user : User) (http : request.is_http ≡ true) where
    -- With the session cookie the token middleware does not look at the header.
    by_cookie :
        is_some (request.cookies settings.session_cookie_name) ≡ true
        → (serve crypto at settings request route db).0 ≡ route_result user
        → Authority crypto at settings request db (is_unsafe request.method) user
    unfolding serve api_token_middleware get_current_user
    by_cookie cookie h =
        let (found, checked) = csrf-reach none db user http (ground (arith, http, cookie, h)) in
        by_session (λ u. checked u cookie) (ground (arith, found))

    by_bearer :
        (presented : Text) (db' : Db) (found : Option BearerIdentity)
        → request.cookies settings.session_cookie_name ≡ none
        → presented_credential (or_empty (request.headers (codes "authorization"))) ≡ some presented
        → authenticate crypto at settings db presented ≡ (found, db')
        → (admit_identity request app (found, db')).0 ≡ route_result user
        → Authority crypto at settings request db (is_unsafe request.method) user
    by_bearer presented db' none absent e auth h =
        let (reached, _) = csrf-reach none db' user http (unfold admit_identity in h) in
        absurd (ground (arith, reached, nobody-get_current_user db' absent))
    by_bearer presented db' (some identity) absent e auth h =
        let (reached, full_scope) = admit_identity-reach db' identity user h in
        let (current, _) = csrf-reach (some identity) db' user http reached in
        let (token, owner, known, owned, allowed, scope, same) =
          authenticate-some db db' presented identity auth in
        let is_user : owner ≡ user = unfold get_current_user in ground (arith, same, current) in
        by_token token presented absent e known (owned ∙ ap some is_user) (rw (← is_user) allowed)
          (λ u. sym scope ∙ full_scope u)

    by_header :
        request.cookies settings.session_cookie_name ≡ none
        → (credential : Option Text)
        → presented_credential (or_empty (request.headers (codes "authorization"))) ≡ credential
        → (offered crypto at settings request app db credential).0 ≡ route_result user
        → Authority crypto at settings request db (is_unsafe request.method) user
    unfolding offered
    by_header absent none e h =
        let (found, _) = csrf-reach none db user http h in
        absurd (ground (arith, found, nobody-get_current_user db absent))
    by_header absent (some presented) e h =
        let (found, db') = authenticate crypto at settings db presented in
        by_bearer presented db' found absent e refl h

-- A request whose route runs for a user has the authority for it: a live session of that user,
-- with a CSRF token valid for it if the method is unsafe; or, without the session cookie, a live
-- token of that user, who is still on the allow-list, of full scope if the method is unsafe.
pub serve-Authority :
    (crypto : Crypto) (at : Readings) (settings : Settings) (request : Request) (db : Db)
    (user : User)
    → request.is_http ≡ true
    → (serve crypto at settings request (user_route crypto at settings request whoami) db).0
      ≡ route_result user
    → Authority crypto at settings request db (is_unsafe request.method) user
unfolding serve api_token_middleware
serve-Authority crypto at settings request db user http h =
    elim (Option-cases (request.cookies settings.session_cookie_name)) [
      | inl absent ↦
          by_header crypto at settings request db user http absent _ refl
            (ground (arith, http, absent, h))
      | inr (token, cookie) ↦
          by_cookie crypto at settings request db user http (ground (arith, cookie)) h
    ]
