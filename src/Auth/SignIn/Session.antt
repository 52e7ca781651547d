-- ===== src/Auth/SignIn/Session.antt =====
-- Who is signed in after a callback of app/auth/flow.py.
use sre_tab.Common.{
  ltb, eqb, if◌then◌else◌, Bool-cases, All, Text, text_eq, nat_eq, ◌==◌, eq_of_true, scalar,
  exists_row, update_rows, scalar-append_none, ℕ, ◌+◌, ◌*◌, ◌≡◌, refl, sym, subst, ap, ◌∙◌, inl,
  inr, Bool, true, false, Option, none, some, List, [], ◌∷◌, arith,
}
use sre_tab.Models.{User, UserSession, Settings, day}
use sre_tab.Auth.Tokens.{Crypto, compare_secret, hash_session_token}
use sre_tab.Auth.Csrf.{or_empty}
use sre_tab.Auth.Sessions.{
  create_session, revoke_session, resolve_session, is_live, owner, resolve_session-create_session,
  revoke_session_not_live,
}
use sre_tab.Auth.Pipeline.{is_authorised}
use sre_tab.Auth.State.{Outstanding, consume}
use sre_tab.Auth.SignIn.{
  GitHubProfile, GitHub, Tables, Callback, signed_in, has_github_id, new_user, upsert_user,
  revoke_current, admit, load_profile, admit_profile, is_bound, complete_sign_in,
}
use sre_tab.Auth.SignIn.Users.{UniqueIds, scalar-upsert_id, merged_described}

-- No session has the digest.
abbrev pub IsFresh : Text → List UserSession → Type 0
IsFresh hash sessions = exists_row (λ row. row.token_hash == hash) sessions ≡ false

fresh_not_live :
    (hash : Text) (now : ℕ) (sessions : List UserSession)
    → IsFresh hash sessions
    → scalar (is_live hash now) sessions ≡ none
unfolding exists_row scalar is_live
fresh_not_live hash now [] h = refl
fresh_not_live hash now (row ∷ sessions) h = ground (arith, h, fresh_not_live hash now sessions)

update_rows-IsFresh :
    (hash : Text) (p : UserSession → Bool) (at : ℕ) (sessions : List UserSession)
    → IsFresh hash sessions
    → IsFresh hash (update_rows p (λ row. record row { revoked_at = some at }) sessions)
unfolding exists_row update_rows
update_rows-IsFresh hash p at [] h = refl
update_rows-IsFresh hash p at (row ∷ sessions) h =
    ground (arith, h, update_rows-IsFresh hash p at sessions)

revoke_current-IsFresh :
    (crypto : Crypto) (hash : Text) (at : ℕ) (token : Option Text) (sessions : List UserSession)
    → IsFresh hash sessions
    → IsFresh hash (revoke_current crypto at token sessions)
unfolding revoke_current revoke_session
revoke_current-IsFresh crypto hash at none sessions h = h
revoke_current-IsFresh crypto hash at (some []) sessions h = h
revoke_current-IsFresh crypto hash at (some (c ∷ token)) sessions h =
    update_rows-IsFresh hash _ at sessions h

-- Somebody who is signed in: on the allow-list, from the browser that began the sign-in, with a state
-- that is redeemed now, and in a session that lasts for its lifetime.
pub record IsSignedIn (crypto : Crypto) (settings : Settings) (callback : Callback)
    (outstanding : Outstanding) (now : ℕ) (user : User) (after : Tables) : Type 0 where
  pub authorised : is_authorised user.github_id settings ≡ true
  pub bound : or_empty callback.state_cookie ≡ callback.state
  pub redeemed :
      (consume crypto settings.session_secret callback.before_redeem callback.before_purge
        callback.state outstanding).1
      ≡ true
  pub in_session : resolve_session crypto now after.users after.sessions callback.new_token ≡ (
      if ltb now (callback.before_session + settings.session_ttl_days * day)
      then some user
      else none)

admit_profile_some :
    (crypto : Crypto) (settings : Settings) (callback : Callback) (found : Option GitHubProfile)
    (tables after : Tables) (user : User)
    → admit_profile crypto settings callback found tables ≡ signed_in user after
    → (profile : GitHubProfile) × ((is_authorised profile.github_id settings ≡ true)
        × (admit crypto settings callback profile tables ≡ signed_in user after))
unfolding admit_profile
admit_profile_some crypto settings callback none tables after user h = absurd (ground (arith, h))
admit_profile_some crypto settings callback (some profile) tables after user h =
    elim (Bool-cases (is_authorised profile.github_id settings)) [
      | inl yes_listed ↦ (profile, (yes_listed, ground (arith, h, yes_listed)))
      | inr unlisted ↦ absurd (ground (arith, h, unlisted))
    ]

signed_in_same : (a b : User) (s t : Tables) → signed_in a s ≡ signed_in b t → (a ≡ b) × (s ≡ t)
signed_in_same a b s t h = (cc, cc)

-- The session that an admission starts, in the tables that it leaves.
admit-session :
    (crypto : Crypto) (settings : Settings) (callback : Callback) (profile : GitHubProfile)
    (tables after : Tables) (user : User) (now : ℕ)
    → UniqueIds tables.users
    → All (λ (other : User). eqb other.id callback.new_user_id ≡ false) tables.users
    → IsFresh (hash_session_token crypto callback.new_token) tables.sessions
    → admit crypto settings callback profile tables ≡ signed_in user after
    → (user.github_id ≡ profile.github_id)
      × (resolve_session crypto now after.users after.sessions callback.new_token ≡ (
          if ltb now (callback.before_session + settings.session_ttl_days * day)
          then some user
          else none))
unfolding admit upsert_user
admit-session crypto settings callback profile tables after user now unique unused fresh h =
    let (same_user, same_tables) = signed_in_same _ user _ after h in
    (
      sym (ap (λ (u : User). u.github_id) same_user)
          ∙ ap (λ (u : User). u.github_id)
              (merged_described callback.new_user_id profile tables.users
                (scalar (has_github_id profile.github_id) tables.users) refl),
      subst
          (λ (r : User × Tables).
            resolve_session crypto now r.1.users r.1.sessions callback.new_token ≡ (
              if ltb now (callback.before_session + settings.session_ttl_days * day)
              then some r.0
              else none))
          (pair same_user same_tables)
          (resolve_session-create_session crypto settings callback.before_session now _ _
            callback.new_token _
            (fresh_not_live (hash_session_token crypto callback.new_token) now _ (
              revoke_current-IsFresh crypto _ callback.before_revoke callback.current_session_token
                tables.sessions fresh))
            (scalar-upsert_id (has_github_id profile.github_id)
              (new_user callback.new_user_id profile) profile tables.users unused unique)),
    )
  where
    pair : {a b : User} → {s t : Tables} → a ≡ b → s ≡ t → ◌≡◌ {A = User × Tables} (a, s) (b, t)
    pair p q = cc

-- Somebody is signed in only with the state that their browser's cookie holds, while it is
-- outstanding and unexpired, as a GitHub account on the allow-list; and the new token is that user's
-- until the lifetime of a session is over. Users have unique ids, the new id is not in use, and the
-- digest of the new token is not in the table.
pub complete_sign_in-IsSignedIn :
    (crypto : Crypto) (settings : Settings) (github : GitHub) (callback : Callback)
    (outstanding : Outstanding) (tables after : Tables) (user : User) (now : ℕ)
    → UniqueIds tables.users
    → All (λ (other : User). eqb other.id callback.new_user_id ≡ false) tables.users
    → IsFresh (hash_session_token crypto callback.new_token) tables.sessions
    → (complete_sign_in crypto settings github callback outstanding tables).1 ≡ signed_in user after
    → IsSignedIn crypto settings callback outstanding now user after
unfolding complete_sign_in
complete_sign_in-IsSignedIn crypto settings github callback outstanding tables after user now unique
      unused fresh h =
    let bound : is_bound callback ≡ true = ground (arith, h) in
    let redeemed : (consume crypto settings.session_secret callback.before_redeem
          callback.before_purge callback.state outstanding).1
        ≡ true =
      ground (arith, h, bound) in
    let (profile, (listed, admitted)) =
      admit_profile_some crypto settings callback (load_profile github callback.code) tables after
        user (ground (arith, h, bound, redeemed)) in
    let (same_id, session) =
      admit-session crypto settings callback profile tables after user now unique unused fresh
        admitted in
    record {
      authorised = ap (λ id. is_authorised id settings) same_id ∙ listed;
      bound = cookie_is_state bound;
      redeemed = redeemed;
      in_session = session;
    }
  where
    cookie_is_state : is_bound callback ≡ true → or_empty callback.state_cookie ≡ callback.state
    cookie_is_state b =
        unfold is_bound compare_secret in
        eq_of_true {K = Text} (or_empty callback.state_cookie) callback.state (ground (arith, b))

old_not_resolved :
    (crypto : Crypto) (settings : Settings) (at now start : ℕ) (users : List User) (user : User)
    (old new : Text) (sessions : List UserSession)
    → (hash_session_token crypto new == hash_session_token crypto old) ≡ false
    → resolve_session crypto now users
        (create_session crypto settings start user new (revoke_session crypto at sessions old).0)
        old
      ≡ none
unfolding resolve_session create_session
old_not_resolved crypto settings at now start users user old new sessions differ =
    ap (owner users) (
      scalar-append_none (is_live (hash_session_token crypto old) now)
        (revoke_session crypto at sessions old).0 _
        (revoke_session_not_live crypto at now sessions old)
      ∙ not_new)
  where
    started : UserSession
    started = record {
      user_id = user.id;
      token_hash = hash_session_token crypto new;
      expires_at = start + settings.session_ttl_days * day;
      revoked_at = none;
    }

    not_new :
        (if is_live (hash_session_token crypto old) now started then some started else none) ≡ none
    not_new = unfold is_live in rw differ refl

-- A sign-in ends the session that the browser came with: its token resolves to nobody from then on,
-- at whatever time, if its digest is not that of the new token.
pub complete_sign_in_rotates :
    (crypto : Crypto) (settings : Settings) (github : GitHub) (callback : Callback)
    (outstanding : Outstanding) (tables after : Tables) (user : User) (now c : ℕ) (token : Text)
    → callback.current_session_token ≡ some (c ∷ token)
    → (hash_session_token crypto callback.new_token == hash_session_token crypto (c ∷ token))
      ≡ false
    → (complete_sign_in crypto settings github callback outstanding tables).1 ≡ signed_in user after
    → resolve_session crypto now after.users after.sessions (c ∷ token) ≡ none
unfolding complete_sign_in
complete_sign_in_rotates crypto settings github callback outstanding tables after user now c token
      current differ h =
    let bound : is_bound callback ≡ true = ground (arith, h) in
    let redeemed : (consume crypto settings.session_secret callback.before_redeem
          callback.before_purge callback.state outstanding).1
        ≡ true =
      ground (arith, h, bound) in
    let (profile, (_, admitted)) =
      admit_profile_some crypto settings callback (load_profile github callback.code) tables after
        user (ground (arith, h, bound, redeemed)) in
    of_admit profile admitted
  where
    of_admit :
        (profile : GitHubProfile)
        → admit crypto settings callback profile tables ≡ signed_in user after
        → resolve_session crypto now after.users after.sessions (c ∷ token) ≡ none
    of_admit profile admitted =
        unfold admit revoke_current in
        let (_, same_tables) = signed_in_same _ user _ after admitted in
        subst (λ (t : Tables). resolve_session crypto now t.users t.sessions (c ∷ token) ≡ none)
          same_tables
          (rw current (
            old_not_resolved crypto settings callback.before_revoke now callback.before_session
              (upsert_user callback.new_user_id profile tables.users).0
              (upsert_user callback.new_user_id profile tables.users).1 (c ∷ token)
              callback.new_token tables.sessions differ))
