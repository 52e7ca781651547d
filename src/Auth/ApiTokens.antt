-- ===== src/Auth/ApiTokens.antt =====
-- app/auth/api_tokens.py and the handlers of app/api/v1/tokens.py: the long-lived API tokens.
use sre_tab.Common.{
  ℕ, ◌≡◌, ◌≢◌, refl, Bool, true, false, not, ◌&&◌, ◌||◌, Option, none, some, List, [], ◌∷◌, ◌++◌,
  if◌then◌else◌, Text, ◌==◌, text_eq, nat_eq, arith, is_some, ltb, eqb, All, select, scalar,
  update_rows, count_rows, scalar-update_rows_some, update_rows_none, sort_by, starts_with,
}
use sre_tab.Models.{User, ApiToken, ApiTokenScope}
use sre_tab.Auth.Tokens.{
  Crypto, hash_api_token, generate_api_token, api_token_prefix, api_token_display_prefix,
}

-- `create_token`: the table with the new row, the row, and the raw value. The row id and the
-- creation time are the database's.
unfoldable pub create_token :
    Crypto
    → (id now : ℕ) → User
    → (label : Text) → ApiTokenScope
    → (expires_at : Option ℕ) → (random : Text) → List ApiToken
    → List ApiToken × ApiToken × Text
create_token crypto id now user label scope expires_at random tokens =
    let value = generate_api_token random in
    let token : ApiToken = record {
      id = id;
      user_id = user.id;
      label = label;
      token_hash = hash_api_token crypto value;
      display_prefix = api_token_display_prefix value;
      scope = scope;
      created_at = now;
      expires_at = expires_at;
      revoked_at = none;
      last_used_at = none;
    } in
    (tokens ++ token ∷ [], token, value)

-- `or_(expires_at IS NULL, expires_at > moment)`
unfoldable pub is_unexpired : ℕ → ApiToken → Bool
is_unexpired moment row = elim row.expires_at [ none ↦ true | some at ↦ ltb moment at ]

unfoldable pub is_live : Text → ℕ → ApiToken → Bool
unfolding is_unexpired
is_live token_hash moment row =
    row.token_hash == token_hash && not (is_some row.revoked_at) && is_unexpired moment row

unfoldable pub resolve_token : Crypto → ℕ → List ApiToken → Text → Option ApiToken
resolve_token crypto moment tokens presented =
    if starts_with api_token_prefix presented
    then scalar (is_live (hash_api_token crypto presented) moment) tokens
    else none

-- ORDER BY created_at DESC, id DESC
unfoldable pub newer : ApiToken → ApiToken → Bool
newer a b = ltb b.created_at a.created_at || (eqb a.created_at b.created_at && ltb b.id a.id)

unfoldable pub list_tokens : User → List ApiToken → List ApiToken
list_tokens user tokens =
    sort_by newer (select (λ row. eqb row.user_id user.id && not (is_some row.revoked_at)) tokens)

-- The `WHERE` of `revoke_token`.
unfoldable pub is_revocable : User → ℕ → ApiToken → Bool
is_revocable user token_id row =
    eqb row.id token_id && eqb row.user_id user.id && not (is_some row.revoked_at)

unfoldable pub revoke_token : ℕ → User → ℕ → List ApiToken → List ApiToken × Bool
revoke_token now user token_id tokens = (
  update_rows (is_revocable user token_id) (λ row. record row { revoked_at = some now }) tokens,
  ltb 0 (count_rows (is_revocable user token_id) tokens),
)

unfoldable pub touch_last_used : ℕ → ℕ → List ApiToken → List ApiToken
touch_last_used now token_id tokens =
    update_rows (λ row. eqb row.id token_id) (λ row. record row { last_used_at = some now }) tokens

-- After its owner revoked a token, no presented value resolves to a row that is it.
pub resolve_token-revoke_token :
    (crypto : Crypto) (at now : ℕ) (user : User) (token_id : ℕ) (tokens : List ApiToken)
    (presented : Text) {row : ApiToken}
    → resolve_token crypto now (revoke_token at user token_id tokens).0 presented ≡ some row
    → (eqb row.id token_id && eqb row.user_id user.id) ≡ false
unfolding resolve_token revoke_token is_live is_revocable
resolve_token-revoke_token crypto at now user token_id tokens presented {row} h =
    scalar-update_rows_some (λ r. (eqb r.id token_id && eqb r.user_id user.id) ≡ false)
      (is_live (hash_api_token crypto presented) now) (is_revocable user token_id)
      (λ r. record r { revoked_at = some at }) tokens (λ r out live. ground arith)
      (λ r out. ground arith) {found = row} (ground arith)

count_rows_foreign :
    (user : User) (token_id : ℕ) (tokens : List ApiToken)
    → All (λ row. row.id ≡ token_id → row.user_id ≢ user.id) tokens
    → count_rows (is_revocable user token_id) tokens ≡ 0
unfolding count_rows is_revocable
count_rows_foreign user token_id [] h = refl
count_rows_foreign user token_id (row ∷ tokens) h =
    ground (arith, h.0, count_rows_foreign user token_id tokens h.1)

-- A token id that is not one of the user's own changes no row, and is reported alike whether it
-- is another user's or nobody's.
pub revoke_token_foreign :
    (now : ℕ) (user : User) (token_id : ℕ) (tokens : List ApiToken)
    → All (λ row. row.id ≡ token_id → row.user_id ≢ user.id) tokens
    → revoke_token now user token_id tokens ≡ (tokens, false)
unfolding revoke_token
revoke_token_foreign now user token_id tokens h =
    let n : count_rows (is_revocable user token_id) tokens ≡ 0 =
      count_rows_foreign user token_id tokens h in
    rw (update_rows_none (is_revocable user token_id) _ tokens n, n) refl
