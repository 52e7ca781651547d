-- ===== src/Auth/Csrf.antt =====
-- app/security/csrf.py: the session-bound double-submit token.
use sre_tab.Common.{
  ℕ, ◌≡◌, refl, Bool, true, false, not, ◌||◌, Option, none, some, [], ◌∷◌, ◌++◌, if◌then◌else◌,
  Text, ◌==◌, text_eq, inl, inr, Bool-cases, eq_of_true, text_beq_iff, false_of_ne, ne_of_false,
  is_nil, partition, lacks, partition-append,
}
use sre_tab.Models.{Settings}
use sre_tab.Auth.Tokens.{Crypto, CollisionFree, hash_session_token, compare_secret}

-- `_SEPARATOR`, "."
abbrev pub separator : ℕ
separator = b'.'

unfoldable pub sign : Crypto → Text → Text → Text → Text
sign crypto payload secret session_binding =
    crypto.hmac secret (payload ++ separator ∷ session_binding)

-- `payload` is the random part, `secrets.token_urlsafe(16)`.
unfoldable pub generate_csrf_token : Crypto → Text → Text → Text → Text
unfolding sign hash_session_token
generate_csrf_token crypto payload secret session_token =
    payload ++ separator ∷ sign crypto payload secret (hash_session_token crypto session_token)

-- `if not separator or not payload: return False`, then the signature.
unfoldable pub validate_csrf_token : Crypto → Text → Text → Text → Bool
unfolding sign hash_session_token compare_secret
validate_csrf_token crypto token secret session_token =
    let (payload, found, signature) = partition separator token in
    if not found || is_nil payload
    then false
    else compare_secret signature
        (sign crypto payload secret (hash_session_token crypto session_token))

-- A request as the middlewares see it. Cookies and headers are looked up by name; the framework
-- makes header names case-insensitive.
pub record Request : Type 0 where
  pub is_http : Bool
  pub method : Text
  pub cookies : Text → Option Text
  pub headers : Text → Option Text

-- `.get(name, "")`
unfoldable pub or_empty : Option Text → Text
or_empty none = []
or_empty (some s) = s

-- `require_csrf`: true where it returns, false where it raises its 403.
unfoldable pub require_csrf : Crypto → Settings → Request → Bool
unfolding validate_csrf_token or_empty
require_csrf crypto settings request =
    let session_token = or_empty (request.cookies settings.session_cookie_name) in
    let cookie = or_empty (request.cookies settings.csrf_cookie_name) in
    let header = or_empty (request.headers settings.csrf_header_name) in
    not (
      is_nil session_token
      || is_nil cookie
      || is_nil header
      || not (compare_secret cookie header)
      || not (validate_csrf_token crypto cookie settings.session_secret session_token))

append_cancel : (p a b : Text) → p ++ a ≡ p ++ b → a ≡ b
append_cancel [] a b h = h
append_cancel (x ∷ p) a b h = append_cancel p a b (cc)

-- Two sessions have the same signature of a payload only if they are one session.
sign_injective :
    (crypto : Crypto) (payload secret s t : Text)
    → CollisionFree crypto
    → sign crypto payload secret (hash_session_token crypto s)
      ≡ sign crypto payload secret (hash_session_token crypto t)
    → s ≡ t
unfolding sign hash_session_token
sign_injective crypto payload secret s t free h = free.sha256_injective s t (
    cc (
      append_cancel payload (separator ∷ crypto.sha256 s) (separator ∷ crypto.sha256 t)
        (free.hmac_injective secret _ _ h)))

-- A token minted for one session is valid for exactly that session, if the payload is not empty
-- and has no separator in it, and the digests do not collide.
pub validate-generate :
    (crypto : Crypto) (payload secret s t : Text)
    → CollisionFree crypto
    → is_nil payload ≡ false
    → lacks separator payload ≡ true
    → validate_csrf_token crypto (generate_csrf_token crypto payload secret s) secret t ≡ (s == t)
unfolding validate_csrf_token generate_csrf_token
validate-generate crypto payload secret s t free n l =
    rw (partition-append separator payload _ l, n)
      (elim (Bool-cases (s == t)) [
        | inl same ↦ rw (same, ← eq_of_true s t same) ((text_beq_iff _ _).1 refl)
        | inr other ↦ rw other (
            false_of_ne {K = Text} _ _
              (λ h. ne_of_false s t other (sign_injective crypto payload secret s t free h)))
      ])
