-- ===== src/Auth/Tokens.antt =====
-- app/security/tokens.py: the credential primitives. SHA-256 and HMAC-SHA256 are the standard
-- library's and stand as two functions that the rest takes as an argument; the random part of a
-- token is an argument of the function that mints it.
use sre_tab.Common.{ℕ, ◌+◌, ◌≡◌, Bool, ◌++◌, Text, ◌==◌, text_eq, length, take, codes}

pub record Crypto : Type 0 where
  -- `hashlib.sha256(value.encode()).hexdigest()`
  pub sha256 : Text → Text
  -- `hmac.new(secret.encode(), message.encode(), "sha256").hexdigest()`, the secret first
  pub hmac : Text → Text → Text

-- What the source relies on of the two: no two inputs that meet have one digest.
pub record CollisionFree (crypto : Crypto) : Type 0 where
  pub sha256_injective : (a b : Text) → crypto.sha256 a ≡ crypto.sha256 b → a ≡ b
  pub hmac_injective : (key a b : Text) → crypto.hmac key a ≡ crypto.hmac key b → a ≡ b

-- `API_TOKEN_PREFIX`
abbrev pub api_token_prefix : Text
api_token_prefix = codes "sretab_pat_"

-- `API_TOKEN_DISPLAY_CHARS`
abbrev pub api_token_display_chars : ℕ
api_token_display_chars = 6

unfoldable pub hash_session_token : Crypto → Text → Text
hash_session_token crypto token = crypto.sha256 token

unfoldable pub hash_api_token : Crypto → Text → Text
hash_api_token crypto token = crypto.sha256 token

unfoldable pub generate_api_token : Text → Text
generate_api_token random = api_token_prefix ++ random

unfoldable pub api_token_display_prefix : Text → Text
api_token_display_prefix token = take (length api_token_prefix + api_token_display_chars) token

-- `compare_secret`: the two encodings are equal exactly when the texts are.
unfoldable pub compare_secret : Text → Text → Bool
compare_secret left right = left == right
