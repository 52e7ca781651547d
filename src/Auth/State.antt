-- ===== src/Auth/State.antt =====
-- app/auth/state.py: the OAuth state tokens, signed, expiring and redeemed once. A nonce is an
-- argument, and so is each reading of the clock, in microseconds; an expiry is in seconds.
pub mod Once
pub mod Issue
pub mod Bounds
use sre_tab.Common.{
  ltb, leb, eqb, if◌then◌else◌, length, Text, strip, split, text_eq, nat_eq, ◌==◌, exists_row,
  delete_rows, upsert, read_int, ℤ, pos, negsuc, show_number, ℕ, ◌+◌, ◌*◌, ◌/◌, Bool, true, false,
  not, Option, none, some, List, [], ◌∷◌, ◌++◌,
}
use sre_tab.Models.{second}
use sre_tab.Auth.Tokens.{Crypto, compare_secret}

-- `_SEPARATOR`
abbrev pub dot : ℕ
dot = b'.'

-- `_MAX_OUTSTANDING`
abbrev pub max_outstanding : ℕ
max_outstanding = 4096

-- `_outstanding`: the expiry of each nonce, in the order of insertion.
abbrev pub Outstanding : Type 0
Outstanding = List (Text × ℕ)

-- `_sign`
unfoldable pub sign : Crypto → Text → Text → Text
sign crypto payload secret = crypto.hmac secret payload

abbrev pub is_nonce : Text → Text × ℕ → Bool
is_nonce nonce entry = entry.0 == nonce

-- `_purge_locked`
unfoldable pub purge : ℕ → Outstanding → Outstanding
unfolding delete_rows
purge now outstanding = delete_rows (λ entry. leb (entry.1 * second) now) outstanding

-- `min(…, key=…)`: the first entry of the least expiry.
unfoldable pub oldest_from : Text × ℕ → Outstanding → Text × ℕ
oldest_from best [] = best
oldest_from best (entry ∷ outstanding) =
    oldest_from (if ltb entry.1 best.1 then entry else best) outstanding

-- Delete the oldest.
unfoldable pub drop_oldest : Outstanding → Outstanding
unfolding delete_rows oldest_from
drop_oldest [] = []
drop_oldest (entry ∷ outstanding) =
    delete_rows (is_nonce (oldest_from entry outstanding).0) (entry ∷ outstanding)

-- Room for one more nonce.
unfoldable pub make_room : Outstanding → Outstanding
unfolding drop_oldest
make_room outstanding =
    if leb max_outstanding (length outstanding) then drop_oldest outstanding else outstanding

unfoldable pub payload_of : Text → ℕ → Text
unfolding show_number
payload_of nonce expires_at = nonce ++ dot ∷ show_number expires_at

-- `issue`, which reads the clock for the expiry and again to purge: the dictionary and the token.
unfoldable pub issue : Crypto → ℕ → Text → Text → ℕ → ℕ → Outstanding → Outstanding × Text
unfolding purge make_room upsert payload_of sign
issue crypto ttl secret nonce now later outstanding =
    let expires_at : ℕ = now / second + ttl in
    (
      upsert (is_nonce nonce) (nonce, expires_at) (λ entry. (nonce, expires_at))
          (make_room (purge later outstanding)),
      payload_of nonce expires_at ++ dot ∷ sign crypto (payload_of nonce expires_at) secret,
    )

-- `int(raw)`; a negative number, whose time has passed as well, counts as 0.
unfoldable pub read_expiry : Text → Option ℕ
unfolding read_int
read_expiry raw = elim (read_int raw) [
  | none ↦ none
  | some expiry ↦ elim expiry [ pos n ↦ some n | negsuc n ↦ some 0 ]
]

-- `pop(nonce, None) is not None`, after the purge.
unfoldable pub redeem : ℕ → Text → Outstanding → Outstanding × Bool
unfolding purge delete_rows exists_row
redeem now nonce outstanding = (
  delete_rows (is_nonce nonce) (purge now outstanding),
  exists_row (is_nonce nonce) (purge now outstanding),
)

-- `consume` of a token whose expiry has been read.
unfoldable pub redeem_unexpired : ℕ → ℕ → Text → Option ℕ → Outstanding → Outstanding × Bool
unfolding redeem
redeem_unexpired now later nonce none outstanding = (outstanding, false)
redeem_unexpired now later nonce (some expires_at) outstanding =
    if leb (expires_at * second) now then (outstanding, false) else redeem later nonce outstanding

-- `consume` of a token of these parts.
unfoldable pub consume_parts : Crypto → Text → ℕ → ℕ → List Text → Outstanding → Outstanding × Bool
unfolding sign compare_secret read_expiry redeem_unexpired
consume_parts crypto secret now later (nonce ∷ expires_raw ∷ signature ∷ []) outstanding =
    if compare_secret signature (sign crypto (nonce ++ dot ∷ expires_raw) secret)
    then redeem_unexpired now later nonce (read_expiry expires_raw) outstanding
    else (outstanding, false)
consume_parts crypto secret now later _ outstanding = (outstanding, false)

-- `consume`, which reads the clock for the expiry and again to purge: the dictionary, and whether
-- the token was redeemed.
unfoldable pub consume : Crypto → Text → ℕ → ℕ → Text → Outstanding → Outstanding × Bool
unfolding split consume_parts
consume crypto secret now later token outstanding =
    consume_parts crypto secret now later (split dot token) outstanding

-- A call of the store; `reset` empties it.
pub data Call : Type 0 where
  issued : (nonce : Text) → ℕ → ℕ → Call
  consumed : Text → ℕ → ℕ → Call
  was_reset : Call

-- The dictionary after a call.
unfoldable pub after_call : Crypto → ℕ → Text → Call → Outstanding → Outstanding
unfolding issue consume
after_call crypto ttl secret (issued nonce now later) outstanding =
    (issue crypto ttl secret nonce now later outstanding).0
after_call crypto ttl secret (consumed token now later) outstanding =
    (consume crypto secret now later token outstanding).0
after_call crypto ttl secret was_reset outstanding = []

-- The dictionary after calls in the order of the lock.
unfoldable pub after_calls : Crypto → ℕ → Text → List Call → Outstanding → Outstanding
unfolding after_call
after_calls crypto ttl secret [] outstanding = outstanding
after_calls crypto ttl secret (call ∷ calls) outstanding =
    after_calls crypto ttl secret calls (after_call crypto ttl secret call outstanding)
