-- ===== src/Auth/State/Once.antt =====
-- app/auth/state.py: a state token is redeemed only once.
use sre_tab.Common.{
  leb, Bool-cases, length, All, Text, split, text_eq, nat_eq, ◌==◌, exists_row, delete_rows, upsert,
  exists_row-delete_rows-none, ℕ, ◌+◌, ◌*◌, ◌/◌, ◌≡◌, refl, inl, inr, Bool, true, false, Option,
  none, some, List, [], ◌∷◌, ◌++◌, arith,
}
use sre_tab.Models.{second}
use sre_tab.Auth.Tokens.{Crypto, compare_secret}
use sre_tab.Auth.State.{
  max_outstanding, Outstanding, is_nonce, purge, oldest_from, drop_oldest, make_room, issue, redeem,
  redeem_unexpired, consume_parts, consume, Call, issued, consumed, was_reset, after_call,
  after_calls, dot, sign, read_expiry,
}
use sre_tab.Auth.State.Bounds.{Left, untouched, without, consume-Left}

-- The first of some parts.
abbrev pub first : List Text → Text
first [] = []
first (part ∷ parts) = part

-- The nonce of a token: what stands before its first separator.
unfoldable pub nonce_of : Text → Text
unfolding split
nonce_of token = first (split dot token)

-- A call that does not issue the nonce again.
abbrev pub IsOther : Text → Call → Type 0
IsOther nonce (issued other now later) = (other == nonce) ≡ false
IsOther nonce (consumed token now later) = Unit
IsOther nonce was_reset = Unit

abbrev IsGone : Text → Outstanding → Type 0
IsGone nonce xs = exists_row (is_nonce nonce) xs ≡ false

IsGone-delete_rows :
    (nonce : Text) (p : Text × ℕ → Bool) (xs : Outstanding)
    → IsGone nonce xs
    → IsGone nonce (delete_rows p xs)
unfolding exists_row delete_rows
IsGone-delete_rows nonce p [] h = refl
IsGone-delete_rows nonce p (x ∷ xs) h = ground (arith, h, IsGone-delete_rows nonce p xs)

IsGone-upsert :
    (nonce other : Text) (n : ℕ) (xs : Outstanding)
    → (other == nonce) ≡ false
    → IsGone nonce xs
    → IsGone nonce (upsert (is_nonce other) (other, n) (λ entry. (other, n)) xs)
unfolding exists_row upsert
IsGone-upsert nonce other n [] differ h = rw differ refl
IsGone-upsert nonce other n (x ∷ xs) differ h =
    ground (arith, h, differ, IsGone-upsert nonce other n xs differ)

IsGone-drop_oldest :
    (nonce : Text) (xs : Outstanding) → IsGone nonce xs → IsGone nonce (drop_oldest xs)
unfolding drop_oldest
IsGone-drop_oldest nonce [] h = h
IsGone-drop_oldest nonce (x ∷ xs) h =
    IsGone-delete_rows nonce (is_nonce (oldest_from x xs).0) (x ∷ xs) h

IsGone-make_room : (nonce : Text) (xs : Outstanding) → IsGone nonce xs → IsGone nonce (make_room xs)
unfolding make_room
IsGone-make_room nonce xs h = elim (Bool-cases (leb max_outstanding (length xs))) [
  | inl full ↦ rw full (IsGone-drop_oldest nonce xs h)
  | inr room ↦ rw room h
]

IsGone-purge :
    (nonce : Text) (now : ℕ) (xs : Outstanding) → IsGone nonce xs → IsGone nonce (purge now xs)
unfolding purge
IsGone-purge nonce now xs h = IsGone-delete_rows nonce (λ entry. leb (entry.1 * second) now) xs h

IsGone-Left :
    (nonce : Text) (later : ℕ) (xs ys : Outstanding)
    → Left later xs ys
    → IsGone nonce xs
    → IsGone nonce ys
IsGone-Left nonce later xs _ untouched h = h
IsGone-Left nonce later xs _ (without other) h =
    IsGone-delete_rows nonce (is_nonce other) (purge later xs) (IsGone-purge nonce later xs h)

IsGone-after_call :
    (crypto : Crypto) (ttl : ℕ) (secret nonce : Text) (call : Call) (xs : Outstanding)
    → IsOther nonce call
    → IsGone nonce xs
    → IsGone nonce (after_call crypto ttl secret call xs)
unfolding after_call issue
IsGone-after_call crypto ttl secret nonce (issued other now later) xs differ h =
    IsGone-upsert nonce other (now / second + ttl) (make_room (purge later xs)) differ
      (IsGone-make_room nonce (purge later xs) (IsGone-purge nonce later xs h))
IsGone-after_call crypto ttl secret nonce (consumed token now later) xs differ h =
    IsGone-Left nonce later xs _ (consume-Left crypto secret now later token xs) h
IsGone-after_call crypto ttl secret nonce was_reset xs differ h = unfold exists_row in refl

IsGone-after_calls :
    (crypto : Crypto) (ttl : ℕ) (secret nonce : Text) (calls : List Call) (xs : Outstanding)
    → All (IsOther nonce) calls
    → IsGone nonce xs
    → IsGone nonce (after_calls crypto ttl secret calls xs)
unfolding after_calls
IsGone-after_calls crypto ttl secret nonce [] xs others h = h
IsGone-after_calls crypto ttl secret nonce (call ∷ calls) xs others h =
    IsGone-after_calls crypto ttl secret nonce calls (after_call crypto ttl secret call xs) others.1
      (IsGone-after_call crypto ttl secret nonce call xs others.0 h)

-- A token whose nonce is not outstanding is not redeemed, and one that is leaves it so.
redeem_unexpired_gone :
    (now later : ℕ) (nonce : Text) (expiry : Option ℕ) (xs : Outstanding)
    → IsGone nonce xs
    → (redeem_unexpired now later nonce expiry xs).1 ≡ false
unfolding redeem_unexpired redeem
redeem_unexpired_gone now later nonce none xs h = refl
redeem_unexpired_gone now later nonce (some n) xs h = ground (arith, IsGone-purge nonce later xs h)

redeem_unexpired-IsGone :
    (now later : ℕ) (nonce : Text) (expiry : Option ℕ) (xs : Outstanding)
    → (redeem_unexpired now later nonce expiry xs).1 ≡ true
    → IsGone nonce (redeem_unexpired now later nonce expiry xs).0
unfolding redeem_unexpired redeem
redeem_unexpired-IsGone now later nonce none xs h = absurd (ground (arith, h))
redeem_unexpired-IsGone now later nonce (some n) xs h = elim (Bool-cases (leb (n * second) now)) [
  | inl past ↦ absurd (ground (arith, h, past))
  | inr future ↦
      rw future
        (exists_row-delete_rows-none (is_nonce nonce) (is_nonce nonce) (purge later xs) (λ x e. e))
]

consume_parts_gone :
    (crypto : Crypto) (secret : Text) (now later : ℕ) (parts : List Text) (xs : Outstanding)
    → IsGone (first parts) xs
    → (consume_parts crypto secret now later parts xs).1 ≡ false
unfolding consume_parts
consume_parts_gone crypto secret now later [] xs h = refl
consume_parts_gone crypto secret now later (a ∷ []) xs h = refl
consume_parts_gone crypto secret now later (a ∷ b ∷ []) xs h = refl
consume_parts_gone crypto secret now later (a ∷ b ∷ c ∷ d ∷ parts) xs h = refl
consume_parts_gone crypto secret now later (nonce ∷ raw ∷ signature ∷ []) xs h =
    ground (arith, redeem_unexpired_gone now later nonce (read_expiry raw) xs h)

consume_parts-IsGone :
    (crypto : Crypto) (secret : Text) (now later : ℕ) (parts : List Text) (xs : Outstanding)
    → (consume_parts crypto secret now later parts xs).1 ≡ true
    → IsGone (first parts) (consume_parts crypto secret now later parts xs).0
unfolding consume_parts
consume_parts-IsGone crypto secret now later [] xs h = absurd (ground (arith, h))
consume_parts-IsGone crypto secret now later (a ∷ []) xs h = absurd (ground (arith, h))
consume_parts-IsGone crypto secret now later (a ∷ b ∷ []) xs h = absurd (ground (arith, h))
consume_parts-IsGone crypto secret now later (a ∷ b ∷ c ∷ d ∷ parts) xs h =
    absurd (ground (arith, h))
consume_parts-IsGone crypto secret now later (nonce ∷ raw ∷ signature ∷ []) xs h =
    elim (Bool-cases (compare_secret signature (sign crypto (nonce ++ dot ∷ raw) secret))) [
      | inl signed ↦
          rw signed (
            redeem_unexpired-IsGone now later nonce (read_expiry raw) xs
              (ground (arith, h, signed)))
      | inr forged ↦ absurd (ground (arith, h, forged))
    ]

-- A state token that has been redeemed is never redeemed again, at whatever times and whatever calls
-- of the store come in between, if none of them issues its nonce anew.
pub consume_once :
    (crypto : Crypto) (ttl : ℕ) (secret token : Text) (now later now_again later_again : ℕ)
    (calls : List Call) (xs : Outstanding)
    → All (IsOther (nonce_of token)) calls
    → (consume crypto secret now later token xs).1 ≡ true
    → (consume crypto secret now_again later_again token
        (after_calls crypto ttl secret calls (consume crypto secret now later token xs).0)).1
      ≡ false
unfolding consume nonce_of
consume_once crypto ttl secret token now later now_again later_again calls xs others h =
    consume_parts_gone crypto secret now_again later_again (split dot token) _ (
      IsGone-after_calls crypto ttl secret (first (split dot token)) calls _ others
        (consume_parts-IsGone crypto secret now later (split dot token) xs h))
