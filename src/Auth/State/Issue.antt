-- ===== src/Auth/State/Issue.antt =====
-- app/auth/state.py: a state token that comes back is redeemed.
use sre_tab.Common.{
  leb, Text, split, lacks, split-append, split-lacks, text_eq, nat_eq, eq_refl, exists_row,
  delete_rows, upsert, show_number, read_int-show_number, show_number-All, lacks-digits, ℕ, ◌+◌,
  ◌*◌, ◌/◌, ◌≤◌, ◌<◌, ◌≡◌, refl, ap, ◌∙◌, Bool, true, false, not, ◌&&◌, some, [], ◌∷◌, ◌++◌,
  append_assoc, arith,
}
use sre_tab.Models.{second}
use sre_tab.Auth.Tokens.{Crypto, compare_secret}
use sre_tab.Auth.State.{
  Outstanding, is_nonce, purge, make_room, payload_of, issue, redeem, redeem_unexpired,
  consume_parts, consume, dot, sign, read_expiry,
}

read_expiry-show_number : (n : ℕ) → read_expiry (show_number n) ≡ some n
unfolding read_expiry
read_expiry-show_number n = rw (read_int-show_number n, read_expiry) refl

exists_row-delete_rows-kept :
    (p q : Text × ℕ → Bool) (xs : Outstanding)
    → exists_row (λ x. p x && not (q x)) xs ≡ true
    → exists_row p (delete_rows q xs) ≡ true
unfolding exists_row delete_rows
exists_row-delete_rows-kept p q [] h = absurd (ground (arith, h))
exists_row-delete_rows-kept p q (x ∷ xs) h = ground (arith, h, exists_row-delete_rows-kept p q xs)

exists_row-upsert :
    (p q : Text × ℕ → Bool) (row : Text × ℕ) (xs : Outstanding)
    → p row ≡ true
    → exists_row p (upsert q row (λ x. row) xs) ≡ true
unfolding exists_row upsert
exists_row-upsert p q row [] h = rw h refl
exists_row-upsert p q row (x ∷ xs) h = ground (arith, h, exists_row-upsert p q row xs h)

-- What the parts of an issued token are.
split-token :
    (crypto : Crypto) (secret nonce : Text) (n : ℕ)
    → lacks dot nonce ≡ true
    → lacks dot (crypto.hmac secret (payload_of nonce n)) ≡ true
    → split dot (payload_of nonce n ++ dot ∷ sign crypto (payload_of nonce n) secret)
      ≡ nonce ∷ show_number n ∷ sign crypto (payload_of nonce n) secret ∷ []
unfolding payload_of sign
split-token crypto secret nonce n plain hex =
    ap (split dot) (append_assoc nonce (dot ∷ show_number n) _)
    ∙ split-append dot nonce (show_number n ++ dot ∷ crypto.hmac secret (payload_of nonce n)) plain
    ∙ ap (λ rest. nonce ∷ rest)
        (split-append dot (show_number n) (crypto.hmac secret (payload_of nonce n))
          (lacks-digits dot (show_number n) refl (show_number-All n)))
    ∙ ap (λ rest. nonce ∷ show_number n ∷ rest)
        (split-lacks dot (crypto.hmac secret (payload_of nonce n)) hex)

consume_parts_signed :
    (crypto : Crypto) (secret nonce : Text) (now later n : ℕ) (xs : Outstanding)
    → consume_parts crypto secret now later
        (nonce ∷ show_number n ∷ sign crypto (payload_of nonce n) secret ∷ [])
        xs
      ≡ redeem_unexpired now later nonce (some n) xs
unfolding consume_parts payload_of compare_secret
consume_parts_signed crypto secret nonce now later n xs =
    rw (eq_refl {K = Text} (sign crypto (nonce ++ dot ∷ show_number n) secret))
      (ap (λ expiry. redeem_unexpired now later nonce expiry xs) (read_expiry-show_number n))

-- An outstanding nonce is redeemed before its expiry.
redeem_unexpired_there :
    (now later n : ℕ) (nonce : Text) (xs : Outstanding)
    → now < n * second
    → exists_row (λ entry. is_nonce nonce entry && not (leb (entry.1 * second) later)) xs ≡ true
    → (redeem_unexpired now later nonce (some n) xs).1 ≡ true
unfolding redeem_unexpired redeem purge
redeem_unexpired_there now later n nonce xs early h =
    rw (ltb_leb (n * second) now early)
      (exists_row-delete_rows-kept (is_nonce nonce) (λ entry. leb (entry.1 * second) later) xs h)
  where
    ltb_leb : (a b : ℕ) → b < a → leb a b ≡ false
    ltb_leb a b k = ground (arith, k)

-- A state token that comes back before its expiry, as the next call of the store, is redeemed,
-- if neither the nonce nor the signature has a separator in it.
pub consume-issue :
    (crypto : Crypto) (ttl : ℕ) (secret nonce : Text) (now purged back back_later : ℕ)
    (xs : Outstanding)
    → lacks dot nonce ≡ true
    → ((message : Text) → lacks dot (crypto.hmac secret message) ≡ true)
    → back ≤ back_later
    → back_later < (now / second + ttl) * second
    → (consume crypto secret back back_later
        (issue crypto ttl secret nonce now purged xs).1
        (issue crypto ttl secret nonce now purged xs).0).1
      ≡ true
unfolding consume issue
consume-issue crypto ttl secret nonce now purged back back_later xs plain hex order early =
    ap (λ parts. (consume_parts crypto secret back back_later parts stored).1)
      (split-token crypto secret nonce expires_at plain (hex _))
    ∙ ap (λ (r : Outstanding × Bool). r.1)
        (consume_parts_signed crypto secret nonce back back_later expires_at stored)
    ∙ redeem_unexpired_there back back_later expires_at nonce stored (omega (arith, order, early)) (
        exists_row-upsert (λ entry. is_nonce nonce entry && not (leb (entry.1 * second) back_later))
          (is_nonce nonce) (nonce, expires_at) (make_room (purge purged xs))
          (rw (eq_refl {K = Text} nonce) (ground (arith, early))))
  where
    expires_at : ℕ
    expires_at = now / second + ttl

    stored : Outstanding
    stored =
        upsert (is_nonce nonce) (nonce, expires_at) (λ entry. (nonce, expires_at))
          (make_room (purge purged xs))
