-- ===== src/Auth/State/Bounds.antt =====
-- How many nonces app/auth/state.py holds.
use sre_tab.Common.{
  ltb, leb, if◌then◌else◌, Bool-cases, length, Text, split, text_eq, nat_eq, eq_refl, exists_row,
  delete_rows, count_rows, count_rows-delete_rows, upsert, ℕ, suc, ◌+◌, ◌-◌, ◌*◌, ◌/◌, ◌≤◌, ◌<◌,
  ◌≡◌, refl, ap, ◌⊎◌, inl, inr, Bool, true, false, Option, none, some, List, [], ◌∷◌, ◌++◌, arith,
}
use sre_tab.Models.{second}
use sre_tab.Auth.Tokens.{Crypto, compare_secret}
use sre_tab.Auth.State.{
  max_outstanding, Outstanding, is_nonce, purge, oldest_from, drop_oldest, make_room, issue, redeem,
  redeem_unexpired, consume_parts, consume, Call, issued, consumed, was_reset, after_call,
  after_calls, dot, sign, read_expiry,
}

delete_rows_le : (p : Text × ℕ → Bool) (xs : Outstanding) → length (delete_rows p xs) ≤ length xs
delete_rows_le p xs = omega (arith, count_rows-delete_rows p xs)

exists_row-count_rows :
    (p : Text × ℕ → Bool) (xs : Outstanding) → exists_row p xs ≡ true → 1 ≤ count_rows p xs
unfolding exists_row count_rows
exists_row-count_rows p [] h = absurd (ground (arith, h))
exists_row-count_rows p (x ∷ xs) h = ground (arith, h, exists_row-count_rows p xs)

exists_row_pick :
    (p : Text × ℕ → Bool) (best x pick : Text × ℕ) (xs : Outstanding)
    → (pick ≡ x) ⊎ (pick ≡ best)
    → exists_row p (pick ∷ xs) ≡ true
    → exists_row p (best ∷ x ∷ xs) ≡ true
unfolding exists_row
exists_row_pick p best x pick xs (inl e) h = ground (arith, ap p e, h)
exists_row_pick p best x pick xs (inr e) h = ground (arith, ap p e, h)

either : (b : Bool) (x y : Text × ℕ) → ((if b then x else y) ≡ x) ⊎ ((if b then x else y) ≡ y)
either true x y = inl refl
either false x y = inr refl

-- The oldest entry is one of the entries.
oldest_there :
    (best : Text × ℕ) (xs : Outstanding)
    → exists_row (is_nonce (oldest_from best xs).0) (best ∷ xs) ≡ true
unfolding oldest_from
oldest_there best [] = unfold exists_row in rw (eq_refl {K = Text} best.0) refl
oldest_there best (x ∷ xs) =
    let pick = if ltb x.1 best.1 then x else best in
    exists_row_pick (is_nonce (oldest_from pick xs).0) best x pick xs
      (either (ltb x.1 best.1) x best) (oldest_there pick xs)

length-drop_oldest : (xs : Outstanding) → length (drop_oldest xs) ≤ length xs - 1
unfolding drop_oldest
length-drop_oldest [] = omega arith
length-drop_oldest (x ∷ xs) = omega (
  arith,
  exists_row-count_rows (is_nonce (oldest_from x xs).0) (x ∷ xs) (oldest_there x xs),
  count_rows-delete_rows (is_nonce (oldest_from x xs).0) (x ∷ xs),
)

length-make_room :
    (xs : Outstanding) → length xs ≤ max_outstanding → length (make_room xs) < max_outstanding
unfolding make_room
length-make_room xs h = elim (Bool-cases (leb max_outstanding (length xs))) [
  | inl full ↦ rw full (omega (arith, length-drop_oldest xs, h))
  | inr room ↦ rw room (ground (arith, room))
]

length-upsert :
    (p : Text × ℕ → Bool) (row : Text × ℕ) (change : Text × ℕ → Text × ℕ) (xs : Outstanding)
    → length (upsert p row change xs) ≤ suc (length xs)
unfolding upsert
length-upsert p row change [] = omega arith
length-upsert p row change (x ∷ xs) = ground (arith, length-upsert p row change xs)

length-issue :
    (crypto : Crypto) (ttl : ℕ) (secret nonce : Text) (now later : ℕ) (xs : Outstanding)
    → length xs ≤ max_outstanding
    → length (issue crypto ttl secret nonce now later xs).0 ≤ max_outstanding
unfolding issue purge
length-issue crypto ttl secret nonce now later xs h =
    let room : length (make_room (purge later xs)) < max_outstanding =
      length-make_room (purge later xs) (
        unfold purge in
        omega (arith, delete_rows_le (λ entry. leb (entry.1 * second) later) xs, h)) in
    omega (
      arith,
      length-upsert (is_nonce nonce) (nonce, now / second + ttl)
          (λ entry. (nonce, now / second + ttl)) (make_room (purge later xs)),
      room,
    )

-- What a call of `consume` leaves: the dictionary, or what a purge leaves of it without a nonce.
pub data Left (later : ℕ) (xs : Outstanding) : Outstanding → Type 0 where
  untouched : Left later xs xs
  without : (nonce : Text) → Left later xs (delete_rows (is_nonce nonce) (purge later xs))

redeem_unexpired-Left :
    (now later : ℕ) (nonce : Text) (expiry : Option ℕ) (xs : Outstanding)
    → Left later xs (redeem_unexpired now later nonce expiry xs).0
unfolding redeem_unexpired redeem
redeem_unexpired-Left now later nonce none xs = untouched
redeem_unexpired-Left now later nonce (some n) xs = elim (Bool-cases (leb (n * second) now)) [
  | inl past ↦ rw past untouched
  | inr future ↦ rw future (without nonce)
]

consume_parts-Left :
    (crypto : Crypto) (secret : Text) (now later : ℕ) (parts : List Text) (xs : Outstanding)
    → Left later xs (consume_parts crypto secret now later parts xs).0
unfolding consume_parts
consume_parts-Left crypto secret now later [] xs = untouched
consume_parts-Left crypto secret now later (a ∷ []) xs = untouched
consume_parts-Left crypto secret now later (a ∷ b ∷ []) xs = untouched
consume_parts-Left crypto secret now later (a ∷ b ∷ c ∷ d ∷ parts) xs = untouched
consume_parts-Left crypto secret now later (nonce ∷ raw ∷ signature ∷ []) xs =
    elim (Bool-cases (compare_secret signature (sign crypto (nonce ++ dot ∷ raw) secret))) [
      | inl signed ↦ rw signed (redeem_unexpired-Left now later nonce (read_expiry raw) xs)
      | inr forged ↦ rw forged untouched
    ]

pub consume-Left :
    (crypto : Crypto) (secret : Text) (now later : ℕ) (token : Text) (xs : Outstanding)
    → Left later xs (consume crypto secret now later token xs).0
unfolding consume
consume-Left crypto secret now later token xs =
    consume_parts-Left crypto secret now later (split dot token) xs

length-Left : (later : ℕ) (xs ys : Outstanding) → Left later xs ys → length ys ≤ length xs
length-Left later xs _ untouched = omega arith
length-Left later xs _ (without nonce) =
    unfold purge in
    omega (
      arith,
      delete_rows_le (is_nonce nonce) (delete_rows (λ entry. leb (entry.1 * second) later) xs),
      delete_rows_le (λ entry. leb (entry.1 * second) later) xs,
    )

length-after_call :
    (crypto : Crypto) (ttl : ℕ) (secret : Text) (call : Call) (xs : Outstanding)
    → length xs ≤ max_outstanding
    → length (after_call crypto ttl secret call xs) ≤ max_outstanding
unfolding after_call
length-after_call crypto ttl secret (issued nonce now later) xs h =
    length-issue crypto ttl secret nonce now later xs h
length-after_call crypto ttl secret (consumed token now later) xs h =
    omega (arith, h, length-Left later xs _ (consume-Left crypto secret now later token xs))
length-after_call crypto ttl secret was_reset xs h = omega arith

-- However many sign-ins are begun, and whatever else is called, the store never holds more than the
-- cap of nonces.
pub after_calls_bounded :
    (crypto : Crypto) (ttl : ℕ) (secret : Text) (calls : List Call) (xs : Outstanding)
    → length xs ≤ max_outstanding
    → length (after_calls crypto ttl secret calls xs) ≤ max_outstanding
unfolding after_calls
after_calls_bounded crypto ttl secret [] xs h = h
after_calls_bounded crypto ttl secret (call ∷ calls) xs h =
    after_calls_bounded crypto ttl secret calls (after_call crypto ttl secret call xs)
      (length-after_call crypto ttl secret call xs h)
