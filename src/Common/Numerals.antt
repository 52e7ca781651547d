-- ===== src/Common/Numerals.antt =====
-- Searches in texts, and the texts of numbers as `int` reads them.
use Prim.Native.Nat.{ℕ, zero, suc, ◌+◌, ◌-◌, ◌*◌, ◌/◌, ◌%◌, ◌<◌}
use mathlib.Core.Path.{◌≡◌, refl, ap, ◌∙◌}
use mathlib.Core.Logic.{inl, inr}
use native.Mathlib.Omega.{arith}
use mathlib.Core.Bool.{Bool, true, false, not, ◌&&◌}
use mathlib.Core.Option.{Option, none, some}
use mathlib.Core.List.{List, [], ◌∷◌}
use sre_tab.Common.Tests.{leb, ltb, eqb, if◌then◌else◌, Bool-cases}
use sre_tab.Common.Lists.{length, drop}
use sre_tab.Common.Texts.{Text, starts_with, lower_char}

-- `s.endswith(suffix)`, the suffix first.
unfoldable pub ends_with : Text → Text → Bool
unfolding starts_with
ends_with suffix s =
    leb (length suffix) (length s) && starts_with suffix (drop (length s - length suffix) s)

-- `marker in s`
unfoldable pub occurs_in : Text → Text → Bool
unfolding starts_with
occurs_in marker [] = starts_with marker []
occurs_in marker (c ∷ s) =
    let later = occurs_in marker s in if starts_with marker (c ∷ s) then true else later

-- `all(test(c) for c in s)`
unfoldable pub every {ℓ} : {A : Type ℓ} → (A → Bool) → List A → Bool
every test [] = true
every test (x ∷ xs) = test x && every test xs

-- The value of a digit in a base of at most 16.
unfoldable pub digit_value : ℕ → ℕ → Option ℕ
unfolding lower_char
digit_value base c =
    let l = lower_char c in
    let value : ℕ =
      if leb b'0' c && leb c b'9'
      then c - b'0'
      else if leb b'a' l && leb l b'f'
      then 10 + (l - b'a')
      else 16 in
    if ltb value base then some value else none

-- Digits with single underscores between them, after the digits that make `acc`. The flag says
-- whether a digit must follow.
unfoldable pub read_digits : ℕ → Bool → ℕ → Text → Option ℕ
unfolding digit_value
read_digits base wants acc [] = if wants then none else some acc
read_digits base wants acc (c ∷ s) =
    let next = read_digits base true acc s in
    elim (digit_value base c) [
      | none ↦ if eqb c b'_' && not wants then next else none
      | some d ↦ read_digits base false (acc * base + d) s
    ]

-- `str(n)`, with fuel for its digits, before the text `rest`.
unfoldable pub digits_before : ℕ → ℕ → Text → Text
digits_before zero n rest = rest
digits_before (suc fuel) n rest =
    let more = digits_before fuel (n / 10) ((48 + n % 10) ∷ rest) in
    if ltb n 10 then (48 + n) ∷ rest else more

-- `str(n)`: a number has fewer digits than its successor counts.
unfoldable pub show_number : ℕ → Text
unfolding digits_before
show_number n = digits_before (suc n) n []

digit_value-digit : (d : ℕ) → d < 10 → digit_value 10 (48 + d) ≡ some d
unfolding digit_value lower_char
digit_value-digit d h = ground arith

read_digit :
    (acc d : ℕ) (rest : Text) (wants : Bool)
    → d < 10
    → read_digits 10 wants acc ((48 + d) ∷ rest) ≡ read_digits 10 false (acc * 10 + d) rest
unfolding read_digits
read_digit acc d rest wants h = ground (arith, digit_value-digit d h)

-- The digits of a number read as the number.
read_digits-digits_before :
    (fuel n : ℕ) (rest : Text) (wants : Bool)
    → n < fuel
    → read_digits 10 wants 0 (digits_before fuel n rest) ≡ read_digits 10 false n rest
unfolding digits_before
read_digits-digits_before zero n rest wants h = absurd (omega (arith, h))
read_digits-digits_before (suc fuel) n rest wants h = elim (Bool-cases (ltb n 10)) [
  | inl small ↦ rw small (
      read_digit 0 n rest wants (ground (arith, small))
      ∙ ap (λ m. read_digits 10 false m rest) (omega arith))
  | inr large ↦ rw large (
      read_digits-digits_before fuel (n / 10) ((48 + n % 10) ∷ rest) wants
        (ground (arith, large, h))
      ∙ read_digit (n / 10) (n % 10) rest false (omega arith)
      ∙ ap (λ m. read_digits 10 false m rest) (omega arith))
]

pub read_digits-show_number : (n : ℕ) → read_digits 10 true 0 (show_number n) ≡ some n
unfolding show_number
read_digits-show_number n = read_digits-digits_before (suc n) n [] true (omega arith) ∙ finish
  where
    finish : read_digits 10 false n [] ≡ some n
    finish = unfold read_digits in refl
