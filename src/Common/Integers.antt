-- ===== src/Common/Integers.antt =====
-- Integers as `int` reads them from a text. Digits are ASCII, and the limit of the interpreter on
-- the number of digits is left out.
use Prim.Native.Nat.{ℕ, zero, suc, ◌+◌, ◌/◌, ◌%◌, ◌≤◌}
use mathlib.Core.Path.{◌≡◌, refl, ap, ◌∙◌}
use mathlib.Core.Logic.{inl, inr}
use mathlib.Core.Bool.{true, ◌||◌}
use mathlib.Core.Option.{Option, none, some}
use mathlib.Core.List.{[], ◌∷◌}
use native.Mathlib.Omega.{arith}
use sre_tab.Common.Tests.{ltb, eqb, if◌then◌else◌, Bool-cases}
use sre_tab.Common.Lists.{All}
use sre_tab.Common.Texts.{Text, is_space, lstrip, rstrip, strip, lacks}
use sre_tab.Common.Numerals.{read_digits, digits_before, show_number, read_digits-show_number}

pub data ℤ : Type 0 where
  pos : ℕ → ℤ
  negsuc : ℕ → ℤ

unfoldable pub negated : ℕ → ℤ
negated zero = pos zero
negated (suc n) = negsuc n

unfoldable pub read_signed : Text → Option ℤ
unfolding read_digits negated
read_signed [] = none
read_signed (c ∷ s) =
    if eqb c b'+'
    then elim (read_digits 10 true 0 s) [ none ↦ none | some n ↦ some (pos n) ]
    else if eqb c b'-'
    then elim (read_digits 10 true 0 s) [ none ↦ none | some n ↦ some (negated n) ]
    else elim (read_digits 10 true 0 (c ∷ s)) [ none ↦ none | some n ↦ some (pos n) ]

-- `int(raw)`
unfoldable pub read_int : Text → Option ℤ
unfolding strip read_signed
read_int raw = read_signed (strip raw)

-- A digit is no separator, no sign and no space.
abbrev pub IsDigit : ℕ → Type 0
IsDigit c = (48 ≤ c) × (c ≤ 57)

digits_before-All :
    (fuel n : ℕ) (rest : Text) → All IsDigit rest → All IsDigit (digits_before fuel n rest)
unfolding digits_before
digits_before-All zero n rest h = h
digits_before-All (suc fuel) n rest h = elim (Bool-cases (ltb n 10)) [
  | inl small ↦ rw small ((omega arith, ground (arith, small)), h)
  | inr large ↦
      rw large
        (digits_before-All fuel (n / 10) ((48 + n % 10) ∷ rest) ((omega arith, omega arith), h))
]

pub show_number-All : (n : ℕ) → All IsDigit (show_number n)
unfolding show_number
show_number-All n = digits_before-All (suc n) n [] tt

-- A separator that is no digit.
pub lacks-digits :
    (sep : ℕ) (s : Text) → (ltb sep 48 || ltb 57 sep) ≡ true → All IsDigit s → lacks sep s ≡ true
unfolding lacks
lacks-digits sep [] k h = refl
lacks-digits sep (c ∷ s) k ((low, high), h) =
    rw (lacks-digits sep s k h) (ground (arith, low, high))

-- No digit and no sign is a space or a colon, and all are ASCII.
abbrev pub IsNumeral : ℕ → Type 0
IsNumeral c = (45 ≤ c) × (c ≤ 57)

digits-IsNumeral : (s : Text) → All IsDigit s → All IsNumeral s
digits-IsNumeral [] h = tt
digits-IsNumeral (c ∷ s) ((low, high), h) = ((omega (arith, low), high), digits-IsNumeral s h)

strip-numerals : (s : Text) → All IsNumeral s → strip s ≡ s
unfolding strip
strip-numerals s h = ap rstrip (lstrip_same s h) ∙ rstrip_same s h
  where
    lstrip_same : (t : Text) → All IsNumeral t → lstrip t ≡ t
    lstrip_same [] g = unfold lstrip in refl
    lstrip_same (c ∷ t) ((low, high), g) = unfold lstrip is_space in ground (arith, low, high)

    rstrip_same : (t : Text) → All IsNumeral t → rstrip t ≡ t
    rstrip_same [] g = unfold rstrip in refl
    rstrip_same (c ∷ t) ((low, high), g) = kept c t low high (rstrip_same t g)
      where
        kept : (d : ℕ) (u : Text) → 45 ≤ d → d ≤ 57 → rstrip u ≡ u → rstrip (d ∷ u) ≡ d ∷ u
        kept d u l k e = unfold rstrip is_space in ground (arith, l, k, e)

read_signed-digits :
    (s : Text)
    → All IsDigit s
    → read_signed s ≡ elim (read_digits 10 true 0 s) [ none ↦ none | some n ↦ some (pos n) ]
unfolding read_signed
read_signed-digits [] h = unfold read_digits in refl
read_signed-digits (c ∷ s) ((low, high), h) = ground (arith, low, high)

-- The text of a number reads as the number.
pub read_int-show_number : (n : ℕ) → read_int (show_number n) ≡ some (pos n)
unfolding read_int
read_int-show_number n =
    ap read_signed
      (strip-numerals (show_number n) (digits-IsNumeral (show_number n) (show_number-All n)))
    ∙ read_signed-digits (show_number n) (show_number-All n)
    ∙ ap (λ o. elim o [ none ↦ none | some m ↦ some (pos m) ]) (read_digits-show_number n)

-- `str(n)`
unfoldable pub show_integer : ℤ → Text
unfolding show_number
show_integer (pos n) = show_number n
show_integer (negsuc n) = b'-' ∷ show_number (suc n)

pub show_integer-All : (n : ℤ) → All IsNumeral (show_integer n)
unfolding show_integer
show_integer-All (pos n) = digits-IsNumeral (show_number n) (show_number-All n)
show_integer-All (negsuc n) =
    ((omega arith, omega arith), digits-IsNumeral (show_number (suc n)) (show_number-All (suc n)))

-- The text of an integer reads as the integer.
pub read_int-show_integer : (n : ℤ) → read_int (show_integer n) ≡ some n
unfolding show_integer
read_int-show_integer (pos n) = read_int-show_number n
read_int-show_integer (negsuc n) =
    unfold read_int in
    ap read_signed (strip-numerals (show_integer (negsuc n)) (show_integer-All (negsuc n)))
    ∙ unfold read_signed in
      ap (λ o. elim o [ none ↦ none | some m ↦ some (negated m) ]) (read_digits-show_number (suc n))
