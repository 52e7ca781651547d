-- ===== src/Common/Base64.antt =====
-- Base64 with the alphabet that is safe in URLs, as the standard library encodes it and, without its
-- strict mode, decodes it.
use Prim.Native.Nat.{ℕ, zero, suc, ◌+◌, ◌-◌, ◌*◌, ◌/◌, ◌%◌}
use mathlib.Core.Bool.{true, false, ◌&&◌, ◌||◌}
use mathlib.Core.Option.{Option, none, some}
use mathlib.Core.List.{List, [], ◌∷◌, ◌++◌}
use sre_tab.Common.Tests.{leb, ltb, eqb, if◌then◌else◌}
use sre_tab.Common.Lists.{length}
use sre_tab.Common.Texts.{Text}

abbrev pub pad : ℕ
pad = b'='

-- The character of six bits.
unfoldable pub char64 : ℕ → ℕ
char64 v =
    if ltb v 26
    then 65 + v
    else if ltb v 52
    then 71 + v
    else if ltb v 62
    then v - 4
    else if eqb v 62
    then b'-'
    else b'_'

-- `base64.urlsafe_b64encode`
unfoldable pub urlsafe_b64encode : List ℕ → Text
unfolding char64
urlsafe_b64encode [] = []
urlsafe_b64encode (a ∷ []) = char64 (a / 4) ∷ char64 (a % 4 * 16) ∷ pad ∷ pad ∷ []
urlsafe_b64encode (a ∷ b ∷ []) =
    char64 (a / 4) ∷ char64 (a % 4 * 16 + b / 16) ∷ char64 (b % 16 * 4) ∷ pad ∷ []
urlsafe_b64encode (a ∷ b ∷ c ∷ bytes) =
    char64 (a / 4)
    ∷ char64 (a % 4 * 16 + b / 16)
    ∷ char64 (b % 16 * 4 + c / 64)
    ∷ char64 (c % 64)
    ∷ urlsafe_b64encode bytes

-- What a character means to the decoder.
pub data Symbol : Type 0 where
  padding ignored : Symbol
  bits : ℕ → Symbol

-- Both alphabets are read.
unfoldable pub symbol : ℕ → Symbol
symbol ch =
    if eqb ch pad
    then padding
    else if leb b'A' ch && leb ch b'Z'
    then bits (ch - 65)
    else if leb b'a' ch && leb ch b'z'
    then bits (ch - 71)
    else if leb b'0' ch && leb ch b'9'
    then bits (ch + 4)
    else if eqb ch b'-' || eqb ch b'+'
    then bits 62
    else if eqb ch b'_' || eqb ch b'/'
    then bits 63
    else ignored

-- The decoder within a group of four characters: how many were read, the bits that are left of the
-- last one, and the padding since.
pub record Quad : Type 0 where
  pub quad_pos : ℕ
  pub left : ℕ
  pub pads : ℕ

abbrev pub quad_start : Quad
quad_start = record { quad_pos = 0; left = 0; pads = 0 }

-- The byte that six more bits complete, if they do.
unfoldable pub emitted : ℕ → ℕ → ℕ → Option ℕ
emitted zero left v = none
emitted (suc zero) left v = some (left * 4 + v / 16)
emitted (suc (suc zero)) left v = some (left * 16 + v / 4)
emitted (suc (suc (suc n))) left v = some (left * 64 + v)

unfoldable pub advance : ℕ → ℕ → Quad
advance zero v = record { quad_pos = 1; left = v; pads = 0 }
advance (suc zero) v = record { quad_pos = 2; left = v % 16; pads = 0 }
advance (suc (suc zero)) v = record { quad_pos = 3; left = v % 4; pads = 0 }
advance (suc (suc (suc n))) v = record { quad_pos = 0; left = 0; pads = 0 }

unfoldable pub emit : Option ℕ → Option (List ℕ) → Option (List ℕ)
emit none bytes = bytes
emit (some byte) none = none
emit (some byte) (some bytes) = some (byte ∷ bytes)

-- Padding counts from the second character of a group on; where it completes the group, it ends the
-- text.
unfoldable pub decode_from : Quad → Text → Option (List ℕ)
unfolding symbol emitted advance emit
decode_from quad [] = if eqb quad.quad_pos 0 then some [] else none
decode_from quad (ch ∷ s) = elim (symbol ch) [
  | padding ↦ elim (leb 2 quad.quad_pos) [
    | false ↦ decode_from quad s
    | true ↦ elim (leb 4 (quad.quad_pos + suc quad.pads)) [
      | false ↦ decode_from (record quad { pads = suc quad.pads }) s
      | true ↦ some []
    ]
  ]
  | ignored ↦ decode_from quad s
  | bits v ↦ emit (emitted quad.quad_pos quad.left v) (decode_from (advance quad.quad_pos v) s)
]

-- `base64.urlsafe_b64decode`, none where it raises `binascii.Error`.
unfoldable pub urlsafe_b64decode : Text → Option (List ℕ)
unfolding decode_from
urlsafe_b64decode s = decode_from quad_start s

-- `s.rstrip("=")`
unfoldable pub rstrip_padding : Text → Text
rstrip_padding [] = []
rstrip_padding (ch ∷ s) = elim (rstrip_padding s) [
  | [] ↦ if eqb ch pad then [] else ch ∷ []
  | d ∷ t ↦ ch ∷ d ∷ t
]

-- `"=" * n`
unfoldable pub padding_of : ℕ → Text
padding_of zero = []
padding_of (suc n) = pad ∷ padding_of n

-- `s + "=" * (-len(s) % 4)`
unfoldable pub pad_again : Text → Text
unfolding padding_of
pad_again s = s ++ padding_of ((4 - length s % 4) % 4)
