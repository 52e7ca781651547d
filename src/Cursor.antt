-- ===== src/Cursor.antt =====
-- app/services/pagination.py: the cursors of a keyset position. A timestamp is in microseconds from
-- the first time of a `datetime` on.
pub mod RoundTrip
use sre_tab.Common.{
  ℕ, suc, Option, none, some, List, [], ◌∷◌, ◌++◌, Text, codes, text_eq, ◌==◌, ltb, leb, every,
  split, show_number, show_integer, ◌+◌, ◌-◌, ℤ, pos, negsuc, read_int, urlsafe_b64encode,
  urlsafe_b64decode, rstrip_padding, pad_again, if◌then◌else◌,
}

-- A timestamp and a row id.
abbrev pub Position : Type 0
Position = ℕ × ℕ

abbrev pub colon : ℕ
colon = b':'

-- `_VERSION`
abbrev pub version_text : Text
version_text = codes "1"

-- `_EPOCH`, and the last time of a `datetime`.
abbrev pub epoch : ℕ
epoch = 62135596800000000

abbrev pub last_time : ℕ
last_time = 315537897599999999

-- The microseconds from the epoch to a time.
unfoldable pub micros_of : ℕ → ℤ
micros_of at = if leb epoch at then pos (at - epoch) else negsuc (epoch - suc at)

-- What a cursor encodes; all of it is ASCII, so a character is a byte.
unfoldable pub cursor_payload : Position → Text
unfolding show_integer show_number micros_of
cursor_payload position =
    version_text ++ colon ∷ (show_integer (micros_of position.0) ++ colon ∷ show_number position.1)

unfoldable pub encode_cursor : Position → Text
unfolding cursor_payload
encode_cursor position = rstrip_padding (urlsafe_b64encode (cursor_payload position))

-- `_EPOCH + micros * _MICROSECOND`, none where that overflows.
unfoldable pub datetime_of : ℤ → Option ℕ
datetime_of (pos n) = if leb (epoch + n) last_time then some (epoch + n) else none
datetime_of (negsuc n) = if ltb n epoch then some (epoch - suc n) else none

-- A row id. No row has a negative one, so it stands before the same rows as 0.
unfoldable pub row_id_of : ℤ → ℕ
row_id_of (pos n) = n
row_id_of (negsuc n) = 0

-- The numbers of a payload, and the test of its version.
unfoldable pub read_position : Text → Option ℕ → Option ℤ → Option Position
unfolding row_id_of
read_position version none row_id = none
read_position version (some at) none = none
read_position version (some at) (some row_id) =
    if version == version_text then some (at, row_id_of row_id) else none

unfoldable pub datetime_read : Option ℤ → Option ℕ
unfolding datetime_of
datetime_read none = none
datetime_read (some micros) = datetime_of micros

-- `version, micros, row_id = payload.split(":")`, which needs three parts.
unfoldable pub read_parts : List Text → Option Position
unfolding read_position datetime_read read_int
read_parts (version ∷ micros ∷ row_id ∷ []) =
    read_position version (datetime_read (read_int micros)) (read_int row_id)
read_parts _ = none

-- Bytes that are ASCII; the digits of other scripts, which `int` reads too, are refused here.
unfoldable pub read_payload : Option (List ℕ) → Option Position
unfolding read_parts split every
read_payload none = none
read_payload (some payload) =
    if every (λ b. ltb b 128) payload then read_parts (split colon payload) else none

-- `none` is `InvalidCursorError`. A text that is not ASCII cannot be decoded.
unfoldable pub decode_cursor : Text → Option Position
unfolding read_payload pad_again urlsafe_b64decode every
decode_cursor cursor =
    if every (λ c. ltb c 128) cursor
    then read_payload (urlsafe_b64decode (pad_again cursor))
    else none
