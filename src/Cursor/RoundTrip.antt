-- ===== src/Cursor/RoundTrip.antt =====
-- A cursor decodes to the position that it encodes.
use sre_tab.Common.{
  ℕ, ◌+◌, ◌*◌, ◌/◌, ◌%◌, ◌≤◌, ◌<◌, ◌≡◌, refl, ap, ◌∙◌, true, some, List, [], ◌∷◌, Text, All,
  All-append, eqb, Bool-cases, inl, inr, leb→le, leb→lt, leb, ◌-◌, suc, show_integer,
  show_integer-All, IsNumeral, read_int-show_integer, if◌then◌else◌, pad, ltb, every, split, lacks,
  split-append, split-lacks, show_number, IsDigit, show_number-All, lacks-digits,
  read_int-show_number, char64, urlsafe_b64encode, rstrip_padding,
  urlsafe_b64decode-urlsafe_b64encode, arith, text_eq, eq_refl,
}
use sre_tab.Cursor.{
  Position, colon, version_text, last_time, cursor_payload, encode_cursor, read_parts, read_payload,
  decode_cursor, micros_of, datetime_of, datetime_read, epoch,
}

abbrev IsAscii : ℕ → Type 0
IsAscii c = c < 128

every-IsAscii : (s : Text) → All IsAscii s → every (λ c. ltb c 128) s ≡ true
unfolding every
every-IsAscii [] h = refl
every-IsAscii (c ∷ s) (h, hs) = rw (every-IsAscii s hs) (ground (arith, h))

digits-IsAscii : (s : Text) → All IsDigit s → All IsAscii s
digits-IsAscii [] h = tt
digits-IsAscii (c ∷ s) ((low, high), h) = (omega (arith, high), digits-IsAscii s h)

numerals-IsAscii : (s : Text) → All IsNumeral s → All IsAscii s
numerals-IsAscii [] h = tt
numerals-IsAscii (c ∷ s) ((low, high), h) = (omega (arith, high), numerals-IsAscii s h)

lacks-numerals : (s : Text) → All IsNumeral s → lacks colon s ≡ true
unfolding lacks
lacks-numerals [] h = refl
lacks-numerals (c ∷ s) ((low, high), h) = rw (lacks-numerals s h) (ground (arith, low, high))

cursor_payload-IsAscii : (position : Position) → All IsAscii (cursor_payload position)
unfolding cursor_payload
cursor_payload-IsAscii (at, row_id) = (
  omega arith,
  (
    omega arith,
    All-append IsAscii (show_integer (micros_of at)) (colon ∷ show_number row_id)
        (numerals-IsAscii (show_integer (micros_of at)) (show_integer-All (micros_of at)))
        (omega arith, digits-IsAscii (show_number row_id) (show_number-All row_id)),
  ),
)

char64-IsAscii : (v : ℕ) → IsAscii (char64 v)
unfolding char64
char64-IsAscii v = ground arith

urlsafe_b64encode-IsAscii : (bytes : List ℕ) → All IsAscii (urlsafe_b64encode bytes)
unfolding urlsafe_b64encode
urlsafe_b64encode-IsAscii [] = tt
urlsafe_b64encode-IsAscii (a ∷ []) =
    (char64-IsAscii (a / 4), (char64-IsAscii (a % 4 * 16), (omega arith, (omega arith, tt))))
urlsafe_b64encode-IsAscii (a ∷ b ∷ []) = (
  char64-IsAscii (a / 4),
  (char64-IsAscii (a % 4 * 16 + b / 16), (char64-IsAscii (b % 16 * 4), (omega arith, tt))),
)
urlsafe_b64encode-IsAscii (a ∷ b ∷ c ∷ bytes) = (
  char64-IsAscii (a / 4),
  (
    char64-IsAscii (a % 4 * 16 + b / 16),
    (
      char64-IsAscii (b % 16 * 4 + c / 64),
      (char64-IsAscii (c % 64), urlsafe_b64encode-IsAscii bytes),
    ),
  ),
)

rstrip_padding-All : (P : ℕ → Type 0) (s : Text) → All P s → All P (rstrip_padding s)
unfolding rstrip_padding
rstrip_padding-All P [] h = tt
rstrip_padding-All P (c ∷ s) (h, hs) = kept (rstrip_padding s) (rstrip_padding-All P s hs)
  where
    kept :
        (t : Text)
        → All P t
        → All P (elim t [ [] ↦ (if eqb c pad then [] else c ∷ []) | d ∷ u ↦ c ∷ d ∷ u ])
    kept [] g = elim (Bool-cases (eqb c pad)) [
      | inl same ↦ rw same tt
      | inr other ↦ rw other (h, tt)
    ]
    kept (d ∷ u) g = (h, g)

split-cursor_payload :
    (at row_id : ℕ)
    → split colon (cursor_payload (at, row_id))
      ≡ version_text ∷ show_integer (micros_of at) ∷ show_number row_id ∷ []
unfolding cursor_payload lacks
split-cursor_payload at row_id =
    split-append colon version_text _ refl
    ∙ ap (λ rest. version_text ∷ rest)
        (split-append colon (show_integer (micros_of at)) (show_number row_id)
            (lacks-numerals (show_integer (micros_of at)) (show_integer-All (micros_of at)))
          ∙ ap (λ rest. show_integer (micros_of at) ∷ rest)
              (split-lacks colon (show_number row_id)
                (lacks-digits colon (show_number row_id) refl (show_number-All row_id))))

datetime_of-micros_of : (at : ℕ) → at ≤ last_time → datetime_of (micros_of at) ≡ some at
unfolding datetime_of micros_of
datetime_of-micros_of at h = elim (Bool-cases (leb epoch at)) [
  | inl late ↦
      let back : epoch + (at - epoch) ≡ at = omega (arith, leb→le epoch at late) in
      rw late (ground (arith, back, h))
  | inr early ↦
      let back : epoch - suc (epoch - suc at) ≡ at = omega (arith, leb→lt epoch at early) in
      rw early (ground (arith, back))
]

as_bytes : (s : Text) → All IsAscii s → All (λ b. b < 256) s
as_bytes [] h = tt
as_bytes (c ∷ s) (h, hs) = (omega (arith, h), as_bytes s hs)

-- A position of a `datetime` is read back from its cursor.
pub decode_cursor-encode_cursor :
    (position : Position)
    → position.0 ≤ last_time
    → decode_cursor (encode_cursor position) ≡ some position
unfolding decode_cursor encode_cursor read_payload read_parts datetime_read
decode_cursor-encode_cursor (at, row_id) h =
    let bytes : All (λ b. b < 256) (cursor_payload (at, row_id)) =
      as_bytes (cursor_payload (at, row_id)) (cursor_payload-IsAscii (at, row_id)) in
    rw
      (
        every-IsAscii (rstrip_padding (urlsafe_b64encode (cursor_payload (at, row_id)))) (
            rstrip_padding-All IsAscii (urlsafe_b64encode (cursor_payload (at, row_id)))
              (urlsafe_b64encode-IsAscii (cursor_payload (at, row_id)))),
        urlsafe_b64decode-urlsafe_b64encode (cursor_payload (at, row_id)) bytes,
        every-IsAscii (cursor_payload (at, row_id)) (cursor_payload-IsAscii (at, row_id)),
        split-cursor_payload at row_id,
        read_int-show_integer (micros_of at),
        datetime_of-micros_of at h,
        read_int-show_number row_id,
        eq_refl {K = Text} version_text,
      )
      refl
