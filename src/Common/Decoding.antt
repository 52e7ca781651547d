-- ===== src/Common/Decoding.antt =====
-- What was encoded in Base64 is decoded again.
use Prim.Native.Nat.{ℕ, suc, ◌+◌, ◌-◌, ◌*◌, ◌/◌, ◌%◌, ◌<◌}
use mathlib.Core.Path.{◌≡◌, refl, ap, ◌∙◌}
use native.Mathlib.Omega.{arith}
use mathlib.Core.Bool.{false}
use mathlib.Core.Option.{some}
use mathlib.Core.List.{List, [], ◌∷◌, ◌++◌}
use sre_tab.Common.Tests.{eqb, if◌then◌else◌}
use sre_tab.Common.Lists.{All, length}
use sre_tab.Common.Texts.{Text}
use sre_tab.Common.Base64.{
  pad, char64, urlsafe_b64encode, bits, symbol, Quad, quad_start, emitted, advance, emit,
  decode_from, urlsafe_b64decode, rstrip_padding, padding_of, pad_again,
}

symbol-char64 : (v : ℕ) → v < 64 → symbol (char64 v) ≡ bits v
unfolding symbol char64
symbol-char64 v h = ground arith

rstrip_padding-char64 :
    (v : ℕ) (s : Text) → v < 64 → rstrip_padding (char64 v ∷ s) ≡ char64 v ∷ rstrip_padding s
unfolding rstrip_padding
rstrip_padding-char64 v s h = kept (rstrip_padding s)
  where
    no_pad : eqb (char64 v) pad ≡ false
    no_pad = unfold char64 in ground arith

    kept :
        (t : Text)
        → elim t [
          | [] ↦ (if eqb (char64 v) pad then [] else char64 v ∷ [])
          | d ∷ u ↦ char64 v ∷ d ∷ u
        ]
          ≡ char64 v ∷ t
    kept [] = rw no_pad refl
    kept (d ∷ u) = refl

decode-char64 :
    (quad : Quad) (v : ℕ) (s : Text)
    → v < 64
    → decode_from quad (char64 v ∷ s)
      ≡ emit (emitted quad.quad_pos quad.left v) (decode_from (advance quad.quad_pos v) s)
unfolding decode_from
decode-char64 quad v s h = rw (symbol-char64 v h, decode_from) refl

first_byte : (a b : ℕ) → b < 256 → a / 4 * 4 + (a % 4 * 16 + b / 16) / 16 ≡ a
first_byte a b h = omega arith

second_byte :
    (a b c : ℕ)
    → b < 256
    → c < 256
    → (a % 4 * 16 + b / 16) % 16 * 16 + (b % 16 * 4 + c / 64) / 4 ≡ b
second_byte a b c h k = omega arith

third_byte : (b c : ℕ) → c < 256 → (b % 16 * 4 + c / 64) % 4 * 64 + c % 64 ≡ c
third_byte b c h = omega arith

-- The characters of a group give back its bytes.
decode-quad :
    (a b c : ℕ) (s : Text)
    → a < 256
    → b < 256
    → c < 256
    → decode_from quad_start (
        char64 (a / 4)
        ∷ char64 (a % 4 * 16 + b / 16)
        ∷ char64 (b % 16 * 4 + c / 64)
        ∷ char64 (c % 64)
        ∷ s)
      ≡ emit (some a) (emit (some b) (emit (some c) (decode_from quad_start s)))
unfolding emitted advance emit
decode-quad a b c s ha hb hc =
    rw
      (
        decode-char64 quad_start (a / 4) _ (omega arith),
        decode-char64 (advance 0 (a / 4)) (a % 4 * 16 + b / 16) _ (omega arith),
        decode-char64 (advance 1 (a % 4 * 16 + b / 16)) (b % 16 * 4 + c / 64) _ (omega arith),
        decode-char64 (advance 2 (b % 16 * 4 + c / 64)) (c % 64) _ (omega arith),
      )
      (rw (first_byte a b hb, second_byte a b c hb hc, third_byte b c hc) refl)

pad_again-quad :
    (w x y z : ℕ) (s : Text) → pad_again (w ∷ x ∷ y ∷ z ∷ s) ≡ w ∷ x ∷ y ∷ z ∷ pad_again s
unfolding pad_again
pad_again-quad w x y z s = ap (λ n. w ∷ x ∷ y ∷ z ∷ (s ++ padding_of n)) (same (length s))
  where
    same : (n : ℕ) → (4 - suc (suc (suc (suc n))) % 4) % 4 ≡ (4 - n % 4) % 4
    same n = omega arith

stripped-quad :
    (v0 v1 v2 v3 : ℕ) (s : Text)
    → v0 < 64
    → v1 < 64
    → v2 < 64
    → v3 < 64
    → pad_again (rstrip_padding (char64 v0 ∷ char64 v1 ∷ char64 v2 ∷ char64 v3 ∷ s))
      ≡ char64 v0 ∷ char64 v1 ∷ char64 v2 ∷ char64 v3 ∷ pad_again (rstrip_padding s)
stripped-quad v0 v1 v2 v3 s h0 h1 h2 h3 =
    rw
      (
        rstrip_padding-char64 v0 (char64 v1 ∷ char64 v2 ∷ char64 v3 ∷ s) h0,
        rstrip_padding-char64 v1 (char64 v2 ∷ char64 v3 ∷ s) h1,
        rstrip_padding-char64 v2 (char64 v3 ∷ s) h2,
        rstrip_padding-char64 v3 s h3,
      )
      (pad_again-quad (char64 v0) (char64 v1) (char64 v2) (char64 v3) (rstrip_padding s))

stripped-pair :
    (v0 v1 : ℕ)
    → v0 < 64
    → v1 < 64
    → pad_again (rstrip_padding (char64 v0 ∷ char64 v1 ∷ pad ∷ pad ∷ []))
      ≡ char64 v0 ∷ char64 v1 ∷ pad ∷ pad ∷ []
stripped-pair v0 v1 h0 h1 =
    rw
      (
        rstrip_padding-char64 v0 (char64 v1 ∷ pad ∷ pad ∷ []) h0,
        rstrip_padding-char64 v1 (pad ∷ pad ∷ []) h1,
      )
      (unfold rstrip_padding pad_again padding_of in refl)

stripped-triple :
    (v0 v1 v2 : ℕ)
    → v0 < 64
    → v1 < 64
    → v2 < 64
    → pad_again (rstrip_padding (char64 v0 ∷ char64 v1 ∷ char64 v2 ∷ pad ∷ []))
      ≡ char64 v0 ∷ char64 v1 ∷ char64 v2 ∷ pad ∷ []
stripped-triple v0 v1 v2 h0 h1 h2 =
    rw
      (
        rstrip_padding-char64 v0 (char64 v1 ∷ char64 v2 ∷ pad ∷ []) h0,
        rstrip_padding-char64 v1 (char64 v2 ∷ pad ∷ []) h1,
        rstrip_padding-char64 v2 (pad ∷ []) h2,
      )
      (unfold rstrip_padding pad_again padding_of in refl)

-- Bytes that were encoded are decoded again, also when the padding was stripped in between.
pub urlsafe_b64decode-urlsafe_b64encode :
    (bytes : List ℕ)
    → All (λ b. b < 256) bytes
    → urlsafe_b64decode (pad_again (rstrip_padding (urlsafe_b64encode bytes))) ≡ some bytes
unfolding urlsafe_b64decode urlsafe_b64encode
urlsafe_b64decode-urlsafe_b64encode [] h =
    unfold rstrip_padding pad_again padding_of decode_from in refl
urlsafe_b64decode-urlsafe_b64encode (a ∷ []) (ha, _) =
    ap (decode_from quad_start) (stripped-pair (a / 4) (a % 4 * 16) (omega arith) (omega arith))
    ∙ rw
        (
          decode-char64 quad_start (a / 4) _ (omega arith),
          decode-char64 (advance 0 (a / 4)) (a % 4 * 16) _ (omega arith),
        )
        (ap (λ n. some (n ∷ [])) one_byte)
  where
    one_byte : a / 4 * 4 + a % 4 * 16 / 16 ≡ a
    one_byte = omega arith
urlsafe_b64decode-urlsafe_b64encode (a ∷ b ∷ []) (ha, (hb, _)) =
    ap (decode_from quad_start) (
      stripped-triple (a / 4) (a % 4 * 16 + b / 16) (b % 16 * 4) (omega arith) (omega arith)
        (omega arith))
    ∙ rw
        (
          decode-char64 quad_start (a / 4) _ (omega arith),
          decode-char64 (advance 0 (a / 4)) (a % 4 * 16 + b / 16) _ (omega arith),
          decode-char64 (advance 1 (a % 4 * 16 + b / 16)) (b % 16 * 4) _ (omega arith),
        )
        (rw (first_byte a b hb, last_byte) refl)
  where
    last_byte : (a % 4 * 16 + b / 16) % 16 * 16 + b % 16 * 4 / 4 ≡ b
    last_byte = omega arith
urlsafe_b64decode-urlsafe_b64encode (a ∷ b ∷ c ∷ bytes) (ha, (hb, (hc, h))) =
    rw
      (
        stripped-quad (a / 4) (a % 4 * 16 + b / 16) (b % 16 * 4 + c / 64) (c % 64)
            (urlsafe_b64encode bytes) (omega arith) (omega arith) (omega arith) (omega arith),
        decode-quad a b c (pad_again (rstrip_padding (urlsafe_b64encode bytes))) ha hb hc,
        urlsafe_b64decode-urlsafe_b64encode bytes h,
      )
      refl
