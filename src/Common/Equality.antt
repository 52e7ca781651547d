-- ===== src/Common/Equality.antt =====
-- Decidable equality of keys, as a Boolean test with its law.
use Prim.Native.Nat.{ℕ}
use mathlib.Core.Path.{◌≡◌, refl, sym, subst, ◌∙◌}
use mathlib.Core.Logic.{◌↔◌, ◌≢◌}
use mathlib.Core.Bool.{Bool, true, false, ◌&&◌}
use mathlib.Core.List.{[], ◌∷◌}
use native.Mathlib.Omega.{arith}
use sre_tab.Common.Tests.{eqb, eqb_iff, Bool-cases}
use sre_tab.Common.Texts.{Text}
use mathlib.Core.Logic.{inl, inr}

unfoldable pub text_beq : Text → Text → Bool
text_beq [] [] = true
text_beq [] (d ∷ t) = false
text_beq (c ∷ s) [] = false
text_beq (c ∷ s) (d ∷ t) = eqb c d && text_beq s t

pub text_beq_iff : (s t : Text) → (text_beq s t ≡ true) ↔ (s ≡ t)
unfolding text_beq
text_beq_iff [] [] = ground arith
text_beq_iff [] (d ∷ t) = ground arith
text_beq_iff (c ∷ s) [] = ground arith
text_beq_iff (c ∷ s) (d ∷ t) = ground (arith, text_beq_iff s t)

-- What `==` of the source is for the keys that it compares.
pub record Eq {ℓ} (K : Type ℓ) : Type ℓ where
  pub same : K → K → Bool
  pub of_same : (k l : K) → same k l ≡ true → k ≡ l
  pub same_self : (k : K) → same k k ≡ true

instance abbrev pub text_eq : Eq Text
text_eq = record {
  same = text_beq;
  of_same = λ s t. (text_beq_iff s t).0;
  same_self = λ s. (text_beq_iff s s).1 refl;
}

instance abbrev pub nat_eq : Eq ℕ
nat_eq = record {
  same = eqb;
  of_same = λ m n. (eqb_iff m n).0;
  same_self = λ m. (eqb_iff m m).1 refl;
}

infix 50 ◌==◌
abbrev pub ◌==◌ {ℓ} : {K : Type ℓ} ⦃keys : Eq K⦄ → K → K → Bool
◌==◌ ⦃keys = keys⦄ k l = keys.same k l

true_not_false : true ≢ false
true_not_false h = absurd (ground (arith, h))

module _ {ℓ} {K : Type ℓ} ⦃keys : Eq K⦄ where
  pub eq_refl : (k : K) → (k == k) ≡ true
  eq_refl = keys.same_self

  pub eq_of_true : (k l : K) → (k == l) ≡ true → k ≡ l
  eq_of_true = keys.of_same

  pub ne_of_false : (k l : K) → (k == l) ≡ false → k ≢ l
  ne_of_false k l h p =
      true_not_false (sym (subst (λ x. keys.same k x ≡ true) p (keys.same_self k)) ∙ h)

  pub false_of_ne : (k l : K) → k ≢ l → (k == l) ≡ false
  false_of_ne k l h = elim (Bool-cases (k == l)) [
    | inl p ↦ absurd (h (keys.of_same k l p))
    | inr p ↦ p
  ]

  pub eq_flip : (k l : K) → (k == l) ≡ (l == k)
  eq_flip k l = elim (Bool-cases (k == l)) [
    | inl p ↦ p ∙ sym (subst (λ x. keys.same l x ≡ true) (sym (eq_of_true k l p)) (eq_refl l))
    | inr p ↦ p ∙ sym (false_of_ne l k (λ e. ne_of_false k l p (sym e)))
  ]
