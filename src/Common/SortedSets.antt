-- ===== src/Common/SortedSets.antt =====
-- What is in a sorted set of texts, and that its elements determine it.
use mathlib.Core.Path.{◌≡◌, refl, sym, subst, ap, ◌∙◌}
use mathlib.Core.Logic.{inl, inr}
use mathlib.Core.Bool.{Bool, true, false, ◌||◌}
use mathlib.Core.List.{List, [], ◌∷◌}
use native.Mathlib.Omega.{arith}
use sre_tab.Common.Tests.{Bool-cases}
use sre_tab.Common.Lists.{All}
use sre_tab.Common.Texts.{Text, text_before}
use sre_tab.Common.Equality.{◌==◌, text_eq, eq_refl, eq_of_true}
use sre_tab.Common.Rows.{exists_row}
use sre_tab.Common.Sorting.{insert_by, sort_by, Sorted}
use sre_tab.Common.Batches.{insert_text, sorted_set, text_before_asym}

-- `x in xs`
unfoldable pub contains : Text → List Text → Bool
unfolding exists_row
contains x xs = exists_row (λ y. x == y) xs

contains-insert_text :
    (x y : Text) (ys : List Text) → contains x (insert_text y ys) ≡ (x == y) || contains x ys
unfolding contains exists_row insert_text
contains-insert_text x y [] = ground arith
contains-insert_text x y (z ∷ zs) = elim (Bool-cases (y == z)) [
  | inl same ↦ rw same (ground (arith, ap (λ (k : Text). x == k) (eq_of_true {K = Text} y z same)))
  | inr differ ↦ elim (Bool-cases (text_before y z)) [
    | inl first ↦ rw (differ, first) (ground arith)
    | inr later ↦ rw (differ, later) (ground (arith, contains-insert_text x y zs))
  ]
]

pub contains-sorted_set : (x : Text) (xs : List Text) → contains x (sorted_set xs) ≡ contains x xs
unfolding contains exists_row sorted_set
contains-sorted_set x [] = refl
contains-sorted_set x (y ∷ xs) =
    contains-insert_text x y (sorted_set xs) ∙ ground (arith, contains-sorted_set x xs)

exists_row-insert_by :
    (p : Text → Bool) (before : Text → Text → Bool) (x : Text) (ys : List Text)
    → exists_row p (insert_by before x ys) ≡ p x || exists_row p ys
unfolding exists_row insert_by
exists_row-insert_by p before x [] = ground arith
exists_row-insert_by p before x (y ∷ ys) = ground (arith, exists_row-insert_by p before x ys)

pub exists_row-sort_by :
    (p : Text → Bool) (before : Text → Text → Bool) (xs : List Text)
    → exists_row p (sort_by before xs) ≡ exists_row p xs
unfolding exists_row sort_by
exists_row-sort_by p before [] = refl
exists_row-sort_by p before (x ∷ xs) =
    exists_row-insert_by p before x (sort_by before xs)
    ∙ ground (arith, exists_row-sort_by p before xs)

pub All_contained :
    (P : Text → Type 0) (x : Text) (xs : List Text) → All P xs → contains x xs ≡ true → P x
unfolding contains exists_row
All_contained P x [] h e = absurd (ground (arith, e))
All_contained P x (y ∷ ys) h e = elim (Bool-cases (x == y)) [
  | inl same ↦ subst P (sym (eq_of_true {K = Text} x y same)) h.0
  | inr differ ↦ All_contained P x ys h.1 (ground (arith, e, differ))
]

contains_cons_differ :
    (x y : Text) (ys : List Text) → (x == y) ≡ false → contains x (y ∷ ys) ≡ contains x ys
unfolding contains exists_row
contains_cons_differ x y ys h = rw h refl

contains_cons_same : (x : Text) (ys : List Text) → contains x (x ∷ ys) ≡ true
unfolding contains exists_row
contains_cons_same x ys = rw (eq_refl {K = Text} x) refl

contains_nil : (z : Text) → contains z [] ≡ false
unfolding contains exists_row
contains_nil z = refl

-- The head of a sorted list is not in its tail.
head_not_later :
    (x : Text) (xs : List Text) → All (λ y. text_before x y ≡ true) xs → contains x xs ≡ false
head_not_later x xs h = elim (Bool-cases (contains x xs)) [
  | inr e ↦ e
  | inl e ↦
      absurd
        (ground (arith, All_contained (λ y. text_before x y ≡ true) x xs h e, text_before_asym x x))
]

tails_same :
    (x : Text) (xs ys : List Text)
    → All (λ y. text_before x y ≡ true) xs
    → All (λ y. text_before x y ≡ true) ys
    → ((z : Text) → contains z (x ∷ xs) ≡ contains z (x ∷ ys))
    → (z : Text) → contains z xs ≡ contains z ys
tails_same x xs ys h k same z = elim (Bool-cases (z == x)) [
  | inl e ↦
      subst (λ (w : Text). contains w xs ≡ contains w ys) (sym (eq_of_true {K = Text} z x e))
        (head_not_later x xs h ∙ sym (head_not_later x ys k))
  | inr e ↦ sym (contains_cons_differ z x xs e) ∙ same z ∙ contains_cons_differ z x ys e
]

heads_same :
    (x y : Text) (xs ys : List Text)
    → All (λ z. text_before x z ≡ true) xs
    → All (λ z. text_before y z ≡ true) ys
    → ((z : Text) → contains z (x ∷ xs) ≡ contains z (y ∷ ys))
    → x ≡ y
heads_same x y xs ys h k same = elim (Bool-cases (x == y)) [
  | inl e ↦ eq_of_true {K = Text} x y e
  | inr e ↦ elim (Bool-cases (y == x)) [
    | inl f ↦ sym (eq_of_true {K = Text} y x f)
    | inr f ↦
        let x_later : text_before y x ≡ true =
          All_contained _ x ys k
            (sym (contains_cons_differ x y ys e) ∙ sym (same x) ∙ contains_cons_same x xs) in
        let y_later : text_before x y ≡ true =
          All_contained _ y xs h
            (sym (contains_cons_differ y x xs f) ∙ same y ∙ contains_cons_same y ys) in
        absurd (ground (arith, x_later, y_later, text_before_asym x y))
  ]
]

-- Sorted lists with the same elements are equal.
pub same_elements :
    (xs ys : List Text)
    → Sorted text_before xs
    → Sorted text_before ys
    → ((z : Text) → contains z xs ≡ contains z ys)
    → xs ≡ ys
same_elements [] [] s t same = refl
same_elements [] (y ∷ ys) s t same =
    absurd (ground (arith, same y, contains_cons_same y ys, contains_nil y))
same_elements (x ∷ xs) [] s t same =
    absurd (ground (arith, same x, contains_cons_same x xs, contains_nil x))
same_elements (x ∷ xs) (y ∷ ys) s t same =
    let first : x ≡ y = heads_same x y xs ys s.0 t.0 same in
    let later : All (λ z. text_before x z ≡ true) ys =
      subst (λ (k : Text). All (λ z. text_before k z ≡ true) ys) (sym first) t.0 in
    let same_later : (z : Text) → contains z (x ∷ xs) ≡ contains z (x ∷ ys) =
      λ z. same z ∙ ap (λ (k : Text). contains z (k ∷ ys)) (sym first) in
    ap (λ rest. x ∷ rest) (same_elements xs ys s.1 t.1 (tails_same x xs ys s.0 later same_later))
    ∙ ap (λ (k : Text). k ∷ ys) first
