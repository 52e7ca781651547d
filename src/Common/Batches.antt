-- ===== src/Common/Batches.antt =====
-- Sorted sets of texts, and INSERT … ON CONFLICT DO NOTHING of a batch of rows.
use mathlib.Core.Path.{◌≡◌, refl, sym, ap, ◌∙◌}
use mathlib.Core.Logic.{inl, inr}
use mathlib.Core.Bool.{Bool, true, false}
use mathlib.Core.List.{List, [], ◌∷◌, ◌++◌, append-nil, append_assoc}
use native.Mathlib.Omega.{arith}
use sre_tab.Common.Tests.{if◌then◌else◌, Bool-cases}
use sre_tab.Common.Lists.{All}
use sre_tab.Common.Texts.{Text, text_before}
use sre_tab.Common.Equality.{◌==◌, text_eq, text_beq}
use sre_tab.Common.Rows.{exists_row, insert_ignore}
use sre_tab.Common.Sorting.{insert_by, sort_by, Sorted, Transitive}

-- Put a text into a list without repetition, in order.
unfoldable pub insert_text : Text → List Text → List Text
unfolding text_before
insert_text x [] = x ∷ []
insert_text x (y ∷ ys) =
    let rest = insert_text x ys in
    if x == y then y ∷ ys else (if text_before x y then x ∷ y ∷ ys else y ∷ rest)

-- `sorted({…})`
unfoldable pub sorted_set : List Text → List Text
unfolding insert_text
sorted_set [] = []
sorted_set (x ∷ xs) = insert_text x (sorted_set xs)

pub text_before-Transitive : Transitive text_before
unfolding text_before
text_before-Transitive [] [] z h k = absurd (ground (arith, h))
text_before-Transitive [] (d ∷ t) [] h k = absurd (ground (arith, k))
text_before-Transitive [] (d ∷ t) (e ∷ u) h k = refl
text_before-Transitive (c ∷ s) [] z h k = absurd (ground (arith, h))
text_before-Transitive (c ∷ s) (d ∷ t) [] h k = absurd (ground (arith, k))
text_before-Transitive (c ∷ s) (d ∷ t) (e ∷ u) h k = ground (arith, text_before-Transitive s t u)

-- One of two different texts comes first.
pub text_before_other :
    (x y : Text) → (x == y) ≡ false → text_before x y ≡ false → text_before y x ≡ true
unfolding text_before text_beq
text_before_other [] [] h k = absurd (ground (arith, h))
text_before_other [] (d ∷ t) h k = absurd (ground (arith, k))
text_before_other (c ∷ s) [] h k = refl
text_before_other (c ∷ s) (d ∷ t) h k = ground (arith, text_before_other s t)

pub text_before_asym : (x y : Text) → text_before x y ≡ true → text_before y x ≡ false
unfolding text_before
text_before_asym [] [] h = absurd (ground (arith, h))
text_before_asym [] (d ∷ t) h = refl
text_before_asym (c ∷ s) [] h = absurd (ground (arith, h))
text_before_asym (c ∷ s) (d ∷ t) h = ground (arith, text_before_asym s t)

pub text_before_ne : (x y : Text) → text_before x y ≡ true → (x == y) ≡ false
unfolding text_before text_beq
text_before_ne [] [] h = absurd (ground (arith, h))
text_before_ne [] (d ∷ t) h = refl
text_before_ne (c ∷ s) [] h = refl
text_before_ne (c ∷ s) (d ∷ t) h = ground (arith, text_before_ne s t)

pub text_before_ne_sym : (x y : Text) → text_before x y ≡ true → (y == x) ≡ false
unfolding text_before text_beq
text_before_ne_sym [] [] h = absurd (ground (arith, h))
text_before_ne_sym [] (d ∷ t) h = refl
text_before_ne_sym (c ∷ s) [] h = refl
text_before_ne_sym (c ∷ s) (d ∷ t) h = ground (arith, text_before_ne_sym s t)

text_before-All :
    (x y : Text) (ys : List Text)
    → text_before x y ≡ true
    → All (λ z. text_before y z ≡ true) ys
    → All (λ z. text_before x z ≡ true) ys
text_before-All x y [] h hs = tt
text_before-All x y (z ∷ zs) h hs =
    (text_before-Transitive x y z h hs.0, text_before-All x y zs h hs.1)

All-insert_text :
    (P : Text → Type 0) (x : Text) (ys : List Text) → P x → All P ys → All P (insert_text x ys)
unfolding insert_text
All-insert_text P x [] px ps = (px, tt)
All-insert_text P x (y ∷ ys) px ps = elim (Bool-cases (x == y)) [
  | inl same ↦ rw same (ps)
  | inr differ ↦ elim (Bool-cases (text_before x y)) [
    | inl first ↦ rw (differ, first) (px, ps)
    | inr later ↦ rw (differ, later) (ps.0, All-insert_text P x ys px ps.1)
  ]
]

insert_text-Sorted :
    (x : Text) (ys : List Text) → Sorted text_before ys → Sorted text_before (insert_text x ys)
unfolding insert_text
insert_text-Sorted x [] s = (tt, tt)
insert_text-Sorted x (y ∷ ys) s = elim (Bool-cases (x == y)) [
  | inl same ↦ rw same (s)
  | inr differ ↦ elim (Bool-cases (text_before x y)) [
    | inl first ↦ rw (differ, first) ((first, text_before-All x y ys first s.0), s)
    | inr later ↦
        rw (differ, later)
          (
            All-insert_text (λ z. text_before y z ≡ true) x ys (text_before_other x y differ later)
                s.0,
            insert_text-Sorted x ys s.1,
          )
  ]
]

pub sorted_set-Sorted : (xs : List Text) → Sorted text_before (sorted_set xs)
unfolding sorted_set
sorted_set-Sorted [] = tt
sorted_set-Sorted (x ∷ xs) = insert_text-Sorted x (sorted_set xs) (sorted_set-Sorted xs)

insert_by_first :
    (x : Text) (ys : List Text)
    → All (λ y. text_before x y ≡ true) ys
    → insert_by text_before x ys ≡ x ∷ ys
unfolding insert_by
insert_by_first x [] h = refl
insert_by_first x (y ∷ ys) h = rw (text_before_asym x y h.0) refl

-- A sorted column is what ORDER BY makes of it.
pub sort_by_in_order : (xs : List Text) → Sorted text_before xs → sort_by text_before xs ≡ xs
unfolding sort_by
sort_by_in_order [] s = refl
sort_by_in_order (x ∷ xs) s =
    ap (insert_by text_before x) (sort_by_in_order xs s.1) ∙ insert_by_first x xs s.0

module _ {ℓ} {A : Type ℓ} (same_key : A → A → Bool) where
  -- `insert_ignore` of app/services/upsert.py, for the key of the table.
  unfoldable pub insert_rows : List A → List A → List A
  insert_rows [] table = table
  insert_rows (row ∷ rows) table = insert_rows rows (insert_ignore (same_key row) row table)

  -- No two rows share a key.
  abbrev pub Keyed : List A → Type 0
  Keyed [] = Unit
  Keyed (row ∷ rows) = All (λ other. same_key other row ≡ false) rows × Keyed rows

  exists_append_false :
      (p : A → Bool) (rows : List A) (row : A)
      → exists_row p rows ≡ false
      → p row ≡ false
      → exists_row p (rows ++ row ∷ []) ≡ false
  unfolding exists_row
  exists_append_false p [] row g h = rw h refl
  exists_append_false p (y ∷ ys) row g h = ground (arith, exists_append_false p ys row)

  fresh_after :
      (row : A) (rows table : List A)
      → All (λ other. exists_row (same_key other) table ≡ false) rows
      → All (λ other. same_key other row ≡ false) rows
      → All (λ other. exists_row (same_key other) (table ++ row ∷ []) ≡ false) rows
  fresh_after row [] table h k = tt
  fresh_after row (other ∷ rows) table h k =
      (exists_append_false (same_key other) table row h.0 k.0, fresh_after row rows table h.1 k.1)

  -- Rows of different keys that the table does not hold are appended as they are.
  pub insert_rows_fresh :
      (rows table : List A)
      → Keyed rows
      → All (λ row. exists_row (same_key row) table ≡ false) rows
      → insert_rows rows table ≡ table ++ rows
  unfolding insert_rows insert_ignore
  insert_rows_fresh [] table keyed h = sym (append-nil table)
  insert_rows_fresh (row ∷ rows) table keyed h = rw (h.0) (
      insert_rows_fresh rows (table ++ row ∷ []) keyed.1 (fresh_after row rows table h.1 keyed.0)
      ∙ append_assoc table (row ∷ []) rows)
