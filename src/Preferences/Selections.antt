-- ===== src/Preferences/Selections.antt =====
-- `_resolve` of app/services/preferences.py: the ids that a list of slugs resolves to.
use sre_tab.Common.{
  Bool-cases, is_some, All, Text, is_nil, text_eq, nat_eq, ◌==◌, eq_of_true, ne_of_false, select,
  exists_row, delete_rows, exists_row-delete_rows_other, ℕ, ◌≡◌, refl, sym, subst, ◌∙◌, inl, inr,
  Bool, true, false, ◌||◌, Option, none, some, List, [], ◌∷◌, arith,
}
use sre_tab.Preferences.{accepted}
use sre_tab.Preferences.Patching.{distinct, lookup, put_id, ids_of, unknown, resolve}

abbrev pub matches : Option ℕ → ℕ → Bool
matches none n = false
matches (some i) n = i == n

pub exists_row-ids_of :
    (known : List (Text × ℕ)) (slugs : List Text) (n : ℕ)
    → exists_row (λ i. i == n) (ids_of known slugs)
      ≡ exists_row (λ slug. matches (lookup known slug) n) slugs
unfolding exists_row ids_of
exists_row-ids_of known [] n = refl
exists_row-ids_of known (slug ∷ slugs) n =
    exists_row-put_id (lookup known slug) ∙ ground (arith, exists_row-ids_of known slugs n)
  where
    exists_row-put_id :
        (o : Option ℕ)
        → exists_row (λ i. i == n) (put_id o (ids_of known slugs))
          ≡ matches o n || exists_row (λ i. i == n) (ids_of known slugs)
    exists_row-put_id none = unfold put_id in refl
    exists_row-put_id (some i) = unfold put_id in ground arith

pub All-exists_row :
    (p q : Text → Bool) (xs : List Text)
    → All (λ x. p x ≡ q x) xs
    → exists_row p xs ≡ exists_row q xs
unfolding exists_row
All-exists_row p q [] h = refl
All-exists_row p q (x ∷ xs) h = rw (h.0, All-exists_row p q xs h.1) refl

exists_row_delete_same :
    (x y : Text) (xs : List Text)
    → exists_row (λ z. z == x) (y ∷ delete_rows (λ z. z == y) xs)
      ≡ exists_row (λ z. z == x) (y ∷ xs)
unfolding exists_row
exists_row_delete_same x y xs = elim (Bool-cases (y == x)) [
  | inl same ↦ rw same refl
  | inr differ ↦ rw differ (
      exists_row-delete_rows_other (λ z. z == x) (λ z. z == y) xs
        λ z at_x.
          subst (λ (k : Text). (k == y) ≡ false) (sym (eq_of_true {K = Text} z x at_x))
            (flipped differ))
]
  where
    flipped : (y == x) ≡ false → (x == y) ≡ false
    flipped h = elim (Bool-cases (x == y)) [
      | inr e ↦ e
      | inl e ↦ absurd (ne_of_false {K = Text} y x h (sym (eq_of_true {K = Text} x y e)))
    ]

pub exists_row-distinct :
    (x : Text) (xs : List Text)
    → exists_row (λ z. z == x) (distinct xs) ≡ exists_row (λ z. z == x) xs
unfolding exists_row distinct
exists_row-distinct x [] = refl
exists_row-distinct x (y ∷ xs) =
    exists_row_delete_same x y (distinct xs) ∙ rw (exists_row-distinct x xs) refl

All-delete :
    (P : Text → Type 0) (q : Text → Bool) (xs : List Text) → All P xs → All P (delete_rows q xs)
unfolding delete_rows
All-delete P q [] h = tt
All-delete P q (x ∷ xs) h = elim (Bool-cases (q x)) [
  | inl gone ↦ rw gone (All-delete P q xs h.1)
  | inr kept ↦ rw kept (h.0, All-delete P q xs h.1)
]

pub All-distinct : (P : Text → Type 0) (xs : List Text) → All P xs → All P (distinct xs)
unfolding distinct
All-distinct P [] h = tt
All-distinct P (x ∷ xs) h = (h.0, All-delete P (λ y. y == x) (distinct xs) (All-distinct P xs h.1))

-- The dictionary has every slug.
abbrev pub IsKnown : List (Text × ℕ) → List Text → Type 0
IsKnown known slugs = All (λ slug. is_some (lookup known slug) ≡ true) slugs

unknown-IsKnown :
    (known : List (Text × ℕ)) (slugs : List Text)
    → is_nil (unknown known slugs) ≡ true
    → IsKnown known slugs
unfolding unknown select
unknown-IsKnown known [] h = tt
unknown-IsKnown known (slug ∷ slugs) h = elim (Bool-cases (is_some (lookup known slug))) [
  | inl there ↦ (there, unknown-IsKnown known slugs (ground (arith, h, there)))
  | inr lacking ↦ absurd (ground (arith, h, lacking))
]

-- What an accepted list resolves to.
pub resolve-IsKnown :
    (known : List (Text × ℕ)) (slugs : List Text) (ids : List ℕ)
    → resolve known slugs ≡ accepted ids
    → IsKnown known slugs × (ids ≡ ids_of known (distinct slugs))
unfolding resolve
resolve-IsKnown known slugs ids h = elim (Bool-cases (is_nil (unknown known slugs))) [
  | inl all ↦ (unknown-IsKnown known slugs all, ground (arith, h, all))
  | inr some_lacking ↦ absurd (ground (arith, h, some_lacking))
]
