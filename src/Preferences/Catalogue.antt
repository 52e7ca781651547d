-- ===== src/Preferences/Catalogue.antt =====
-- Topics and sources as app/services/preferences.py selects them: rows with unique slugs and ids.
use sre_tab.Common.{
  Bool-cases, is_some, All, All-map, Text, text_before, text_eq, nat_eq, ◌==◌, eq_refl, eq_of_true,
  eq_flip, select, exists_row, sort_by, Apart, sort_by-Sorted, sorted_set, text_before-Transitive,
  text_before_other, sorted_set-Sorted, contains, contains-sorted_set, exists_row-sort_by,
  All_contained, same_elements, ℕ, ◌≡◌, refl, sym, ap, ◌∙◌, ◌⊎◌, inl, inr, Bool, true, false, ◌&&◌,
  List, [], ◌∷◌, map, arith,
}
use sre_tab.Preferences.{accepted}
use sre_tab.Preferences.Patching.{distinct, lookup, ids_of, resolve}
use sre_tab.Preferences.Selections.{
  matches, exists_row-ids_of, All-exists_row, exists_row-distinct, All-distinct, IsKnown,
  resolve-IsKnown,
}

module _ {A : Type 0} (slug : A → Text) (id : A → ℕ) where
  -- Ids and slugs are unique.
  abbrev pub IsCatalogue : List A → Type 0
  IsCatalogue [] = Unit
  IsCatalogue (a ∷ rows) =
      All (λ b. ((id b == id a) ≡ false) × ((slug b == slug a) ≡ false)) rows × IsCatalogue rows

  -- Of a row and any other, the ids agree where the slugs do.
  abbrev IsAligned : A → List A → Type 0
  IsAligned a rows = All (λ b. (id b == id a) ≡ (slug b == slug a)) rows

  agree_after :
      (a : A) (rows : List A)
      → All (λ b. ((id b == id a) ≡ false) × ((slug b == slug a) ≡ false)) rows
      → IsAligned a rows
  agree_after a [] h = tt
  agree_after a (b ∷ rows) h = (h.0.0 ∙ sym h.0.1, agree_after a rows h.1)

  abbrev entries : List A → List (Text × ℕ)
  entries rows = map (λ a. (slug a, id a)) rows

  matches-lookup :
      (a : A) (rows : List A) (s : Text)
      → IsAligned a rows
      → is_some (lookup (entries rows) s) ≡ true
      → matches (lookup (entries rows) s) (id a) ≡ (s == slug a)
  unfolding lookup
  matches-lookup a [] s h k = absurd (ground (arith, k))
  matches-lookup a (b ∷ rows) s h k = step (Bool-cases (slug b == s)) (matches-lookup a rows s h.1)
    where
      step :
          ((slug b == s) ≡ true) ⊎ ((slug b == s) ≡ false)
          → (is_some (lookup (entries rows) s) ≡ true
              → matches (lookup (entries rows) s) (id a) ≡ (s == slug a))
          → matches (lookup (entries (b ∷ rows)) s) (id a) ≡ (s == slug a)
      step (inl here) ih =
          ground (
            arith,
            here,
            h.0,
            ap (λ (x : Text). x == slug a) (eq_of_true {K = Text} (slug b) s here),
          )
      step (inr later) ih = ground (arith, later, k, ih)

  All-select : (P : A → Type 0) (q : A → Bool) (rows : List A) → All P rows → All P (select q rows)
  unfolding select
  All-select P q [] h = tt
  All-select P q (a ∷ rows) h = elim (Bool-cases (q a)) [
    | inl hit ↦ rw hit (h.0, All-select P q rows h.1)
    | inr miss ↦ rw miss (All-select P q rows h.1)
  ]

  IsAligned-All : (rows : List A) → IsCatalogue rows → All (λ a. IsAligned a rows) rows
  IsAligned-All [] h = tt
  IsAligned-All (a ∷ rows) h = (
    (eq_refl {K = ℕ} (id a) ∙ sym (eq_refl {K = Text} (slug a)), agree_after a rows h.0),
    with_first rows h.0 (IsAligned-All rows h.1),
  )
    where
      with_first :
          (bs : List A)
          → All (λ b. ((id b == id a) ≡ false) × ((slug b == slug a) ≡ false)) bs
          → All (λ b. IsAligned b rows) bs
          → All (λ b. IsAligned b (a ∷ rows)) bs
      with_first [] k aligned = tt
      with_first (b ∷ bs) k aligned = (
        (
          eq_flip {K = ℕ} (id a) (id b) ∙ k.0.0 ∙ sym k.0.1 ∙ eq_flip {K = Text} (slug b) (slug a),
          aligned.0,
        ),
        with_first bs k.1 aligned.1,
      )

  -- The ids that a list of known slugs resolves to are those of the rows with such a slug.
  exists_row-contains :
      (a : A) (rows : List A) (slugs : List Text)
      → IsAligned a rows
      → IsKnown (entries rows) slugs
      → exists_row (λ i. i == id a) (ids_of (entries rows) (distinct slugs))
        ≡ contains (slug a) slugs
  unfolding contains
  exists_row-contains a rows slugs aligned known =
      exists_row-ids_of (entries rows) (distinct slugs) (id a)
      ∙ All-exists_row (λ s. matches (lookup (entries rows) s) (id a)) (λ s. s == slug a)
          (distinct slugs)
          (All-map (λ s. is_some (lookup (entries rows) s) ≡ true)
            (λ s. matches (lookup (entries rows) s) (id a) ≡ (s == slug a))
            (λ s k. matches-lookup a rows s aligned k) (distinct slugs)
            (All-distinct (λ s. is_some (lookup (entries rows) s) ≡ true) slugs known))
      ∙ exists_row-distinct (slug a) slugs
      ∙ All-exists_row (λ s. s == slug a) (λ s. slug a == s) slugs
          (All-map (λ s. is_some (lookup (entries rows) s) ≡ true)
            (λ s. (s == slug a) ≡ (slug a == s)) (λ s _. eq_flip {K = Text} s (slug a)) slugs known)

  contains-select :
      (q : A → Bool) (slugs : List Text) (z : Text) (rows : List A)
      → All (λ a. q a ≡ contains (slug a) slugs) rows
      → contains z (map slug (select q rows)) ≡ contains z slugs && contains z (map slug rows)
  unfolding contains exists_row select
  contains-select q slugs z [] h = ground arith
  contains-select q slugs z (a ∷ rows) h = elim (Bool-cases (z == slug a)) [
    | inl same ↦ ground (
      arith,
      h.0,
      same,
      ap (λ (k : Text). contains k slugs) (eq_of_true {K = Text} z (slug a) same),
      contains-select q slugs z rows h.1,
    )
    | inr differ ↦ ground (arith, differ, contains-select q slugs z rows h.1)
  ]

  -- A known slug is one of the rows'.
  known_contained :
      (z : Text) (enabled : A → Bool) (rows : List A)
      → is_some (lookup (entries (select enabled rows)) z) ≡ true
      → contains z (map slug rows) ≡ true
  unfolding contains exists_row select lookup
  known_contained z enabled [] h = absurd (ground (arith, h))
  known_contained z enabled (a ∷ rows) h =
      ground (arith, h, eq_flip {K = Text} z (slug a), known_contained z enabled rows)

  known_all :
      (slugs : List Text) (enabled : A → Bool) (rows : List A) (z : Text)
      → IsKnown (entries (select enabled rows)) slugs
      → contains z slugs ≡ contains z slugs && contains z (map slug rows)
  known_all slugs enabled rows z known = elim (Bool-cases (contains z slugs)) [
    | inr absent ↦ rw absent refl
    | inl there ↦
        rw
          (
            there,
            known_contained z enabled rows (
                All_contained (λ s. is_some (lookup (entries (select enabled rows)) s) ≡ true) z
                  slugs known there),
          )
          refl
  ]

  ordered : (x y : Text) → (y == x) ≡ false → (text_before x y ≡ true) ⊎ (text_before y x ≡ true)
  ordered x y h = elim (Bool-cases (text_before y x)) [
    | inl p ↦ inr p
    | inr p ↦ inl (text_before_other y x h p)
  ]

  Apart-slugs :
      (q : A → Bool) (rows : List A)
      → IsCatalogue rows
      → Apart text_before (map slug (select q rows))
  unfolding select
  Apart-slugs q [] h = tt
  Apart-slugs q (a ∷ rows) h = elim (Bool-cases (q a)) [
    | inl hit ↦ rw hit (apart_from rows h.0, Apart-slugs q rows h.1)
    | inr miss ↦ rw miss (Apart-slugs q rows h.1)
  ]
    where
      apart_from :
          (bs : List A)
          → All (λ b. ((id b == id a) ≡ false) × ((slug b == slug a) ≡ false)) bs
          → All
              (λ y. (text_before (slug a) y ≡ true) ⊎ (text_before y (slug a) ≡ true))
              (map slug (select q bs))
      apart_from [] k = tt
      apart_from (b ∷ bs) k = elim (Bool-cases (q b)) [
        | inl hit ↦ rw hit (ordered (slug a) (slug b) k.0.1, apart_from bs k.1)
        | inr miss ↦ rw miss (apart_from bs k.1)
      ]

  -- The slugs that a test selects, in order, are the set of the requested ones, if the test is for
  -- the ids that these resolve to.
  pub selection-sorted_set :
      (enabled q : A → Bool) (rows : List A) (slugs : List Text) (ids : List ℕ)
      → IsCatalogue rows
      → resolve (entries (select enabled rows)) slugs ≡ accepted ids
      → ((a : A) → q a ≡ exists_row (λ i. i == id a) ids)
      → sort_by text_before (map slug (select q rows)) ≡ sorted_set slugs
  unfolding contains exists_row
  selection-sorted_set enabled q rows slugs ids catalogue resolved picks =
      let (known, same_ids) = resolve-IsKnown (entries (select enabled rows)) slugs ids resolved in
      same_elements (sort_by text_before (map slug (select q rows))) (sorted_set slugs)
        (sort_by-Sorted text_before (map slug (select q rows)) text_before-Transitive
          (Apart-slugs q rows catalogue))
        (sorted_set-Sorted slugs)
        λ z.
          exists_row-sort_by (λ y. z == y) text_before (map slug (select q rows))
          ∙ contains-select q slugs z rows (
              All-map (λ a. IsAligned a rows) (λ a. q a ≡ contains (slug a) slugs)
                (λ a aligned.
                  picks a
                  ∙ ap (exists_row (λ i. i == id a)) same_ids
                  ∙ exists_row-contains a (select enabled rows) slugs
                      (All-select (λ b. (id b == id a) ≡ (slug b == slug a)) enabled rows aligned)
                      known)
                rows (IsAligned-All rows catalogue))
          ∙ sym (known_all slugs enabled rows z known)
          ∙ sym (contains-sorted_set z slugs)
