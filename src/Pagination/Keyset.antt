-- ===== src/Pagination/Keyset.antt =====
-- Following the cursors of app/services/pagination.py visits every row once, in order.
use sre_tab.Common.{
  ℕ, zero, suc, ◌-◌, ◌≤◌, ◌<◌, ◌≡◌, ◌≢◌, ◌⊎◌, refl, sym, ap, ◌∙◌, Bool, true, false, Option, none,
  some, List, [], ◌∷◌, ◌++◌, text_eq, nat_eq, arith, inl, inr, Bool-cases, ltb, ltb→lt, ltb→le,
  lt→ltb, length, take, drop, take_of_length-le, take-append-drop, All, All-map, append-nil,
  append_assoc, select, sort_by, Sorted, Apart, Transitive, sort_by-Sorted, select-sort_by, min,
}
use mathlib.Core.Path.{subst}
use sre_tab.Cursor.{Position}
use sre_tab.Pagination.{newest_first, after_cursor, last?, page_of, walk}

module _ {ℓ} {A : Type ℓ} (key : A → Position) where
  -- No two rows of the table have one key.
  abbrev pub DistinctKeys : List A → Type 0
  DistinctKeys [] = Unit
  DistinctKeys (x ∷ xs) = All (λ y. key x ≢ key y) xs × DistinctKeys xs

  newest_first-trans : Transitive (newest_first key)
  unfolding newest_first
  newest_first-trans x y z h k = ground (arith)

  newest_first-asymm : (x y : A) → newest_first key x y ≡ true → newest_first key y x ≡ false
  unfolding newest_first
  newest_first-asymm x y h = ground arith

  newest_first_irrefl : (x : A) → newest_first key x x ≡ false
  unfolding newest_first
  newest_first_irrefl x = ground arith

  newest_first-total :
      (x y : A) → key x ≢ key y → (newest_first key x y ≡ true) ⊎ (newest_first key y x ≡ true)
  unfolding newest_first
  newest_first-total x y h = ground arith

  DistinctKeys-Apart : (xs : List A) → DistinctKeys xs → Apart (newest_first key) xs
  DistinctKeys-Apart [] d = tt
  DistinctKeys-Apart (x ∷ xs) d = (
    All-map _ (λ y. (newest_first key x y ≡ true) ⊎ (newest_first key y x ≡ true))
        (λ y ne. newest_first-total x y ne) xs d.0,
    DistinctKeys-Apart xs d.1,
  )

  select-All : (p : A → Bool) (xs : List A) → All (λ y. p y ≡ true) xs → select p xs ≡ xs
  unfolding select
  select-All p [] h = refl
  select-All p (x ∷ xs) h = rw h.0 (ap (◌∷◌ x) (select-All p xs h.1))

  All-middle :
      (P : A → Type 0) (pre : List A) (x : A) (post : List A) → All P (pre ++ x ∷ post) → P x
  All-middle P [] x post h = h.0
  All-middle P (y ∷ pre) x post h = All-middle P pre x post h.1

  -- What comes after a row of a sorted list is what its cursor selects.
  select_suffix :
      (pre : List A) (x : A) (post : List A)
      → Sorted (newest_first key) (pre ++ x ∷ post)
      → select (newest_first key x) (pre ++ x ∷ post) ≡ post
  unfolding select
  select_suffix [] x post s = rw (newest_first_irrefl x) (select-All (newest_first key x) post s.0)
  select_suffix (y ∷ pre) x post s =
      rw (newest_first-asymm y x (All-middle _ pre x post s.0)) (select_suffix pre x post s.1)

  last?-append : (pre : List A) (x : A) → last? key (pre ++ x ∷ []) ≡ some x
  unfolding last?
  last?-append [] x = refl
  last?-append (y ∷ []) x = refl
  last?-append (y ∷ z ∷ pre) x = last?-append (z ∷ pre) x

  -- A list that is not empty has a last element.
  split_last : (xs : List A) → 0 < length xs → (pre : List A) × (x : A) × (xs ≡ pre ++ x ∷ [])
  split_last [] h = absurd (omega arith)
  split_last (x ∷ []) h = ([], x, refl)
  split_last (x ∷ y ∷ xs) h =
      let (pre, z, e) = split_last (y ∷ xs) (omega arith) in (x ∷ pre, z, ap (◌∷◌ x) e)

take-take-suc {ℓ} : {A : Type ℓ} (n : ℕ) (xs : List A) → take n (take (suc n) xs) ≡ take n xs
take-take-suc zero xs = refl
take-take-suc (suc n) [] = refl
take-take-suc (suc n) (x ∷ xs) = ap (◌∷◌ x) (take-take-suc n xs)

length-take {ℓ} : {A : Type ℓ} (n : ℕ) (xs : List A) → length (take n xs) ≡ min n (length xs)
length-take zero xs = omega arith
length-take (suc n) [] = omega arith
length-take (suc n) (x ∷ xs) = omega (arith, length-take n xs)

length-drop {ℓ} : {A : Type ℓ} (n : ℕ) (xs : List A) → length (drop n xs) ≡ length xs - n
length-drop zero xs = omega arith
length-drop (suc n) [] = omega arith
length-drop (suc n) (x ∷ xs) = omega (arith, length-drop n xs)

module _ {ℓ} {A : Type ℓ} (key : A → Position) (limit : ℕ) (table : List A) (positive : 0 < limit)
    (distinct : DistinctKeys key table) where
  abbrev sorted : List A
  sorted = sort_by (newest_first key) table

  sorted-Sorted : Sorted (newest_first key) sorted
  sorted-Sorted =
      sort_by-Sorted (newest_first key) table (newest_first-trans key)
        (DistinctKeys-Apart key table distinct)

  sort-after_cursor :
      (cursor : Option Position) (rest : List A)
      → select (after_cursor key cursor) sorted ≡ rest
      → sort_by (newest_first key) (select (after_cursor key cursor) table) ≡ rest
  sort-after_cursor cursor rest h =
      sym (
        select-sort_by (newest_first key) (after_cursor key cursor) table (newest_first-trans key)
          (newest_first-asymm key) (DistinctKeys-Apart key table distinct))
      ∙ h

  -- The last page.
  page_of_last :
      (cursor : Option Position) (rest : List A)
      → select (after_cursor key cursor) sorted ≡ rest
      → length rest ≤ limit
      → page_of key limit cursor table ≡ (rest, none)
  unfolding page_of
  page_of_last cursor rest h short = rw (
    sort-after_cursor cursor rest h,
    take_of_length-le (suc limit) rest (omega arith),
    take_of_length-le limit rest short,
    leb_false (length rest) short,
  )
    where
      leb_false : (n : ℕ) → n ≤ limit → ltb limit n ≡ false
      leb_false n h = ground arith

  -- A page that is not the last one, and the cursor that it hands out.
  page_of_next :
      (cursor : Option Position) (rest pre : List A) (x : A)
      → select (after_cursor key cursor) sorted ≡ rest
      → limit < length rest
      → take limit rest ≡ pre ++ x ∷ []
      → page_of key limit cursor table ≡ (take limit rest, some (key x))
  unfolding page_of
  page_of_next cursor rest pre x h long e = rw (
    sort-after_cursor cursor rest h,
    take-take-suc limit rest,
    lt→ltb limit (length (take (suc limit) rest)) (omega (arith, length-take (suc limit) rest)),
    e,
    last?-append key pre x,
  )

  -- The rows past a row are what the cursor for it selects.
  select_next :
      (pre : List A) (x : A) (post : List A)
      → sorted ≡ pre ++ x ∷ post
      → select (after_cursor key (some (key x))) sorted ≡ post
  unfolding after_cursor newest_first
  select_next pre x post e =
      ap (select (newest_first key x)) e
      ∙ select_suffix key pre x post (subst (Sorted (newest_first key)) e sorted-Sorted)

  walk_from :
      (fuel : ℕ) (cursor : Option Position) (seen rest : List A)
      → sorted ≡ seen ++ rest
      → select (after_cursor key cursor) sorted ≡ rest
      → length rest < fuel
      → walk key fuel limit cursor table ≡ rest
  unfolding walk
  walk_from zero cursor seen rest parts h enough = absurd (omega arith)
  walk_from (suc fuel) cursor seen rest parts h enough =
      elim (Bool-cases (ltb limit (length rest))) [
        | inl long ↦
            let (pre, x, e) =
              split_last key (take limit rest)
                (omega (arith, length-take limit rest, ltb→lt _ _ long)) in
            let split' : sorted ≡ (seen ++ pre) ++ x ∷ drop limit rest =
              parts
              ∙ ap (λ xs. seen ++ xs)
                  (sym (take-append-drop limit rest) ∙ ap (λ xs. xs ++ drop limit rest) e)
              ∙ simp append_assoc in
            let next : select (after_cursor key (some (key x))) sorted ≡ drop limit rest =
              select_next (seen ++ pre) x (drop limit rest) split' in
            rw (page_of_next cursor rest pre x h (ltb→lt _ _ long) e) (
              ap (λ xs. take limit rest ++ xs)
                (walk_from fuel (some (key x)) ((seen ++ pre) ++ x ∷ []) (drop limit rest)
                  (split' ∙ simp append_assoc) next
                  (omega (arith, length-drop limit rest, ltb→lt _ _ long)))
              ∙ take-append-drop limit rest)
        | inr short ↦ rw (page_of_last cursor rest h (ltb→le _ _ short)) (append-nil rest)
      ]

  none-selects-All : (xs : List A) → All (λ y. after_cursor key none y ≡ true) xs
  unfolding after_cursor
  none-selects-All [] = tt
  none-selects-All (x ∷ xs) = (refl, none-selects-All xs)

  -- With a page of at least one row, following the cursors from the first page on visits exactly
  -- the rows of the table, each once and newest first, and one request more than there are rows is
  -- always enough.
  pub walk_complete : walk key (suc (length sorted)) limit none table ≡ sorted
  walk_complete =
      walk_from (suc (length sorted)) none [] sorted refl
        (select-All key _ sorted (none-selects-All sorted)) (omega arith)
