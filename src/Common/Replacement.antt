-- ===== src/Common/Replacement.antt =====
-- DELETE of the rows that a test picks, followed by an INSERT of a batch of such rows.
use mathlib.Core.Path.{◌≡◌, refl, ap, ◌∙◌}
use mathlib.Core.Logic.{inl, inr}
use mathlib.Core.Bool.{Bool, true, false, ◌||◌}
use mathlib.Core.List.{List, [], ◌∷◌, ◌++◌, map, append-nil}
use native.Mathlib.Omega.{arith}
use sre_tab.Common.Tests.{Bool-cases}
use sre_tab.Common.Lists.{All}
use sre_tab.Common.Rows.{select, exists_row, insert_ignore, delete_rows}
use sre_tab.Common.Batches.{insert_rows, Keyed, insert_rows_fresh}

module _ {ℓ} {A : Type ℓ} where
  pub exists_row-append :
      (p : A → Bool) (xs ys : List A) → exists_row p (xs ++ ys) ≡ exists_row p xs || exists_row p ys
  unfolding exists_row
  exists_row-append p [] ys = refl
  exists_row-append p (x ∷ xs) ys = ground (arith, exists_row-append p xs ys)

  pub exists_row-map {μ} :
      {X : Type μ} (p : A → Bool) (f : X → A) (q : X → Bool) (xs : List X)
      → ((x : X) → p (f x) ≡ q x)
      → exists_row p (map f xs) ≡ exists_row q xs
  unfolding exists_row
  exists_row-map p f q [] h = refl
  exists_row-map p f q (x ∷ xs) h = rw (h x, exists_row-map p f q xs h) refl

  pub select-append :
      (p : A → Bool) (xs ys : List A) → select p (xs ++ ys) ≡ select p xs ++ select p ys
  unfolding select
  select-append p [] ys = refl
  select-append p (x ∷ xs) ys = ground (arith, select-append p xs ys)

  pub select_none : (p : A → Bool) (xs : List A) → All (λ x. p x ≡ false) xs → select p xs ≡ []
  unfolding select
  select_none p [] h = refl
  select_none p (x ∷ xs) h = rw (h.0) (select_none p xs h.1)

  pub select-All : (p : A → Bool) (xs : List A) → All (λ x. p x ≡ true) xs → select p xs ≡ xs
  unfolding select
  select-All p [] h = refl
  select-All p (x ∷ xs) h = rw (h.0) (ap (λ rest. x ∷ rest) (select-All p xs h.1))

  pub select-delete_rows-none : (p : A → Bool) (xs : List A) → select p (delete_rows p xs) ≡ []
  unfolding select delete_rows
  select-delete_rows-none p [] = refl
  select-delete_rows-none p (x ∷ xs) = ground (arith, select-delete_rows-none p xs)

  pub select-delete_rows_other :
      (p q : A → Bool) (xs : List A)
      → ((x : A) → p x ≡ true → q x ≡ false)
      → select p (delete_rows q xs) ≡ select p xs
  unfolding select delete_rows
  select-delete_rows_other p q [] k = refl
  select-delete_rows_other p q (x ∷ xs) k = ground (arith, k x, select-delete_rows_other p q xs k)

  pub exists_row-delete_rows-none :
      (p q : A → Bool) (xs : List A)
      → ((x : A) → p x ≡ true → q x ≡ true)
      → exists_row p (delete_rows q xs) ≡ false
  unfolding exists_row delete_rows
  exists_row-delete_rows-none p q [] k = refl
  exists_row-delete_rows-none p q (x ∷ xs) k =
      ground (arith, k x, exists_row-delete_rows-none p q xs k)

  pub exists_row-delete_rows_other :
      (p q : A → Bool) (xs : List A)
      → ((x : A) → p x ≡ true → q x ≡ false)
      → exists_row p (delete_rows q xs) ≡ exists_row p xs
  unfolding exists_row delete_rows
  exists_row-delete_rows_other p q [] k = refl
  exists_row-delete_rows_other p q (x ∷ xs) k =
      ground (arith, k x, exists_row-delete_rows_other p q xs k)

  -- Whether a row is there after the insertion of a batch, for a test that rows of one key share.
  pub exists_row-insert_rows :
      (p : A → Bool) (same : A → A → Bool) (rows table : List A)
      → ((x y : A) → same x y ≡ true → p x ≡ true → p y ≡ true)
      → exists_row p (insert_rows same rows table) ≡ exists_row p table || exists_row p rows
  unfolding exists_row insert_rows
  exists_row-insert_rows p same [] table k = ground arith
  exists_row-insert_rows p same (row ∷ rows) table k =
      ground (
        arith,
        exists_row-insert_rows p same rows (insert_ignore (same row) row table) k,
        one table,
      )
    where
      found :
          (ys : List A) → p row ≡ true → exists_row (same row) ys ≡ true → exists_row p ys ≡ true
      found [] g e = ground arith
      found (y ∷ ys) g e = ground (arith, k row y, found ys g)

      one :
          (ys : List A) → exists_row p (insert_ignore (same row) row ys) ≡ exists_row p ys || p row
      one ys =
          unfold insert_ignore in
          elim (Bool-cases (exists_row (same row) ys)) [
            | inl there ↦ rw there (ground (arith, found ys, there))
            | inr fresh ↦ rw fresh (exists_row-append p ys (row ∷ []) ∙ ground arith)
          ]

  module _ {μ} {X : Type μ} (p : A → Bool) (same : A → A → Bool) (row : X → A) where
    -- The rows of a batch of different keys, after those that were there are deleted.
    pub select-insert_rows-delete_rows :
        (xs : List X) (table : List A)
        → Keyed same (map row xs)
        → ((x : X) → p (row x) ≡ true)
        → ((x : X) (y : A) → same (row x) y ≡ true → p y ≡ true)
        → select p (insert_rows same (map row xs) (delete_rows p table)) ≡ map row xs
    select-insert_rows-delete_rows xs table keyed own respects =
        ap (select p) (insert_rows_fresh same (map row xs) (delete_rows p table) keyed (fresh xs))
        ∙ select-append p (delete_rows p table) (map row xs)
        ∙ ap (λ rest. rest ++ select p (map row xs)) (select-delete_rows-none p table)
        ∙ select-All p (map row xs) (all_own xs)
      where
        fresh :
            (ys : List X)
            → All (λ r. exists_row (same r) (delete_rows p table) ≡ false) (map row ys)
        fresh [] = tt
        fresh (y ∷ ys) = (exists_row-delete_rows-none (same (row y)) p table (respects y), fresh ys)

        all_own : (ys : List X) → All (λ r. p r ≡ true) (map row ys)
        all_own [] = tt
        all_own (y ∷ ys) = (own y, all_own ys)

  -- The rows that another test picks are as they were.
  pub select-insert_rows :
      (q : A → Bool) (same : A → A → Bool) (rows table : List A)
      → All (λ r. q r ≡ false) rows
      → select q (insert_rows same rows table) ≡ select q table
  unfolding insert_rows
  select-insert_rows q same [] table h = refl
  select-insert_rows q same (r ∷ rows) table h =
      select-insert_rows q same rows (insert_ignore (same r) r table) h.1 ∙ one
    where
      one : select q (insert_ignore (same r) r table) ≡ select q table
      one =
          unfold insert_ignore in
          elim (Bool-cases (exists_row (same r) table)) [
            | inl there ↦ rw there refl
            | inr fresh ↦ rw fresh (
                select-append q table (r ∷ [])
                ∙ ap (λ rest. select q table ++ rest) (select_none q (r ∷ []) (h.0, tt))
                ∙ append-nil (select q table))
          ]
