-- ===== src/Common/Rows.antt =====
-- A table as the list of its rows: the SELECT, UPDATE and DELETE statements that the services
-- issue, with the number of rows that the last two report.
use Prim.Native.Nat.{ℕ, suc, ◌+◌}
use mathlib.Core.Path.{◌≡◌, refl, subst}
use mathlib.Core.Bool.{Bool, true, false}
use mathlib.Core.Option.{Option, none, some}
use mathlib.Core.List.{List, [], ◌∷◌, ◌++◌}
use native.Mathlib.Omega.{arith}
use mathlib.Core.Logic.{inl, inr}
use sre_tab.Common.Tests.{if◌then◌else◌, Bool-cases, Option-cases}
use sre_tab.Common.Lists.{length}

module _ {ℓ} {A : Type ℓ} where
  -- SELECT … WHERE p
  unfoldable pub select : (A → Bool) → List A → List A
  select p [] = []
  select p (x ∷ xs) = let rest = select p xs in if p x then x ∷ rest else rest

  -- The first row, or nothing.
  unfoldable pub scalar : (A → Bool) → List A → Option A
  scalar p [] = none
  scalar p (x ∷ xs) = let rest = scalar p xs in if p x then some x else rest

  -- EXISTS
  unfoldable pub exists_row : (A → Bool) → List A → Bool
  exists_row p [] = false
  exists_row p (x ∷ xs) = let rest = exists_row p xs in if p x then true else rest

  -- DELETE … WHERE p
  unfoldable pub delete_rows : (A → Bool) → List A → List A
  delete_rows p [] = []
  delete_rows p (x ∷ xs) = let rest = delete_rows p xs in if p x then rest else x ∷ rest

  -- UPDATE … SET f WHERE p
  unfoldable pub update_rows : (A → Bool) → (A → A) → List A → List A
  update_rows p f [] = []
  update_rows p f (x ∷ xs) = (if p x then f x else x) ∷ update_rows p f xs

  -- The row count that UPDATE and DELETE report.
  unfoldable pub count_rows : (A → Bool) → List A → ℕ
  count_rows p [] = 0
  count_rows p (x ∷ xs) = let rest = count_rows p xs in if p x then suc rest else rest

  pub count_rows-delete_rows :
      (p : A → Bool) (xs : List A) → length (delete_rows p xs) + count_rows p xs ≡ length xs
  unfolding delete_rows count_rows
  count_rows-delete_rows p [] = omega arith
  count_rows-delete_rows p (x ∷ xs) = ground (arith, count_rows-delete_rows p xs)

  pub scalar_sound : (p : A → Bool) (xs : List A) {x : A} → scalar p xs ≡ some x → p x ≡ true
  unfolding scalar
  scalar_sound p [] h = ground arith
  scalar_sound p (y ∷ ys) h = elim (Bool-cases (p y)) [
    | inl hit ↦ ground arith
    | inr miss ↦ scalar_sound p ys (ground arith)
  ]

  pub exists_row-scalar :
      (p : A → Bool) (xs : List A) → scalar p xs ≡ none → exists_row p xs ≡ false
  unfolding scalar exists_row
  exists_row-scalar p [] h = refl
  exists_row-scalar p (y ∷ ys) h = ground (arith, exists_row-scalar p ys)

  -- Deleting rows that a query does not look for leaves its answer.
  pub scalar-delete_rows :
      (p q : A → Bool) (rows : List A)
      → ((row : A) → p row ≡ true → q row ≡ false)
      → scalar p (delete_rows q rows) ≡ scalar p rows
  unfolding scalar delete_rows
  scalar-delete_rows p q [] h = refl
  scalar-delete_rows p q (row ∷ rows) h = ground (arith, h row, scalar-delete_rows p q rows h)

  -- An update that takes every row that a query could find out of its sight.
  pub scalar-update_rows-none :
      (p q : A → Bool) (f : A → A) (rows : List A)
      → ((row : A) → q row ≡ false → p row ≡ false)
      → ((row : A) → q row ≡ true → p (f row) ≡ false)
      → scalar p (update_rows q f rows) ≡ none
  unfolding scalar update_rows
  scalar-update_rows-none p q f [] h k = refl
  scalar-update_rows-none p q f (row ∷ rows) h k =
      ground (arith, h row, k row, scalar-update_rows-none p q f rows h k)

  pub scalar-append_none :
      (p : A → Bool) (rows : List A) (row : A)
      → scalar p rows ≡ none
      → scalar p (rows ++ row ∷ []) ≡ (if p row then some row else none)
  unfolding scalar
  scalar-append_none p [] row h = refl
  scalar-append_none p (x ∷ rows) row h = ground (arith, scalar-append_none p rows row)

  -- An update that matches no row changes nothing.
  pub update_rows_none :
      (p : A → Bool) (f : A → A) (rows : List A)
      → count_rows p rows ≡ 0
      → update_rows p f rows ≡ rows
  unfolding update_rows count_rows
  update_rows_none p f [] h = refl
  update_rows_none p f (row ∷ rows) h = ground (arith, update_rows_none p f rows)

  -- What a query finds after an update that takes the updated rows out of its sight.
  pub scalar-update_rows_some :
      (P : A → Type 0) (p q : A → Bool) (f : A → A) (rows : List A)
      → ((row : A) → q row ≡ false → p row ≡ true → P row)
      → ((row : A) → q row ≡ true → p (f row) ≡ false)
      → {found : A} → scalar p (update_rows q f rows) ≡ some found
      → P found
  unfolding scalar update_rows
  scalar-update_rows_some P p q f [] h k e = absurd (ground arith)
  scalar-update_rows_some P p q f (row ∷ rows) h k {found} e = elim (Bool-cases (q row)) [
    | inl changed ↦ scalar-update_rows_some P p q f rows h k (ground (arith, k row changed, e))
    | inr same ↦ elim (Bool-cases (p row)) [
      | inl hit ↦ subst P (ground arith) (h row same hit)
      | inr miss ↦ scalar-update_rows_some P p q f rows h k (ground arith)
    ]
  ]

  -- INSERT … ON CONFLICT DO NOTHING, for one row and the rows that it conflicts with.
  unfoldable pub insert_ignore : (A → Bool) → A → List A → List A
  insert_ignore conflict row rows = if exists_row conflict rows then rows else rows ++ row ∷ []

  exists_row-none :
      (p : A → Bool) (rows : List A) → exists_row p rows ≡ false → scalar p rows ≡ none
  unfolding scalar exists_row
  exists_row-none p [] h = refl
  exists_row-none p (y ∷ ys) h = ground (arith, exists_row-none p ys)

  exists_row-some :
      (p : A → Bool) (rows : List A) {x : A} → scalar p rows ≡ some x → exists_row p rows ≡ true
  unfolding scalar exists_row
  exists_row-some p [] h = absurd (ground arith)
  exists_row-some p (y ∷ ys) {x} h = ground (arith, exists_row-some p ys {x = x})

  -- What the conflicting row's query finds after the insertion: the old row if there was one.
  pub scalar-insert_ignore_same :
      (p : A → Bool) (row : A) (rows : List A)
      → p row ≡ true
      → scalar p (insert_ignore p row rows)
        ≡ elim (scalar p rows) [ none ↦ some row | some old ↦ some old ]
  unfolding insert_ignore
  scalar-insert_ignore_same p row rows h = elim (Option-cases (scalar p rows)) [
    | inl fresh ↦
        rw (fresh, exists_row-scalar p rows fresh, scalar-append_none p rows row fresh, h) refl
    | inr (old, known) ↦ rw (exists_row-some p rows known, known) refl
  ]

  scalar-append_other :
      (p : A → Bool) (rows : List A) (row : A)
      → p row ≡ false
      → scalar p (rows ++ row ∷ []) ≡ scalar p rows
  unfolding scalar
  scalar-append_other p [] row h = ground arith
  scalar-append_other p (x ∷ rows) row h = ground (arith, scalar-append_other p rows row)

  -- A query that does not look for the inserted row is not affected.
  pub scalar-insert_ignore_other :
      (p q : A → Bool) (row : A) (rows : List A)
      → p row ≡ false
      → scalar p (insert_ignore q row rows) ≡ scalar p rows
  unfolding insert_ignore
  scalar-insert_ignore_other p q row rows h = elim (Bool-cases (exists_row q rows)) [
    | inl known ↦ rw known refl
    | inr fresh ↦ rw (fresh, scalar-append_other p rows row h) refl
  ]

  -- A second insertion of the same key changes nothing.
  pub insert_ignore_twice :
      (p : A → Bool) (row again : A) (rows : List A)
      → p row ≡ true
      → insert_ignore p again (insert_ignore p row rows) ≡ insert_ignore p row rows
  unfolding insert_ignore
  insert_ignore_twice p row again rows h =
      elim (Option-cases (scalar p (insert_ignore p row rows))) [
        | inl gone ↦ absurd (ground (arith, gone, scalar-insert_ignore_same p row rows h))
        | inr (old, known) ↦ rw (exists_row-some p (insert_ignore p row rows) known) refl
      ]

  pub scalar-delete_rows-none :
      (p : A → Bool) (rows : List A) → scalar p (delete_rows p rows) ≡ none
  unfolding scalar delete_rows
  scalar-delete_rows-none p [] = refl
  scalar-delete_rows-none p (x ∷ rows) = ground (arith, scalar-delete_rows-none p rows)

  pub delete_rows_twice :
      (p : A → Bool) (rows : List A) → delete_rows p (delete_rows p rows) ≡ delete_rows p rows
  unfolding delete_rows
  delete_rows_twice p [] = refl
  delete_rows_twice p (x ∷ rows) = ground (arith, delete_rows_twice p rows)

  -- An update of the rows that a query looks for, which leaves them in its sight.
  pub scalar-update_rows :
      (p : A → Bool) (f : A → A) (rows : List A) {row : A}
      → ((x : A) → p x ≡ true → p (f x) ≡ true)
      → scalar p rows ≡ some row
      → scalar p (update_rows p f rows) ≡ some (f row)
  unfolding scalar update_rows
  scalar-update_rows p f [] k h = absurd (ground arith)
  scalar-update_rows p f (x ∷ rows) {row} k h =
      ground (arith, k x, scalar-update_rows p f rows {row = row} k)
