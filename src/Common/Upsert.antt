-- ===== src/Common/Upsert.antt =====
-- INSERT … ON CONFLICT DO UPDATE for one row of a table with a unique key, and the assignment to a
-- key of a dictionary, which is the same on a list of entries.
use Prim.Native.Nat.{◌≤◌}
use mathlib.Core.Path.{◌≡◌}
use mathlib.Core.Bool.{Bool, true, false}
use mathlib.Core.Option.{Option, none, some}
use mathlib.Core.List.{List, [], ◌∷◌, ◌++◌}
use native.Mathlib.Omega.{arith}
use sre_tab.Common.Tests.{if◌then◌else◌, Bool-cases}
use sre_tab.Common.Lists.{All}
use mathlib.Core.Logic.{inl, inr}
use sre_tab.Common.Rows.{scalar, count_rows, exists_row, insert_ignore, delete_rows}

module _ {ℓ} {A : Type ℓ} where
  -- The row that is there, changed, or else the new one.
  unfoldable pub merged : A → (A → A) → Option A → A
  merged row change none = row
  merged row change (some old) = change old

  unfoldable pub upsert : (A → Bool) → A → (A → A) → List A → List A
  upsert p row change [] = row ∷ []
  upsert p row change (x ∷ xs) =
      let rest = upsert p row change xs in if p x then change x ∷ xs else x ∷ rest

  pub scalar-upsert :
      (p : A → Bool) (row : A) (change : A → A) (rows : List A)
      → p row ≡ true
      → ((x : A) → p x ≡ true → p (change x) ≡ true)
      → scalar p (upsert p row change rows) ≡ some (merged row change (scalar p rows))
  unfolding scalar upsert merged
  scalar-upsert p row change [] h k = ground arith
  scalar-upsert p row change (x ∷ xs) h k = ground (arith, k x, scalar-upsert p row change xs h k)

  pub scalar-upsert_other :
      (q p : A → Bool) (row : A) (change : A → A) (rows : List A)
      → q row ≡ false
      → ((x : A) → p x ≡ true → q x ≡ false)
      → ((x : A) → p x ≡ true → q (change x) ≡ false)
      → scalar q (upsert p row change rows) ≡ scalar q rows
  unfolding scalar upsert
  scalar-upsert_other q p row change [] h k l = ground arith
  scalar-upsert_other q p row change (x ∷ xs) h k l =
      ground (arith, k x, l x, scalar-upsert_other q p row change xs h k l)

  -- The key stays unique: one row of it there is, and of another key as many as there were.
  pub count_rows-upsert :
      (p : A → Bool) (row : A) (change : A → A) (rows : List A)
      → p row ≡ true
      → ((x : A) → p x ≡ true → p (change x) ≡ true)
      → count_rows p rows ≤ 1
      → count_rows p (upsert p row change rows) ≡ 1
  unfolding count_rows upsert
  count_rows-upsert p row change [] h k l = ground arith
  count_rows-upsert p row change (x ∷ xs) h k l = elim (Bool-cases (p x)) [
    | inl hit ↦ ground (arith, k x, l)
    | inr miss ↦ ground (arith, l, count_rows-upsert p row change xs h k)
  ]

  pub count_rows-upsert_other :
      (q p : A → Bool) (row : A) (change : A → A) (rows : List A)
      → q row ≡ false
      → ((x : A) → p x ≡ true → q x ≡ false)
      → ((x : A) → p x ≡ true → q (change x) ≡ false)
      → count_rows q (upsert p row change rows) ≡ count_rows q rows
  unfolding count_rows upsert
  count_rows-upsert_other q p row change [] h k l = ground arith
  count_rows-upsert_other q p row change (x ∷ xs) h k l =
      ground (arith, k x, l x, count_rows-upsert_other q p row change xs h k l)

  scalar-append_known :
      (p : A → Bool) (row : A) (rows : List A) {known : A}
      → scalar p rows ≡ some known
      → scalar p (rows ++ row ∷ []) ≡ some known
  unfolding scalar
  scalar-append_known p row [] h = absurd (ground arith)
  scalar-append_known p row (x ∷ xs) {known} h =
      ground (arith, scalar-append_known p row xs {known = known})

  -- A row that a query finds is found after an insertion as well, whatever is inserted.
  pub scalar-insert_ignore_known :
      (p q : A → Bool) (row : A) (rows : List A) {known : A}
      → scalar p rows ≡ some known
      → scalar p (insert_ignore q row rows) ≡ some known
  unfolding insert_ignore
  scalar-insert_ignore_known p q row rows {known} h = elim (Bool-cases (exists_row q rows)) [
    | inl conflict ↦ rw conflict h
    | inr fresh ↦ rw fresh (scalar-append_known p row rows h)
  ]

  -- What a deletion leaves.
  pub All-delete_rows : (q : A → Bool) (rows : List A) → All (λ x. q x ≡ false) (delete_rows q rows)
  unfolding delete_rows
  All-delete_rows q [] = tt
  All-delete_rows q (x ∷ xs) = elim (Bool-cases (q x)) [
    | inl gone ↦ rw gone (All-delete_rows q xs)
    | inr kept ↦ rw kept (kept, All-delete_rows q xs)
  ]
