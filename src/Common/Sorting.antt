-- ===== src/Common/Sorting.antt =====
-- ORDER BY: insertion sort by a Boolean "comes first", its order, and its commuting with WHERE.
use mathlib.Core.Path.{◌≡◌, refl, sym, ap, ◌∙◌}
use mathlib.Core.Bool.{Bool, true, false}
use mathlib.Core.Logic.{◌⊎◌, inl, inr}
use mathlib.Core.List.{List, [], ◌∷◌}
use native.Mathlib.Omega.{arith}
use sre_tab.Common.Tests.{if◌then◌else◌, Bool-cases}
use sre_tab.Common.Lists.{All, All-map}
use sre_tab.Common.Rows.{select, count_rows}

pub All-select {ℓ} :
    {A : Type ℓ} (P : A → Type 0) (q : A → Bool) (xs : List A) → All P xs → All P (select q xs)
unfolding select
All-select P q [] h = tt
All-select P q (x ∷ xs) h = elim (Bool-cases (q x)) [
  | inl hit ↦ rw hit (h.0, All-select P q xs h.1)
  | inr miss ↦ rw miss (All-select P q xs h.1)
]

module _ {ℓ} {A : Type ℓ} (before : A → A → Bool) where
  unfoldable pub insert_by : A → List A → List A
  insert_by x [] = x ∷ []
  insert_by x (y ∷ ys) = let rest = insert_by x ys in if before y x then y ∷ rest else x ∷ y ∷ ys

  -- Stable: rows that neither comes before the other keep their order.
  unfoldable pub sort_by : List A → List A
  unfolding insert_by
  sort_by [] = []
  sort_by (x ∷ xs) = insert_by x (sort_by xs)

  -- Each row comes before all that follow.
  abbrev pub Sorted : List A → Type 0
  Sorted [] = Unit
  Sorted (x ∷ xs) = All (λ y. before x y ≡ true) xs × Sorted xs

  -- One of any two rows of the list comes first.
  abbrev pub Apart : List A → Type 0
  Apart [] = Unit
  Apart (x ∷ xs) = All (λ y. (before x y ≡ true) ⊎ (before y x ≡ true)) xs × Apart xs

  abbrev pub Transitive : Type ℓ
  Transitive = (x y z : A) → before x y ≡ true → before y z ≡ true → before x z ≡ true

  All-insert_by : (P : A → Type 0) (x : A) (ys : List A) → P x → All P ys → All P (insert_by x ys)
  unfolding insert_by
  All-insert_by P x [] px ps = (px, tt)
  All-insert_by P x (y ∷ ys) px ps = elim (Bool-cases (before y x)) [
    | inl later ↦ rw later (ps.0, All-insert_by P x ys px ps.1)
    | inr here ↦ rw here (px, ps)
  ]

  pub All-sort_by : (P : A → Type 0) (xs : List A) → All P xs → All P (sort_by xs)
  unfolding sort_by
  All-sort_by P [] ps = tt
  All-sort_by P (x ∷ xs) ps = All-insert_by P x (sort_by xs) ps.0 (All-sort_by P xs ps.1)

  insert_by-Sorted :
      (x : A) (ys : List A)
      → Transitive
      → All (λ y. (before x y ≡ true) ⊎ (before y x ≡ true)) ys
      → Sorted ys
      → Sorted (insert_by x ys)
  unfolding insert_by
  insert_by-Sorted x [] tr apart s = (tt, tt)
  insert_by-Sorted x (y ∷ ys) tr apart s = elim (Bool-cases (before y x)) [
    | inl later ↦ rw later (
      All-insert_by (λ z. before y z ≡ true) x ys later s.0,
      insert_by-Sorted x ys tr apart.1 s.1,
    )
    | inr here ↦
        let xy : before x y ≡ true = ground (arith, apart.0) in
        rw here ((xy, All-map _ (λ z. before x z ≡ true) (λ z yz. tr x y z xy yz) ys s.0), s)
  ]

  pub sort_by-Sorted : (xs : List A) → Transitive → Apart xs → Sorted (sort_by xs)
  unfolding sort_by
  sort_by-Sorted [] tr ap = tt
  sort_by-Sorted (x ∷ xs) tr ap =
      insert_by-Sorted x (sort_by xs) tr (All-sort_by _ xs ap.0) (sort_by-Sorted xs tr ap.1)

  pub select-Apart : (q : A → Bool) (xs : List A) → Apart xs → Apart (select q xs)
  unfolding select
  select-Apart q [] ap = tt
  select-Apart q (x ∷ xs) ap = elim (Bool-cases (q x)) [
    | inl hit ↦ rw hit (All-select _ q xs ap.0, select-Apart q xs ap.1)
    | inr miss ↦ rw miss (select-Apart q xs ap.1)
  ]

  insert_by_first :
      (x : A) (ys : List A) → All (λ y. before y x ≡ false) ys → insert_by x ys ≡ x ∷ ys
  unfolding insert_by
  insert_by_first x [] h = refl
  insert_by_first x (y ∷ ys) h = rw h.0

  select-insert_by_hit :
      (q : A → Bool) (x : A) (ys : List A)
      → Transitive
      → ((a b : A) → before a b ≡ true → before b a ≡ false)
      → All (λ y. (before x y ≡ true) ⊎ (before y x ≡ true)) ys
      → Sorted ys
      → q x ≡ true
      → select q (insert_by x ys) ≡ insert_by x (select q ys)
  unfolding select insert_by
  select-insert_by_hit q x [] tr asym apart s h = rw h
  select-insert_by_hit q x (y ∷ ys) tr asym apart s h = elim (Bool-cases (before y x)) [
    | inl later ↦ ground (arith, select-insert_by_hit q x ys tr asym apart.1 s.1 h)
    | inr here ↦
        let xy : before x y ≡ true = ground (arith, apart.0) in
        let first : All (λ z. before z x ≡ false) (y ∷ ys) =
          (here, All-map _ (λ z. before z x ≡ false) (λ z yz. asym x z (tr x y z xy yz)) ys s.0) in
        rw (here, h) (sym (insert_by_first x (select q (y ∷ ys)) (All-select _ q (y ∷ ys) first)))
  ]

  select-insert_by_miss :
      (q : A → Bool) (x : A) (ys : List A) → q x ≡ false → select q (insert_by x ys) ≡ select q ys
  unfolding select insert_by
  select-insert_by_miss q x [] h = rw h
  select-insert_by_miss q x (y ∷ ys) h = ground (arith, select-insert_by_miss q x ys h)

  -- WHERE and ORDER BY may be exchanged.
  pub select-sort_by :
      (q : A → Bool) (xs : List A)
      → Transitive
      → ((a b : A) → before a b ≡ true → before b a ≡ false)
      → Apart xs
      → select q (sort_by xs) ≡ sort_by (select q xs)
  unfolding select sort_by
  select-sort_by q [] tr asym apart = refl
  select-sort_by q (x ∷ xs) tr asym apart = elim (Bool-cases (q x)) [
    | inl hit ↦ rw hit (
        select-insert_by_hit q x (sort_by xs) tr asym (All-sort_by _ xs apart.0)
          (sort_by-Sorted xs tr apart.1) hit
        ∙ ap (insert_by x) (select-sort_by q xs tr asym apart.1))
    | inr miss ↦
        rw miss (select-insert_by_miss q x (sort_by xs) miss ∙ select-sort_by q xs tr asym apart.1)
  ]

  count_rows-insert_by :
      (q : A → Bool) (x : A) (ys : List A) → count_rows q (insert_by x ys) ≡ count_rows q (x ∷ ys)
  unfolding count_rows insert_by
  count_rows-insert_by q x [] = refl
  count_rows-insert_by q x (y ∷ ys) = ground (arith, count_rows-insert_by q x ys)

  -- Sorting keeps every row, as often.
  pub count_rows-sort_by :
      (q : A → Bool) (xs : List A) → count_rows q (sort_by xs) ≡ count_rows q xs
  unfolding count_rows sort_by
  count_rows-sort_by q [] = refl
  count_rows-sort_by q (x ∷ xs) =
      ground (arith, count_rows-insert_by q x (sort_by xs), count_rows-sort_by q xs)
