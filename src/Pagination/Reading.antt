-- ===== src/Pagination/Reading.antt =====
-- A client that follows the cursors of a listing reads all of it.
use sre_tab.Common.{
  Bool, true, false, if◌then◌else◌, take, All, All-select, All-sort_by, select, subst, [], ◌∷◌, ◌≤◌,
  suc, ℕ, zero, suc, ◌<◌, ◌≡◌, refl, ap, ◌∙◌, Option, none, some, List, map, Text, text_eq, nat_eq,
  arith, inl, inr, Option-cases, length, append-nil, map-append, sort_by,
}
use sre_tab.Cursor.{Position, last_time, encode_cursor}
use sre_tab.Cursor.RoundTrip.{decode_cursor-encode_cursor}
use sre_tab.Pagination.{
  Page, after_cursor, last?, key_of, newest_first, page_of, walk, position_of, encode_next, page_at,
  keyset_page, read_all,
}
use sre_tab.Pagination.Keyset.{DistinctKeys, walk_complete}

All-take : {A : Type 0} (P : A → Type 0) (n : ℕ) (xs : List A) → All P xs → All P (take n xs)
All-take P zero xs h = tt
All-take P (suc n) [] h = tt
All-take P (suc n) (x ∷ xs) h = (h.0, All-take P n xs h.1)

-- The timestamps of the rows are those of a `datetime`.
abbrev pub Timed : {A : Type 0} → (A → Position) → List A → Type 0
Timed key = All (λ row. (key row).0 ≤ last_time)

module _ {A B : Type 0} (key : A → Position) (out : A → B) (limit : ℕ) (rows : List A) where
  abbrev fetch : Option Text → Option (Page B)
  fetch = keyset_page key out limit rows

  fetch_at :
      (cursor : Option Text) (position : Option Position)
      → position_of cursor ≡ some position
      → fetch cursor
        ≡ some (record {
          items = map out (page_of key limit position rows).0;
          next_cursor = encode_next (page_of key limit position rows).1;
        })
  unfolding keyset_page page_at
  fetch_at cursor position h = rw (h, keyset_page)

  key_of-last? :
      (page : List A) (p : Position)
      → Timed key page
      → key_of key (last? key page) ≡ some p
      → p.0 ≤ last_time
  unfolding key_of last?
  key_of-last? [] p t h = absurd (ground (arith, h))
  key_of-last? (x ∷ []) p t h =
      subst (λ (q : Position). q.0 ≤ last_time) (some_injective (key x) p h) t.0
    where
      some_injective : (q r : Position) → some q ≡ some r → q ≡ r
      some_injective q r e = cc
  key_of-last? (x ∷ x' ∷ xs) p t h = key_of-last? (x' ∷ xs) p t.1 h

  next-le :
      (more : Bool) (page : List A) (p : Position)
      → Timed key page
      → (if more then key_of key (last? key page) else none) ≡ some p
      → p.0 ≤ last_time
  next-le true page p t h = key_of-last? page p t h
  next-le false page p t h = absurd (ground (arith, h))

  -- The position of the next page is that of a row.
  page_of-le :
      (position : Option Position) (p : Position)
      → Timed key rows
      → (page_of key limit position rows).1 ≡ some p
      → p.0 ≤ last_time
  unfolding page_of
  page_of-le position p timed h = next-le _ _ p (All-take _ limit _ fetched) h
    where
      fetched :
          Timed key (
            take (suc limit) (sort_by (newest_first key) (select (after_cursor key position) rows)))
      fetched =
          All-take _ (suc limit) _ (
            All-sort_by (newest_first key) _ _
              (All-select _ (after_cursor key position) rows timed))

  position_of-encode :
      (p : Position) → p.0 ≤ last_time → position_of (encode_next (some p)) ≡ some (some p)
  unfolding position_of encode_next
  position_of-encode p h = rw (decode_cursor-encode_cursor p h, position_of) refl

  read_all-walk :
      (fuel : ℕ) (cursor : Option Text) (position : Option Position)
      → Timed key rows
      → position_of cursor ≡ some position
      → read_all fetch fuel cursor ≡ some (map out (walk key fuel limit position rows))
  unfolding read_all walk encode_next
  read_all-walk zero cursor position timed h = refl
  read_all-walk (suc fuel) cursor position timed h =
      elim (Option-cases (page_of key limit position rows).1) [
        | inl last ↦ ground (
          arith,
          fetch_at cursor position h,
          last,
          append-nil (page_of key limit position rows).0,
        )
        | inr (p, more) ↦ ground (
          arith,
          fetch_at cursor position h,
          more,
          read_all-walk fuel (some (encode_cursor p)) (some p) timed
              (position_of-encode p (page_of-le position p timed more)),
          map-append out (page_of key limit position rows).0 (walk key fuel limit (some p) rows),
        )
      ]

  -- With a page of at least one row, a client that starts with no cursor and follows the cursors
  -- gets every row once, newest first, and no request of it is refused.
  pub read_all_complete :
      0 < limit
      → DistinctKeys key rows
      → Timed key rows
      → read_all fetch (suc (length (sort_by (newest_first key) rows))) none
        ≡ some (map out (sort_by (newest_first key) rows))
  read_all_complete positive distinct timed =
      read_all-walk _ none none timed (unfold position_of in refl)
      ∙ ap (λ xs. some (map out xs)) (walk_complete key limit rows positive distinct)
