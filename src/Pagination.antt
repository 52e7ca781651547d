-- ===== src/Pagination.antt =====
-- The paging that app/services/feed.py and app/services/bookmarks.py share, by keyset positions and
-- their cursors.
pub mod Keyset
pub mod Reading
use sre_tab.Common.{
  ℕ, zero, suc, ◌+◌, ◌-◌, ◌*◌, ◌/◌, ◌≤◌, ◌<◌, ◌≡◌, ◌≢◌, ◌↔◌, ◌⊎◌, refl, sym, ap, ◌∙◌, Bool, true,
  false, not, ◌&&◌, ◌||◌, Option, none, some, List, [], ◌∷◌, ◌++◌, map, if◌then◌else◌, Text, ◌==◌,
  text_eq, nat_eq, arith, inl, inr, Bool-cases, Option-cases, is_some, eq_of_true, eq_refl,
  text_beq_iff, text_beq, eqb_iff, false_of_ne, ne_of_false, is_nil, codes, ltb, leb, eqb, ltb→lt,
  ltb→le, lt→ltb, leb→le, le→leb, leb→lt, length, take, drop, All, All-append, All-map,
  length-append, select, scalar, exists_row, delete_rows, update_rows, count_rows,
  count_rows-delete_rows, scalar_sound, exists_row-scalar, scalar-delete_rows,
  scalar-update_rows-none, scalar-update_rows_some, scalar-append_none, update_rows_none, sort_by,
  insert_by, Sorted, Apart, Transitive, sort_by-Sorted, select-sort_by, select-Apart,
  count_rows-sort_by, starts_with, strip, lower, partition, split, lacks, min,
}
use sre_tab.Cursor.{Position, encode_cursor, decode_cursor}

-- `tuple_(timestamp, id) < position`
unfoldable pub below : Position → Position → Bool
below p q = ltb q.0 p.0 || (eqb q.0 p.0 && ltb q.1 p.1)

module _ {ℓ} {A : Type ℓ} (key : A → Position) where
  -- ORDER BY timestamp DESC, id DESC
  unfoldable pub newest_first : A → A → Bool
  unfolding below
  newest_first a b = below (key a) (key b)

  -- The `WHERE` that a cursor adds.
  unfoldable pub after_cursor : Option Position → A → Bool
  unfolding below
  after_cursor none row = true
  after_cursor (some position) row = below position (key row)

  -- `page[-1]`
  unfoldable pub last? : List A → Option A
  last? [] = none
  last? (x ∷ []) = some x
  last? (x ∷ x' ∷ xs) = last? (x' ∷ xs)

  unfoldable pub key_of : Option A → Option Position
  key_of none = none
  key_of (some x) = some (key x)

  -- One page: `limit + 1` rows are fetched, and the row past the page is the probe that tells
  -- whether there is a next one.
  unfoldable pub page_of : ℕ → Option Position → List A → List A × Option Position
  unfolding key_of last? newest_first after_cursor
  page_of limit cursor table =
      let rows = take (suc limit) (sort_by newest_first (select (after_cursor cursor) table)) in
      let page = take limit rows in
      (page, if ltb limit (length rows) then key_of (last? page) else none)

  -- Every page from a cursor on, one after the other; `fuel` bounds the number of requests.
  unfoldable pub walk : ℕ → ℕ → Option Position → List A → List A
  walk zero limit cursor table = []
  walk (suc fuel) limit cursor table =
      let (page, next) = page_of limit cursor table in
      page ++ elim next [ none ↦ [] | some position ↦ walk fuel limit (some position) table ]

pub record Page (A : Type 0) : Type 0 where
  pub items : List A
  pub next_cursor : Option Text

-- The position of a request: none without a cursor, an error for a cursor that does not decode.
unfoldable pub position_of : Option Text → Option (Option Position)
unfolding decode_cursor
position_of none = some none
position_of (some cursor) = elim (decode_cursor cursor) [
  | none ↦ none
  | some position ↦ some (some position)
]

unfoldable pub encode_next : Option Position → Option Text
unfolding encode_cursor
encode_next none = none
encode_next (some position) = some (encode_cursor position)

unfoldable pub page_at :
    {A B : Type 0} → (A → Position) → (A → B) → ℕ → List A → Option Position → Page B
unfolding encode_next
page_at key out limit rows position =
    let (page, next) = page_of key limit position rows in
    record { items = map out page; next_cursor = encode_next next }

-- A page of a listing at the cursor of a request; `none` is `InvalidCursorError`.
unfoldable pub keyset_page :
    {A B : Type 0} → (A → Position) → (A → B) → ℕ → List A → Option Text → Option (Page B)
unfolding position_of
keyset_page key out limit rows cursor = elim (position_of cursor) [
  | none ↦ none
  | some position ↦ some (page_at key out limit rows position)
]

-- A client that follows `next_cursor` from page to page, for at most `fuel` requests.
unfoldable pub read_all :
    {B : Type 0} → (Option Text → Option (Page B)) → ℕ → Option Text → Option (List B)
read_all fetch zero cursor = some []
read_all fetch (suc fuel) cursor = elim (fetch cursor) [
  | none ↦ none
  | some page ↦ elim page.next_cursor [
    | none ↦ some page.items
    | some next ↦ elim (read_all fetch fuel (some next)) [
      | none ↦ none
      | some rest ↦ some (page.items ++ rest)
    ]
  ]
]
