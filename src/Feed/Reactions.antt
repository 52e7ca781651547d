-- ===== src/Feed/Reactions.antt =====
-- app/services/read_state.py, app/services/bookmarks.py and `insert_ignore` of
-- app/services/upsert.py: what a user does to an item. The unique key of both tables is the user
-- and the item.
pub mod Laws
pub mod Saved
pub mod Listing
use sre_tab.Common.{
  ℕ, zero, suc, ◌+◌, ◌-◌, ◌*◌, ◌/◌, ◌≤◌, ◌<◌, ◌≡◌, ◌≢◌, ◌↔◌, ◌⊎◌, refl, sym, ap, ◌∙◌, Bool, true,
  false, not, ◌&&◌, ◌||◌, Option, none, some, List, [], ◌∷◌, ◌++◌, map, if◌then◌else◌, Text, ◌==◌,
  text_eq, nat_eq, arith, inl, inr, Bool-cases, Option-cases, is_some, eq_of_true, eq_refl,
  text_beq_iff, text_beq, eqb_iff, false_of_ne, ne_of_false, is_nil, codes, ltb, leb, eqb, ltb→lt,
  ltb→le, lt→ltb, leb→le, le→leb, leb→lt, length, take, drop, take_of_length-le, take-append-drop,
  length-take-le, All, All-append, All-map, length-append, append-nil, append_assoc, map-append,
  insert_ignore, select, scalar, exists_row, delete_rows, update_rows, count_rows,
  count_rows-delete_rows, scalar_sound, exists_row-scalar, scalar-delete_rows,
  scalar-update_rows-none, scalar-update_rows_some, scalar-append_none, update_rows_none, sort_by,
  insert_by, Sorted, Apart, Transitive, sort_by-Sorted, select-sort_by, select-Apart,
  count_rows-sort_by, starts_with, strip, lower, partition, split, lacks, words, words_from,
  text_before, min,
}
use sre_tab.Models.{User, FeedItem, Source, UserReadItem, Bookmark}
use sre_tab.Cursor.{Position}
use sre_tab.Pagination.{Page, keyset_page}
use sre_tab.Feed.Joins.{Tables, FeedRow, join_rows, read_time}
use sre_tab.Feed.Page.{FeedItemOut, build_item_out}

-- How a service call ends: the 404 of an unknown item, the fault of a query for one row that finds
-- none, or a result.
pub data Outcome (A : Type 0) : Type 0 where
  item_not_found : Outcome A
  no_row_found : Outcome A
  done : A → Outcome A

-- The next call, if this one has a result.
unfoldable pub and_then : {A B : Type 0} → Outcome A → (A → Outcome B) → Outcome B
and_then item_not_found next = item_not_found
and_then no_row_found next = no_row_found
and_then (done a) next = next a

unfoldable pub has_item : ℕ → Tables → Bool
has_item item_id db = is_some (scalar (λ (i : FeedItem). eqb i.id item_id) db.items)

-- The unique keys.
unfoldable pub is_read_of : User → ℕ → UserReadItem → Bool
is_read_of user item_id row = eqb row.feed_item_id item_id && eqb row.user_id user.id

unfoldable pub is_bookmark_of : User → ℕ → Bookmark → Bool
is_bookmark_of user item_id row = eqb row.feed_item_id item_id && eqb row.user_id user.id

pub record ReadStateOut : Type 0 where
  pub item_id : ℕ
  pub read : Bool
  pub read_at : Option ℕ

unfoldable pub stored_read_at : User → ℕ → List UserReadItem → Option ℕ
unfolding is_read_of read_time
stored_read_at user item_id reads = read_time (scalar (is_read_of user item_id) reads)

-- The write, and the time that the reply tells: after an insertion it is read back.
unfoldable pub write_read_state :
    User → ℕ → Bool → ℕ → List UserReadItem → List UserReadItem × Option ℕ
unfolding stored_read_at is_read_of
write_read_state user item_id true now reads =
    let row : UserReadItem = record { user_id = user.id; feed_item_id = item_id; read_at = now } in
    let written = insert_ignore (is_read_of user item_id) row reads in
    (written, stored_read_at user item_id written)
write_read_state user item_id false now reads = (delete_rows (is_read_of user item_id) reads, none)

-- The tables and the reply.
unfoldable pub set_read_state : User → ℕ → Bool → ℕ → Tables → Outcome (Tables × ReadStateOut)
unfolding has_item write_read_state
set_read_state user item_id is_read now db =
    if not (has_item item_id db)
    then item_not_found
    else let (reads, at) = write_read_state user item_id is_read now db.reads in
      done (record db { reads = reads }, record { item_id = item_id; read = is_read; read_at = at })

pub record BookmarkOut : Type 0 where
  pub item : FeedItemOut
  pub created_at : ℕ

-- A row of `_card_query`: a feed row that the inner join with the bookmarks keeps.
unfoldable pub is_bookmarked : FeedRow → Bool
is_bookmarked row = is_some row.bookmarked_at

unfoldable pub card_query : User → Tables → List FeedRow
unfolding is_bookmarked join_rows
card_query user db = select is_bookmarked (join_rows db user db.items)

-- `created_at` of the joined bookmark.
unfoldable pub saved_at : FeedRow → ℕ
saved_at row = elim row.bookmarked_at [ none ↦ 0 | some at ↦ at ]

unfoldable pub bookmark_out : Tables → FeedRow → BookmarkOut
unfolding build_item_out saved_at
bookmark_out db row = record {
  item = build_item_out db row.item row.source row.status (is_some row.read_at) true;
  created_at = saved_at row;
}

unfoldable pub bookmark_reply : Tables → Option FeedRow → Outcome (Tables × BookmarkOut)
unfolding bookmark_out
bookmark_reply db none = no_row_found
bookmark_reply db (some row) = done (db, bookmark_out db row)

unfoldable pub create_bookmark : User → ℕ → ℕ → Tables → Outcome (Tables × BookmarkOut)
unfolding has_item is_bookmark_of card_query bookmark_reply
create_bookmark user item_id now db =
    if not (has_item item_id db)
    then item_not_found
    else let row : Bookmark = record {
      user_id = user.id;
      feed_item_id = item_id;
      created_at = now;
    } in
      let stored : Tables = record db {
        bookmarks = insert_ignore (is_bookmark_of user item_id) row db.bookmarks;
      } in
      bookmark_reply stored (scalar (λ r. eqb r.item.id item_id) (card_query user stored))

unfoldable pub remove_bookmark : User → ℕ → Tables → Outcome Tables
unfolding has_item is_bookmark_of
remove_bookmark user item_id db =
    if not (has_item item_id db)
    then item_not_found
    else done (record db { bookmarks = delete_rows (is_bookmark_of user item_id) db.bookmarks })

abbrev pub bookmark_key : FeedRow → Position
bookmark_key row = (saved_at row, row.item.id)

-- `list_bookmarks`; `none` is `InvalidCursorError`.
unfoldable pub list_bookmarks : User → Tables → Option Text → ℕ → Option (Page BookmarkOut)
unfolding card_query bookmark_out
list_bookmarks user db cursor limit =
    keyset_page bookmark_key (bookmark_out db) limit (card_query user db) cursor
