-- ===== src/Feed/Reactions/Saved.antt =====
-- The bookmarks of app/services/bookmarks.py: saving, removing, and the listing to its end.
use sre_tab.Common.{
  All, All-sort_by, count_rows, count_rows-sort_by, ◌≤◌, ℕ, suc, ◌<◌, ◌≡◌, none, some, map, text_eq,
  nat_eq, length, sort_by, eqb, eqb_iff, ◌&&◌, if◌then◌else◌, true, scalar, delete_rows,
  scalar-delete_rows, scalar-delete_rows-none, Bool-cases, inl, inr, ap, ◌∙◌, refl, arith, List,
}
use sre_tab.Pagination.{newest_first, read_all}
use sre_tab.Cursor.{last_time}
use sre_tab.Pagination.Keyset.{DistinctKeys}
use sre_tab.Pagination.Reading.{read_all_complete}
use sre_tab.Feed.Reading.{count_rows-map, UniqueIds, join_rows-DistinctKeys, select-DistinctKeys}
use sre_tab.Models.{User, FeedItem, Bookmark}
use sre_tab.Feed.Joins.{Tables, join_rows, bookmark_mark, bookmark_time}
use sre_tab.Feed.Page.{build_item_out}
use sre_tab.Feed.Reactions.Listing.{
  is_listed, HasSavedTime, card_query-HasSavedTime, card_query-Timed, count_rows-card_query,
  All-mapped,
}
use sre_tab.Feed.Reactions.{
  BookmarkOut, has_item, is_bookmark_of, remove_bookmark, done, saved_at, card_query, bookmark_out,
  bookmark_key, list_bookmarks,
}

-- With unique item ids, bookmarks made at times that a `datetime` holds, and
-- pages of at least one row, a client that follows `next_cursor` gets a list, the last saved first,
-- whatever the page size and however many were saved at one time. An item is in it once if the user has
-- a bookmark of it and its source is stored, and else not at all; and each entry has the time of that
-- bookmark.
pub read_all-list_bookmarks :
    (user : User) (db : Tables) (limit : ℕ)
    → 0 < limit
    → UniqueIds db.items
    → All (λ b. b.created_at ≤ last_time) db.bookmarks
    → let rows = sort_by (newest_first bookmark_key) (card_query user db) in
      let listed = map (bookmark_out db) rows in
      (read_all (λ cursor. list_bookmarks user db cursor limit) (suc (length rows)) none
        ≡ some listed)
      × ((item_id : ℕ)
          → count_rows (λ b. eqb b.item.id item_id) listed
            ≡ (if is_listed user item_id db then 1 else 0))
      × All (λ b. HasSavedTime user db b.item.id b.created_at) listed
unfolding list_bookmarks
read_all-list_bookmarks user db limit positive unique timed =
    let rows = sort_by (newest_first bookmark_key) (card_query user db) in
    (
      read_all_complete bookmark_key (bookmark_out db) limit (card_query user db) positive
          (card_query-DistinctKeys user db unique) (card_query-Timed user db timed),
      λ item_id.
          count_rows-map (λ (b : BookmarkOut). eqb b.item.id item_id) (bookmark_out db) rows
          ∙ unfold bookmark_out build_item_out in
            count_rows-sort_by (newest_first bookmark_key) (λ row. eqb row.item.id item_id)
              (card_query user db)
            ∙ count_rows-card_query user db item_id unique,
      All-mapped _ (bookmark_out db) rows (
          unfold bookmark_out build_item_out in
          All-sort_by (newest_first bookmark_key)
            (λ row. HasSavedTime user db row.item.id (saved_at row)) (card_query user db)
            (card_query-HasSavedTime user db)),
    )
  where
    card_query-DistinctKeys :
        (u : User) (tables : Tables)
        → UniqueIds tables.items
        → DistinctKeys bookmark_key (card_query u tables)
    card_query-DistinctKeys u tables h =
        unfold card_query in
        select-DistinctKeys bookmark_key _ (join_rows tables u tables.items)
          (join_rows-DistinctKeys saved_at tables u tables.items h)

bookmark_mark-delete_rows :
    (user other : User) (item_id : ℕ) (item : FeedItem) (bookmarks : List Bookmark)
    → bookmark_time (
        scalar (is_bookmark_of other item.id) (delete_rows (is_bookmark_of user item_id) bookmarks))
      ≡ (if eqb item.id item_id && eqb other.id user.id
          then none
          else bookmark_time (scalar (is_bookmark_of other item.id) bookmarks))
bookmark_mark-delete_rows user other item_id item bookmarks =
    elim (Bool-cases (eqb item.id item_id && eqb other.id user.id)) [
      | inl same ↦ rw same (
          ap bookmark_time (
            ap (λ p. scalar p (delete_rows (is_bookmark_of user item_id) bookmarks)) (one_key same)
            ∙ scalar-delete_rows-none (is_bookmark_of user item_id) bookmarks)
          ∙ unfold bookmark_time in refl)
      | inr different ↦ rw different (
          ap bookmark_time (
            scalar-delete_rows (is_bookmark_of other item.id) (is_bookmark_of user item_id)
              bookmarks (λ row h. unfold is_bookmark_of in ground arith)))
    ]
  where
    one_key :
        (eqb item.id item_id && eqb other.id user.id) ≡ true
        → is_bookmark_of other item.id ≡ is_bookmark_of user item_id
    one_key same =
        let items : item.id ≡ item_id = (eqb_iff item.id item_id).0 (ground arith) in
        let users : other.id ≡ user.id = (eqb_iff other.id user.id).0 (ground arith) in
        unfold is_bookmark_of in rw (items, users) refl

-- Removing a bookmark of an item that exists succeeds, whether or not there is one; from then on
-- the feed shows the item without a bookmark to that user, and every other item and user with the
-- bookmark as it was.
pub bookmark_mark-remove_bookmark :
    (user : User) (item_id : ℕ) (db : Tables)
    → has_item item_id db ≡ true
    → (after : Tables) × (remove_bookmark user item_id db ≡ done after)
      × ((other : User) (item : FeedItem)
          → bookmark_mark after other item ≡ (
              if eqb item.id item_id && eqb other.id user.id
              then none
              else bookmark_mark db other item))
unfolding remove_bookmark bookmark_mark
bookmark_mark-remove_bookmark user item_id db known = (
  record db { bookmarks = delete_rows (is_bookmark_of user item_id) db.bookmarks },
  rw known refl,
  λ other item.
      unfold is_bookmark_of in bookmark_mark-delete_rows user other item_id item db.bookmarks,
)
