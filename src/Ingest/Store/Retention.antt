-- ===== src/Ingest/Store/Retention.antt =====
-- What the retention of app/ingest/store.py keeps.
use sre_tab.Common.{
  Bool, ◌&&◌, not, ltb, delete_rows, count_rows, eqb, text_eq, select, ℕ, ◌+◌, ◌≤◌, ◌≡◌, ◌⊎◌, true,
  false, List, eqb_iff, length, All, All-map, scalar, exists_row, count_rows-delete_rows,
  scalar-delete_rows, All-delete_rows, inl, inr, Bool-cases, arith,
}
use sre_tab.Models.{UserReadItem, FeedItemTopic, FeedItem, Bookmark}
use sre_tab.Ingest.Store.{ItemStore}

-- `~bookmarked` and the cutoff.
unfoldable pub has_bookmark : List Bookmark → FeedItem → Bool
has_bookmark bookmarks item = exists_row (λ (b : Bookmark). eqb b.feed_item_id item.id) bookmarks

unfoldable pub is_expired : ℕ → List Bookmark → FeedItem → Bool
unfolding has_bookmark
is_expired cutoff bookmarks item = ltb item.published_at cutoff && not (has_bookmark bookmarks item)

-- `prune_feed_items`, with the cascade to the links and read marks of what is removed.
unfoldable pub prune_feed_items : ℕ → ItemStore → ItemStore × ℕ
unfolding is_expired
prune_feed_items cutoff store =
    let removed = select (is_expired cutoff store.bookmarks) store.items in
    (
      record store {
        items = delete_rows (is_expired cutoff store.bookmarks) store.items;
        item_topics =
            delete_rows
              (λ (link : FeedItemTopic).
                exists_row (λ (i : FeedItem). eqb i.id link.feed_item_id) removed)
              store.item_topics;
        reads =
            delete_rows
              (λ (r : UserReadItem). exists_row (λ (i : FeedItem). eqb i.id r.feed_item_id) removed)
              store.reads;
      },
      count_rows (is_expired cutoff store.bookmarks) store.items,
    )

bookmarked_not_expired :
    (cutoff : ℕ) (bookmarks : List Bookmark) (item_id : ℕ) (item : FeedItem)
    → exists_row (λ (b : Bookmark). eqb b.feed_item_id item_id) bookmarks ≡ true
    → eqb item.id item_id ≡ true
    → is_expired cutoff bookmarks item ≡ false
unfolding is_expired has_bookmark
bookmarked_not_expired cutoff bookmarks item_id item saved same =
    rw ((eqb_iff item.id item_id).0 same, saved) (ground arith)

stale_or_kept :
    (cutoff : ℕ) (bookmarks : List Bookmark) (item : FeedItem)
    → is_expired cutoff bookmarks item ≡ false
    → (cutoff ≤ item.published_at) ⊎ (has_bookmark bookmarks item ≡ true)
unfolding is_expired
stale_or_kept cutoff bookmarks item h = elim (Bool-cases (has_bookmark bookmarks item)) [
  | inl saved ↦ inr saved
  | inr unsaved ↦ inl (ground arith)
]

-- Retention leaves an item that anybody has bookmarked as it is; every item that it leaves is
-- bookmarked or not older than the cutoff; and it reports how many it removed.
pub prune_feed_items-kept :
    (cutoff : ℕ) (store : ItemStore)
    → let (after, removed) = prune_feed_items cutoff store in
      ((item_id : ℕ)
        → exists_row (λ (b : Bookmark). eqb b.feed_item_id item_id) store.bookmarks ≡ true
        → scalar (λ (i : FeedItem). eqb i.id item_id) after.items
          ≡ scalar (λ (i : FeedItem). eqb i.id item_id) store.items)
      × All
          (λ item. (cutoff ≤ item.published_at) ⊎ (has_bookmark store.bookmarks item ≡ true))
          after.items
      × (length after.items + removed ≡ length store.items)
unfolding prune_feed_items
prune_feed_items-kept cutoff store = (
  λ item_id saved.
      scalar-delete_rows (λ i. eqb i.id item_id) (is_expired cutoff store.bookmarks) store.items
        (λ item same. bookmarked_not_expired cutoff store.bookmarks item_id item saved same),
  All-map _ _ (stale_or_kept cutoff store.bookmarks) _
      (All-delete_rows (is_expired cutoff store.bookmarks) store.items),
  count_rows-delete_rows (is_expired cutoff store.bookmarks) store.items,
)
