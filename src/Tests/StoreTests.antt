-- ===== src/Tests/StoreTests.antt =====
-- app/ingest/store.py at a small store and a batch of two items.
use sre_tab.Common.{
  ℕ, ◌+◌, ◌≤◌, ◌≡◌, ◌⊎◌, refl, true, false, Option, none, some, List, [], ◌∷◌, Text, codes, eqb,
  length, text_beq, text_eq, All, scalar, select, exists_row, insert_ignore, upsert, merged,
  update_rows, delete_rows, count_rows,
}
use sre_tab.Models.{FeedItem, source, rule, Bookmark}
use sre_tab.Ingest.Store.{
  ItemStore, NormalisedItem, chunks, member, rows_in, stored_among, insert_items,
  link_source_topics, insert_links, source_links, rule_links_of, rule_topic_rows, link_items,
  new_rows, upsert_items,
}
use sre_tab.Ingest.Store.Items.{Stored, has_url, upsert_items-Stored}
use sre_tab.Ingest.Store.Links.{Owned, link_items-Owned}
use sre_tab.Ingest.Store.Icon.{record_discovered_icon, HasIcon, record_discovered_icon_twice}
use sre_tab.Ingest.Store.Retention.{
  has_bookmark, is_expired, prune_feed_items, prune_feed_items-kept,
}

program : Unit {0}
unfolding text_beq scalar select exists_row insert_ignore upsert merged update_rows delete_rows
    count_rows chunks member rows_in stored_among insert_items link_source_topics insert_links
    source_links rule_links_of rule_topic_rows link_items new_rows upsert_items has_bookmark
    is_expired prune_feed_items
program = tt

abbrev old_item : FeedItem
old_item = record {
  id = 1;
  source_id = 3;
  canonical_url = codes "https://a.com/sport/1";
  title = codes "first title";
  summary = none;
  published_at = 50;
  image_url = none;
  fetched_at = 60;
  language = none;
}

abbrev store : ItemStore
store = record {
  items = old_item ∷ [];
  next_id = 2;
  item_topics = record { feed_item_id = 1; topic_id = 5; origin = rule } ∷ [];
  topics = record { id = 5; slug = codes "sport"; name = codes "Sport"; enabled = true } ∷ [];
  statuses = [];
  bookmarks = record { user_id = 9; feed_item_id = 1; created_at = 70 } ∷ [];
  reads = [];
}

abbrev batch : List NormalisedItem
batch =
    record {
      canonical_url = codes "https://a.com/sport/1";
      title = codes "second title";
      summary = none;
      published_at = 55;
      image_url = none;
    }
    ∷ record {
      canonical_url = codes "https://a.com/2";
      title = codes "new";
      summary = none;
      published_at = 80;
      image_url = none;
    }
    ∷ []

abbrev no_language : Text → Option Text → Option Text
no_language title summary = none

abbrev always_sport : Text → List Text
always_sport url = codes "sport" ∷ []

-- One of the two items is new.
inserted : (upsert_items no_language always_sport 3 batch (5 ∷ []) 100 store).1 ≡ 1
unfolding program
inserted = refl

-- The rule's link has become the source's, and the new item has one row for the topic.
linked :
    (upsert_items no_language always_sport 3 batch (5 ∷ []) 100 store).0.item_topics
    ≡ record { feed_item_id = 1; topic_id = 5; origin = source }
      ∷ record { feed_item_id = 2; topic_id = 5; origin = source }
      ∷ []
unfolding program
linked = refl

upsert_items-Stored_example :
    let after = (upsert_items no_language always_sport 3 batch (5 ∷ []) 100 store).0 in
    All (λ item. Stored item.canonical_url after.items) batch
    × ((url : Text) (row : FeedItem)
        → scalar (has_url url) store.items ≡ some row
        → scalar (has_url url) after.items ≡ some row)
upsert_items-Stored_example =
    upsert_items-Stored no_language always_sport 3 batch (5 ∷ []) 100 store

link_items-Owned_example :
    let after = link_items always_sport (5 ∷ []) store.topics store.items store.item_topics in
    All (λ (item : FeedItem). All (λ topic_id. Owned item.id topic_id after) (5 ∷ [])) store.items
    × ((item_id topic_id : ℕ)
        → Owned item_id topic_id store.item_topics
        → Owned item_id topic_id after)
link_items-Owned_example =
    link_items-Owned always_sport (5 ∷ []) store.topics store.items store.item_topics

record_discovered_icon_twice_example :
    let after = (record_discovered_icon 3 (some (codes "https://a.com/i.png")) []).0 in
    HasIcon 3 (codes "https://a.com/i.png") after
    × (record_discovered_icon 3 (some (codes "https://a.com/i.png")) after ≡ (after, false))
record_discovered_icon_twice_example =
    record_discovered_icon_twice 3 (codes "https://a.com/i.png") []

prune_feed_items-kept_example :
    let (after, removed) = prune_feed_items 60 store in
    ((item_id : ℕ)
      → exists_row (λ (b : Bookmark). eqb b.feed_item_id item_id) store.bookmarks ≡ true
      → scalar (λ (i : FeedItem). eqb i.id item_id) after.items
        ≡ scalar (λ (i : FeedItem). eqb i.id item_id) store.items)
    × All
        (λ item. (60 ≤ item.published_at) ⊎ (has_bookmark store.bookmarks item ≡ true))
        after.items
    × (length after.items + removed ≡ length store.items)
prune_feed_items-kept_example = prune_feed_items-kept 60 store
