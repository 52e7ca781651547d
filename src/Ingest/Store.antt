-- ===== src/Ingest/Store.antt =====
-- app/ingest/store.py: what a refresh writes, and what retention removes. Language detection is a
-- third-party model, and the topic rules are a function of the URL; both are arguments. A batch of
-- rows is inserted one after the other, each with the next id of the table's sequence.
pub mod Items
pub mod Icon
pub mod Links
pub mod Retention
use sre_tab.Common.{
  ℕ, zero, suc, ◌≡◌, refl, Bool, true, false, not, ◌&&◌, Option, none, some, List, [], ◌∷◌, ◌++◌,
  map, if◌then◌else◌, Text, ◌==◌, text_eq, is_nil, ltb, eqb, length, take, drop, select, scalar,
  exists_row, delete_rows, update_rows, count_rows, insert_ignore, upsert,
  scalar-insert_ignore_known,
}
use sre_tab.Models.{
  FeedItem, FeedItemTopic, Topic, TopicOrigin, source, rule, SourceStatus, Bookmark, UserReadItem,
}

-- The tables that the store writes, with the next id of `feed_items`.
pub record ItemStore : Type 0 where
  pub items : List FeedItem
  pub next_id : ℕ
  pub item_topics : List FeedItemTopic
  pub topics : List Topic
  pub statuses : List SourceStatus
  pub bookmarks : List Bookmark
  pub reads : List UserReadItem

-- `NormalisedItem` of app/ingest/normalise.py.
pub record NormalisedItem : Type 0 where
  pub canonical_url : Text
  pub title : Text
  pub summary : Option Text
  pub published_at : ℕ
  pub image_url : Option Text

-- `CHUNK_SIZE`
abbrev pub chunk_size : ℕ
chunk_size = 400

-- `_chunks`; each chunk takes at least one value, so as many rounds as values are enough.
unfoldable pub chunks {ℓ} : {A : Type ℓ} → ℕ → List A → List (List A)
chunks zero values = []
chunks (suc rounds) [] = []
chunks (suc rounds) (x ∷ xs) = take chunk_size (x ∷ xs) ∷ chunks rounds (drop chunk_size (x ∷ xs))

-- `x in xs`
unfoldable pub member : Text → List Text → Bool
member s [] = false
member s (t ∷ ts) = if s == t then true else member s ts

-- The rows of `canonical_url IN (…)`, chunk by chunk.
unfoldable pub rows_in : List (List Text) → List FeedItem → List FeedItem
unfolding member
rows_in [] items = []
rows_in (chunk ∷ rest) items =
    select (λ i. member i.canonical_url chunk) items ++ rows_in rest items

unfoldable pub stored_among : List Text → List FeedItem → List FeedItem
unfolding chunks rows_in
stored_among urls items = rows_in (chunks (length urls) urls) items

-- The values of one new row; its id comes with the insertion.
abbrev pub new_item : (Text → Option Text → Option Text) → ℕ → ℕ → NormalisedItem → FeedItem
new_item detect_language source_id fetched_at item = record {
  id = 0;
  source_id = source_id;
  canonical_url = item.canonical_url;
  title = item.title;
  summary = item.summary;
  published_at = item.published_at;
  image_url = item.image_url;
  fetched_at = fetched_at;
  language = detect_language item.title item.summary;
}

-- `_insert_ignore` on `feed_items`.
unfoldable pub insert_items : List FeedItem → List FeedItem × ℕ → List FeedItem × ℕ
insert_items [] stored = stored
insert_items (row ∷ rows) (items, next) = insert_items rows (
  insert_ignore (λ i. i.canonical_url == row.canonical_url) (record row { id = next }) items,
  suc next,
)

-- The key of a link.
abbrev pub is_link : ℕ → ℕ → FeedItemTopic → Bool
is_link item_id topic_id link = eqb link.feed_item_id item_id && eqb link.topic_id topic_id

-- `_link_source_topics`: a link that is there becomes the source's.
unfoldable pub link_source_topics : List FeedItemTopic → List FeedItemTopic → List FeedItemTopic
link_source_topics [] links = links
link_source_topics (row ∷ rows) links = link_source_topics rows (
    upsert (is_link row.feed_item_id row.topic_id) row (λ link. record link { origin = source })
      links)

-- `_insert_ignore` on `feed_item_topics`, and `insert_rule_links`.
unfoldable pub insert_links : List FeedItemTopic → List FeedItemTopic → List FeedItemTopic
insert_links [] links = links
insert_links (row ∷ rows) links =
    insert_links rows (insert_ignore (is_link row.feed_item_id row.topic_id) row links)

-- The links of every item of the batch to every topic of the source.
unfoldable pub source_links : List ℕ → List FeedItem → List FeedItemTopic
source_links topic_ids [] = []
source_links topic_ids (item ∷ items) =
    map (λ topic_id. record { feed_item_id = item.id; topic_id = topic_id; origin = source })
      topic_ids
    ++ source_links topic_ids items

-- The links that one URL argues for; a slug without a topic is skipped.
unfoldable pub rule_links_of : List Topic → ℕ → List Text → List FeedItemTopic
rule_links_of topics item_id [] = []
rule_links_of topics item_id (slug ∷ slugs) =
    let rest = rule_links_of topics item_id slugs in
    elim (scalar (λ (t : Topic). t.slug == slug) topics) [
      | none ↦ rest
      | some topic ↦ record { feed_item_id = item_id; topic_id = topic.id; origin = rule } ∷ rest
    ]

-- `_rule_topic_rows`
unfoldable pub rule_topic_rows :
    (Text → List Text) → List Topic → List FeedItem → List FeedItemTopic
unfolding rule_links_of
rule_topic_rows topics_for_url topics [] = []
rule_topic_rows topics_for_url topics (item ∷ items) =
    rule_links_of topics item.id (topics_for_url item.canonical_url)
    ++ rule_topic_rows topics_for_url topics items

-- The link table after a batch whose stored rows are given.
unfoldable pub link_items :
    (Text → List Text)
    → List ℕ
    → List Topic
    → List FeedItem
    → List FeedItemTopic
    → List FeedItemTopic
unfolding link_source_topics source_links insert_links rule_topic_rows
link_items topics_for_url topic_ids topics stored links =
    insert_links (rule_topic_rows topics_for_url topics stored)
      (link_source_topics (source_links topic_ids stored) links)

-- The rows of the batch whose URL is not among the given.
unfoldable pub new_rows :
    (Text → Option Text → Option Text) → ℕ → ℕ → List Text → List NormalisedItem → List FeedItem
unfolding member
new_rows detect_language source_id fetched_at existing items =
    map (new_item detect_language source_id fetched_at)
      (select (λ item. not (member item.canonical_url existing)) items)

-- `upsert_items`: the tables, and the number of new rows.
unfoldable pub upsert_items :
    (Text → Option Text → Option Text)
    → (Text → List Text)
    → (source_id : ℕ) → List NormalisedItem
    → (topic_ids : List ℕ) → (fetched_at : ℕ) → ItemStore
    → ItemStore × ℕ
unfolding stored_among new_rows insert_items link_items
upsert_items detect_language topics_for_url source_id items topic_ids fetched_at store =
    if is_nil items
    then (store, 0)
    else let urls = map (λ (i : NormalisedItem). i.canonical_url) items in
      let existing = map (λ (i : FeedItem). i.canonical_url) (stored_among urls store.items) in
      let rows = new_rows detect_language source_id fetched_at existing items in
      let (stored, next) = insert_items rows (store.items, store.next_id) in
      (
        record store {
          items = stored;
          next_id = next;
          item_topics =
              link_items topics_for_url topic_ids store.topics (stored_among urls stored)
                store.item_topics;
        },
        length rows,
      )
