-- ===== src/Ingest/Store/Links.antt =====
-- Who owns the topic links of app/ingest/store.py, and which items a refresh leaves alone.
use sre_tab.Common.{
  ℕ, ◌≡◌, refl, ◌∙◌, Option, none, some, List, [], ◌∷◌, ◌++◌, map, Text, text_eq, eqb_iff, All,
  All-map, All-append, subst, scalar, upsert, merged, scalar-upsert, scalar-upsert_other,
  scalar-insert_ignore_known, inl, inr, Bool-cases, arith,
}
use sre_tab.Models.{FeedItem, FeedItemTopic, Topic, source}
use sre_tab.Ingest.Store.{
  is_link, link_source_topics, insert_links, source_links, rule_topic_rows, link_items,
}

-- The link is there, and is the operator's.
pub record Owned (item_id topic_id : ℕ) (links : List FeedItemTopic) : Type 0 where
  pub link : FeedItemTopic
  pub is_stored : scalar (is_link item_id topic_id) links ≡ some link
  pub is_source : link.origin ≡ source

insert_links-Owned :
    (item_id topic_id : ℕ) (rows links : List FeedItemTopic)
    → Owned item_id topic_id links
    → Owned item_id topic_id (insert_links rows links)
unfolding insert_links
insert_links-Owned item_id topic_id [] links h = h
insert_links-Owned item_id topic_id (row ∷ rows) links h =
    insert_links-Owned item_id topic_id rows _ (record {
      link = h.link;
      is_stored =
          scalar-insert_ignore_known (is_link item_id topic_id)
            (is_link row.feed_item_id row.topic_id) row links h.is_stored;
      is_source = h.is_source;
    })

abbrev assert_link : FeedItemTopic → List FeedItemTopic → List FeedItemTopic
assert_link row =
    upsert (is_link row.feed_item_id row.topic_id) row (λ link. record link { origin = source })

assert_link-itself :
    (row : FeedItemTopic) (links : List FeedItemTopic)
    → row.origin ≡ source
    → Owned row.feed_item_id row.topic_id (assert_link row links)
assert_link-itself row links h = record {
  link =
      merged row (λ link. record link { origin = source })
        (scalar (is_link row.feed_item_id row.topic_id) links);
  is_stored =
      scalar-upsert (is_link row.feed_item_id row.topic_id) row
        (λ link. record link { origin = source }) links (ground arith) (λ x e. e);
  is_source = owner (scalar (is_link row.feed_item_id row.topic_id) links);
}
  where
    owner :
        (found : Option FeedItemTopic)
        → (merged row (λ link. record link { origin = source }) found).origin ≡ source
    owner none = unfold merged in h
    owner (some link) = unfold merged in refl

assert_link-Owned :
    (item_id topic_id : ℕ) (row : FeedItemTopic) (links : List FeedItemTopic)
    → row.origin ≡ source
    → Owned item_id topic_id links
    → Owned item_id topic_id (assert_link row links)
assert_link-Owned item_id topic_id row links asserted h =
    elim (Bool-cases (is_link item_id topic_id row)) [
      | inl same ↦
          let items : row.feed_item_id ≡ item_id =
            (eqb_iff row.feed_item_id item_id).0 (ground arith) in
          let topics : row.topic_id ≡ topic_id = (eqb_iff row.topic_id topic_id).0 (ground arith) in
          subst (λ id. Owned id topic_id (assert_link row links)) items
            (subst (λ id. Owned row.feed_item_id id (assert_link row links)) topics
              (assert_link-itself row links asserted))
      | inr other ↦ record {
        link = h.link;
        is_stored =
            scalar-upsert_other (is_link item_id topic_id) (is_link row.feed_item_id row.topic_id)
              row (λ link. record link { origin = source }) links other (λ x e. ground arith)
              (λ x e. ground arith)
            ∙ h.is_stored;
        is_source = h.is_source;
      }
    ]

link_source_topics-Owned :
    (item_id topic_id : ℕ) (rows links : List FeedItemTopic)
    → All (λ row. row.origin ≡ source) rows
    → Owned item_id topic_id links
    → Owned item_id topic_id (link_source_topics rows links)
unfolding link_source_topics
link_source_topics-Owned item_id topic_id [] links a h = h
link_source_topics-Owned item_id topic_id (row ∷ rows) links a h =
    link_source_topics-Owned item_id topic_id rows _ a.1
      (assert_link-Owned item_id topic_id row links a.0 h)

-- Every row of the batch is the operator's when the batch has been asserted.
link_source_topics-All :
    (rows links : List FeedItemTopic)
    → All (λ row. row.origin ≡ source) rows
    → All (λ row. Owned row.feed_item_id row.topic_id (link_source_topics rows links)) rows
unfolding link_source_topics
link_source_topics-All [] links a = tt
link_source_topics-All (row ∷ rows) links a = (
  link_source_topics-Owned row.feed_item_id row.topic_id rows _ a.1
      (assert_link-itself row links a.0),
  link_source_topics-All rows _ a.1,
)

source_links-origin :
    (topic_ids : List ℕ) (items : List FeedItem)
    → All (λ row. row.origin ≡ source) (source_links topic_ids items)
unfolding source_links
source_links-origin topic_ids [] = tt
source_links-origin topic_ids (item ∷ items) =
    All-append _ _ _ (one topic_ids) (source_links-origin topic_ids items)
  where
    one :
        (ids : List ℕ)
        → All
            (λ (row : FeedItemTopic). row.origin ≡ source)
            (map
              (λ topic_id. record { feed_item_id = item.id; topic_id = topic_id; origin = source })
              ids)
    one [] = tt
    one (id ∷ ids) = (refl, one ids)

-- What holds of every link of the batch holds of each of its items with each topic of its source.
source_links-All :
    (P : ℕ → ℕ → Type 0) (topic_ids : List ℕ) (items : List FeedItem)
    → All (λ row. P row.feed_item_id row.topic_id) (source_links topic_ids items)
    → All (λ (item : FeedItem). All (λ topic_id. P item.id topic_id) topic_ids) items
unfolding source_links
source_links-All P topic_ids [] h = tt
source_links-All P topic_ids (item ∷ items) h =
    let (here, rest) = one topic_ids h in (here, source_links-All P topic_ids items rest)
  where
    one :
        (ids : List ℕ)
        → All
            (λ (row : FeedItemTopic). P row.feed_item_id row.topic_id)
            (map
                (λ topic_id. record {
                  feed_item_id = item.id;
                  topic_id = topic_id;
                  origin = source;
                })
                ids
              ++ source_links topic_ids items)
        → All (λ topic_id. P item.id topic_id) ids
          × All (λ row. P row.feed_item_id row.topic_id) (source_links topic_ids items)
    one [] g = (tt, g)
    one (id ∷ ids) g = let (here, rest) = one ids g.1 in ((g.0, here), rest)

-- After a batch, each of its items has a link to each topic of its source that is the operator's,
-- also where a rule had derived that link before or derives it now; and no link that was the
-- operator's has become a rule's.
pub link_items-Owned :
    (topics_for_url : Text → List Text) (topic_ids : List ℕ) (topics : List Topic)
    (stored : List FeedItem) (links : List FeedItemTopic)
    → let after = link_items topics_for_url topic_ids topics stored links in
      All (λ (item : FeedItem). All (λ topic_id. Owned item.id topic_id after) topic_ids) stored
      × ((item_id topic_id : ℕ) → Owned item_id topic_id links → Owned item_id topic_id after)
unfolding link_items
link_items-Owned topics_for_url topic_ids topics stored links =
    let rules = rule_topic_rows topics_for_url topics stored in
    let asserted = source_links topic_ids stored in
    (
      source_links-All
          (λ item_id topic_id.
            Owned item_id topic_id (insert_links rules (link_source_topics asserted links)))
          topic_ids stored
          (All-map _
            (λ (row : FeedItemTopic).
              Owned row.feed_item_id row.topic_id
                (insert_links rules (link_source_topics asserted links)))
            (λ row h. insert_links-Owned row.feed_item_id row.topic_id rules _ h) asserted
            (link_source_topics-All asserted links (source_links-origin topic_ids stored))),
      λ item_id topic_id h. insert_links-Owned item_id topic_id rules _ (
          link_source_topics-Owned item_id topic_id asserted links
            (source_links-origin topic_ids stored) h),
    )
