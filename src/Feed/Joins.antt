-- ===== src/Feed/Joins.antt =====
-- app/services/feed.py: the joined rows of the feed, its filters, and its pages. The tables are
-- lists of rows; a statement is a function of them. The text search of the database engine is an
-- argument of the functions that use it.
use sre_tab.Common.{
  ℕ, Bool, true, false, ◌&&◌, ◌||◌, Option, none, some, List, [], ◌∷◌, ◌++◌, map, if◌then◌else◌,
  Text, ◌==◌, text_eq, nat_eq, is_nil, eqb, length, take, select, scalar, exists_row, words,
  words_from,
}
use sre_tab.Models.{
  User, Source, SourceStatus, FeedItem, FeedItemTopic, Topic, UserReadItem, Bookmark, UserMutedTerm,
  UserPreferenceTopic, UserPreferenceSource, UserPreferenceLanguage,
}

-- The tables that the services read.
pub record Tables : Type 0 where
  pub sources : List Source
  pub statuses : List SourceStatus
  pub topics : List Topic
  pub items : List FeedItem
  pub item_topics : List FeedItemTopic
  pub reads : List UserReadItem
  pub bookmarks : List Bookmark
  pub muted : List UserMutedTerm
  pub pref_topics : List UserPreferenceTopic
  pub pref_sources : List UserPreferenceSource
  pub pref_languages : List UserPreferenceLanguage

pub data ReadFilter : Type 0 where
  all unread read : ReadFilter

-- A row of `_base_query`: an item with its source, and what the outer joins found.
pub record FeedRow : Type 0 where
  pub item : FeedItem
  pub source : Source
  pub status : Option SourceStatus
  pub read_at : Option ℕ
  pub bookmarked_at : Option ℕ

unfoldable pub read_time : Option UserReadItem → Option ℕ
read_time none = none
read_time (some row) = some row.read_at

unfoldable pub read_mark : Tables → User → FeedItem → Option ℕ
unfolding read_time
read_mark db user item =
    read_time (scalar (λ r. eqb r.feed_item_id item.id && eqb r.user_id user.id) db.reads)

unfoldable pub bookmark_time : Option Bookmark → Option ℕ
bookmark_time none = none
bookmark_time (some row) = some row.created_at

unfoldable pub bookmark_mark : Tables → User → FeedItem → Option ℕ
unfolding bookmark_time
bookmark_mark db user item =
    bookmark_time (scalar (λ b. eqb b.feed_item_id item.id && eqb b.user_id user.id) db.bookmarks)

unfoldable pub join_source : Tables → User → FeedItem → Option Source → List FeedRow
unfolding read_mark bookmark_mark
join_source db user item none = []
join_source db user item (some source) =
    record {
      item = item;
      source = source;
      status = scalar (λ s. eqb s.source_id source.id) db.statuses;
      read_at = read_mark db user item;
      bookmarked_at = bookmark_mark db user item;
    }
    ∷ []

-- The joins of `_base_query`, before its `WHERE`.
unfoldable pub join_rows : Tables → User → List FeedItem → List FeedRow
unfolding join_source
join_rows db user [] = []
join_rows db user (item ∷ items) =
    join_source db user item (scalar (λ s. eqb s.id item.source_id) db.sources)
    ++ join_rows db user items

-- `x in xs`
unfoldable pub elem : Text → List Text → Bool
elem s [] = false
elem s (t ∷ ts) = if s == t then true else elem s ts

-- The item carries a topic whose slug is one of the given.
unfoldable pub carries_topic : Tables → List Text → FeedItem → Bool
unfolding elem
carries_topic db slugs item =
    exists_row
      (λ link.
        eqb link.feed_item_id item.id
        && exists_row (λ t. eqb t.id link.topic_id && elem t.slug slugs) db.topics)
      db.item_topics

-- `selected_source_slugs`, as a set.
unfoldable pub selected_source_slugs : Tables → User → List Text
selected_source_slugs db user =
    map (λ (s : Source). s.slug)
      (select (λ s. exists_row (λ p. eqb p.source_id s.id && eqb p.user_id user.id) db.pref_sources)
        db.sources)

unfoldable pub effective_sources : Tables → User → Option (List Text) → Option (List Text)
unfolding selected_source_slugs
effective_sources db user (some requested) = some requested
effective_sources db user none =
    let selected = selected_source_slugs db user in if is_nil selected then none else some selected

unfoldable pub is_enabled_topic : Topic → Bool
is_enabled_topic t = t.enabled

unfoldable pub is_selected_topic : Tables → User → Topic → Bool
is_selected_topic db user t =
    exists_row (λ p. eqb p.topic_id t.id && eqb p.user_id user.id) db.pref_topics

-- A selection of every enabled topic, like an empty one, narrows nothing.
unfoldable pub effective_topics : Tables → User → Option (List Text) → Option (List Text)
unfolding is_enabled_topic is_selected_topic
effective_topics db user (some requested) = some requested
effective_topics db user none =
    let rows = select is_enabled_topic db.topics in
    let selected = select (is_selected_topic db user) rows in
    if is_nil selected || eqb (length selected) (length rows)
    then none
    else some (map (λ (t : Topic). t.slug) selected)

-- `MAX_SEARCH_TERMS`
abbrev pub max_search_terms : ℕ
max_search_terms = 8

unfoldable pub search_terms : Option Text → List Text
unfolding words_from
search_terms none = []
search_terms (some query) = take max_search_terms (words query)

-- `_text_match`: whether the item's text matches the terms, all of them or any.
abbrev pub TextMatch : Type 0
TextMatch = List Text → Bool → FeedItem → Bool

-- A filter that may be absent.
abbrev pub in_filter : Option (List Text) → (List Text → Bool) → Bool
in_filter none test = true
in_filter (some slugs) test = test slugs
