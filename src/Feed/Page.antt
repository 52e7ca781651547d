-- ===== src/Feed/Page.antt =====
-- `get_feed_page` of app/services/feed.py: the filters and one page.
use sre_tab.Common.{
  ℕ, Bool, true, false, not, ◌&&◌, ◌||◌, Option, none, some, List, map, if◌then◌else◌, Text, ◌==◌,
  text_eq, nat_eq, is_some, is_nil, eqb, select, exists_row, sort_by, text_before,
}
use sre_tab.Models.{
  User, Source, SourceStatus, FeedItem, Topic, MuteKind, UserMutedTerm, mute_kind_eq, word, tag,
}
use sre_tab.Cursor.{Position}
use sre_tab.Pagination.{Page, keyset_page}
use sre_tab.Feed.Joins.{
  Tables, ReadFilter, all, unread, read, FeedRow, join_rows, elem, carries_topic, effective_sources,
  effective_topics, search_terms, TextMatch, in_filter,
}
use sre_tab.Feed.UrlMute.{url_muted}

unfoldable pub read_filter : ReadFilter → FeedRow → Bool
read_filter all row = true
read_filter unread row = not (is_some row.read_at)
read_filter read row = is_some row.read_at

unfoldable pub search_predicate : TextMatch → Option Text → FeedItem → Bool
unfolding search_terms
search_predicate matches query item =
    let terms = search_terms query in if is_nil terms then true else matches terms true item

-- The user's muted terms of a kind. The source sorts the words; the match does not depend on it.
unfoldable pub muted_of : User → MuteKind → List UserMutedTerm → List Text
muted_of user kind muted =
    map (λ (m : UserMutedTerm). m.term)
      (select (λ m. eqb m.user_id user.id && mute_kind_eq m.kind kind) muted)

unfoldable pub mute_predicates : TextMatch → Tables → User → FeedItem → Bool
unfolding muted_of
mute_predicates matches db user item =
    let mute_words = muted_of user word db.muted in
    let mute_tags = muted_of user tag db.muted in
    (if is_nil mute_words then true else not (matches mute_words false item))
    && (if is_nil mute_tags then true else not (carries_topic db mute_tags item))
    && not (url_muted user db.muted item)

unfoldable pub reads_language : Tables → User → Text → Bool
reads_language db user code =
    exists_row (λ p. eqb p.user_id user.id && p.language == code) db.pref_languages

-- An item with no language passes, and so does every item for a reader who has chosen none.
unfoldable pub language_predicate : Tables → User → Option Text → Bool
unfolding reads_language
language_predicate db user none = true
language_predicate db user (some code) =
    not (exists_row (λ p. eqb p.user_id user.id) db.pref_languages) || reads_language db user code

-- The query parameters of the route.
pub record FeedQuery : Type 0 where
  pub topics : Option (List Text)
  pub sources : Option (List Text)
  pub read_state : ReadFilter
  pub query : Option Text

-- The whole `WHERE` without the cursor: `_base_query` and `_apply_filters`.
unfoldable pub apply_filters : TextMatch → Tables → User → FeedQuery → FeedRow → Bool
apply_filters matches db user q row =
    row.source.enabled
    && read_filter q.read_state row
    && in_filter (effective_sources db user q.sources) (elem row.source.slug)
    && search_predicate matches q.query row.item
    && mute_predicates matches db user row.item
    && language_predicate db user row.item.language
    && in_filter (effective_topics db user q.topics) (λ slugs. carries_topic db slugs row.item)

abbrev pub feed_key : FeedRow → Position
feed_key row = (row.item.published_at, row.item.id)

-- The rows of the feed, in no particular order.
unfoldable pub feed_rows : TextMatch → Tables → User → FeedQuery → List FeedRow
unfolding join_rows apply_filters
feed_rows matches db user q = select (apply_filters matches db user q) (join_rows db user db.items)

-- `FeedItemOut`, with `FeedSourceRef` in place.
pub record FeedItemOut : Type 0 where
  pub id : ℕ
  pub canonical_url : Text
  pub title : Text
  pub summary : Option Text
  pub image_url : Option Text
  pub published_at : ℕ
  pub source_slug : Text
  pub source_name : Text
  pub source_icon_url : Option Text
  pub topics : List Text
  pub language : Option Text
  pub is_read : Bool
  pub bookmarked : Bool

-- `source.icon_url or …`: an empty text counts as missing.
unfoldable pub source_icon : Source → Option SourceStatus → Option Text
source_icon source status =
    let discovered : Option Text = elim status [ none ↦ none | some s ↦ s.discovered_icon_url ] in
    elim source.icon_url [
      | none ↦ discovered
      | some icon ↦ if is_nil icon then discovered else some icon
    ]

unfoldable pub item_topics : Tables → FeedItem → List Text
item_topics db item = sort_by text_before (
    map (λ (t : Topic). t.slug)
      (select
        (λ t.
          exists_row (λ link. eqb link.feed_item_id item.id && eqb link.topic_id t.id)
            db.item_topics)
        db.topics))

unfoldable pub build_item_out :
    Tables → FeedItem → Source → Option SourceStatus → Bool → Bool → FeedItemOut
unfolding source_icon item_topics
build_item_out db item source status is_read bookmarked = record {
  id = item.id;
  canonical_url = item.canonical_url;
  title = item.title;
  summary = item.summary;
  image_url = item.image_url;
  published_at = item.published_at;
  source_slug = source.slug;
  source_name = source.name;
  source_icon_url = source_icon source status;
  topics = item_topics db item;
  language = item.language;
  is_read = is_read;
  bookmarked = bookmarked;
}

unfoldable pub card : Tables → FeedRow → FeedItemOut
unfolding build_item_out
card db row =
    build_item_out db row.item row.source row.status (is_some row.read_at)
      (is_some row.bookmarked_at)

-- `none` is the `InvalidCursorError` that the route answers with 400.
unfoldable pub get_feed_page :
    TextMatch → Tables → User → FeedQuery → Option Text → ℕ → Option (Page FeedItemOut)
get_feed_page matches db user q cursor limit =
    keyset_page feed_key (card db) limit (feed_rows matches db user q) cursor
