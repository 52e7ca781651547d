-- ===== src/Tests/FeedTests.antt =====
-- app/services/feed.py and app/services/pagination.py at concrete rows.
use sre_tab.Common.{
  exists_row, ◌+◌, not, All, count_rows, text_beq, rstrip_padding, urlsafe_b64encode, ℕ, suc, ◌≡◌,
  ◌↔◌, refl, List, [], ◌∷◌, ◌++◌, map, true, false, none, some, arith, sort_by, insert_by, select,
  scalar, is_some, eqb, ◌&&◌, if◌then◌else◌, length, Text, codes,
}
use sre_tab.Models.{User, FeedItem}
use sre_tab.Cursor.{Position, encode_cursor, decode_cursor, epoch}
use sre_tab.Pagination.{below, newest_first, after_cursor, last?, key_of, page_of, walk, read_all}
use sre_tab.Feed.Joins.{Tables, all, TextMatch, read_mark, bookmark_mark}
use sre_tab.Feed.UrlMute.{term_matches, Continues, term_matches_iff}
use sre_tab.Feed.Page.{FeedQuery, feed_key, feed_rows, apply_filters, card, get_feed_page}
use sre_tab.Feed.Reading.{UniqueIds, is_shown, read_all-get_feed_page}
use sre_tab.Feed.Reactions.{
  remove_bookmark, done, and_then, has_item, ReadStateOut, set_read_state, card_query, bookmark_out,
  bookmark_key, list_bookmarks,
}
use sre_tab.Feed.Reactions.Laws.{is_not_found, set_read_state_twice, read_mark-set_read_state}
use sre_tab.Feed.Reactions.Listing.{is_listed, HasSavedTime}
use sre_tab.Feed.Reactions.Saved.{read_all-list_bookmarks, bookmark_mark-remove_bookmark}

program : Unit {0}
unfolding sort_by insert_by select below newest_first after_cursor last? key_of page_of walk
program = tt

abbrev rows : List Position
rows = (5, 1) ∷ (7, 2) ∷ (7, 3) ∷ (1, 4) ∷ (6, 5) ∷ []

abbrev position : Position → Position
position p = p

-- Two rows of one timestamp on the border of a page of one.
pages_of_one : walk position 6 1 none rows ≡ (7, 3) ∷ (7, 2) ∷ (6, 5) ∷ (5, 1) ∷ (1, 4) ∷ []
unfolding program
pages_of_one = refl

-- The cursor of one microsecond past the epoch and the row 7, and what it decodes to.
cursor_of_row : encode_cursor (epoch + 1, 7) ≡ codes "MToxOjc"
unfolding encode_cursor rstrip_padding urlsafe_b64encode
cursor_of_row = refl

position_of_cursor : decode_cursor (codes "MToxOjc") ≡ some (epoch + 1, 7)
unfolding decode_cursor text_beq
position_of_cursor = refl

-- Another version, a part too few, and a time past the last of a `datetime`.
other_version : decode_cursor (rstrip_padding (urlsafe_b64encode (codes "2:1:7"))) ≡ none
unfolding decode_cursor rstrip_padding urlsafe_b64encode text_beq
other_version = refl

two_parts : decode_cursor (rstrip_padding (urlsafe_b64encode (codes "1:7"))) ≡ none
unfolding decode_cursor rstrip_padding urlsafe_b64encode text_beq
two_parts = refl

late_time :
    decode_cursor (rstrip_padding (urlsafe_b64encode (codes "1:253402300800000000:7"))) ≡ none
unfolding decode_cursor rstrip_padding urlsafe_b64encode text_beq
late_time = refl

abbrev reader : User
reader = record {
  id = 1;
  github_id = 501;
  github_login = codes "alice";
  display_name = none;
  avatar_url = none;
}

abbrev item : ℕ → ℕ → FeedItem
item id at = record {
  id = id;
  source_id = 3;
  canonical_url = codes "https://example.com/a";
  title = codes "a";
  summary = none;
  published_at = at;
  image_url = none;
  fetched_at = 900;
  language = none;
}

abbrev tables : Tables
tables = record {
  sources =
      record {
        id = 3;
        slug = codes "s";
        name = codes "S";
        feed_url = codes "https://example.com/feed";
        website_url = codes "https://example.com";
        icon_url = none;
        refresh_minutes = 30;
        enabled = true;
      }
      ∷ [];
  statuses = [];
  topics = [];
  items = item 1 50 ∷ item 2 70 ∷ item 3 70 ∷ [];
  item_topics = [];
  reads = [];
  bookmarks = [];
  muted = [];
  pref_topics = [];
  pref_sources = [];
  pref_languages = [];
}

abbrev everything : FeedQuery
everything = record { topics = none; sources = none; read_state = all; query = none }

abbrev no_match : TextMatch
no_match terms every item = false

unique_items : UniqueIds tables.items
unique_items = (
  ((λ e. absurd (omega (arith, e))), ((λ e. absurd (omega (arith, e))), tt)),
  (((λ e. absurd (omega (arith, e))), tt), (tt, tt)),
)

read_all-get_feed_page_example :
    let rows = sort_by (newest_first feed_key) (feed_rows no_match tables reader everything) in
    let cards = map (card tables) rows in
    (read_all
        (λ cursor. get_feed_page no_match tables reader everything cursor 1)
        (suc (length rows))
        none
      ≡ some cards)
    × ((item_id : ℕ)
        → count_rows (λ shown. eqb shown.id item_id) cards ≡ (
            if exists_row
              (is_shown (apply_filters no_match tables reader everything) tables reader item_id)
              tables.items
            then 1
            else 0))
read_all-get_feed_page_example =
    read_all-get_feed_page no_match tables reader everything 1 (omega arith) unique_items
      (omega arith, (omega arith, (omega arith, tt)))

term_matches_iff_example :
    (term_matches (codes "a.com/x") (some (codes "a.com/x/y")) ≡ true)
    ↔ ((rest : Text) × (codes "a.com/x/y" ≡ codes "a.com/x" ++ rest) × Continues rest)
term_matches_iff_example = term_matches_iff (codes "a.com/x") (codes "a.com/x/y")

set_read_state_twice_example :
    (is_not_found (set_read_state reader 2 true 100 tables) ≡ not (has_item 2 tables))
    × (and_then
          (set_read_state reader 2 true 100 tables)
          (λ (after, out). set_read_state reader 2 true 200 after)
        ≡ set_read_state reader 2 true 100 tables)
set_read_state_twice_example = set_read_state_twice reader 2 100 200 true tables

read_mark-set_read_state_example :
    (after : Tables) × (out : ReadStateOut) × (set_read_state reader 2 true 100 tables
      ≡ done (after, out))
    × (is_some out.read_at ≡ true)
    × ((other : User) (card : FeedItem)
        → read_mark after other card
          ≡ (if eqb card.id 2 && eqb other.id 1 then out.read_at else read_mark tables other card))
read_mark-set_read_state_example =
    read_mark-set_read_state reader 2 100 true tables (unfold has_item scalar in refl)

abbrev with_bookmarks : Tables
with_bookmarks = record tables {
  bookmarks =
      record { user_id = 1; feed_item_id = 3; created_at = 400 }
      ∷ record { user_id = 1; feed_item_id = 1; created_at = 500 }
      ∷ record { user_id = 2; feed_item_id = 2; created_at = 450 }
      ∷ [];
}

read_all-list_bookmarks_example :
    let rows = sort_by (newest_first bookmark_key) (card_query reader with_bookmarks) in
    let listed = map (bookmark_out with_bookmarks) rows in
    (read_all (λ cursor. list_bookmarks reader with_bookmarks cursor 1) (suc (length rows)) none
      ≡ some listed)
    × ((item_id : ℕ)
        → count_rows (λ b. eqb b.item.id item_id) listed
          ≡ (if is_listed reader item_id with_bookmarks then 1 else 0))
    × All (λ b. HasSavedTime reader with_bookmarks b.item.id b.created_at) listed
read_all-list_bookmarks_example =
    read_all-list_bookmarks reader with_bookmarks 1 (omega arith) unique_items
      (omega arith, (omega arith, (omega arith, tt)))

bookmark_mark-remove_bookmark_example :
    (after : Tables) × (remove_bookmark reader 3 with_bookmarks ≡ done after)
    × ((other : User) (card : FeedItem)
        → bookmark_mark after other card ≡ (
            if eqb card.id 3 && eqb other.id 1
            then none
            else bookmark_mark with_bookmarks other card))
bookmark_mark-remove_bookmark_example =
    bookmark_mark-remove_bookmark reader 3 with_bookmarks (unfold has_item scalar in refl)
