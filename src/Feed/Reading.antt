-- ===== src/Feed/Reading.antt =====
-- Reading the feed of app/services/feed.py from its first page to its last.
use sre_tab.Common.{
  ℕ, ◌+◌, suc, ◌&&◌, false, subst, eqb_iff, exists_row, count_rows, refl, arith, if◌then◌else◌, ◌≤◌,
  ◌<◌, ◌≡◌, ◌≢◌, ap, Bool, Option, none, some, List, [], ◌∷◌, ◌++◌, map, text_eq, nat_eq, inl, inr,
  Bool-cases, eqb, length, All, All-append, All-map, All-select, select, scalar, sort_by,
  count_rows-sort_by, ◌∙◌,
}
use sre_tab.Models.{User, Source, FeedItem}
use sre_tab.Cursor.{Position, last_time}
use sre_tab.Pagination.{newest_first, read_all}
use sre_tab.Pagination.Keyset.{DistinctKeys}
use sre_tab.Pagination.Reading.{Timed, read_all_complete}
use sre_tab.Feed.Joins.{
  Tables, FeedRow, join_rows, join_source, read_mark, bookmark_mark, TextMatch, read_mark,
  bookmark_mark,
}
use sre_tab.Feed.Page.{
  FeedQuery, feed_key, feed_rows, apply_filters, FeedItemOut, card, build_item_out, get_feed_page,
}

-- The primary key of `feed_items`.
abbrev pub UniqueIds : List FeedItem → Type 0
UniqueIds [] = Unit
UniqueIds (item ∷ items) = All (λ other. item.id ≢ other.id) items × UniqueIds items

All-join_rows :
    (db : Tables) (user : User) (P : FeedItem → Type 0) (items : List FeedItem)
    → All P items
    → All (λ row. P row.item) (join_rows db user items)
unfolding join_rows
All-join_rows db user P [] h = tt
All-join_rows db user P (item ∷ items) h =
    All-append (λ row. P row.item)
      (join_source db user item (scalar (λ s. eqb s.id item.source_id) db.sources))
      (join_rows db user items) (one (scalar (λ s. eqb s.id item.source_id) db.sources))
      (All-join_rows db user P items h.1)
  where
    one : (found : Option Source) → All (λ row. P row.item) (join_source db user item found)
    one none = tt
    one (some source) = (h.0, tt)

-- Rows of different items have different keys, whatever timestamp a key starts with.
module _ (timestamp : FeedRow → ℕ) where
  abbrev keyed : FeedRow → Position
  keyed row = (timestamp row, row.item.id)

  join_source-DistinctKeys :
      (db : Tables) (user : User) (item : FeedItem) (found : Option Source) (rows : List FeedRow)
      → All (λ row. item.id ≢ row.item.id) rows
      → DistinctKeys keyed rows
      → DistinctKeys keyed (join_source db user item found ++ rows)
  unfolding join_source
  join_source-DistinctKeys db user item none rows h d = d
  join_source-DistinctKeys db user item (some source) rows h d = (
    All-map _
        (λ row.
          keyed (record {
            item = item;
            source = source;
            status = scalar (λ s. eqb s.source_id source.id) db.statuses;
            read_at = read_mark db user item;
            bookmarked_at = bookmark_mark db user item;
          })
          ≢ keyed row)
        (λ row ne e. ne (ap (λ (p : Position). p.1) e)) rows h,
    d,
  )

  pub join_rows-DistinctKeys :
      (db : Tables) (user : User) (items : List FeedItem)
      → UniqueIds items
      → DistinctKeys keyed (join_rows db user items)
  unfolding join_rows
  join_rows-DistinctKeys db user [] u = tt
  join_rows-DistinctKeys db user (item ∷ items) u =
      join_source-DistinctKeys db user item _ (join_rows db user items)
        (All-join_rows db user (λ other. item.id ≢ other.id) items u.0)
        (join_rows-DistinctKeys db user items u.1)

pub select-DistinctKeys :
    {A : Type 0} (key : A → Position) (q : A → Bool) (rows : List A)
    → DistinctKeys key rows
    → DistinctKeys key (select q rows)
unfolding select
select-DistinctKeys key q [] d = tt
select-DistinctKeys key q (row ∷ rows) d = elim (Bool-cases (q row)) [
  | inl hit ↦ rw hit (All-select _ q rows d.0, select-DistinctKeys key q rows d.1)
  | inr miss ↦ rw miss (select-DistinctKeys key q rows d.1)
]

pub Timed-join_rows :
    (db : Tables) (user : User) (items : List FeedItem)
    → All (λ item. item.published_at ≤ last_time) items
    → Timed feed_key (join_rows db user items)
Timed-join_rows db user items h =
    All-join_rows db user (λ item. item.published_at ≤ last_time) items h

pub count_rows-map :
    {A B : Type 0} (p : B → Bool) (f : A → B) (xs : List A)
    → count_rows p (map f xs) ≡ count_rows (λ x. p (f x)) xs
unfolding count_rows
count_rows-map p f [] = refl
count_rows-map p f (x ∷ xs) = ground (arith, count_rows-map p f xs)

-- The row of an item and its source passes the test; an item whose source is not stored has none.
abbrev pub passes : (FeedRow → Bool) → Tables → User → FeedItem → Option Source → Bool
passes test db user item none = false
passes test db user item (some source) = test (record {
  item = item;
  source = source;
  status = scalar (λ s. eqb s.source_id source.id) db.statuses;
  read_at = read_mark db user item;
  bookmarked_at = bookmark_mark db user item;
})

-- The item has that id, and its row passes the test.
abbrev pub is_shown : (FeedRow → Bool) → Tables → User → ℕ → FeedItem → Bool
is_shown test db user item_id item =
    eqb item.id item_id
    && passes test db user item (scalar (λ s. eqb s.id item.source_id) db.sources)

module _ (test : FeedRow → Bool) (db : Tables) (user : User) (item_id : ℕ) where
  -- One more item counts at most once.
  count_rows-join_source :
      (item : FeedItem) (found : Option Source) (rest : List FeedRow)
      → count_rows
          (λ row. eqb row.item.id item_id)
          (select test (join_source db user item found ++ rest))
        ≡ (if eqb item.id item_id && passes test db user item found then 1 else 0)
          + count_rows (λ row. eqb row.item.id item_id) (select test rest)
  unfolding join_source select count_rows
  count_rows-join_source item none rest = ground arith
  count_rows-join_source item (some source) rest = ground arith

  not_shown :
      (items : List FeedItem)
      → All (λ other. item_id ≢ other.id) items
      → exists_row (is_shown test db user item_id) items ≡ false
  unfolding exists_row
  not_shown [] h = refl
  not_shown (item ∷ items) (h, hs) = ground (arith, h, not_shown items hs)

  -- An item has one row among those that pass, or none.
  pub count_rows-join_rows :
      (items : List FeedItem)
      → UniqueIds items
      → count_rows (λ row. eqb row.item.id item_id) (select test (join_rows db user items))
        ≡ (if exists_row (is_shown test db user item_id) items then 1 else 0)
  unfolding join_rows exists_row
  count_rows-join_rows [] u = unfold select count_rows in refl
  count_rows-join_rows (item ∷ items) (fresh, u) =
      let found = scalar (λ (s : Source). eqb s.id item.source_id) db.sources in
      let rest = join_rows db user items in
      elim (Bool-cases (eqb item.id item_id)) [
        | inl same ↦
            let e : item.id ≡ item_id = (eqb_iff item.id item_id).0 same in
            ground (
              arith,
              count_rows-join_source item found rest,
              count_rows-join_rows items u,
              not_shown items
                  (subst (λ id. All (λ (other : FeedItem). id ≢ other.id) items) e fresh),
              same,
            )
        | inr other ↦
            ground
              (arith, count_rows-join_source item found rest, count_rows-join_rows items u, other)
      ]

-- With unique item ids, publication times that a `datetime` holds, and pages of at least one row, a
-- client that follows `next_cursor` gets a list of cards, newest first, whatever the page size and
-- however many items share a timestamp. An item is in it once if its source is stored and the item
-- passes the filters, and else not at all.
pub read_all-get_feed_page :
    (matches : TextMatch) (db : Tables) (user : User) (q : FeedQuery) (limit : ℕ)
    → 0 < limit
    → UniqueIds db.items
    → All (λ item. item.published_at ≤ last_time) db.items
    → let rows = sort_by (newest_first feed_key) (feed_rows matches db user q) in
      let cards = map (card db) rows in
      (read_all (λ cursor. get_feed_page matches db user q cursor limit) (suc (length rows)) none
        ≡ some cards)
      × ((item_id : ℕ)
          → count_rows (λ shown. eqb shown.id item_id) cards ≡ (
              if exists_row (is_shown (apply_filters matches db user q) db user item_id) db.items
              then 1
              else 0))
unfolding get_feed_page feed_rows
read_all-get_feed_page matches db user q limit positive unique timed = (
  read_all_complete feed_key (card db) limit (feed_rows matches db user q) positive
      (select-DistinctKeys feed_key _ (join_rows db user db.items)
        (join_rows-DistinctKeys (λ row. row.item.published_at) db user db.items unique))
      (All-select _ _ _ (Timed-join_rows db user db.items timed)),
  λ item_id.
      count_rows-map (λ (shown : FeedItemOut). eqb shown.id item_id) (card db)
        (sort_by (newest_first feed_key) (feed_rows matches db user q))
      ∙ unfold card build_item_out in
        count_rows-sort_by (newest_first feed_key) (λ row. eqb row.item.id item_id)
          (feed_rows matches db user q)
        ∙ count_rows-join_rows (apply_filters matches db user q) db user item_id db.items unique,
)
