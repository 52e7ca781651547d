-- ===== src/Feed/Reactions/Listing.antt =====
-- Which bookmarks the query of app/services/bookmarks.py lists, and with which time.
use sre_tab.Common.{
  ℕ, ◌≡◌, refl, sym, ap, ◌∙◌, Bool, true, ◌&&◌, Option, none, some, List, [], ◌∷◌, map,
  if◌then◌else◌, text_eq, nat_eq, arith, inl, inr, Bool-cases, is_some, eqb, eqb_iff, All,
  All-append, All-map, ◌≤◌, select, scalar, exists_row, count_rows,
}
use sre_tab.Cursor.{last_time}
use sre_tab.Pagination.Reading.{Timed}
use sre_tab.Models.{User, Source, FeedItem, Bookmark}
use sre_tab.Feed.Joins.{Tables, FeedRow, join_rows, join_source, bookmark_mark, bookmark_time}
use sre_tab.Feed.Reading.{UniqueIds, passes, is_shown, count_rows-join_rows}
use sre_tab.Feed.Reactions.{is_bookmark_of, is_bookmarked, card_query, saved_at, bookmark_key}

-- The item of that id, with its source.
abbrev pub has_card : ℕ → Tables → FeedItem → Bool
has_card item_id db item =
    eqb item.id item_id && is_some (scalar (λ s. eqb s.id item.source_id) db.sources)

-- The item is there with its source, and the user has a bookmark of it.
abbrev pub is_listed : User → ℕ → Tables → Bool
is_listed user item_id db =
    exists_row (has_card item_id db) db.items
    && exists_row (is_bookmark_of user item_id) db.bookmarks

is_some-bookmark_time :
    (p : Bookmark → Bool) (rows : List Bookmark)
    → is_some (bookmark_time (scalar p rows)) ≡ exists_row p rows
unfolding bookmark_time scalar exists_row
is_some-bookmark_time p [] = refl
is_some-bookmark_time p (row ∷ rows) = ground (arith, is_some-bookmark_time p rows)

marked :
    (db : Tables) (user : User) (item_id : ℕ) (item : FeedItem)
    → item.id ≡ item_id
    → is_some (bookmark_mark db user item) ≡ exists_row (is_bookmark_of user item_id) db.bookmarks
unfolding bookmark_mark is_bookmark_of
marked db user item_id item e = rw (sym e) (is_some-bookmark_time _ db.bookmarks)

-- What the inner join shows of an item.
shown_marked :
    (db : Tables) (user : User) (item_id : ℕ) (item : FeedItem) (found : Option Source)
    → (eqb item.id item_id && passes is_bookmarked db user item found) ≡ (
        eqb item.id item_id
        && is_some found
        && exists_row (is_bookmark_of user item_id) db.bookmarks)
unfolding is_bookmarked
shown_marked db user item_id item none = ground arith
shown_marked db user item_id item (some source) = elim (Bool-cases (eqb item.id item_id)) [
  | inl same ↦ rw same (marked db user item_id item ((eqb_iff item.id item_id).0 same))
  | inr other ↦ rw other refl
]

shown_listed :
    (db : Tables) (user : User) (item_id : ℕ) (items : List FeedItem)
    → exists_row (is_shown is_bookmarked db user item_id) items ≡ (
        exists_row (has_card item_id db) items
        && exists_row (is_bookmark_of user item_id) db.bookmarks)
unfolding exists_row
shown_listed db user item_id [] = refl
shown_listed db user item_id (item ∷ items) = ground (
  arith,
  shown_marked db user item_id item (scalar (λ s. eqb s.id item.source_id) db.sources),
  shown_listed db user item_id items,
)

module _ (db : Tables) (user : User) where
  -- A row of the joins has the time of the user's bookmark.
  join_rows-mark :
      (items : List FeedItem)
      → All (λ row. row.bookmarked_at ≡ bookmark_mark db user row.item) (join_rows db user items)
  unfolding join_rows
  join_rows-mark [] = tt
  join_rows-mark (item ∷ items) =
      All-append _ (join_source db user item _) (join_rows db user items)
        (one (scalar (λ s. eqb s.id item.source_id) db.sources)) (join_rows-mark items)
    where
      one :
          (found : Option Source)
          → All
              (λ row. row.bookmarked_at ≡ bookmark_mark db user row.item)
              (join_source db user item found)
      one none = unfold join_source in tt
      one (some source) = unfold join_source in (refl, tt)

-- A listed row tells the time of the bookmark.
saved_times :
    (mark : FeedItem → Option ℕ) (rows : List FeedRow)
    → All (λ row. row.bookmarked_at ≡ mark row.item) rows
    → All (λ row. mark row.item ≡ some (saved_at row)) (select is_bookmarked rows)
unfolding select is_bookmarked saved_at
saved_times mark [] h = tt
saved_times mark (row ∷ rows) (h, hs) = elim (Bool-cases (is_some row.bookmarked_at)) [
  | inl hit ↦ rw hit (sym h ∙ known row.bookmarked_at hit, saved_times mark rows hs)
  | inr miss ↦ rw miss (saved_times mark rows hs)
]
  where
    known : (at : Option ℕ) → is_some at ≡ true → at ≡ some (elim at [ none ↦ 0 | some t ↦ t ])
    known none k = absurd (ground (arith, k))
    known (some t) k = refl

bookmark_time-le :
    (p : Bookmark → Bool) (rows : List Bookmark) (at last : ℕ)
    → All (λ b. b.created_at ≤ last) rows
    → bookmark_time (scalar p rows) ≡ some at
    → at ≤ last
unfolding bookmark_time scalar
bookmark_time-le p [] at last h e = absurd (ground (arith, e))
bookmark_time-le p (row ∷ rows) at last (h, hs) e =
    ground (arith, h, e, bookmark_time-le p rows at last hs)

-- The time that a listed bookmark has is that of the user's bookmark of the item.
abbrev pub HasSavedTime : User → Tables → ℕ → ℕ → Type 0
HasSavedTime user db item_id at =
    bookmark_time (scalar (is_bookmark_of user item_id) db.bookmarks) ≡ some at

pub card_query-HasSavedTime :
    (user : User) (db : Tables)
    → All (λ row. HasSavedTime user db row.item.id (saved_at row)) (card_query user db)
unfolding card_query bookmark_mark is_bookmark_of
card_query-HasSavedTime user db =
    saved_times (bookmark_mark db user) (join_rows db user db.items)
      (join_rows-mark db user db.items)

pub card_query-Timed :
    (user : User) (db : Tables)
    → All (λ b. b.created_at ≤ last_time) db.bookmarks
    → Timed bookmark_key (card_query user db)
card_query-Timed user db h =
    All-map _ _
      (λ row k.
        bookmark_time-le (is_bookmark_of user row.item.id) db.bookmarks (saved_at row) last_time h
          k)
      (card_query user db) (card_query-HasSavedTime user db)

pub count_rows-card_query :
    (user : User) (db : Tables) (item_id : ℕ)
    → UniqueIds db.items
    → count_rows (λ row. eqb row.item.id item_id) (card_query user db)
      ≡ (if is_listed user item_id db then 1 else 0)
unfolding card_query
count_rows-card_query user db item_id unique =
    count_rows-join_rows is_bookmarked db user item_id db.items unique
    ∙ ap (λ b. if b then 1 else 0) (shown_listed db user item_id db.items)

pub All-mapped :
    {A B : Type 0} (P : B → Type 0) (f : A → B) (xs : List A)
    → All (λ x. P (f x)) xs
    → All P (map f xs)
All-mapped P f [] h = tt
All-mapped P f (x ∷ xs) (h, hs) = (h, All-mapped P f xs hs)
