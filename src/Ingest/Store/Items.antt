-- ===== src/Ingest/Store/Items.antt =====
-- What a refresh of app/ingest/store.py stores, and what it leaves as it was.
use sre_tab.Common.{
  ℕ, suc, ◌≡◌, refl, ◌∙◌, Bool, true, Option, none, some, List, [], ◌∷◌, ◌++◌, map, map-append,
  Text, ◌==◌, text_eq, length, All, eq_refl, eq_of_true, ◌||◌, scalar-insert_ignore_same, select,
  scalar, scalar-insert_ignore_known, inl, inr, Bool-cases, arith,
}
use sre_tab.Models.{FeedItem}
use sre_tab.Ingest.Store.{
  ItemStore, NormalisedItem, chunks, member, rows_in, stored_among, insert_items, new_rows,
  upsert_items,
}

abbrev pub has_url : Text → FeedItem → Bool
has_url url item = item.canonical_url == url

-- An item with that URL is stored.
abbrev pub Stored : Text → List FeedItem → Type 0
Stored url items = (row : FeedItem) × (scalar (has_url url) items ≡ some row)

insert_items-known :
    (url : Text) (rows items : List FeedItem) (next : ℕ) {row : FeedItem}
    → scalar (has_url url) items ≡ some row
    → scalar (has_url url) (insert_items rows (items, next)).0 ≡ some row
unfolding insert_items
insert_items-known url [] items next h = h
insert_items-known url (new ∷ rows) items next h = insert_items-known url rows _ (suc next) (
    scalar-insert_ignore_known (has_url url) (has_url new.canonical_url) (record new { id = next })
      items h)

insert_items-Stored :
    (rows items : List FeedItem) (next : ℕ)
    → All (λ row. Stored row.canonical_url (insert_items rows (items, next)).0) rows
unfolding insert_items
insert_items-Stored [] items next = tt
insert_items-Stored (new ∷ rows) items next = (
  (
    merged_old (scalar (has_url new.canonical_url) items),
    insert_items-known new.canonical_url rows _ (suc next) (
        scalar-insert_ignore_same (has_url new.canonical_url) (record new { id = next }) items
          (eq_refl new.canonical_url)
        ∙ found (scalar (has_url new.canonical_url) items)),
  ),
  insert_items-Stored rows _ (suc next),
)
  where
    merged_old : Option FeedItem → FeedItem
    merged_old none = record new { id = next }
    merged_old (some old) = old

    found :
        (old : Option FeedItem)
        → elim old [ none ↦ some (record new { id = next }) | some x ↦ some x ]
          ≡ some (merged_old old)
    found none = refl
    found (some old) = refl

head-Stored :
    (url : Text) (item : FeedItem) (items : List FeedItem)
    → (url == item.canonical_url) ≡ true
    → Stored url (item ∷ items)
unfolding scalar
head-Stored url item items same =
    (item, rw (eq_of_true url item.canonical_url same, eq_refl item.canonical_url) refl)

tail-Stored :
    (url : Text) (item : FeedItem) (items : List FeedItem)
    → Stored url items
    → Stored url (item ∷ items)
unfolding scalar
tail-Stored url item items (row, e) = elim (Bool-cases (item.canonical_url == url)) [
  | inl same ↦ (item, rw same refl)
  | inr other ↦ (row, rw other e)
]

member-select :
    (url : Text) (q : FeedItem → Bool) (items : List FeedItem)
    → member url (map (λ (i : FeedItem). i.canonical_url) (select q items)) ≡ true
    → Stored url items
unfolding member select
member-select url q [] h = absurd (ground arith)
member-select url q (item ∷ items) h = elim (Bool-cases (url == item.canonical_url)) [
  | inl same ↦ head-Stored url item items same
  | inr other ↦ tail-Stored url item items (member-select url q items (ground (arith, other, h)))
]

member-append :
    (url : Text) (xs ys : List Text) → member url (xs ++ ys) ≡ (member url xs || member url ys)
unfolding member
member-append url [] ys = refl
member-append url (x ∷ xs) ys = ground (arith, member-append url xs ys)

-- What the lookup by chunks reports as existing is stored.
member-rows_in :
    (url : Text) (chunked : List (List Text)) (items : List FeedItem)
    → member url (map (λ (i : FeedItem). i.canonical_url) (rows_in chunked items)) ≡ true
    → Stored url items
unfolding rows_in
member-rows_in url [] items h = absurd (unfold member in ground arith)
member-rows_in url (chunk ∷ rest) items h =
    let here : List FeedItem = select (λ i. member i.canonical_url chunk) items in
    elim (Bool-cases (member url (map (λ (i : FeedItem). i.canonical_url) here))) [
      | inl found ↦ member-select url (λ i. member i.canonical_url chunk) items found
      | inr absent ↦ member-rows_in url rest items (
          ground (
            arith,
            h,
            absent,
            map-append (λ (i : FeedItem). i.canonical_url) here (rows_in rest items),
            member-append url (map (λ (i : FeedItem). i.canonical_url) here)
                (map (λ (i : FeedItem). i.canonical_url) (rows_in rest items)),
          ))
    ]

-- What holds of every new row holds of every item whose URL did not exist.
new_rows-All :
    (P : Text → Type 0) (detect_language : Text → Option Text → Option Text)
    (source_id fetched_at : ℕ) (existing : List Text) (items : List NormalisedItem)
    → All
        (λ row. P row.canonical_url)
        (new_rows detect_language source_id fetched_at existing items)
    → ((url : Text) → member url existing ≡ true → P url)
    → All (λ item. P item.canonical_url) items
unfolding new_rows select
new_rows-All P detect_language source_id fetched_at existing [] h k = tt
new_rows-All P detect_language source_id fetched_at existing (item ∷ items) h k =
    elim (Bool-cases (member item.canonical_url existing)) [
      | inl old ↦ (
        k item.canonical_url old,
        new_rows-All P detect_language source_id fetched_at existing items (rw old at h) k,
      )
      | inr new ↦
          let h' : P item.canonical_url
              × All (λ row. P row.canonical_url)
                  (new_rows detect_language source_id fetched_at existing items) =
            rw new at h in
          (h'.0, new_rows-All P detect_language source_id fetched_at existing items h'.1 k)
    ]

-- After a refresh every item of its batch is stored, and an item that was stored before is as it
-- was, whatever the batch says of its URL.
pub upsert_items-Stored :
    (detect_language : Text → Option Text → Option Text) (topics_for_url : Text → List Text)
    (source_id : ℕ) (items : List NormalisedItem) (topic_ids : List ℕ) (fetched_at : ℕ)
    (store : ItemStore)
    → let after =
        (upsert_items detect_language topics_for_url source_id items topic_ids fetched_at
          store).0 in
      All (λ item. Stored item.canonical_url after.items) items
      × ((url : Text) (row : FeedItem)
          → scalar (has_url url) store.items ≡ some row
          → scalar (has_url url) after.items ≡ some row)
unfolding upsert_items
upsert_items-Stored detect_language topics_for_url source_id [] topic_ids fetched_at store =
    (tt, λ url row h. h)
upsert_items-Stored detect_language topics_for_url source_id (item ∷ items) topic_ids fetched_at
      store =
    let batch : List NormalisedItem = item ∷ items in
    let urls : List Text = map (λ (i : NormalisedItem). i.canonical_url) batch in
    let existing : List Text =
      map (λ (i : FeedItem). i.canonical_url) (stored_among urls store.items) in
    let rows : List FeedItem = new_rows detect_language source_id fetched_at existing batch in
    let after : List FeedItem = (insert_items rows (store.items, store.next_id)).0 in
    (
      new_rows-All (λ url. Stored url after) detect_language source_id fetched_at existing batch
          (insert_items-Stored rows store.items store.next_id)
          (λ url found.
            let (row, e) : Stored url store.items =
              unfold stored_among in
              member-rows_in url (chunks (length urls) urls) store.items found in
            (row, insert_items-known url rows store.items store.next_id e)),
      λ url row h. insert_items-known url rows store.items store.next_id h,
    )
