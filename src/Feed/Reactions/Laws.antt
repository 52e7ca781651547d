-- ===== src/Feed/Reactions/Laws.antt =====
-- What the reactions of app/services/read_state.py and app/services/bookmarks.py leave behind.
use sre_tab.Common.{
  ℕ, ◌≡◌, refl, ap, ◌∙◌, Bool, true, false, not, ◌&&◌, Option, none, some, List, if◌then◌else◌,
  text_eq, nat_eq, arith, inl, inr, Bool-cases, is_some, eqb, scalar-insert_ignore_same,
  scalar-insert_ignore_other, insert_ignore_twice, scalar-delete_rows-none, delete_rows_twice,
  scalar, scalar-delete_rows,
}
use sre_tab.Models.{User, FeedItem, UserReadItem}
use sre_tab.Feed.Joins.{Tables, read_mark, read_time}
use sre_tab.Feed.Reactions.{
  Outcome, item_not_found, no_row_found, done, has_item, is_read_of, ReadStateOut, stored_read_at,
  write_read_state, and_then, set_read_state,
}

write_read_state_twice :
    (user : User) (item_id now later : ℕ) (is_read : Bool) (reads : List UserReadItem)
    → write_read_state user item_id is_read later
        (write_read_state user item_id is_read now reads).0
      ≡ write_read_state user item_id is_read now reads
unfolding write_read_state
write_read_state_twice user item_id now later true reads =
    ap (λ rows. (rows, stored_read_at user item_id rows))
      (insert_ignore_twice (is_read_of user item_id) _ _ reads (unfold is_read_of in ground arith))
write_read_state_twice user item_id now later false reads =
    ap (λ rows. (rows, none)) (delete_rows_twice (is_read_of user item_id) reads)

abbrev outcome : Tables → ℕ → Bool → List UserReadItem × Option ℕ → Outcome (Tables × ReadStateOut)
outcome db item_id is_read written = done (
  record db { reads = written.0 },
  record { item_id = item_id; read = is_read; read_at = written.1 },
)

set_read_state_done :
    (user : User) (item_id now : ℕ) (is_read : Bool) (db : Tables)
    → has_item item_id db ≡ true
    → set_read_state user item_id is_read now db
      ≡ outcome db item_id is_read (write_read_state user item_id is_read now db.reads)
unfolding set_read_state
set_read_state_done user item_id now is_read db known = rw known refl

-- The call gets the 404.
abbrev pub is_not_found : {A : Type 0} → Outcome A → Bool
is_not_found item_not_found = true
is_not_found no_row_found = false
is_not_found (done a) = false

set_read_state_refused :
    (user : User) (item_id now : ℕ) (is_read : Bool) (db : Tables)
    → is_not_found (set_read_state user item_id is_read now db) ≡ not (has_item item_id db)
unfolding set_read_state
set_read_state_refused user item_id now is_read db = elim (Bool-cases (has_item item_id db)) [
  | inl known ↦ rw known refl
  | inr unknown ↦ rw unknown refl
]

set_read_state_again :
    (user : User) (item_id now later : ℕ) (is_read : Bool) (db : Tables)
    → and_then
        (set_read_state user item_id is_read now db)
        (λ (after, out). set_read_state user item_id is_read later after)
      ≡ set_read_state user item_id is_read now db
unfolding and_then
set_read_state_again user item_id now later is_read db = elim (Bool-cases (has_item item_id db)) [
  | inl known ↦ rw (set_read_state_done user item_id now is_read db known) (
      set_read_state_done user item_id later is_read
        (record db { reads = (write_read_state user item_id is_read now db.reads).0 })
        (unfold has_item in known)
      ∙ ap (outcome db item_id is_read)
          (write_read_state_twice user item_id now later is_read db.reads))
  | inr unknown ↦ unfold set_read_state in rw unknown refl
]

-- Marking an item read or unread is refused, with the 404, exactly when the item does not exist.
-- Doing it a second time, whenever that is, ends as the first time did: refused again, or with
-- the tables unchanged and the reply of the first time, with its timestamp.
pub set_read_state_twice :
    (user : User) (item_id now later : ℕ) (is_read : Bool) (db : Tables)
    → (is_not_found (set_read_state user item_id is_read now db) ≡ not (has_item item_id db))
      × (and_then
            (set_read_state user item_id is_read now db)
            (λ (after, out). set_read_state user item_id is_read later after)
          ≡ set_read_state user item_id is_read now db)
set_read_state_twice user item_id now later is_read db = (
  set_read_state_refused user item_id now is_read db,
  set_read_state_again user item_id now later is_read db,
)

stored_read_at_same :
    (user other : User) (item_id id : ℕ) (reads : List UserReadItem)
    → id ≡ item_id
    → other.id ≡ user.id
    → stored_read_at other id reads ≡ stored_read_at user item_id reads
unfolding stored_read_at is_read_of
stored_read_at_same user other item_id id reads e f = rw (e, f) refl

is_read_of_other :
    (user other : User) (item_id id : ℕ) (row : UserReadItem)
    → (eqb id item_id && eqb other.id user.id) ≡ false
    → is_read_of other id row ≡ true
    → is_read_of user item_id row ≡ false
unfolding is_read_of
is_read_of_other user other item_id id row d h = ground arith

-- The write moves the mark of its own key, to the time that the reply tells, and no other.
stored_read_at-write_read_state :
    (user other : User) (item_id id now : ℕ) (is_read : Bool) (reads : List UserReadItem)
    → let written = write_read_state user item_id is_read now reads in
      stored_read_at other id written.0 ≡ (
        if eqb id item_id && eqb other.id user.id then written.1 else stored_read_at other id reads)
unfolding write_read_state stored_read_at
stored_read_at-write_read_state user other item_id id now is_read reads =
    elim (Bool-cases (eqb id item_id && eqb other.id user.id)) [
      | inl same ↦ rw same (
          stored_read_at_same user other item_id id _ (ground arith) (ground arith)
          ∙ written_mark is_read)
      | inr different ↦ rw different (unchanged different is_read)
    ]
  where
    written_mark :
        (flag : Bool)
        → stored_read_at user item_id (write_read_state user item_id flag now reads).0
          ≡ (write_read_state user item_id flag now reads).1
    written_mark true = refl
    written_mark false = ap read_time (scalar-delete_rows-none (is_read_of user item_id) reads)

    unchanged :
        (eqb id item_id && eqb other.id user.id) ≡ false
        → (flag : Bool)
        → stored_read_at other id (write_read_state user item_id flag now reads).0
          ≡ stored_read_at other id reads
    unchanged d true = ap read_time (
        scalar-insert_ignore_other (is_read_of other id) (is_read_of user item_id)
          (record { user_id = user.id; feed_item_id = item_id; read_at = now }) reads
          (unfold is_read_of in ground arith))
    unchanged d false = ap read_time (
        scalar-delete_rows (is_read_of other id) (is_read_of user item_id) reads
          (λ row. is_read_of_other user other item_id id row d))

told_inserted :
    (user : User) (item_id now : ℕ) (reads : List UserReadItem)
    → is_some (write_read_state user item_id true now reads).1 ≡ true
unfolding write_read_state stored_read_at
told_inserted user item_id now reads =
    ap (λ row. is_some (read_time row))
      (scalar-insert_ignore_same (is_read_of user item_id)
        (record { user_id = user.id; feed_item_id = item_id; read_at = now }) reads
        (unfold is_read_of in ground arith))
    ∙ found (scalar (is_read_of user item_id) reads)
  where
    found :
        (old : Option UserReadItem)
        → is_some (
            read_time (elim old [
              | none ↦ some (record { user_id = user.id; feed_item_id = item_id; read_at = now })
              | some row ↦ some row
            ]))
          ≡ true
    found none = unfold read_time in refl
    found (some row) = unfold read_time in refl

-- Marking an item that exists succeeds, and from then on the feed shows the item to that user with
-- the time that the reply tells, and every other item and user with the mark as it was.
pub read_mark-set_read_state :
    (user : User) (item_id now : ℕ) (is_read : Bool) (db : Tables)
    → has_item item_id db ≡ true
    → (after : Tables) × (out : ReadStateOut) × (set_read_state user item_id is_read now db
        ≡ done (after, out))
      × (is_some out.read_at ≡ is_read)
      × ((other : User) (item : FeedItem)
          → read_mark after other item ≡ (
              if eqb item.id item_id && eqb other.id user.id
              then out.read_at
              else read_mark db other item))
unfolding set_read_state read_mark write_read_state stored_read_at
read_mark-set_read_state user item_id now is_read db known =
    let written : List UserReadItem × Option ℕ =
      write_read_state user item_id is_read now db.reads in
    (
      record db { reads = written.0 },
      record { item_id = item_id; read = is_read; read_at = written.1 },
      rw known refl,
      told is_read,
      λ other item.
          unfold stored_read_at is_read_of in
          stored_read_at-write_read_state user other item_id item.id now is_read db.reads,
    )
  where
    told : (flag : Bool) → is_some (write_read_state user item_id flag now db.reads).1 ≡ flag
    told true = told_inserted user item_id now db.reads
    told false = refl
