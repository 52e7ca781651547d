-- ===== src/Ingest/Status.antt =====
-- app/ingest/status.py: how each source fares, when it is next due, and what survives a restart.
-- The registry is the dictionary in memory together with the `source_status` table. Whether the
-- database answers a call is an argument of the call.
pub mod Due
pub mod Backoff
use sre_tab.Common.{
  ℕ, zero, suc, ◌+◌, ◌-◌, ◌*◌, ◌/◌, ◌^◌, ◌≤◌, ◌<◌, ◌≡◌, ◌≢◌, ◌↔◌, ◌⊎◌, refl, sym, ap, ◌∙◌, Bool,
  true, false, not, ◌&&◌, ◌||◌, Option, none, some, List, [], ◌∷◌, ◌++◌, map, if◌then◌else◌, Text,
  ◌==◌, text_eq, nat_eq, arith, inl, inr, Bool-cases, Option-cases, is_some, eq_of_true, eq_refl,
  text_beq_iff, text_beq, eqb_iff, false_of_ne, ne_of_false, is_nil, codes, ltb, leb, eqb, ltb→lt,
  ltb→le, lt→ltb, leb→le, le→leb, leb→lt, length, take, drop, take_of_length-le, take-append-drop,
  length-take-le, All, All-append, All-map, length-append, append-nil, append_assoc, map-append,
  upsert, merged, select, scalar, exists_row, delete_rows, update_rows, count_rows,
  count_rows-delete_rows, scalar_sound, exists_row-scalar, scalar-delete_rows,
  scalar-update_rows-none, scalar-update_rows_some, scalar-append_none, update_rows_none, sort_by,
  insert_by, Sorted, Apart, Transitive, sort_by-Sorted, select-sort_by, select-Apart,
  count_rows-sort_by, starts_with, strip, lower, partition, split, lacks, words, words_from,
  text_before, min,
}
use mathlib.Core.Option
use sre_tab.Models.{SourceStatus, minute}

-- `SourceStatus`, the registry's own record of a source.
pub record Status : Type 0 where
  pub source_id : ℕ
  pub slug : Text
  pub last_attempt_at : Option ℕ
  pub last_success_at : Option ℕ
  pub last_failure_at : Option ℕ
  pub last_error_class : Option Text
  pub last_error_detail : Option Text
  pub consecutive_failures : ℕ
  pub last_item_count : ℕ
  pub last_inserted_count : ℕ
  pub next_due_at : Option ℕ

unfoldable pub is_healthy : Status → Bool
is_healthy status = eqb status.consecutive_failures 0

-- A registry without a session factory, one whose database answers, and one whose database raises.
pub data Persistence : Type 0 where
  in_process answers raises : Persistence

pub record Registry : Type 0 where
  pub statuses : List Status
  pub rows : List SourceStatus

unfoldable pub get : ℕ → Registry → Option Status
get source_id registry = scalar (λ s. eqb s.source_id source_id) registry.statuses

-- `sorted(…, key=lambda status: status.slug)`
unfoldable pub slug_before : Status → Status → Bool
slug_before a b = text_before a.slug b.slug

unfoldable pub snapshot : Registry → List Status
unfolding slug_before
snapshot registry = sort_by slug_before registry.statuses

unfoldable pub failing : Registry → List Status
unfolding snapshot is_healthy
failing registry = select (λ status. not (is_healthy status)) (snapshot registry)

-- `_backoff`, which is called for one failure or more.
unfoldable pub backoff : ℕ → ℕ → ℕ
backoff refresh_minutes consecutive_failures =
    min (refresh_minutes * min (2 ^ (consecutive_failures - 1)) 16) 360 * minute

-- `_interval`
unfoldable pub interval : ℕ → ℕ → ℕ
unfolding backoff
interval refresh_minutes consecutive_failures =
    if eqb consecutive_failures 0
    then refresh_minutes * minute
    else backoff refresh_minutes consecutive_failures

-- The values of `persist_source_status` for a source without a row, and on the row that it has.
unfoldable pub new_row : Status → SourceStatus
new_row status = record {
  source_id = status.source_id;
  last_fetched_at = status.last_attempt_at;
  last_success_at = status.last_success_at;
  last_error_class = status.last_error_class;
  last_error_detail = status.last_error_detail;
  consecutive_failures = status.consecutive_failures;
  discovered_icon_url = none;
}

unfoldable pub changed_row : Status → SourceStatus → SourceStatus
changed_row status row = record row {
  last_fetched_at = status.last_attempt_at;
  last_success_at = status.last_success_at;
  last_error_class = status.last_error_class;
  last_error_detail = status.last_error_detail;
  consecutive_failures = status.consecutive_failures;
}

-- `persist_source_status`: the row of the source is written whole, but for the icon.
unfoldable pub persist_source_status : Status → List SourceStatus → List SourceStatus
unfolding new_row changed_row
persist_source_status status rows =
    upsert (λ r. eqb r.source_id status.source_id) (new_row status) (changed_row status) rows

-- `_persist`
unfoldable pub persist : Persistence → Status → List SourceStatus → List SourceStatus
unfolding persist_source_status
persist in_process status rows = rows
persist answers status rows = persist_source_status status rows
persist raises status rows = rows

-- `_load`, with the row for `PersistedStatus`, which is a part of it.
unfoldable pub load : Persistence → ℕ → Registry → Option SourceStatus
load in_process source_id registry = none
load answers source_id registry = scalar (λ r. eqb r.source_id source_id) registry.rows
load raises source_id registry = none

-- A due time that is not set has come.
unfoldable pub has_come : Option ℕ → ℕ → Bool
has_come none moment = true
has_come (some due) moment = leb due moment

-- The answer from the stored row.
unfoldable pub due_from_row : Option SourceStatus → Option ℕ → ℕ → Bool
unfolding interval has_come
due_from_row none refresh_minutes moment = true
due_from_row (some row) none moment = true
due_from_row (some row) (some refresh) moment =
    has_come
      (Option.map (λ fetched. fetched + interval refresh row.consecutive_failures)
        row.last_fetched_at)
      moment

-- The answer from memory, or else from the stored row.
unfoldable pub due_from : Option Status → Option SourceStatus → Option ℕ → ℕ → Bool
unfolding has_come due_from_row
due_from (some status) row refresh_minutes moment = has_come status.next_due_at moment
due_from none row refresh_minutes moment = due_from_row row refresh_minutes moment

unfoldable pub is_due : Persistence → ℕ → Option ℕ → ℕ → Registry → Bool
unfolding get load due_from
is_due persistence source_id refresh_minutes moment registry =
    due_from (get source_id registry) (load persistence source_id registry) refresh_minutes moment

-- `SourceStatus(source_id=…, slug=…)`, with every default.
abbrev pub new_status : ℕ → Text → Status
new_status source_id slug = record {
  source_id = source_id;
  slug = slug;
  last_attempt_at = none;
  last_success_at = none;
  last_failure_at = none;
  last_error_class = none;
  last_error_detail = none;
  consecutive_failures = 0;
  last_item_count = 0;
  last_inserted_count = 0;
  next_due_at = none;
}

-- `_update`: the entry in memory is replaced, then written through. `change` sets the fields.
unfoldable pub update : Persistence → ℕ → Text → (Status → Status) → Registry → Registry × Status
unfolding get persist
update persistence source_id slug change registry =
    let current = merged (new_status source_id slug) (λ s. s) (get source_id registry) in
    let updated : Status = change (record current { slug = slug }) in
    (
      record {
        statuses = upsert (λ s. eqb s.source_id source_id) updated (λ s. updated) registry.statuses;
        rows = persist persistence updated registry.rows;
      },
      updated,
    )

-- The fields that a success sets.
unfoldable pub succeeded : (refresh_minutes item_count inserted_count moment : ℕ) → Status → Status
succeeded refresh_minutes item_count inserted_count moment status = record status {
  last_attempt_at = some moment;
  last_success_at = some moment;
  last_error_class = none;
  last_error_detail = none;
  consecutive_failures = 0;
  last_item_count = item_count;
  last_inserted_count = inserted_count;
  next_due_at = some (moment + refresh_minutes * minute);
}

unfoldable pub record_success :
    Persistence
    → (source_id : ℕ) → (slug : Text) → (refresh_minutes item_count inserted_count moment : ℕ)
    → Registry
    → Registry × Status
unfolding update succeeded
record_success persistence source_id slug refresh_minutes item_count inserted_count moment
      registry =
    update persistence source_id slug (succeeded refresh_minutes item_count inserted_count moment)
      registry

-- What is known of a source before a failure: its failures, and its last success.
unfoldable pub known_from : Option Status → Option SourceStatus → ℕ × Option ℕ
known_from (some previous) row = (previous.consecutive_failures, previous.last_success_at)
known_from none none = (0, none)
known_from none (some row) = (row.consecutive_failures, row.last_success_at)

unfoldable pub known_before : Persistence → ℕ → Registry → ℕ × Option ℕ
unfolding get load known_from
known_before persistence source_id registry =
    known_from (get source_id registry) (load persistence source_id registry)

-- The fields that a failure sets, after what was known.
unfoldable pub failed :
    (refresh_minutes : ℕ)
    → (error_class detail : Text) → (moment : ℕ) → ℕ × Option ℕ
    → Status
    → Status
unfolding backoff
failed refresh_minutes error_class detail moment (previous, last_success_at) status =
    record status {
      last_attempt_at = some moment;
      last_success_at = last_success_at;
      last_failure_at = some moment;
      last_error_class = some error_class;
      last_error_detail = some (take 500 detail);
      consecutive_failures = previous + 1;
      next_due_at = some (moment + backoff refresh_minutes (previous + 1));
    }

unfoldable pub record_failure :
    Persistence
    → (source_id : ℕ) → (slug : Text) → (refresh_minutes : ℕ) → (error_class detail : Text)
    → (moment : ℕ) → Registry
    → Registry × Status
unfolding update known_before failed
record_failure persistence source_id slug refresh_minutes error_class detail moment registry =
    update persistence source_id slug
      (failed refresh_minutes error_class detail moment
        (known_before persistence source_id registry))
      registry

unfoldable pub forget : ℕ → Registry → Registry
forget source_id registry = record registry {
  statuses = delete_rows (λ s. eqb s.source_id source_id) registry.statuses;
}
