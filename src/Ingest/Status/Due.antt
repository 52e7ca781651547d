-- ===== src/Ingest/Status/Due.antt =====
-- When a source of app/ingest/status.py is due after an attempt, in the process that made it and in
-- one that starts afterwards.
use sre_tab.Common.{
  ℕ, ◌+◌, ◌*◌, ◌≡◌, refl, subst, ap, ◌∙◌, true, Option, none, some, List, [], Text, text_eq, nat_eq,
  arith, eqb_iff, leb, eqb, merged, scalar-upsert, scalar, scalar_sound,
}
use sre_tab.Models.{SourceStatus, minute}
use sre_tab.Ingest.Status.{
  Status, Persistence, answers, Registry, get, backoff, interval, new_row, changed_row,
  persist_source_status, persist, load, has_come, due_from_row, due_from, is_due, new_status,
  update, record_success, succeeded, failed, known_from, known_before, record_failure,
}

-- A process that starts with the table and no memory.
unfoldable pub restart : Registry → Registry
restart registry = record registry { statuses = [] }

module _ (persistence : Persistence) (source_id : ℕ) (slug : Text) (change : Status → Status)
    (registry : Registry) (keeps : (s : Status) → (change s).source_id ≡ s.source_id) where
  abbrev after : Registry × Status
  after = update persistence source_id slug change registry

  current-source_id :
      (found : Option Status)
      → get source_id registry ≡ found
      → (merged (new_status source_id slug) (λ s. s) found).source_id ≡ source_id
  unfolding get merged
  current-source_id none h = refl
  current-source_id (some s) h =
      (eqb_iff s.source_id source_id).0
        (scalar_sound (λ s. eqb s.source_id source_id) registry.statuses h)

  updated-source_id : after.1.source_id ≡ source_id
  unfolding update
  updated-source_id = keeps _ ∙ current-source_id (get source_id registry) refl

  is_updated : eqb after.1.source_id source_id ≡ true
  is_updated = (eqb_iff after.1.source_id source_id).1 updated-source_id

  -- The registry has the status that the update returns.
  get-update : get source_id after.0 ≡ some after.1
  unfolding get update
  get-update =
      scalar-upsert (λ s. eqb s.source_id source_id) after.1 (λ s. after.1) registry.statuses
        is_updated (λ s h. is_updated)
      ∙ ap some (always (scalar (λ s. eqb s.source_id source_id) registry.statuses))
    where
      always : (found : Option Status) → merged after.1 (λ s. after.1) found ≡ after.1
      always none = unfold merged in refl
      always (some old) = unfold merged in refl

-- The row that a status leaves in the table.
RowAfter : Status → Option SourceStatus → Type 0
RowAfter status none = ⊥
RowAfter status (some row) =
    (row.last_fetched_at ≡ status.last_attempt_at)
    × (row.consecutive_failures ≡ status.consecutive_failures)
    × (row.last_success_at ≡ status.last_success_at)

persist_source_status-row :
    (status : Status) (rows : List SourceStatus)
    → RowAfter status
        (scalar (λ r. eqb r.source_id status.source_id) (persist_source_status status rows))
unfolding persist_source_status RowAfter
persist_source_status-row status rows =
    rw
      (scalar-upsert (λ r. eqb r.source_id status.source_id) (new_row status) (changed_row status)
        rows (unfold new_row in (eqb_iff status.source_id status.source_id).1 refl)
        (λ r h. unfold changed_row in h))
      (found (scalar (λ r. eqb r.source_id status.source_id) rows))
  where
    found :
        (old : Option SourceStatus)
        → RowAfter status (some (merged (new_row status) (changed_row status) old))
    found none = unfold merged new_row in (refl, refl, refl)
    found (some row) = unfold merged changed_row in (refl, refl, refl)

-- A write that the database answers leaves that row for the source.
load-update :
    (source_id : ℕ) (slug : Text) (change : Status → Status) (registry : Registry)
    → ((s : Status) → (change s).source_id ≡ s.source_id)
    → let after = update answers source_id slug change registry in
      RowAfter after.1 (load answers source_id after.0)
unfolding load update persist
load-update source_id slug change registry keeps =
    subst
      (λ id.
        RowAfter (update answers source_id slug change registry).1
          (scalar (λ r. eqb r.source_id id) (update answers source_id slug change registry).0.rows))
      (updated-source_id answers source_id slug change registry keeps)
      (persist_source_status-row (update answers source_id slug change registry).1 registry.rows)

due_from_row-after :
    (refresh_minutes moment attempt : ℕ) (status : Status) (found : Option SourceStatus)
    → RowAfter status found
    → status.last_attempt_at ≡ some attempt
    → due_from_row found (some refresh_minutes) moment
      ≡ leb (attempt + interval refresh_minutes status.consecutive_failures) moment
unfolding due_from_row has_come RowAfter
due_from_row-after refresh_minutes moment attempt status none gone at = absurd gone
due_from_row-after refresh_minutes moment attempt status (some row) (e, f, g) at =
    rw (e ∙ at, f) refl

-- What two processes answer about a source: the one that made the last attempt at it, and one that
-- starts with what that attempt left in the table.
both_due :
    (source_id refresh_minutes moment attempt wait : ℕ) (registry : Registry) (status : Status)
    → get source_id registry ≡ some status
    → RowAfter status (load answers source_id registry)
    → status.last_attempt_at ≡ some attempt
    → status.next_due_at ≡ some (attempt + wait)
    → interval refresh_minutes status.consecutive_failures ≡ wait
    → (is_due answers source_id (some refresh_minutes) moment registry
        ≡ leb (attempt + wait) moment)
      × (is_due answers source_id (some refresh_minutes) moment (restart registry)
          ≡ leb (attempt + wait) moment)
unfolding is_due due_from
both_due source_id refresh_minutes moment attempt wait registry status known row at next e = (
  rw known (unfold has_come in rw next refl),
  rw (← e) (
      unfold restart get load scalar in
      due_from_row-after refresh_minutes moment attempt status
        (scalar (λ r. eqb r.source_id source_id) registry.rows) (unfold load in row) at),
)

-- After a refresh that succeeded at `attempt`, the source is due again exactly when its refresh
-- interval has passed, to this process and to one that starts afterwards, when the database answers
-- the write.
pub is_due-record_success :
    (source_id : ℕ) (slug : Text) (refresh_minutes item_count inserted_count attempt moment : ℕ)
    (registry : Registry)
    → let after =
        (record_success answers source_id slug refresh_minutes item_count inserted_count attempt
          registry).0 in
      (is_due answers source_id (some refresh_minutes) moment after
        ≡ leb (attempt + refresh_minutes * minute) moment)
      × (is_due answers source_id (some refresh_minutes) moment (restart after)
          ≡ leb (attempt + refresh_minutes * minute) moment)
unfolding record_success interval
is_due-record_success source_id slug refresh_minutes item_count inserted_count attempt moment
      registry =
    let change = succeeded refresh_minutes item_count inserted_count attempt in
    let keeps : (s : Status) → (change s).source_id ≡ s.source_id = λ s. unfold succeeded in refl in
    let after = update answers source_id slug change registry in
    both_due source_id refresh_minutes moment attempt (refresh_minutes * minute) after.0 after.1
      (get-update answers source_id slug change registry keeps)
      (load-update source_id slug change registry keeps) (unfold update succeeded in refl)
      (unfold update succeeded in refl) (unfold update succeeded in refl)

interval-suc :
    (refresh_minutes failures : ℕ)
    → interval refresh_minutes (failures + 1) ≡ backoff refresh_minutes (failures + 1)
unfolding interval
interval-suc refresh_minutes failures = ground arith

-- After a refresh that failed at `attempt`, the source is due again exactly when the back-off of
-- one failure more than were known has passed, to this process and to one that starts afterwards,
-- when the database answers the write.
pub is_due-record_failure :
    (source_id : ℕ) (slug : Text) (refresh_minutes : ℕ) (error_class detail : Text)
    (attempt moment : ℕ) (registry : Registry)
    → let after =
        (record_failure answers source_id slug refresh_minutes error_class detail attempt
          registry).0 in
      let failures = (known_before answers source_id registry).0 + 1 in
      (is_due answers source_id (some refresh_minutes) moment after
        ≡ leb (attempt + backoff refresh_minutes failures) moment)
      × (is_due answers source_id (some refresh_minutes) moment (restart after)
          ≡ leb (attempt + backoff refresh_minutes failures) moment)
unfolding record_failure
is_due-record_failure source_id slug refresh_minutes error_class detail attempt moment registry =
    let known = known_before answers source_id registry in
    let change = failed refresh_minutes error_class detail attempt known in
    let keeps : (s : Status) → (change s).source_id ≡ s.source_id = λ s. unfold failed in refl in
    let after = update answers source_id slug change registry in
    both_due source_id refresh_minutes moment attempt (backoff refresh_minutes (known.0 + 1))
      after.0 after.1 (get-update answers source_id slug change registry keeps)
      (load-update source_id slug change registry keeps) (unfold update failed in refl)
      (unfold update failed in refl) (unfold update failed in interval-suc refresh_minutes known.0)

known_from-row :
    (status : Status) (found : Option SourceStatus) (known : ℕ × Option ℕ)
    → RowAfter status found
    → status.consecutive_failures ≡ known.0
    → status.last_success_at ≡ known.1
    → known_from none found ≡ known
unfolding known_from RowAfter
known_from-row status none known gone c l = absurd gone
known_from-row status (some row) known (e, f, g) c l = cc

both_known :
    (source_id : ℕ) (registry : Registry) (status : Status) (known : ℕ × Option ℕ)
    → get source_id registry ≡ some status
    → RowAfter status (load answers source_id registry)
    → status.consecutive_failures ≡ known.0
    → status.last_success_at ≡ known.1
    → (known_before answers source_id registry ≡ known)
      × (known_before answers source_id (restart registry) ≡ known)
unfolding known_before
both_known source_id registry status known found row c l = (
  rw found (unfold known_from in cc),
  unfold restart get load scalar in
      known_from-row status (scalar (λ r. eqb r.source_id source_id) registry.rows) known
        (unfold load in row) c l,
)

-- When the database answers the write, the failures go on being counted, and the last success
-- stays known, whether the process that records the next failure is the one that recorded the last
-- or one that has started since.
pub record_failure-restart :
    (source_id : ℕ) (slug : Text) (refresh_minutes : ℕ) (error_class detail : Text) (attempt : ℕ)
    (registry : Registry)
    → let after =
        (record_failure answers source_id slug refresh_minutes error_class detail attempt
          registry).0 in
      let known = known_before answers source_id registry in
      (known_before answers source_id after ≡ (known.0 + 1, known.1))
      × (known_before answers source_id (restart after) ≡ (known.0 + 1, known.1))
unfolding record_failure
record_failure-restart source_id slug refresh_minutes error_class detail attempt registry =
    let known = known_before answers source_id registry in
    let change = failed refresh_minutes error_class detail attempt known in
    let keeps : (s : Status) → (change s).source_id ≡ s.source_id = λ s. unfold failed in refl in
    let after = update answers source_id slug change registry in
    both_known source_id after.0 after.1 (known.0 + 1, known.1)
      (get-update answers source_id slug change registry keeps)
      (load-update source_id slug change registry keeps) (unfold update failed in refl)
      (unfold update failed in refl)
