-- ===== src/Ingest/Store/Icon.antt =====
-- The channel artwork that app/ingest/store.py records.
use sre_tab.Common.{
  Bool, if◌then◌else◌, insert_ignore, update_rows, eqb, ◌==◌, text_eq, ℕ, ◌≡◌, refl, ◌∙◌, ap, true,
  false, Option, none, some, List, Text, eqb_iff, eq_refl, eq_of_true, scalar,
  scalar-insert_ignore_same, scalar-update_rows, Bool-cases, inl, inr, arith,
}
use sre_tab.Models.{SourceStatus}

-- `existing.discovered_icon_url == icon_url`
unfoldable pub has_icon : Text → Option Text → Bool
has_icon icon none = false
has_icon icon (some old) = old == icon

-- The icon of a source, given its status row.
unfoldable pub record_icon :
    ℕ → Text → Option SourceStatus → List SourceStatus → List SourceStatus × Bool
unfolding has_icon
record_icon source_id icon none statuses = (
  insert_ignore (λ s. eqb s.source_id source_id)
      (record {
        source_id = source_id;
        last_fetched_at = none;
        last_success_at = none;
        last_error_class = none;
        last_error_detail = none;
        consecutive_failures = 0;
        discovered_icon_url = some icon;
      })
      statuses,
  true,
)
record_icon source_id icon (some existing) statuses =
    if has_icon icon existing.discovered_icon_url then (statuses, false) else (
      update_rows (λ s. eqb s.source_id source_id)
          (λ s. record s { discovered_icon_url = some icon }) statuses,
      true,
    )

-- `record_discovered_icon`: the status table, and whether the icon moved.
unfoldable pub record_discovered_icon :
    ℕ → Option Text → List SourceStatus → List SourceStatus × Bool
unfolding record_icon
record_discovered_icon source_id none statuses = (statuses, false)
record_discovered_icon source_id (some icon) statuses =
    record_icon source_id icon (scalar (λ s. eqb s.source_id source_id) statuses) statuses

-- A source's row has the icon.
abbrev pub HasIcon : ℕ → Text → List SourceStatus → Type 0
HasIcon source_id icon statuses =
    (row : SourceStatus) × (scalar (λ s. eqb s.source_id source_id) statuses ≡ some row)
    × (row.discovered_icon_url ≡ some icon)

record_icon-HasIcon :
    (source_id : ℕ) (icon : Text) (statuses : List SourceStatus) (found : Option SourceStatus)
    → scalar (λ s. eqb s.source_id source_id) statuses ≡ found
    → HasIcon source_id icon (record_icon source_id icon found statuses).0
unfolding record_icon
record_icon-HasIcon source_id icon statuses none e = (
  record {
    source_id = source_id;
    last_fetched_at = none;
    last_success_at = none;
    last_error_class = none;
    last_error_detail = none;
    consecutive_failures = 0;
    discovered_icon_url = some icon;
  },
  scalar-insert_ignore_same (λ s. eqb s.source_id source_id) _ statuses
        ((eqb_iff source_id source_id).1 refl)
      ∙ rw e refl,
  refl,
)
record_icon-HasIcon source_id icon statuses (some row) e =
    elim (Bool-cases (has_icon icon row.discovered_icon_url)) [
      | inl same ↦ rw same (row, e, same_icon row.discovered_icon_url same)
      | inr other ↦ rw other (
        record row { discovered_icon_url = some icon },
        scalar-update_rows (λ s. eqb s.source_id source_id)
            (λ s. record s { discovered_icon_url = some icon }) statuses (λ x h. h) e,
        refl,
      )
    ]
  where
    same_icon : (old : Option Text) → has_icon icon old ≡ true → old ≡ some icon
    same_icon none h = unfold has_icon in absurd (ground arith)
    same_icon (some old) h = ap some (eq_of_true old icon (unfold has_icon in h))

-- A refresh that found an icon leaves it on the source's row, and the next one that finds the same
-- icon changes nothing and reports that nothing moved.
pub record_discovered_icon_twice :
    (source_id : ℕ) (icon : Text) (statuses : List SourceStatus)
    → let after = (record_discovered_icon source_id (some icon) statuses).0 in
      HasIcon source_id icon after
      × (record_discovered_icon source_id (some icon) after ≡ (after, false))
unfolding record_discovered_icon
record_discovered_icon_twice source_id icon statuses =
    let after : List SourceStatus = (record_discovered_icon source_id (some icon) statuses).0 in
    let (row, e, i) : HasIcon source_id icon after =
      record_icon-HasIcon source_id icon statuses _ refl in
    ((row, e, i), rw e (unfold record_icon has_icon in rw (i, eq_refl icon) refl))
