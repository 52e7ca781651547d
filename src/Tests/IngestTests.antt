-- ===== src/Tests/IngestTests.antt =====
-- app/ingest/status.py at concrete attempts.
use sre_tab.Common.{
  ◌+◌, ◌*◌, ◌≤◌, ◌≡◌, refl, none, some, [], ◌∷◌, codes, leb, min, scalar, upsert, merged,
}
use sre_tab.Models.{minute}
use sre_tab.Ingest.Status.{
  answers, raises, Registry, get, backoff, interval, new_row, changed_row, persist_source_status,
  persist, load, has_come, due_from_row, due_from, is_due, update, succeeded, record_success,
  known_from, known_before, failed, record_failure,
}
use sre_tab.Ingest.Status.Due.{
  restart, is_due-record_success, is_due-record_failure, record_failure-restart,
}
use sre_tab.Ingest.Status.Backoff.{backoff_bounds}

program : Unit {0}
unfolding scalar upsert merged get backoff interval new_row changed_row persist_source_status
    persist load has_come due_from_row due_from is_due update succeeded record_success known_from
    known_before failed record_failure restart
program = tt

-- A registry without memory, and a row that tells of two failures.
abbrev cold : Registry
cold = record {
  statuses = [];
  rows =
      record {
        source_id = 3;
        last_fetched_at = some 0;
        last_success_at = none;
        last_error_class = some (codes "FetchError");
        last_error_detail = none;
        consecutive_failures = 2;
        discovered_icon_url = none;
      }
      ∷ [];
}

-- The third failure in a row, of a source that is refreshed every half an hour, waits two hours.
third_failure :
    is_due answers 3
      (some 30)
      (120 * minute)
      (record_failure answers 3 (codes "s") 30 (codes "FetchError") (codes "timeout") 0 cold).0
    ≡ leb (120 * minute) (120 * minute)
unfolding program
third_failure = refl

-- When the database does not answer, a process that starts cold counts from one.
unanswered :
    (record_failure raises 3
      (codes "s")
      30
      (codes "FetchError")
      (codes "timeout")
      0
      cold).1.consecutive_failures
    ≡ 1
unfolding program
unanswered = refl

is_due-record_success_example :
    let after = (record_success answers 3 (codes "s") 30 10 4 100 cold).0 in
    (is_due answers 3 (some 30) 500 after ≡ leb (100 + 30 * minute) 500)
    × (is_due answers 3 (some 30) 500 (restart after) ≡ leb (100 + 30 * minute) 500)
is_due-record_success_example = is_due-record_success 3 (codes "s") 30 10 4 100 500 cold

is_due-record_failure_example :
    let after =
      (record_failure answers 3 (codes "s") 30 (codes "FetchError") (codes "timeout") 100 cold).0 in
    let failures = (known_before answers 3 cold).0 + 1 in
    (is_due answers 3 (some 30) 500 after ≡ leb (100 + backoff 30 failures) 500)
    × (is_due answers 3 (some 30) 500 (restart after) ≡ leb (100 + backoff 30 failures) 500)
is_due-record_failure_example =
    is_due-record_failure 3 (codes "s") 30 (codes "FetchError") (codes "timeout") 100 500 cold

record_failure-restart_example :
    let after =
      (record_failure answers 3 (codes "s") 30 (codes "FetchError") (codes "timeout") 100 cold).0 in
    (known_before answers 3 after ≡ (3, none))
    × (known_before answers 3 (restart after) ≡ (3, none))
unfolding program
record_failure-restart_example =
    record_failure-restart 3 (codes "s") 30 (codes "FetchError") (codes "timeout") 100 cold

backoff_bounds_example :
    (backoff 30 4 ≤ 360 * minute)
    × (min 30 360 * minute ≤ backoff 30 4)
    × (backoff 30 4 ≤ backoff 30 5)
backoff_bounds_example = backoff_bounds 30 4
