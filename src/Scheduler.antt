-- ===== src/Scheduler.antt =====
-- app/scheduler/service.py and app/health.py: the jobs of the scheduler, and when the instance says
-- that it is ready. Whether a replica gets a lock of app/scheduler/locks.py, and each reading of the
-- clock, is an argument. An error of the database outside a refresh, which ends a job early, is left
-- out.
pub mod Ready
use sre_tab.Common.{
  ltb, if◌then◌else◌, Text, text_eq, nat_eq, ◌==◌, upsert, every, ℕ, ◌+◌, ◌-◌, ◌*◌, Bool, true,
  false, not, Option, none, some, List, [], ◌∷◌,
}
use sre_tab.Models.{second}
use sre_tab.Ingest.Status.{Persistence}
use sre_tab.Ingest.Service.{SourceRef, Service, Weather, State, refresh_source, prune, due_sources}

-- `TICK_SECONDS`, `STALE_TICK_FACTOR`
abbrev pub tick_seconds : ℕ
tick_seconds = 60

abbrev pub stale_tick_factor : ℕ
stale_tick_factor = 5

-- The scheduler's own state: whether it is enabled by the settings, has been started, and runs, and
-- the time of its last tick.
pub record SchedulerService : Type 0 where
  pub enabled : Bool
  pub started : Bool
  pub running : Bool
  pub last_tick_at : Option ℕ

-- A source whose lock is taken, with the weather of its refresh, or one whose lock another has.
pub data Turn : Type 0 where
  acquired : Weather → Turn
  taken : Turn

-- The body of the loop of `tick`: the state, and the number of sources refreshed, one at most.
unfoldable pub take_turn : Service → SourceRef → ℕ → State → Turn → State × ℕ
unfolding refresh_source
take_turn service source moment state taken = (state, 0)
take_turn service source moment state (acquired weather) =
    ((refresh_source service source weather moment state).0, 1)

-- The loop of `tick`.
unfoldable pub refresh_due : Service → (ℕ → Turn) → ℕ → List SourceRef → State → State × ℕ
unfolding take_turn
refresh_due service turns moment [] state = (state, 0)
refresh_due service turns moment (source ∷ sources) state =
    let (after, here) = take_turn service source moment state (turns source.id) in
    let (final, later) = refresh_due service turns moment sources after in (final, here + later)

-- `tick` of the enabled sources, which ends at `ended`.
unfoldable pub tick :
    Service
    → Persistence
    → (ℕ → Turn)
    → ℕ
    → ℕ
    → List SourceRef
    → SchedulerService
    → State
    → (SchedulerService × State) × ℕ
unfolding refresh_due due_sources
tick service persistence turns moment ended sources scheduler state =
    let run =
      refresh_due service turns moment (due_sources persistence moment sources state) state in
    ((record scheduler { last_tick_at = some ended }, run.0), run.1)

-- `SchedulerService.prune`, which counts nothing where another holds the lock.
unfoldable pub prune_job : Service → Bool → ℕ → State → State × ℕ
unfolding prune
prune_job service false moment state = (state, 0)
prune_job service true moment state = prune service moment state

-- `ProbeResult` without its text, and what a check does: it may raise.
pub data Check : Type 0 where
  answered : Bool → Check
  raised_error : Check

-- `_run_check`
unfoldable pub run_check : Check → Bool
run_check (answered ok) = ok
run_check raised_error = false

-- `readiness`: whether its result is ok.
unfoldable pub readiness : SchedulerService → ℕ → Bool
readiness scheduler moment =
    if not scheduler.enabled
    then true
    else if not scheduler.started
    then false
    else if not scheduler.running
    then false
    else elim scheduler.last_tick_at [
      | none ↦ true
      | some last ↦ not (ltb (tick_seconds * stale_tick_factor * second) (moment - last))
    ]

-- `register_readiness`, and `register_liveness`: a name is registered once.
unfoldable pub register : Text → Check → List (Text × Check) → List (Text × Check)
unfolding upsert
register name check checks =
    upsert (λ entry. entry.0 == name) (name, check) (λ entry. (name, check)) checks

-- `ready` of `ProbeRegistry.run`, and `live`: every check is ok.
unfoldable pub all_ok : List (Text × Check) → Bool
unfolding run_check every
all_ok checks = every (λ entry. run_check entry.1) checks
