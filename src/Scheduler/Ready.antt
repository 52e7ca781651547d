-- ===== src/Scheduler/Ready.antt =====
-- What a tick of app/scheduler/service.py does, and what the instance reports after it.
use sre_tab.Common.{
  leb, if◌then◌else◌, text_eq, nat_eq, count_rows, ℕ, suc, ◌+◌, ◌*◌, ◌≡◌, refl, Bool, true, false,
  List, [], ◌∷◌, arith,
}
use sre_tab.Models.{second}
use sre_tab.Ingest.Status.{Persistence}
use sre_tab.Ingest.Service.{SourceRef, Service, State, due_sources}
use sre_tab.Scheduler.{
  SchedulerService, Turn, acquired, taken, take_turn, refresh_due, tick, readiness,
}

-- Whether the lock is taken here.
abbrev pub is_acquired : Turn → Bool
is_acquired (acquired weather) = true
is_acquired taken = false

refresh_due_count :
    (service : Service) (turns : ℕ → Turn) (moment : ℕ) (sources : List SourceRef) (state : State)
    → (refresh_due service turns moment sources state).1
      ≡ count_rows (λ source. is_acquired (turns source.id)) sources
unfolding refresh_due count_rows
refresh_due_count service turns moment [] state = refl
refresh_due_count service turns moment (source ∷ sources) state =
    one (turns source.id) (λ after. refresh_due_count service turns moment sources after)
  where
    one :
        (turn : Turn)
        → ((after : State)
            → (refresh_due service turns moment sources after).1
              ≡ count_rows (λ (s : SourceRef). is_acquired (turns s.id)) sources)
        → (take_turn service source moment state turn).1
            + (refresh_due service turns moment sources
                (take_turn service source moment state turn).0).1
          ≡ (if is_acquired turn
              then suc (count_rows (λ (s : SourceRef). is_acquired (turns s.id)) sources)
              else count_rows (λ (s : SourceRef). is_acquired (turns s.id)) sources)
    one taken ih = unfold take_turn in omega (arith, ih state)
    one (acquired weather) ih =
        unfold take_turn in
        omega (arith, ih (take_turn service source moment state (acquired weather)).0)

-- A tick counts one refresh for each due source whose lock it gets; and a scheduler that is enabled,
-- started and running is ready after it exactly as long as no more than five times the interval of the
-- ticks has passed since its end.
pub tick_lem :
    (service : Service) (persistence : Persistence) (turns : ℕ → Turn) (moment ended now : ℕ)
    (sources : List SourceRef) (scheduler : SchedulerService) (state : State)
    → scheduler.enabled ≡ true
    → scheduler.started ≡ true
    → scheduler.running ≡ true
    → ((tick service persistence turns moment ended sources scheduler state).1
        ≡ count_rows
            (λ source. is_acquired (turns source.id))
            (due_sources persistence moment sources state))
      × (readiness (tick service persistence turns moment ended sources scheduler state).0.0 now
          ≡ leb now (ended + 300 * second))
unfolding tick readiness
tick_lem service persistence turns moment ended now sources scheduler state enabled started
      running =
    (
      refresh_due_count service turns moment (due_sources persistence moment sources state) state,
      rw (enabled, started, running) (ground arith),
    )
