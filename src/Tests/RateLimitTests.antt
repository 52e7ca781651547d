-- ===== src/Tests/RateLimitTests.antt =====
-- app/auth/ratelimit.py at concrete calls.
use sre_tab.Common.{◌≤◌, ◌≡◌, refl, List, [], ◌∷◌, ltb, Text, codes, arith, count_rows, text_beq}
use sre_tab.RateLimit.{
  Config, Events, expire, is_empty, last_event, events_of, tracked, store_events, prune_expired,
  stale_from, delete_key, evict, set_default, prune, hit, is_limited,
}
use sre_tab.RateLimit.Deque.{live}
use sre_tab.RateLimit.Window.{hit_verdict}
use sre_tab.RateLimit.Run.{
  Call, hit_call, limited_call, step, records, run, admitted, in_window, admitted-le-limit,
}
use sre_tab.RateLimit.Bounds.{IsBounded, run-IsBounded}

program : Unit {0}
unfolding text_beq expire is_empty last_event events_of tracked store_events prune_expired
    stale_from delete_key evict set_default prune hit is_limited step records run admitted
    count_rows
program = tt

abbrev two_a_minute : Config
two_a_minute = record { limit = 2; window_seconds = 60 }

abbrev a : Text
a = codes "10.0.0.1"

abbrev b : Text
b = codes "10.0.0.2"

abbrev calls : List Call
calls =
    hit_call 100 a
    ∷ hit_call 110 b
    ∷ hit_call 120 a
    ∷ hit_call 130 a
    ∷ limited_call 131 b
    ∷ hit_call 160 a
    ∷ []

-- The third hit is refused; when the first has left the window, a hit is recorded again.
admitted_run : admitted two_a_minute a calls [] [] ≡ 160 ∷ 120 ∷ 100 ∷ []
unfolding program
admitted_run = refl

admitted-le-limit_example : count_rows (in_window 170 60) (admitted two_a_minute a calls [] []) ≤ 2
unfolding program
admitted-le-limit_example = admitted-le-limit two_a_minute a calls 170 (omega arith) (omega arith)

abbrev tracking : Events
tracking = (a, 100 ∷ 120 ∷ []) ∷ []

hit_verdict_example :
    (hit two_a_minute 130 a tracking).1 ≡ ltb (count_rows (live 130 60) (events_of a tracking)) 2
unfolding program
hit_verdict_example = hit_verdict two_a_minute 130 a tracking (refl, tt) (omega arith)

run-IsBounded_example : IsBounded two_a_minute (run two_a_minute calls tracking)
unfolding program
run-IsBounded_example =
    run-IsBounded two_a_minute calls tracking
      (record { distinct = (refl, tt); few = omega arith; small = omega arith })
