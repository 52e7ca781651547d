-- ===== src/Ingest/Status/Backoff.antt =====
-- How long app/ingest/status.py waits after failures.
use sre_tab.Common.{ℕ, suc, ◌-◌, ◌*◌, ◌^◌, ◌≤◌, min, arith}
use native.Mathlib.Nat.{one-le-pow, pow-le-pow_right, mul-le-mul_left}
use sre_tab.Models.{minute}
use sre_tab.Ingest.Status.{backoff}

-- The back-off lies between the refresh interval, cut at six hours, and six hours, and never
-- shrinks as failures add up.
pub backoff_bounds :
    (refresh_minutes failures : ℕ)
    → (backoff refresh_minutes failures ≤ 360 * minute)
      × (min refresh_minutes 360 * minute ≤ backoff refresh_minutes failures)
      × (backoff refresh_minutes failures ≤ backoff refresh_minutes (suc failures))
unfolding backoff
backoff_bounds refresh_minutes failures =
    let once : 1 ≤ 2 ^ (failures - 1) = one-le-pow (failures - 1) 2 (omega arith) in
    let more : 2 ^ (failures - 1) ≤ 2 ^ (suc failures - 1) =
      pow-le-pow_right (omega arith) (omega arith) in
    let k : ℕ = min (2 ^ (failures - 1)) 16 in
    let l : ℕ = min (2 ^ (suc failures - 1)) 16 in
    let low : refresh_minutes * 1 ≤ refresh_minutes * k =
      mul-le-mul_left refresh_minutes (omega (arith, once)) in
    let grows : refresh_minutes * k ≤ refresh_minutes * l =
      mul-le-mul_left refresh_minutes (omega (arith, more)) in
    (omega arith, omega (arith, low), omega (arith, grows))
