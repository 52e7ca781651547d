-- ===== src/RateLimit.antt =====
-- app/auth/ratelimit.py: `SlidingWindowLimiter`, the in-process limiter of the sign-in routes.
-- The monotonic clock is a number of ticks, read once by each call and passed in as `now`. The
-- dictionary of deques is an association list in insertion order. The lock makes each method one
-- step, so a schedule of callers is a sequence of calls.
pub mod Keys
pub mod Deque
pub mod Run
pub mod Bounds
pub mod Window
use sre_tab.Common.{
  ℕ, zero, suc, ◌+◌, Bool, true, false, not, ◌&&◌, Option, none, some, List, [], ◌∷◌, ◌++◌, ltb,
  leb, if◌then◌else◌, length, Text, ◌==◌, text_eq,
}

-- `_MAX_KEYS`
abbrev pub max_keys : ℕ
max_keys = 8192

-- What the constructor is given.
pub record Config : Type 0 where
  pub limit : ℕ
  pub window_seconds : ℕ

-- `while events and events[0] <= cutoff: events.popleft()`, with `cutoff = now - window`
unfoldable pub expire : ℕ → ℕ → List ℕ → List ℕ
expire now window [] = []
expire now window (t ∷ ts) =
    let rest = expire now window ts in if leb (t + window) now then rest else t ∷ ts

unfoldable pub is_empty {ℓ} : {A : Type ℓ} → List A → Bool
is_empty [] = true
is_empty (x ∷ xs) = false

-- `events[-1]`. A tracked deque other than the checked key's is not empty here: see `Window`.
unfoldable pub last_event : List ℕ → ℕ
last_event [] = 0
last_event (t ∷ []) = t
last_event (t ∷ t' ∷ ts) = last_event (t' ∷ ts)

-- The dictionary `_events`.
abbrev pub Events : Type 0
Events = List (Text × List ℕ)

-- `self._events[key]`, or the empty deque that `setdefault` would put there.
unfoldable pub events_of : Text → Events → List ℕ
events_of key [] = []
events_of key ((k, ts) ∷ rest) = if k == key then ts else events_of key rest

unfoldable pub tracked : Text → Events → Bool
tracked key [] = false
tracked key ((k, ts) ∷ rest) = if k == key then true else tracked key rest

-- `self._events[key] = ts` for a key that is there
unfoldable pub store_events : Text → List ℕ → Events → Events
store_events key ts [] = []
store_events key ts ((k, us) ∷ rest) =
    let others = store_events key ts rest in if k == key then (k, ts) ∷ rest else (k, us) ∷ others

-- The first loop of `_prune_locked`: expire every deque, and delete the empty ones of the keys
-- that are not being checked.
unfoldable pub prune_expired : ℕ → ℕ → Text → Events → Events
prune_expired now window key [] = []
prune_expired now window key ((k, ts) ∷ rest) =
    let others = prune_expired now window key rest in
    let live = expire now window ts in
    if is_empty live && not (k == key) then others else (k, live) ∷ others

-- `min` over the tracked keys but the checked one, by their last event; the first of equals.
unfoldable pub stale_from : Text → Option (Text × ℕ) → Events → Option (Text × ℕ)
stale_from key best [] = best
stale_from key none ((k, ts) ∷ rest) =
    stale_from key (if k == key then none else some (k, last_event ts)) rest
stale_from key (some (b, t)) ((k, ts) ∷ rest) =
    stale_from key
      (if k == key
        then some (b, t)
        else if ltb (last_event ts) t
        then some (k, last_event ts)
        else some (b, t))
      rest

-- `del self._events[stale]`
unfoldable pub delete_key : Text → Events → Events
delete_key key [] = []
delete_key key ((k, ts) ∷ rest) =
    let others = delete_key key rest in if k == key then rest else (k, ts) ∷ others

-- The second loop of `_prune_locked`; each round drops a key, so the number of keys is fuel
-- enough.
unfoldable pub evict : ℕ → Text → Events → Events
evict zero key events = events
evict (suc rounds) key events =
    if ltb (length events) max_keys then events else elim (stale_from key none events) [
      | none ↦ events
      | some (stale, _) ↦ evict rounds key (delete_key stale events)
    ]

-- `self._events.setdefault(key, deque())`
unfoldable pub set_default : Text → Events → Events
set_default key events = if tracked key events then events else events ++ (key, []) ∷ []

-- `_prune_locked`
unfoldable pub prune : Config → ℕ → Text → Events → Events
prune c now key events =
    let live = prune_expired now c.window_seconds key events in
    set_default key (evict (length live) key live)

-- `hit`: the new dictionary, and whether the event was recorded.
unfoldable pub hit : Config → ℕ → Text → Events → Events × Bool
hit c now key events =
    let pruned = prune c now key events in
    let ts = events_of key pruned in
    if leb c.limit (length ts)
    then (pruned, false)
    else (store_events key (ts ++ now ∷ []) pruned, true)

-- `is_limited`, which prunes and records nothing.
unfoldable pub is_limited : Config → ℕ → Text → Events → Events × Bool
is_limited c now key events =
    let pruned = prune c now key events in (pruned, leb c.limit (length (events_of key pruned)))

-- `reset`
unfoldable pub reset : Events → Events
reset events = []
