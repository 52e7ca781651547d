-- ===== src/RateLimit/Bounds.antt =====
-- The memory that the limiter of app/auth/ratelimit.py holds.
use sre_tab.Common.{
  ℕ, zero, suc, ◌≤◌, ◌<◌, ◌≡◌, ◌≢◌, refl, true, false, not, ◌&&◌, Option, none, some, List, [], ◌∷◌,
  ◌++◌, ltb, leb, ltb→lt, ltb→le, ◌⊎◌, if◌then◌else◌, length, Text, ◌==◌, text_eq, arith, inl, inr,
  Bool-cases, eq_of_true, eq_refl, Option-cases, leb→lt, All, All-append, length-append,
}
use sre_tab.RateLimit.{
  Config, max_keys, expire, is_empty, last_event, Events, events_of, tracked, store_events,
  prune_expired, stale_from, delete_key, evict, set_default, prune, hit, is_limited,
}
use sre_tab.RateLimit.Keys.{
  Distinct, prune_expired-Distinct, store_events-Distinct, delete_key-Distinct,
}
use sre_tab.RateLimit.Run.{Call, hit_call, limited_call, step, run}
use sre_tab.RateLimit.Window.{prune-Distinct}

stale_from-tracked :
    (key : Text) (best : Option (Text × ℕ)) (es : Events) (s : Text) (t : ℕ)
    → stale_from key best es ≡ some (s, t)
    → (best ≡ some (s, t)) ⊎ (tracked s es ≡ true)
unfolding stale_from tracked
stale_from-tracked key best [] s t h = inl h
stale_from-tracked key none ((k, ts) ∷ es) s t h = ground (
  arith,
  stale_from-tracked key (if k == key then none else some (k, last_event ts)) es s t h,
  eq_refl k,
)
stale_from-tracked key (some (b, u)) ((k, ts) ∷ es) s t h =
    ground (arith, stale_from-tracked key _ es s t h, eq_refl k)

stale_from-some : (key b : Text) (u : ℕ) (es : Events) → stale_from key (some (b, u)) es ≢ none
unfolding stale_from
stale_from-some key b u [] h = ground arith
stale_from-some key b u ((k, ts) ∷ es) h =
    ground (arith, stale_from-some key b u es, stale_from-some key k (last_event ts) es)

untracked-nil :
    (key : Text) (es : Events) → tracked key es ≡ false → stale_from key none es ≡ none → es ≡ []
unfolding tracked stale_from
untracked-nil key [] n h = refl
untracked-nil key ((k, ts) ∷ es) n h = ground (arith, stale_from-some key k (last_event ts) es)

-- With nobody to evict, the checked key is the only one.
nobody-le-one :
    (key : Text) (es : Events) → Distinct es → stale_from key none es ≡ none → length es ≤ 1
unfolding stale_from
nobody-le-one key [] d h = omega arith
nobody-le-one key ((k, ts) ∷ es) d h = elim (Bool-cases (k == key)) [
  | inl same ↦
      let e : es ≡ [] =
        untracked-nil key es (ground (arith, eq_of_true k key same, d.0)) (ground arith) in
      rw e (omega arith)
  | inr other ↦ absurd (stale_from-some key k (last_event ts) es (ground arith))
]

length-delete_key :
    (k : Text) (es : Events) → tracked k es ≡ true → suc (length (delete_key k es)) ≡ length es
unfolding tracked delete_key
length-delete_key k [] h = ground arith
length-delete_key k ((i, ts) ∷ es) h = ground (arith, length-delete_key k es)

length-evict :
    (rounds : ℕ) (key : Text) (es : Events)
    → Distinct es
    → length es ≤ rounds
    → length (evict rounds key es) < max_keys
unfolding evict
length-evict zero key es d h = omega arith
length-evict (suc rounds) key es d h = elim (Bool-cases (ltb (length es) max_keys)) [
  | inl room ↦ rw room (ltb→lt _ _ room)
  | inr full ↦ rw full (elim (Option-cases (stale_from key none es)) [
    | inl nobody ↦ absurd (omega (arith, nobody-le-one key es d nobody, ltb→le _ _ full))
    | inr ((s, t), found) ↦ rw found (
        length-evict rounds key (delete_key s es) (delete_key-Distinct s es d)
          (omega (arith, length-delete_key s es (victim_tracked key es s t found))))
  ])
]
  where
    victim_tracked :
        (key : Text) (es : Events) (s : Text) (t : ℕ)
        → stale_from key none es ≡ some (s, t)
        → tracked s es ≡ true
    victim_tracked key es s t found = ground (arith, stale_from-tracked key none es s t found)

length-set_default : (k : Text) (es : Events) → length (set_default k es) ≤ suc (length es)
unfolding set_default
length-set_default k es = ground (arith, length-append es ((k, []) ∷ []))

pub length-prune :
    (c : Config) (now : ℕ) (key : Text) (es : Events)
    → Distinct es
    → length (prune c now key es) ≤ max_keys
unfolding prune
length-prune c now key es d = omega (
  arith,
  length-set_default key (
      evict (length (prune_expired now c.window_seconds key es)) key
        (prune_expired now c.window_seconds key es)),
  length-evict (length (prune_expired now c.window_seconds key es)) key
      (prune_expired now c.window_seconds key es)
      (prune_expired-Distinct now c.window_seconds key es d) (omega arith),
)

length-store_events :
    (k : Text) (ts : List ℕ) (es : Events) → length (store_events k ts es) ≡ length es
unfolding store_events
length-store_events k ts [] = refl
length-store_events k ts ((i, us) ∷ es) = ground (arith, length-store_events k ts es)

-- No deque is longer than the limit.
abbrev pub Small : Config → Events → Type 0
Small c es = All (λ entry. length entry.1 ≤ c.limit) es

length-expire-le : (now w : ℕ) (ts : List ℕ) → length (expire now w ts) ≤ length ts
unfolding expire
length-expire-le now w [] = omega arith
length-expire-le now w (t ∷ ts) = ground (arith, length-expire-le now w ts)

prune_expired-Small :
    (c : Config) (now w : ℕ) (key : Text) (es : Events)
    → Small c es
    → Small c (prune_expired now w key es)
unfolding prune_expired
prune_expired-Small c now w key [] h = tt
prune_expired-Small c now w key ((k, ts) ∷ es) h =
    elim (Bool-cases (is_empty (expire now w ts) && not (k == key))) [
      | inl gone ↦ rw gone (prune_expired-Small c now w key es h.1)
      | inr kept ↦
          rw kept (omega (arith, length-expire-le now w ts), prune_expired-Small c now w key es h.1)
    ]

delete_key-Small : (c : Config) (k : Text) (es : Events) → Small c es → Small c (delete_key k es)
unfolding delete_key
delete_key-Small c k [] h = tt
delete_key-Small c k ((i, ts) ∷ es) h = elim (Bool-cases (i == k)) [
  | inl here ↦ rw here h.1
  | inr next ↦ rw next (h.0, delete_key-Small c k es h.1)
]

evict-Small :
    (c : Config) (rounds : ℕ) (key : Text) (es : Events)
    → Small c es
    → Small c (evict rounds key es)
unfolding evict
evict-Small c zero key es h = h
evict-Small c (suc rounds) key es h = elim (Bool-cases (ltb (length es) max_keys)) [
  | inl room ↦ rw room h
  | inr full ↦ rw full (elim (Option-cases (stale_from key none es)) [
    | inl nobody ↦ rw nobody h
    | inr ((s, t), found) ↦
        rw found (evict-Small c rounds key (delete_key s es) (delete_key-Small c s es h))
  ])
]

set_default-Small : (c : Config) (k : Text) (es : Events) → Small c es → Small c (set_default k es)
unfolding set_default
set_default-Small c k es h = elim (Bool-cases (tracked k es)) [
  | inl old ↦ rw old h
  | inr new ↦ rw new (All-append _ es ((k, []) ∷ []) h (omega arith, tt))
]

prune-Small :
    (c : Config) (now : ℕ) (k : Text) (es : Events) → Small c es → Small c (prune c now k es)
unfolding prune
prune-Small c now k es h =
    set_default-Small c k _
      (evict-Small c _ k _ (prune_expired-Small c now c.window_seconds k es h))

store_events-Small :
    (c : Config) (k : Text) (ts : List ℕ) (es : Events)
    → length ts ≤ c.limit
    → Small c es
    → Small c (store_events k ts es)
unfolding store_events
store_events-Small c k ts [] n h = tt
store_events-Small c k ts ((i, us) ∷ es) n h = elim (Bool-cases (i == k)) [
  | inl here ↦ rw here (n, h.1)
  | inr next ↦ rw next (h.0, store_events-Small c k ts es n h.1)
]

-- The dictionary has no key twice, at most `max_keys` keys, and no deque beyond the limit.
pub record IsBounded (c : Config) (es : Events) : Type 0 where
  pub distinct : Distinct es
  pub few : length es ≤ max_keys
  pub small : Small c es

prune-IsBounded :
    (c : Config) (now : ℕ) (k : Text) (es : Events)
    → IsBounded c es
    → IsBounded c (prune c now k es)
prune-IsBounded c now k es b = record {
  distinct = prune-Distinct c now k es b.distinct;
  few = length-prune c now k es b.distinct;
  small = prune-Small c now k es b.small;
}

hit-IsBounded :
    (c : Config) (now : ℕ) (k : Text) (es : Events)
    → IsBounded c es
    → IsBounded c (hit c now k es).0
unfolding hit
hit-IsBounded c now k es b =
    elim (Bool-cases (leb c.limit (length (events_of k (prune c now k es))))) [
      | inl over ↦ rw over (prune-IsBounded c now k es b)
      | inr under ↦ rw under (record {
        distinct = store_events-Distinct k _ _ (prune-Distinct c now k es b.distinct);
        few = omega (
          arith,
          length-store_events k (events_of k (prune c now k es) ++ now ∷ []) (prune c now k es),
          length-prune c now k es b.distinct,
        );
        small =
            store_events-Small c k _ _
              (omega (
                arith,
                length-append (events_of k (prune c now k es)) (now ∷ []),
                leb→lt _ _ under,
              ))
              (prune-Small c now k es b.small);
      })
    ]

step-IsBounded :
    (c : Config) (call : Call) (es : Events) → IsBounded c es → IsBounded c (step c call es)
unfolding step is_limited
step-IsBounded c (hit_call t j) es b = hit-IsBounded c t j es b
step-IsBounded c (limited_call t j) es b = prune-IsBounded c t j es b

-- From a dictionary within the bounds, after any calls of any keys at any times the limiter tracks
-- at most 8192 keys, each once and with at most `limit` events, however many addresses have been
-- seen.
pub run-IsBounded :
    (c : Config) (calls : List Call) (es : Events) → IsBounded c es → IsBounded c (run c calls es)
unfolding run
run-IsBounded c [] es b = b
run-IsBounded c (call ∷ calls) es b =
    run-IsBounded c calls (step c call es) (step-IsBounded c call es b)
