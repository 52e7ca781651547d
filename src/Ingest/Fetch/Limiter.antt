-- ===== src/Ingest/Fetch/Limiter.antt =====
-- How far apart the rate limiter of app/ingest/fetch.py puts the requests to one host.
use sre_tab.Common.{
  leb, if◌then◌else◌, Bool-cases, All, Text, text_eq, nat_eq, ◌==◌, eq_refl, eq_of_true, scalar,
  Sorted, merged, upsert, scalar-upsert, scalar-upsert_other, ℕ, zero, suc, ◌+◌, ◌≤◌, ◌≡◌, refl,
  sym, subst, ap, ◌∙◌, ◌⊎◌, inl, inr, Bool, true, false, Option, none, some, List, [], ◌∷◌, arith,
}
use sre_tab.Ingest.Fetch.{Limiter, time_of, last_of, slot, wait}

-- A call: its host, what the clock reads when it takes the lock, and how much later than its slot
-- it returns.
pub record Call : Type 0 where
  pub host : Text
  pub now : ℕ
  pub overshoot : ℕ

-- The slots of the calls for one host, of calls for any hosts at any times, in the order in which
-- they take the lock.
unfoldable pub slots : ℕ → Limiter → Text → List Call → List ℕ
unfolding slot wait
slots min_interval last host [] = []
slots min_interval last host (call ∷ calls) =
    let rest = slots min_interval (wait min_interval last call.host call.now) host calls in
    if call.host == host then slot min_interval last call.host call.now ∷ rest else rest

-- When these calls return.
unfoldable pub returns : ℕ → Limiter → Text → List Call → List ℕ
unfolding slot wait
returns min_interval last host [] = []
returns min_interval last host (call ∷ calls) =
    let rest = returns min_interval (wait min_interval last call.host call.now) host calls in
    if call.host == host
    then (slot min_interval last call.host call.now + call.overshoot) ∷ rest
    else rest

-- The first time is at or after the bound, the next one an interval after that, and so on.
unfoldable pub Paced : ℕ → ℕ → List ℕ → Type 0
Paced min_interval bound [] = Unit
Paced min_interval bound (t ∷ ts) = (bound ≤ t) × Paced min_interval (bound + min_interval) ts

-- At least the interval later.
abbrev pub spaced : ℕ → ℕ → ℕ → Bool
spaced min_interval earlier later = leb (earlier + min_interval) later

slot-ge :
    (min_interval : ℕ) (last : Limiter) (host : Text) (now : ℕ)
    → 1 ≤ min_interval
    → last_of host last + min_interval ≤ slot min_interval last host now
unfolding slot
slot-ge min_interval last host now h = rw (leb_false min_interval h) omega arith
  where
    leb_false : (i : ℕ) → 1 ≤ i → leb i 0 ≡ false
    leb_false i g = ground arith

-- A call with an interval takes its time and writes it down.
wait_writes :
    (min_interval : ℕ) (last : Limiter) (host : Text) (now : ℕ)
    → 1 ≤ min_interval
    → wait min_interval last host now
      ≡ upsert
          (λ entry. entry.0 == host)
          (host, slot min_interval last host now)
          (λ entry. (host, slot min_interval last host now))
          last
unfolding wait
wait_writes zero last host now h = absurd (ground arith)
wait_writes (suc i) last host now h = ground arith

time_of-merged :
    (host : Text) (t : ℕ) (old : Option (Text × ℕ))
    → time_of (some (merged (host, t) (λ entry. (host, t)) old)) ≡ t
unfolding time_of merged
time_of-merged host t none = refl
time_of-merged host t (some entry) = refl

last_of-wait_same :
    (min_interval : ℕ) (last : Limiter) (host : Text) (now : ℕ)
    → 1 ≤ min_interval
    → last_of host (wait min_interval last host now) ≡ slot min_interval last host now
unfolding last_of
last_of-wait_same min_interval last host now h =
    let t = slot min_interval last host now in
    let is_host = λ (entry : Text × ℕ). entry.0 == host in
    ap (last_of host) (wait_writes min_interval last host now h)
    ∙ ap time_of (
        scalar-upsert is_host (host, t) (λ entry. (host, t)) last (eq_refl {K = Text} host)
          (λ _ _. eq_refl {K = Text} host))
    ∙ time_of-merged host t (scalar is_host last)

last_of-wait_other :
    (min_interval : ℕ) (last : Limiter) (host other : Text) (now : ℕ)
    → 1 ≤ min_interval
    → (other == host) ≡ false
    → last_of host (wait min_interval last other now) ≡ last_of host last
unfolding last_of
last_of-wait_other min_interval last host other now positive h =
    let t = slot min_interval last other now in
    ap (last_of host) (wait_writes min_interval last other now positive)
    ∙ ap time_of (
        scalar-upsert_other (λ entry. entry.0 == host) (λ entry. entry.0 == other) (other, t)
          (λ entry. (other, t)) last h
          (λ entry e.
            subst (λ (k : Text). (k == host) ≡ false) (sym (eq_of_true {K = Text} entry.0 other e))
              h)
          (λ entry _. h))

-- Calls for the host get slots at least an interval later than the state says.
slots_later :
    (min_interval : ℕ) (host : Text) (bound : ℕ) (calls : List Call) (last : Limiter)
    → 1 ≤ min_interval
    → bound ≤ last_of host last
    → All (λ later. spaced min_interval bound later ≡ true) (slots min_interval last host calls)
unfolding slots
slots_later i host bound [] last positive h = tt
slots_later i host bound (call ∷ calls) last positive h =
    step (Bool-cases (call.host == host))
      (λ le. slots_later i host bound calls (wait i last call.host call.now) positive le)
  where
    rest : List ℕ
    rest = slots i (wait i last call.host call.now) host calls

    step :
        ((call.host == host) ≡ true) ⊎ ((call.host == host) ≡ false)
        → (bound ≤ last_of host (wait i last call.host call.now)
            → All (λ later. spaced i bound later ≡ true) rest)
        → All (λ later. spaced i bound later ≡ true) (slots i last host (call ∷ calls))
    step (inr differ) ih = rw differ (
        ih (
          subst (λ n. bound ≤ n)
            (sym (last_of-wait_other i last host call.host call.now positive differ)) h))
    step (inl same) ih =
        let of_host : bound ≤ last_of call.host last =
          subst (λ (k : Text). bound ≤ last_of k last)
            (sym (eq_of_true {K = Text} call.host host same)) h in
        let here : bound + i ≤ slot i last call.host call.now =
          omega (arith, slot-ge i last call.host call.now positive) in
        let kept : last_of host (wait i last call.host call.now) ≡ slot i last call.host call.now =
          subst
            (λ (k : Text).
              last_of k (wait i last call.host call.now) ≡ slot i last call.host call.now)
            (eq_of_true {K = Text} call.host host same)
            (last_of-wait_same i last call.host call.now positive) in
        rw same (ground (arith, here), ih (omega (arith, here, kept)))

slots-Sorted :
    (min_interval : ℕ) (last : Limiter) (host : Text) (calls : List Call)
    → 1 ≤ min_interval
    → Sorted (spaced min_interval) (slots min_interval last host calls)
unfolding slots
slots-Sorted i last host [] positive = tt
slots-Sorted i last host (call ∷ calls) positive =
    let later : Sorted (spaced i) (slots i (wait i last call.host call.now) host calls) =
      slots-Sorted i (wait i last call.host call.now) host calls positive in
    elim (Bool-cases (call.host == host)) [
      | inl same ↦ rw same (
        slots_later i host (slot i last call.host call.now) calls (wait i last call.host call.now)
            positive
            (subst
              (λ (k : Text).
                slot i last call.host call.now ≤ last_of k (wait i last call.host call.now))
              (eq_of_true {K = Text} call.host host same)
              (omega (arith, last_of-wait_same i last call.host call.now positive))),
        later,
      )
      | inr differ ↦ rw differ later
    ]

-- The calls for the host return no faster than one for each interval after its last slot.
returns-Paced :
    (min_interval : ℕ) (host : Text) (bound : ℕ) (calls : List Call) (last : Limiter)
    → 1 ≤ min_interval
    → bound ≤ last_of host last + min_interval
    → Paced min_interval bound (returns min_interval last host calls)
unfolding returns Paced
returns-Paced i host bound [] last positive h = tt
returns-Paced i host bound (call ∷ calls) last positive h = elim (Bool-cases (call.host == host)) [
  | inl same ↦
      let e : call.host ≡ host = eq_of_true {K = Text} call.host host same in
      let slot_ge : bound ≤ slot i last call.host call.now =
        subst (λ n. n ≤ slot i last call.host call.now) refl
          (omega (
            arith,
            h,
            slot-ge i last call.host call.now positive,
            ap (λ (k : Text). last_of k last) e,
          )) in
      let kept : last_of host (wait i last call.host call.now) ≡ slot i last call.host call.now =
        subst
          (λ (k : Text).
            last_of k (wait i last call.host call.now) ≡ slot i last call.host call.now)
          e (last_of-wait_same i last call.host call.now positive) in
      rw same (
        omega (arith, slot_ge),
        returns-Paced i host (bound + i) calls (wait i last call.host call.now) positive
            (omega (arith, slot_ge, kept)),
      )
  | inr differ ↦ rw differ (
      returns-Paced i host bound calls (wait i last call.host call.now) positive
        (omega (arith, h, last_of-wait_other i last host call.host call.now positive differ)))
]

-- With a positive interval, in any order of calls for any hosts and whatever the clock reads when
-- each is made: the times up to which the calls for one host wait are at least that interval apart;
-- and if each call returns at its time or later, by any amount, the first of them returns an
-- interval after the host's last time, or later, the second two intervals after it, and so on.
pub slots-returns :
    (min_interval : ℕ) (last : Limiter) (host : Text) (calls : List Call)
    → 1 ≤ min_interval
    → Sorted (spaced min_interval) (slots min_interval last host calls)
      × Paced min_interval (last_of host last + min_interval) (returns min_interval last host calls)
slots-returns i last host calls positive = (
  slots-Sorted i last host calls positive,
  returns-Paced i host (last_of host last + i) calls last positive (omega arith),
)
