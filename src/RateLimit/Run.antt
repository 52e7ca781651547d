-- ===== src/RateLimit/Run.antt =====
-- A run of calls of app/auth/ratelimit.py by many keys, and how many of one key's events it
-- records within a window.
use sre_tab.Common.{
  ℕ, ◌+◌, ◌≤◌, ◌<◌, ◌≡◌, refl, ap, ◌∙◌, Bool, true, false, ◌&&◌, List, [], ◌∷◌, ◌++◌, ltb, leb,
  if◌then◌else◌, length, Text, ◌==◌, text_eq, arith, inl, inr, Bool-cases, eq_of_true, count_rows,
}
use sre_tab.RateLimit.{Config, max_keys, expire, Events, events_of, prune_expired, hit, is_limited}
use sre_tab.RateLimit.Keys.{Distinct}
use sre_tab.RateLimit.Deque.{
  live, Ordered, Ordered-later, Ordered-append, expire-Ordered, count_rows-expire,
  count_rows-append_one,
}
use sre_tab.RateLimit.Window.{
  hit-Distinct, hit_verdict, events_of-hit, events_of-prune_room, prune-Distinct,
}

-- A call with its clock reading and its key.
pub data Call : Type 0 where
  hit_call : ℕ → Text → Call
  limited_call : ℕ → Text → Call

abbrev pub time : Call → ℕ
time (hit_call t j) = t
time (limited_call t j) = t

abbrev pub caller : Call → Text
caller (hit_call t j) = j
caller (limited_call t j) = j

unfoldable pub step : Config → Call → Events → Events
step c (hit_call t j) es = (hit c t j es).0
step c (limited_call t j) es = (is_limited c t j es).0

-- The dictionary after the calls.
unfoldable pub run : Config → List Call → Events → Events
run c [] es = es
run c (call ∷ calls) es = run c calls (step c call es)

-- The call records an event of `k`.
unfoldable pub records : Config → Text → Call → Events → Bool
records c k (hit_call t j) es = (hit c t j es).1 && j == k
records c k (limited_call t j) es = false

-- The times at which the run records an event of `k`, newest first, in front of `past`.
unfoldable pub admitted : Config → Text → List Call → Events → List ℕ → List ℕ
admitted c k [] es past = past
admitted c k (call ∷ calls) es past =
    admitted c k calls (step c call es) (if records c k call es then time call ∷ past else past)

-- The clock does not go back.
abbrev pub Timed : ℕ → List Call → Type 0
Timed now [] = Unit
Timed now (call ∷ calls) = (now ≤ time call) × Timed (time call) calls

-- No call finds so many keys with live events that one must be evicted.
abbrev pub Roomy : Config → List Call → Events → Type 0
Roomy c [] es = Unit
Roomy c (call ∷ calls) es =
    (length (prune_expired (time call) c.window_seconds (caller call) es) < max_keys)
    × Roomy c calls (step c call es)

-- At each event at most `limit` events were in the window that ends there.
abbrev Spaced : Config → List ℕ → Type 0
Spaced c [] = Unit
Spaced c (t ∷ past) = (count_rows (live t c.window_seconds) (t ∷ past) ≤ c.limit) × Spaced c past

record Tracks (c : Config) (k : Text) (now : ℕ) (es : Events) (past : List ℕ) : Type 0 where
  distinct : Distinct es
  ordered : Ordered now (events_of k es)
  counted :
      (later : ℕ)
      → now ≤ later
      → count_rows (live later c.window_seconds) (events_of k es)
        ≡ count_rows (live later c.window_seconds) past
  spaced : Spaced c past

-- The deque after the call.
events_of-step :
    (c : Config) (k : Text) (call : Call) (es : Events)
    → Distinct es
    → length (prune_expired (time call) c.window_seconds (caller call) es) < max_keys
    → events_of k (step c call es) ≡ (
        if records c k call es
        then expire (time call) c.window_seconds (events_of k es) ++ time call ∷ []
        else expire (time call) c.window_seconds (events_of k es))
unfolding step records
events_of-step c k (hit_call t j) es d room = events_of-hit c t j k es d room
events_of-step c k (limited_call t j) es d room =
    unfold is_limited in events_of-prune_room c t j k es d room

pub step-Distinct :
    (c : Config) (call : Call) (es : Events) → Distinct es → Distinct (step c call es)
unfolding step is_limited
step-Distinct c (hit_call t j) es d = hit-Distinct c t j es d
step-Distinct c (limited_call t j) es d = prune-Distinct c t j es d

-- A recorded event of `k` had room in its window.
records-lt :
    (c : Config) (k : Text) (call : Call) (es : Events)
    → Distinct es
    → Ordered (time call) (events_of k es)
    → records c k call es ≡ true
    → count_rows (live (time call) c.window_seconds) (events_of k es) < c.limit
unfolding records
records-lt c k (hit_call t j) es d o h = elim (Bool-cases (j == k)) [
  | inl same ↦
      let e = eq_of_true j k same in
      ground (arith, hit_verdict c t k es d o, ap (λ i. (hit c t i es).1) e)
  | inr other ↦ ground arith
]
records-lt c k (limited_call t j) es d o h = ground arith

counted-step :
    (p : ℕ → Bool) (t : ℕ) (ts us past : List ℕ)
    → count_rows p us ≡ count_rows p ts
    → count_rows p ts ≡ count_rows p past
    → count_rows p (us ++ t ∷ []) ≡ count_rows p (t ∷ past)
unfolding count_rows
counted-step p t ts us past e f = ground (arith, count_rows-append_one p us t)

spaced-step :
    (p : ℕ → Bool) (t n : ℕ) (ts past : List ℕ)
    → count_rows p ts < n
    → count_rows p ts ≡ count_rows p past
    → count_rows p (t ∷ past) ≤ n
unfolding count_rows
spaced-step p t n ts past h e = ground arith

module _ (c : Config) (k : Text) (call : Call) (now : ℕ) (es : Events) (past : List ℕ)
    (le : now ≤ time call)
    (room : length (prune_expired (time call) c.window_seconds (caller call) es) < max_keys)
    (h : Tracks c k now es past) where
  abbrev rest : List ℕ
  rest = expire (time call) c.window_seconds (events_of k es)

  rest-Ordered : Ordered (time call) rest
  rest-Ordered =
      expire-Ordered (time call) c.window_seconds (events_of k es)
        (Ordered-later now (time call) (events_of k es) le h.ordered)

  Tracks-recorded :
      records c k call es ≡ true → Tracks c k (time call) (step c call es) (time call ∷ past)
  Tracks-recorded r =
      let e : events_of k (step c call es) ≡ rest ++ time call ∷ [] =
        events_of-step c k call es h.distinct room ∙ (rw r) in
      record {
        distinct = step-Distinct c call es h.distinct;
        ordered = rw e (Ordered-append (time call) rest rest-Ordered);
        counted = λ later lt. rw e (
            counted-step (live later c.window_seconds) (time call) (events_of k es) rest past
              (count_rows-expire (time call) later c.window_seconds (events_of k es) lt)
              (h.counted later (omega arith)));
        spaced = (
          spaced-step (live (time call) c.window_seconds) (time call) c.limit (events_of k es) past
              (records-lt c k call es h.distinct
                (Ordered-later now (time call) (events_of k es) le h.ordered) r)
              (h.counted (time call) le),
          h.spaced,
        );
      }

  Tracks-passed : records c k call es ≡ false → Tracks c k (time call) (step c call es) past
  Tracks-passed r =
      let e : events_of k (step c call es) ≡ rest =
        events_of-step c k call es h.distinct room ∙ (rw r) in
      record {
        distinct = step-Distinct c call es h.distinct;
        ordered = rw e rest-Ordered;
        counted = λ later lt. rw e (
            count_rows-expire (time call) later c.window_seconds (events_of k es) lt
            ∙ h.counted later (omega arith));
        spaced = h.spaced;
      }

admitted-Spaced :
    (c : Config) (k : Text) (calls : List Call) (now : ℕ) (es : Events) (past : List ℕ)
    → Timed now calls
    → Roomy c calls es
    → Tracks c k now es past
    → Spaced c (admitted c k calls es past)
unfolding admitted
admitted-Spaced c k [] now es past timed roomy h = h.spaced
admitted-Spaced c k (call ∷ calls) now es past timed roomy h =
    elim (Bool-cases (records c k call es)) [
      | inl r ↦ rw r (
          admitted-Spaced c k calls (time call) (step c call es) (time call ∷ past) timed.1 roomy.1
            (Tracks-recorded c k call now es past timed.0 roomy.0 h r))
      | inr r ↦ rw r (
          admitted-Spaced c k calls (time call) (step c call es) past timed.1 roomy.1
            (Tracks-passed c k call now es past timed.0 roomy.0 h r))
    ]

-- The event falls into the window that ends at `moment`.
abbrev pub in_window : ℕ → ℕ → ℕ → Bool
in_window moment w t = leb t moment && ltb moment (t + w)

count_rows_mono :
    (p q : ℕ → Bool) (ts : List ℕ)
    → ((t : ℕ) → p t ≡ true → q t ≡ true)
    → count_rows p ts ≤ count_rows q ts
unfolding count_rows
count_rows_mono p q [] h = omega arith
count_rows_mono p q (t ∷ ts) h = ground (arith, h t, count_rows_mono p q ts h)

Spaced-bound :
    (c : Config) (moment : ℕ) (past : List ℕ)
    → Spaced c past
    → count_rows (in_window moment c.window_seconds) past ≤ c.limit
unfolding count_rows
Spaced-bound c moment [] s = omega arith
Spaced-bound c moment (t ∷ past) s = elim (Bool-cases (leb t moment)) [
  | inl before ↦ omega (
    arith,
    s.0,
    count_rows_mono (in_window moment c.window_seconds) (live t c.window_seconds) (t ∷ past)
        (λ u inside. ground arith),
  )
  | inr after ↦ rw after (Spaced-bound c moment past s.1)
]

-- However many calls of however many keys are made, in clock order and without evictions, every
-- window of `window_seconds` contains at most `limit` recorded events of a key.
pub admitted-le-limit :
    (c : Config) (k : Text) (calls : List Call) (moment : ℕ)
    → Timed 0 calls
    → Roomy c calls []
    → count_rows (in_window moment c.window_seconds) (admitted c k calls [] []) ≤ c.limit
admitted-le-limit c k calls moment timed roomy = Spaced-bound c moment (admitted c k calls [] []) (
    admitted-Spaced c k calls 0 [] [] timed roomy (record {
      distinct = tt;
      ordered = unfold events_of in tt;
      counted = λ later h. unfold events_of in refl;
      spaced = tt;
    }))
