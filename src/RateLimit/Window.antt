-- ===== src/RateLimit/Window.antt =====
-- The deque of one key through a call of app/auth/ratelimit.py, whatever else is tracked.
use sre_tab.Common.{
  ℕ, zero, suc, ◌<◌, ◌≡◌, refl, ap, ◌∙◌, true, false, ◌&&◌, Option, none, some, [], ◌∷◌, ◌++◌, ltb,
  leb, if◌then◌else◌, length, Text, ◌==◌, text_eq, arith, inl, inr, Bool-cases, eq_of_true,
  ne_of_false, Option-cases, count_rows, lt→ltb,
}
use sre_tab.RateLimit.{
  Config, max_keys, expire, last_event, Events, events_of, tracked, prune_expired, stale_from,
  delete_key, evict, prune, hit,
}
use sre_tab.RateLimit.Keys.{
  Distinct, prune_expired-Distinct, events_of-prune_expired, events_of-set_default,
  events_of-store_events_self, events_of-store_events_ne, events_of-delete_key_ne,
  tracked-set_default, set_default-Distinct, store_events-Distinct, delete_key-Distinct,
}
use sre_tab.RateLimit.Deque.{live, Ordered, length-expire}

-- What `min` picks is never the key being checked.
stale_from-ne :
    (key : Text) (best : Option (Text × ℕ)) (es : Events) (s : Text) (t : ℕ)
    → ((b : Text) (u : ℕ) → best ≡ some (b, u) → (b == key) ≡ false)
    → stale_from key best es ≡ some (s, t)
    → (s == key) ≡ false
unfolding stale_from
stale_from-ne key best [] s t other h = other s t h
stale_from-ne key none ((k, ts) ∷ es) s t other h =
    stale_from-ne key (if k == key then none else some (k, last_event ts)) es s t
      (λ b u p. ground arith) h
stale_from-ne key (some (b, u)) ((k, ts) ∷ es) s t other h =
    stale_from-ne key _ es s t (λ b' u' p. ground (arith, other b u refl)) h

pub events_of-evict :
    (rounds : ℕ) (key : Text) (es : Events) → events_of key (evict rounds key es) ≡ events_of key es
unfolding evict
events_of-evict zero key es = refl
events_of-evict (suc rounds) key es = elim (Bool-cases (ltb (length es) max_keys)) [
  | inl room ↦ rw room
  | inr full ↦ rw full (elim (Option-cases (stale_from key none es)) [
    | inl nobody ↦ rw nobody
    | inr ((s, t), found) ↦ rw found (
        events_of-evict rounds key (delete_key s es)
        ∙ events_of-delete_key_ne s key es
            (ne_of_false s key (stale_from-ne key none es s t (λ b u p. ground arith) found)))
  ])
]

-- Whatever else is tracked, pruning leaves the checked key the live part of its own deque.
pub events_of-prune :
    (c : Config) (now : ℕ) (key : Text) (es : Events)
    → Distinct es
    → events_of key (prune c now key es) ≡ expire now c.window_seconds (events_of key es)
unfolding prune
events_of-prune c now key es d =
    events_of-set_default key key _
    ∙ events_of-evict _ key _
    ∙ events_of-prune_expired now c.window_seconds key key es d

pub evict-Distinct :
    (rounds : ℕ) (key : Text) (es : Events) → Distinct es → Distinct (evict rounds key es)
unfolding evict
evict-Distinct zero key es d = d
evict-Distinct (suc rounds) key es d = elim (Bool-cases (ltb (length es) max_keys)) [
  | inl room ↦ rw room d
  | inr full ↦ rw full (elim (Option-cases (stale_from key none es)) [
    | inl nobody ↦ rw nobody d
    | inr ((s, t), found) ↦
        rw found (evict-Distinct rounds key (delete_key s es) (delete_key-Distinct s es d))
  ])
]

pub prune-Distinct :
    (c : Config) (now : ℕ) (key : Text) (es : Events) → Distinct es → Distinct (prune c now key es)
unfolding prune
prune-Distinct c now key es d =
    set_default-Distinct key _
      (evict-Distinct _ key _ (prune_expired-Distinct now c.window_seconds key es d))

pub hit-Distinct :
    (c : Config) (now : ℕ) (key : Text) (es : Events) → Distinct es → Distinct (hit c now key es).0
unfolding hit
hit-Distinct c now key es d =
    elim (Bool-cases (leb c.limit (length (events_of key (prune c now key es))))) [
      | inl over ↦ rw over (prune-Distinct c now key es d)
      | inr under ↦ rw under (store_events-Distinct key _ _ (prune-Distinct c now key es d))
    ]

-- In a dictionary without a key twice, whose deque for the key is in clock order and not past the
-- present, a hit is recorded exactly when the key has fewer than `limit` events inside the window,
-- and this does not depend on what other keys have done.
pub hit_verdict :
    (c : Config) (now : ℕ) (key : Text) (es : Events)
    → Distinct es
    → Ordered now (events_of key es)
    → (hit c now key es).1 ≡ ltb (count_rows (live now c.window_seconds) (events_of key es)) c.limit
unfolding hit
hit_verdict c now key es d o =
    ground (
      arith,
      events_of-prune c now key es d,
      length-expire now c.window_seconds (events_of key es) o,
    )

evict_room :
    (rounds : ℕ) (key : Text) (es : Events) → length es < max_keys → evict rounds key es ≡ es
unfolding evict
evict_room zero key es h = refl
evict_room (suc rounds) key es h = rw (lt→ltb (length es) max_keys h)

-- While no key is evicted, pruning for one key expires the deques of the others and no more.
pub events_of-prune_room :
    (c : Config) (now : ℕ) (j k : Text) (es : Events)
    → Distinct es
    → length (prune_expired now c.window_seconds j es) < max_keys
    → events_of k (prune c now j es) ≡ expire now c.window_seconds (events_of k es)
unfolding prune
events_of-prune_room c now j k es d room =
    events_of-set_default j k _
    ∙ ap (events_of k) (evict_room _ j _ room)
    ∙ events_of-prune_expired now c.window_seconds j k es d

tracked-prune :
    (c : Config) (now : ℕ) (k : Text) (es : Events) → tracked k (prune c now k es) ≡ true
unfolding prune
tracked-prune c now k es = tracked-set_default k _

-- The deque of `k` after a hit of `j`: expired, with the event at its end if it was recorded.
pub events_of-hit :
    (c : Config) (now : ℕ) (j k : Text) (es : Events)
    → Distinct es
    → length (prune_expired now c.window_seconds j es) < max_keys
    → events_of k (hit c now j es).0 ≡ (
        if (hit c now j es).1 && j == k
        then expire now c.window_seconds (events_of k es) ++ now ∷ []
        else expire now c.window_seconds (events_of k es))
unfolding hit
events_of-hit c now j k es d room =
    elim (Bool-cases (leb c.limit (length (events_of j (prune c now j es))))) [
      | inl over ↦ rw over (events_of-prune_room c now j k es d room)
      | inr under ↦ rw under (elim (Bool-cases (j == k)) [
        | inl same ↦ rw same rw (← eq_of_true j k same) (
            events_of-store_events_self j _ _ (tracked-prune c now j es)
            ∙ ap (λ ts. ts ++ now ∷ []) (events_of-prune c now j es d))
        | inr other ↦ rw other (
            events_of-store_events_ne j k _ _ (ne_of_false j k other)
            ∙ events_of-prune_room c now j k es d room)
      ])
    ]
