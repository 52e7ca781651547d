-- ===== src/RateLimit/Deque.antt =====
-- One deque of app/auth/ratelimit.py in time order, against the window that it stands for.
use sre_tab.Common.{
  ℕ, ◌+◌, ◌≤◌, ◌<◌, ◌≡◌, refl, Bool, List, [], ◌∷◌, ◌++◌, ltb, leb, length, text_eq, arith, inl,
  inr, Bool-cases, count_rows, leb→lt, All, All-append,
}
use sre_tab.RateLimit.{expire}

-- An event at `t` is inside the window at `now`.
abbrev pub live : ℕ → ℕ → ℕ → Bool
live now w t = ltb now (t + w)

-- A deque in time order, with no event after `now`.
abbrev pub Ordered : ℕ → List ℕ → Type 0
Ordered now [] = Unit
Ordered now (t ∷ ts) = (t ≤ now) × All (λ u. t ≤ u) ts × Ordered now ts

pub Ordered-later : (now now' : ℕ) (ts : List ℕ) → now ≤ now' → Ordered now ts → Ordered now' ts
Ordered-later now now' [] h o = tt
Ordered-later now now' (t ∷ ts) h o = (omega arith, o.1, Ordered-later now now' ts h o.2)

All-le-now : (now : ℕ) (ts : List ℕ) → Ordered now ts → All (λ u. u ≤ now) ts
All-le-now now [] o = tt
All-le-now now (t ∷ ts) o = (o.0, All-le-now now ts o.2)

pub Ordered-append : (now : ℕ) (ts : List ℕ) → Ordered now ts → Ordered now (ts ++ now ∷ [])
Ordered-append now [] o = (omega arith, tt, tt)
Ordered-append now (t ∷ ts) o =
    (o.0, All-append (λ u. t ≤ u) ts (now ∷ []) o.1 (o.0, tt), Ordered-append now ts o.2)

pub expire-Ordered : (now w : ℕ) (ts : List ℕ) → Ordered now ts → Ordered now (expire now w ts)
unfolding expire
expire-Ordered now w [] o = tt
expire-Ordered now w (t ∷ ts) o = elim (Bool-cases (leb (t + w) now)) [
  | inl old ↦ rw old (expire-Ordered now w ts o.2)
  | inr young ↦ rw young o
]

count_live-All :
    (now w t : ℕ) (ts : List ℕ)
    → now < t + w
    → All (λ u. t ≤ u) ts
    → count_rows (live now w) ts ≡ length ts
unfolding count_rows
count_live-All now w t [] h a = refl
count_live-All now w t (u ∷ us) h a = ground (arith, count_live-All now w t us h a.1)

-- What `popleft` leaves of a deque in time order is as many events as the window holds.
pub length-expire :
    (now w : ℕ) (ts : List ℕ)
    → Ordered now ts
    → length (expire now w ts) ≡ count_rows (live now w) ts
unfolding expire count_rows
length-expire now w [] o = refl
length-expire now w (t ∷ ts) o = elim (Bool-cases (leb (t + w) now)) [
  | inl old ↦ ground (arith, length-expire now w ts o.2)
  | inr young ↦ ground (arith, count_live-All now w t ts (leb→lt _ _ young) o.1)
]

-- Expiring now changes nothing that a later window counts.
pub count_rows-expire :
    (now now' w : ℕ) (ts : List ℕ)
    → now ≤ now'
    → count_rows (live now' w) (expire now w ts) ≡ count_rows (live now' w) ts
unfolding expire count_rows
count_rows-expire now now' w [] h = refl
count_rows-expire now now' w (t ∷ ts) h = elim (Bool-cases (leb (t + w) now)) [
  | inl old ↦ ground (arith, count_rows-expire now now' w ts h)
  | inr young ↦ rw young
]

pub count_rows-append_one :
    (p : ℕ → Bool) (ts : List ℕ) (t : ℕ) → count_rows p (ts ++ t ∷ []) ≡ count_rows p (t ∷ ts)
unfolding count_rows
count_rows-append_one p [] t = refl
count_rows-append_one p (u ∷ us) t = ground (arith, count_rows-append_one p us t)
