-- ===== src/RateLimit/Keys.antt =====
-- What the dictionary operations of app/auth/ratelimit.py do to the deque of one key.
use sre_tab.Common.{
  ℕ, ◌≡◌, ◌≢◌, refl, sym, ◌∙◌, true, false, not, ◌&&◌, List, [], ◌∷◌, ◌++◌, Text, ◌==◌, text_eq,
  text_beq_iff, arith, inl, inr, Bool-cases, eq_refl,
}
use sre_tab.RateLimit.{
  expire, is_empty, Events, events_of, tracked, store_events, prune_expired, delete_key,
  set_default,
}

-- No key has two entries.
abbrev pub Distinct : Events → Type 0
Distinct [] = Unit
Distinct ((k, ts) ∷ rest) = (tracked k rest ≡ false) × Distinct rest

pub events_of_untracked : (k : Text) (es : Events) → tracked k es ≡ false → events_of k es ≡ []
unfolding tracked events_of
events_of_untracked k [] h = refl
events_of_untracked k ((j, ts) ∷ es) h = ground (arith, events_of_untracked k es)

pub tracked-prune_expired :
    (now w : ℕ) (j k : Text) (es : Events)
    → tracked k es ≡ false
    → tracked k (prune_expired now w j es) ≡ false
unfolding tracked prune_expired
tracked-prune_expired now w j k [] h = refl
tracked-prune_expired now w j k ((i, ts) ∷ es) h =
    ground (arith, tracked-prune_expired now w j k es)

pub prune_expired-Distinct :
    (now w : ℕ) (j : Text) (es : Events) → Distinct es → Distinct (prune_expired now w j es)
unfolding prune_expired
prune_expired-Distinct now w j [] d = tt
prune_expired-Distinct now w j ((i, ts) ∷ es) d =
    elim (Bool-cases (is_empty (expire now w ts) && not (i == j))) [
      | inl gone ↦ rw gone (prune_expired-Distinct now w j es d.1)
      | inr kept ↦
          rw kept (tracked-prune_expired now w j i es d.0, prune_expired-Distinct now w j es d.1)
    ]

is_empty_eq : (ts : List ℕ) → is_empty ts ≡ true → ts ≡ []
unfolding is_empty
is_empty_eq [] h = refl
is_empty_eq (t ∷ ts) h = ground arith

expire-nil : (now w : ℕ) → expire now w [] ≡ []
unfolding expire
expire-nil now w = refl

-- The first loop expires the deque of every key, whoever is being checked.
pub events_of-prune_expired :
    (now w : ℕ) (j k : Text) (es : Events)
    → Distinct es
    → events_of k (prune_expired now w j es) ≡ expire now w (events_of k es)
unfolding prune_expired events_of
events_of-prune_expired now w j k [] d = sym (expire-nil now w)
events_of-prune_expired now w j k ((i, ts) ∷ es) d = ground (
  arith,
  text_beq_iff i k,
  is_empty_eq (expire now w ts),
  events_of_untracked i es d.0,
  events_of-prune_expired now w j k es d.1,
  expire-nil now w,
)

-- `setdefault` gives a key that is not there what `events_of` reads for it anyway.
events_of-append : (j k : Text) (es : Events) → events_of k (es ++ (j, []) ∷ []) ≡ events_of k es
unfolding events_of
events_of-append j k [] = ground arith
events_of-append j k ((i, ts) ∷ es) = ground (arith, events_of-append j k es)

pub events_of-set_default :
    (j k : Text) (es : Events) → events_of k (set_default j es) ≡ events_of k es
unfolding set_default
events_of-set_default j k es = ground (arith, events_of-append j k es)

pub events_of-store_events_self :
    (k : Text) (ts : List ℕ) (es : Events)
    → tracked k es ≡ true
    → events_of k (store_events k ts es) ≡ ts
unfolding events_of store_events tracked
events_of-store_events_self k ts [] h = ground arith
events_of-store_events_self k ts ((i, us) ∷ es) h =
    ground (arith, events_of-store_events_self k ts es)

pub events_of-store_events_ne :
    (j k : Text) (ts : List ℕ) (es : Events)
    → j ≢ k
    → events_of k (store_events j ts es) ≡ events_of k es
unfolding events_of store_events
events_of-store_events_ne j k ts [] h = refl
events_of-store_events_ne j k ts ((i, us) ∷ es) h =
    ground (arith, events_of-store_events_ne j k ts es h, text_beq_iff i j, text_beq_iff i k)

pub events_of-delete_key_ne :
    (j k : Text) (es : Events) → j ≢ k → events_of k (delete_key j es) ≡ events_of k es
unfolding events_of delete_key
events_of-delete_key_ne j k [] h = refl
events_of-delete_key_ne j k ((i, us) ∷ es) h =
    ground (arith, events_of-delete_key_ne j k es h, text_beq_iff i j, text_beq_iff i k)

tracked-append_self : (k : Text) (es : Events) → tracked k (es ++ (k, []) ∷ []) ≡ true
unfolding tracked
tracked-append_self k [] = ground (arith, eq_refl k)
tracked-append_self k ((i, ts) ∷ es) = ground (arith, tracked-append_self k es)

pub tracked-set_default : (k : Text) (es : Events) → tracked k (set_default k es) ≡ true
unfolding set_default
tracked-set_default k es = ground (arith, tracked-append_self k es)

tracked-append_ne :
    (j k : Text) (es : Events)
    → (j == k) ≡ false
    → tracked k es ≡ false
    → tracked k (es ++ (j, []) ∷ []) ≡ false
unfolding tracked
tracked-append_ne j k [] n h = ground arith
tracked-append_ne j k ((i, ts) ∷ es) n h = ground (arith, tracked-append_ne j k es n)

append-Distinct :
    (k : Text) (es : Events) → tracked k es ≡ false → Distinct es → Distinct (es ++ (k, []) ∷ [])
unfolding tracked
append-Distinct k [] h d = (refl, tt)
append-Distinct k ((i, ts) ∷ es) h d = (
  tracked-append_ne k i es (ground (arith, text_beq_iff i k, text_beq_iff k i)) d.0,
  append-Distinct k es (ground arith) d.1,
)

pub set_default-Distinct : (k : Text) (es : Events) → Distinct es → Distinct (set_default k es)
unfolding set_default
set_default-Distinct k es d = elim (Bool-cases (tracked k es)) [
  | inl old ↦ rw old d
  | inr new ↦ rw new (append-Distinct k es new d)
]

tracked-store_events :
    (j k : Text) (ts : List ℕ) (es : Events) → tracked k (store_events j ts es) ≡ tracked k es
unfolding tracked store_events
tracked-store_events j k ts [] = refl
tracked-store_events j k ts ((i, us) ∷ es) = ground (arith, tracked-store_events j k ts es)

pub store_events-Distinct :
    (k : Text) (ts : List ℕ) (es : Events) → Distinct es → Distinct (store_events k ts es)
unfolding store_events
store_events-Distinct k ts [] d = tt
store_events-Distinct k ts ((i, us) ∷ es) d = elim (Bool-cases (i == k)) [
  | inl here ↦ rw here d
  | inr next ↦ rw next (tracked-store_events k i ts es ∙ d.0, store_events-Distinct k ts es d.1)
]

tracked-delete_key :
    (j k : Text) (es : Events) → tracked k es ≡ false → tracked k (delete_key j es) ≡ false
unfolding tracked delete_key
tracked-delete_key j k [] h = refl
tracked-delete_key j k ((i, us) ∷ es) h = ground (arith, tracked-delete_key j k es)

pub delete_key-Distinct : (k : Text) (es : Events) → Distinct es → Distinct (delete_key k es)
unfolding delete_key
delete_key-Distinct k [] d = tt
delete_key-Distinct k ((i, us) ∷ es) d = elim (Bool-cases (i == k)) [
  | inl here ↦ rw here d.1
  | inr next ↦ rw next (tracked-delete_key k i es d.0, delete_key-Distinct k es d.1)
]
