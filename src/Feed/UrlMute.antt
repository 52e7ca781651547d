-- ===== src/Feed/UrlMute.antt =====
-- `_url_muted` of app/services/feed.py: URL mutes match on component boundaries.
use sre_tab.Common.{
  ◌≡◌, ◌↔◌, refl, Bool, true, false, ◌&&◌, ◌||◌, Option, none, some, List, [], ◌∷◌, ◌++◌,
  if◌then◌else◌, Text, text_eq, nat_eq, arith, inl, inr, Bool-cases, eqb_iff, codes, eqb, length,
  drop, exists_row, starts_with, lower,
}
use sre_tab.Models.{User, FeedItem, UserMutedTerm, mute_kind_eq, url}

-- `_URL_PREFIXES`
abbrev pub url_prefixes : List Text
url_prefixes = codes "https://www." ∷ codes "https://" ∷ codes "http://www." ∷ codes "http://" ∷ []

-- The `CASE`: what follows the first of the prefixes that fits, or NULL.
unfoldable pub strip_prefixes : List Text → Text → Option Text
strip_prefixes [] address = none
strip_prefixes (prefix ∷ prefixes) address =
    let others = strip_prefixes prefixes address in
    if starts_with prefix address then some (drop (length prefix) address) else others

-- `_URL_BOUNDARIES`: nothing, "/" or "?" follows the term.
unfoldable pub is_boundary : Text → Bool
is_boundary [] = true
is_boundary (c ∷ rest) = eqb c b'/' || eqb c b'?'

-- The two `substr` tests of one stored term.
unfoldable pub term_matches : Text → Option Text → Bool
unfolding is_boundary
term_matches term none = false
term_matches term (some key) = starts_with term key && is_boundary (drop (length term) key)

-- The key of an item's URL.
unfoldable pub url_key : Text → Option Text
unfolding strip_prefixes
url_key address = strip_prefixes url_prefixes (lower address)

unfoldable pub url_muted : User → List UserMutedTerm → FeedItem → Bool
unfolding url_key term_matches
url_muted user muted item =
    exists_row
      (λ m.
        eqb m.user_id user.id
        && mute_kind_eq m.kind url
        && term_matches m.term (url_key item.canonical_url))
      muted

starts_with-split : (p s : Text) → starts_with p s ≡ true → s ≡ p ++ drop (length p) s
unfolding starts_with
starts_with-split [] s h = refl
starts_with-split (c ∷ p) [] h = absurd (ground (arith, h))
starts_with-split (c ∷ p) (d ∷ s) h = ground (arith, starts_with-split p s)

starts_with-append : (p s : Text) → starts_with p (p ++ s) ≡ true
unfolding starts_with
starts_with-append [] s = refl
starts_with-append (c ∷ p) s = ground (arith, starts_with-append p s)

drop-append : (p s : Text) → drop (length p) (p ++ s) ≡ s
drop-append [] s = refl
drop-append (c ∷ p) s = drop-append p s

-- What may stand between a muted term and the rest of a URL.
pub data Continues : Text → Type 0 where
  ends : Continues []
  segment : (rest : Text) → Continues (b'/' ∷ rest)
  query : (rest : Text) → Continues (b'?' ∷ rest)

is_boundary-Continues : (s : Text) → is_boundary s ≡ true → Continues s
unfolding is_boundary
is_boundary-Continues [] h = ends
is_boundary-Continues (c ∷ rest) h = elim (Bool-cases (eqb c b'/')) [
  | inl slash ↦ rw ((eqb_iff c b'/').0 slash) (segment rest)
  | inr other ↦ rw ((eqb_iff c b'?').0 (ground arith)) (query rest)
]

Continues-is_boundary : {s : Text} → Continues s → is_boundary s ≡ true
unfolding is_boundary
Continues-is_boundary ends = refl
Continues-is_boundary (segment rest) = refl
Continues-is_boundary (query rest) = refl

-- A term matches a key exactly when the key is the term, followed by nothing, by a "/" or by a
-- "?": never as a string prefix that ends inside a component.
pub term_matches_iff :
    (term key : Text)
    → (term_matches term (some key) ≡ true)
      ↔ ((rest : Text) × (key ≡ term ++ rest) × Continues rest)
unfolding term_matches
term_matches_iff term key = (
  (λ h. (
    drop (length term) key,
    starts_with-split term key (ground arith),
    is_boundary-Continues _ (ground arith),
  )),
  λ (rest, e, c).
      rw (e, starts_with-append term rest, drop-append term rest) (Continues-is_boundary c),
)
