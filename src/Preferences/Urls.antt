-- ===== src/Preferences/Urls.antt =====
-- `url_mute_term` of app/services/preferences.py: what a muted URL is stored as.
use sre_tab.Common.{
  leb, eqb, if◌then◌else◌, is_some, drop, Text, codes, lower_char, lower, is_nil, strip,
  starts_with, partition, text_eq, nat_eq, ◌==◌, ℕ, Bool, true, false, not, ◌&&◌, ◌||◌, Option,
  none, some, List, [], ◌∷◌, ◌++◌,
}
use sre_tab.Preferences.{
  PatchError, long_term, empty_term, bad_url, Patched, accepted, refused, ◌>>=◌, Link, Texts,
  is_long,
}

-- A character of a scheme after its first.
unfoldable pub is_scheme_char : ℕ → Bool
is_scheme_char c =
    let l = lower_char c in
    (leb b'a' l && leb l b'z')
    || (leb b'0' c && leb c b'9')
    || eqb c b'+'
    || eqb c b'.'
    || eqb c b'-'

unfoldable pub ends_scheme : Text → Bool
unfolding is_scheme_char starts_with
ends_scheme [] = false
ends_scheme (c ∷ s) =
    let rest = ends_scheme s in if is_scheme_char c then rest else starts_with (codes "://") (c ∷ s)

-- `_SCHEME.match`
unfoldable pub has_scheme : Text → Bool
unfolding ends_scheme
has_scheme [] = false
has_scheme (c ∷ s) = leb b'a' (lower_char c) && leb (lower_char c) b'z' && ends_scheme s

-- The URL that is read: `https` where no scheme is given.
unfoldable pub with_scheme : Text → Text
unfolding has_scheme starts_with
with_scheme candidate =
    if has_scheme candidate
    then candidate
    else codes "https://"
      ++ (if starts_with (codes "//") candidate then drop 2 candidate else candidate)

-- A test that refuses the URL.
abbrev pub refuse_if : Bool → PatchError → Patched Unit
refuse_if true e = refused e
refuse_if false e = accepted tt

unfoldable pub path_of : Link → Text
unfolding partition
path_of link = (partition b'?' link.raw_path).0

unfoldable pub segment_of : Link → Text
unfolding path_of partition
segment_of link = (partition b'/' (drop 1 (path_of link))).0

-- The host, and the first segment if there is one.
unfoldable pub term_of : Text → Text → Text
term_of host [] = lower host
term_of host (c ∷ segment) = lower (host ++ b'/' ∷ c ∷ segment)

-- `url_mute_term` once the URL has been read.
unfoldable pub link_term : Link → Patched Text
unfolding starts_with segment_of path_of term_of is_long
link_term link = do
  _ ← refuse_if (starts_with (codes "www.") link.host) bad_url
  _ ← refuse_if (is_some link.port) bad_url
  _ ← refuse_if (is_nil (segment_of link) && not (path_of link == codes "/")) bad_url
  _ ←
      refuse_if (is_long (term_of link.host (segment_of link)))
        (long_term (term_of link.host (segment_of link)))
  accepted (term_of link.host (segment_of link))

unfoldable pub read_link_term : Option Link → Patched Text
unfolding link_term
read_link_term none = refused bad_url
read_link_term (some link) = link_term link

-- `url_mute_term`
unfoldable pub url_mute_term : Texts → Text → Patched Text
unfolding strip with_scheme read_link_term
url_mute_term texts raw = do
  _ ← refuse_if (is_nil (strip raw)) empty_term
  read_link_term (texts.read_link (with_scheme (strip raw)))

-- `{url_mute_term(raw) for raw in raws}`, in order and with repetitions.
unfoldable pub url_mute_terms : Texts → List Text → Patched (List Text)
unfolding url_mute_term
url_mute_terms texts [] = accepted []
url_mute_terms texts (raw ∷ raws) =
    let later = url_mute_terms texts raws in
    do term ← url_mute_term texts raw; terms ← later; accepted (term ∷ terms)
