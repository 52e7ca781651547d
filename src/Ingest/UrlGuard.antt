-- ===== src/Ingest/UrlGuard.antt =====
-- app/ingest/urlguard.py: the checks that a URL passes before anything connects for it. Parsing
-- URLs is the library httpx's, and parsing and printing addresses `ipaddress`'s: both are
-- arguments. A lookup in the DNS is answered once, by an argument of the check.
pub mod Safety
use sre_tab.Common.{
  ltb, leb, eqb, if◌then◌else◌, length, take, drop, Text, codes, lower, is_nil, strip, starts_with,
  text_eq, nat_eq, ◌==◌, exists_row, ends_with, occurs_in, every, ℕ, zero, suc, ◌-◌, Bool, true,
  false, not, ◌&&◌, ◌||◌, Option, none, some, List, [], ◌∷◌,
}
use sre_tab.Ingest.Outcomes.{
  IngestError, unsafe_target, source_configuration, fetch_error, response_too_large,
  too_many_redirects, upstream_status, fetch_timeout, other_error, Outcome, returned, raised, ◌>>=◌,
  refuse_if, or_raise,
}
use sre_tab.Ingest.Addresses.{IpAddress, Predicates, refused_address, parse_numeric_ipv4}

-- What the source reads of an `httpx.URL`; `raw_host` is the host in ASCII.
pub record Url : Type 0 where
  pub spelled : Text
  pub scheme : Text
  pub userinfo : Text
  pub port : Option ℕ
  pub raw_host : Text
  pub path : Text

-- The libraries: `httpx.URL(text)`, `url.copy_with(host=host, port=None)` and `url.join(location)`,
-- none where they raise; `ip_address`, `IPv6Address` and the text of an address.
pub record Libraries : Type 0 where
  pub parse_url : Text → Option Url
  pub copy_with_host : Url → Text → Option Url
  pub join : Url → Text → Option Text
  pub ip_address : Text → Option IpAddress
  pub ipv6_address : Text → Option IpAddress
  pub show_address : IpAddress → Text
  pub predicates : Predicates

unfoldable pub ascii_host : Url → Text
ascii_host url = lower url.raw_host

-- `_HOST_ALLOWED`
unfoldable pub is_host_char : ℕ → Bool
is_host_char c =
    (leb b'a' c && leb c b'z')
    || (leb b'0' c && leb c b'9')
    || eqb c b'-'
    || eqb c b'.'
    || eqb c b'_'

-- `_BLOCKED_HOST_SUFFIXES`
abbrev pub blocked_host_suffixes : List Text
blocked_host_suffixes =
    codes ".localhost"
    ∷ codes ".local"
    ∷ codes ".localdomain"
    ∷ codes ".internal"
    ∷ codes ".intranet"
    ∷ codes ".arpa"
    ∷ codes ".onion"
    ∷ codes ".test"
    ∷ codes ".invalid"
    ∷ codes ".example"
    ∷ []

-- `s.rstrip(".")`
unfoldable pub strip_dots : Text → Text
strip_dots [] = []
strip_dots (c ∷ s) = let rest = strip_dots s in if is_nil rest && eqb c b'.' then [] else c ∷ rest

-- `_normalise_host`. Every test of it that fails has the reason "host".
unfoldable pub normalise_host : Text → Outcome Text
unfolding strip strip_dots is_host_char ends_with occurs_in
normalise_host raw =
    let host = lower (strip_dots (strip raw)) in
    do
      _ ← refuse_if (is_nil host) (unsafe_target (codes "host"))
      _ ← refuse_if (ltb 253 (length host)) (unsafe_target (codes "host"))
      _ ← refuse_if (not (every (λ c. ltb c 128) host)) (unsafe_target (codes "host"))
      _ ← refuse_if (not (every is_host_char host)) (unsafe_target (codes "host"))
      _ ←
          refuse_if
            (occurs_in (codes "..") host
              || starts_with (codes ".") host
              || starts_with (codes "-") host
              || ends_with (codes "-") host)
            (unsafe_target (codes "host"))
      _ ← refuse_if (not (occurs_in (codes ".") host)) (unsafe_target (codes "host"))
      _ ←
          refuse_if (exists_row (λ suffix. ends_with suffix host) blocked_host_suffixes)
            (unsafe_target (codes "host"))
      returned host

-- `assert_supported_endpoint`
unfoldable pub assert_supported_endpoint : Url → Outcome Unit
unfolding ends_with occurs_in
assert_supported_endpoint url =
    let path = lower url.path in
    refuse_if
      (occurs_in (codes "/graphql") path
        || ends_with (codes "/sitemap.xml") path
        || ends_with (codes "/sitemap_index.xml") path
        || ends_with (codes ".graphql") path)
      source_configuration

-- Raise the reason, if there is one.
unfoldable pub raise_reason : Option Text → Outcome Unit
raise_reason none = returned tt
raise_reason (some reason) = raised (unsafe_target reason)

-- `assert_address_allowed`
unfoldable pub assert_address_allowed : Libraries → IpAddress → Outcome Unit
unfolding refused_address raise_reason
assert_address_allowed lib ip = raise_reason (refused_address lib.predicates ip)

-- `_literal_address`: "[…]" is an IPv6 address or nothing.
unfoldable pub literal_address : Libraries → Text → Option IpAddress
unfolding parse_numeric_ipv4 ends_with starts_with
literal_address lib host = elim (lib.ip_address host) [
  | some ip ↦ some ip
  | none ↦
      if starts_with (codes "[") host && ends_with (codes "]") host
      then lib.ipv6_address (take (length host - 2) (drop 1 host))
      else parse_numeric_ipv4 host
]

-- The host of `check_static`: a literal that may be connected to, or a normalised name.
unfoldable pub checked_host : Libraries → Text → Option IpAddress → Outcome Text
unfolding normalise_host assert_address_allowed
checked_host lib raw_host none = normalise_host raw_host
checked_host lib raw_host (some literal) = do
  _ ← assert_address_allowed lib literal
  returned (lib.show_address literal)

-- "\r", "\n", "\t" or " " in a URL.
unfoldable pub is_blank : ℕ → Bool
is_blank c = eqb c 13 || eqb c 10 || eqb c 9 || eqb c 32

-- A port of the URL that is not 443.
unfoldable pub is_other_port : Option ℕ → Bool
is_other_port none = false
is_other_port (some port) = not (eqb port 443)

-- The URL with the checked host in place of its own, and without its port.
unfoldable pub with_host : Libraries → Url → Text → Outcome Url
unfolding assert_supported_endpoint
with_host lib url host =
    or_raise (unsafe_target (codes "host")) (lib.copy_with_host url host)
      λ normalised. do _ ← assert_supported_endpoint normalised; returned normalised

-- `check_static` from the parsed URL on.
unfoldable pub check_parsed : Libraries → Url → Outcome Url
unfolding ascii_host literal_address checked_host is_other_port with_host
check_parsed lib url = do
  _ ← refuse_if (not (lower url.scheme == codes "https")) (unsafe_target (codes "scheme"))
  _ ← refuse_if (not (is_nil url.userinfo)) (unsafe_target (codes "credentials"))
  _ ← refuse_if (is_other_port url.port) (unsafe_target (codes "port"))
  host ← checked_host lib (ascii_host url) (literal_address lib (ascii_host url))
  with_host lib url host

-- A URL with white space around it, or some blank in it.
unfoldable pub is_untidy : Text → Bool
unfolding strip is_blank
is_untidy raw_url = not (strip raw_url == raw_url) || exists_row is_blank raw_url

-- `check_static`
unfoldable pub check_static : Libraries → Text → Outcome Url
unfolding check_parsed is_untidy
check_static lib raw_url = do
  _ ← refuse_if (ltb 2048 (length raw_url)) (unsafe_target (codes "url"))
  _ ← refuse_if (is_untidy raw_url) (unsafe_target (codes "url"))
  or_raise (unsafe_target (codes "url")) (lib.parse_url raw_url) (check_parsed lib)

-- `ValidatedTarget`
pub record ValidatedTarget : Type 0 where
  pub url : Url
  pub host : Text
  pub port : ℕ
  pub ip : IpAddress
  pub resolved : List IpAddress

-- How `_resolve_within` ends: with answers, an error of the resolver, or past its time.
pub data Lookup : Type 0 where
  answered : List Text → Lookup
  lookup_failed : IngestError → Lookup
  lookup_late : Lookup

-- The remaining time, none where no bound is given; `resolve` is asked unless it has passed.
unfoldable pub resolve_within : Option ℕ → Lookup → Outcome (List Text)
resolve_within none (answered answers) = returned answers
resolve_within none (lookup_failed e) = raised e
resolve_within none lookup_late = raised fetch_timeout
resolve_within (some zero) lookup = raised fetch_timeout
resolve_within (some (suc left)) (answered answers) = returned answers
resolve_within (some (suc left)) (lookup_failed e) = raised e
resolve_within (some (suc left)) lookup_late = raised fetch_timeout

-- Every answer is an address that may be connected to.
unfoldable pub check_answers : Libraries → List Text → Outcome (List IpAddress)
unfolding assert_address_allowed
check_answers lib [] = returned []
check_answers lib (answer ∷ answers) =
    let rest = check_answers lib answers in
    or_raise (unsafe_target (codes "resolution")) (lib.ip_address answer)
      λ ip. do _ ← assert_address_allowed lib ip; ips ← rest; returned (ip ∷ ips)

-- `url.port or 443`
unfoldable pub port_of : Url → ℕ
port_of url = elim url.port [ none ↦ 443 | some zero ↦ 443 | some (suc port) ↦ suc port ]

-- The target of a name, whose answers have been checked.
unfoldable pub pin : Url → List IpAddress → Outcome ValidatedTarget
unfolding ascii_host port_of
pin url [] = raised (unsafe_target (codes "unresolvable"))
pin url (ip ∷ ips) =
    returned (record {
      url = url;
      host = ascii_host url;
      port = port_of url;
      ip = ip;
      resolved = ip ∷ ips;
    })

unfoldable pub resolve_target :
    Libraries → Option ℕ → (Text → Lookup) → Url → Option IpAddress → Outcome ValidatedTarget
unfolding pin check_answers resolve_within assert_address_allowed ascii_host
resolve_target lib left lookup url (some literal) = do
  _ ← assert_address_allowed lib literal
  pin url (literal ∷ [])
resolve_target lib left lookup url none = do
  answers ← resolve_within left (lookup (ascii_host url))
  addresses ← check_answers lib answers
  pin url addresses

-- The first URL of a fetch must be on the allow-list that is given for it.
unfoldable pub is_unlisted : Option (List Text) → Text → Bool
is_unlisted none raw_url = false
is_unlisted (some urls) raw_url = not (exists_row (λ url. url == raw_url) urls)

-- `validate`
unfoldable pub validate :
    Libraries → Option (List Text) → Option ℕ → (Text → Lookup) → Text → Outcome ValidatedTarget
unfolding is_unlisted check_static literal_address resolve_target ascii_host
validate lib allowed_urls left lookup raw_url = do
  _ ← refuse_if (is_unlisted allowed_urls raw_url) source_configuration
  url ← check_static lib raw_url
  resolve_target lib left lookup url (literal_address lib (ascii_host url))
