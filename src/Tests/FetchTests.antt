-- ===== src/Tests/FetchTests.antt =====
-- app/ingest/urlguard.py and app/ingest/fetch.py on a feed that redirects once. One name is known to
-- the libraries that stand in here, and every name resolves to one public address.
use sre_tab.Common.{
  if◌then◌else◌, length, Text, codes, text_beq, text_eq, nat_eq, ◌==◌, exists_row, Sorted, ℕ, ◌+◌,
  ◌≡◌, refl, ap, ◌↔◌, true, false, Option, none, some, List, [], ◌∷◌, ◌++◌, arith,
}
use sre_tab.Ingest.Outcomes.{Outcome, returned, raised, Returns}
use sre_tab.Ingest.Addresses.{v4, is_blocked}
use sre_tab.Ingest.UrlGuard.{Url, Libraries, answered, validate}
use sre_tab.Ingest.UrlGuard.Safety.{CopyLaw, IsSafe, validate-IsSafe}
use sre_tab.Ingest.Fetch.{
  FetchSettings, Chunk, chunk, Response, responded, read_capped, FetchResult, Hop, fetch,
}
use sre_tab.Ingest.Fetch.{last_of}
use sre_tab.Ingest.Fetch.Limiter.{Call, slots, returns, Paced, spaced, slots-returns}
use sre_tab.Ingest.Fetch.Body.{IsWhole, read_capped_iff}
use sre_tab.Ingest.Fetch.Hops.{IsGuarded, fetch-IsGuarded}

abbrev feed_url : Text
feed_url = codes "https://feeds.dev.org/a"

abbrev url_at : Text → Option ℕ → Text → Url
url_at host port spelled = record {
  spelled = spelled;
  scheme = codes "https";
  userinfo = [];
  port = port;
  raw_host = host;
  path = codes "/a";
}

abbrev libraries : Libraries
libraries = record {
  parse_url = λ text. some (url_at (codes "feeds.dev.org") none text);
  copy_with_host = λ url host. some (record url { raw_host = host; port = none });
  join = λ url location. some (codes "https://feeds.dev.org" ++ location);
  ip_address = λ text. if text == codes "93.184.216.34" then some (v4 1572395042) else none;
  ipv6_address = λ text. none;
  show_address = λ ip. codes "93.184.216.34";
  predicates = record {
    is_unspecified = λ ip. false;
    is_loopback = λ ip. false;
    is_link_local = λ ip. false;
    is_multicast = λ ip. false;
    is_private = λ ip. false;
    is_reserved = λ ip. false;
    is_global = λ ip. true;
  };
}

of_some : (a b : Url) → some a ≡ some b → b ≡ a
of_some a b h = cc

libraries-CopyLaw : CopyLaw libraries
libraries-CopyLaw = record {
  no_port = λ {url} {copy} {host} h.
      ap (λ (u : Url). u.port) (of_some (record url { raw_host = host; port = none }) copy h);
  same_scheme = λ {url} {copy} {host} h.
      ap (λ (u : Url). u.scheme) (of_some (record url { raw_host = host; port = none }) copy h);
  same_userinfo = λ {url} {copy} {host} h.
      ap (λ (u : Url). u.userinfo) (of_some (record url { raw_host = host; port = none }) copy h);
}

abbrev settings : FetchSettings
settings = record {
  source_fetch_timeout_microseconds = 10000000;
  source_fetch_max_bytes = 4;
  source_fetch_max_redirects = 1;
}

abbrev body_of : List Chunk → Response
body_of chunks = record {
  status_code = 200;
  location = none;
  content_encoding = none;
  content_length = some (codes "3");
  content_type = none;
  body = chunks;
}

abbrev redirect : Response
redirect = record {
  status_code = 302;
  location = some (codes "/b");
  content_encoding = none;
  content_length = none;
  content_type = none;
  body = [];
}

-- The first hop is redirected, the second has a body of three bytes in two chunks.
abbrev world : ℕ → Hop
world n = record {
  before_lookup = 10 + n;
  before_wait = 20 + n;
  before_request = 30 + n;
  resolver = λ host. answered (codes "93.184.216.34" ∷ []);
  answer = λ target. responded (
      if target.url.spelled == feed_url
      then redirect
      else body_of (chunk 40 (1 ∷ 2 ∷ []) ∷ chunk 50 (3 ∷ []) ∷ []));
}

-- What a reader of an outcome sees.
abbrev content_of : Outcome FetchResult → List ℕ
content_of (returned result) = result.content
content_of (raised e) = []

two_hops :
    length (fetch libraries settings 1000000 (feed_url ∷ []) world [] 0 feed_url).requested ≡ 2
unfolding fetch exists_row text_beq
two_hops = refl

arrived :
    content_of (fetch libraries settings 1000000 (feed_url ∷ []) world [] 0 feed_url).outcome
    ≡ 1 ∷ 2 ∷ 3 ∷ []
unfolding fetch exists_row text_beq
arrived = refl

unlisted : (fetch libraries settings 1000000 [] world [] 0 feed_url).requested ≡ []
unfolding fetch exists_row text_beq
unlisted = refl

loopback : is_blocked (v4 2130706433) ≡ true
unfolding is_blocked exists_row
loopback = refl

fetch-IsGuarded_example :
    IsGuarded 4 2 [] (fetch libraries settings 1000000 (feed_url ∷ []) world [] 0 feed_url)
fetch-IsGuarded_example =
    fetch-IsGuarded libraries settings 1000000 (feed_url ∷ []) world [] 0 feed_url libraries-CopyLaw

validate-IsSafe_example : Returns IsSafe (
    validate libraries
      (some (feed_url ∷ []))
      (some 5)
      (λ host. answered (codes "93.184.216.34" ∷ []))
      feed_url)
validate-IsSafe_example =
    validate-IsSafe libraries (some (feed_url ∷ [])) (some 5)
      (λ host. answered (codes "93.184.216.34" ∷ [])) feed_url libraries-CopyLaw

read_capped_iff_example :
    (read_capped 4 100 (body_of (chunk 40 (1 ∷ 2 ∷ []) ∷ chunk 50 (3 ∷ []) ∷ []))
      ≡ returned (1 ∷ 2 ∷ 3 ∷ []))
    ↔ IsWhole 4 100 (body_of (chunk 40 (1 ∷ 2 ∷ []) ∷ chunk 50 (3 ∷ []) ∷ [])) (1 ∷ 2 ∷ 3 ∷ [])
read_capped_iff_example =
    read_capped_iff 4 100 (body_of (chunk 40 (1 ∷ 2 ∷ []) ∷ chunk 50 (3 ∷ []) ∷ []))
      (1 ∷ 2 ∷ 3 ∷ [])

-- Two calls for one host, with one for another between them.
abbrev host_calls : List Call
host_calls =
    record { host = codes "a.org"; now = 5000000; overshoot = 300 }
    ∷ record { host = codes "b.org"; now = 5000001; overshoot = 0 }
    ∷ record { host = codes "a.org"; now = 5000002; overshoot = 7 }
    ∷ []

slots-returns_example :
    Sorted (spaced 1000000) (slots 1000000 [] (codes "a.org") host_calls)
    × Paced 1000000
        (last_of (codes "a.org") [] + 1000000)
        (returns 1000000 [] (codes "a.org") host_calls)
slots-returns_example = slots-returns 1000000 [] (codes "a.org") host_calls (omega arith)
