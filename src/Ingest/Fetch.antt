-- ===== src/Ingest/Fetch.antt =====
-- app/ingest/fetch.py: the fetch of one feed body, hop by hop. What the network does, and each
-- reading of the monotonic clock (in microseconds), is an argument, which a hop takes by its
-- number. A result keeps the targets that were requested.
pub mod Limiter
pub mod Body
pub mod Hops
use sre_tab.Common.{
  ltb, leb, eqb, if◌then◌else◌, length, Text, codes, lower, is_nil, strip, text_eq, nat_eq, ◌==◌,
  scalar, upsert, every, read_digits, ℕ, zero, suc, ◌+◌, ◌-◌, Bool, true, false, not, ◌&&◌, ◌||◌,
  Option, none, some, List, [], ◌∷◌, ◌++◌,
}
use sre_tab.Ingest.Outcomes.{
  ◌>>=◌, fetch_error, response_too_large, too_many_redirects, upstream_status, fetch_timeout,
  other_error, Outcome, returned, raised, refuse_if, or_raise,
}
use sre_tab.Ingest.UrlGuard.{Libraries, ValidatedTarget, Lookup, validate}

-- The settings of a fetch.
pub record FetchSettings : Type 0 where
  pub source_fetch_timeout_microseconds : ℕ
  pub source_fetch_max_bytes : ℕ
  pub source_fetch_max_redirects : ℕ

-- `HostRateLimiter._last`: when the host may be, or was, requested last.
abbrev pub Limiter : Type 0
Limiter = List (Text × ℕ)

-- The time of an entry, 0 without one.
unfoldable pub time_of : Option (Text × ℕ) → ℕ
time_of none = 0
time_of (some entry) = entry.1

-- `self._last.get(host, 0.0)`
unfoldable pub last_of : Text → Limiter → ℕ
unfolding scalar time_of
last_of host last = time_of (scalar (λ entry. entry.0 == host) last)

-- `HostRateLimiter.wait`, called at `now`: the time up to which it waits, and the dictionary then.
-- It returns at that time or later, since a sleep may last longer than it was asked to.
unfoldable pub slot : ℕ → Limiter → Text → ℕ → ℕ
unfolding last_of
slot min_interval last host now =
    if leb min_interval 0 then now else now + ((last_of host last + min_interval) - now)

unfoldable pub wait : ℕ → Limiter → Text → ℕ → Limiter
unfolding slot upsert
wait min_interval last host now =
    if leb min_interval 0
    then last
    else upsert (λ entry. entry.0 == host) (host, slot min_interval last host now)
        (λ entry. (host, slot min_interval last host now)) last

-- What the body yields: bytes with the clock after them, or an error of the transport.
pub data Chunk : Type 0 where
  chunk : ℕ → List ℕ → Chunk
  stalled broken : Chunk

-- A response, with its headers that the code reads.
pub record Response : Type 0 where
  pub status_code : ℕ
  pub location : Option Text
  pub content_encoding : Option Text
  pub content_length : Option Text
  pub content_type : Option Text
  pub body : List Chunk

-- How `client.stream` ends: with a response, or an error of the transport.
pub data Answer : Type 0 where
  responded : Response → Answer
  timed_out transport_failed : Answer

unfoldable pub is_decimal : ℕ → Bool
is_decimal c = leb b'0' c && leb c b'9'

-- `declared is not None and declared.isdigit() and int(declared) > cap`, for digits of ASCII
unfoldable pub declares_more : ℕ → Option Text → Bool
unfolding is_decimal every read_digits
declares_more cap none = false
declares_more cap (some declared) =
    not (is_nil declared)
    && every is_decimal declared
    && elim (read_digits 10 true 0 declared) [ none ↦ false | some size ↦ ltb cap size ]

-- `coding not in _ALLOWED_CODINGS`
unfoldable pub is_coded : Option Text → Bool
unfolding strip
is_coded none = false
is_coded (some coding) =
    not (is_nil (lower (strip coding)) || lower (strip coding) == codes "identity")

-- The loop of `_read_capped`, `total` bytes after its start.
unfoldable pub read_chunks : ℕ → ℕ → ℕ → List Chunk → Outcome (List ℕ)
read_chunks cap deadline total [] = returned []
read_chunks cap deadline total (chunk now bytes ∷ chunks) =
    let rest = read_chunks cap deadline (total + length bytes) chunks in
    do
      _ ← refuse_if (leb deadline now) fetch_timeout
      _ ← refuse_if (ltb cap (total + length bytes)) response_too_large
      content ← rest
      returned (bytes ++ content)
read_chunks cap deadline total (stalled ∷ chunks) = raised fetch_timeout
read_chunks cap deadline total (broken ∷ chunks) = raised fetch_error

-- `_read_capped`
unfoldable pub read_capped : ℕ → ℕ → Response → Outcome (List ℕ)
unfolding is_coded declares_more read_chunks
read_capped cap deadline response = do
  _ ← refuse_if (is_coded response.content_encoding) response_too_large
  _ ← refuse_if (declares_more cap response.content_length) response_too_large
  read_chunks cap deadline 0 response.body

pub record FetchResult : Type 0 where
  pub url : Text
  pub content : List ℕ
  pub content_type : Option Text
  pub status_code : ℕ
  pub hops : List Text

-- One hop ends the chain or names the next location.
pub data HopEnd : Type 0 where
  fetched : FetchResult → HopEnd
  redirected : Text → HopEnd

-- `_REDIRECT_STATUSES`
unfoldable pub is_redirect : ℕ → Bool
is_redirect status =
    eqb status 301 || eqb status 302 || eqb status 303 || eqb status 307 || eqb status 308

-- `response.headers.get("location")`, if it is not empty.
unfoldable pub location_of : Response → Option Text
location_of response = elim response.location [
  | none ↦ none
  | some [] ↦ none
  | some (c ∷ cs) ↦ some (c ∷ cs)
]

-- `_request` once the body is to be read.
unfoldable pub end_of_chain :
    FetchSettings → ℕ → ValidatedTarget → List Text → Response → Outcome HopEnd
unfolding read_capped
end_of_chain settings deadline target hops response = do
  _ ← refuse_if (leb 400 response.status_code) (upstream_status response.status_code)
  body ← read_capped settings.source_fetch_max_bytes deadline response
  returned (
      fetched (record {
        url = target.url.spelled;
        content = body;
        content_type = response.content_type;
        status_code = response.status_code;
        hops = hops;
      }))

-- `_request` once it has a response.
unfoldable pub read_response :
    FetchSettings → ℕ → ValidatedTarget → List Text → Response → Outcome HopEnd
unfolding is_redirect location_of end_of_chain
read_response settings deadline target hops response =
    if is_redirect response.status_code
    then or_raise fetch_error (location_of response) (λ location. returned (redirected location))
    else end_of_chain settings deadline target hops response

unfoldable pub answer_of : FetchSettings → ℕ → ValidatedTarget → List Text → Answer → Outcome HopEnd
unfolding read_response
answer_of settings deadline target hops (responded response) =
    read_response settings deadline target hops response
answer_of settings deadline target hops timed_out = raised fetch_timeout
answer_of settings deadline target hops transport_failed = raised fetch_error

-- `_request`, started at `now`.
unfoldable pub request :
    FetchSettings → ℕ → ℕ → ValidatedTarget → List Text → Answer → Outcome HopEnd
unfolding answer_of
request settings deadline now target hops answer = do
  _ ← refuse_if (leb deadline now) fetch_timeout
  answer_of settings deadline target hops answer

-- What the world does in one hop: the clock before the lookup, before the wait and before the
-- request, the resolver, and what a target answers.
pub record Hop : Type 0 where
  pub before_lookup : ℕ
  pub before_wait : ℕ
  pub before_request : ℕ
  pub resolver : Text → Lookup
  pub answer : ValidatedTarget → Answer

-- How a fetch ends: its outcome, the targets of its requests in order, and the rate limiter.
pub record Fetch : Type 0 where
  pub outcome : Outcome FetchResult
  pub requested : List ValidatedTarget
  pub last : Limiter

-- The allow-list is for the first hop alone.
unfoldable pub allowed_at : ℕ → List Text → Option (List Text)
allowed_at zero allowed_urls = some allowed_urls
allowed_at (suc hop) allowed_urls = none

-- One request more before those of `fetch`.
unfoldable pub requested_first : ValidatedTarget → Fetch → Fetch
requested_first target fetch = record {
  outcome = fetch.outcome;
  requested = target ∷ fetch.requested;
  last = fetch.last;
}

-- A fetch that ends without another request.
unfoldable pub ended : Outcome FetchResult → Limiter → Fetch
ended outcome last = record { outcome = outcome; requested = []; last = last }

-- Go on at the location joined to the URL of the hop.
unfoldable pub follow : (Text → Fetch) → Limiter → Option Text → Fetch
unfolding ended
follow next last none = ended (raised other_error) last
follow next last (some current) = next current

-- The rest of a hop after its request.
unfoldable pub after_request :
    Libraries → ValidatedTarget → (Text → Fetch) → Limiter → Outcome HopEnd → Fetch
unfolding ended follow
after_request lib target next last (raised e) = ended (raised e) last
after_request lib target next last (returned (fetched result)) = ended (returned result) last
after_request lib target next last (returned (redirected location)) =
    follow next last (lib.join target.url location)

module _ (lib : Libraries) (settings : FetchSettings) (min_interval : ℕ) (allowed_urls : List Text)
    (deadline : ℕ) (world : ℕ → Hop) where
  -- A hop after `validate`; `next` is the loop from the next hop on.
  unfoldable pub after_validate :
      ℕ
      → List Text
      → Limiter
      → (List Text → Limiter → Text → Fetch)
      → Outcome ValidatedTarget
      → Fetch
  unfolding ended wait request requested_first after_request
  after_validate hop hops last next (raised e) = ended (raised e) last
  after_validate hop hops last next (returned target) =
      let moved : Limiter = wait min_interval last target.host (world hop).before_wait in
      let seen : List Text = hops ++ target.url.spelled ∷ [] in
      requested_first target (
        after_request lib target (next seen moved) moved (
          request settings deadline (world hop).before_request target seen
            ((world hop).answer target)))

  -- The loop of `fetch`, from `hop` on, for `n` hops.
  unfoldable pub hops_from : ℕ → ℕ → Text → List Text → Limiter → Fetch
  unfolding after_validate allowed_at validate ended
  hops_from zero hop current hops last = ended (raised too_many_redirects) last
  hops_from (suc n) hop current hops last =
      after_validate hop hops last (λ seen moved url. hops_from n (suc hop) url seen moved)
        (validate lib (allowed_at hop allowed_urls) (some (deadline - (world hop).before_lookup))
          (world hop).resolver current)

-- `FeedFetcher.fetch`, called at `now`.
unfoldable pub fetch :
    Libraries → FetchSettings → ℕ → List Text → (ℕ → Hop) → Limiter → ℕ → Text → Fetch
unfolding hops_from
fetch lib settings min_interval allowed_urls world last now url =
    hops_from lib settings min_interval allowed_urls
      (now + settings.source_fetch_timeout_microseconds) world
      (settings.source_fetch_max_redirects + 1) 0 url [] last
