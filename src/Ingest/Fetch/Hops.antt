-- ===== src/Ingest/Fetch/Hops.antt =====
-- What every hop of a fetch in app/ingest/fetch.py goes through.
use sre_tab.Common.{
  leb, Bool-cases, length, All, Text, text_eq, nat_eq, ℕ, zero, suc, ◌+◌, ◌-◌, ◌≤◌, ◌<◌, ◌≡◌, refl,
  sym, subst, inl, inr, false, Option, none, some, List, [], ◌∷◌, ◌++◌, map, append-nil,
  append_assoc, arith,
}
use sre_tab.Ingest.Outcomes.{
  IngestError, fetch_error, too_many_redirects, other_error, Outcome, returned, raised, Returns,
  by_value, by_error, Returns-value, Returns-bind, Returns-or_raise, Returns-refuse_if,
}
use sre_tab.Ingest.UrlGuard.{Libraries, ValidatedTarget, validate}
use sre_tab.Ingest.UrlGuard.Safety.{IsSafe, CopyLaw, validate-IsSafe}
use sre_tab.Ingest.Fetch.{
  FetchSettings, Limiter, wait, Response, Answer, responded, timed_out, transport_failed,
  read_capped, FetchResult, HopEnd, fetched, redirected, is_redirect, location_of, end_of_chain,
  read_response, answer_of, request, Hop, Fetch, allowed_at, requested_first, ended, follow,
  after_request, after_validate, hops_from, fetch,
}
use sre_tab.Ingest.Fetch.Body.{read_capped_iff}

-- The URL of a target, as a result spells it.
abbrev pub spelling : ValidatedTarget → Text
spelling target = target.url.spelled

-- A result that comes from a response that is neither a redirect nor an error, with a body within
-- the cap, and that names every URL requested for it.
pub record IsFinal (max_bytes : ℕ) (hops : List Text) (result : FetchResult) : Type 0 where
  pub capped : length result.content ≤ max_bytes
  pub not_redirect : is_redirect result.status_code ≡ false
  pub not_error : result.status_code < 400
  pub all_hops : result.hops ≡ hops

-- What a hop may end with: a final result, or a location.
abbrev IsEnd : ℕ → List Text → HopEnd → Type 0
IsEnd max_bytes hops (fetched result) = IsFinal max_bytes hops result
IsEnd max_bytes hops (redirected location) = Unit

read_response-IsEnd :
    (settings : FetchSettings) (deadline : ℕ) (target : ValidatedTarget) (hops : List Text)
    (response : Response)
    → Returns
        (IsEnd settings.source_fetch_max_bytes hops)
        (read_response settings deadline target hops response)
unfolding read_response end_of_chain
read_response-IsEnd settings deadline target hops response =
    elim (Bool-cases (is_redirect response.status_code)) [
      | inl redirect ↦ rw redirect (
          Returns-or_raise _ fetch_error (location_of response)
            (λ location. returned (redirected location)) λ location _. by_value tt)
      | inr final ↦ rw final (
          Returns-refuse_if _ (leb 400 response.status_code) _ _ λ good.
            Returns-bind _ (read_capped settings.source_fetch_max_bytes deadline response) _
              λ content e. by_value (record {
                capped =
                    ((read_capped_iff settings.source_fetch_max_bytes deadline response content).0
                      e).within;
                not_redirect = final;
                not_error = ground (arith, good);
                all_hops = refl;
              }))
    ]

request-IsEnd :
    (settings : FetchSettings) (deadline now : ℕ) (target : ValidatedTarget) (hops : List Text)
    (answer : Answer)
    → Returns
        (IsEnd settings.source_fetch_max_bytes hops)
        (request settings deadline now target hops answer)
unfolding request
request-IsEnd settings deadline now target hops answer =
    Returns-refuse_if _ (leb deadline now) _ _ λ _. of_answer answer
  where
    of_answer :
        (a : Answer)
        → Returns
            (IsEnd settings.source_fetch_max_bytes hops)
            (answer_of settings deadline target hops a)
    of_answer (responded response) =
        unfold answer_of in read_response-IsEnd settings deadline target hops response
    of_answer timed_out = unfold answer_of in by_error
    of_answer transport_failed = unfold answer_of in by_error

-- A fetch of at most `n` requests after those of `hops`: it requests safe targets only, and if it
-- returns, it returns a final result.
pub record IsGuarded (max_bytes n : ℕ) (hops : List Text) (f : Fetch) : Type 0 where
  pub safe : All IsSafe f.requested
  pub few : length f.requested ≤ n
  pub final : Returns (IsFinal max_bytes (hops ++ map spelling f.requested)) f.outcome

ended-IsGuarded :
    (max_bytes n : ℕ) (hops : List Text) (e : IngestError) (last : Limiter)
    → IsGuarded max_bytes n hops (ended (raised e) last)
unfolding ended
ended-IsGuarded max_bytes n hops e last = record { safe = tt; few = omega arith; final = by_error }

-- A safe request before a guarded rest.
requested_first-IsGuarded :
    (max_bytes n : ℕ) (hops : List Text) (target : ValidatedTarget) (f : Fetch)
    → IsSafe target
    → IsGuarded max_bytes n (hops ++ spelling target ∷ []) f
    → IsGuarded max_bytes (suc n) hops (requested_first target f)
unfolding requested_first
requested_first-IsGuarded max_bytes n hops target f safe g = record {
  safe = (safe, g.safe);
  few = ground (arith, g.few);
  final =
      subst (λ seen. Returns (IsFinal max_bytes seen) f.outcome)
        (append_assoc hops (spelling target ∷ []) (map spelling f.requested)) g.final;
}

follow-IsGuarded :
    (max_bytes n : ℕ) (hops : List Text) (next : Text → Fetch) (last : Limiter)
    (joined : Option Text)
    → ((url : Text) → IsGuarded max_bytes n hops (next url))
    → IsGuarded max_bytes n hops (follow next last joined)
unfolding follow
follow-IsGuarded max_bytes n hops next last none g =
    ended-IsGuarded max_bytes n hops other_error last
follow-IsGuarded max_bytes n hops next last (some url) g = g url

after_request-IsGuarded :
    (lib : Libraries) (max_bytes n : ℕ) (hops : List Text) (target : ValidatedTarget)
    (next : Text → Fetch) (last : Limiter) (outcome : Outcome HopEnd)
    → Returns (IsEnd max_bytes hops) outcome
    → ((url : Text) → IsGuarded max_bytes n hops (next url))
    → IsGuarded max_bytes n hops (after_request lib target next last outcome)
unfolding after_request ended
after_request-IsGuarded lib max_bytes n hops target next last (raised e) h g =
    ended-IsGuarded max_bytes n hops e last
after_request-IsGuarded lib max_bytes n hops target next last (returned (fetched result)) h g =
    record {
      safe = tt;
      few = omega arith;
      final =
          subst (λ seen. Returns (IsFinal max_bytes seen) (returned result)) (sym (append-nil hops))
            (by_value (Returns-value (IsEnd max_bytes hops) (fetched result) _ h refl));
    }
after_request-IsGuarded lib max_bytes n hops target next last (returned (redirected location)) h g =
    follow-IsGuarded max_bytes n hops next last (lib.join target.url location) g

module _ (lib : Libraries) (settings : FetchSettings) (min_interval : ℕ) (allowed_urls : List Text)
    (deadline : ℕ) (world : ℕ → Hop) (law : CopyLaw lib) where
  after_validate-IsGuarded :
      (n hop : ℕ) (hops : List Text) (last : Limiter) (next : List Text → Limiter → Text → Fetch)
      (outcome : Outcome ValidatedTarget)
      → Returns IsSafe outcome
      → ((seen : List Text) (moved : Limiter) (url : Text)
          → IsGuarded settings.source_fetch_max_bytes n seen (next seen moved url))
      → IsGuarded settings.source_fetch_max_bytes (suc n) hops (
          after_validate lib settings min_interval allowed_urls deadline world hop hops last next
            outcome)
  unfolding after_validate
  after_validate-IsGuarded n hop hops last next (raised e) h g =
      ended-IsGuarded _ (suc n) hops e last
  after_validate-IsGuarded n hop hops last next (returned target) h g =
      requested_first-IsGuarded settings.source_fetch_max_bytes n hops target _
        (Returns-value IsSafe target _ h refl)
        (after_request-IsGuarded lib settings.source_fetch_max_bytes n
          (hops ++ spelling target ∷ []) target
          (next (hops ++ spelling target ∷ [])
            (wait min_interval last target.host (world hop).before_wait))
          (wait min_interval last target.host (world hop).before_wait) _
          (request-IsEnd settings deadline (world hop).before_request target
            (hops ++ spelling target ∷ []) ((world hop).answer target))
          (g _ _))

  hops_from-IsGuarded :
      (n hop : ℕ) (current : Text) (hops : List Text) (last : Limiter)
      → IsGuarded settings.source_fetch_max_bytes n hops
          (hops_from lib settings min_interval allowed_urls deadline world n hop current hops last)
  unfolding hops_from
  hops_from-IsGuarded zero hop current hops last = ended-IsGuarded _ 0 hops too_many_redirects last
  hops_from-IsGuarded (suc n) hop current hops last =
      after_validate-IsGuarded n hop hops last _
        (validate lib (allowed_at hop allowed_urls) (some (deadline - (world hop).before_lookup))
          (world hop).resolver current)
        (validate-IsSafe lib (allowed_at hop allowed_urls)
          (some (deadline - (world hop).before_lookup)) (world hop).resolver current law)
        (λ seen moved url. hops_from-IsGuarded n (suc hop) url seen moved)

-- Whatever the servers answer and wherever they redirect, a fetch requests at most one target more
-- than the redirects that are allowed, and only targets that are safe; and if it returns, then with
-- a body within the cap, from a response that is neither a redirect nor an error, and with the URL
-- of every request that was made.
pub fetch-IsGuarded :
    (lib : Libraries) (settings : FetchSettings) (min_interval : ℕ) (allowed_urls : List Text)
    (world : ℕ → Hop) (last : Limiter) (now : ℕ) (url : Text)
    → CopyLaw lib
    → IsGuarded settings.source_fetch_max_bytes
        (settings.source_fetch_max_redirects + 1)
        []
        (fetch lib settings min_interval allowed_urls world last now url)
unfolding fetch
fetch-IsGuarded lib settings min_interval allowed_urls world last now url law =
    hops_from-IsGuarded lib settings min_interval allowed_urls
      (now + settings.source_fetch_timeout_microseconds) world law
      (settings.source_fetch_max_redirects + 1) 0 url [] last
