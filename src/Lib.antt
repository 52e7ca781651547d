-- ===== src/Lib.antt =====
-- sre_tab: the server of the feed reader, its core logic under app/.
--
-- The server keeps users, sessions and API tokens (app/auth, app/security), items that it collects
-- from configured sources (app/ingest, app/scheduler), and shows each user a filtered feed of them
-- (app/services). A request passes the API-token middleware, the CSRF middleware, and the dependency
-- that finds the current user, before its route runs a service on the database; the scheduler asks
-- the status registry which sources are due.
--
-- A table is the list of its rows, and a statement of the services a function on it (Common/Rows,
-- Common/Upsert): SELECT is `select` and `scalar`, UPDATE `update_rows`, DELETE `delete_rows`, the
-- two conflict clauses of INSERT `insert_ignore` and `upsert`. A function that changes a table or a
-- dictionary takes it and returns the new one. A time is the number of microseconds since the least
-- time that the source can hold, and each reading of the clock is an argument. Errors that a caller
-- sees are values: `none` for a rejected cursor, `Outcome` for an unknown item, `http_error` for a
-- status code. A text is the list of its code points; `lower` is that of ASCII.
--
--   Common        the library's names that are passed on, Boolean tests, texts, tables, sorting
--   Models        app/db/models.py and app/settings.py: the rows and settings that are read
--   RateLimit     app/auth/ratelimit.py: `SlidingWindowLimiter`, its dictionary of deques as an
--                 association list in insertion order (Keys, Deque, Window, Run, Bounds: its laws)
--   Auth/Tokens   app/security/tokens.py
--   Auth/Csrf     app/security/csrf.py
--   Auth/Sessions app/auth/sessions.py: `create_session`, `resolve_session`, `revoke_session`,
--                 `prune_sessions`
--   Auth/ApiTokens app/auth/api_tokens.py
--   Auth/Pipeline app/auth/allowlist.py, app/auth/bearer.py, app/auth/csrf_middleware.py,
--                 app/api/deps.py, in the order of app/main.py (Authority: what a request must have)
--   Auth/State    app/auth/state.py: the OAuth state store (Once, Issue: a token is
--                 redeemed, and once; Bounds)
--   Auth/SignIn   app/auth/flow.py and app/auth/users.py (Users,
--                 Session: which row, and who is signed in afterwards)
--   Cursor        app/services/pagination.py: `encode_cursor` and `decode_cursor` (RoundTrip), over
--                 Base64 and the texts of integers in Common/Base64, Common/Decoding, Common/Integers
--   Pagination    the keyset pages that app/services/feed.py and app/services/bookmarks.py share
--                 (Keyset, Reading: laws)
--   Feed          app/services/feed.py: Joins `_base_query` and what its filters look up, UrlMute
--                 `_url_muted`, Page `get_feed_page`, Reading the feed from first page to last
--   Feed/Reactions app/services/read_state.py, app/services/bookmarks.py, and the statements of
--                 app/services/upsert.py (Laws, Saved: what they leave behind; Listing: which
--                 bookmarks are listed)
--   Preferences   app/services/preferences.py: Urls `url_mute_term`, Profile `ensure_profile` and
--                 `load_profile`, Patching `apply_patch` (Columns, Selections,
--                 Catalogue, Effects, Steps: what each step leaves of the shown profile; Refinement:
--                 the whole patch; Returning: the next sign-in)
--   Ingest/Addresses, Ingest/UrlGuard app/ingest/urlguard.py: the classes of addresses, and
--                 `UrlGuard` (Safety: what it lets through)
--   Ingest/Fetch  app/ingest/fetch.py: `FeedFetcher` and `HostRateLimiter` (Hops, Body, Limiter:
--                 their laws), with the errors of app/ingest/errors.py in Ingest/Outcomes
--   Ingest/Status app/ingest/status.py: the registry in memory with the table behind it (Due,
--                 Backoff: when a source is due)
--   Ingest/Store  app/ingest/store.py: what a refresh stores (Items), whose a topic link is (Links),
--                 the channel artwork (Icon), and what retention keeps (Retention)
--   Ingest/Service app/ingest/service.py: the refresh of a source (Isolation: what a failure leaves)
--   Scheduler     app/scheduler/service.py and app/health.py: `tick`, `prune`, `readiness` (Ready)
--   Tests         concrete runs, and the theorems at concrete inputs
--
-- Fuel: `evict` of RateLimit does one round per key, and each round removes one, so as many rounds
-- as there are keys are enough. `walk` and `read_all` of Pagination are a client that stops after so
-- many requests; the theorems about them fix one request more than there are rows, and with it the
-- client reads to the end. `chunks` of Ingest/Store does one
-- round per chunk, and a chunk takes at least one value. `digits_before` of Common/Numerals has one
-- round more than the number, which has fewer digits than that. The redirect loop of Ingest/Fetch is
-- counted by the source itself.
--
-- Parameters: SHA-256 and HMAC (`Crypto`; where a theorem needs it, `CollisionFree` says that no two
-- inputs that meet share a digest), the random part of a token, the full-text match of the database
-- engine (`TextMatch`), and whether the database
-- answers a write of the status registry (`Persistence`). The store takes the language detector and
-- the topic rules of a URL as functions. The URL guard takes the libraries that read URLs and
-- addresses (`Libraries`, with what is documented of `copy_with` in `CopyLaw`) and the answer of the
-- resolver; the fetcher takes what the network does in each hop (`Hop`). The preferences take case
-- folding, the codes of the languages, and the reading of a pasted URL by app/ingest/normalise.py and
-- app/ingest/topicrules.py (`Texts`). The sign-in takes the answers of GitHub, the new random token and
-- the new row's id. The refresh takes the parsers with the
-- normaliser as one function (`Service`), and the scheduler whether it gets a lock (`Turn`). ORDER BY on
-- texts compares code points.
--
-- Not modelled: the HTTP client of GitHub, the public snapshot, parsing and normalising feeds, the
-- locks and the thread of the scheduler, the command line, the routes' schemas, log and header middlewares,
-- migrations, the front end and the deployment.
pub mod Common
pub mod Cursor
pub mod RateLimit
pub mod Models
pub mod Auth
pub mod Pagination
pub mod Preferences
pub mod Ingest
pub mod Scheduler
mod Tests
pub mod Feed
