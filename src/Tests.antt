-- ===== src/Tests.antt =====
-- The theorems at concrete inputs, and runs that can be compared with the source.
mod RateLimitTests
mod AuthTests
mod FeedTests
mod IngestTests
mod StoreTests
mod FetchTests
mod PreferencesTests
mod SignInTests
mod ServiceTests
