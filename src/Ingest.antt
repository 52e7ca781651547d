-- ===== src/Ingest.antt =====
-- app/ingest: fetching the sources and keeping what they publish.
pub mod Outcomes
pub mod Addresses
pub mod UrlGuard
pub mod Fetch
pub mod Status
pub mod Store
pub mod Service
