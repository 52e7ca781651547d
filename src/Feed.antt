-- ===== src/Feed.antt =====
-- app/services/feed.py and app/services/bookmarks.py: the per-user views of the stored items.
pub mod Joins
pub mod UrlMute
pub mod Page
pub mod Reading
pub mod Reactions
