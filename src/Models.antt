-- ===== src/Models.antt =====
-- app/db/models.py and app/settings.py: the rows and the settings that the modelled code reads.
-- Ids are the databases' integers. A datetime is UTC and stands as the number of microseconds
-- since the least one that the source can hold (1 January of year 1), so every stored value is a
-- natural number. Columns that no modelled function reads or writes are left out.
use sre_tab.Common.{ℕ, Bool, true, false, Option, List, Text}

-- `timedelta(seconds=1)`, `timedelta(minutes=1)` and `timedelta(days=1)`
abbrev pub second : ℕ
second = 1000000

abbrev pub minute : ℕ
minute = 60000000

abbrev pub day : ℕ
day = 86400000000

pub data ApiTokenScope : Type 0 where
  read full : ApiTokenScope

pub record User : Type 0 where
  pub id : ℕ
  pub github_id : ℕ
  pub github_login : Text
  pub display_name : Option Text
  pub avatar_url : Option Text

pub record UserSession : Type 0 where
  pub user_id : ℕ
  pub token_hash : Text
  pub expires_at : ℕ
  pub revoked_at : Option ℕ

pub record ApiToken : Type 0 where
  pub id : ℕ
  pub user_id : ℕ
  pub label : Text
  pub token_hash : Text
  pub display_prefix : Text
  pub scope : ApiTokenScope
  pub created_at : ℕ
  pub expires_at : Option ℕ
  pub revoked_at : Option ℕ
  pub last_used_at : Option ℕ

-- The settings of app/settings.py that the modelled code reads.
pub record Settings : Type 0 where
  pub allowed_github_ids : List ℕ
  pub session_secret : Text
  pub session_ttl_days : ℕ
  pub session_cookie_name : Text
  pub csrf_cookie_name : Text
  pub csrf_header_name : Text
  pub feed_retention_days : ℕ
  pub source_refresh_enabled : Bool

pub record Topic : Type 0 where
  pub id : ℕ
  pub slug : Text
  pub name : Text
  pub enabled : Bool

pub record Source : Type 0 where
  pub id : ℕ
  pub slug : Text
  pub name : Text
  pub feed_url : Text
  pub website_url : Text
  pub icon_url : Option Text
  pub refresh_minutes : ℕ
  pub enabled : Bool

pub record SourceStatus : Type 0 where
  pub source_id : ℕ
  pub last_fetched_at : Option ℕ
  pub last_success_at : Option ℕ
  pub last_error_class : Option Text
  pub last_error_detail : Option Text
  pub consecutive_failures : ℕ
  pub discovered_icon_url : Option Text

pub record FeedItem : Type 0 where
  pub id : ℕ
  pub source_id : ℕ
  pub canonical_url : Text
  pub title : Text
  pub summary : Option Text
  pub published_at : ℕ
  pub image_url : Option Text
  pub fetched_at : ℕ
  pub language : Option Text

pub data TopicOrigin : Type 0 where
  source rule : TopicOrigin

pub record FeedItemTopic : Type 0 where
  pub feed_item_id : ℕ
  pub topic_id : ℕ
  pub origin : TopicOrigin

pub record UserReadItem : Type 0 where
  pub user_id : ℕ
  pub feed_item_id : ℕ
  pub read_at : ℕ

pub record Bookmark : Type 0 where
  pub user_id : ℕ
  pub feed_item_id : ℕ
  pub created_at : ℕ

pub data MuteKind : Type 0 where
  word tag url : MuteKind

pub record UserMutedTerm : Type 0 where
  pub user_id : ℕ
  pub kind : MuteKind
  pub term : Text

pub record UserPreferenceTopic : Type 0 where
  pub user_id : ℕ
  pub topic_id : ℕ

pub record UserPreferenceSource : Type 0 where
  pub user_id : ℕ
  pub source_id : ℕ

pub record UserPreferenceLanguage : Type 0 where
  pub user_id : ℕ
  pub language : Text

abbrev pub mute_kind_eq : MuteKind → MuteKind → Bool
mute_kind_eq word word = true
mute_kind_eq tag tag = true
mute_kind_eq url url = true
mute_kind_eq _ _ = false

pub data Theme : Type 0 where
  light dark system : Theme

pub data Layout : Type 0 where
  grid list : Layout

pub record UserPreferences : Type 0 where
  pub user_id : ℕ
  pub theme : Theme
  pub layout : Layout
  pub max_visible_cards : ℕ
  pub onboarding_completed : Bool
