-- ===== src/Preferences/Profile.antt =====
-- The profile in the tables: app/services/preferences.py.
use sre_tab.Common.{
  Text, text_before, text_eq, nat_eq, ◌==◌, select, scalar, exists_row, insert_ignore, sort_by,
  insert_rows, contains, ℕ, Bool, false, ◌&&◌, Option, none, some, List, map,
}
use sre_tab.Models.{
  MuteKind, word, tag, url, mute_kind_eq, UserMutedTerm, UserPreferenceTopic, UserPreferenceSource,
  UserPreferenceLanguage, system, grid, UserPreferences,
}
use sre_tab.Preferences.{
  PreferencesOut, Db, vanished, Patched, accepted, refused, default_source_slugs,
}

abbrev pub is_profile_of : ℕ → UserPreferences → Bool
is_profile_of user_id profile = profile.user_id == user_id

abbrev pub is_topic_of : ℕ → UserPreferenceTopic → Bool
is_topic_of user_id row = row.user_id == user_id

abbrev pub is_source_of : ℕ → UserPreferenceSource → Bool
is_source_of user_id row = row.user_id == user_id

abbrev pub is_language_of : ℕ → UserPreferenceLanguage → Bool
is_language_of user_id row = row.user_id == user_id

abbrev pub is_mute_of : ℕ → MuteKind → UserMutedTerm → Bool
is_mute_of user_id kind row = row.user_id == user_id && mute_kind_eq row.kind kind

-- The primary keys of the tables.
abbrev pub same_topic : UserPreferenceTopic → UserPreferenceTopic → Bool
same_topic a b = a.user_id == b.user_id && a.topic_id == b.topic_id

abbrev pub same_source : UserPreferenceSource → UserPreferenceSource → Bool
same_source a b = a.user_id == b.user_id && a.source_id == b.source_id

abbrev pub same_mute : UserMutedTerm → UserMutedTerm → Bool
same_mute a b = a.user_id == b.user_id && mute_kind_eq a.kind b.kind && a.term == b.term

abbrev pub same_language : UserPreferenceLanguage → UserPreferenceLanguage → Bool
same_language a b = a.user_id == b.user_id && a.language == b.language

-- The rows of a user, from what a patch or the defaults name.
abbrev pub topic_row : ℕ → ℕ → UserPreferenceTopic
topic_row user_id topic_id = record { user_id = user_id; topic_id = topic_id }

abbrev pub source_row : ℕ → ℕ → UserPreferenceSource
source_row user_id source_id = record { user_id = user_id; source_id = source_id }

abbrev pub mute_row : ℕ → MuteKind → Text → UserMutedTerm
mute_row user_id kind term = record { user_id = user_id; kind = kind; term = term }

abbrev pub language_row : ℕ → Text → UserPreferenceLanguage
language_row user_id code = record { user_id = user_id; language = code }

-- A row whose columns have the models' defaults.
abbrev pub default_profile : ℕ → UserPreferences
default_profile user_id = record {
  user_id = user_id;
  theme = system;
  layout = grid;
  max_visible_cards = 25;
  onboarding_completed = false;
}

-- The insertions of `_get_or_create_profile`.
unfoldable pub create_profile : ℕ → Db → Db
unfolding insert_ignore insert_rows select contains exists_row
create_profile user_id db = record {
  preferences = insert_ignore (is_profile_of user_id) (default_profile user_id) db.preferences;
  topics = db.topics;
  sources = db.sources;
  preference_topics =
      insert_rows same_topic
        (map (λ topic. topic_row user_id topic.id) (select (λ topic. topic.enabled) db.topics))
        db.preference_topics;
  preference_sources =
      insert_rows same_source
        (map (λ source. source_row user_id source.id)
          (select (λ source. source.enabled && contains source.slug default_source_slugs)
            db.sources))
        db.preference_sources;
  muted_terms = db.muted_terms;
  preference_languages = db.preference_languages;
}

unfoldable pub profile_of : ℕ → Db → Option UserPreferences
unfolding scalar
profile_of user_id db = scalar (is_profile_of user_id) db.preferences

-- The profile row gates the defaults: they are not given a second time.
unfoldable pub or_create : ℕ → Db → Option UserPreferences → Db
unfolding create_profile
or_create user_id db (some profile) = db
or_create user_id db none = create_profile user_id db

-- `ensure_profile`: the tables after `_get_or_create_profile`.
unfoldable pub ensure_profile : ℕ → Db → Db
unfolding profile_of or_create
ensure_profile user_id db = or_create user_id db (profile_of user_id db)

-- `muted_terms`, `selected_languages`, `selected_topic_slugs` and `selected_source_slugs`. The keys
-- of the tables let a topic, and a source, join one row of a user at most.
unfoldable pub muted_terms : ℕ → MuteKind → Db → List Text
unfolding select sort_by
muted_terms user_id kind db =
    sort_by text_before (map (λ row. row.term) (select (is_mute_of user_id kind) db.muted_terms))

unfoldable pub selected_languages : ℕ → Db → List Text
unfolding select sort_by
selected_languages user_id db =
    sort_by text_before
      (map (λ row. row.language) (select (is_language_of user_id) db.preference_languages))

unfoldable pub selected_topic_slugs : ℕ → Db → List Text
unfolding select sort_by exists_row
selected_topic_slugs user_id db = sort_by text_before (
    map (λ topic. topic.slug)
      (select
        (λ topic.
          exists_row (λ row. same_topic row (topic_row user_id topic.id)) db.preference_topics)
        db.topics))

unfoldable pub selected_source_slugs : ℕ → Db → List Text
unfolding select sort_by exists_row
selected_source_slugs user_id db = sort_by text_before (
    map (λ source. source.slug)
      (select
        (λ source.
          exists_row (λ row. same_source row (source_row user_id source.id)) db.preference_sources)
        db.sources))

-- `_to_out`
unfoldable pub to_out : ℕ → Db → UserPreferences → PreferencesOut
unfolding muted_terms selected_languages selected_topic_slugs selected_source_slugs
to_out user_id db profile = record {
  theme = profile.theme;
  layout = profile.layout;
  max_visible_cards = profile.max_visible_cards;
  onboarding_completed = profile.onboarding_completed;
  topics = selected_topic_slugs user_id db;
  sources = selected_source_slugs user_id db;
  muted_words = muted_terms user_id word db;
  muted_tags = muted_terms user_id tag db;
  muted_urls = muted_terms user_id url db;
  languages = selected_languages user_id db;
}

-- The profile that is returned, if its row is found.
unfoldable pub shown : ℕ → Db → Option UserPreferences → Patched PreferencesOut
unfolding to_out
shown user_id db none = refused vanished
shown user_id db (some profile) = accepted (to_out user_id db profile)

-- The profile is read back, where an insertion has to be found again.
unfoldable pub read_back : ℕ → Db → Patched PreferencesOut
unfolding profile_of shown
read_back user_id db = shown user_id db (profile_of user_id db)

-- `load_profile`: the tables, and what is returned.
unfoldable pub load_profile : ℕ → Db → Db × Patched PreferencesOut
unfolding ensure_profile read_back
load_profile user_id db = (ensure_profile user_id db, read_back user_id (ensure_profile user_id db))
