-- ===== src/Preferences/Patching.antt =====
-- `apply_patch` of app/services/preferences.py, one step for each field. A refused patch yields no
-- tables: the transaction is the caller's, and is rolled back.
use sre_tab.Common.{
  if◌then◌else◌, is_some, Text, codes, lower, is_nil, strip, text_eq, nat_eq, ◌==◌, select,
  delete_rows, update_rows, sorted_set, insert_rows, contains, ℕ, not, Option, none, some, List, [],
  ◌∷◌, map,
}
use sre_tab.Models.{Topic, Source, MuteKind, word, tag, url, UserPreferences}
use sre_tab.Preferences.{
  PreferencesPatch, PreferencesOut, Db, unknown_slugs, unknown_languages, Patched, accepted,
  refused, ◌>>=◌, Texts, mute_terms,
}
use sre_tab.Preferences.Urls.{url_mute_terms}
use sre_tab.Preferences.Profile.{
  is_profile_of, is_topic_of, is_source_of, is_language_of, is_mute_of, same_topic, same_source,
  same_mute, same_language, topic_row, source_row, mute_row, language_row, ensure_profile,
  read_back,
}

-- The value of a patch where it gives one.
abbrev pub or_kept : {A : Type 0} → A → Option A → A
or_kept kept none = kept
or_kept kept (some given) = given

-- The assignments to the profile's columns.
abbrev pub set_scalars : PreferencesPatch → UserPreferences → UserPreferences
set_scalars patch profile = record {
  user_id = profile.user_id;
  theme = or_kept profile.theme patch.theme;
  layout = or_kept profile.layout patch.layout;
  max_visible_cards = or_kept profile.max_visible_cards patch.max_visible_cards;
  onboarding_completed = or_kept profile.onboarding_completed patch.onboarding_completed;
}

unfoldable pub patch_scalars : ℕ → PreferencesPatch → Db → Db
unfolding update_rows
patch_scalars user_id patch db = record {
  preferences = update_rows (is_profile_of user_id) (set_scalars patch) db.preferences;
  topics = db.topics;
  sources = db.sources;
  preference_topics = db.preference_topics;
  preference_sources = db.preference_sources;
  muted_terms = db.muted_terms;
  preference_languages = db.preference_languages;
}

-- `dict.fromkeys`
unfoldable pub distinct : List Text → List Text
unfolding delete_rows
distinct [] = []
distinct (x ∷ xs) = x ∷ delete_rows (λ y. y == x) (distinct xs)

-- `known.get(slug)`
unfoldable pub lookup : List (Text × ℕ) → Text → Option ℕ
lookup [] slug = none
lookup ((key, id) ∷ known) slug =
    let rest = lookup known slug in if key == slug then some id else rest

unfoldable pub put_id : Option ℕ → List ℕ → List ℕ
put_id none ids = ids
put_id (some id) ids = id ∷ ids

unfoldable pub ids_of : List (Text × ℕ) → List Text → List ℕ
unfolding lookup put_id
ids_of known [] = []
ids_of known (slug ∷ slugs) = put_id (lookup known slug) (ids_of known slugs)

-- The slugs that the dictionary lacks.
unfoldable pub unknown : List (Text × ℕ) → List Text → List Text
unfolding select lookup
unknown known requested = select (λ slug. not (is_some (lookup known slug))) requested

-- `_resolve`
unfoldable pub resolve : List (Text × ℕ) → List Text → Patched (List ℕ)
unfolding unknown sorted_set distinct ids_of
resolve known requested =
    if is_nil (unknown known requested)
    then accepted (ids_of known (distinct requested))
    else refused (unknown_slugs (sorted_set (unknown known requested)))

-- `_slug_ids` on the topics and the sources: slugs are unique in both tables.
abbrev pub topic_ids : List Topic → List (Text × ℕ)
topic_ids topics = map (λ topic. (topic.slug, topic.id)) topics

abbrev pub source_ids : List Source → List (Text × ℕ)
source_ids sources = map (λ source. (source.slug, source.id)) sources

unfoldable pub with_topics : ℕ → List ℕ → Db → Db
unfolding insert_rows delete_rows
with_topics user_id ids db = record {
  preferences = db.preferences;
  topics = db.topics;
  sources = db.sources;
  preference_topics =
      insert_rows same_topic (map (topic_row user_id) ids)
        (delete_rows (is_topic_of user_id) db.preference_topics);
  preference_sources = db.preference_sources;
  muted_terms = db.muted_terms;
  preference_languages = db.preference_languages;
}

unfoldable pub with_sources : ℕ → List ℕ → Db → Db
unfolding insert_rows delete_rows
with_sources user_id ids db = record {
  preferences = db.preferences;
  topics = db.topics;
  sources = db.sources;
  preference_topics = db.preference_topics;
  preference_sources =
      insert_rows same_source (map (source_row user_id) ids)
        (delete_rows (is_source_of user_id) db.preference_sources);
  muted_terms = db.muted_terms;
  preference_languages = db.preference_languages;
}

-- `_replace_mutes`
unfoldable pub replace_mutes : ℕ → MuteKind → List Text → Db → Db
unfolding insert_rows delete_rows
replace_mutes user_id kind terms db = record {
  preferences = db.preferences;
  topics = db.topics;
  sources = db.sources;
  preference_topics = db.preference_topics;
  preference_sources = db.preference_sources;
  muted_terms =
      insert_rows same_mute (map (mute_row user_id kind) terms)
        (delete_rows (is_mute_of user_id kind) db.muted_terms);
  preference_languages = db.preference_languages;
}

unfoldable pub with_languages : ℕ → List Text → Db → Db
unfolding insert_rows delete_rows
with_languages user_id codes db = record {
  preferences = db.preferences;
  topics = db.topics;
  sources = db.sources;
  preference_topics = db.preference_topics;
  preference_sources = db.preference_sources;
  muted_terms = db.muted_terms;
  preference_languages =
      insert_rows same_language (map (language_row user_id) codes)
        (delete_rows (is_language_of user_id) db.preference_languages);
}

unfoldable pub patch_topics : ℕ → Option (List Text) → Db → Patched Db
unfolding select resolve with_topics
patch_topics user_id none db = accepted db
patch_topics user_id (some slugs) db = do
  ids ← resolve (topic_ids (select (λ topic. topic.enabled) db.topics)) slugs
  accepted (with_topics user_id ids db)

unfoldable pub patch_sources : ℕ → Option (List Text) → Db → Patched Db
unfolding select resolve with_sources
patch_sources user_id none db = accepted db
patch_sources user_id (some slugs) db = do
  ids ← resolve (source_ids (select (λ source. source.enabled) db.sources)) slugs
  accepted (with_sources user_id ids db)

unfoldable pub patch_words : Texts → ℕ → Option (List Text) → Db → Patched Db
unfolding mute_terms replace_mutes
patch_words texts user_id none db = accepted db
patch_words texts user_id (some raws) db = do
  terms ← mute_terms texts raws
  accepted (replace_mutes user_id word terms db)

-- Every topic counts here, also one that is not enabled.
unfoldable pub patch_tags : Texts → ℕ → Option (List Text) → Db → Patched Db
unfolding mute_terms resolve replace_mutes
patch_tags texts user_id none db = accepted db
patch_tags texts user_id (some raws) db = do
  terms ← mute_terms texts raws
  _ ← resolve (topic_ids db.topics) terms
  accepted (replace_mutes user_id tag terms db)

unfoldable pub patch_urls : Texts → ℕ → Option (List Text) → Db → Patched Db
unfolding url_mute_terms sorted_set replace_mutes
patch_urls texts user_id none db = accepted db
patch_urls texts user_id (some raws) db = do
  terms ← url_mute_terms texts raws
  accepted (replace_mutes user_id url (sorted_set terms) db)

-- The codes of the languages, if the detector knows them all.
unfoldable pub language_list : Texts → List Text → Patched (List Text)
unfolding sorted_set strip select contains
language_list texts raws =
    let languages = sorted_set (map (λ code. lower (strip code)) raws) in
    let strange = select (λ code. not (contains code texts.language_codes)) languages in
    if is_nil strange then accepted languages else refused (unknown_languages strange)

unfoldable pub patch_languages : Texts → ℕ → Option (List Text) → Db → Patched Db
unfolding language_list with_languages
patch_languages texts user_id none db = accepted db
patch_languages texts user_id (some raws) db = do
  languages ← language_list texts raws
  accepted (with_languages user_id languages db)

-- The steps of `apply_patch` that change the tables, in its order.
unfoldable pub patch_tables : Texts → ℕ → PreferencesPatch → Db → Patched Db
unfolding patch_scalars patch_topics patch_sources patch_words patch_tags patch_urls patch_languages
patch_tables texts user_id patch db = do
  topics_set ← patch_topics user_id patch.topics (patch_scalars user_id patch db)
  sources_set ← patch_sources user_id patch.sources topics_set
  words_set ← patch_words texts user_id patch.muted_words sources_set
  tags_set ← patch_tags texts user_id patch.muted_tags words_set
  urls_set ← patch_urls texts user_id patch.muted_urls tags_set
  patch_languages texts user_id patch.languages urls_set

-- `apply_patch`: the tables, and the profile that is returned.
unfoldable pub apply_patch : Texts → ℕ → PreferencesPatch → Db → Patched (Db × PreferencesOut)
unfolding ensure_profile patch_tables read_back
apply_patch texts user_id patch db = do
  patched ← patch_tables texts user_id patch (ensure_profile user_id db)
  out ← read_back user_id patched
  accepted (patched, out)
