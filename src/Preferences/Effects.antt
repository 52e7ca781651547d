-- ===== src/Preferences/Effects.antt =====
-- What is shown of a profile of app/services/preferences.py after the rows of one field are replaced.
use sre_tab.Common.{
  Bool-cases, Text, is_nil, words, text_before, text_eq, nat_eq, ◌==◌, eq_refl, select, exists_row,
  delete_rows, Sorted, sorted_set, sorted_set-Sorted, insert_rows, exists_row-map,
  exists_row-delete_rows-none, exists_row-insert_rows, ℕ, ◌≡◌, refl, ap, ◌∙◌, inl, inr, false, ◌&&◌,
  ◌||◌, Option, none, some, List, map, arith,
}
use sre_tab.Models.{
  Topic, Source, MuteKind, word, tag, url, mute_kind_eq, UserPreferenceTopic, UserPreferenceSource,
}
use sre_tab.Preferences.{
  Db, Patched, accepted, refused, ◌>>=◌, Texts, join_words, normalise_terms, check_terms,
  mute_terms,
}
use sre_tab.Preferences.Profile.{
  is_topic_of, is_source_of, same_topic, same_source, topic_row, source_row, muted_terms,
  selected_languages, selected_topic_slugs, selected_source_slugs,
}
use sre_tab.Preferences.Patching.{
  topic_ids, source_ids, resolve, with_topics, with_sources, replace_mutes, with_languages,
}
use sre_tab.Preferences.Columns.{
  muted_terms-replace_mutes, muted_terms-replace_mutes_other, selected_languages-with_languages,
}
use sre_tab.Preferences.Catalogue.{IsCatalogue, selection-sorted_set}

-- What a profile shows, but for the row of the profile.
pub record View : Type 0 where
  pub topics : List Text
  pub sources : List Text
  pub muted_words : List Text
  pub muted_tags : List Text
  pub muted_urls : List Text
  pub languages : List Text

abbrev pub view : ℕ → Db → View
view user_id db = record {
  topics = selected_topic_slugs user_id db;
  sources = selected_source_slugs user_id db;
  muted_words = muted_terms user_id word db;
  muted_tags = muted_terms user_id tag db;
  muted_urls = muted_terms user_id url db;
  languages = selected_languages user_id db;
}

-- The new value of a field: what the list of the patch is stored as, or what was there.
abbrev pub replaced : (List Text → List Text) → List Text → Option (List Text) → List Text
replaced f kept none = kept
replaced f kept (some given) = f given

-- What the steps before and after a value leave of it.
pub accepted-bind :
    {A B : Type 0} (o : Patched A) (f : A → Patched B) (b : B)
    → (o >>= f) ≡ accepted b
    → (a : A) × ((o ≡ accepted a) × (f a ≡ accepted b))
accepted-bind (accepted a) f b h = (a, (refl, h))
accepted-bind (refused e) f b h = absurd (ground (arith, h))

pub accepted_same : {A : Type 0} (a b : A) → accepted a ≡ accepted b → a ≡ b
accepted_same a b h = cc

check_terms_same : (ts terms : List Text) → check_terms ts ≡ accepted terms → ts ≡ terms
unfolding check_terms
check_terms_same ts terms h = elim (Bool-cases (exists_row is_nil ts)) [
  | inl e ↦ absurd (ground (arith, h, e))
  | inr e ↦ ground (arith, h, e, accepted_same ts terms)
]

pub mute_terms-normalise_terms :
    (texts : Texts) (raws terms : List Text)
    → mute_terms texts raws ≡ accepted terms
    → normalise_terms texts raws ≡ terms
unfolding mute_terms
mute_terms-normalise_terms texts raws terms h =
    check_terms_same (normalise_terms texts raws) terms h

pub normalise_terms-Sorted :
    (texts : Texts) (raws : List Text) → Sorted text_before (normalise_terms texts raws)
unfolding normalise_terms
normalise_terms-Sorted texts raws =
    sorted_set-Sorted (map (λ term. texts.casefold (join_words (words term))) raws)

-- The tables that a step leaves alone.
abbrev pub IsKept : Db → Db → Type 0
IsKept db after =
    (after.preferences ≡ db.preferences) × (after.topics ≡ db.topics) × (after.sources ≡ db.sources)

-- What a step does to the view of the user.
abbrev pub HasEffect : ℕ → (View → View) → Db → Db → Type 0
HasEffect user_id set db after = (view user_id after ≡ set (view user_id db)) × IsKept db after

abbrev pub set_words : List Text → View → View
set_words xs v = record {
  topics = v.topics;
  sources = v.sources;
  muted_words = xs;
  muted_tags = v.muted_tags;
  muted_urls = v.muted_urls;
  languages = v.languages;
}

abbrev pub set_tags : List Text → View → View
set_tags xs v = record {
  topics = v.topics;
  sources = v.sources;
  muted_words = v.muted_words;
  muted_tags = xs;
  muted_urls = v.muted_urls;
  languages = v.languages;
}

abbrev pub set_urls : List Text → View → View
set_urls xs v = record {
  topics = v.topics;
  sources = v.sources;
  muted_words = v.muted_words;
  muted_tags = v.muted_tags;
  muted_urls = xs;
  languages = v.languages;
}

abbrev pub set_languages : List Text → View → View
set_languages xs v = record {
  topics = v.topics;
  sources = v.sources;
  muted_words = v.muted_words;
  muted_tags = v.muted_tags;
  muted_urls = v.muted_urls;
  languages = xs;
}

abbrev pub set_topics : List Text → View → View
set_topics xs v = record {
  topics = xs;
  sources = v.sources;
  muted_words = v.muted_words;
  muted_tags = v.muted_tags;
  muted_urls = v.muted_urls;
  languages = v.languages;
}

abbrev pub set_sources : List Text → View → View
set_sources xs v = record {
  topics = v.topics;
  sources = xs;
  muted_words = v.muted_words;
  muted_tags = v.muted_tags;
  muted_urls = v.muted_urls;
  languages = v.languages;
}

differ_kind :
    (user_id : ℕ) (a b : MuteKind)
    → mute_kind_eq a b ≡ false
    → (user_id == user_id && mute_kind_eq a b) ≡ false
differ_kind user_id a b h = ground (arith, h)

pub words_effect :
    (user_id : ℕ) (terms : List Text) (db : Db)
    → Sorted text_before terms
    → HasEffect user_id (set_words terms) db (replace_mutes user_id word terms db)
unfolding replace_mutes selected_topic_slugs selected_source_slugs selected_languages
words_effect user_id terms db s = (
  rw
      (
        muted_terms-replace_mutes user_id word terms db s,
        muted_terms-replace_mutes_other user_id user_id word tag terms db
            (differ_kind user_id word tag refl),
        muted_terms-replace_mutes_other user_id user_id word url terms db
            (differ_kind user_id word url refl),
      )
      refl,
  (refl, refl, refl),
)

pub tags_effect :
    (user_id : ℕ) (terms : List Text) (db : Db)
    → Sorted text_before terms
    → HasEffect user_id (set_tags terms) db (replace_mutes user_id tag terms db)
unfolding replace_mutes selected_topic_slugs selected_source_slugs selected_languages
tags_effect user_id terms db s = (
  rw
      (
        muted_terms-replace_mutes user_id tag terms db s,
        muted_terms-replace_mutes_other user_id user_id tag word terms db
            (differ_kind user_id tag word refl),
        muted_terms-replace_mutes_other user_id user_id tag url terms db
            (differ_kind user_id tag url refl),
      )
      refl,
  (refl, refl, refl),
)

pub urls_effect :
    (user_id : ℕ) (terms : List Text) (db : Db)
    → Sorted text_before terms
    → HasEffect user_id (set_urls terms) db (replace_mutes user_id url terms db)
unfolding replace_mutes selected_topic_slugs selected_source_slugs selected_languages
urls_effect user_id terms db s = (
  rw
      (
        muted_terms-replace_mutes user_id url terms db s,
        muted_terms-replace_mutes_other user_id user_id url word terms db
            (differ_kind user_id url word refl),
        muted_terms-replace_mutes_other user_id user_id url tag terms db
            (differ_kind user_id url tag refl),
      )
      refl,
  (refl, refl, refl),
)

pub languages_effect :
    (user_id : ℕ) (languages : List Text) (db : Db)
    → Sorted text_before languages
    → HasEffect user_id (set_languages languages) db (with_languages user_id languages db)
unfolding with_languages selected_topic_slugs selected_source_slugs muted_terms
languages_effect user_id languages db s =
    (rw (selected_languages-with_languages user_id languages db s) refl, (refl, refl, refl))

-- The user's rows pick the topics that were written for them.
exists_topic :
    (user_id n : ℕ) (ids : List ℕ) (rows : List UserPreferenceTopic)
    → exists_row
        (λ row. same_topic row (topic_row user_id n))
        (insert_rows same_topic
          (map (topic_row user_id) ids)
          (delete_rows (is_topic_of user_id) rows))
      ≡ exists_row (λ i. i == n) ids
exists_topic user_id n ids rows =
    exists_row-insert_rows (λ row. same_topic row (topic_row user_id n)) same_topic
      (map (topic_row user_id) ids) (delete_rows (is_topic_of user_id) rows)
      (λ x y same at_x. ground (arith, same, at_x))
    ∙ ap
        (λ b.
          b
          || exists_row (λ row. same_topic row (topic_row user_id n)) (map (topic_row user_id) ids))
        (exists_row-delete_rows-none (λ row. same_topic row (topic_row user_id n))
          (is_topic_of user_id) rows (λ row h. ground (arith, h)))
    ∙ exists_row-map (λ row. same_topic row (topic_row user_id n)) (topic_row user_id) (λ i. i == n)
        ids (λ i. rw (eq_refl {K = ℕ} user_id) refl)

pub topics_effect :
    (user_id : ℕ) (slugs : List Text) (ids : List ℕ) (db : Db)
    → IsCatalogue (λ (topic : Topic). topic.slug) (λ topic. topic.id) db.topics
    → resolve (topic_ids (select (λ topic. topic.enabled) db.topics)) slugs ≡ accepted ids
    → HasEffect user_id (set_topics (sorted_set slugs)) db (with_topics user_id ids db)
unfolding with_topics selected_topic_slugs selected_source_slugs muted_terms selected_languages
topics_effect user_id slugs ids db catalogue resolved = (
  rw
      (selection-sorted_set (λ (topic : Topic). topic.slug) (λ topic. topic.id)
        (λ topic. topic.enabled)
        (λ topic.
          exists_row (λ row. same_topic row (topic_row user_id topic.id))
            (insert_rows same_topic (map (topic_row user_id) ids)
              (delete_rows (is_topic_of user_id) db.preference_topics)))
        db.topics slugs ids catalogue resolved
        (λ topic. exists_topic user_id topic.id ids db.preference_topics))
      refl,
  (refl, refl, refl),
)

-- The user's rows pick the sources that were written for them.
exists_source :
    (user_id n : ℕ) (ids : List ℕ) (rows : List UserPreferenceSource)
    → exists_row
        (λ row. same_source row (source_row user_id n))
        (insert_rows same_source
          (map (source_row user_id) ids)
          (delete_rows (is_source_of user_id) rows))
      ≡ exists_row (λ i. i == n) ids
exists_source user_id n ids rows =
    exists_row-insert_rows (λ row. same_source row (source_row user_id n)) same_source
      (map (source_row user_id) ids) (delete_rows (is_source_of user_id) rows)
      (λ x y same at_x. ground (arith, same, at_x))
    ∙ ap
        (λ b.
          b
          || exists_row (λ row. same_source row (source_row user_id n))
              (map (source_row user_id) ids))
        (exists_row-delete_rows-none (λ row. same_source row (source_row user_id n))
          (is_source_of user_id) rows (λ row h. ground (arith, h)))
    ∙ exists_row-map (λ row. same_source row (source_row user_id n)) (source_row user_id)
        (λ i. i == n) ids (λ i. rw (eq_refl {K = ℕ} user_id) refl)

pub sources_effect :
    (user_id : ℕ) (slugs : List Text) (ids : List ℕ) (db : Db)
    → IsCatalogue (λ (source : Source). source.slug) (λ source. source.id) db.sources
    → resolve (source_ids (select (λ source. source.enabled) db.sources)) slugs ≡ accepted ids
    → HasEffect user_id (set_sources (sorted_set slugs)) db (with_sources user_id ids db)
unfolding with_sources selected_topic_slugs selected_source_slugs muted_terms selected_languages
sources_effect user_id slugs ids db catalogue resolved = (
  rw
      (selection-sorted_set (λ (source : Source). source.slug) (λ source. source.id)
        (λ source. source.enabled)
        (λ source.
          exists_row (λ row. same_source row (source_row user_id source.id))
            (insert_rows same_source (map (source_row user_id) ids)
              (delete_rows (is_source_of user_id) db.preference_sources)))
        db.sources slugs ids catalogue resolved
        (λ source. exists_source user_id source.id ids db.preference_sources))
      refl,
  (refl, refl, refl),
)
