-- ===== src/Preferences/Steps.antt =====
-- What each step of `apply_patch` in app/services/preferences.py does to the profile that is shown.
use sre_tab.Common.{
  Bool-cases, Text, codes, lower, is_nil, strip, text_eq, nat_eq, select, sorted_set,
  sorted_set-Sorted, contains, ℕ, ◌≡◌, refl, sym, subst, ap, ◌∙◌, inl, inr, not, Option, none, some,
  List, [], map, arith,
}
use sre_tab.Models.{Topic, Source, word, tag, url}
use sre_tab.Preferences.{Db, Patched, accepted, refused, Texts, normalise_terms, mute_terms}
use sre_tab.Preferences.Urls.{url_mute_terms}
use sre_tab.Preferences.Patching.{
  topic_ids, source_ids, resolve, replace_mutes, with_languages, patch_topics, patch_sources,
  patch_words, patch_tags, patch_urls, language_list, patch_languages,
}
use sre_tab.Preferences.Catalogue.{IsCatalogue}
use sre_tab.Preferences.Effects.{
  replaced, accepted-bind, accepted_same, mute_terms-normalise_terms, normalise_terms-Sorted,
  HasEffect, set_words, set_tags, set_urls, set_languages, set_topics, set_sources, words_effect,
  tags_effect, urls_effect, languages_effect, topics_effect, sources_effect,
}

pub patch_words-HasEffect :
    (texts : Texts) (user_id : ℕ) (raws : Option (List Text)) (db after : Db)
    → patch_words texts user_id raws db ≡ accepted after
    → HasEffect user_id
        (λ v. set_words (replaced (normalise_terms texts) v.muted_words raws) v)
        db
        after
unfolding patch_words
patch_words-HasEffect texts user_id none db after h =
    subst (HasEffect user_id (λ v. v) db) (accepted_same db after h) (refl, (refl, refl, refl))
patch_words-HasEffect texts user_id (some raws) db after h =
    let (terms, (e, f)) = accepted-bind (mute_terms texts raws) _ after h in
    let same = mute_terms-normalise_terms texts raws terms e in
    subst (HasEffect user_id (set_words (normalise_terms texts raws)) db)
      (ap (λ ts. replace_mutes user_id word ts db) same ∙ accepted_same _ after f)
      (words_effect user_id (normalise_terms texts raws) db (normalise_terms-Sorted texts raws))

pub patch_tags-HasEffect :
    (texts : Texts) (user_id : ℕ) (raws : Option (List Text)) (db after : Db)
    → patch_tags texts user_id raws db ≡ accepted after
    → HasEffect user_id
        (λ v. set_tags (replaced (normalise_terms texts) v.muted_tags raws) v)
        db
        after
unfolding patch_tags
patch_tags-HasEffect texts user_id none db after h =
    subst (HasEffect user_id (λ v. v) db) (accepted_same db after h) (refl, (refl, refl, refl))
patch_tags-HasEffect texts user_id (some raws) db after h =
    let (terms, (e, f)) = accepted-bind (mute_terms texts raws) _ after h in
    let (ids, (_, g)) = accepted-bind (resolve (topic_ids db.topics) terms) _ after f in
    let same = mute_terms-normalise_terms texts raws terms e in
    subst (HasEffect user_id (set_tags (normalise_terms texts raws)) db)
      (ap (λ ts. replace_mutes user_id tag ts db) same ∙ accepted_same _ after g)
      (tags_effect user_id (normalise_terms texts raws) db (normalise_terms-Sorted texts raws))

-- The terms that a list of URLs is stored as, none if one of them is refused.
abbrev pub reduced : Patched (List Text) → List Text
reduced (accepted terms) = sorted_set terms
reduced (refused e) = []

pub patch_urls-HasEffect :
    (texts : Texts) (user_id : ℕ) (raws : Option (List Text)) (db after : Db)
    → patch_urls texts user_id raws db ≡ accepted after
    → HasEffect user_id
        (λ v.
          set_urls (replaced (λ given. reduced (url_mute_terms texts given)) v.muted_urls raws) v)
        db
        after
unfolding patch_urls
patch_urls-HasEffect texts user_id none db after h =
    subst (HasEffect user_id (λ v. v) db) (accepted_same db after h) (refl, (refl, refl, refl))
patch_urls-HasEffect texts user_id (some raws) db after h =
    let (terms, (e, f)) = accepted-bind (url_mute_terms texts raws) _ after h in
    subst (λ (d : Db). HasEffect user_id (set_urls (reduced (url_mute_terms texts raws))) db d)
      (accepted_same _ after f)
      (subst
        (λ (o : Patched (List Text)).
          HasEffect user_id (set_urls (reduced o)) db
            (replace_mutes user_id url (sorted_set terms) db))
        (sym e) (urls_effect user_id (sorted_set terms) db (sorted_set-Sorted terms)))

-- The codes that a list of languages is stored as.
abbrev pub language_codes_of : List Text → List Text
language_codes_of raws = sorted_set (map (λ code. lower (strip code)) raws)

language_list_same :
    (texts : Texts) (raws codes : List Text)
    → language_list texts raws ≡ accepted codes
    → language_codes_of raws ≡ codes
unfolding language_list
language_list_same texts raws codes h =
    elim (Bool-cases (
      is_nil
        (select (λ code. not (contains code texts.language_codes)) (language_codes_of raws)))) [
          | inl e ↦ ground (arith, h, e, accepted_same (language_codes_of raws) codes)
          | inr e ↦ absurd (ground (arith, h, e))
        ]

pub patch_languages-HasEffect :
    (texts : Texts) (user_id : ℕ) (raws : Option (List Text)) (db after : Db)
    → patch_languages texts user_id raws db ≡ accepted after
    → HasEffect user_id
        (λ v. set_languages (replaced language_codes_of v.languages raws) v)
        db
        after
unfolding patch_languages
patch_languages-HasEffect texts user_id none db after h =
    subst (HasEffect user_id (λ v. v) db) (accepted_same db after h) (refl, (refl, refl, refl))
patch_languages-HasEffect texts user_id (some raws) db after h =
    let (codes, (e, f)) = accepted-bind (language_list texts raws) _ after h in
    subst (HasEffect user_id (set_languages (language_codes_of raws)) db)
      (ap (λ ts. with_languages user_id ts db) (language_list_same texts raws codes e)
        ∙ accepted_same _ after f)
      (languages_effect user_id (language_codes_of raws) db
        (sorted_set-Sorted (map (λ code. lower (strip code)) raws)))

pub patch_topics-HasEffect :
    (user_id : ℕ) (slugs : Option (List Text)) (db after : Db)
    → IsCatalogue (λ (topic : Topic). topic.slug) (λ topic. topic.id) db.topics
    → patch_topics user_id slugs db ≡ accepted after
    → HasEffect user_id (λ v. set_topics (replaced sorted_set v.topics slugs) v) db after
unfolding patch_topics
patch_topics-HasEffect user_id none db after catalogue h =
    subst (HasEffect user_id (λ v. v) db) (accepted_same db after h) (refl, (refl, refl, refl))
patch_topics-HasEffect user_id (some slugs) db after catalogue h =
    let (ids, (e, f)) =
      accepted-bind (resolve (topic_ids (select (λ topic. topic.enabled) db.topics)) slugs) _ after
        h in
    subst (HasEffect user_id (set_topics (sorted_set slugs)) db) (accepted_same _ after f)
      (topics_effect user_id slugs ids db catalogue e)

pub patch_sources-HasEffect :
    (user_id : ℕ) (slugs : Option (List Text)) (db after : Db)
    → IsCatalogue (λ (source : Source). source.slug) (λ source. source.id) db.sources
    → patch_sources user_id slugs db ≡ accepted after
    → HasEffect user_id (λ v. set_sources (replaced sorted_set v.sources slugs) v) db after
unfolding patch_sources
patch_sources-HasEffect user_id none db after catalogue h =
    subst (HasEffect user_id (λ v. v) db) (accepted_same db after h) (refl, (refl, refl, refl))
patch_sources-HasEffect user_id (some slugs) db after catalogue h =
    let (ids, (e, f)) =
      accepted-bind (resolve (source_ids (select (λ source. source.enabled) db.sources)) slugs) _
        after h in
    subst (HasEffect user_id (set_sources (sorted_set slugs)) db) (accepted_same _ after f)
      (sources_effect user_id slugs ids db catalogue e)
