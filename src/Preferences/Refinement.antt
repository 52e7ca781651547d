-- ===== src/Preferences/Refinement.antt =====
-- app/services/preferences.py as its clients see it: a patch changes the profile that is shown,
-- field by field.
use sre_tab.Common.{
  is_some, text_eq, nat_eq, eq_refl, scalar, scalar-insert_ignore_same, scalar-update_rows,
  sorted_set, ℕ, ◌≡◌, refl, sym, subst, ap, ◌∙◌, true, Option, none, some, List, arith,
}
use sre_tab.Models.{Topic, Source, UserPreferences}
use sre_tab.Preferences.{PreferencesPatch, PreferencesOut, Db, accepted, Texts, normalise_terms}
use sre_tab.Preferences.Urls.{url_mute_terms}
use sre_tab.Preferences.Profile.{
  is_profile_of, or_create, shown, default_profile, create_profile, profile_of, ensure_profile,
  muted_terms, selected_languages, selected_topic_slugs, selected_source_slugs, to_out, read_back,
  load_profile,
}
use sre_tab.Preferences.Patching.{
  or_kept, set_scalars, patch_scalars, patch_topics, patch_sources, patch_words, patch_tags,
  patch_urls, patch_tables, apply_patch,
}
use sre_tab.Preferences.Catalogue.{IsCatalogue}
use sre_tab.Preferences.Effects.{
  View, view, replaced, accepted-bind, accepted_same, IsKept, set_words, set_tags, set_urls,
  set_languages, set_topics, set_sources,
}
use sre_tab.Preferences.Steps.{
  reduced, language_codes_of, patch_words-HasEffect, patch_tags-HasEffect, patch_urls-HasEffect,
  patch_languages-HasEffect, patch_topics-HasEffect, patch_sources-HasEffect,
}

-- What a patch asks for: each field that it gives is replaced by the sorted set of the given list,
-- normalised as the field is, and each other field is kept.
unfoldable pub patched_out : Texts → PreferencesPatch → PreferencesOut → PreferencesOut
patched_out texts patch before = record {
  theme = or_kept before.theme patch.theme;
  layout = or_kept before.layout patch.layout;
  max_visible_cards = or_kept before.max_visible_cards patch.max_visible_cards;
  onboarding_completed = or_kept before.onboarding_completed patch.onboarding_completed;
  topics = replaced sorted_set before.topics patch.topics;
  sources = replaced sorted_set before.sources patch.sources;
  muted_words = replaced (normalise_terms texts) before.muted_words patch.muted_words;
  muted_tags = replaced (normalise_terms texts) before.muted_tags patch.muted_tags;
  muted_urls =
      replaced (λ given. reduced (url_mute_terms texts given)) before.muted_urls patch.muted_urls;
  languages = replaced language_codes_of before.languages patch.languages;
}

-- The same of the lists alone.
abbrev patched_view : Texts → PreferencesPatch → View → View
patched_view texts patch v = record {
  topics = replaced sorted_set v.topics patch.topics;
  sources = replaced sorted_set v.sources patch.sources;
  muted_words = replaced (normalise_terms texts) v.muted_words patch.muted_words;
  muted_tags = replaced (normalise_terms texts) v.muted_tags patch.muted_tags;
  muted_urls =
      replaced (λ given. reduced (url_mute_terms texts given)) v.muted_urls patch.muted_urls;
  languages = replaced language_codes_of v.languages patch.languages;
}

-- Topics and sources have unique ids and unique slugs.
pub record IsSeeded (db : Db) : Type 0 where
  pub unique_topics : IsCatalogue (λ (topic : Topic). topic.slug) (λ topic. topic.id) db.topics
  pub unique_sources :
      IsCatalogue (λ (source : Source). source.slug) (λ source. source.id) db.sources

patch_tables-view :
    (texts : Texts) (user_id : ℕ) (patch : PreferencesPatch) (db after : Db)
    → IsSeeded db
    → patch_tables texts user_id patch db ≡ accepted after
    → (view user_id after ≡ patched_view texts patch (view user_id db))
      × (after.preferences ≡ (patch_scalars user_id patch db).preferences)
unfolding patch_tables
patch_tables-view texts user_id patch db after seeded h =
    let (a, (ea, ha)) =
      accepted-bind (patch_topics user_id patch.topics (patch_scalars user_id patch db)) _ after
        h in
    let (b, (eb, hb)) = accepted-bind (patch_sources user_id patch.sources a) _ after ha in
    let (c, (ec, hc)) = accepted-bind (patch_words texts user_id patch.muted_words b) _ after hb in
    let (d, (ed, hd)) = accepted-bind (patch_tags texts user_id patch.muted_tags c) _ after hc in
    let (e, (ee, he)) = accepted-bind (patch_urls texts user_id patch.muted_urls d) _ after hd in
    let start = patch_scalars user_id patch db in
    let fa =
      patch_topics-HasEffect user_id patch.topics start a
        (unfold patch_scalars in seeded.unique_topics) ea in
    let catalogue : IsCatalogue (λ (source : Source). source.slug) (λ source. source.id) a.sources =
      subst
        (λ (rows : List Source).
          IsCatalogue (λ (source : Source). source.slug) (λ source. source.id) rows)
        (sym (same_sources start a fa.1)) (unfold patch_scalars in seeded.unique_sources) in
    let fb = patch_sources-HasEffect user_id patch.sources a b catalogue eb in
    let fc = patch_words-HasEffect texts user_id patch.muted_words b c ec in
    let fd = patch_tags-HasEffect texts user_id patch.muted_tags c d ed in
    let fe = patch_urls-HasEffect texts user_id patch.muted_urls d e ee in
    let ff = patch_languages-HasEffect texts user_id patch.languages e after he in
    (
      ff.0
          ∙ ap (λ v. set_languages (replaced language_codes_of v.languages patch.languages) v)
              (fe.0
                ∙ ap
                    (λ v.
                      set_urls
                        (replaced (λ given. reduced (url_mute_terms texts given)) v.muted_urls
                          patch.muted_urls)
                        v)
                    (fd.0
                      ∙ ap
                          (λ v.
                            set_tags
                              (replaced (normalise_terms texts) v.muted_tags patch.muted_tags) v)
                          (fc.0
                            ∙ ap
                                (λ v.
                                  set_words
                                    (replaced (normalise_terms texts) v.muted_words
                                      patch.muted_words)
                                    v)
                                (fb.0
                                  ∙ ap
                                      (λ v.
                                        set_sources (replaced sorted_set v.sources patch.sources) v)
                                      (fa.0
                                        ∙ ap
                                            (λ v.
                                              set_topics (replaced sorted_set v.topics patch.topics)
                                                v)
                                            scalars_view))))),
      ff.1.0 ∙ fe.1.0 ∙ fd.1.0 ∙ fc.1.0 ∙ fb.1.0 ∙ fa.1.0,
    )
  where
    same_sources : (x y : Db) → IsKept x y → y.sources ≡ x.sources
    same_sources x y (p, q, r) = r

    scalars_view : view user_id (patch_scalars user_id patch db) ≡ view user_id db
    scalars_view =
        unfold patch_scalars selected_topic_slugs selected_source_slugs muted_terms
          selected_languages in
        refl

profile_of-or_create :
    (user_id : ℕ) (db : Db) (profile : Option UserPreferences)
    → profile_of user_id db ≡ profile
    → is_some (profile_of user_id (or_create user_id db profile)) ≡ true
unfolding or_create create_profile profile_of
profile_of-or_create user_id db (some profile) h = rw h refl
profile_of-or_create user_id db none h =
    rw
      (
        scalar-insert_ignore_same (is_profile_of user_id) (default_profile user_id) db.preferences
            (eq_refl {K = ℕ} user_id),
        h,
      )
      refl

-- A user has a profile once it has been asked for.
pub profile_of-ensure_profile :
    (user_id : ℕ) (db : Db) → is_some (profile_of user_id (ensure_profile user_id db)) ≡ true
unfolding ensure_profile
profile_of-ensure_profile user_id db = profile_of-or_create user_id db (profile_of user_id db) refl

or_create_some :
    (user_id : ℕ) (db : Db) (profile : Option UserPreferences)
    → is_some profile ≡ true
    → or_create user_id db profile ≡ db
unfolding or_create
or_create_some user_id db (some profile) h = refl
or_create_some user_id db none h = absurd (ground (arith, h))

-- Asking for the profile again, at a later sign-in, changes nothing: no default comes back that the
-- user has cleared since.
pub ensure_profile_known :
    (user_id : ℕ) (db : Db)
    → is_some (profile_of user_id db) ≡ true
    → ensure_profile user_id db ≡ db
unfolding ensure_profile
ensure_profile_known user_id db h = or_create_some user_id db (profile_of user_id db) h

-- The lists of a view with the columns of a row.
abbrev out_of : UserPreferences → View → PreferencesOut
out_of profile v = record {
  theme = profile.theme;
  layout = profile.layout;
  max_visible_cards = profile.max_visible_cards;
  onboarding_completed = profile.onboarding_completed;
  topics = v.topics;
  sources = v.sources;
  muted_words = v.muted_words;
  muted_tags = v.muted_tags;
  muted_urls = v.muted_urls;
  languages = v.languages;
}

shown-some :
    (user_id : ℕ) (db : Db) (found : Option UserPreferences) (out : PreferencesOut)
    → shown user_id db found ≡ accepted out
    → (profile : UserPreferences) × ((found ≡ some profile)
        × (out ≡ out_of profile (view user_id db)))
unfolding shown to_out
shown-some user_id db none out h = absurd (ground (arith, h))
shown-some user_id db (some profile) out h =
    (profile, (refl, sym (accepted_same (out_of profile (view user_id db)) out h)))

patched_profile :
    (texts : Texts) (user_id : ℕ) (patch : PreferencesPatch) (db after : Db)
    (profile : UserPreferences)
    → profile_of user_id db ≡ some profile
    → after.preferences ≡ (patch_scalars user_id patch db).preferences
    → profile_of user_id after ≡ some (set_scalars patch profile)
unfolding profile_of patch_scalars
patched_profile texts user_id patch db after profile h same =
    ap (scalar (is_profile_of user_id)) same
    ∙ scalar-update_rows (is_profile_of user_id) (set_scalars patch) db.preferences {row = profile}
        (λ x e. e) h

or_create-IsSeeded :
    (user_id : ℕ) (db : Db) (profile : Option UserPreferences)
    → IsSeeded db
    → IsSeeded (or_create user_id db profile)
unfolding or_create create_profile
or_create-IsSeeded user_id db (some profile) h = h
or_create-IsSeeded user_id db none h = record {
  unique_topics = h.unique_topics;
  unique_sources = h.unique_sources;
}

shown_known :
    (user_id : ℕ) (db : Db) (found : Option UserPreferences) (profile : UserPreferences)
    → found ≡ some profile
    → shown user_id db found ≡ accepted (out_of profile (view user_id db))
unfolding shown to_out
shown_known user_id db found profile h = ap (shown user_id db) h

-- What is shown after the tables were patched.
read_back-patch_tables :
    (texts : Texts) (user_id : ℕ) (patch : PreferencesPatch) (db after : Db)
    (before : PreferencesOut)
    → IsSeeded db
    → read_back user_id db ≡ accepted before
    → patch_tables texts user_id patch db ≡ accepted after
    → read_back user_id after ≡ accepted (patched_out texts patch before)
unfolding read_back patched_out
read_back-patch_tables texts user_id patch db after before seeded was h =
    let (profile, (found, before_is)) = shown-some user_id db (profile_of user_id db) before was in
    let (whole, same) = patch_tables-view texts user_id patch db after seeded h in
    shown_known user_id after (profile_of user_id after) (set_scalars patch profile)
      (patched_profile texts user_id patch db after profile found same)
    ∙ ap (λ v. accepted (out_of (set_scalars patch profile) v)) whole
    ∙ ap (λ b. accepted (patched_out texts patch b)) (sym before_is)

pub read_back_known :
    (user_id : ℕ) (db : Db) (out : PreferencesOut)
    → read_back user_id db ≡ accepted out
    → is_some (profile_of user_id db) ≡ true
unfolding read_back
read_back_known user_id db out h =
    let (profile, (found, _)) = shown-some user_id db (profile_of user_id db) out h in
    ap is_some found

-- What an accepted patch returns is what is read back from then on.
pub read_back-apply_patch :
    (texts : Texts) (user_id : ℕ) (patch : PreferencesPatch) (db after : Db) (out : PreferencesOut)
    → apply_patch texts user_id patch db ≡ accepted (after, out)
    → read_back user_id after ≡ accepted out
unfolding apply_patch
read_back-apply_patch texts user_id patch db after out h =
    let (patched, (e, f)) =
      accepted-bind (patch_tables texts user_id patch (ensure_profile user_id db)) _ (after, out)
        h in
    let (returned_out, (g, k)) = accepted-bind (read_back user_id patched) _ (after, out) f in
    subst (λ (r : Db × PreferencesOut). read_back user_id r.0 ≡ accepted r.1) (accepted_same _ _ k)
      g

-- After a patch that is accepted, the profile that is returned is the one that was shown before,
-- with each field that the patch gives replaced and every other field kept; and that is what is
-- shown from then on, without a further change of the tables. Topics and sources have unique ids and
-- slugs.
pub apply_patch-patched_out :
    (texts : Texts) (user_id : ℕ) (patch : PreferencesPatch) (db after : Db)
    (before out : PreferencesOut)
    → IsSeeded db
    → (load_profile user_id db).1 ≡ accepted before
    → apply_patch texts user_id patch db ≡ accepted (after, out)
    → (out ≡ patched_out texts patch before) × (load_profile user_id after ≡ (after, accepted out))
unfolding apply_patch load_profile
apply_patch-patched_out texts user_id patch db after before out seeded was h =
    let (patched, (e, f)) =
      accepted-bind (patch_tables texts user_id patch (ensure_profile user_id db)) _ (after, out)
        h in
    let (returned_out, (g, k)) = accepted-bind (read_back user_id patched) _ (after, out) f in
    let both : (patched, returned_out) ≡ (after, out) = accepted_same _ _ k in
    let reads : read_back user_id after ≡ accepted out =
      subst (λ (r : Db × PreferencesOut). read_back user_id r.0 ≡ accepted r.1) both g in
    let reads_patched : read_back user_id patched ≡ accepted (patched_out texts patch before) =
      read_back-patch_tables texts user_id patch (ensure_profile user_id db) patched before
        (ensured seeded) was e in
    (
      accepted_same out (patched_out texts patch before) (
          sym reads
          ∙ sym (ap (λ (r : Db × PreferencesOut). read_back user_id r.0) both)
          ∙ reads_patched),
      ap (λ d. (d, read_back user_id d))
            (ensure_profile_known user_id after (read_back_known user_id after out reads))
          ∙ ap (λ o. (after, o)) reads,
    )
  where
    ensured : IsSeeded db → IsSeeded (ensure_profile user_id db)
    ensured s = unfold ensure_profile in or_create-IsSeeded user_id db (profile_of user_id db) s
