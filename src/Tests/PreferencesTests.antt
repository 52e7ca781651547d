-- ===== src/Tests/PreferencesTests.antt =====
-- app/services/preferences.py on a catalogue of three topics and two sources.
use sre_tab.Common.{
  is_some, Text, codes, lower_char, lower, text_before, text_beq, text_eq, nat_eq, scalar,
  exists_row, ℕ, ◌≡◌, refl, Bool, true, false, none, some, [], ◌∷◌,
}
use sre_tab.Models.{Topic, Source, word, dark, system, grid}
use sre_tab.Preferences.{
  PreferencesPatch, PreferencesOut, Db, unknown_slugs, empty_term, Patched, accepted, refused,
  Texts,
}
use sre_tab.Preferences.Profile.{profile_of, ensure_profile, load_profile}
use sre_tab.Preferences.Patching.{apply_patch}
use sre_tab.Preferences.Returning.{apply_patches, ensure_profile_later}
use sre_tab.Preferences.Refinement.{patched_out, IsSeeded, apply_patch-patched_out}

abbrev texts : Texts
texts = record {
  casefold = lower;
  language_codes = codes "en" ∷ codes "de" ∷ [];
  read_link =
      λ url. some (record { host = codes "dev.to"; port = none; raw_path = codes "/Ann/x?y=1" });
}

abbrev topic : ℕ → Text → Bool → Topic
topic id slug enabled = record { id = id; slug = slug; name = slug; enabled = enabled }

abbrev seeded_source : ℕ → Text → Source
seeded_source id slug = record {
  id = id;
  slug = slug;
  name = slug;
  feed_url = slug;
  website_url = slug;
  icon_url = none;
  refresh_minutes = 30;
  enabled = true;
}

abbrev db : Db
db = record {
  preferences = [];
  topics =
      topic 1 (codes "web") true ∷ topic 2 (codes "ai") true ∷ topic 3 (codes "old") false ∷ [];
  sources = seeded_source 1 (codes "lwn") ∷ seeded_source 2 (codes "bbc") ∷ [];
  preference_topics = [];
  preference_sources = [];
  muted_terms = record { user_id = 7; kind = word; term = codes "golf" } ∷ [];
  preference_languages = [];
}

abbrev patch : PreferencesPatch
patch = record {
  theme = some dark;
  layout = none;
  max_visible_cards = none;
  onboarding_completed = some true;
  topics = some (codes "ai" ∷ []);
  sources = none;
  muted_words = some (codes "Tennis" ∷ codes " golf  club" ∷ []);
  muted_tags = some (codes "old" ∷ []);
  muted_urls = some (codes "dev.to/Ann" ∷ []);
  languages = some (codes "EN " ∷ []);
}

-- The profile that a user of these tables begins with.
abbrev defaults : PreferencesOut
defaults = record {
  theme = system;
  layout = grid;
  max_visible_cards = 25;
  onboarding_completed = false;
  topics = codes "ai" ∷ codes "web" ∷ [];
  sources = codes "lwn" ∷ [];
  muted_words = codes "golf" ∷ [];
  muted_tags = [];
  muted_urls = [];
  languages = [];
}

abbrev changed : PreferencesOut
changed = record {
  theme = dark;
  layout = grid;
  max_visible_cards = 25;
  onboarding_completed = true;
  topics = codes "ai" ∷ [];
  sources = codes "lwn" ∷ [];
  muted_words = codes "golf club" ∷ codes "tennis" ∷ [];
  muted_tags = codes "old" ∷ [];
  muted_urls = codes "dev.to/ann" ∷ [];
  languages = codes "en" ∷ [];
}

loaded : (load_profile 7 db).1 ≡ accepted defaults
unfolding load_profile scalar exists_row text_beq text_before lower_char
loaded = refl

abbrev tables_of : Patched (Db × PreferencesOut) → Db
tables_of (accepted (after, out)) = after
tables_of (refused e) = db

applied :
    apply_patch texts 7 patch db ≡ accepted (tables_of (apply_patch texts 7 patch db), changed)
unfolding apply_patch scalar exists_row text_beq text_before lower_char
applied = refl

unknown_topic :
    apply_patch texts 7 (record patch { topics = some (codes "old" ∷ []) }) db
    ≡ refused (unknown_slugs (codes "old" ∷ []))
unfolding apply_patch scalar exists_row text_beq text_before lower_char
unknown_topic = refl

blank_word :
    apply_patch texts 7 (record patch { muted_words = some (codes " " ∷ []) }) db
    ≡ refused empty_term
unfolding apply_patch scalar exists_row text_beq text_before lower_char
blank_word = refl

db-IsSeeded : IsSeeded db
unfolding text_beq
db-IsSeeded = record {
  unique_topics = (((refl, refl), ((refl, refl), tt)), (((refl, refl), tt), (tt, tt)));
  unique_sources = (((refl, refl), tt), (tt, tt));
}

apply_patch-patched_out_example :
    (changed ≡ patched_out texts patch defaults)
    × (load_profile 7 (tables_of (apply_patch texts 7 patch db))
        ≡ (tables_of (apply_patch texts 7 patch db), accepted changed))
apply_patch-patched_out_example =
    apply_patch-patched_out texts 7 patch db (tables_of (apply_patch texts 7 patch db)) defaults
      changed db-IsSeeded loaded applied

-- The tables after a sign-in and the patch.
abbrev patched : Db
patched = tables_after (apply_patches texts 7 (patch ∷ []) (ensure_profile 7 db))
  where
    tables_after : Patched Db → Db
    tables_after (accepted after) = after
    tables_after (refused e) = db

patched_accepted : apply_patches texts 7 (patch ∷ []) (ensure_profile 7 db) ≡ accepted patched
unfolding apply_patches ensure_profile scalar exists_row text_beq text_before lower_char
patched_accepted = refl

ensure_profile_later_example :
    (is_some (profile_of 7 patched) ≡ true) × (ensure_profile 7 patched ≡ patched)
ensure_profile_later_example = ensure_profile_later texts 7 (patch ∷ []) db patched patched_accepted
