-- ===== src/Preferences.antt =====
-- app/services/preferences.py: the profile of a user, and what a patch makes of it. Case folding
-- is Python's, and is an argument; so is what app/ingest/normalise.py and app/ingest/topicrules.py
-- make of a pasted URL, together with the library httpx.
pub mod Urls
pub mod Profile
pub mod Patching
pub mod Columns
pub mod Selections
pub mod Catalogue
pub mod Effects
pub mod Steps
pub mod Refinement
pub mod Returning
use sre_tab.Common.{
  ltb, if◌then◌else◌, length, Text, codes, is_nil, words_from, words, scalar, exists_row,
  sorted_set, ℕ, Bool, not, Option, none, some, List, [], ◌∷◌, ◌++◌, map,
}
use sre_tab.Models.{
  Topic, Source, UserMutedTerm, UserPreferenceTopic, UserPreferenceSource, UserPreferenceLanguage,
  Theme, Layout, UserPreferences,
}

-- `PreferencesPatch`, within what its schema admits.
pub record PreferencesPatch : Type 0 where
  pub theme : Option Theme
  pub layout : Option Layout
  pub max_visible_cards : Option ℕ
  pub onboarding_completed : Option Bool
  pub topics : Option (List Text)
  pub sources : Option (List Text)
  pub muted_words : Option (List Text)
  pub muted_tags : Option (List Text)
  pub muted_urls : Option (List Text)
  pub languages : Option (List Text)

-- `PreferencesOut`
pub record PreferencesOut : Type 0 where
  pub theme : Theme
  pub layout : Layout
  pub max_visible_cards : ℕ
  pub onboarding_completed : Bool
  pub topics : List Text
  pub sources : List Text
  pub muted_words : List Text
  pub muted_tags : List Text
  pub muted_urls : List Text
  pub languages : List Text

-- The tables.
pub record Db : Type 0 where
  pub preferences : List UserPreferences
  pub topics : List Topic
  pub sources : List Source
  pub preference_topics : List UserPreferenceTopic
  pub preference_sources : List UserPreferenceSource
  pub muted_terms : List UserMutedTerm
  pub preference_languages : List UserPreferenceLanguage

-- Why a patch is refused.
pub data PatchError : Type 0 where
  unknown_slugs : List Text → PatchError
  empty_term : PatchError
  long_term : Text → PatchError
  bad_url : PatchError
  unknown_languages : List Text → PatchError
  vanished : PatchError

pub data Patched (A : Type 0) : Type 0 where
  accepted : A → Patched A
  refused : PatchError → Patched A

infixl 5 ◌>>=◌
abbrev pub ◌>>=◌ : {A B : Type 0} → Patched A → (A → Patched B) → Patched B
accepted a >>= f = f a
refused e >>= f = refused e

-- What `httpx.URL(normalise_url(…))` says of a URL, and `link_host` of its host.
pub record Link : Type 0 where
  pub host : Text
  pub port : Option ℕ
  pub raw_path : Text

-- Case folding, `LANGUAGE_CODES`, and the reading of a pasted URL, none where it is refused.
pub record Texts : Type 0 where
  pub casefold : Text → Text
  pub language_codes : List Text
  pub read_link : Text → Option Link

-- `DEFAULT_SOURCE_SLUGS`
abbrev pub default_source_slugs : List Text
default_source_slugs = codes "hacker-news" ∷ codes "lobsters" ∷ codes "dev-to" ∷ codes "lwn" ∷ []

-- `MAX_MUTED_TERM_LENGTH`
abbrev pub max_muted_term_length : ℕ
max_muted_term_length = 64

-- `" ".join(words)`
unfoldable pub join_words : List Text → Text
join_words [] = []
join_words (w ∷ []) = w
join_words (w ∷ v ∷ ws) = w ++ b' ' ∷ join_words (v ∷ ws)

-- `normalise_terms`
unfoldable pub normalise_terms : Texts → List Text → List Text
unfolding sorted_set join_words words_from
normalise_terms texts terms =
    sorted_set (map (λ term. texts.casefold (join_words (words term))) terms)

-- A term that does not fit the column.
unfoldable pub is_long : Text → Bool
is_long term = ltb max_muted_term_length (length term)

-- `_mute_terms` on the normalised terms.
unfoldable pub check_terms : List Text → Patched (List Text)
unfolding is_long
check_terms terms =
    if exists_row is_nil terms then refused empty_term else elim (scalar is_long terms) [
      | none ↦ accepted terms
      | some over ↦ refused (long_term over)
    ]

-- `_mute_terms`
unfoldable pub mute_terms : Texts → List Text → Patched (List Text)
unfolding normalise_terms check_terms
mute_terms texts terms = check_terms (normalise_terms texts terms)
