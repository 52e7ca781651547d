-- ===== src/Preferences/Columns.antt =====
-- What the columns of muted terms and of languages hold after app/services/preferences.py has
-- replaced them.
use sre_tab.Common.{
  All, Text, text_before, text_eq, nat_eq, ◌==◌, eq_refl, delete_rows, sort_by, Sorted,
  text_before_ne_sym, sort_by_in_order, Keyed, select-delete_rows_other,
  select-insert_rows-delete_rows, select-insert_rows, ℕ, ◌≡◌, refl, ap, ◌∙◌, Bool, true, false,
  ◌&&◌, List, [], ◌∷◌, map, arith,
}
use sre_tab.Models.{MuteKind, word, tag, url, mute_kind_eq, UserMutedTerm, UserPreferenceLanguage}
use sre_tab.Preferences.{Db}
use sre_tab.Preferences.Profile.{
  is_language_of, is_mute_of, same_mute, same_language, mute_row, language_row, muted_terms,
  selected_languages,
}
use sre_tab.Preferences.Patching.{replace_mutes, with_languages}

mute_kind_eq_refl : (kind : MuteKind) → mute_kind_eq kind kind ≡ true
mute_kind_eq_refl word = refl
mute_kind_eq_refl tag = refl
mute_kind_eq_refl url = refl

mute_kind_eq_sym : (a b : MuteKind) → mute_kind_eq a b ≡ mute_kind_eq b a
mute_kind_eq_sym word word = refl
mute_kind_eq_sym word tag = refl
mute_kind_eq_sym word url = refl
mute_kind_eq_sym tag word = refl
mute_kind_eq_sym tag tag = refl
mute_kind_eq_sym tag url = refl
mute_kind_eq_sym url word = refl
mute_kind_eq_sym url tag = refl
mute_kind_eq_sym url url = refl

mute_kind_eq_trans :
    (a b c : MuteKind) → mute_kind_eq a b ≡ true → mute_kind_eq a c ≡ true → mute_kind_eq c b ≡ true
mute_kind_eq_trans word word word h k = refl
mute_kind_eq_trans tag tag tag h k = refl
mute_kind_eq_trans url url url h k = refl
mute_kind_eq_trans word tag c h k = absurd (ground (arith, h))
mute_kind_eq_trans word url c h k = absurd (ground (arith, h))
mute_kind_eq_trans tag word c h k = absurd (ground (arith, h))
mute_kind_eq_trans tag url c h k = absurd (ground (arith, h))
mute_kind_eq_trans url word c h k = absurd (ground (arith, h))
mute_kind_eq_trans url tag c h k = absurd (ground (arith, h))
mute_kind_eq_trans word word tag h k = absurd (ground (arith, k))
mute_kind_eq_trans word word url h k = absurd (ground (arith, k))
mute_kind_eq_trans tag tag word h k = absurd (ground (arith, k))
mute_kind_eq_trans tag tag url h k = absurd (ground (arith, k))
mute_kind_eq_trans url url word h k = absurd (ground (arith, k))
mute_kind_eq_trans url url tag h k = absurd (ground (arith, k))

-- A row of one user's kind is of another's only if they are the same.
is_mute_of_other :
    (user_id other_id : ℕ) (kind other : MuteKind) (row : UserMutedTerm)
    → (user_id == other_id && mute_kind_eq kind other) ≡ false
    → is_mute_of other_id other row ≡ true
    → is_mute_of user_id kind row ≡ false
is_mute_of_other user_id other_id kind other row differ h =
    ground (arith, mute_kind_eq_trans row.kind other kind)

same_mute-is_mute_of :
    (user_id : ℕ) (kind : MuteKind) (x : Text) (row : UserMutedTerm)
    → same_mute (mute_row user_id kind x) row ≡ true
    → is_mute_of user_id kind row ≡ true
same_mute-is_mute_of user_id kind x row h = ground (arith, mute_kind_eq_sym row.kind kind, h)

-- A column that comes back sorted is the list that was written.
column-map :
    {A : Type 0} (column : A → Text) (row : Text → A) (xs : List Text)
    → ((x : Text) → column (row x) ≡ x)
    → map column (map row xs) ≡ xs
column-map column row [] h = refl
column-map column row (x ∷ xs) h = rw (h x) (ap (λ rest. x ∷ rest) (column-map column row xs h))

-- Rows made of different texts have different keys.
Keyed-map :
    {A : Type 0} (same : A → A → Bool) (row : Text → A) (xs : List Text)
    → ((x y : Text) → (y == x) ≡ false → same (row y) (row x) ≡ false)
    → Sorted text_before xs
    → Keyed same (map row xs)
Keyed-map same row [] h s = tt
Keyed-map same row (x ∷ xs) h s = (others xs s.0, Keyed-map same row xs h s.1)
  where
    others :
        (ys : List Text)
        → All (λ y. text_before x y ≡ true) ys
        → All (λ other. same other (row x) ≡ false) (map row ys)
    others [] later = tt
    others (y ∷ ys) later = (h x y (text_before_ne_sym x y later.0), others ys later.1)

pub muted_terms-replace_mutes :
    (user_id : ℕ) (kind : MuteKind) (terms : List Text) (db : Db)
    → Sorted text_before terms
    → muted_terms user_id kind (replace_mutes user_id kind terms db) ≡ terms
unfolding muted_terms replace_mutes
muted_terms-replace_mutes user_id kind terms db s =
    ap (λ rows. sort_by text_before (map (λ (row : UserMutedTerm). row.term) rows))
      (select-insert_rows-delete_rows (is_mute_of user_id kind) same_mute (mute_row user_id kind)
        terms db.muted_terms
        (Keyed-map same_mute (mute_row user_id kind) terms
          (λ x y differ. rw (eq_refl {K = ℕ} user_id, mute_kind_eq_refl kind, differ) refl) s)
        (λ x. rw (eq_refl {K = ℕ} user_id, mute_kind_eq_refl kind) refl)
        (same_mute-is_mute_of user_id kind))
    ∙ ap (sort_by text_before)
        (column-map (λ (row : UserMutedTerm). row.term) (mute_row user_id kind) terms (λ x. refl))
    ∙ sort_by_in_order terms s

-- Another user's column, and one of another kind, is as it was.
pub muted_terms-replace_mutes_other :
    (user_id other_id : ℕ) (kind other : MuteKind) (terms : List Text) (db : Db)
    → (user_id == other_id && mute_kind_eq kind other) ≡ false
    → muted_terms other_id other (replace_mutes user_id kind terms db)
      ≡ muted_terms other_id other db
unfolding muted_terms replace_mutes
muted_terms-replace_mutes_other user_id other_id kind other terms db differ =
    ap (λ rows. sort_by text_before (map (λ (row : UserMutedTerm). row.term) rows))
      (select-insert_rows (is_mute_of other_id other) same_mute (map (mute_row user_id kind) terms)
          (delete_rows (is_mute_of user_id kind) db.muted_terms) (none_of terms)
        ∙ select-delete_rows_other (is_mute_of other_id other) (is_mute_of user_id kind)
            db.muted_terms (λ row. is_mute_of_other user_id other_id kind other row differ))
  where
    none_of :
        (xs : List Text)
        → All (λ row. is_mute_of other_id other row ≡ false) (map (mute_row user_id kind) xs)
    none_of [] = tt
    none_of (x ∷ xs) = (differ, none_of xs)

pub selected_languages-with_languages :
    (user_id : ℕ) (languages : List Text) (db : Db)
    → Sorted text_before languages
    → selected_languages user_id (with_languages user_id languages db) ≡ languages
unfolding selected_languages with_languages
selected_languages-with_languages user_id languages db s =
    ap (λ rows. sort_by text_before (map (λ (row : UserPreferenceLanguage). row.language) rows))
      (select-insert_rows-delete_rows (is_language_of user_id) same_language (language_row user_id)
        languages db.preference_languages
        (Keyed-map same_language (language_row user_id) languages
          (λ x y differ. rw (eq_refl {K = ℕ} user_id, differ) refl) s)
        (λ x. eq_refl {K = ℕ} user_id) (λ x y h. ground (arith, h)))
    ∙ ap (sort_by text_before) (
        column-map (λ (row : UserPreferenceLanguage). row.language) (language_row user_id) languages
          (λ x. refl))
    ∙ sort_by_in_order languages s

pub selected_languages-with_languages_other :
    (user_id other_id : ℕ) (languages : List Text) (db : Db)
    → (user_id == other_id) ≡ false
    → selected_languages other_id (with_languages user_id languages db)
      ≡ selected_languages other_id db
unfolding selected_languages with_languages
selected_languages-with_languages_other user_id other_id languages db differ =
    ap (λ rows. sort_by text_before (map (λ (row : UserPreferenceLanguage). row.language) rows))
      (select-insert_rows (is_language_of other_id) same_language
          (map (language_row user_id) languages)
          (delete_rows (is_language_of user_id) db.preference_languages) (none_of languages)
        ∙ select-delete_rows_other (is_language_of other_id) (is_language_of user_id)
            db.preference_languages (λ row h. ground (arith, h, differ)))
  where
    none_of :
        (xs : List Text)
        → All (λ row. is_language_of other_id row ≡ false) (map (language_row user_id) xs)
    none_of [] = tt
    none_of (x ∷ xs) = (differ, none_of xs)
