-- ===== src/Preferences/Returning.antt =====
-- The profile of a user who signs in again: app/services/preferences.py.
use sre_tab.Common.{is_some, ℕ, ◌≡◌, subst, true, List, [], ◌∷◌, text_eq, nat_eq}
use sre_tab.Preferences.{PreferencesPatch, Db, Patched, accepted, ◌>>=◌, Texts}
use sre_tab.Preferences.Profile.{profile_of, ensure_profile}
use sre_tab.Preferences.Patching.{apply_patch}
use sre_tab.Preferences.Effects.{accepted-bind, accepted_same}
use sre_tab.Preferences.Refinement.{
  profile_of-ensure_profile, ensure_profile_known, read_back_known, read_back-apply_patch,
}

-- The tables after patches one after the other, which stop at one that is refused.
unfoldable pub apply_patches : Texts → ℕ → List PreferencesPatch → Db → Patched Db
unfolding apply_patch
apply_patches texts user_id [] db = accepted db
apply_patches texts user_id (patch ∷ patches) db =
    apply_patch texts user_id patch db >>= λ (after, out). apply_patches texts user_id patches after

profile_of-apply_patches :
    (texts : Texts) (user_id : ℕ) (patches : List PreferencesPatch) (db after : Db)
    → is_some (profile_of user_id db) ≡ true
    → apply_patches texts user_id patches db ≡ accepted after
    → is_some (profile_of user_id after) ≡ true
unfolding apply_patches
profile_of-apply_patches texts user_id [] db after known h =
    subst (λ d. is_some (profile_of user_id d) ≡ true) (accepted_same db after h) known
profile_of-apply_patches texts user_id (patch ∷ patches) db after known h =
    let ((patched, out), (e, f)) = accepted-bind (apply_patch texts user_id patch db) _ after h in
    profile_of-apply_patches texts user_id patches patched after
      (read_back_known user_id patched out
        (read_back-apply_patch texts user_id patch db patched out e))
      f

-- Asking for the profile at a sign-in makes sure that the user has one. Whatever accepted patches of
-- the user follow, the profile is there after them, and asking for it again, at a later sign-in,
-- changes no table: no default comes back that a patch has cleared.
pub ensure_profile_later :
    (texts : Texts) (user_id : ℕ) (patches : List PreferencesPatch) (db after : Db)
    → apply_patches texts user_id patches (ensure_profile user_id db) ≡ accepted after
    → (is_some (profile_of user_id after) ≡ true) × (ensure_profile user_id after ≡ after)
ensure_profile_later texts user_id patches db after h =
    let known : is_some (profile_of user_id after) ≡ true =
      profile_of-apply_patches texts user_id patches (ensure_profile user_id db) after
        (profile_of-ensure_profile user_id db) h in
    (known, ensure_profile_known user_id after known)
