-- ===== src/Auth/SignIn/Users.antt =====
-- The row of a GitHub account in app/auth/users.py.
use sre_tab.Common.{
  eqb, Bool-cases, All, text_eq, nat_eq, ◌==◌, eq_refl, eq_of_true, scalar, scalar_sound, merged,
  upsert, scalar-upsert, scalar-upsert_other, count_rows, count_rows-upsert,
  count_rows-upsert_other, ◌≤◌, ℕ, ◌≡◌, refl, ap, inl, inr, Bool, false, Option, none, some, List,
  [], ◌∷◌, arith,
}
use sre_tab.Models.{User}
use sre_tab.Auth.SignIn.{GitHubProfile, has_github_id, new_user, refreshed, upsert_user}

-- Ids are unique.
abbrev pub UniqueIds : List User → Type 0
UniqueIds [] = Unit
UniqueIds (user ∷ users) = All (λ other. (user.id == other.id) ≡ false) users × UniqueIds users

abbrev has_id : ℕ → User → Bool
has_id id user = eqb user.id id

-- What is found among rows of other ids has another id, and so has the new row.
merged_other :
    (p : User → Bool) (row : User) (profile : GitHubProfile) (id : ℕ) (users : List User)
    → eqb id row.id ≡ false
    → All (λ (other : User). (id == other.id) ≡ false) users
    → eqb id (merged row (refreshed profile) (scalar p users)).id ≡ false
unfolding merged scalar
merged_other p row profile id [] fresh h = fresh
merged_other p row profile id (user ∷ users) fresh h = elim (Bool-cases (p user)) [
  | inl hit ↦ rw hit (h.0)
  | inr miss ↦ rw miss (merged_other p row profile id users fresh h.1)
]

-- The row that the statement returns is the one that is found under its id.
pub scalar-upsert_id :
    (p : User → Bool) (row : User) (profile : GitHubProfile) (users : List User)
    → All (λ (other : User). eqb other.id row.id ≡ false) users
    → UniqueIds users
    → scalar
        (has_id (merged row (refreshed profile) (scalar p users)).id)
        (upsert p row (refreshed profile) users)
      ≡ some (merged row (refreshed profile) (scalar p users))
unfolding merged scalar upsert
scalar-upsert_id p row profile [] fresh unique = rw (eq_refl {K = ℕ} row.id) refl
scalar-upsert_id p row profile (user ∷ users) fresh unique = elim (Bool-cases (p user)) [
  | inl hit ↦ rw hit (rw (eq_refl {K = ℕ} user.id) refl)
  | inr miss ↦ rw miss (
      rw (merged_other p row profile user.id users fresh.0 unique.0)
        (scalar-upsert_id p row profile users fresh.1 unique.1))
]

-- The id of the account's row: the one that it has, or else the new one.
abbrev pub known_id : ℕ → Option User → ℕ
known_id new_id none = new_id
known_id new_id (some user) = user.id

pub merged_described :
    (new_id : ℕ) (profile : GitHubProfile) (users : List User) (found : Option User)
    → scalar (has_github_id profile.github_id) users ≡ found
    → merged (new_user new_id profile) (refreshed profile) found
      ≡ new_user (known_id new_id found) profile
unfolding merged
merged_described new_id profile users none h = refl
merged_described new_id profile users (some user) h =
    ap
      (λ g. record {
        id = user.id;
        github_id = g;
        github_login = profile.login;
        display_name = profile.display_name;
        avatar_url = profile.avatar_url;
      })
      (eq_of_true {K = ℕ} user.github_id profile.github_id
        (scalar_sound (has_github_id profile.github_id) users h))

-- After a sign-in of a GitHub account that had one row at most, the account has exactly one row, and
-- it is the one that the statement returns: as the profile describes it, under the id that the account
-- had, or under the new id if it had none. Any other account has as many rows as before, and the row
-- that is found for it is as it was.
pub upsert_user_lem :
    (new_id : ℕ) (profile : GitHubProfile) (users : List User) (other : ℕ)
    → (profile.github_id == other) ≡ false
    → count_rows (has_github_id profile.github_id) users ≤ 1
    → (count_rows (has_github_id profile.github_id) (upsert_user new_id profile users).0 ≡ 1)
      × (scalar (has_github_id profile.github_id) (upsert_user new_id profile users).0
          ≡ some (upsert_user new_id profile users).1)
      × (((upsert_user new_id profile users).1
            ≡ new_user (known_id new_id (scalar (has_github_id profile.github_id) users)) profile)
          × (scalar (has_github_id other) (upsert_user new_id profile users).0
              ≡ scalar (has_github_id other) users)
          × (count_rows (has_github_id other) (upsert_user new_id profile users).0
              ≡ count_rows (has_github_id other) users))
unfolding upsert_user
upsert_user_lem new_id profile users other differ unique = (
  count_rows-upsert (has_github_id profile.github_id) (new_user new_id profile) (refreshed profile)
      users (eq_refl {K = ℕ} profile.github_id) (λ x h. h) unique,
  scalar-upsert (has_github_id profile.github_id) (new_user new_id profile) (refreshed profile)
      users (eq_refl {K = ℕ} profile.github_id) (λ x h. h),
  (
    merged_described new_id profile users (scalar (has_github_id profile.github_id) users) refl,
    scalar-upsert_other (has_github_id other) (has_github_id profile.github_id)
        (new_user new_id profile) (refreshed profile) users differ
        (λ x h. ground (arith, h, differ)) (λ x h. ground (arith, h, differ)),
    count_rows-upsert_other (has_github_id other) (has_github_id profile.github_id)
        (new_user new_id profile) (refreshed profile) users differ
        (λ x h. ground (arith, h, differ)) (λ x h. ground (arith, h, differ)),
  ),
)
