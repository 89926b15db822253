-- ===== src/Rules/Profiles.antt =====
-- The rule profiles of app/services/profile_service.py. A table is a list of rows, and a reference to a row is
-- the row between those before and those after it.
pub mod Laws
pub mod Slugs
pub mod Scans
pub mod Counts
use weedout.Base.{◌>>=◌}
use weedout.Base.{
  ℕ, Bool, true, false, not, ◌&&◌, ◌||◌, Option, none, some, List, [], ◌∷◌, ◌++◌, map, leb, ◌==◌,
  if◌then◌else◌, is_some, length, take, any, keep, is_empty, Result, ok, err,
}
use weedout.Base.Text.{Text, text_eq, lower, strip}
use weedout.Rules.PolicyFile.{PolicyError}
use weedout.Rules.PolicyFile.Document.{characters, Loader, parse_policy}
use weedout.Versions.SemVer.{word}

pub record RuleProfile : Type 0 where
  pub user_id : ℕ
  pub name : Text
  pub slug : Text
  pub description : Text
  pub document : Text
  pub is_default : Bool

pub data ProfileError : Type 0 where
  name_missing limit_reached name_taken names_a_profile : ProfileError
  unreadable : PolicyError → ProfileError
  no_such_profile : Text → ProfileError

abbrev pub max_profiles : ℕ
max_profiles = 20

unfoldable pub is_slug_char : ℕ → Bool
is_slug_char c = leb 97 c && leb c 122 || leb 48 c && leb c 57

-- `_SLUG_STRIP.sub("-", …)`: each run of other characters becomes one dash; `inside` such a run or
-- not
unfoldable pub dash_runs : (inside : Bool) → Text → Text
unfolding is_slug_char
dash_runs inside [] = []
dash_runs inside (c ∷ s) =
    let run = dash_runs true s in
    let word = dash_runs false s in
    if is_slug_char c then c ∷ word else if inside then run else 45 ∷ run

abbrev pub drop_dash : Text → Text
drop_dash [] = []
drop_dash (c ∷ s) = if c == 45 then s else c ∷ s

abbrev pub drop_last_dash : Text → Text
drop_last_dash [] = []
drop_last_dash (c ∷ []) = if c == 45 then [] else c ∷ []
drop_last_dash (c ∷ d ∷ s) = c ∷ drop_last_dash (d ∷ s)

-- `.strip("-")` takes one dash at most from each end, since no two stand in a row.
unfoldable pub slugify_profile : Text → Text
unfolding dash_runs lower strip
slugify_profile name = drop_last_dash (drop_dash (dash_runs false (lower (strip name))))

abbrev pub is_of : ℕ → RuleProfile → Bool
is_of u p = p.user_id == u

-- `list_profiles`, whose order only the interface needs
abbrev pub list_profiles : ℕ → List RuleProfile → List RuleProfile
list_profiles u = keep (is_of u)

abbrev pub has_slug : ℕ → Text → RuleProfile → Bool
has_slug u slug p = is_of u p && text_eq p.slug slug

abbrev pub first_where {ℓ} : {A : Type ℓ} → (A → Bool) → List A → Option A
first_where p [] = none
first_where p (x ∷ xs) = let rest = first_where p xs in if p x then some x else rest

unfoldable pub get_profile : ℕ → Text → List RuleProfile → Option RuleProfile
unfolding slugify_profile text_eq
get_profile u slug rows = first_where (has_slug u (slugify_profile slug)) rows

abbrev pub cleared : ℕ → RuleProfile → RuleProfile
cleared u p = if is_of u p then record p { is_default = false } else p

-- `set_default`: all of the account's profiles cleared, and the one between the two lists set
unfoldable pub set_default :
    ℕ → List RuleProfile → Option RuleProfile → List RuleProfile → List RuleProfile
set_default u before none after = map (cleared u) before ++ map (cleared u) after
set_default u before (some p) after =
    map (cleared u) before ++ record p { is_default = true } ∷ map (cleared u) after

-- The name's part of `update_profile`, for a profile in the table
unfoldable pub rename : List RuleProfile → Text → RuleProfile → Result ProfileError RuleProfile
unfolding slugify_profile get_profile strip text_eq
rename rows name p =
    let slug = slugify_profile name in
    if is_empty slug
    then err name_missing
    else if not (text_eq slug p.slug) && is_some (get_profile p.user_id slug rows)
    then err name_taken
    else ok (record p { name = take 80 (strip name); slug = slug })

abbrev pub optionally :
    Option Text
    → (Text → RuleProfile → Result ProfileError RuleProfile)
    → RuleProfile
    → Result ProfileError RuleProfile
optionally none f p = ok p
optionally (some s) f p = f s p

module _ (loader : Loader) where
  -- `_validate`
  unfoldable pub validate : Text → Result {0} ProfileError Unit
  unfolding parse_policy
  validate document =
      let parsed = parse_policy loader (characters document) in
      elim parsed.error as (λ _. Result {0} ProfileError Unit) [
        | some e ↦ err (unreadable e)
        | none ↦ elim parsed.profile as (λ _. Result {0} ProfileError Unit) [
          | some p ↦ err names_a_profile
          | none ↦ ok tt
        ]
      ]

  unfoldable pub create_profile :
      ℕ
      → (name document description : Text) → (make_default : Bool) → List RuleProfile
      → Result ProfileError (List RuleProfile)
  unfolding slugify_profile validate set_default strip text_eq
  create_profile u name document description make_default rows =
      let slug = slugify_profile name in
      let existing = list_profiles u rows in
      let profile : RuleProfile = record {
        user_id = u;
        name = take 80 (strip name);
        slug = slug;
        description = take 300 (strip description);
        document = document;
        is_default = false;
      } in
      if is_empty slug
      then err name_missing
      else if leb max_profiles (length existing)
      then err limit_reached
      else if any (λ p. text_eq p.slug slug) existing
      then err name_taken
      else validate document >>= λ _. ok (
          if make_default || is_empty existing
          then set_default u rows (some profile) []
          else rows ++ profile ∷ [])

  unfoldable pub update_profile :
      List RuleProfile
      → (name document description : Option Text) → RuleProfile
      → Result ProfileError RuleProfile
  unfolding rename validate strip
  update_profile rows name document description profile = do
    edited ← optionally document (λ s p. validate s >>= λ _. ok (record p { document = s })) profile
    renamed ← optionally name (rename rows) edited
    optionally description (λ s p. ok (record p { description = take 300 (strip s) })) renamed

-- The project of a scan: its owner, and the profile assigned to it, if that still exists
pub record ScannedTarget : Type 0 where
  pub user_id : ℕ
  pub assigned : Option RuleProfile

abbrev pub is_asked : Option Text → Option Text
is_asked none = none
is_asked (some s) = if is_empty (strip s) then none else some s

-- `profile_for_scan`
unfoldable pub profile_for_scan :
    List RuleProfile → ScannedTarget → Option Text → Result ProfileError (Option RuleProfile)
unfolding get_profile strip
profile_for_scan rows target requested =
    let default = first_where (λ p. is_of target.user_id p && p.is_default) rows in
    elim (is_asked requested) as (λ _. Result ProfileError (Option RuleProfile)) [
      | some name ↦
          elim (get_profile target.user_id name rows)
            as (λ _. Result ProfileError (Option RuleProfile)) [
              | none ↦ err (no_such_profile (strip name))
              | some p ↦ ok (some p)
            ]
      | none ↦ elim target.assigned as (λ _. Result ProfileError (Option RuleProfile)) [
        | none ↦ ok default
        | some p ↦ if is_of target.user_id p then ok (some p) else ok default
      ]
    ]
