-- ===== src/Rules/Profiles/Laws.antt =====
-- What holds of the rule profiles of an account (app/services/profile_service.py).
use weedout.Base.{◌>>=◌}
use weedout.Base.{
  ℕ, ◌<◌, ◌≡◌, refl, sym, ◌∙◌, subst, inl, inr, Bool, true, false, not, ◌&&◌, ◌||◌, Option, none,
  some, List, [], ◌∷◌, ◌++◌, map, append-nil, arith, leb, if◌then◌else◌, is_some, length, take, any,
  is_empty, length-keep, any-keep, ok, err, Returns, Returns-bind, Returns-any, Returns-ok,
}
use weedout.Base.Text.{Text, text_eq, text_eq_iff, strip}
use weedout.Rules.PolicyFile.Document.{Loader}
use weedout.Rules.Profiles.{
  RuleProfile, name_missing, limit_reached, name_taken, max_profiles, slugify_profile, is_of,
  list_profiles, has_slug, first_where, get_profile, cleared, set_default, rename, optionally,
  validate, create_profile, update_profile,
}
use weedout.Rules.Profiles.Counts.{
  IsTidy, defaulted-IsTidy, IsFreeSlug, added-IsTidy, replaced-IsTidy, removed-IsTidy,
  cleared-IsTidy,
}
use weedout.Rules.Profiles.Slugs.{slugify_profile_again}

-- The changes that the service makes to the table
pub data Step (loader : Loader) : List RuleProfile → List RuleProfile → Type 0 where
  created :
      (u : ℕ) (name document description : Text) (make_default : Bool)
      (rows after : List RuleProfile)
      → create_profile loader u name document description make_default rows ≡ ok after
      → Step loader rows after
  updated :
      (name document description : Option Text) (before after : List RuleProfile)
      (row written : RuleProfile)
      → update_profile loader (before ++ row ∷ after) name document description row ≡ ok written
      → Step loader (before ++ row ∷ after) (before ++ written ∷ after)
  chosen_default :
      (before after : List RuleProfile) (row : RuleProfile)
      → Step loader (before ++ row ∷ after) (set_default row.user_id before (some row) after)
  no_default : (u : ℕ) (rows : List RuleProfile) → Step loader rows (set_default u rows none [])
  deleted :
      (before after : List RuleProfile) (row : RuleProfile)
      → Step loader (before ++ row ∷ after) (before ++ after)

-- What is reached from an account without profiles
pub data Reached (loader : Loader) : List RuleProfile → Type 0 where
  begin : Reached loader []
  then_step :
      {rows after : List RuleProfile}
      → Reached loader rows
      → Step loader rows after
      → Reached loader after

all_cleared : (u : ℕ) (rows : List RuleProfile) → IsTidy rows → IsTidy (set_default u rows none [])
unfolding set_default
all_cleared u rows t =
    subst IsTidy (sym (append-nil (map (cleared u) rows))) (cleared-IsTidy u rows t)

first_where-any : {A : Type 0} (p : A → Bool) (xs : List A) → is_some (first_where p xs) ≡ any p xs
first_where-any p [] = refl
first_where-any p (x ∷ xs) = ground (arith, first_where-any p xs)

-- A slug that finds no profile is nobody's.
nobody :
    (rows : List RuleProfile) (u : ℕ) (name : Text)
    → is_some (get_profile u (slugify_profile name) rows) ≡ false
    → any (has_slug u (slugify_profile name)) rows ≡ false
unfolding get_profile
nobody rows u name k =
    subst (λ s. any (has_slug u s) rows ≡ false) (slugify_profile_again name).1
      (sym (first_where-any (has_slug u (slugify_profile (slugify_profile name))) rows) ∙ k)

-- A profile as an update may leave it
record IsEdited (rows : List RuleProfile) (p q : RuleProfile) : Type 0 where
  same_user : q.user_id ≡ p.user_id
  same_default : q.is_default ≡ p.is_default
  free : IsFreeSlug rows p q.slug

rename-IsEdited :
    (rows : List RuleProfile) (name : Text) (p q : RuleProfile)
    → q.user_id ≡ p.user_id
    → q.is_default ≡ p.is_default
    → q.slug ≡ p.slug
    → Returns (IsEdited rows p) (rename rows name q)
unfolding rename
rename-IsEdited rows name p q u d s =
    go (is_empty slug) (text_eq slug q.slug) refl (is_some (get_profile q.user_id slug rows)) refl
  where
    slug : Text
    slug = slugify_profile name

    renamed : RuleProfile
    renamed = record q { name = take 80 (strip name); slug = slug }

    go :
        (a b : Bool)
        → text_eq slug q.slug ≡ b
        → (c : Bool) → is_some (get_profile q.user_id slug rows) ≡ c
        → Returns
            (IsEdited rows p)
            (if a then err name_missing else if not b && c then err name_taken else ok renamed)
    go true b e c k = tt
    go false true e c k = record {
      same_user = u;
      same_default = d;
      free = inl ((text_eq_iff slug q.slug).0 e ∙ s);
    }
    go false false e true k = tt
    go false false e false k = record {
      same_user = u;
      same_default = d;
      free = inr (subst (λ v. any (has_slug v slug) rows ≡ false) u (nobody rows q.user_id name k));
    }

-- A profile as it was, but for its texts
record IsSame (p q : RuleProfile) : Type 0 where
  as_user : q.user_id ≡ p.user_id
  as_default : q.is_default ≡ p.is_default
  as_slug : q.slug ≡ p.slug

IsSame-refl : (p : RuleProfile) → IsSame p p
IsSame-refl p = record { as_user = refl; as_default = refl; as_slug = refl }

renamed-IsEdited :
    (rows : List RuleProfile) (name : Option Text) (p q : RuleProfile)
    → IsSame p q
    → Returns (IsEdited rows p) (optionally name (rename rows) q)
renamed-IsEdited rows none p q h = record {
  same_user = h.as_user;
  same_default = h.as_default;
  free = inl h.as_slug;
}
renamed-IsEdited rows (some name) p q h =
    rename-IsEdited rows name p q h.as_user h.as_default h.as_slug

described-IsEdited :
    (rows : List RuleProfile) (description : Option Text) (p q : RuleProfile)
    → IsEdited rows p q
    → Returns
        (IsEdited rows p)
        (optionally description (λ s r. ok (record r { description = take 300 (strip s) })) q)
described-IsEdited rows none p q h = h
described-IsEdited rows (some s) p q h = record {
  same_user = h.same_user;
  same_default = h.same_default;
  free = h.free;
}

module _ (loader : Loader) where
  documented-IsSame :
      (document : Option Text) (p : RuleProfile)
      → Returns
          (IsSame p)
          (optionally document (λ s q. validate loader s >>= λ _. ok (record q { document = s })) p)
  documented-IsSame none p = IsSame-refl p
  documented-IsSame (some s) p =
      Returns-bind (λ u. Unit) (IsSame p) (validate loader s) _ (Returns-any _)
        (λ u h. record { as_user = refl; as_default = refl; as_slug = refl })

  update_profile-IsEdited :
      (rows : List RuleProfile) (name document description : Option Text) (p : RuleProfile)
      → Returns (IsEdited rows p) (update_profile loader rows name document description p)
  unfolding update_profile
  update_profile-IsEdited rows name document description p =
      Returns-bind (IsSame p) (IsEdited rows p) _ _ (documented-IsSame document p) (λ edited h.
        Returns-bind (IsEdited rows p) (IsEdited rows p) _ _ (renamed-IsEdited rows name p edited h)
          (λ renamed k. described-IsEdited rows description p renamed k))

  -- What is created
  create_profile-IsTidy :
      (u : ℕ) (name document description : Text) (make_default : Bool) (rows : List RuleProfile)
      → IsTidy rows
      → Returns IsTidy (create_profile loader u name document description make_default rows)
  unfolding create_profile
  create_profile-IsTidy u name document description make_default rows t =
      go (is_empty slug) (leb max_profiles (length existing)) refl
        (any (λ p. text_eq p.slug slug) existing) refl
    where
      slug : Text
      slug = slugify_profile name

      existing : List RuleProfile
      existing = list_profiles u rows

      profile : RuleProfile
      profile = record {
        user_id = u;
        name = take 80 (strip name);
        slug = slug;
        description = take 300 (strip description);
        document = document;
        is_default = false;
      }

      under_limit : leb max_profiles (length existing) ≡ false → length existing < max_profiles
      under_limit h = ground arith

      added :
          leb max_profiles (length existing) ≡ false
          → any (λ p. text_eq p.slug slug) existing ≡ false
          → IsTidy (rows ++ profile ∷ [])
      added room free =
          added-IsTidy rows profile t refl
            (omega (arith, length-keep (is_of u) rows, under_limit room))
            (sym (any-keep (λ p. text_eq p.slug slug) (is_of u) rows) ∙ free)

      settled :
          (d : Bool)
          → IsTidy (rows ++ profile ∷ [])
          → IsTidy (if d then set_default u rows (some profile) [] else rows ++ profile ∷ [])
      settled true k = defaulted-IsTidy rows [] profile k
      settled false k = k

      go :
          (a b : Bool)
          → leb max_profiles (length existing) ≡ b
          → (c : Bool) → any (λ p. text_eq p.slug slug) existing ≡ c
          → Returns IsTidy (
              if a
              then err name_missing
              else if b
              then err limit_reached
              else if c
              then err name_taken
              else validate loader document >>= λ _. ok (
                  if make_default || is_empty existing
                  then set_default u rows (some profile) []
                  else rows ++ profile ∷ []))
      go true b r c f = tt
      go false true r c f = tt
      go false false r true f = tt
      go false false r false f =
          Returns-bind (λ x. Unit) IsTidy (validate loader document) _ (Returns-any _)
            (λ x h. settled (make_default || is_empty existing) (added r f))

  Step-IsTidy :
      {rows after : List RuleProfile} → Step loader rows after → IsTidy rows → IsTidy after
  Step-IsTidy (created u name document description make_default rows after e) t =
      Returns-ok IsTidy _ after
        (create_profile-IsTidy u name document description make_default rows t) e
  Step-IsTidy (updated name document description before after row written e) t =
      let h =
        Returns-ok (IsEdited (before ++ row ∷ after) row) _ written
          (update_profile-IsEdited (before ++ row ∷ after) name document description row) e in
      replaced-IsTidy before after row written t h.same_user h.same_default h.free
  Step-IsTidy (chosen_default before after row) t = defaulted-IsTidy before after row t
  Step-IsTidy (no_default u rows) t = all_cleared u rows t
  Step-IsTidy (deleted before after row) t = removed-IsTidy before after row t

  -- Whatever series of creations, updates, deletions and choices of a default leads to a table of
  -- profiles: an account has at most 20 of them, at most one of a slug, and at most one default.
  pub Reached-IsTidy : {rows : List RuleProfile} → Reached loader rows → IsTidy rows
  Reached-IsTidy begin = record {
    few = λ u. omega arith;
    one_slug = λ u s. omega arith;
    one_default = λ u. omega arith;
  }
  Reached-IsTidy (then_step r s) = Step-IsTidy s (Reached-IsTidy r)
