-- ===== src/Rules/Profiles/Scans.antt =====
-- The profile that applies to a scan (`profile_for_scan` of app/services/profile_service.py).
use mathlib.Core.Option.{none-ne-some, some-injective}
use weedout.Base.{
  ℕ, ◌≡◌, refl, sym, ◌∙◌, subst, inl, inr, Bool, true, false, ◌&&◌, Option, none, some, List, [],
  ◌∷◌, if◌then◌else◌, ==_iff, Bool-cases, and_cases, Result, ok, err, Returns,
}
use weedout.Base.Text.{Text, text_eq, text_eq_iff, strip}
use weedout.Rules.Profiles.{
  RuleProfile, ProfileError, no_such_profile, slugify_profile, is_of, has_slug, first_where,
  get_profile, ScannedTarget, is_asked, profile_for_scan,
}

first_where-passes :
    {A : Type 0} (p : A → Bool) (xs : List A) (a : A) → first_where p xs ≡ some a → p a ≡ true
first_where-passes p [] a e = absurd (none-ne-some a e)
first_where-passes p (x ∷ xs) a e = elim (Bool-cases (p x)) [
  | inl k ↦ subst (λ y. p y ≡ true) (some-injective x a (sym (rw k refl) ∙ e)) k
  | inr k ↦ first_where-passes p xs a (sym (rw k refl) ∙ e)
]

found :
    (u : ℕ) (name : Text) (rows : List RuleProfile) (p : RuleProfile)
    → get_profile u name rows ≡ some p
    → (is_of u p ≡ true) × (text_eq p.slug (slugify_profile name) ≡ true)
unfolding get_profile
found u name rows p k =
    and_cases (is_of u p) (text_eq p.slug (slugify_profile name))
      (first_where-passes (has_slug u (slugify_profile name)) rows p k)

abbrev pub IsOwn : ScannedTarget → Option Text → Option RuleProfile → Type 0
IsOwn target requested none = is_asked requested ≡ none
IsOwn target requested (some p) =
    (p.user_id ≡ target.user_id) × (elim (is_asked requested) as (λ _. Type 0) [
      | none ↦ Unit
      | some name ↦ p.slug ≡ slugify_profile name
    ])

-- Only the account's own profiles apply to a scan: one that is returned belongs to the project's owner, and
-- where a name was asked for, it has the slug of that name; a name that finds none is refused.
pub profile_for_scan-IsOwn :
    (rows : List RuleProfile) (target : ScannedTarget) (requested : Option Text)
    → Returns (IsOwn target requested) (profile_for_scan rows target requested)
unfolding profile_for_scan
profile_for_scan-IsOwn rows target requested = go (is_asked requested) refl target.assigned
  where
    default : Option RuleProfile
    default = first_where (λ p. is_of target.user_id p && p.is_default) rows

    owner : (p : RuleProfile) → is_of target.user_id p ≡ true → p.user_id ≡ target.user_id
    owner p h = (==_iff p.user_id target.user_id).0 h

    unasked :
        (p : RuleProfile)
        → is_asked requested ≡ none
        → p.user_id ≡ target.user_id
        → IsOwn target requested (some p)
    unasked p e h = (h, rw e tt)

    by_default :
        (o : Option RuleProfile)
        → default ≡ o
        → is_asked requested ≡ none
        → IsOwn target requested o
    by_default none k e = e
    by_default (some p) k e = unasked p e (
        owner p
          (and_cases (is_of target.user_id p) p.is_default
            (first_where-passes (λ p. is_of target.user_id p && p.is_default) rows p k)).0)

    assigned :
        (p : RuleProfile)
        → is_asked requested ≡ none
        → (b : Bool) → is_of target.user_id p ≡ b
        → Returns {E = ProfileError}
            (IsOwn target requested)
            (if b then ok (some p) else ok default)
    assigned p e true k = unasked p e (owner p k)
    assigned p e false k = by_default default refl e

    named :
        (name : Text) (o : Option RuleProfile)
        → get_profile target.user_id name rows ≡ o
        → is_asked requested ≡ some name
        → Returns
            (IsOwn target requested)
            (elim o as (λ _. Result ProfileError (Option RuleProfile)) [
              | none ↦ err (no_such_profile (strip name))
              | some p ↦ ok (some p)
            ])
    named name none k e = tt
    named name (some p) k e =
        let (a, b) = found target.user_id name rows p k in
        (owner p a, rw e ((text_eq_iff p.slug (slugify_profile name)).0 b))

    go :
        (o : Option Text)
        → is_asked requested ≡ o
        → (a : Option RuleProfile)
        → Returns
            (IsOwn target requested)
            (elim o as (λ _. Result ProfileError (Option RuleProfile)) [
              | some name ↦
                  (elim (get_profile target.user_id name rows)
                    as (λ _. Result ProfileError (Option RuleProfile)) [
                      | none ↦ err (no_such_profile (strip name))
                      | some p ↦ ok (some p)
                    ])
              | none ↦ (elim a as (λ _. Result ProfileError (Option RuleProfile)) [
                | none ↦ ok default
                | some p ↦ if is_of target.user_id p then ok (some p) else ok default
              ])
            ])
    go (some name) e a = named name (get_profile target.user_id name rows) refl e
    go none e none = by_default default refl e
    go none e (some p) = assigned p e (is_of target.user_id p) refl
