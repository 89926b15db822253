-- ===== src/Rules/Effective/Laws.antt =====
-- What the layers of app/services/rules_service.py do to a policy.
use mathlib.Core.Path.{ap₂}
use weedout.Base.{
  ◌≡◌, refl, sym, ap, ◌∙◌, inl, inr, Bool, true, false, not, ◌&&◌, ◌||◌, none, List, [], ◌∷◌, ◌++◌,
  map, arith, if◌then◌else◌, Bool-cases, any, keep, is_empty, any-append,
}
use weedout.Base.Text.{Text, text_eq, text_eq_iff, upper, lower, strip}
use weedout.Matching.Glob.{translate, glob_match}
use weedout.Matching.Policy.{
  MatchPolicy, ignores_id, ignores_package, ignores, normalise, normalise_packages, normalise_ids,
}
use weedout.Rules.Effective.{Settings, rule_identifiers, layered}
use weedout.Rules.PolicyFile.{advisory_kind, package_kind, ParsedPolicy, empty_policy, identifiers}
use weedout.Types.{Dependency, Vulnerability, unique, cve_ids}

any_seen :
    (p : Text → Bool) (a : Text) (seen : List Text)
    → any (text_eq a) seen ≡ true
    → (p a || any p seen) ≡ any p seen
any_seen p a [] h = cc
any_seen p a (s ∷ seen) h = elim (Bool-cases (text_eq a s)) [
  | inl e ↦ rw ((text_eq_iff a s).0 e) (ground arith)
  | inr e ↦ ground (arith, any_seen p a seen (ground (arith, e, h)))
]

-- The first of each keeps what a test finds.
unique-any :
    (p : Text → Bool) (seen ids : List Text)
    → (any p seen || any p (unique seen ids)) ≡ (any p seen || any p ids)
unfolding unique
unique-any p seen [] = refl
unique-any p seen (a ∷ ids) =
    go (any (text_eq a) seen) refl (unique-any p seen ids) (unique-any p (a ∷ seen) ids)
  where
    go :
        (old : Bool)
        → any (text_eq a) seen ≡ old
        → (any p seen || any p (unique seen ids)) ≡ (any p seen || any p ids)
        → ((p a || any p seen) || any p (unique (a ∷ seen) ids))
          ≡ ((p a || any p seen) || any p ids)
        → (any p seen || any p (if old then unique seen ids else a ∷ unique (a ∷ seen) ids))
          ≡ (any p seen || (p a || any p ids))
    go true e x y = ground (arith, x, any_seen p a seen e)
    go false e x y = ground (arith, y)

kept-any :
    (p q : Text → Bool) (f : Text → Text) (xs : List Text)
    → any p (map f (keep q xs)) ≡ any (λ x. q x && p (f x)) xs
kept-any p q f [] = refl
kept-any p q f (x ∷ xs) = go (q x) (kept-any p q f xs)
  where
    go :
        (b : Bool)
        → any p (map f (keep q xs)) ≡ any (λ y. q y && p (f y)) xs
        → any p (map f (if b then x ∷ keep q xs else keep q xs))
          ≡ ((b && p (f x)) || any (λ y. q y && p (f y)) xs)
    go true e = rw e refl
    go false e = e

normalise-any :
    (p : Text → Bool) (f : Text → Text) (xs : List Text)
    → any p (normalise f xs) ≡ any (λ x. not (is_empty (strip x)) && p (f (strip x))) xs
normalise-any p f xs =
    unique-any p [] (map (λ x. f (strip x)) (keep (λ x. not (is_empty (strip x))) xs))
    ∙ kept-any p (λ x. not (is_empty (strip x))) (λ x. f (strip x)) xs

-- A test finds something in the normal form of lists put together where it finds something in one of theirs.
normalise-any-three :
    (p : Text → Bool) (f : Text → Text) (xs ys zs : List Text)
    → any p (normalise f (xs ++ ys ++ zs))
      ≡ (any p (normalise f xs) || any p (normalise f ys) || any p (normalise f zs))
normalise-any-three p f xs ys zs =
    normalise-any p f (xs ++ ys ++ zs)
    ∙ any-append q (xs ++ ys) zs
    ∙ ap (λ b. b || any q zs) (any-append q xs ys)
    ∙ sym (
        ap₂ (λ a b. a || b) (ap₂ (λ a b. a || b) (normalise-any p f xs) (normalise-any p f ys))
          (normalise-any p f zs))
  where
    q : Text → Bool
    q x = not (is_empty (strip x)) && p (f (strip x))

any-either :
    {A : Type 0} (p q r : A → Bool) (xs : List A)
    → any (λ x. p x || q x || r x) xs ≡ (any p xs || any q xs || any r xs)
any-either p q r [] = refl
any-either p q r (x ∷ xs) = ground (arith, any-either p q r xs)

any-cong :
    {A : Type 0} (p q : A → Bool) → ((x : A) → p x ≡ q x) → (xs : List A) → any p xs ≡ any q xs
any-cong p q h [] = refl
any-cong p q h (x ∷ xs) = ap₂ (λ a b. a || b) (h x) (any-cong p q h xs)

-- The same, each list in its own place
layers-any :
    (p : Text → Bool) (f : Text → Text) (xs ys zs : List Text)
    → any p (normalise f (xs ++ ys ++ zs)) ≡ (
        any p (normalise f (xs ++ [] ++ []))
        || any p (normalise f ([] ++ ys ++ []))
        || any p (normalise f ([] ++ [] ++ zs)))
unfolding unique
layers-any p f xs ys zs =
    normalise-any-three p f xs ys zs
    ∙ sym (
        ap₂ (λ a b. a || b)
          (ap₂ (λ a b. a || b) (normalise-any-three p f xs [] [])
            (normalise-any-three p f [] ys []))
          (normalise-any-three p f [] [] zs)
        ∙ spread (any p (normalise f xs)) (any p (normalise f ys)) (any p (normalise f zs)))
  where
    spread :
        (a b c : Bool)
        → ((a || false || false) || (false || b || false) || (false || false || c)) ≡ (a || b || c)
    spread a b c = ground arith

abbrev pub no_settings : Settings
no_settings = record {
  direct_threshold = none;
  transitive_threshold = none;
  dev_threshold = none;
  epss_threshold = none;
  rules = [];
}

-- No layer un-ignores what another ignores: the policy of all layers ignores a match exactly when that of
-- the project's settings alone does, or that of the file alone, or that of the profile alone.
pub layered-ignores :
    (policy : MatchPolicy) (file : ParsedPolicy) (settings : Settings) (profile : ParsedPolicy)
    (v : Vulnerability) (d : Dependency)
    → ignores (layered policy file settings profile) v d ≡ (
        ignores (layered policy empty_policy settings empty_policy) v d
        || ignores (layered policy file no_settings empty_policy) v d
        || ignores (layered policy empty_policy no_settings profile) v d)
unfolding layered ignores ignores_id ignores_package normalise_ids normalise_packages
layered-ignores policy file settings profile v d =
    ap₂ (λ a b. a || b)
      (any-cong _ _ (λ a. layers-any (text_eq (upper a)) upper rules_ids file_ids profile_ids) names
        ∙ any-either (among_ids (rules_ids ++ [] ++ [])) (among_ids ([] ++ file_ids ++ []))
            (among_ids ([] ++ [] ++ profile_ids)) names)
      (layers-any named lower rules_packages file_packages profile_packages)
    ∙ regroup (any (among_ids (rules_ids ++ [] ++ [])) names)
        (any (among_ids ([] ++ file_ids ++ [])) names)
        (any (among_ids ([] ++ [] ++ profile_ids)) names)
        (any named (normalise lower (rules_packages ++ [] ++ [])))
        (any named (normalise lower ([] ++ file_packages ++ [])))
        (any named (normalise lower ([] ++ [] ++ profile_packages)))
  where
    names : List Text
    names = v.id ∷ (v.aliases ++ cve_ids v)

    rules_ids : List Text
    rules_ids = rule_identifiers advisory_kind settings.rules

    file_ids : List Text
    file_ids = identifiers advisory_kind file.ignores

    profile_ids : List Text
    profile_ids = identifiers advisory_kind profile.ignores

    rules_packages : List Text
    rules_packages = rule_identifiers package_kind settings.rules

    file_packages : List Text
    file_packages = identifiers package_kind file.ignores

    profile_packages : List Text
    profile_packages = identifiers package_kind profile.ignores

    among_ids : List Text → Text → Bool
    among_ids is a = any (text_eq (upper a)) (normalise upper is)

    named : Text → Bool
    named p = glob_match (translate p) (lower (strip d.name))

    regroup :
        (a b c x y z : Bool) → ((a || b || c) || (x || y || z)) ≡ ((a || x) || (b || y) || (c || z))
    regroup a b c x y z = ground arith
