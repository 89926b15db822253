-- ===== src/Rules/Effective.antt =====
-- `build_policy` of app/services/rules_service.py: the policy of one scan, from the plan, the repository's
-- file, the project's settings and the account's profile.
pub mod Laws
pub mod FailingOpen
use weedout.Base.{◌>>=◌}
use weedout.Base.{
  ℕ, suc, Bool, true, false, not, ◌&&◌, Option, none, some, List, [], ◌∷◌, ◌++◌, map, if◌then◌else◌,
  any, keep, is_empty, Result, ok,
}
use weedout.Base.Maybe.{map_option}
use weedout.Base.Text.{Text, text_eq, upper}
use weedout.Matching.Policy.{MatchPolicy, normalise_packages, normalise_ids}
use weedout.Rules.PolicyFile.{
  IgnoreKind, advisory_kind, package_kind, Warning, PolicyError, ParsedPolicy, empty_policy,
  kind_is, identifiers,
}
use weedout.Rules.PolicyFile.Document.{Content, characters, Loader, parse_policy}
use weedout.Rules.Profiles.{RuleProfile, ProfileError, ScannedTarget, profile_for_scan}
use weedout.Types.{Severity, Score}

-- A row of the project's own ignore rules
pub record IgnoreRule : Type 0 where
  pub identifier : Text
  pub kind : IgnoreKind
  pub overridden_at : Option ℕ

-- What the project has set
pub record Settings : Type 0 where
  pub direct_threshold : Option Severity
  pub transitive_threshold : Option Severity
  pub dev_threshold : Option Severity
  pub epss_threshold : Option Score
  pub rules : List IgnoreRule

pub data Note : Type 0 where
  file_ignored : PolicyError → Note
  file_warning : Warning → Note
  profile_ignored : (name : Text) → PolicyError → Note
  profile_warning : (name : Text) → Warning → Note

pub record EffectivePolicy : Type 0 where
  pub policy : MatchPolicy
  pub notes : List Note
  pub ignored_from_file : List Text
  pub ignored_from_settings : List Text
  pub ignored_from_profile : List Text
  pub packages_from_file : List Text
  pub packages_from_settings : List Text
  pub packages_from_profile : List Text
  pub profile_name : Option Text

-- `first or second`, of severities, which are never false, and `_first_set`
abbrev pub or_else {ℓ} : {A : Type ℓ} → Option A → Option A → Option A
or_else none other = other
or_else (some a) other = some a

abbrev pub given {ℓ} : {A : Type ℓ} → Option A → A → A
given none a = a
given (some b) a = b

abbrev pub rule_identifiers : IgnoreKind → List IgnoreRule → List Text
rule_identifiers kind rules = map (λ r. r.identifier) (keep (λ r. kind_is r.kind kind) rules)

-- `max_depth` is the plan's, where nobody set one.
abbrev pub with_depth : (depth : Option ℕ) → MatchPolicy → MatchPolicy
with_depth depth policy = record policy { max_depth = or_else policy.max_depth depth }

abbrev error_notes : (PolicyError → Note) → Option PolicyError → List Note
error_notes note none = []
error_notes note (some e) = note e ∷ []

abbrev profile_notes : Option (Text × ParsedPolicy) → List Note
profile_notes none = []
profile_notes (some (name, p)) =
    error_notes (profile_ignored name) p.error ++ map (profile_warning name) p.warnings

abbrev pub profile_policy : Option (Text × ParsedPolicy) → ParsedPolicy
profile_policy none = empty_policy
profile_policy (some (name, p)) = p

-- The layers put together: the file, then the project, then the profile, then the defaults
unfoldable pub layered : MatchPolicy → ParsedPolicy → Settings → ParsedPolicy → MatchPolicy
unfolding normalise_ids normalise_packages
layered policy file settings profile = record policy {
  direct_threshold =
      given
        (or_else file.direct_threshold (or_else settings.direct_threshold profile.direct_threshold))
        policy.direct_threshold;
  transitive_threshold =
      given
        (or_else file.transitive_threshold
          (or_else settings.transitive_threshold profile.transitive_threshold))
        policy.transitive_threshold;
  dev_threshold =
      or_else file.dev_threshold
        (or_else settings.dev_threshold (or_else profile.dev_threshold policy.dev_threshold));
  epss_threshold =
      or_else file.epss_threshold (or_else settings.epss_threshold profile.epss_threshold);
  ignored_ids = normalise_ids (
      rule_identifiers advisory_kind settings.rules
      ++ identifiers advisory_kind file.ignores
      ++ identifiers advisory_kind profile.ignores);
  ignored_packages = normalise_packages (
      rule_identifiers package_kind settings.rules
      ++ identifiers package_kind file.ignores
      ++ identifiers package_kind profile.ignores);
}

-- The policy and its notes, given what the file says, and the name and what it says of the profile that
-- applies
unfoldable pub effective_policy :
    (depth : Option ℕ)
    → MatchPolicy
    → ParsedPolicy
    → Settings
    → Option (Text × ParsedPolicy)
    → EffectivePolicy
unfolding layered
effective_policy depth base parsed settings profile =
    let from_profile = profile_policy profile in
    record {
      policy = layered (with_depth depth base) parsed settings from_profile;
      notes =
          error_notes file_ignored parsed.error
          ++ map file_warning parsed.warnings
          ++ profile_notes profile;
      ignored_from_file = identifiers advisory_kind parsed.ignores;
      ignored_from_settings = rule_identifiers advisory_kind settings.rules;
      ignored_from_profile = identifiers advisory_kind from_profile.ignores;
      packages_from_file = identifiers package_kind parsed.ignores;
      packages_from_settings = rule_identifiers package_kind settings.rules;
      packages_from_profile = identifiers package_kind from_profile.ignores;
      profile_name = map_option (λ p. p.0) profile;
    }

-- `requested_profile or parsed.profile`
abbrev pub request_or : Option Text → Option Text → Option Text
request_or none other = other
request_or (some name) other = if is_empty name then other else some name

module _ (loader : Loader) where
  -- The document of the profile that applies, with its name
  abbrev pub read_profile_row : RuleProfile → Text × ParsedPolicy
  read_profile_row p = (p.name, parse_policy loader (characters p.document))

  -- `build_policy`, where `depth` is the plan's, `file` the project's policy file, and `rows` the table of
  -- profiles
  unfoldable pub build_policy :
      (depth : Option ℕ)
      → MatchPolicy
      → (file : Content) → Settings
      → List RuleProfile
      → ScannedTarget
      → (requested : Option Text) → Result ProfileError EffectivePolicy
  unfolding effective_policy parse_policy profile_for_scan
  build_policy depth base file settings rows target requested = do
    let parsed = parse_policy loader file
    profile ← profile_for_scan rows target (request_or requested parsed.profile)
    ok (effective_policy depth base parsed settings (map_option read_profile_row profile))

abbrev is_marked : Option ℕ → Bool
is_marked none = false
is_marked (some t) = true

-- `record_overrides`: the rules, and the number that were marked
unfoldable pub record_overrides : (now : ℕ) → List Text → List IgnoreRule → List IgnoreRule × ℕ
unfolding upper text_eq
record_overrides now ids [] = ([], 0)
record_overrides now ids (rule ∷ rules) =
    let (rest, marked) = record_overrides now ids rules in
    let listed = any (text_eq (upper rule.identifier)) (map upper ids) in
    if kind_is rule.kind advisory_kind && listed && not (is_marked rule.overridden_at)
    then (record rule { overridden_at = some now } ∷ rest, suc marked)
    else (rule ∷ rest, marked)
