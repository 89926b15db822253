-- ===== src/Matching/Policy.antt =====
-- `MatchPolicy` of app/core/matching.py, and the normal forms of its ignore lists.
use weedout.Base.{
  ℕ, Bool, true, false, not, ◌||◌, Option, none, some, List, [], ◌∷◌, ◌++◌, map, leb, any, keep,
  is_empty,
}
use weedout.Base.Text.{Text, text_eq, upper, lower, strip}
use weedout.Matching.Glob.{translate, glob_match}
use weedout.Types.{
  Reachability, runtime_direct, runtime_transitive, dev_only, Severity, high, critical, Score,
  Dependency, Vulnerability, unique, cve_ids,
}

pub record MatchPolicy : Type 0 where
  pub always_alert_on_kev : Bool
  pub direct_threshold : Severity
  pub transitive_threshold : Severity
  pub alert_on_dev_dependencies : Bool
  pub dev_threshold : Option Severity
  pub max_depth : Option ℕ
  pub epss_threshold : Option Score
  pub ignored_ids : List Text
  pub ignored_packages : List Text

abbrev pub default_policy : MatchPolicy
default_policy = record {
  always_alert_on_kev = true;
  direct_threshold = high;
  transitive_threshold = critical;
  alert_on_dev_dependencies = false;
  dev_threshold = none;
  max_depth = none;
  epss_threshold = none;
  ignored_ids = [];
  ignored_packages = [];
}

-- `within_depth`
unfoldable pub within_depth : MatchPolicy → Dependency → Bool
within_depth policy d = elim policy.max_depth [ none ↦ true | some m ↦ leb d.depth m ]

abbrev pub member : Text → List Text → Bool
member a = any (text_eq a)

unfoldable pub ignores_id : MatchPolicy → Vulnerability → Bool
unfolding upper
ignores_id policy v =
    any (λ a. member (upper a) policy.ignored_ids) (v.id ∷ (v.aliases ++ cve_ids v))

unfoldable pub ignores_package : MatchPolicy → Dependency → Bool
unfolding lower strip
ignores_package policy d =
    any (λ p. glob_match (translate p) (lower (strip d.name))) policy.ignored_packages

-- `ignores`, as a triage decision calls it
unfoldable pub ignores : MatchPolicy → Vulnerability → Dependency → Bool
ignores policy v d = ignores_id policy v || ignores_package policy d

-- `threshold_for`
unfoldable pub threshold_for : MatchPolicy → Reachability → Severity
threshold_for policy runtime_direct = policy.direct_threshold
threshold_for policy runtime_transitive = policy.transitive_threshold
threshold_for policy dev_only = elim policy.dev_threshold [
  | none ↦ policy.transitive_threshold
  | some s ↦ s
]

-- The set of the texts that are not blank, each stripped and put in one case
abbrev pub normalise : (Text → Text) → List Text → List Text
normalise f xs = unique [] (map (λ x. f (strip x)) (keep (λ x. not (is_empty (strip x))) xs))

-- `normalise_packages`
unfoldable pub normalise_packages : List Text → List Text
normalise_packages = normalise lower

-- `normalise_ids`
unfoldable pub normalise_ids : List Text → List Text
normalise_ids = normalise upper
