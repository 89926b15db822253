-- ===== src/Types.antt =====
-- app/core/types.py: the shared vocabulary. A score (CVSS, EPSS) is a count of fixed units.
pub mod Laws
use weedout.Base.{
  ℕ, ◌≡◌, Bool, true, false, Option, none, some, List, [], ◌∷◌, ◌++◌, map, ◌==◌, ltb, leb, keep,
  any, if◌then◌else◌,
}
use weedout.Base.Text.{Text, text, text_eq, upper, starts_with}

pub data Ecosystem : Type 0 where
  npm pypi go crates_io maven : Ecosystem

-- The enum's value: the name that OSV uses.
abbrev pub ecosystem_value : Ecosystem → Text
ecosystem_value npm = text "npm"
ecosystem_value pypi = text "PyPI"
ecosystem_value go = text "Go"
ecosystem_value crates_io = text "crates.io"
ecosystem_value maven = text "Maven"

abbrev pub ecosystem_index : Ecosystem → ℕ
ecosystem_index npm = 0
ecosystem_index pypi = 1
ecosystem_index go = 2
ecosystem_index crates_io = 3
ecosystem_index maven = 4

-- `a is b` on the enum's members
abbrev pub ecosystem_is : Ecosystem → Ecosystem → Bool
ecosystem_is a b = ecosystem_index a == ecosystem_index b

pub data ManifestKind : Type 0 where
  package_json package_lock_json requirements_txt go_mod : ManifestKind
  cargo_lock pom_xml gradle_lockfile sbt_lock : ManifestKind

unfoldable pub manifest_ecosystem : ManifestKind → Ecosystem
manifest_ecosystem package_json = npm
manifest_ecosystem package_lock_json = npm
manifest_ecosystem requirements_txt = pypi
manifest_ecosystem go_mod = go
manifest_ecosystem cargo_lock = crates_io
manifest_ecosystem pom_xml = maven
manifest_ecosystem gradle_lockfile = maven
manifest_ecosystem sbt_lock = maven

unfoldable pub is_lockfile : ManifestKind → Bool
is_lockfile package_lock_json = true
is_lockfile cargo_lock = true
is_lockfile gradle_lockfile = true
is_lockfile sbt_lock = true
is_lockfile _ = false

pub data Reachability : Type 0 where
  runtime_direct runtime_transitive dev_only : Reachability

unfoldable pub ships_to_production : Reachability → Bool
ships_to_production dev_only = false
ships_to_production _ = true

pub data Severity : Type 0 where
  unknown low medium high critical : Severity

abbrev pub rank : Severity → ℕ
rank unknown = 0
rank low = 1
rank medium = 2
rank high = 3
rank critical = 4

-- `Severity.__lt__` and `Severity.__ge__`
abbrev pub severity_lt : Severity → Severity → Bool
severity_lt a b = ltb (rank a) (rank b)

abbrev pub severity_ge : Severity → Severity → Bool
severity_ge a b = leb (rank b) (rank a)

pub data Verdict : Type 0 where
  actionable suppressed not_affected : Verdict

pub data ActionableReason : Type 0 where
  malicious_package likely_to_be_exploited exploited_in_wild : ActionableReason
  critical_in_production high_severity_direct : ActionableReason

pub data SuppressionReason : Type 0 where
  withdrawn dev_only_dependency transitive_not_direct : SuppressionReason
  below_severity_threshold ignored_by_rule : SuppressionReason

pub data KeyScope : Type 0 where
  scan read manage : KeyScope

abbrev scope_is : KeyScope → KeyScope → Bool
scope_is scan scan = true
scope_is read read = true
scope_is manage manage = true
scope_is _ _ = false

-- `KeyScope.allows`
unfoldable pub allows : KeyScope → KeyScope → Bool
allows manage needed = true
allows scope needed = scope_is scope needed

-- A float between 0 and 10, or between 0 and 1, as a count of billionths.
abbrev pub Score : Type 0
Score = ℕ

pub data AutomatedReachability : Type 0 where
  reachable potentially_reachable not_observed unknown : AutomatedReachability

pub record ReachabilityEvidence : Type 0 where
  pub source_file : Text
  pub line : Option ℕ
  pub import_kind : Text
  pub imported_package : Text
  pub dependency_path : List Text
  pub explanation : Text

pub record Dependency : Type 0 where
  pub ecosystem : Ecosystem
  pub name : Text
  pub version : Text
  pub version_spec : Text
  pub reachability : Reachability
  pub version_exact : Bool
  pub automated_reachability : AutomatedReachability
  pub reachability_evidence : List ReachabilityEvidence
  pub depth : ℕ
  pub via : List Text

-- `Dependency.key`
abbrev pub key : Dependency → Text × Text × Text
key d = (ecosystem_value d.ecosystem, d.name, d.version)

-- `Dependency.chain`
abbrev pub chain : Dependency → List Text
chain d = d.via ++ d.name ∷ []

pub record AffectedRange : Type 0 where
  pub introduced : Option Text
  pub fixed : Option Text
  pub last_affected : Option Text

pub record AffectedPackage : Type 0 where
  pub ecosystem : Ecosystem
  pub name : Text
  pub ranges : List AffectedRange
  pub versions : List Text

pub record Vulnerability : Type 0 where
  pub id : Text
  pub aliases : List Text
  pub summary : Text
  pub details : Text
  pub severity : Severity
  pub cvss_score : Option Score
  pub cvss_vector : Option Text
  pub affected : List AffectedPackage
  pub references : List Text
  pub cwe_ids : List Text
  pub withdrawn : Bool
  pub published : Option Text

-- `Vulnerability.is_malicious`
unfoldable pub is_malicious : Vulnerability → Bool
unfolding starts_with upper
is_malicious v = starts_with (text "MAL-") (upper v.id)

abbrev pub is_cve : Text → Bool
is_cve a = starts_with (text "CVE-") (upper a)

-- `tuple(dict.fromkeys(ids))`: the first of each
unfoldable pub unique : List Text → List Text → List Text
unfolding text_eq
unique seen [] = []
unique seen (a ∷ ids) =
    let old = unique seen ids in
    let new = a ∷ unique (a ∷ seen) ids in if any (text_eq a) seen then old else new

-- `Vulnerability.cve_ids`
unfoldable pub cve_ids : Vulnerability → List Text
unfolding unique
cve_ids v =
    let ids = keep is_cve v.aliases in
    unique [] (map upper (if is_cve v.id then v.id ∷ ids else ids))

-- `Vulnerability.primary_cve`
unfoldable pub primary_cve : Vulnerability → Option Text
unfolding cve_ids
primary_cve v = elim (cve_ids v) [ [] ↦ none | c ∷ cs ↦ some c ]

pub record MatchDecision : Type 0 where
  pub dependency : Dependency
  pub vulnerability : Vulnerability
  pub verdict : Verdict
  pub severity : Severity
  pub kev : Bool
  pub fixed_version : Option Text
  pub actionable_reason : Option ActionableReason
  pub suppression_reason : Option SuppressionReason
  pub epss_score : Option Score
  pub epss_percentile : Option Score
  pub ignore_overridden : Bool

pub record ScanResult : Type 0 where
  pub actionable : List MatchDecision
  pub suppressed : List MatchDecision
  pub dependencies_scanned : ℕ
  pub errors : List Text
  pub unreached_by_depth : ℕ
