-- ===== src/Matching/Triage.antt =====
-- `triage` of app/core/matching.py, for one dependency and one advisory.
pub mod Verdict
pub mod Ladder
pub mod Reasons
use weedout.Base.{
  Bool, true, false, not, ◌&&◌, Option, none, some, List, [], ◌∷◌, map, ltb, leb, if◌then◌else◌,
  any,
}
use weedout.Base.Maybe.{map_option}
use weedout.Base.Text.{Text, text_eq, upper, lower}
use weedout.Matching.Policy.{MatchPolicy, member, ignores, threshold_for}
use weedout.Types.{
  ecosystem_is, Reachability, runtime_direct, runtime_transitive, ships_to_production, Severity,
  critical, severity_lt, severity_ge, actionable, suppressed, not_affected, ActionableReason,
  malicious_package, likely_to_be_exploited, exploited_in_wild, critical_in_production,
  high_severity_direct, SuppressionReason, dev_only_dependency, transitive_not_direct,
  below_severity_threshold, ignored_by_rule, Score, Dependency, AffectedPackage, Vulnerability,
  is_malicious, cve_ids, MatchDecision,
}
use weedout.Versions.Ranges.{Pep440, version_matches, first_fixed_version}
-- `_epss_for`: the best score among the advisory's CVEs; the first of equal ones stays.
use weedout.Base.{
  Bool, true, false, not, ◌&&◌, Option, none, some, List, [], ◌∷◌, map, ltb, leb, if◌then◌else◌,
  any,
}
use weedout.Base.Maybe.{map_option}
use weedout.Base.Text.{Text, text_eq, upper, lower}
use weedout.Matching.Policy.{MatchPolicy, member, ignores, threshold_for}
use weedout.Types.{
  ecosystem_is, Reachability, runtime_direct, runtime_transitive, ships_to_production, Severity,
  critical, severity_lt, severity_ge, actionable, suppressed, not_affected, ActionableReason,
  malicious_package, likely_to_be_exploited, exploited_in_wild, critical_in_production,
  high_severity_direct, SuppressionReason, dev_only_dependency, transitive_not_direct,
  below_severity_threshold, ignored_by_rule, Score, Dependency, AffectedPackage, Vulnerability,
  is_malicious, cve_ids, MatchDecision,
}
use weedout.Versions.Ranges.{Pep440, version_matches, first_fixed_version}

better : Option (Score × Score) → Option (Score × Score) → Option (Score × Score)
better best none = best
better none (some found) = some found
better (some best) (some found) = if ltb best.0 found.0 then some found else some best

best_epss :
    Option (Score × Score) → List Text → (Text → Option (Score × Score)) → Option (Score × Score)
unfolding better upper
best_epss best [] index = best
best_epss best (cve ∷ cves) index = best_epss (better best (index (upper cve))) cves index

unfoldable pub epss_for : List Text → (Text → Option (Score × Score)) → Option (Score × Score)
unfolding best_epss
epss_for cves index = best_epss none cves index

module _ (pep : Pep440) where
  covers : Dependency → AffectedPackage → Bool
  covers d a =
      ecosystem_is a.ecosystem d.ecosystem
      && text_eq (lower a.name) (lower d.name)
      && version_matches pep d.ecosystem d.version a

  first_covering : Dependency → List AffectedPackage → Option AffectedPackage
  unfolding covers
  first_covering d [] = none
  first_covering d (a ∷ as') =
      let later = first_covering d as' in if covers d a then some a else later

  -- `_matching_affected`
  unfoldable pub matching_affected : Dependency → Vulnerability → Option AffectedPackage
  unfolding first_covering
  matching_affected d v = first_covering d v.affected

-- A decision without a reason
abbrev pub base_decision :
    Dependency → Vulnerability → Bool → Option Text → Option (Score × Score) → MatchDecision
base_decision d v kev fixed epss = record {
  dependency = d;
  vulnerability = v;
  verdict = suppressed;
  severity = v.severity;
  kev = kev;
  fixed_version = fixed;
  actionable_reason = none;
  suppression_reason = none;
  epss_score = map_option (λ p. p.0) epss;
  epss_percentile = map_option (λ p. p.1) epss;
  ignore_overridden = false;
}

abbrev pub suppress : MatchDecision → SuppressionReason → MatchDecision
suppress b r = record b { suppression_reason = some r }

abbrev pub alert : MatchDecision → ActionableReason → MatchDecision
alert b r = record b { verdict = actionable; actionable_reason = some r }

-- An alert that says whether it went against an ignore rule
abbrev pub override : MatchDecision → ActionableReason → Bool → MatchDecision
override b r ignored = record b {
  verdict = actionable;
  actionable_reason = some r;
  ignore_overridden = ignored;
}

-- `policy.epss_threshold is not None and epss_score is not None and epss_score >= …`
unfoldable pub epss_gate : Option Score → Option Score → Bool
epss_gate none score = false
epss_gate (some t) none = false
epss_gate (some t) (some s) = leb t s

-- A dependency that never ships, on a project that has no floor for those, or a higher one
unfoldable pub dev_filtered : MatchPolicy → Severity → Reachability → Bool
unfolding ships_to_production
dev_filtered policy s r = not (ships_to_production r) && elim policy.dev_threshold [
  | none ↦ not policy.alert_on_dev_dependencies
  | some t ↦ severity_lt s t
]

unfoldable pub is_direct : Reachability → Bool
is_direct runtime_direct = true
is_direct _ = false

is_transitive : Reachability → Bool
is_transitive runtime_transitive = true
is_transitive _ = false

is_critical : Severity → Bool
is_critical critical = true
is_critical _ = false

-- The ladder after the dev-only check
unfoldable pub by_severity : MatchPolicy → MatchDecision → Severity → Reachability → MatchDecision
unfolding is_direct is_transitive is_critical
by_severity policy b s r =
    if severity_ge s (threshold_for policy r)
    then alert b (
        if is_direct r && not (is_critical s) then high_severity_direct else critical_in_production)
    else if is_transitive r && severity_ge s policy.direct_threshold
    then suppress b transitive_not_direct
    else suppress b below_severity_threshold

-- What follows the exploited-in-the-wild check
unfoldable pub triage_unlisted :
    MatchPolicy → Dependency → Vulnerability → MatchDecision → MatchDecision
triage_unlisted policy d v b =
    if ignores policy v d
    then suppress b ignored_by_rule
    else if epss_gate policy.epss_threshold b.epss_score
    then alert b likely_to_be_exploited
    else if dev_filtered policy v.severity d.reachability
    then suppress b dev_only_dependency
    else by_severity policy b v.severity d.reachability

-- What follows once the advisory is known to cover the version
unfoldable pub triage_affected :
    MatchPolicy → Dependency → Vulnerability → Bool → MatchDecision → MatchDecision
triage_affected policy d v kev b =
    if v.withdrawn
    then suppress b SuppressionReason.withdrawn
    else if is_malicious v
    then override b malicious_package (ignores policy v d)
    else if kev && policy.always_alert_on_kev
    then override b exploited_in_wild (ignores policy v d)
    else triage_unlisted policy d v b

-- `any(cve in kev_ids for cve in vulnerability.cve_ids)`
unfoldable pub in_kev : List Text → Vulnerability → Bool
unfolding cve_ids upper
in_kev kev_index v = any (λ c. member c (map upper kev_index)) (cve_ids v)

module _ (pep : Pep440) where
  -- `triage`. The catalog of exploited CVEs is its list of identifiers, the EPSS index a lookup.
  unfoldable pub triage :
      Dependency
      → Vulnerability
      → List Text
      → MatchPolicy
      → (Text → Option (Score × Score))
      → MatchDecision
  triage d v kev_index policy epss_index =
      let kev = in_kev kev_index v in
      elim (matching_affected pep d v) [
        | none ↦ record (base_decision d v kev none none) { verdict = not_affected }
        | some a ↦ triage_affected policy d v kev (
            base_decision d v kev (first_fixed_version pep d.ecosystem d.version a)
              (epss_for (cve_ids v) epss_index))
      ]
