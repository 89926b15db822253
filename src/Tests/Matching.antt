-- ===== src/Tests/Matching.antt =====
-- Tests of the triage (app/core/matching.py).
use mathlib.Core.List.{Perm}
use weedout.Base.{
  ◌≡◌, refl, ◌∙◌, true, false, not, ◌&&◌, ◌||◌, some, List, [], ◌∷◌, arith, is_some, keep,
}
use weedout.Base.Order.{lexicographic}
use weedout.Base.Text.{Text, text, text_eq, upper, lower, starts_with, lstrip, split, span, int}
use weedout.Matching.Glob.{translate, glob_match}
use weedout.Matching.Policy.{MatchPolicy, default_policy, ignores}
use weedout.Matching.Scan.{is_actionable, is_suppressed, triage_all}
use weedout.Matching.Scan.Laws.{IsByUrgency, examined, triage_all-sorted}
use weedout.Matching.Triage.{matching_affected, is_direct, in_kev, triage}
use weedout.Matching.Triage.Ladder.{
  clears_bar, triage-default, triage_unsilenceable, with_severity, triage_severity_mono,
}
use weedout.Matching.Triage.Reasons.{with_rules}
use weedout.Matching.Triage.Verdict.{alerting}
use weedout.Tests.Data.{plain_pep, lodash_entry, lodash, advisory, no_epss}
use weedout.Types.{runtime_direct, critical, Vulnerability, is_malicious, cve_ids}
use weedout.Versions.Ranges.{normalize, parse_version, compare_versions, in_range, version_matches}
use weedout.Versions.SemVer.{compare_semver, parse}

abbrev exploited : List Text
exploited = text "CVE-2021-23337" ∷ []

abbrev silencing : MatchPolicy
silencing = record default_policy {
  ignored_ids = text "CVE-2021-23337" ∷ [];
  direct_threshold = critical;
}

pub covered : matching_affected plain_pep lodash advisory ≡ some lodash_entry
unfolding matching_affected version_matches in_range compare_versions normalize parse_version parse
    compare_semver split int span lexicographic text_eq lstrip lower
covered = refl

not_malware : is_malicious advisory ≡ false
unfolding is_malicious starts_with upper
not_malware = refl

in_catalog : in_kev exploited advisory ≡ true
unfolding in_kev cve_ids text_eq starts_with upper
in_catalog = refl

triage-default_example :
    alerting (triage plain_pep lodash advisory exploited default_policy no_epss) ≡ (
      is_some (matching_affected plain_pep lodash advisory)
      && (not false && clears_bar advisory runtime_direct (in_kev exploited advisory)))
triage-default_example = triage-default plain_pep lodash advisory exploited no_epss

unsilenceable : (is_malicious advisory || in_kev exploited advisory && true) ≡ true
unsilenceable = rw (not_malware, in_catalog)

triage_unsilenceable_example :
    (alerting (triage plain_pep lodash advisory exploited silencing no_epss) ≡ true)
    × ((triage plain_pep lodash advisory exploited silencing no_epss).ignore_overridden
        ≡ ignores silencing advisory lodash)
triage_unsilenceable_example =
    triage_unsilenceable plain_pep lodash advisory exploited silencing no_epss lodash_entry covered
      refl unsilenceable

alert_by_severity : alerting (triage plain_pep lodash advisory [] default_policy no_epss) ≡ true
unfolding is_direct in_kev cve_ids text_eq starts_with upper
alert_by_severity = triage-default plain_pep lodash advisory [] no_epss ∙ rw (covered, not_malware)

triage_severity_mono_example :
    alerting (triage plain_pep lodash (with_severity advisory critical) [] default_policy no_epss)
    ≡ true
triage_severity_mono_example =
    triage_severity_mono plain_pep lodash advisory [] default_policy no_epss critical (omega arith)
      alert_by_severity

abbrev retracted : Vulnerability
retracted = record advisory { withdrawn = true }

alert_with_rules :
    alerting (
      triage plain_pep lodash advisory exploited
        (with_rules default_policy (text "X-1" ∷ []) [])
        no_epss)
    ≡ true
alert_with_rules =
    (triage_unsilenceable plain_pep lodash advisory exploited
      (with_rules default_policy (text "X-1" ∷ []) []) no_epss lodash_entry covered refl
      unsilenceable).0

abbrev feed : Text × Text × Text → List Vulnerability
feed k = advisory ∷ retracted ∷ []

triage_all-sorted_example :
    let r = triage_all plain_pep feed exploited silencing no_epss (lodash ∷ []) [] in
    IsByUrgency r.actionable
    × IsByUrgency r.suppressed
    × Perm r.actionable
        (keep is_actionable (examined plain_pep feed exploited silencing no_epss (lodash ∷ [])))
    × Perm r.suppressed
        (keep is_suppressed (examined plain_pep feed exploited silencing no_epss (lodash ∷ [])))
triage_all-sorted_example =
    triage_all-sorted plain_pep feed exploited silencing no_epss (lodash ∷ []) []

glob_tests :
    (glob_match (translate (text "eslint-[!a-c]*?")) (text "ESLint-plugin") ≡ true)
    × (glob_match (translate (text "eslint-[!a-c]*?")) (text "eslint-config") ≡ false)
unfolding glob_match translate
glob_tests = (refl, refl)
