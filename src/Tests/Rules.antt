-- ===== src/Tests/Rules.antt =====
-- Tests of the rules (app/core/policy.py, app/services/rules_service.py, app/services/profile_service.py).
use weedout.Base.{
  ◌≡◌, refl, ◌∙◌, true, false, Option, none, some, [], ◌∷◌, arith, if◌then◌else◌, ok, err, Returns,
}
use weedout.Base.Text.{Text, text, text_eq, upper, starts_with, strip}
use weedout.Matching.Glob.{translate, glob_match}
use weedout.Matching.Policy.{
  default_policy, ignores_id, ignores_package, ignores, threshold_for, normalise_packages,
  normalise_ids,
}
use weedout.Matching.Triage.{epss_gate, dev_filtered, in_kev, triage}
use weedout.Matching.Triage.Verdict.{alerting, alerts, triage-alerts}
use weedout.Rules.Effective.{EffectivePolicy, layered, effective_policy, build_policy}
use weedout.Rules.Effective.FailingOpen.{discarded_file_noisier}
use weedout.Rules.Effective.Laws.{no_settings}
use weedout.Rules.PolicyFile.{
  advisory_kind, package_kind, dev, not_a_severity, ignores_everything, no_reason, listed_twice,
  not_yaml, ParsedPolicy, empty_policy,
}
use weedout.Rules.PolicyFile.Document.{failed_policy, characters, Loader, parse_policy}
use weedout.Rules.PolicyFile.Everything.{three_stars, read_package_pattern-matches_everything}
use weedout.Rules.PolicyFile.Ignores.{read_package_pattern}
use weedout.Rules.PolicyFile.Laws.{IsValid, IsDiscarded, parse_policy-IsValid}
use weedout.Rules.Profiles.{
  RuleProfile, slugify_profile, validate, create_profile, ScannedTarget, profile_for_scan,
}
use weedout.Rules.Profiles.Counts.{IsTidy}
use weedout.Rules.Profiles.Laws.{created, Reached, begin, then_step, Reached-IsTidy}
use weedout.Rules.Profiles.Scans.{IsOwn, profile_for_scan-IsOwn}
use weedout.Rules.Yaml.{
  Yaml, number, str, sequence, mapping, no_elements, element, no_entries, entry,
}
use weedout.Tests.Data.{plain_pep, lodash, advisory, no_epss}
use weedout.Tests.Matching.{covered}
use weedout.Types.{
  ships_to_production, Severity, low, critical, key, Vulnerability, is_malicious, unique, cve_ids,
}

abbrev ignore_of : Text → Text → Text → Yaml
ignore_of key subject reason =
    mapping (entry (str (text "reason")) (str reason) (entry (str key) (str subject) no_entries))

-- Kept, kept, refused for its pattern, refused for its reason, listed twice
abbrev ignore_block : Yaml
ignore_block = sequence (
    element (ignore_of (text "cve") (text " cve-2021-23337") (text "disputed")) (
      element (ignore_of (text "package") (text "@Acme/*") (text "ours")) (
        element (ignore_of (text "package") (text "*") (text "noise")) (
          element (ignore_of (text "cve") (text "CVE-1") (text " "))
            (element (ignore_of (text "id") (text "CVE-2021-23337") (text "again")) no_elements)))))

abbrev document : Yaml
document = mapping (
    entry (str (text "ignore")) ignore_block (
      entry (str (text "severity"))
        (mapping (
          entry (str (text "direct")) (str (text "Low"))
            (entry (str (text "dev")) (str (text "unknown")) no_entries)))
        (entry (str (text "epss"))
          (mapping (entry (str (text "alert_above")) (number false 50000000000) no_entries))
          no_entries)))

-- A loader that knows one document
abbrev toy_loader : Loader
toy_loader = record {
  safe_load = λ s. if text_eq s (text "doc") then some document else some (mapping no_entries);
  decode = λ bs. none;
}

parse_policy_test :
    (let p = parse_policy toy_loader (characters (text "doc")) in
      (p.ignores
        ≡ record {
          identifier = text "CVE-2021-23337";
          reason = text "disputed";
          kind = advisory_kind;
        }
          ∷ record { identifier = text "@acme/*"; reason = text "ours"; kind = package_kind }
          ∷ [])
      × (p.direct_threshold ≡ some low)
      × (p.epss_threshold ≡ some 500000000)
      × (p.warnings
          ≡ not_a_severity dev
            ∷ ignores_everything 2
            ∷ no_reason 3 (text "CVE-1")
            ∷ listed_twice (text "CVE-2021-23337")
            ∷ []))
unfolding parse_policy
parse_policy_test = (refl, refl, refl, refl)

parse_policy-IsValid_example :
    IsValid (parse_policy toy_loader (characters (text "doc")))
    × IsDiscarded (parse_policy toy_loader (characters (text "doc")))
parse_policy-IsValid_example = parse_policy-IsValid toy_loader (characters (text "doc"))

read_package_pattern-matches_everything_example :
    (read_package_pattern 0 (str three_stars) ≡ ok three_stars)
    × (glob_match (translate three_stars) (text "left-pad") ≡ true)
read_package_pattern-matches_everything_example =
    read_package_pattern-matches_everything 0 (text "left-pad")

-- A file that raises the transitive floor and ignores something else
abbrev careful : ParsedPolicy
careful = record empty_policy {
  transitive_threshold = some critical;
  ignores =
      record { identifier = text "CVE-1"; reason = text "disputed"; kind = advisory_kind } ∷ [];
}

careful_alerts :
    alerting (
      triage plain_pep lodash advisory []
        (layered default_policy careful no_settings empty_policy)
        no_epss)
    ≡ true
unfolding layered normalise_ids normalise_packages unique ignores ignores_id ignores_package
    is_malicious starts_with upper strip text_eq threshold_for dev_filtered ships_to_production
    epss_gate in_kev cve_ids
careful_alerts =
    triage-alerts plain_pep lodash advisory []
      (layered default_policy careful no_settings empty_policy) no_epss
    ∙ rw covered refl

-- A file that raises the transitive floor, and one that is not YAML
abbrev careful_loader : Loader
careful_loader = record {
  safe_load = λ s.
      if text_eq s (text "doc")
      then some (
          mapping (
            entry (str (text "severity"))
              (mapping (entry (str (text "transitive")) (str (text "critical")) no_entries))
              no_entries))
      else none;
  decode = λ bs. none;
}

abbrev unassigned : ScannedTarget
unassigned = record { user_id = 7; assigned = none }

abbrev without_file : EffectivePolicy
without_file = effective_policy none default_policy (failed_policy not_yaml) no_settings none

discarded_file_noisier_example :
    (under : EffectivePolicy) × (build_policy careful_loader none default_policy
        (characters (text "doc"))
        no_settings
        []
        unassigned
        none
      ≡ ok under)
    × (alerting (triage plain_pep lodash advisory [] under.policy no_epss) ≡ true
        → alerting (triage plain_pep lodash advisory [] without_file.policy no_epss) ≡ true)
unfolding build_policy effective_policy parse_policy profile_for_scan layered
discarded_file_noisier_example =
    discarded_file_noisier careful_loader none default_policy (characters (text "doc"))
      (characters (text "{")) no_settings [] unassigned none not_yaml without_file plain_pep lodash
      advisory [] no_epss refl refl refl refl refl tt (omega arith)

-- A file that lowers a floor: without it, the advisory is not an alert any more.
abbrev strict : ParsedPolicy
strict = record empty_policy { direct_threshold = some low }

abbrev low_advisory : Vulnerability
low_advisory = record advisory { severity = low }

strict_test :
    (alerts (layered default_policy strict no_settings empty_policy) lodash low_advisory false none
      ≡ true)
    × (alerts
          (layered default_policy (failed_policy not_yaml) no_settings empty_policy)
          lodash
          low_advisory
          false
          none
        ≡ false)
unfolding layered normalise_ids normalise_packages unique ignores ignores_id ignores_package
    is_malicious starts_with upper strip text_eq threshold_for dev_filtered ships_to_production
    epss_gate cve_ids
strict_test = (refl, refl)

-- A file that only names a profile with a lower floor: without it, the profile is not asked for either.
abbrev naming_loader : Loader
naming_loader = record {
  safe_load = λ s.
      if text_eq s (text "doc")
      then some (mapping (entry (str (text "profile")) (str (text "strict")) no_entries))
      else if text_eq s (text "low")
      then some (
          mapping (
            entry (str (text "severity"))
              (mapping (entry (str (text "direct")) (str (text "low")) no_entries)) no_entries))
      else none;
  decode = λ bs. none;
}

abbrev strict_profile : RuleProfile
strict_profile = record {
  user_id = 7;
  name = text "Strict";
  slug = text "strict";
  description = [];
  document = text "low";
  is_default = false;
}

abbrev direct_floor : Text → Option Severity
direct_floor content =
    elim (build_policy naming_loader none default_policy (characters content) no_settings
      (strict_profile ∷ []) unassigned none) [
        | ok effective ↦ some effective.policy.direct_threshold
        | err e ↦ none
      ]

naming_test :
    (direct_floor (text "doc") ≡ some low)
    × (direct_floor (text "{") ≡ some default_policy.direct_threshold)
unfolding build_policy
naming_test = (refl, refl)

slugify_profile_test :
    (slugify_profile (text " Production  APIs!") ≡ text "production-apis")
    × (slugify_profile (text "PRODUCTION_APIS") ≡ text "production-apis")
unfolding slugify_profile
slugify_profile_test = (refl, refl)

abbrev internal : RuleProfile
internal = record {
  user_id = 7;
  name = text "Internal tools";
  slug = text "internal-tools";
  description = [];
  document = [];
  is_default = true;
}

internal-Reached : Reached toy_loader (internal ∷ [])
unfolding create_profile validate
internal-Reached =
    then_step begin (created 7 (text "Internal tools") [] [] false [] (internal ∷ []) refl)

Reached-IsTidy_example : IsTidy (internal ∷ [])
Reached-IsTidy_example = Reached-IsTidy toy_loader internal-Reached

abbrev project : ScannedTarget
project = record { user_id = 7; assigned = none }

profile_for_scan-IsOwn_example :
    Returns
      (IsOwn project (some (text "internal TOOLS")))
      (profile_for_scan (internal ∷ []) project (some (text "internal TOOLS")))
profile_for_scan-IsOwn_example =
    profile_for_scan-IsOwn (internal ∷ []) project (some (text "internal TOOLS"))
