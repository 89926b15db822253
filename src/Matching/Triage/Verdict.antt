-- ===== src/Matching/Triage/Verdict.antt =====
-- When `triage` of app/core/matching.py alerts.
use weedout.Base.{
  ◌≡◌, refl, inl, inr, Bool, true, false, not, ◌&&◌, ◌||◌, Option, none, some, List, if◌then◌else◌,
  Bool-cases, is_some,
}
use weedout.Base.Maybe.{map_option}
use weedout.Base.Text.{Text}
use weedout.Matching.Policy.{MatchPolicy, ignores, threshold_for}
use weedout.Matching.Triage.{
  epss_for, matching_affected, base_decision, suppress, alert, override, epss_gate, dev_filtered,
  by_severity, triage_unlisted, triage_affected, in_kev, triage, is_transitive,
}
use weedout.Types.{
  Reachability, Severity, severity_ge, actionable, suppressed, not_affected, malicious_package,
  likely_to_be_exploited, exploited_in_wild, SuppressionReason, dev_only_dependency,
  transitive_not_direct, below_severity_threshold, ignored_by_rule, Score, Dependency,
  AffectedPackage, Vulnerability, is_malicious, cve_ids, MatchDecision,
}
use weedout.Versions.Ranges.{Pep440, first_fixed_version}

abbrev pub alerting : MatchDecision → Bool
alerting b = elim b.verdict [ actionable ↦ true | _ ↦ false ]

-- When an advisory that covers the version becomes an alert: not withdrawn, and malicious, or
-- exploited, or past a threshold that no ignore rule or dev-only filter stands before.
abbrev pub alerts : MatchPolicy → Dependency → Vulnerability → Bool → Option Score → Bool
alerts policy d v kev score =
    not v.withdrawn
    && (is_malicious v
        || kev && policy.always_alert_on_kev
        || not (ignores policy v d)
          && (epss_gate policy.epss_threshold score
              || not (dev_filtered policy v.severity d.reachability)
                && severity_ge v.severity (threshold_for policy d.reachability)))

by_severity-alerts :
    (policy : MatchPolicy) (b : MatchDecision) (s : Severity) (r : Reachability)
    → b.verdict ≡ suppressed
    → alerting (by_severity policy b s r) ≡ severity_ge s (threshold_for policy r)
unfolding by_severity
by_severity-alerts policy b s r h = elim (Bool-cases (severity_ge s (threshold_for policy r))) [
  | inl over ↦ rw (over, by_severity) refl
  | inr under ↦
      rw (under, by_severity) (go (is_transitive r && severity_ge s policy.direct_threshold))
]
  where
    go :
        (c : Bool)
        → alerting
            (if c then suppress b transitive_not_direct else suppress b below_severity_threshold)
          ≡ false
    go true = rw h
    go false = rw h

triage_unlisted-alerts :
    (policy : MatchPolicy) (d : Dependency) (v : Vulnerability) (b : MatchDecision)
    → b.verdict ≡ suppressed
    → alerting (triage_unlisted policy d v b) ≡ (
        not (ignores policy v d)
        && (epss_gate policy.epss_threshold b.epss_score
            || not (dev_filtered policy v.severity d.reachability)
              && severity_ge v.severity (threshold_for policy d.reachability)))
unfolding triage_unlisted
triage_unlisted-alerts policy d v b h =
    go (ignores policy v d) (epss_gate policy.epss_threshold b.epss_score)
      (dev_filtered policy v.severity d.reachability)
  where
    last : MatchDecision
    last = by_severity policy b v.severity d.reachability

    over : Bool
    over = severity_ge v.severity (threshold_for policy d.reachability)

    go :
        (i g f : Bool)
        → alerting (
            if i
            then suppress b ignored_by_rule
            else if g
            then alert b likely_to_be_exploited
            else if f
            then suppress b dev_only_dependency
            else last)
          ≡ (not i && (g || not f && over))
    go true g f = rw h
    go false true f = refl
    go false false true = rw h
    go false false false = by_severity-alerts policy b v.severity d.reachability h

triage_affected-alerts :
    (policy : MatchPolicy) (d : Dependency) (v : Vulnerability) (kev : Bool) (b : MatchDecision)
    → b.verdict ≡ suppressed
    → alerting (triage_affected policy d v kev b) ≡ alerts policy d v kev b.epss_score
unfolding triage_affected
triage_affected-alerts policy d v kev b h =
    go v.withdrawn (is_malicious v) (kev && policy.always_alert_on_kev)
  where
    last : MatchDecision
    last = triage_unlisted policy d v b

    go :
        (w m k : Bool)
        → alerting (
            if w
            then suppress b SuppressionReason.withdrawn
            else if m
            then override b malicious_package (ignores policy v d)
            else if k
            then override b exploited_in_wild (ignores policy v d)
            else last)
          ≡ (not w
              && (m
                  || k
                  || not (ignores policy v d)
                    && (epss_gate policy.epss_threshold b.epss_score
                        || not (dev_filtered policy v.severity d.reachability)
                          && severity_ge v.severity (threshold_for policy d.reachability))))
    go true m k = rw h
    go false true k = refl
    go false false true = refl
    go false false false = triage_unlisted-alerts policy d v b h

module _ (pep : Pep440) (d : Dependency) (v : Vulnerability) (kev_index : List Text)
    (policy : MatchPolicy) (epss_index : Text → Option (Score × Score)) where
  abbrev pub best_score : Option Score
  best_score = map_option (λ p. p.0) (epss_for (cve_ids v) epss_index)

  -- An alert is raised exactly where some entry of the advisory covers the version and the rule
  -- `alerts` says so.
  pub triage-alerts :
      alerting (triage pep d v kev_index policy epss_index)
      ≡ (is_some (matching_affected pep d v) && alerts policy d v (in_kev kev_index v) best_score)
  unfolding triage
  triage-alerts = go (matching_affected pep d v)
    where
      go :
          (o : Option AffectedPackage)
          → alerting (elim o [
            | none ↦ record (base_decision d v (in_kev kev_index v) none none) {
              verdict = not_affected;
            }
            | some a ↦ triage_affected policy d v (in_kev kev_index v) (
                base_decision d v
                  (in_kev kev_index v)
                  (first_fixed_version pep d.ecosystem d.version a)
                  (epss_for (cve_ids v) epss_index))
          ])
            ≡ (is_some o && alerts policy d v (in_kev kev_index v) best_score)
      go none = refl
      go (some a) = triage_affected-alerts policy d v (in_kev kev_index v) _ refl

  -- The decision on an advisory that covers the version, before its verdict
  abbrev pub covered_by : AffectedPackage → MatchDecision
  covered_by a =
      base_decision d v (in_kev kev_index v) (first_fixed_version pep d.ecosystem d.version a)
        (epss_for (cve_ids v) epss_index)

  pub triage-covered :
      (a : AffectedPackage)
      → matching_affected pep d v ≡ some a
      → triage pep d v kev_index policy epss_index
        ≡ triage_affected policy d v (in_kev kev_index v) (covered_by a)
  unfolding triage
  triage-covered a e = rw (e, triage)

  pub triage-uncovered :
      matching_affected pep d v ≡ none
      → triage pep d v kev_index policy epss_index
        ≡ record (base_decision d v (in_kev kev_index v) none none) { verdict = not_affected }
  unfolding triage
  triage-uncovered e = rw (e, triage)
