-- ===== src/Matching/Triage/Reasons.antt =====
-- The reasons that a decision of app/core/matching.py carries, and what ignore rules can do.

-- An alert has a reason and no reason to be filed; what is filed has one and was not overridden;
-- what is outside every range has neither, and no fix.
use weedout.Base.{
  ◌≡◌, refl, sym, ◌∙◌, inl, inr, Bool, true, false, not, ◌&&◌, ◌||◌, Option, none, List, [], ◌∷◌,
  ◌++◌, arith, if◌then◌else◌, Option-cases, is_some, and_cases, any, any-append,
}
use weedout.Base.Text.{Text, text_eq, upper, lower, strip}
use weedout.Matching.Glob.{translate, glob_match}
use weedout.Matching.Policy.{
  MatchPolicy, member, ignores_id, ignores_package, ignores, threshold_for,
}
use weedout.Matching.Triage.{
  matching_affected, suppress, alert, override, epss_gate, dev_filtered, is_direct, by_severity,
  triage_unlisted, triage_affected, in_kev, triage, is_transitive, is_critical,
}
use weedout.Matching.Triage.Verdict.{
  alerting, best_score, triage-alerts, triage-covered, triage-uncovered,
}
use weedout.Types.{
  Reachability, Severity, severity_ge, actionable, suppressed, not_affected, ActionableReason,
  malicious_package, likely_to_be_exploited, exploited_in_wild, critical_in_production,
  high_severity_direct, SuppressionReason, dev_only_dependency, transitive_not_direct,
  below_severity_threshold, ignored_by_rule, Score, Dependency, Vulnerability, is_malicious,
  cve_ids, MatchDecision,
}
use weedout.Versions.Ranges.{Pep440}

pub record IsCoherent (b : MatchDecision) : Type 0 where
  pub alerted :
      b.verdict ≡ actionable → (is_some b.actionable_reason ≡ true) × (b.suppression_reason ≡ none)
  pub filed :
      b.verdict ≡ suppressed
      → (is_some b.suppression_reason ≡ true)
        × (b.actionable_reason ≡ none)
        × (b.ignore_overridden ≡ false)
  pub outside :
      b.verdict ≡ not_affected
      → (b.actionable_reason ≡ none) × (b.suppression_reason ≡ none) × (b.fixed_version ≡ none)

-- A decision that no step of the ladder has touched
record IsBlank (b : MatchDecision) : Type 0 where
  no_reason : b.actionable_reason ≡ none
  no_suppression : b.suppression_reason ≡ none
  not_overridden : b.ignore_overridden ≡ false
  undecided : b.verdict ≡ suppressed

suppress-IsCoherent :
    {b : MatchDecision} (r : SuppressionReason) → IsBlank b → IsCoherent (suppress b r)
suppress-IsCoherent r h = record {
  alerted = λ e. cc (h.undecided, e);
  filed = λ e. (refl, h.no_reason, h.not_overridden);
  outside = λ e. cc (h.undecided, e);
}

alert-IsCoherent : {b : MatchDecision} (r : ActionableReason) → IsBlank b → IsCoherent (alert b r)
alert-IsCoherent r h = record {
  alerted = λ e. (refl, h.no_suppression);
  filed = λ e. cc e;
  outside = λ e. cc e;
}

override-IsCoherent :
    {b : MatchDecision} (r : ActionableReason) (i : Bool) → IsBlank b → IsCoherent (override b r i)
override-IsCoherent r i h = record {
  alerted = λ e. (refl, h.no_suppression);
  filed = λ e. cc e;
  outside = λ e. cc e;
}

if-IsCoherent :
    {x y : MatchDecision} (c : Bool) → IsCoherent x → IsCoherent y → IsCoherent (if c then x else y)
if-IsCoherent true hx hy = hx
if-IsCoherent false hx hy = hy

by_severity-IsCoherent :
    (policy : MatchPolicy) {b : MatchDecision} (s : Severity) (r : Reachability)
    → IsBlank b
    → IsCoherent (by_severity policy b s r)
unfolding by_severity
by_severity-IsCoherent policy s r h =
    if-IsCoherent (severity_ge s (threshold_for policy r))
      (alert-IsCoherent
        (if is_direct r && not (is_critical s)
          then high_severity_direct
          else critical_in_production)
        h)
      (if-IsCoherent (is_transitive r && severity_ge s policy.direct_threshold)
        (suppress-IsCoherent transitive_not_direct h)
        (suppress-IsCoherent below_severity_threshold h))

triage_unlisted-IsCoherent :
    (policy : MatchPolicy) (d : Dependency) (v : Vulnerability) {b : MatchDecision}
    → IsBlank b
    → IsCoherent (triage_unlisted policy d v b)
unfolding triage_unlisted
triage_unlisted-IsCoherent policy d v {b} h =
    if-IsCoherent (ignores policy v d) (suppress-IsCoherent ignored_by_rule h) (
      if-IsCoherent (epss_gate policy.epss_threshold b.epss_score)
        (alert-IsCoherent likely_to_be_exploited h)
        (if-IsCoherent (dev_filtered policy v.severity d.reachability)
          (suppress-IsCoherent dev_only_dependency h)
          (by_severity-IsCoherent policy v.severity d.reachability h)))

triage_affected-IsCoherent :
    (policy : MatchPolicy) (d : Dependency) (v : Vulnerability) (kev : Bool) {b : MatchDecision}
    → IsBlank b
    → IsCoherent (triage_affected policy d v kev b)
unfolding triage_affected
triage_affected-IsCoherent policy d v kev h =
    if-IsCoherent v.withdrawn (suppress-IsCoherent SuppressionReason.withdrawn h) (
      if-IsCoherent (is_malicious v) (override-IsCoherent malicious_package (ignores policy v d) h)
        (if-IsCoherent (kev && policy.always_alert_on_kev)
          (override-IsCoherent exploited_in_wild (ignores policy v d) h)
          (triage_unlisted-IsCoherent policy d v h)))

module _ (pep : Pep440) (d : Dependency) (v : Vulnerability) (kev_index : List Text)
    (policy : MatchPolicy) (epss_index : Text → Option (Score × Score)) where
  -- Whatever the policy, the feeds and the advisory: an alert has its reason and no reason to be
  -- filed; what is filed has its reason, no other, and overrode no rule; and what no range covers has
  -- no reason at all and no fixed version.
  pub triage-IsCoherent : IsCoherent (triage pep d v kev_index policy epss_index)
  triage-IsCoherent = elim (Option-cases (matching_affected pep d v)) [
    | inl e ↦
        rw (triage-uncovered pep d v kev_index policy epss_index e)
          (record { alerted = λ k. cc k; filed = λ k. cc k; outside = λ k. (refl, refl, refl) })
    | inr (a, e) ↦ rw (triage-covered pep d v kev_index policy epss_index a e) (
        triage_affected-IsCoherent policy d v (in_kev kev_index v) (record {
          no_reason = refl;
          no_suppression = refl;
          not_overridden = refl;
          undecided = refl;
        }))
  ]

any_mono :
    {A : Type 0} (p q : A → Bool) (xs : List A)
    → ((x : A) → p x ≡ true → q x ≡ true)
    → any p xs ≡ true
    → any q xs ≡ true
any_mono p q [] f h = cc
any_mono p q (x ∷ xs) f h = ground (arith, f x, any_mono p q xs f)

abbrev pub with_rules : MatchPolicy → List Text → List Text → MatchPolicy
with_rules policy ids packages = record policy {
  ignored_ids = ids ++ policy.ignored_ids;
  ignored_packages = packages ++ policy.ignored_packages;
}

or_right : (a b : Bool) → b ≡ true → (a || b) ≡ true
or_right a b h = ground arith

ignores_id_mono :
    (policy : MatchPolicy) (ids packages : List Text) (v : Vulnerability)
    → ignores_id policy v ≡ true
    → ignores_id (with_rules policy ids packages) v ≡ true
unfolding ignores_id
ignores_id_mono policy ids packages v h =
    any_mono (λ a. member (upper a) policy.ignored_ids)
      (λ a. member (upper a) (ids ++ policy.ignored_ids)) (v.id ∷ (v.aliases ++ cve_ids v))
      (λ a m. any-append (text_eq (upper a)) ids policy.ignored_ids ∙ or_right _ _ m) h

ignores_package_mono :
    (policy : MatchPolicy) (ids packages : List Text) (d : Dependency)
    → ignores_package policy d ≡ true
    → ignores_package (with_rules policy ids packages) d ≡ true
unfolding ignores_package
ignores_package_mono policy ids packages d h =
    any-append (λ p. glob_match (translate p) (lower (strip d.name))) packages
      policy.ignored_packages
    ∙ or_right _ _ h

ignores_mono :
    (policy : MatchPolicy) (ids packages : List Text) (v : Vulnerability) (d : Dependency)
    → ignores policy v d ≡ true
    → ignores (with_rules policy ids packages) v d ≡ true
unfolding ignores
ignores_mono policy ids packages v d h =
    ground
      (arith, ignores_id_mono policy ids packages v, ignores_package_mono policy ids packages d)

and_right : (a b : Bool) → (a && b) ≡ true → b ≡ true
and_right a b h = ground arith

-- The part of `alerts` that ignore rules have a say in
silence_only :
    (w m k i i' g r : Bool)
    → (i ≡ true → i' ≡ true)
    → (not w && (m || k || not i' && (g || r))) ≡ true
    → (not w && (m || k || not i && (g || r))) ≡ true
silence_only true m k i i' g r f h = cc
silence_only false true k i i' g r f h = refl
silence_only false false true i i' g r f h = refl
silence_only false false false false i' g r f h = and_right _ _ h
silence_only false false false true i' g r f h = cc (f refl, h)

module _ (pep : Pep440) (d : Dependency) (v : Vulnerability) (kev_index : List Text)
    (policy : MatchPolicy) (epss_index : Text → Option (Score × Score)) where
  -- More ignore rules only silence: what is an alert with rules added to a policy is an alert without
  -- them.
  pub triage_rules_silence :
      (ids packages : List Text)
      → alerting (triage pep d v kev_index (with_rules policy ids packages) epss_index) ≡ true
      → alerting (triage pep d v kev_index policy epss_index) ≡ true
  unfolding dev_filtered threshold_for
  triage_rules_silence ids packages k =
      let p' = with_rules policy ids packages in
      let found =
        and_cases (is_some (matching_affected pep d v)) _
          (sym (triage-alerts pep d v kev_index p' epss_index) ∙ k) in
      triage-alerts pep d v kev_index policy epss_index
      ∙ rw found.0 (
          silence_only v.withdrawn (is_malicious v)
            (in_kev kev_index v && policy.always_alert_on_kev) (ignores policy v d) (ignores p' v d)
            (epss_gate policy.epss_threshold (best_score pep d v kev_index policy epss_index))
            (not (dev_filtered policy v.severity d.reachability)
              && severity_ge v.severity (threshold_for policy d.reachability))
            (ignores_mono policy ids packages v d) found.1)
