-- ===== src/Matching/Triage/Ladder.antt =====
-- The rules that the filter of app/core/matching.py promises.

-- The README's table: exploited or malicious; critical and shipped; high and direct.
use weedout.Base.{
  ◌≤◌, ◌≡◌, refl, sym, ap, ◌∙◌, Bool, true, false, not, ◌&&◌, ◌||◌, Option, none, some, List, [],
  ◌∷◌, ◌++◌, arith, leb, if◌then◌else◌, is_some, and_cases, any,
}
use weedout.Base.Text.{Text}
use weedout.Matching.Policy.{
  MatchPolicy, default_policy, ignores_id, ignores_package, ignores, threshold_for,
}
use weedout.Matching.Triage.{
  matching_affected, suppress, override, epss_gate, dev_filtered, is_direct, triage_unlisted,
  triage_affected, in_kev, triage,
}
use weedout.Matching.Triage.Verdict.{alerting, alerts, best_score, triage-alerts, triage-covered}
use weedout.Types.{
  Reachability, runtime_direct, runtime_transitive, dev_only, ships_to_production, Severity, rank,
  severity_ge, malicious_package, exploited_in_wild, SuppressionReason, Score, Dependency,
  AffectedPackage, Vulnerability, is_malicious, cve_ids, MatchDecision,
}
use weedout.Versions.Ranges.{Pep440}

abbrev pub clears_bar : Vulnerability → Reachability → Bool → Bool
clears_bar v r kev =
    is_malicious v
    || kev
    || leb 4 (rank v.severity) && ships_to_production r
    || leb 3 (rank v.severity) && is_direct r

any-never : {A : Type 0} (xs : List A) → any (λ x. false) xs ≡ false
any-never [] = refl
any-never (x ∷ xs) = any-never xs

ignores-default : (v : Vulnerability) (d : Dependency) → ignores default_policy v d ≡ false
unfolding ignores ignores_id ignores_package
ignores-default v d = rw (any-never (v.id ∷ (v.aliases ++ cve_ids v)))

alerts-default :
    (d : Dependency) (v : Vulnerability) (kev : Bool) (score : Option Score)
    → alerts default_policy d v kev score ≡ (not v.withdrawn && clears_bar v d.reachability kev)
unfolding epss_gate dev_filtered threshold_for is_direct
alerts-default d v kev score =
    rw (ignores-default v d) (go v.withdrawn (is_malicious v) kev v.severity d.reachability)
  where
    go :
        (w m k : Bool) (s : Severity) (r : Reachability)
        → (not w
            && (m
                || k && true
                || not false
                  && (epss_gate none score
                      || not (dev_filtered default_policy s r)
                        && severity_ge s (threshold_for default_policy r))))
          ≡ (not w
              && (m
                  || k
                  || leb 4 (rank s) && ships_to_production r
                  || leb 3 (rank s) && is_direct r))
    go true m k s r = refl
    go false true k s r = refl
    go false false true s r = refl
    go false false false s runtime_direct = ground arith
    go false false false s runtime_transitive = ground arith
    go false false false s dev_only = ground arith

module _ (pep : Pep440) (d : Dependency) (v : Vulnerability) (kev_index : List Text)
    (epss_index : Text → Option (Score × Score)) where
  -- Under the default policy a covered version raises an alert exactly where the advisory is not
  -- withdrawn, and it is malicious, or exploited, or critical in what ships, or at least high in a
  -- direct dependency.
  pub triage-default : alerting (triage pep d v kev_index default_policy epss_index) ≡ (
      is_some (matching_affected pep d v)
      && (not v.withdrawn && clears_bar v d.reachability (in_kev kev_index v)))
  triage-default =
      triage-alerts pep d v kev_index default_policy epss_index
      ∙ ap (λ b. is_some (matching_affected pep d v) && b)
          (alerts-default d v (in_kev kev_index v) _)

module _ (policy : MatchPolicy) (d : Dependency) (v : Vulnerability) (kev : Bool)
    (b : MatchDecision) where
  triage_affected-unsilenceable :
      v.withdrawn ≡ false
      → (is_malicious v || kev && policy.always_alert_on_kev) ≡ true
      → (alerting (triage_affected policy d v kev b) ≡ true)
        × ((triage_affected policy d v kev b).ignore_overridden ≡ ignores policy v d)
  unfolding triage_affected
  triage_affected-unsilenceable w h =
      go v.withdrawn (is_malicious v) (kev && policy.always_alert_on_kev) w h
    where
      chosen : Bool → Bool → Bool → MatchDecision
      chosen w m k =
          if w
          then suppress b SuppressionReason.withdrawn
          else if m
          then override b malicious_package (ignores policy v d)
          else if k
          then override b exploited_in_wild (ignores policy v d)
          else triage_unlisted policy d v b

      go :
          (w m k : Bool)
          → w ≡ false
          → (m || k) ≡ true
          → (alerting (chosen w m k) ≡ true)
            × ((chosen w m k).ignore_overridden ≡ ignores policy v d)
      go true m k w h = cc
      go false true k w h = (refl, refl)
      go false false true w h = (refl, refl)
      go false false false w h = cc

module _ (pep : Pep440) (d : Dependency) (v : Vulnerability) (kev_index : List Text)
    (policy : MatchPolicy) (epss_index : Text → Option (Score × Score)) where
  -- What no rule of a project can silence: an advisory that covers the version, is not withdrawn and
  -- names malware, or a CVE in the exploited catalog where the policy listens to it, is an alert, and
  -- the alert says whether an ignore rule was set aside.
  pub triage_unsilenceable :
      (a : AffectedPackage)
      → matching_affected pep d v ≡ some a
      → v.withdrawn ≡ false
      → (is_malicious v || in_kev kev_index v && policy.always_alert_on_kev) ≡ true
      → (alerting (triage pep d v kev_index policy epss_index) ≡ true)
        × ((triage pep d v kev_index policy epss_index).ignore_overridden ≡ ignores policy v d)
  triage_unsilenceable a e w h =
      rw (triage-covered pep d v kev_index policy epss_index a e)
        (triage_affected-unsilenceable policy d v (in_kev kev_index v) _ w h)

  -- A withdrawn advisory is never an alert, whatever else holds of it.
  pub triage_withdrawn :
      v.withdrawn ≡ true → alerting (triage pep d v kev_index policy epss_index) ≡ false
  triage_withdrawn w =
      triage-alerts pep d v kev_index policy epss_index
      ∙ go (is_some (matching_affected pep d v)) v.withdrawn _ w
    where
      go : (c w r : Bool) → w ≡ true → (c && (not w && r)) ≡ false
      go true true r w = refl
      go true false r w = cc
      go false w r e = refl

-- Raising the severity in `alerts` does not take an alert away.
alerts_mono :
    (w m k i g f o f' o' : Bool)
    → (f ≡ false → f' ≡ false)
    → (o ≡ true → o' ≡ true)
    → (not w && (m || k || not i && (g || not f && o))) ≡ true
    → (not w && (m || k || not i && (g || not f' && o'))) ≡ true
alerts_mono true m k i g f o f' o' hf ho h = cc
alerts_mono false true k i g f o f' o' hf ho h = refl
alerts_mono false false true i g f o f' o' hf ho h = refl
alerts_mono false false false true g f o f' o' hf ho h = cc
alerts_mono false false false false true f o f' o' hf ho h = refl
alerts_mono false false false false false true o f' o' hf ho h = cc
alerts_mono false false false false false false true f' o' hf ho h = rw (hf refl) (ho refl)
alerts_mono false false false false false false false f' o' hf ho h = cc

abbrev pub with_severity : Vulnerability → Severity → Vulnerability
with_severity v s = record v { severity = s }

severity_ge_mono :
    (s s' t : Severity) → rank s ≤ rank s' → severity_ge s t ≡ true → severity_ge s' t ≡ true
severity_ge_mono s s' t h k = ground arith

dev_filtered_mono :
    (policy : MatchPolicy) (s s' : Severity) (r : Reachability)
    → rank s ≤ rank s'
    → dev_filtered policy s r ≡ false
    → dev_filtered policy s' r ≡ false
unfolding dev_filtered
dev_filtered_mono policy s s' r h k = ground arith

module _ (pep : Pep440) (d : Dependency) (v : Vulnerability) (kev_index : List Text)
    (policy : MatchPolicy) (epss_index : Text → Option (Score × Score)) where
  -- Triage is monotone in severity: what is an alert stays one when the advisory's severity is raised
  -- and nothing else changes.
  pub triage_severity_mono :
      (s' : Severity)
      → rank v.severity ≤ rank s'
      → alerting (triage pep d v kev_index policy epss_index) ≡ true
      → alerting (triage pep d (with_severity v s') kev_index policy epss_index) ≡ true
  unfolding is_malicious in_kev ignores ignores_id matching_affected
  triage_severity_mono s' h k =
      let found =
        and_cases (is_some (matching_affected pep d v)) _
          (sym (triage-alerts pep d v kev_index policy epss_index) ∙ k) in
      triage-alerts pep d (with_severity v s') kev_index policy epss_index
      ∙ rw (found.0) (
          alerts_mono v.withdrawn (is_malicious v)
            (in_kev kev_index v && policy.always_alert_on_kev) (ignores policy v d)
            (epss_gate policy.epss_threshold (best_score pep d v kev_index policy epss_index))
            (dev_filtered policy v.severity d.reachability)
            (severity_ge v.severity (threshold_for policy d.reachability))
            (dev_filtered policy s' d.reachability)
            (severity_ge s' (threshold_for policy d.reachability))
            (dev_filtered_mono policy v.severity s' d.reachability h)
            (severity_ge_mono v.severity s' (threshold_for policy d.reachability) h) found.1)
