-- ===== src/Rules/Effective/FailingOpen.antt =====
-- What is lost when app/services/rules_service.py discards a file that it cannot read.
use weedout.Base.{◌>>=◌}
use mathlib.Core.Option.{none-ne-some, some-injective}
use mathlib.Core.Path.{ap₂}
use weedout.Base.{
  ℕ, ◌≤◌, ◌≡◌, refl, sym, ◌∙◌, subst, Bool, true, false, not, ◌&&◌, ◌||◌, Option, none, some, List,
  [], ◌∷◌, ◌++◌, arith, is_some, and_cases, any, Result, ok, err, Returns-ok,
}
use weedout.Base.Maybe.{map_option}
use weedout.Base.Text.{Text}
use weedout.Matching.Policy.{
  MatchPolicy, ignores_id, ignores_package, ignores, threshold_for, normalise_packages,
  normalise_ids,
}
use weedout.Matching.Triage.{matching_affected, epss_gate, dev_filtered, in_kev, triage}
use weedout.Matching.Triage.Verdict.{alerting, alerts, best_score, triage-alerts}
use weedout.Rules.Effective.{
  Settings, EffectivePolicy, or_else, given, with_depth, profile_policy, layered, effective_policy,
  request_or, read_profile_row, build_policy,
}
use weedout.Rules.Effective.Laws.{no_settings, layered-ignores}
use weedout.Rules.PolicyFile.{PolicyError, ParsedPolicy, empty_policy}
use weedout.Rules.PolicyFile.Document.{failed_policy, Content, Loader, parse_policy}
use weedout.Rules.PolicyFile.Laws.{parse_policy-IsValid}
use weedout.Rules.Profiles.{RuleProfile, ProfileError, ScannedTarget, profile_for_scan}
use weedout.Types.{
  Reachability, runtime_direct, runtime_transitive, dev_only, ships_to_production, Severity, rank,
  severity_lt, severity_ge, Score, Dependency, Vulnerability, is_malicious, unique, cve_ids,
}
use weedout.Versions.Ranges.{Pep440}

-- The policy `q` alerts wherever `p` does: it ignores less, and its thresholds are not higher.
pub record IsNoisier (p q : MatchPolicy) : Type 0 where
  pub ignores_less :
      (v : Vulnerability) (d : Dependency) → ignores q v d ≡ true → ignores p v d ≡ true
  pub direct_lower : rank q.direct_threshold ≤ rank p.direct_threshold
  pub transitive_lower : rank q.transitive_threshold ≤ rank p.transitive_threshold
  pub same_dev : q.dev_threshold ≡ p.dev_threshold
  pub same_switch : q.alert_on_dev_dependencies ≡ p.alert_on_dev_dependencies
  pub same_kev : q.always_alert_on_kev ≡ p.always_alert_on_kev
  pub same_epss : q.epss_threshold ≡ p.epss_threshold

threshold_lower :
    (p q : MatchPolicy) (r : Reachability)
    → IsNoisier p q
    → rank (threshold_for q r) ≤ rank (threshold_for p r)
unfolding threshold_for
threshold_lower p q runtime_direct n = n.direct_lower
threshold_lower p q runtime_transitive n = n.transitive_lower
threshold_lower p q dev_only n = go q.dev_threshold p.dev_threshold n.same_dev
  where
    go :
        (a b : Option Severity)
        → a ≡ b
        → rank (elim a [ none ↦ q.transitive_threshold | some s ↦ s ])
          ≤ rank (elim b [ none ↦ p.transitive_threshold | some s ↦ s ])
    go none none e = n.transitive_lower
    go none (some b) e = absurd (none-ne-some b e)
    go (some a) none e = absurd (none-ne-some a (sym e))
    go (some a) (some b) e = rw (some-injective a b e) (omega arith)

same_dev_filter :
    (p q : MatchPolicy) (s : Severity) (r : Reachability)
    → IsNoisier p q
    → dev_filtered q s r ≡ dev_filtered p s r
unfolding dev_filtered
same_dev_filter p q s r n =
    ap₂
      (λ t b.
        not (ships_to_production r)
        && elim t as (λ _. Bool) [ none ↦ not b | some x ↦ severity_lt s x ])
      n.same_dev n.same_switch

alerts_weaken :
    (w m k k' i i' g g' f f' o o' : Bool)
    → k' ≡ k
    → g' ≡ g
    → f' ≡ f
    → (i' ≡ true → i ≡ true)
    → (o ≡ true → o' ≡ true)
    → (not w && (m || k || not i && (g || not f && o))) ≡ true
    → (not w && (m || k' || not i' && (g' || not f' && o'))) ≡ true
alerts_weaken w m k k' i i' g g' f f' o o' a b c x y h = ground arith

noisier-alerts :
    (p q : MatchPolicy) (d : Dependency) (v : Vulnerability) (kev : Bool) (score : Option Score)
    → IsNoisier p q
    → alerts p d v kev score ≡ true
    → alerts q d v kev score ≡ true
noisier-alerts p q d v kev score n =
    alerts_weaken v.withdrawn (is_malicious v) (kev && p.always_alert_on_kev)
      (kev && q.always_alert_on_kev) (ignores p v d) (ignores q v d)
      (epss_gate p.epss_threshold score) (epss_gate q.epss_threshold score)
      (dev_filtered p v.severity d.reachability) (dev_filtered q v.severity d.reachability)
      (severity_ge v.severity (threshold_for p d.reachability))
      (severity_ge v.severity (threshold_for q d.reachability)) (rw n.same_kev refl)
      (rw n.same_epss refl) (same_dev_filter p q v.severity d.reachability n) (n.ignores_less v d)
      (λ h. ground (arith, threshold_lower p q d.reachability n, h))

any-none : {A : Type 0} (xs : List A) → any (λ x. false) xs ≡ false
any-none [] = refl
any-none (x ∷ xs) = any-none xs

failed_ignores_nothing :
    (policy : MatchPolicy) (e : PolicyError) (v : Vulnerability) (d : Dependency)
    → ignores (layered policy (failed_policy e) no_settings empty_policy) v d ≡ false
unfolding layered ignores ignores_id ignores_package normalise_ids normalise_packages unique
failed_ignores_nothing policy e v d = rw (any-none (v.aliases ++ cve_ids v)) refl

-- The file's floor is not lower than the one that applies without it.
abbrev pub Raises : Severity → Option Severity → Type 0
Raises base none = Unit
Raises base (some s) = rank base ≤ rank s

Raises-given :
    (file : Option Severity) (others : Option Severity) (base : Severity)
    → Raises (given others base) file
    → rank (given others base) ≤ rank (given (or_else file others) base)
Raises-given none others base h = omega arith
Raises-given (some s) others base h = h

-- The same of the layers put together, under one profile
layered_noisier :
    (policy : MatchPolicy) (file : ParsedPolicy) (settings : Settings) (profile : ParsedPolicy)
    (e : PolicyError) (pep : Pep440) (d : Dependency) (v : Vulnerability) (kev_index : List Text)
    (epss_index : Text → Option (Score × Score))
    → file.epss_threshold ≡ none
    → file.dev_threshold ≡ none
    → Raises
        (layered policy (failed_policy e) settings profile).direct_threshold
        file.direct_threshold
    → Raises
        (layered policy (failed_policy e) settings profile).transitive_threshold
        file.transitive_threshold
    → alerting (triage pep d v kev_index (layered policy file settings profile) epss_index) ≡ true
    → alerting
        (triage pep d v kev_index (layered policy (failed_policy e) settings profile) epss_index)
      ≡ true
unfolding layered
layered_noisier policy file settings profile e pep d v kev_index epss_index hp hd rd rt h =
    let found =
      and_cases (is_some (matching_affected pep d v)) _
        (sym (triage-alerts pep d v kev_index kept epss_index) ∙ h) in
    triage-alerts pep d v kev_index discarded epss_index
    ∙ rw (found.0) (
        noisier-alerts kept discarded d v (in_kev kev_index v)
          (best_score pep d v kev_index kept epss_index) noisier found.1)
  where
    kept : MatchPolicy
    kept = layered policy file settings profile

    discarded : MatchPolicy
    discarded = layered policy (failed_policy e) settings profile

    noisier : IsNoisier kept discarded
    noisier = record {
      ignores_less = λ v d k. ground (
        arith,
        layered-ignores policy file settings profile v d,
        layered-ignores policy (failed_policy e) settings profile v d,
        failed_ignores_nothing policy e v d,
        k,
      );
      direct_lower =
          Raises-given file.direct_threshold
            (or_else settings.direct_threshold profile.direct_threshold) policy.direct_threshold rd;
      transitive_lower =
          Raises-given file.transitive_threshold
            (or_else settings.transitive_threshold profile.transitive_threshold)
            policy.transitive_threshold rt;
      same_dev = rw hd refl;
      same_switch = refl;
      same_kev = refl;
      same_epss = rw hp refl;
    }

discarded :
    (loader : Loader) (broken : Content) (e : PolicyError)
    → (parse_policy loader broken).error ≡ some e
    → parse_policy loader broken ≡ failed_policy e
discarded loader broken e h =
    subst
      (λ o. elim o as (λ _. Type 0) [
        | none ↦ Unit
        | some x ↦ parse_policy loader broken ≡ failed_policy x
      ])
      h (parse_policy-IsValid loader broken).1

-- What applies to a scan, given what the file says and the profile
of_profile :
    Loader → Option ℕ → MatchPolicy → Settings → ParsedPolicy → Option RuleProfile → EffectivePolicy
of_profile loader depth base settings parsed p =
    effective_policy depth base parsed settings (map_option (read_profile_row loader) p)

module _ (loader : Loader) (depth : Option ℕ) (base : MatchPolicy) (file : ParsedPolicy)
    (settings : Settings) (e : PolicyError) (pep : Pep440) (d : Dependency) (v : Vulnerability)
    (kev_index : List Text) (epss_index : Text → Option (Score × Score)) where
  -- What is alerted under the file is alerted without it.
  abbrev IsQuieter : EffectivePolicy → EffectivePolicy → Type 0
  IsQuieter under without =
      alerting (triage pep d v kev_index under.policy epss_index) ≡ true
      → alerting (triage pep d v kev_index without.policy epss_index) ≡ true

  abbrev Quieted : Result ProfileError EffectivePolicy → EffectivePolicy → Type 0
  Quieted r without = (under : EffectivePolicy) × (r ≡ ok under) × IsQuieter under without

  profile-Quieted :
      (r : Result ProfileError (Option RuleProfile)) (without : EffectivePolicy)
      → (r >>= λ p. ok (of_profile loader depth base settings (failed_policy e) p)) ≡ ok without
      → file.epss_threshold ≡ none
      → file.dev_threshold ≡ none
      → Raises without.policy.direct_threshold file.direct_threshold
      → Raises without.policy.transitive_threshold file.transitive_threshold
      → Quieted (r >>= λ p. ok (of_profile loader depth base settings file p)) without
  unfolding of_profile effective_policy
  profile-Quieted (err x) without b hp hd rd rt = cc
  profile-Quieted (ok p) without b hp hd rd rt =
      let alike : of_profile loader depth base settings (failed_policy e) p ≡ without =
        Returns-ok (λ x. of_profile loader depth base settings (failed_policy e) p ≡ x)
          (ok (of_profile loader depth base settings (failed_policy e) p)) without refl b in
      let layers = profile_policy (map_option (read_profile_row loader) p) in
      (
        of_profile loader depth base settings file p,
        refl,
        λ h.
            subst (λ w. alerting (triage pep d v kev_index w.policy epss_index) ≡ true) alike
              (layered_noisier (with_depth depth base) file settings layers e pep d v kev_index
                epss_index hp hd
                (subst (λ w. Raises w.policy.direct_threshold file.direct_threshold) (sym alike) rd)
                (subst (λ w. Raises w.policy.transitive_threshold file.transitive_threshold)
                  (sym alike) rt)
                h),
      )

-- Failing open: suppose that a scan runs with a file that cannot be used. With a file in its place that only
-- restrains, it runs as well, and every match that then alerts is also alerted without that file. A file
-- only restrains where it sets no probability and no floor for development dependencies, its other floors
-- are not lower than those that apply without it, and it does not change which profile applies: it names
-- none, or the scan itself asks for one.
pub discarded_file_noisier :
    (loader : Loader) (depth : Option ℕ) (base : MatchPolicy) (file broken : Content)
    (settings : Settings) (rows : List RuleProfile) (target : ScannedTarget)
    (requested : Option Text) (e : PolicyError) (without : EffectivePolicy) (pep : Pep440)
    (d : Dependency) (v : Vulnerability) (kev_index : List Text)
    (epss_index : Text → Option (Score × Score))
    → (parse_policy loader broken).error ≡ some e
    → build_policy loader depth base broken settings rows target requested ≡ ok without
    → request_or requested (parse_policy loader file).profile ≡ request_or requested none
    → (parse_policy loader file).epss_threshold ≡ none
    → (parse_policy loader file).dev_threshold ≡ none
    → Raises without.policy.direct_threshold (parse_policy loader file).direct_threshold
    → Raises without.policy.transitive_threshold (parse_policy loader file).transitive_threshold
    → (under : EffectivePolicy) × (build_policy loader depth base file settings rows target
          requested
        ≡ ok under)
      × (alerting (triage pep d v kev_index under.policy epss_index) ≡ true
          → alerting (triage pep d v kev_index without.policy epss_index) ≡ true)
unfolding build_policy of_profile
discarded_file_noisier loader depth base file broken settings rows target requested e without pep d
      v kev_index epss_index broke b alike hp hd rd rt =
    subst
      (λ n.
        Quieted loader depth base kept settings e pep d v kev_index epss_index
          (profile_for_scan rows target n >>= λ p.
            ok (of_profile loader depth base settings kept p))
          without)
      (sym alike)
      (profile-Quieted loader depth base kept settings e pep d v kev_index epss_index
        (profile_for_scan rows target (request_or requested none)) without
        (subst
          (λ q.
            (profile_for_scan rows target (request_or requested q.profile) >>= λ p.
            ok (of_profile loader depth base settings q p))
            ≡ ok without)
          (discarded loader broken e broke) b)
        hp hd rd rt)
  where
    kept : ParsedPolicy
    kept = parse_policy loader file
