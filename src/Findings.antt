-- ===== src/Findings.antt =====
-- `_reconcile_matches` of app/services/scan_service.py: the findings of one manifest, merged with a scan.
-- A row stands for the object that the session holds, and its identity, which the table keeps unique, for
-- the reference to it.
pub mod Life
pub mod Status
pub mod Digest
pub mod Again
pub mod Series
use weedout.Base.{
  ℕ, ◌+◌, Bool, true, false, not, ◌&&◌, ◌||◌, Option, none, some, List, [], ◌∷◌, ◌++◌,
  if◌then◌else◌, take, any,
}
use weedout.Base.Maybe.{map_option}
use weedout.Base.Text.{Text, text_eq}
use weedout.Matching.Scan.{count}
use weedout.Types.{
  Ecosystem, Reachability, Severity, Verdict, actionable, suppressed, ActionableReason,
  SuppressionReason, Score, AutomatedReachability, ReachabilityEvidence, MatchDecision, ScanResult,
}

pub data AlertStatus : Type 0 where
  opened filtered dismissed resolved : AlertStatus

abbrev pub status_is_open : AlertStatus → Bool
status_is_open opened = true
status_is_open _ = false

abbrev pub status_is_dismissed : AlertStatus → Bool
status_is_dismissed dismissed = true
status_is_dismissed _ = false

abbrev pub status_is_resolved : AlertStatus → Bool
status_is_resolved resolved = true
status_is_resolved _ = false

-- `existing.status in (AlertStatus.RESOLVED, AlertStatus.FILTERED)`
abbrev pub can_reopen : AlertStatus → Bool
can_reopen resolved = true
can_reopen filtered = true
can_reopen _ = false

abbrev pub verdict_is_actionable : Verdict → Bool
verdict_is_actionable actionable = true
verdict_is_actionable _ = false

abbrev pub verdict_is_suppressed : Verdict → Bool
verdict_is_suppressed suppressed = true
verdict_is_suppressed _ = false

-- What a scan writes anew each time
pub record Assessment : Type 0 where
  pub verdict : Verdict
  pub severity : Severity
  pub is_kev : Bool
  pub fixed_version : Option Text
  pub actionable_reason : Option ActionableReason
  pub suppression_reason : Option SuppressionReason
  pub reachability : Reachability
  pub automated_reachability : AutomatedReachability
  pub reachability_evidence : List ReachabilityEvidence
  pub depth : ℕ
  pub via : List Text
  pub ignore_overridden : Bool
  pub epss_score : Option Score
  pub epss_percentile : Option Score

pub record CveMatch : Type 0 where
  pub target_id : ℕ
  pub manifest_id : ℕ
  pub vulnerability_id : Text
  pub ecosystem : Ecosystem
  pub package_name : Text
  pub package_version : Text
  pub version_spec : Text
  pub version_exact : Bool
  pub assessment : Assessment
  pub status : AlertStatus
  pub first_seen_at : ℕ
  pub last_seen_at : ℕ
  pub dismissed_at : Option ℕ
  pub dismiss_note : Option Text
  pub resolved_at : Option ℕ
  pub notified_at : Option ℕ

abbrev pub Identity : Type 0
Identity = Text × Text × Text

unfoldable pub same_identity : Identity → Identity → Bool
unfolding text_eq
same_identity a b = text_eq a.0 b.0 && text_eq a.1 b.1 && text_eq a.2 b.2

abbrev pub row_identity : CveMatch → Identity
row_identity row = (row.package_name, row.package_version, row.vulnerability_id)

abbrev pub decision_identity : MatchDecision → Identity
decision_identity d = (d.dependency.name, d.dependency.version, d.vulnerability.id)

abbrev pub assess : MatchDecision → Assessment
assess d = record {
  verdict = d.verdict;
  severity = d.severity;
  is_kev = d.kev;
  fixed_version = d.fixed_version;
  actionable_reason = d.actionable_reason;
  suppression_reason = d.suppression_reason;
  reachability = d.dependency.reachability;
  automated_reachability = d.dependency.automated_reachability;
  reachability_evidence = d.dependency.reachability_evidence;
  depth = d.dependency.depth;
  via = d.dependency.via;
  ignore_overridden = d.ignore_overridden;
  epss_score = d.epss_score;
  epss_percentile = d.epss_percentile;
}

-- The row of a finding that is not stored yet
unfoldable pub new_match : (target_id manifest_id now : ℕ) → MatchDecision → CveMatch
new_match target_id manifest_id now d = record {
  target_id = target_id;
  manifest_id = manifest_id;
  vulnerability_id = d.vulnerability.id;
  ecosystem = d.dependency.ecosystem;
  package_name = d.dependency.name;
  package_version = d.dependency.version;
  version_spec = take 200 d.dependency.version_spec;
  version_exact = d.dependency.version_exact;
  assessment = assess d;
  status = if verdict_is_actionable d.verdict then opened else filtered;
  first_seen_at = now;
  last_seen_at = now;
  dismissed_at = none;
  dismiss_note = none;
  resolved_at = none;
  notified_at = none;
}

-- The status after a match, with the times that go with it
unfoldable pub restate : Verdict → CveMatch → CveMatch
restate v row =
    if verdict_is_suppressed v
    then record row {
      status = if status_is_dismissed row.status then row.status else filtered;
      resolved_at = none;
    }
    else if can_reopen row.status
    then record row { status = opened; resolved_at = none; notified_at = none }
    else row

-- A row that a scan has matched again, and whether it is news
unfoldable pub revisit : (now : ℕ) → MatchDecision → CveMatch → CveMatch × Bool
unfolding restate
revisit now d existing =
    let was_suppressed = verdict_is_suppressed existing.assessment.verdict in
    let was_resolved = status_is_resolved existing.status in
    let row = restate d.verdict (record existing { last_seen_at = now; assessment = assess d }) in
    if (was_suppressed || was_resolved)
      && verdict_is_actionable d.verdict
      && status_is_open row.status
    then (record row { notified_at = none }, true)
    else (row, false)

-- `by_identity.get(identity)`, and the row's object written
unfoldable pub revisit_stored :
    (now : ℕ) → MatchDecision → List CveMatch → Option (List CveMatch × Bool)
unfolding revisit same_identity
revisit_stored now d [] = none
revisit_stored now d (row ∷ rows) =
    let rest = map_option (λ r. (row ∷ r.0, r.1)) (revisit_stored now d rows) in
    if same_identity (decision_identity d) (row_identity row)
    then (let (visited, news) = revisit now d row in some (visited ∷ rows, news))
    else rest

-- The loop's variables: the rows of `by_identity`, those added, `seen` and `new_actionable`
pub record Merge : Type 0 where
  pub stored : List CveMatch
  pub added : List CveMatch
  pub seen : List Identity
  pub new_actionable : List Identity

abbrev pub add_news : Bool → Identity → List Identity → List Identity
add_news news i is = if news then is ++ i ∷ [] else is

module _ (target_id manifest_id now : ℕ) where
  -- One turn of the loop, given the row that `by_identity` has
  abbrev pub absorb_into : MatchDecision → Merge → Option (List CveMatch × Bool) → Merge
  absorb_into d s none =
      let i = decision_identity d in
      record s {
        added = s.added ++ new_match target_id manifest_id now d ∷ [];
        seen = i ∷ s.seen;
        new_actionable = add_news (verdict_is_actionable d.verdict) i s.new_actionable;
      }
  absorb_into d s (some r) =
      let i = decision_identity d in
      record s { stored = r.0; seen = i ∷ s.seen; new_actionable = add_news r.1 i s.new_actionable }

  unfoldable pub absorb : MatchDecision → Merge → Merge
  unfolding revisit_stored new_match
  absorb d s = absorb_into d s (revisit_stored now d s.stored)

  unfoldable pub absorb_all : List MatchDecision → Merge → Merge
  unfolding absorb
  absorb_all [] s = s
  absorb_all (d ∷ ds) s = absorb_all ds (absorb d s)

abbrev pub is_gone : List Identity → CveMatch → Bool
is_gone seen row =
    not (any (same_identity (row_identity row)) seen || status_is_resolved row.status)

-- The last loop: what was stored and not seen is resolved.
unfoldable pub resolve_unseen : (now : ℕ) → List Identity → List CveMatch → List CveMatch × ℕ
unfolding same_identity
resolve_unseen now seen [] = ([], 0)
resolve_unseen now seen (row ∷ rows) =
    let (rest, count) = resolve_unseen now seen rows in
    let gone = is_gone seen row in
    (
      (if gone then record row { status = resolved; resolved_at = some now } else row) ∷ rest,
      (if gone then 1 else 0) + count,
    )

pub record Reconciled : Type 0 where
  pub rows : List CveMatch
  pub new_actionable : List Identity
  pub resolved_count : ℕ

unfoldable pub reconcile_matches :
    (target_id manifest_id now : ℕ) → List CveMatch → ScanResult → Reconciled
unfolding absorb_all resolve_unseen
reconcile_matches target_id manifest_id now stored result =
    let s =
      absorb_all target_id manifest_id now (result.actionable ++ result.suppressed)
        (record { stored = stored; added = []; seen = []; new_actionable = [] }) in
    let (rows, count) = resolve_unseen now s.seen s.stored in
    record { rows = rows ++ s.added; new_actionable = s.new_actionable; resolved_count = count }
