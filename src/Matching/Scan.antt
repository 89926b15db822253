-- ===== src/Matching/Scan.antt =====
-- `triage_all` of app/core/matching.py, and the order of its results.
pub mod Laws
use Prim.Native.Nat.{Ordering, compare}
use weedout.Base.{
  ℕ, ◌+◌, ◌-◌, Bool, true, false, Option, List, [], ◌∷◌, ◌++◌, map, ◌==◌, if◌then◌else◌, length,
  keep,
}
use weedout.Base.Order.{then_by}
use weedout.Base.Text.{Text, text_compare, lower}
use weedout.Matching.Policy.{MatchPolicy, within_depth}
use weedout.Matching.Triage.{triage}
use weedout.Types.{
  rank, actionable, suppressed, Score, Dependency, key, Vulnerability, MatchDecision, ScanResult,
}
use weedout.Versions.Ranges.{Pep440, is_lt}

-- The tuples of `_urgency_key`, compared: exploited first, then the higher severity, then the name
-- and the identifier.
abbrev kev_rank : MatchDecision → ℕ
kev_rank d = if d.kev then 0 else 1

unfoldable pub compare_urgency : MatchDecision → MatchDecision → Ordering
unfolding lower
compare_urgency c d = then_by (compare (kev_rank c) (kev_rank d)) (
    then_by (compare (rank d.severity) (rank c.severity)) (
      then_by (text_compare (lower c.dependency.name) (lower d.dependency.name))
        (text_compare c.vulnerability.id d.vulnerability.id)))

insert_by_urgency : MatchDecision → List MatchDecision → List MatchDecision
unfolding compare_urgency
insert_by_urgency d [] = d ∷ []
insert_by_urgency d (c ∷ cs) =
    let later = c ∷ insert_by_urgency d cs in
    if is_lt (compare_urgency c d) then later else d ∷ c ∷ cs

-- `sorted(…, key=_urgency_key)`, which keeps the order of equal keys
unfoldable pub sort_by_urgency : List MatchDecision → List MatchDecision
unfolding insert_by_urgency
sort_by_urgency [] = []
sort_by_urgency (d ∷ ds) = insert_by_urgency d (sort_by_urgency ds)

abbrev pub is_actionable : MatchDecision → Bool
is_actionable d = elim d.verdict [ actionable ↦ true | _ ↦ false ]

abbrev pub is_suppressed : MatchDecision → Bool
is_suppressed d = elim d.verdict [ suppressed ↦ true | _ ↦ false ]

module _ (pep : Pep440) (candidates : Text × Text × Text → List Vulnerability)
    (kev_index : List Text) (policy : MatchPolicy)
    (epss_index : Text → Option (Score × Score)) where
  -- The inner loop, for one dependency
  abbrev pub decisions_for : Dependency → List MatchDecision
  decisions_for d = map (λ v. triage pep d v kev_index policy epss_index) (candidates (key d))

  -- The outer loop: the decisions, and the number of dependencies that were out of reach
  unfoldable pub triage_each : List Dependency → List MatchDecision × ℕ
  unfolding within_depth triage
  triage_each [] = ([], 0)
  triage_each (d ∷ ds) =
      let (decisions, unreached) = triage_each ds in
      if within_depth policy d
      then (decisions_for d ++ decisions, unreached)
      else (decisions, unreached + 1)

  -- `triage_all`
  unfoldable pub triage_all : List Dependency → List Text → ScanResult
  unfolding triage_each sort_by_urgency
  triage_all ds problems =
      let (decisions, unreached) = triage_each ds in
      record {
        actionable = sort_by_urgency (keep is_actionable decisions);
        suppressed = sort_by_urgency (keep is_suppressed decisions);
        dependencies_scanned = length ds - unreached;
        errors = problems;
        unreached_by_depth = unreached;
      }

unfoldable pub count : (MatchDecision → Bool) → List MatchDecision → ℕ
count p [] = 0
count p (d ∷ ds) = count p ds + (if p d then 1 else 0)

-- `summarize`
pub record Summary : Type 0 where
  pub dependencies : ℕ
  pub actionable_count : ℕ
  pub suppressed_count : ℕ
  pub exploited : ℕ
  pub critical_count : ℕ

unfoldable pub summarize : ScanResult → Summary
unfolding count
summarize r = record {
  dependencies = r.dependencies_scanned;
  actionable_count = length r.actionable;
  suppressed_count = length r.suppressed;
  exploited = count (λ d. d.kev) r.actionable;
  critical_count = count (λ d. rank d.severity == 4) r.actionable;
}
