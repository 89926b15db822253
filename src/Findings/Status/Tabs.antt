-- ===== src/Findings/Status/Tabs.antt =====
-- Which tab of app/services/finding_service.py shows a finding after a scan.
use weedout.Base.{
  ℕ, ◌≡◌, refl, sym, ap, ◌∙◌, subst, Bool, true, Option, none, some, List, arith, leb, and_cases,
  how_many, In,
}
use weedout.Base.Maybe.{map_option}
use weedout.Findings.{
  AlertStatus, opened, filtered, dismissed, resolved, verdict_is_actionable, verdict_is_suppressed,
  CveMatch, Identity, reconcile_matches,
}
use weedout.Findings.Life.{Finding, view, unmatched, quieted, raised, after_scan}
use weedout.Findings.Life.Refinement.{reconcile_matches-after_scan}
use weedout.Findings.Life.Rows.{row_at, verdict_is_decided}
use weedout.Findings.Life.Traces.{life_at, verdict_at}
use weedout.Findings.Series.{all_of, IsSound, verdict_at_decided}
use weedout.Findings.Status.{
  FindingShow, open_tab, filtered_tab, dismissed_tab, resolved_tab, is_shown,
}
use weedout.Findings.Status.Lists.{
  is_recent, capped_finding_limit, is_selected, list_findings, list_findings-In,
}
use weedout.Types.{Verdict, actionable, suppressed, not_affected, ScanResult}

-- The finding is shown in one tab, and in no other.
abbrev pub IsShownOnce : Finding → Type 0
IsShownOnce f =
    (tab : FindingShow) × (is_shown tab f ≡ true)
    × ((other : FindingShow) → is_shown other f ≡ true → other ≡ tab)

-- An open finding is actionable, and a filtered one suppressed.
abbrev agrees : AlertStatus → Verdict → Bool
agrees opened v = verdict_is_actionable v
agrees filtered v = verdict_is_suppressed v
agrees _ v = true

agrees-IsShownOnce : (f : Finding) → agrees f.status f.verdict ≡ true → IsShownOnce f
unfolding is_shown
agrees-IsShownOnce f h = go f.status f.verdict refl refl h
  where
    go :
        (s : AlertStatus) (v : Verdict)
        → f.status ≡ s
        → f.verdict ≡ v
        → agrees s v ≡ true
        → IsShownOnce f
    go opened v e k h = (open_tab, ground (arith, e, k, h), λ other x. ground (arith, e, k, x))
    go filtered v e k h =
        (filtered_tab, ground (arith, e, k, h), λ other x. ground (arith, e, k, x))
    go dismissed v e k h = (dismissed_tab, rw e refl, λ other x. ground (arith, e, x))
    go resolved v e k h = (resolved_tab, rw e refl, λ other x. ground (arith, e, x))

abbrev Agrees : Option Finding → Type 0
Agrees none = Unit
Agrees (some f) = agrees f.status f.verdict ≡ true

after_scan-Agrees :
    (now : ℕ) (v : Option Verdict) (f : Option Finding)
    → ((w : Verdict) → v ≡ some w → verdict_is_decided w ≡ true)
    → Agrees (after_scan now v f)
unfolding after_scan
after_scan-Agrees now none none h = tt
after_scan-Agrees now none (some f) h = go f.status refl
  where
    go : (s : AlertStatus) → f.status ≡ s → Agrees (some (unmatched now f))
    go s e = ground (arith, e)
after_scan-Agrees now (some actionable) none h = refl
after_scan-Agrees now (some suppressed) none h = refl
after_scan-Agrees now (some not_affected) f h = ground (arith, h not_affected refl)
after_scan-Agrees now (some actionable) (some f) h = go f.status refl
  where
    go : (s : AlertStatus) → f.status ≡ s → Agrees (some (raised f))
    go s e = ground (arith, e)
after_scan-Agrees now (some suppressed) (some f) h = go f.status refl
  where
    go : (s : AlertStatus) → f.status ≡ s → Agrees (some (quieted f))
    go s e = ground (arith, e)

reconcile_matches-IsShownOnce :
    (target_id manifest_id now : ℕ) (stored : List CveMatch) (result : ScanResult) (i : Identity)
    (f : Finding)
    → IsSound result
    → life_at i (reconcile_matches target_id manifest_id now stored result).rows ≡ some f
    → IsShownOnce f
reconcile_matches-IsShownOnce target_id manifest_id now stored result i f (apart, decided) e =
    agrees-IsShownOnce f (
      subst Agrees
        (sym
            (reconcile_matches-after_scan target_id manifest_id now stored result i apart decided).0
          ∙ e)
        (after_scan-Agrees now (verdict_at i (all_of result)) (life_at i stored)
          (verdict_at_decided i result decided)))

-- The row has one tab of its own. At any later time, no other tab lists it, and its own tab lists it where it
-- is recent, if not more findings than the cap pass that tab's filters.
abbrev pub IsListedOnce : CveMatch → Type 0
IsListedOnce row =
    (tab : FindingShow) × ((history_days now limit : ℕ) (other : FindingShow)
        (table : List CveMatch)
      → In row (list_findings history_days now other limit table)
      → (other ≡ tab) × (is_recent history_days now tab row ≡ true))
    × ((history_days now limit : ℕ) (table : List CveMatch)
        → In row table
        → leb (how_many (is_selected history_days now tab) table) (capped_finding_limit limit)
          ≡ true
        → is_recent history_days now tab row ≡ true
        → In row (list_findings history_days now tab limit table))

-- After a sound scan, whatever was stored before, every finding of the manifest has one tab of its own: the
-- lists of the other tabs never hold it, and the list of its own holds it, as long as it stays as it is, where
-- it is among the user's findings, is recent enough for the plan's history window, and no more findings
-- pass the filters of the tab than the cap of the list. A dismissed or resolved finding that the window
-- leaves out is in no list.
pub reconcile_matches-IsListedOnce :
    (target_id manifest_id now : ℕ) (stored : List CveMatch) (result : ScanResult) (i : Identity)
    (row : CveMatch)
    → IsSound result
    → row_at i (reconcile_matches target_id manifest_id now stored result).rows ≡ some row
    → IsListedOnce row
reconcile_matches-IsListedOnce target_id manifest_id now stored result i row sound e = go (
    reconcile_matches-IsShownOnce target_id manifest_id now stored result i (view row) sound
      (ap (map_option view) e))
  where
    selected :
        (days at : ℕ) (tab other : FindingShow)
        → other ≡ tab
        → is_selected days at other row ≡ true
        → is_recent days at tab row ≡ true
    selected days at tab other k s =
        subst (λ t. is_recent days at t row ≡ true) k
          (and_cases (is_shown other (view row)) (is_recent days at other row) s).1

    go : IsShownOnce (view row) → IsListedOnce row
    go (tab, shown, once) = (
      tab,
      λ days at limit other table m.
          let s = (list_findings-In days at other limit table row).0 m in
          let k =
            once other
              ((and_cases (is_shown other (view row)) (is_recent days at other row) s).0) in
          (k, selected days at tab other k s),
      λ days at limit table m few r.
          (list_findings-In days at tab limit table row).1 few m (rw (shown, r) refl),
    )
