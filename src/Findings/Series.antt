-- ===== src/Findings/Series.antt =====
-- The scans of a manifest one after the other (app/services/scan_service.py): which findings are told, and
-- which are not told again.
use mathlib.Core.Option.{none-ne-some, some-injective}
use mathlib.Core.Path.{ap₂}
use weedout.Base.{
  ℕ, ◌≡◌, refl, ◌∙◌, subst, Bool, true, false, Option, none, some, List, [], ◌∷◌, ◌++◌, All,
}
use weedout.Base.Maybe.{map_option}
use weedout.Findings.{
  opened, dismissed, verdict_is_actionable, CveMatch, Identity, reconcile_matches,
}
use weedout.Findings.Life.{Finding, after_scan, is_news}
use weedout.Findings.Life.Refinement.{all_decided, decided_at, reconcile_matches-after_scan}
use weedout.Findings.Life.Rows.{decision_at, verdict_is_decided}
use weedout.Findings.Life.Traces.{Distinct, life_at, verdict_at, among}
use weedout.SupplyChain.Edits.{last}
use weedout.Types.{Verdict, actionable, suppressed, not_affected, MatchDecision, ScanResult}

module _ (target_id manifest_id : ℕ) where
  -- The rows after the scans, and what each of them told
  unfoldable pub scan_all :
      List (ℕ × ScanResult) → List CveMatch → List CveMatch × List (List Identity)
  unfolding reconcile_matches
  scan_all [] rows = (rows, [])
  scan_all ((now, result) ∷ scans) rows =
      let out = reconcile_matches target_id manifest_id now rows result in
      let (last, told) = scan_all scans out.rows in (last, out.new_actionable ∷ told)

abbrev pub all_of : ScanResult → List MatchDecision
all_of result = result.actionable ++ result.suppressed

-- The decisions of a scan are of one kind each, and no two have one identity.
abbrev pub IsSound : ScanResult → Type 0
IsSound result = Distinct (all_of result) × (all_decided (all_of result) ≡ true)

pub verdict_at_decided :
    (i : Identity) (result : ScanResult)
    → all_decided (all_of result) ≡ true
    → (w : Verdict) → verdict_at i (all_of result) ≡ some w
    → verdict_is_decided w ≡ true
verdict_at_decided i result decided w e = go (decision_at i (all_of result)) refl e
  where
    go :
        (o : Option MatchDecision)
        → decision_at i (all_of result) ≡ o
        → map_option (λ d. d.verdict) o ≡ some w
        → verdict_is_decided w ≡ true
    go none a b = absurd (none-ne-some w b)
    go (some d) a b =
        subst (λ x. verdict_is_decided x ≡ true) (some-injective d.verdict w b)
          (decided_at i (all_of result) decided d a)

-- The scan is sound and matches the identity, with a verdict of which `p` holds.
abbrev pub Matches : (Verdict → Bool) → Identity → ℕ × ScanResult → Type 0
Matches p i (now, result) =
    IsSound result × ((v : Verdict) × (verdict_at i (all_of result) ≡ some v) × (p v ≡ true))

abbrev pub Silent : Identity → List Identity → Type 0
Silent i told = among i told ≡ false

module _ (target_id manifest_id : ℕ) (p : Verdict → Bool) (P : Finding → Type 0) where
  scan_all-keeps :
      ((now : ℕ) (v : Verdict) (f : Finding)
        → p v ≡ true
        → P f
        → ((g : Finding) × (after_scan now (some v) (some f) ≡ some g) × P g)
          × (is_news (some v) (some f) ≡ false))
      → (i : Identity) (scans : List (ℕ × ScanResult)) (rows : List CveMatch) (f : Finding)
      → All (Matches p i) scans
      → life_at i rows ≡ some f
      → P f
      → (let (last, told) = scan_all target_id manifest_id scans rows in
          ((g : Finding) × (life_at i last ≡ some g) × P g) × All (Silent i) told)
  unfolding scan_all
  scan_all-keeps step i [] rows f m e h = ((f, e, h), tt)
  scan_all-keeps step i ((now, result) ∷ scans) rows f (((apart, decided), (v, mv, pv)), m) e h =
      let (life, news) =
        reconcile_matches-after_scan target_id manifest_id now rows result i apart decided in
      let ((g, eg, hg), quiet) = step now v f pv h in
      let (kept, silent) =
        scan_all-keeps step i scans (reconcile_matches target_id manifest_id now rows result).rows g
          m (life ∙ ap₂ (after_scan now) mv e ∙ eg) hg in
      (kept, (news ∙ ap₂ is_news mv e ∙ quiet, silent))

-- A dismissal holds: as long as each scan of a series matches a dismissed finding, with whatever verdict, the
-- finding stays dismissed, and no scan tells the user of it.
pub dismissed_stays :
    (target_id manifest_id : ℕ) (i : Identity) (scans : List (ℕ × ScanResult))
    (rows : List CveMatch) (f : Finding)
    → All (Matches verdict_is_decided i) scans
    → life_at i rows ≡ some f
    → f.status ≡ dismissed
    → (let (last, told) = scan_all target_id manifest_id scans rows in
        ((g : Finding) × (life_at i last ≡ some g) × (g.status ≡ dismissed)) × All (Silent i) told)
unfolding after_scan is_news
dismissed_stays target_id manifest_id =
    scan_all-keeps target_id manifest_id verdict_is_decided (λ f. f.status ≡ dismissed) step
  where
    step :
        (now : ℕ) (v : Verdict) (f : Finding)
        → verdict_is_decided v ≡ true
        → f.status ≡ dismissed
        → ((g : Finding) × (after_scan now (some v) (some f) ≡ some g) × (g.status ≡ dismissed))
          × (is_news (some v) (some f) ≡ false)
    step now actionable f k e = ((record f { verdict = actionable }, rw e refl, e), rw e refl)
    step now suppressed f k e =
        ((record f { verdict = suppressed; resolved_at = none }, rw e refl, e), refl)
    step now not_affected f k e = cc

-- The finding is open and actionable, and the time at which it was told is that of `f`.
abbrev pub IsUntouched : Finding → Finding → Type 0
IsUntouched f g = (g.status ≡ opened) × (g.verdict ≡ actionable) × (g.notified_at ≡ f.notified_at)

-- A finding is told once: as long as each scan of a series makes an open finding actionable that was
-- actionable before too, it stays open, no scan tells the user of it, and the time at which it was told stays as
-- it is.
pub open_told_once :
    (target_id manifest_id : ℕ) (i : Identity) (scans : List (ℕ × ScanResult))
    (rows : List CveMatch) (f : Finding)
    → All (Matches verdict_is_actionable i) scans
    → life_at i rows ≡ some f
    → f.status ≡ opened
    → f.verdict ≡ actionable
    → (let (last, told) = scan_all target_id manifest_id scans rows in
        ((g : Finding) × (life_at i last ≡ some g) × IsUntouched f g) × All (Silent i) told)
unfolding after_scan is_news
open_told_once target_id manifest_id i scans rows f m e s v =
    scan_all-keeps target_id manifest_id verdict_is_actionable (IsUntouched f) step i scans rows f m
      e (s, v, refl)
  where
    step :
        (now : ℕ) (v : Verdict) (g : Finding)
        → verdict_is_actionable v ≡ true
        → IsUntouched f g
        → ((h : Finding) × (after_scan now (some v) (some g) ≡ some h) × IsUntouched f h)
          × (is_news (some v) (some g) ≡ false)
    step now actionable g k (gs, gv, gn) = (
      (
        record g { verdict = actionable; notified_at = g.notified_at },
        rw (gs, gv) refl,
        (gs, refl, gn),
      ),
      rw (gs, gv) refl,
    )
    step now suppressed g k h = cc
    step now not_affected g k h = cc

-- One such scan
pub rescan_open :
    (target_id manifest_id : ℕ) (i : Identity) (now : ℕ) (result : ScanResult)
    (rows : List CveMatch) (f : Finding)
    → Matches verdict_is_actionable i (now, result)
    → life_at i rows ≡ some f
    → f.status ≡ opened
    → f.verdict ≡ actionable
    → (let out = reconcile_matches target_id manifest_id now rows result in
        ((g : Finding) × (life_at i out.rows ≡ some g) × IsUntouched f g)
        × (among i out.new_actionable ≡ false))
unfolding scan_all
rescan_open target_id manifest_id i now result rows f m e s v =
    let (kept, (silent, none_left)) =
      open_told_once target_id manifest_id i ((now, result) ∷ []) rows f (m, tt) e s v in
    (kept, silent)
