-- ===== src/Findings/Again.antt =====
-- The same scan a second time (`_reconcile_matches` of app/services/scan_service.py).
use weedout.Base.{
  ℕ, ◌≡◌, refl, sym, ap, ◌∙◌, Bool, true, false, Option, none, some, List, [], ◌∷◌, arith,
}
use weedout.Findings.{
  AlertStatus, verdict_is_suppressed, CveMatch, Identity, Reconciled, reconcile_matches,
}
use weedout.Findings.Life.{Finding, unmatched, quieted, raised, after_scan, is_news}
use weedout.Findings.Life.Refinement.{reconcile_matches-after_scan}
use weedout.Findings.Life.Rows.{same_identity_refl, verdict_is_decided}
use weedout.Findings.Life.Traces.{life_at, verdict_at, among}
use weedout.Findings.Series.{all_of, IsSound, verdict_at_decided}
use weedout.Types.{Verdict, actionable, suppressed, not_affected, ScanResult}

-- A second scan with the same verdict changes nothing of a finding's life, and is no news.
after_scan_again :
    (now later : ℕ) (v : Option Verdict) (f : Option Finding)
    → ((w : Verdict) → v ≡ some w → verdict_is_decided w ≡ true)
    → (after_scan later v (after_scan now v f) ≡ after_scan now v f)
      × (is_news v (after_scan now v f) ≡ false)
unfolding after_scan is_news unmatched quieted raised
after_scan_again now later none none h = (refl, refl)
after_scan_again now later none (some f) h = go f.status refl
  where
    go :
        (s : AlertStatus)
        → f.status ≡ s
        → (some (unmatched later (unmatched now f)) ≡ some (unmatched now f)) × (false ≡ false)
    go s e = ground (arith, e)
after_scan_again now later (some actionable) none h = (refl, refl)
after_scan_again now later (some suppressed) none h = (refl, refl)
after_scan_again now later (some not_affected) f h = ground (arith, h not_affected refl)
after_scan_again now later (some actionable) (some f) h =
    go f.status refl (verdict_is_suppressed f.verdict) refl
  where
    go :
        (s : AlertStatus)
        → f.status ≡ s
        → (b : Bool) → verdict_is_suppressed f.verdict ≡ b
        → (some (raised (raised f)) ≡ some (raised f))
          × (is_news (some actionable) (some (raised f)) ≡ false)
    go s e b k = ground (arith, e, k)
after_scan_again now later (some suppressed) (some f) h = go f.status refl
  where
    go :
        (s : AlertStatus)
        → f.status ≡ s
        → (some (quieted (quieted f)) ≡ some (quieted f)) × (false ≡ false)
    go s e = ground (arith, e)

among_nothing : (is : List Identity) → ((i : Identity) → among i is ≡ false) → is ≡ []
among_nothing [] h = refl
among_nothing (i ∷ is) h = ground (arith, same_identity_refl i, h i)

-- A manifest scanned a second time with the same result: no finding is told, and the life of every
-- identity stays as the first scan left it.
pub reconcile_matches_again :
    (target_id manifest_id now later : ℕ) (stored : List CveMatch) (result : ScanResult)
    → IsSound result
    → (let first = reconcile_matches target_id manifest_id now stored result in
        let second = reconcile_matches target_id manifest_id later first.rows result in
        ((i : Identity) → life_at i second.rows ≡ life_at i first.rows)
        × (second.new_actionable ≡ []))
reconcile_matches_again target_id manifest_id now later stored result (apart, decided) =
    (λ i. (both i).0, among_nothing second.new_actionable (λ i. (both i).1))
  where
    first : Reconciled
    first = reconcile_matches target_id manifest_id now stored result

    second : Reconciled
    second = reconcile_matches target_id manifest_id later first.rows result

    both :
        (i : Identity)
        → (life_at i second.rows ≡ life_at i first.rows) × (among i second.new_actionable ≡ false)
    both i =
        let v = verdict_at i (all_of result) in
        let (life, news) =
          reconcile_matches-after_scan target_id manifest_id later first.rows result i apart
            decided in
        let before =
          (reconcile_matches-after_scan target_id manifest_id now stored result i apart
            decided).0 in
        let (same_life, quiet) =
          after_scan_again now later v (life_at i stored) (verdict_at_decided i result decided) in
        (
          life ∙ ap (after_scan later v) before ∙ same_life ∙ sym before,
          news ∙ ap (is_news v) before ∙ quiet,
        )
