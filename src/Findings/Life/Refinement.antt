-- ===== src/Findings/Life/Refinement.antt =====
-- `_reconcile_matches` of app/services/scan_service.py keeps, in its table, the life of every finding.
use mathlib.Core.Option.{none-ne-some, some-injective}
use weedout.Base.{
  ℕ, ◌≡◌, refl, sym, ap, ◌∙◌, subst, inl, inr, Bool, true, false, ◌||◌, Option, none, some, List,
  [], ◌∷◌, ◌++◌, arith, Bool-cases, and_cases, all,
}
use weedout.Base.Maybe.{map_option}
use weedout.Findings.{
  AlertStatus, verdict_is_actionable, CveMatch, Identity, same_identity, decision_identity,
  new_match, Merge, absorb_all, resolve_unseen, reconcile_matches,
}
use weedout.Findings.Life.{view, begun, after_scan, is_news}
use weedout.Findings.Life.Lookup.{row_at-nil, row_at-append}
use weedout.Findings.Life.Loops.{
  decision_at-nil, decision_at-miss, decision_at-hit, absorb_all-traced, closed,
  resolve_unseen-row_at,
}
use weedout.Findings.Life.Rows.{row_at, decision_at, verdict_is_decided, revisit-after_scan}
use weedout.Findings.Life.Traces.{Distinct, life_at, verdict_at, among, Trace, trace, traced}
use weedout.Types.{Verdict, MatchDecision, ScanResult}

abbrev pub all_decided : List MatchDecision → Bool
all_decided = all (λ d. verdict_is_decided d.verdict)

pub decided_at :
    (i : Identity) (ds : List MatchDecision)
    → all_decided ds ≡ true
    → (d : MatchDecision) → decision_at i ds ≡ some d
    → verdict_is_decided d.verdict ≡ true
decided_at i [] h d e = absurd (none-ne-some d (sym (decision_at-nil i) ∙ e))
decided_at i (first ∷ ds) h d e =
    let (this, others) = and_cases (verdict_is_decided first.verdict) (all_decided ds) h in
    elim (Bool-cases (same_identity i (decision_identity first))) [
      | inl k ↦
          subst (λ x. verdict_is_decided x.verdict ≡ true)
            (some-injective first d (sym (decision_at-hit i first ds k) ∙ e)) this
      | inr k ↦ decided_at i ds others d (sym (decision_at-miss i first ds k) ∙ e)
    ]

-- The row that comes out where the trace holds a stored row or an added one
abbrev row_of : (now : ℕ) → Trace → Option CveMatch
row_of now (none, a, n, s) = a
row_of now (some row, a, n, s) = some (closed now s row)

module _ (target_id manifest_id now : ℕ) where
  traced-life :
      (o : Option MatchDecision) (r : Option CveMatch)
      → ((d : MatchDecision) → o ≡ some d → verdict_is_decided d.verdict ≡ true)
      → (let t = traced target_id manifest_id now o (r, none, false, false) in
          (map_option view (row_of now t)
            ≡ after_scan now (map_option (λ d. d.verdict) o) (map_option view r))
          × (t.2 ≡ is_news (map_option (λ d. d.verdict) o) (map_option view r)))
  unfolding new_match after_scan is_news
  traced-life none none h = (refl, refl)
  traced-life none (some row) h = go row.status refl
    where
      go :
          (s : AlertStatus)
          → row.status ≡ s
          → (some (view (closed now false row)) ≡ after_scan now none (some (view row)))
            × (false ≡ is_news none (some (view row)))
      go s e = ground (arith, e)
  traced-life (some d) none h = go d.verdict refl
    where
      go :
          (v : Verdict)
          → d.verdict ≡ v
          → (some (view (new_match target_id manifest_id now d)) ≡ some (begun now d.verdict))
            × ((false || verdict_is_actionable d.verdict) ≡ is_news (some d.verdict) none)
      go v e = ground (arith, e)
  traced-life (some d) (some row) h = revisit-after_scan now d row (h d refl)

  start : List CveMatch → Merge
  start stored = record { stored = stored; added = []; seen = []; new_actionable = [] }

  finished :
      (i : Identity) (s : Merge)
      → row_at i ((resolve_unseen now s.seen s.stored).0 ++ s.added) ≡ row_of now (trace i s)
  finished i s =
      row_at-append i (resolve_unseen now s.seen s.stored).0 s.added
      ∙ ap (λ o. elim o [ none ↦ row_at i s.added | some r ↦ some r ])
          (resolve_unseen-row_at now s.seen i s.stored)
      ∙ go (row_at i s.stored)
    where
      go :
          (o : Option CveMatch)
          → (elim (map_option (closed now (among i s.seen)) o) [
            | none ↦ row_at i s.added
            | some r ↦ some r
          ])
            ≡ row_of now (o, row_at i s.added, among i s.new_actionable, among i s.seen)
      go none = refl
      go (some row) = refl

  traced-start :
      (stored : List CveMatch) (ds : List MatchDecision) (i : Identity)
      → Distinct ds
      → trace i (absorb_all target_id manifest_id now ds (start stored))
        ≡ traced target_id manifest_id now (decision_at i ds) (row_at i stored, none, false, false)
  unfolding start
  traced-start stored ds i h =
      absorb_all-traced target_id manifest_id now i ds (start stored) h (row_at-nil i)
      ∙ ap
          (λ a.
            traced target_id manifest_id now (decision_at i ds) (row_at i stored, a, false, false))
          (row_at-nil i)

  -- The table keeps, for every finding, the life that is promised: where no two decisions have one identity
  -- and each is actionable or suppressed, what is stored of an identity after the merge is what its life
  -- says for the decision's verdict (or for no decision) and what was stored before; and the
  -- identity is among the new findings exactly when its life says that the scan is news.
  pub reconcile_matches-after_scan :
      (stored : List CveMatch) (result : ScanResult) (i : Identity)
      → Distinct (result.actionable ++ result.suppressed)
      → all_decided (result.actionable ++ result.suppressed) ≡ true
      → (let out = reconcile_matches target_id manifest_id now stored result in
          let v = verdict_at i (result.actionable ++ result.suppressed) in
          (life_at i out.rows ≡ after_scan now v (life_at i stored))
          × (among i out.new_actionable ≡ is_news v (life_at i stored)))
  unfolding reconcile_matches start
  reconcile_matches-after_scan stored result i h k =
      let ds = result.actionable ++ result.suppressed in
      let t = traced-start stored ds i h in
      let (a, b) = traced-life (decision_at i ds) (row_at i stored) (decided_at i ds k) in
      (
        ap (map_option view) (
              finished i (absorb_all target_id manifest_id now ds (start stored))
              ∙ ap (row_of now) t)
            ∙ a,
        ap (λ x. x.2) t ∙ b,
      )
