-- ===== src/Findings/Life/Rows.antt =====
-- Rows by identity, and one row against the life of its finding (app/services/scan_service.py).
use weedout.Base.{
  ℕ, ◌≡◌, refl, ◌↔◌, Bool, true, false, ◌&&◌, Option, none, some, List, [], ◌∷◌, arith,
  if◌then◌else◌, and_cases,
}
use weedout.Base.Text.{text_eq, text_eq_refl, text_eq_iff}
use weedout.Findings.{
  AlertStatus, opened, filtered, status_is_dismissed, can_reopen, verdict_is_suppressed, CveMatch,
  Identity, same_identity, row_identity, decision_identity, restate, revisit,
}
use weedout.Findings.Life.{view, after_scan, is_news}
use weedout.Types.{Verdict, not_affected, MatchDecision}

pub same_identity_iff : (a b : Identity) → (same_identity a b ≡ true) ↔ (a ≡ b)
unfolding same_identity
same_identity_iff a b = (
  λ h.
      let (hl, r) = and_cases (text_eq a.0 b.0 && text_eq a.1 b.1) _ h in
      let (p, q) = and_cases (text_eq a.0 b.0) _ hl in
      λ k. ((text_eq_iff a.0 b.0).0 p k, (text_eq_iff a.1 b.1).0 q k, (text_eq_iff a.2 b.2).0 r k),
  λ e. rw (e, text_eq_refl b.0, text_eq_refl b.1, text_eq_refl b.2) refl,
)

pub same_identity_refl : (a : Identity) → same_identity a a ≡ true
same_identity_refl a = (same_identity_iff a a).1 refl

-- The first row of the identity
unfoldable pub row_at : Identity → List CveMatch → Option CveMatch
row_at i [] = none
row_at i (row ∷ rows) =
    let rest = row_at i rows in if same_identity i (row_identity row) then some row else rest

unfoldable pub decision_at : Identity → List MatchDecision → Option MatchDecision
decision_at i [] = none
decision_at i (d ∷ ds) =
    let rest = decision_at i ds in if same_identity i (decision_identity d) then some d else rest

pub restate-identity :
    (v : Verdict) (row : CveMatch) → row_identity (restate v row) ≡ row_identity row
unfolding restate
restate-identity v row = go (verdict_is_suppressed v) (can_reopen row.status)
  where
    go :
        (a b : Bool)
        → row_identity (
            if a
            then record row {
              status = if status_is_dismissed row.status then row.status else filtered;
              resolved_at = none;
            }
            else if b
            then record row { status = opened; resolved_at = none; notified_at = none }
            else row)
          ≡ row_identity row
    go true b = refl
    go false true = refl
    go false false = refl

abbrev pub verdict_is_decided : Verdict → Bool
verdict_is_decided not_affected = false
verdict_is_decided _ = true

-- One row and the life of its finding agree on what is stored, and on whether it is news.
pub revisit-after_scan :
    (now : ℕ) (d : MatchDecision) (row : CveMatch)
    → verdict_is_decided d.verdict ≡ true
    → (some (view (revisit now d row).0) ≡ after_scan now (some d.verdict) (some (view row)))
      × ((revisit now d row).1 ≡ is_news (some d.verdict) (some (view row)))
unfolding revisit after_scan is_news
revisit-after_scan now d row h =
    go d.verdict row.status refl refl h (verdict_is_suppressed row.assessment.verdict) refl
  where
    go :
        (v : Verdict) (s : AlertStatus)
        → d.verdict ≡ v
        → row.status ≡ s
        → verdict_is_decided v ≡ true
        → (b : Bool) → verdict_is_suppressed row.assessment.verdict ≡ b
        → (some (view (revisit now d row).0) ≡ after_scan now (some d.verdict) (some (view row)))
          × ((revisit now d row).1 ≡ is_news (some d.verdict) (some (view row)))
    go v s a e k b c = ground (arith, a, e, k, c)
