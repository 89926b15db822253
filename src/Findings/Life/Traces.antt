-- ===== src/Findings/Life/Traces.antt =====
-- One turn of the loop of `_reconcile_matches` (app/services/scan_service.py), identity by identity.
use weedout.Base.{
  ℕ, ◌≡◌, refl, ap, ◌∙◌, Bool, true, false, ◌||◌, Option, none, some, List, [], ◌∷◌, ◌++◌, arith,
  any, any-append,
}
use weedout.Base.Maybe.{map_option}
use weedout.Findings.{
  verdict_is_actionable, CveMatch, Identity, same_identity, row_identity, decision_identity,
  new_match, revisit, Merge, add_news, absorb_into,
}
use weedout.Findings.Life.{Finding, view}
use weedout.Findings.Life.Lookup.{row_at-nil, row_at-hit, row_at-miss, row_at-append, Revisited}
use weedout.Findings.Life.Rows.{same_identity_refl, row_at, decision_at}
use weedout.Types.{Verdict, MatchDecision}

-- No two decisions have one identity.
abbrev pub Distinct : List MatchDecision → Type 0
Distinct [] = Unit
Distinct (d ∷ ds) = (decision_at (decision_identity d) ds ≡ none) × Distinct ds

abbrev pub life_at : Identity → List CveMatch → Option Finding
life_at i rows = map_option view (row_at i rows)

abbrev pub verdict_at : Identity → List MatchDecision → Option Verdict
verdict_at i ds = map_option (λ d. d.verdict) (decision_at i ds)

abbrev pub among : Identity → List Identity → Bool
among i = any (same_identity i)

-- The rows of a merge, those stored before those added
abbrev all_rows : Merge → List CveMatch
all_rows s = s.stored ++ s.added

-- What a merge holds of the identity `i`: the row stored, the row added, whether it is news and seen
abbrev pub Trace : Type 0
Trace = Option CveMatch × Option CveMatch × Bool × Bool

abbrev pub trace : Identity → Merge → Trace
trace i s = (row_at i s.stored, row_at i s.added, among i s.new_actionable, among i s.seen)

module _ (target_id manifest_id now : ℕ) where
  -- The trace of the decision's own identity, after the decision
  abbrev pub taken : MatchDecision → Trace → Trace
  taken d (none, a, n, s) = (
    none,
    some (new_match target_id manifest_id now d),
    n || verdict_is_actionable d.verdict,
    true,
  )
  taken d (some row, a, n, s) = (some (revisit now d row).0, a, n || (revisit now d row).1, true)

  -- The loop's order does not matter: for each identity, one decision at most counts.
  abbrev pub traced : Option MatchDecision → Trace → Trace
  traced none t = t
  traced (some d) t = taken d t

among-add_news-own :
    (i : Identity) (news : Bool) (is : List Identity)
    → among i (add_news news i is) ≡ (among i is || news)
among-add_news-own i true is =
    any-append (same_identity i) is (i ∷ []) ∙ rw (same_identity_refl i) refl
among-add_news-own i false is = ground arith

among-add_news-other :
    (i j : Identity) (news : Bool) (is : List Identity)
    → same_identity i j ≡ false
    → among i (add_news news j is) ≡ among i is
among-add_news-other i j true is k = any-append (same_identity i) is (j ∷ []) ∙ rw k (ground arith)
among-add_news-other i j false is k = refl

trace_ext :
    {a a' b b' : Option CveMatch} {c c' d d' : Bool}
    → a ≡ a'
    → b ≡ b'
    → c ≡ c'
    → d ≡ d'
    → ◌≡◌ {A = Trace} (a, b, c, d) (a', b', c', d')
trace_ext p q r s k = (p k, q k, r k, s k)

module _ (target_id manifest_id now : ℕ) (d : MatchDecision) (s : Merge) where
  abbrev fresh : CveMatch
  fresh = new_match target_id manifest_id now d

  fresh-identity : row_identity fresh ≡ decision_identity d
  unfolding new_match
  fresh-identity = refl

  added-other :
      (i : Identity)
      → same_identity i (decision_identity d) ≡ false
      → row_at i (s.added ++ fresh ∷ []) ≡ row_at i s.added
  added-other i k =
      row_at-append i s.added (fresh ∷ [])
      ∙ go (row_at i s.added)
          (row_at-miss i fresh [] (ap (same_identity i) fresh-identity ∙ k) ∙ row_at-nil i)
    where
      go :
          (o : Option CveMatch)
          → row_at i (fresh ∷ []) ≡ none
          → (elim o [ none ↦ row_at i (fresh ∷ []) | some r ↦ some r ]) ≡ o
      go none e = e
      go (some r) e = refl

  added-own :
      row_at (decision_identity d) s.added ≡ none
      → row_at (decision_identity d) (s.added ++ fresh ∷ []) ≡ some fresh
  added-own e =
      row_at-append (decision_identity d) s.added (fresh ∷ [])
      ∙ rw e (
          row_at-hit (decision_identity d) fresh [] (
            ap (same_identity (decision_identity d)) fresh-identity
            ∙ same_identity_refl (decision_identity d)))

  pub absorb_into-other :
      (o : Option (List CveMatch × Bool))
      → Revisited now d s.stored o
      → (i : Identity) → same_identity i (decision_identity d) ≡ false
      → trace i (absorb_into target_id manifest_id now d s o) ≡ trace i s
  absorb_into-other none h i k =
      trace_ext refl (added-other i k)
        (among-add_news-other i (decision_identity d) (verdict_is_actionable d.verdict)
          s.new_actionable k)
        (rw k refl)
  absorb_into-other (some r) (h, others) i k =
      trace_ext (others i k) refl
        (among-add_news-other i (decision_identity d) r.1 s.new_actionable k) (rw k refl)

  pub absorb_into-own :
      (o : Option (List CveMatch × Bool))
      → Revisited now d s.stored o
      → row_at (decision_identity d) s.added ≡ none
      → trace (decision_identity d) (absorb_into target_id manifest_id now d s o)
        ≡ taken target_id manifest_id now d (trace (decision_identity d) s)
  absorb_into-own none h e = rw h (
      trace_ext refl (added-own e)
        (among-add_news-own (decision_identity d) (verdict_is_actionable d.verdict)
          s.new_actionable)
        (rw (same_identity_refl (decision_identity d)) refl))
  absorb_into-own (some r) ((row, a, b, c), others) e = rw a (
      trace_ext b refl
        (among-add_news-own (decision_identity d) r.1 s.new_actionable
          ∙ ap (λ x. among (decision_identity d) s.new_actionable || x) c)
        (rw (same_identity_refl (decision_identity d)) refl))
