-- ===== src/Findings/Life/Loops.antt =====
-- The two loops of `_reconcile_matches` (app/services/scan_service.py), identity by identity.
use mathlib.Core.Option.{none-ne-some}
use mathlib.Core.Path.{ap₂}
use weedout.Base.{
  ℕ, ◌≡◌, refl, sym, ap, ◌∙◌, subst, inl, inr, Bool, true, false, not, ◌||◌, none, some, List, [],
  ◌∷◌, if◌then◌else◌, Bool-cases,
}
use weedout.Base.Maybe.{map_option}
use weedout.Findings.{
  resolved, status_is_resolved, CveMatch, Identity, same_identity, row_identity, decision_identity,
  revisit_stored, Merge, absorb, absorb_all, is_gone, resolve_unseen,
}
use weedout.Findings.Life.Lookup.{row_at-nil, row_at-hit, row_at-miss, revisit_stored-Revisited}
use weedout.Findings.Life.Rows.{same_identity_iff, same_identity_refl, row_at, decision_at}
use weedout.Findings.Life.Traces.{
  Distinct, among, trace, taken, traced, absorb_into-other, absorb_into-own,
}
use weedout.Types.{MatchDecision}

pub decision_at-nil : (i : Identity) → decision_at i [] ≡ none
unfolding decision_at
decision_at-nil i = refl

pub decision_at-miss :
    (i : Identity) (d : MatchDecision) (ds : List MatchDecision)
    → same_identity i (decision_identity d) ≡ false
    → decision_at i (d ∷ ds) ≡ decision_at i ds
unfolding decision_at
decision_at-miss i d ds e = rw e refl

pub decision_at-hit :
    (i : Identity) (d : MatchDecision) (ds : List MatchDecision)
    → same_identity i (decision_identity d) ≡ true
    → decision_at i (d ∷ ds) ≡ some d
unfolding decision_at
decision_at-hit i d ds e = rw e refl

module _ (target_id manifest_id now : ℕ) where
  absorb-other :
      (i : Identity) (d : MatchDecision) (s : Merge)
      → same_identity i (decision_identity d) ≡ false
      → trace i (absorb target_id manifest_id now d s) ≡ trace i s
  unfolding absorb
  absorb-other i d s =
      absorb_into-other target_id manifest_id now d s (revisit_stored now d s.stored)
        (revisit_stored-Revisited now d s.stored) i

  absorb-own :
      (d : MatchDecision) (s : Merge)
      → row_at (decision_identity d) s.added ≡ none
      → trace (decision_identity d) (absorb target_id manifest_id now d s)
        ≡ taken target_id manifest_id now d (trace (decision_identity d) s)
  unfolding absorb
  absorb-own d s =
      absorb_into-own target_id manifest_id now d s (revisit_stored now d s.stored)
        (revisit_stored-Revisited now d s.stored)

  absorb_all-other :
      (i : Identity) (ds : List MatchDecision) (s : Merge)
      → decision_at i ds ≡ none
      → trace i (absorb_all target_id manifest_id now ds s) ≡ trace i s
  unfolding absorb_all
  absorb_all-other i [] s e = refl
  absorb_all-other i (d ∷ ds) s e = elim (Bool-cases (same_identity i (decision_identity d))) [
    | inl k ↦ absurd (none-ne-some d (sym e ∙ decision_at-hit i d ds k))
    | inr k ↦
        absorb_all-other i ds (absorb target_id manifest_id now d s)
          (sym (decision_at-miss i d ds k) ∙ e)
        ∙ absorb-other i d s k
  ]

  own_traced :
      (d : MatchDecision) (ds : List MatchDecision) (s : Merge)
      → decision_at (decision_identity d) ds ≡ none
      → row_at (decision_identity d) s.added ≡ none
      → trace
          (decision_identity d)
          (absorb_all target_id manifest_id now ds (absorb target_id manifest_id now d s))
        ≡ traced target_id manifest_id now
            (decision_at (decision_identity d) (d ∷ ds))
            (trace (decision_identity d) s)
  own_traced d ds s apart e =
      absorb_all-other (decision_identity d) ds (absorb target_id manifest_id now d s) apart
      ∙ absorb-own d s e
      ∙ ap (λ o. traced target_id manifest_id now o (trace (decision_identity d) s))
          (sym
            (decision_at-hit (decision_identity d) d ds (same_identity_refl (decision_identity d))))

  -- The loop's order does not matter: for each identity, its one decision counts.
  pub absorb_all-traced :
      (i : Identity) (ds : List MatchDecision) (s : Merge)
      → Distinct ds
      → row_at i s.added ≡ none
      → trace i (absorb_all target_id manifest_id now ds s)
        ≡ traced target_id manifest_id now (decision_at i ds) (trace i s)
  unfolding absorb_all
  absorb_all-traced i [] s h e =
      ap (λ o. traced target_id manifest_id now o (trace i s)) (sym (decision_at-nil i))
  absorb_all-traced i (d ∷ ds) s (apart, h) e =
      elim (Bool-cases (same_identity i (decision_identity d))) [
        | inl k ↦
            subst
              (λ j.
                row_at j s.added ≡ none
                → trace j
                    (absorb_all target_id manifest_id now ds (absorb target_id manifest_id now d s))
                  ≡ traced target_id manifest_id now (decision_at j (d ∷ ds)) (trace j s))
              (sym ((same_identity_iff i (decision_identity d)).0 k)) (own_traced d ds s apart) e
        | inr k ↦
            absorb_all-traced i ds (absorb target_id manifest_id now d s) h
              (ap (λ t. t.1) (absorb-other i d s k) ∙ e)
            ∙ ap₂ (traced target_id manifest_id now) (sym (decision_at-miss i d ds k))
                (absorb-other i d s k)
      ]

-- The last loop, on one row
abbrev pub settled : (now : ℕ) → (gone : Bool) → CveMatch → CveMatch
settled now gone row =
    if gone then record row { status = resolved; resolved_at = some now } else row

settled-identity :
    (now : ℕ) (gone : Bool) (row : CveMatch)
    → row_identity (settled now gone row) ≡ row_identity row
settled-identity now true row = refl
settled-identity now false row = refl

abbrev pub closed : (now : ℕ) → (seen : Bool) → CveMatch → CveMatch
closed now seen row = settled now (not (seen || status_is_resolved row.status)) row

pub resolve_unseen-row_at :
    (now : ℕ) (seen : List Identity) (i : Identity) (rows : List CveMatch)
    → row_at i (resolve_unseen now seen rows).0
      ≡ map_option (closed now (among i seen)) (row_at i rows)
unfolding resolve_unseen
resolve_unseen-row_at now seen i [] =
    row_at-nil i ∙ ap (map_option (closed now (among i seen))) (sym (row_at-nil i))
resolve_unseen-row_at now seen i (row ∷ rows) =
    elim (Bool-cases (same_identity i (row_identity row))) [
      | inl k ↦
          row_at-hit i (settled now (is_gone seen row) row) _
            (ap (same_identity i) (settled-identity now (is_gone seen row) row) ∙ k)
          ∙ subst
              (λ j.
                some (settled now (is_gone seen row) row) ≡ some (closed now (among j seen) row))
              (sym ((same_identity_iff i (row_identity row)).0 k)) refl
          ∙ ap (map_option (closed now (among i seen))) (sym (row_at-hit i row rows k))
      | inr k ↦
          row_at-miss i (settled now (is_gone seen row) row) _
            (ap (same_identity i) (settled-identity now (is_gone seen row) row) ∙ k)
          ∙ resolve_unseen-row_at now seen i rows
          ∙ ap (map_option (closed now (among i seen))) (sym (row_at-miss i row rows k))
    ]
