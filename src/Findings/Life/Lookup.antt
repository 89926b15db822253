-- ===== src/Findings/Life/Lookup.antt =====
-- Looking up and writing rows by identity, for `_reconcile_matches` of app/services/scan_service.py.
use weedout.Base.{
  ℕ, ◌≡◌, refl, sym, ap, ◌∙◌, subst, Bool, true, false, Option, none, some, List, [], ◌∷◌, ◌++◌,
  if◌then◌else◌,
}
use weedout.Base.Maybe.{map_option}
use weedout.Findings.{
  CveMatch, Identity, same_identity, row_identity, decision_identity, assess, restate, revisit,
  revisit_stored,
}
use weedout.Findings.Life.Rows.{same_identity_iff, row_at, restate-identity}
use weedout.Types.{MatchDecision}

pub row_at-nil : (i : Identity) → row_at i [] ≡ none
unfolding row_at
row_at-nil i = refl

pub row_at-hit :
    (i : Identity) (row : CveMatch) (rows : List CveMatch)
    → same_identity i (row_identity row) ≡ true
    → row_at i (row ∷ rows) ≡ some row
unfolding row_at
row_at-hit i row rows e = rw e refl

pub row_at-miss :
    (i : Identity) (row : CveMatch) (rows : List CveMatch)
    → same_identity i (row_identity row) ≡ false
    → row_at i (row ∷ rows) ≡ row_at i rows
unfolding row_at
row_at-miss i row rows e = rw e refl

pub row_at-cons :
    (i : Identity) (row : CveMatch) (rows more : List CveMatch)
    → row_at i rows ≡ row_at i more
    → row_at i (row ∷ rows) ≡ row_at i (row ∷ more)
unfolding row_at
row_at-cons i row rows more e = rw e refl

pub row_at-append :
    (i : Identity) (rows more : List CveMatch)
    → row_at i (rows ++ more) ≡ (elim (row_at i rows) [ none ↦ row_at i more | some r ↦ some r ])
unfolding row_at
row_at-append i [] more = refl
row_at-append i (row ∷ rows) more =
    go (same_identity i (row_identity row)) (row_at-append i rows more)
  where
    go :
        (b : Bool)
        → row_at i (rows ++ more)
          ≡ (elim (row_at i rows) [ none ↦ row_at i more | some r ↦ some r ])
        → (if b then some row else row_at i (rows ++ more))
          ≡ (elim (if b then some row else row_at i rows) [
            | none ↦ row_at i more
            | some r ↦ some r
          ])
    go true e = refl
    go false e = e

revisit-identity :
    (now : ℕ) (d : MatchDecision) (row : CveMatch)
    → row_identity (revisit now d row).0 ≡ row_identity row
unfolding revisit
revisit-identity now d row = go _
  where
    assessed : CveMatch
    assessed = record row { last_seen_at = now; assessment = assess d }

    go :
        (b : Bool)
        → row_identity (
            let r : CveMatch × Bool =
              (if b
                then (record (restate d.verdict assessed) { notified_at = none }, true)
                else (restate d.verdict assessed, false)) in
            r.0)
          ≡ row_identity row
    go true = restate-identity d.verdict assessed
    go false = restate-identity d.verdict assessed

-- What looking up and writing the row of a decision does to the row of the identity `i`
abbrev pub Revisited :
    (now : ℕ) → MatchDecision → List CveMatch → Option (List CveMatch × Bool) → Type 0
Revisited now d rows none = row_at (decision_identity d) rows ≡ none
Revisited now d rows (some r) =
    ((row : CveMatch) × (row_at (decision_identity d) rows ≡ some row)
      × (row_at (decision_identity d) r.0 ≡ some (revisit now d row).0)
      × (r.1 ≡ (revisit now d row).1))
    × ((i : Identity)
        → same_identity i (decision_identity d) ≡ false
        → row_at i r.0 ≡ row_at i rows)

pub revisit_stored-Revisited :
    (now : ℕ) (d : MatchDecision) (rows : List CveMatch)
    → Revisited now d rows (revisit_stored now d rows)
unfolding revisit_stored
revisit_stored-Revisited now d [] = row_at-nil (decision_identity d)
revisit_stored-Revisited now d (row ∷ rows) =
    go (same_identity (decision_identity d) (row_identity row)) refl (revisit_stored now d rows)
      (revisit_stored-Revisited now d rows)
  where
    own : Identity
    own = decision_identity d

    visited : CveMatch
    visited = (revisit now d row).0

    -- Another identity than the row's
    elsewhere :
        (i : Identity)
        → same_identity own (row_identity row) ≡ true
        → same_identity i own ≡ false
        → (r : CveMatch) → row_identity r ≡ row_identity row
        → same_identity i (row_identity r) ≡ false
    elsewhere i e k r agree =
        subst (λ j. same_identity i j ≡ false)
          ((same_identity_iff own (row_identity row)).0 e ∙ sym agree) k

    go :
        (b : Bool)
        → same_identity own (row_identity row) ≡ b
        → (o : Option (List CveMatch × Bool)) → Revisited now d rows o
        → Revisited now d (row ∷ rows) (
            if b
            then some (visited ∷ rows, (revisit now d row).1)
            else map_option (λ r. (row ∷ r.0, r.1)) o)
    go true e o h = (
      (
        row,
        row_at-hit own row rows e,
        row_at-hit own visited rows (ap (same_identity own) (revisit-identity now d row) ∙ e),
        refl,
      ),
      λ i k.
          row_at-miss i visited rows (elsewhere i e k visited (revisit-identity now d row))
          ∙ sym (row_at-miss i row rows (elsewhere i e k row refl)),
    )
    go false e none h = row_at-miss own row rows e ∙ h
    go false e (some r) ((found, a, b, c), others) = (
      (found, row_at-miss own row rows e ∙ a, row_at-miss own row r.0 e ∙ b, c),
      λ i k. row_at-cons i row r.0 rows (others i k),
    )
