-- ===== src/SupplyChain/Typosquats/Laws.antt =====
-- Which names `check_typosquat` of app/core/supply_chain.py reports.

-- `check_typosquat` compares this form of a name.
use weedout.Base.{
  ℕ, ◌≤◌, ◌≡◌, refl, ap, ◌∙◌, Bool, true, false, not, ◌&&◌, Option, none, List, arith, ltb, leb,
  if◌then◌else◌, length, any,
}
use weedout.Base.Text.{Text, text, text_eq, lower, starts_with, strip}
use weedout.SupplyChain.Edits.Alignments.{Align}
use weedout.SupplyChain.Typosquats.{canonical, check_targets, check_typosquat}

abbrev pub lowered_name : Text → Text
lowered_name name = lower (strip name)

-- The name is checked at all: it is no popular name and none of the known ones near to them, it has
-- no scope, and it is not short.
abbrev pub is_checked : (popular distinct : List Text) → Text → Bool
is_checked popular distinct name =
    let lowered = lowered_name name in
    not (any (text_eq lowered) popular)
    && not (any (text_eq lowered) distinct)
    && not (starts_with (text "@") lowered)
    && leb 5 (length lowered)

guards :
    {A : Type 0} (a b c d : Bool) (o : Option A)
    → (if a then none else if b then none else if c then none else if d then none else o)
      ≡ (if not a && not b && not c && not d then o else none)
guards true b c d o = refl
guards false true c d o = refl
guards false false true d o = refl
guards false false false true o = refl
guards false false false false o = refl

pub check_typosquat-is_checked :
    (popular distinct : List Text) (name : Text)
    → check_typosquat popular distinct name ≡ (
        if is_checked popular distinct name
        then check_targets (lowered_name name) popular
        else none)
unfolding check_typosquat
check_typosquat-is_checked popular distinct name =
    guards (any (text_eq (lowered_name name)) popular) _ _ (ltb (length (lowered_name name)) 5) _
    ∙ ap
        (λ b.
          if not (any (text_eq (lowered_name name)) popular)
            && not (any (text_eq (lowered_name name)) distinct)
            && not (starts_with (text "@") (lowered_name name))
            && b
          then check_targets (lowered_name name) popular
          else none)
        (ground arith)

-- Names that are at most one edit apart, once separators are dropped, resemble each other.
abbrev pub IsNear : Text → Text → Type 0
IsNear name target = (n : ℕ) × Align (canonical (lowered_name name)) (canonical target) n × (n ≤ 1)
