-- ===== src/Advisories/Severities.antt =====
-- The severity ladder of app/core/cvss.py: bands, labels, and the choice among an advisory's entries.
pub mod Laws
use weedout.Advisories.Cvss.Vectors.{score_cvss_vector}
use weedout.Advisories.Json.{Json, obj, get, filled}
use weedout.Base.{
  ℕ, ◌*◌, Bool, true, Option, none, some, List, [], ◌∷◌, ltb, leb, if◌then◌else◌, is_empty,
}
use weedout.Base.Text.{Text, text, text_eq, upper, starts_with, strip}
use weedout.Types.{Severity, unknown, low, medium, high, critical, Score}

abbrev points : ℕ → Score
points n = n * 1000000000

unfoldable pub score_to_severity : Option Score → Severity
score_to_severity none = unknown
score_to_severity (some s) =
    if leb (points 9) s
    then critical
    else if leb (points 7) s
    then high
    else if leb (points 4) s
    then medium
    else if ltb 0 s
    then low
    else unknown

-- `_LABELS`
abbrev labels : List (Text × Severity)
labels =
    (text "CRITICAL", critical)
    ∷ (text "HIGH", high)
    ∷ (text "IMPORTANT", high)
    ∷ (text "MEDIUM", medium)
    ∷ (text "MODERATE", medium)
    ∷ (text "LOW", low)
    ∷ (text "MINOR", low)
    ∷ (text "NEGLIGIBLE", low)
    ∷ (text "NONE", unknown)
    ∷ (text "UNKNOWN", unknown)
    ∷ (text "UNSPECIFIED", unknown)
    ∷ []

label_of : Text → List (Text × Severity) → Severity
unfolding text_eq
label_of s [] = unknown
label_of s ((l, severity) ∷ ls) = let rest = label_of s ls in if text_eq s l then severity else rest

unfoldable pub label_to_severity : Option Text → Severity
unfolding label_of upper strip
label_to_severity none = unknown
label_to_severity (some s) = if is_empty s then unknown else label_of (upper (strip s)) labels

-- The loop's variables
pub record Best : Type 0 where
  pub best_score : Option Score
  pub best_vector : Option Text
  pub fallback_vector : Option Text

-- `best_score is None or score > best_score`
beats : Score → Option Score → Bool
beats s none = true
beats s (some t) = ltb t s

offer : Option Score → Option Text → Best → Best
unfolding beats
offer none v best = best
offer (some s) v best =
    if beats s best.best_score
    then record { best_score = some s; best_vector = v; fallback_vector = best.fallback_vector }
    else best

-- `a or b` on a text that may be absent
abbrev or_else : Option Text → Option Text → Option Text
or_else none b = b
or_else (some []) b = b
or_else (some (c ∷ s)) b = some (c ∷ s)

-- What the loop's variables are returned as
unfoldable pub settle : Best → Option Text → Severity × Option Score × Option Text
unfolding score_to_severity label_to_severity
settle best label = elim best.best_score [
  | none ↦ (label_to_severity label, none, best.fallback_vector)
  | some s ↦ (score_to_severity (some s), some s, or_else best.best_vector best.fallback_vector)
]

-- `float_of` is the value of `float(raw)` when there is one between 0 and 10.
module _ (float_of : Text → Option Score) where
  unfoldable pub consider : Best → Json → Best
  unfolding filled get upper starts_with score_cvss_vector offer
  consider best (obj fs) = elim (filled (get (text "score") fs)) [
    | none ↦ best
    | some raw ↦
        if starts_with (text "CVSS:3") (upper raw)
        then offer (score_cvss_vector raw) (some raw) best
        else if starts_with (text "CVSS:") (upper raw)
        then record {
          best_score = best.best_score;
          best_vector = best.best_vector;
          fallback_vector = or_else best.fallback_vector (some raw);
        }
        else offer (float_of raw) none best
  ]
  consider best _ = best

  unfoldable pub consider_all : Best → List Json → Best
  unfolding consider
  consider_all best [] = best
  consider_all best (e ∷ es) = consider_all (consider best e) es

  unfoldable pub normalize_severity :
      List Json → Option Text → Severity × Option Score × Option Text
  unfolding consider_all settle
  normalize_severity entries label =
      settle
        (consider_all record { best_score = none; best_vector = none; fallback_vector = none }
          entries)
        label
