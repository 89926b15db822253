-- ===== src/Advisories/Cvss/Vectors.antt =====
-- CVSS v3 vectors of app/core/cvss.py, read into metrics and scored.
use weedout.Base.Maybe.{◌>>=◌}
use weedout.Advisories.Cvss.{
  AttackVector, network, adjacent, local, physical, Complexity, easy, hard, Privileges,
  no_privileges, some_privileges, full_privileges, Interaction, no_interaction, required, Impact,
  no_impact, partial, total, Metrics, base_score,
}
use weedout.Base.{
  ℕ, ◌*◌, not, ◌&&◌, Option, none, some, List, [], ◌∷◌, ◌++◌, ◌==◌, if◌then◌else◌, is_empty,
}
use weedout.Base.Maybe.{map_option}
use weedout.Base.Text.{Text, text, text_eq, is_upper, upper, starts_with, strip}
use weedout.Types.{Score}

-- `_METRIC_RE.findall`, a character at a time: the letters read, and, past a colon, those of the
-- value. A value that is not empty is a match, and the search goes on behind it.
pub data Search : Type 0 where
  in_name : Text → Search
  in_value : (name value : Text) → Search

next_search : Search → ℕ → Search
unfolding is_upper
next_search (in_name w) c =
    if is_upper c
    then in_name (w ++ c ∷ [])
    else if c == 58 && not (is_empty w)
    then in_value w []
    else in_name []
next_search (in_value w v) c = if is_upper c then in_value w (v ++ c ∷ []) else in_name []

found : Search → List (Text × Text)
found (in_name w) = []
found (in_value w v) = if is_empty v then [] else (w, v) ∷ []

unfoldable pub find_metrics : Search → Text → List (Text × Text)
unfolding is_upper next_search found
find_metrics st [] = found st
find_metrics st (c ∷ s) = (if is_upper c then [] else found st) ++ find_metrics (next_search st c) s

-- `dict(found)[key]`: the last entry of a key
unfoldable pub metric : Text → List (Text × Text) → Option Text
unfolding text_eq
metric k [] = none
metric k ((l, v) ∷ ms) = elim (metric k ms) [
  | some w ↦ some w
  | none ↦ if text_eq k l then some v else none
]

parse_vector : Text → Option AttackVector
unfolding text_eq
parse_vector s =
    if text_eq s (text "N")
    then some network
    else if text_eq s (text "A")
    then some adjacent
    else if text_eq s (text "L")
    then some local
    else if text_eq s (text "P")
    then some physical
    else none

parse_complexity : Text → Option Complexity
unfolding text_eq
parse_complexity s =
    if text_eq s (text "L") then some easy else if text_eq s (text "H") then some hard else none

parse_privileges : Text → Option Privileges
unfolding text_eq
parse_privileges s =
    if text_eq s (text "N")
    then some no_privileges
    else if text_eq s (text "L")
    then some some_privileges
    else if text_eq s (text "H")
    then some full_privileges
    else none

parse_interaction : Text → Option Interaction
unfolding text_eq
parse_interaction s =
    if text_eq s (text "N")
    then some no_interaction
    else if text_eq s (text "R")
    then some required
    else none

parse_impact : Text → Option Impact
unfolding text_eq
parse_impact s =
    if text_eq s (text "H")
    then some total
    else if text_eq s (text "L")
    then some partial
    else if text_eq s (text "N")
    then some no_impact
    else none

-- The lookups; a missing or unknown metric is the `KeyError` that gives `None`.
unfoldable pub parse_metrics : List (Text × Text) → Option Metrics
unfolding metric parse_vector parse_complexity parse_privileges parse_interaction parse_impact
parse_metrics ms = do
  av ← metric (text "AV") ms >>= parse_vector
  ac ← metric (text "AC") ms >>= parse_complexity
  ui ← metric (text "UI") ms >>= parse_interaction
  c ← metric (text "C") ms >>= parse_impact
  i ← metric (text "I") ms >>= parse_impact
  a ← metric (text "A") ms >>= parse_impact
  s ← metric (text "S") ms
  pr ← metric (text "PR") ms >>= parse_privileges
  some record {
    vector = av;
    complexity = ac;
    privileges = pr;
    interaction = ui;
    scope_changed = text_eq s (text "C");
    confidentiality = c;
    integrity = i;
    availability = a;
  }

-- A tenth, in the units of a score
abbrev pub tenth : ℕ
tenth = 100000000

unfoldable pub score_cvss_vector : Text → Option Score
unfolding strip upper starts_with find_metrics parse_metrics base_score
score_cvss_vector v =
    let s = upper (strip v) in
    if starts_with (text "CVSS:3") s
    then map_option (λ m. base_score m * tenth) (parse_metrics (find_metrics (in_name []) s))
    else none
