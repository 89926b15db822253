-- ===== src/SupplyChain/Edits.antt =====
-- `edit_distance` of app/core/supply_chain.py.
pub mod Alignments
pub mod Laws
use Prim.Native.Nat.{min}
use weedout.Base.{ℕ, suc, ◌+◌, ◌-◌, max, List, [], ◌∷◌, ltb, ◌==◌, if◌then◌else◌, length}
use weedout.Base.Text.{Text, text_eq}

abbrev pub cost : ℕ → ℕ → ℕ
cost l r = if l == r then 0 else 1

-- The inner loop: `c` is current[j - 1], the list the previous row from j - 1 on; the values that
-- are appended are the result.
unfoldable pub cells : (lchar c : ℕ) → (previous : List ℕ) → (right : Text) → List ℕ
cells l c previous [] = []
cells l c [] (r ∷ rs) = []
cells l c (d ∷ []) (r ∷ rs) = []
cells l c (d ∷ u ∷ us) (r ∷ rs) =
    let value = min (min (u + 1) (c + 1)) (d + cost l r) in value ∷ cells l value (u ∷ us) rs

-- `current` at the end of the inner loop
unfoldable pub next_row : (lchar i : ℕ) → (previous : List ℕ) → (right : Text) → List ℕ
unfolding cells
next_row l i previous right = i ∷ cells l i previous right

-- `best`, which starts at i
unfoldable pub least : ℕ → List ℕ → ℕ
least best [] = best
least best (v ∷ vs) = least (min best v) vs

-- `list(range(i, i + n + 1))`
unfoldable pub first_row : ℕ → Text → List ℕ
first_row i [] = i ∷ []
first_row i (r ∷ rs) = i ∷ first_row (suc i) rs

-- `previous[-1]`
abbrev pub last : List ℕ → ℕ
last [] = 0
last (v ∷ []) = v
last (v ∷ w ∷ vs) = last (w ∷ vs)

-- The outer loop, from the i-th character on
unfoldable pub rows_within : (limit i : ℕ) → (left right : Text) → (previous : List ℕ) → ℕ
unfolding next_row least
rows_within limit i [] right previous = last previous
rows_within limit i (l ∷ ls) right previous =
    let current = next_row l i previous right in
    let rest = rows_within limit (suc i) ls right current in
    if ltb limit (least i current) then limit + 1 else rest

unfoldable pub edit_distance : (limit : ℕ) → (left right : Text) → ℕ
unfolding text_eq first_row rows_within
edit_distance limit left right =
    if text_eq left right
    then 0
    else if ltb limit (max (length left - length right) (length right - length left))
    then limit + 1
    else rows_within limit 1 left right (first_row 0 right)
