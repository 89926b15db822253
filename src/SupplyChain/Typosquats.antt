-- ===== src/SupplyChain/Typosquats.antt =====
-- `check_typosquat` of app/core/supply_chain.py, for any lists of names: `popular` and `distinct` are
-- the entries of `POPULAR` and `KNOWN_DISTINCT`, in the order in which the set is iterated. A signal
-- keeps its structured part, without the sentence made of it.
pub mod Laws
pub mod Sound
use weedout.Base.{
  ℕ, suc, ◌+◌, Bool, false, not, ◌&&◌, ◌||◌, Option, none, some, List, [], ◌∷◌, ltb, ◌==◌,
  if◌then◌else◌, length, any, keep,
}
use weedout.Base.Text.{Text, text, text_eq, lower, starts_with, strip}
use weedout.SupplyChain.Edits.{edit_distance}

pub data SignalKind : Type 0 where
  typosquat unmaintained single_maintainer provenance_missing provenance_verified : SignalKind

pub data SignalLevel : Type 0 where
  concerning notable informational : SignalLevel

pub data Resemblance : Type 0 where
  separator transposition confusable length_differs substitution : Resemblance

pub record TyposquatSignal : Type 0 where
  pub level : SignalLevel
  pub resembles : Text
  pub resemblance : Resemblance

-- `_SEPARATORS`
is_separator : ℕ → Bool
is_separator c = c == 45 || c == 95 || c == 46

unfoldable pub canonical : Text → Text
unfolding strip lower is_separator
canonical name = keep (λ c. not (is_separator c)) (lower (strip name))

-- The positions, from i on, at which two texts differ, with what stands there
unfoldable pub differences : ℕ → Text → Text → List (ℕ × ℕ × ℕ)
differences i (a ∷ s) (b ∷ t) =
    let rest = differences (suc i) s t in if a == b then rest else (i, a, b) ∷ rest
differences i _ _ = []

-- `_CONFUSABLE`: both orders of a pair
pair_is : ℕ → ℕ → ℕ → ℕ → Bool
pair_is c d a b = a == c && b == d || a == d && b == c

is_confusable : ℕ → ℕ → Bool
unfolding pair_is
is_confusable a b =
    pair_is 108 49 a b
    || pair_is 108 73 a b
    || pair_is 111 48 a b
    || pair_is 79 48 a b
    || pair_is 115 53 a b
    || pair_is 103 57 a b
    || pair_is 98 54 a b
    || pair_is 122 50 a b

unfoldable pub is_confusable_swap : Text → Text → Bool
unfolding differences is_confusable
is_confusable_swap left right = length left == length right && (elim (differences 0 left right) [
  | [] ↦ false
  | (i, a, b) ∷ [] ↦ is_confusable a b
  | d ∷ e ∷ ds ↦ false
])

unfoldable pub is_transposition : Text → Text → Bool
unfolding differences
is_transposition left right = length left == length right && (elim (differences 0 left right) [
  | [] ↦ false
  | d ∷ [] ↦ false
  | (i, a, b) ∷ (j, c, d) ∷ [] ↦ j == i + 1 && a == d && c == b
  | d ∷ e ∷ f ∷ ds ↦ false
])

-- The shape of a difference, and whether it is reported at all
unfoldable pub classify :
    (distance : ℕ) → (transposed swapped same_length : Bool) → Option Resemblance
classify distance transposed swapped same_length =
    if ltb 2 distance
    then none
    else if distance == 2 && not transposed
    then none
    else if transposed
    then some transposition
    else if swapped
    then some confusable
    else if not same_length
    then some length_differs
    else some substitution

unfoldable pub resemblance_of : Text → Text → Option Resemblance
unfolding edit_distance is_transposition is_confusable_swap classify
resemblance_of name target =
    classify (edit_distance 2 name target) (is_transposition name target)
      (is_confusable_swap name target) (length name == length target)

level_of : Resemblance → SignalLevel
level_of substitution = notable
level_of _ = concerning

report : Text → Option Resemblance → Option TyposquatSignal
unfolding level_of
report target none = none
report target (some shape) =
    some record { level = level_of shape; resembles = target; resemblance = shape }

-- The loop's body, for one popular name
unfoldable pub check_target : Text → Text → Option TyposquatSignal
unfolding canonical text_eq resemblance_of report
check_target lowered target =
    if text_eq (canonical lowered) (canonical target) && not (text_eq lowered target)
    then some record { level = concerning; resembles = target; resemblance = separator }
    else report target (resemblance_of (canonical lowered) (canonical target))

abbrev first_of : Option TyposquatSignal → Option TyposquatSignal → Option TyposquatSignal
first_of (some signal) rest = some signal
first_of none rest = rest

unfoldable pub check_targets : Text → List Text → Option TyposquatSignal
unfolding check_target
check_targets lowered [] = none
check_targets lowered (target ∷ targets) =
    first_of (check_target lowered target) (check_targets lowered targets)

unfoldable pub check_typosquat : (popular distinct : List Text) → Text → Option TyposquatSignal
unfolding strip lower text_eq starts_with check_targets
check_typosquat popular distinct name =
    let lowered = lower (strip name) in
    if any (text_eq lowered) popular
    then none
    else if any (text_eq lowered) distinct
    then none
    else if starts_with (text "@") lowered
    then none
    else if ltb (length lowered) 5
    then none
    else check_targets lowered popular
