-- ===== src/Matching/Glob.antt =====
-- The package-name globs of app/core/matching.py: `fnmatch.translate` and a full match that
-- ignores case.
pub mod Laws
pub mod Fuel
use weedout.Base.{
  ℕ, zero, suc, Bool, true, false, not, ◌&&◌, ◌||◌, Option, none, some, List, [], ◌∷◌, leb, ◌==◌,
  if◌then◌else◌, length, any,
}
use weedout.Base.Maybe.{map_option}
use weedout.Base.Text.{Text, upper_char, lower_char}

pub data Item : Type 0 where
  single : ℕ → Item
  between : ℕ → ℕ → Item

pub data Glob : Type 0 where
  star one : Glob
  one_of none_of : List Item → Glob
  exactly : ℕ → Glob

-- The inside of brackets: `a-z` is a range where something stands on both sides of the dash.
items : ℕ → Text → List Item
items zero s = []
items (suc fuel) [] = []
items (suc fuel) (a ∷ []) = single a ∷ []
items (suc fuel) (a ∷ b ∷ []) = single a ∷ single b ∷ []
items (suc fuel) (a ∷ b ∷ c ∷ s) =
    let ranged = between a c ∷ items fuel s in
    let plain = single a ∷ items fuel (b ∷ c ∷ s) in if b == 45 then ranged else plain

-- Up to the first `]`, if there is one.
until_close : Text → Option (Text × Text)
until_close [] = none
until_close (c ∷ s) =
    let later = until_close s in
    if c == 93 then some ([], s) else map_option (λ p. (c ∷ p.0, p.1)) later

-- A `]` that stands first is inside the brackets.
bracket_body : Text → Option (Text × Text)
unfolding until_close
bracket_body [] = none
bracket_body (c ∷ s) =
    if c == 93 then map_option (λ p. (93 ∷ p.0, p.1)) (until_close s) else until_close (c ∷ s)

-- What follows a `[`: a class and the rest of the pattern, or `none` where it is not closed.
bracket : Text → Option (Glob × Text)
unfolding bracket_body items
bracket [] = none
bracket (c ∷ s) =
    if c == 33
    then map_option (λ p. (none_of (items (length p.0) p.0), p.1)) (bracket_body s)
    else map_option (λ p. (one_of (items (length p.0) p.0), p.1)) (bracket_body (c ∷ s))

-- `fnmatch.translate`, one character or class of the pattern at a time
translate_from : ℕ → Text → List Glob
unfolding bracket
translate_from zero s = []
translate_from (suc fuel) [] = []
translate_from (suc fuel) (c ∷ s) =
    let later = translate_from fuel s in
    let class : List Glob = elim (bracket s) [
      | none ↦ exactly 91 ∷ translate_from fuel s
      | some p ↦ p.0 ∷ translate_from fuel p.1
    ] in
    if c == 42
    then star ∷ later
    else if c == 63
    then one ∷ later
    else if c == 91
    then class
    else exactly c ∷ later

unfoldable pub translate : Text → List Glob
unfolding translate_from
translate pattern' = translate_from (length pattern') pattern'

item_has : ℕ → Item → Bool
item_has c (single a) = a == c
item_has c (between a b) = leb a c && leb c b

-- A class holds a character where it holds its lower or its upper case.
class_has : List Item → ℕ → Bool
unfolding item_has lower_char upper_char
class_has is c = any (item_has (lower_char c)) is || any (item_has (upper_char c)) is

glob_char : Glob → ℕ → Bool
unfolding class_has
glob_char star c = false
glob_char one c = true
glob_char (one_of is) c = class_has is c
glob_char (none_of is) c = not (class_has is c)
glob_char (exactly a) c = lower_char a == lower_char c

any_suffix : (Text → Bool) → Text → Bool
any_suffix m [] = m []
any_suffix m (c ∷ s) = m (c ∷ s) || any_suffix m s

unfoldable pub glob_match : List Glob → Text → Bool
unfolding glob_char any_suffix
glob_match [] [] = true
glob_match [] (c ∷ s) = false
glob_match (star ∷ gs) s = any_suffix (glob_match gs) s
glob_match (g ∷ gs) [] = false
glob_match (g ∷ gs) (c ∷ s) = glob_char g c && glob_match gs s
