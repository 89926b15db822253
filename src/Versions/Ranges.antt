-- ===== src/Versions/Ranges.antt =====
-- The public functions of app/core/versions.py: `normalize`, `compare`, `in_range`,
-- `version_matches` and `first_fixed_version`. `none` is a raised `InvalidVersion`.
pub mod Order
pub mod Intervals
pub mod Fixed
use weedout.Base.Maybe.{◌>>=◌}
use Prim.Native.Nat.{Ordering, lt, gt}
use weedout.Base.{
  Bool, true, false, ◌&&◌, ◌||◌, Option, none, some, List, [], ◌∷◌, if◌then◌else◌, is_some, any,
  is_empty,
}
use weedout.Base.Maybe.{map_option}
use weedout.Base.Order.{IsPreorder}
use weedout.Base.Text.{Text, text, text_eq, remove_prefix, remove_suffix, strip}
use weedout.SupplyChain.Edits.{last}
use weedout.Types.{Ecosystem, npm, pypi, go, maven, AffectedRange, AffectedPackage}
use weedout.Versions.Maven.{maven_tokens, maven_compare}
use weedout.Versions.SemVer.{SemVer, compare_semver, parse}

-- `packaging.version.Version`: parsing, and a comparison by which `==` and `<` are decided. It is
-- documented as a total order.
pub record Pep440 : Type 1 where
  pub Version : Type 0
  pub parse_pep440 : Text → Option Version
  pub compare_pep440 : Version → Version → Ordering
  pub compare_pep440-IsPreorder : IsPreorder compare_pep440

-- `normalize`
unfoldable pub normalize : Ecosystem → Text → Text
unfolding strip remove_prefix remove_suffix
normalize go raw = remove_suffix (text "+incompatible") (remove_prefix (text "v") (strip raw))
normalize npm raw = remove_prefix (text "v") (strip raw)
normalize _ raw = strip raw

-- What `_parse` returns
pub data Parsed (V : Type 0) : Type 0 where
  semver : SemVer → Parsed V
  pep440 : V → Parsed V
  maven_version : Text → Parsed V

-- `introduced not in (None, "")` and the like: a bound that is there
abbrev pub given : Option Text → Option Text
given none = none
given (some []) = none
given (some (c ∷ s)) = some (c ∷ s)

-- `compare(…) < 0`, `<= 0` and `> 0`
abbrev pub is_lt : Ordering → Bool
is_lt lt = true
is_lt _ = false

abbrev pub is_le : Ordering → Bool
is_le gt = false
is_le _ = true

abbrev pub is_gt : Ordering → Bool
is_gt gt = true
is_gt _ = false

module _ (pep : Pep440) where
  parse_value : Ecosystem → Text → Option (Parsed pep.Version)
  parse_value pypi value = map_option pep440 (pep.parse_pep440 value)
  parse_value maven value =
      if is_empty (maven_tokens value) then none else some (maven_version value)
  parse_value _ value = map_option semver (parse value)

  -- `_parse`
  unfoldable pub parse_version : Ecosystem → Text → Option (Parsed pep.Version)
  unfolding parse_value
  parse_version e raw =
      let value = normalize e raw in if is_empty value then none else parse_value e value

  -- `==` and `<` of two parsed versions. Those of one ecosystem have one constructor; the other
  -- cases do not occur.
  unfoldable pub order_parsed : Parsed pep.Version → Parsed pep.Version → Ordering
  order_parsed (semver v) (semver w) = compare_semver v w
  order_parsed (pep440 v) (pep440 w) = pep.compare_pep440 v w
  order_parsed (maven_version v) (maven_version w) = maven_compare v w
  order_parsed (semver v) q = lt
  order_parsed (pep440 v) (semver w) = gt
  order_parsed (pep440 v) (maven_version w) = lt
  order_parsed (maven_version v) q = gt

  -- `compare`
  unfoldable pub compare_versions : Ecosystem → Text → Text → Option Ordering
  unfolding parse_version order_parsed strip
  compare_versions maven l r =
      if is_empty (strip l) || is_empty (strip r) then none else some (maven_compare l r)
  compare_versions e l r = do a ← parse_version e l; b ← parse_version e r; some (order_parsed a b)

  -- `introduced not in (None, "", "0")`, and `compare(version, introduced) < 0`
  unfoldable pub below_introduced : Ecosystem → Text → Option Text → Option Bool
  below_introduced e v none = some false
  below_introduced e v (some i) =
      let test = map_option is_lt (compare_versions e v i) in
      if text_eq i (text "0") then some false else test

  unfoldable pub below_upper : Ecosystem → Text → Option Text → Option Text → Option Bool
  below_upper e v (some f) last = map_option is_lt (compare_versions e v f)
  below_upper e v none (some l) = map_option is_le (compare_versions e v l)
  below_upper e v none none = some true

  -- `in_range`
  unfoldable pub in_range : Ecosystem → Text → AffectedRange → Option Bool
  unfolding below_introduced below_upper
  in_range e v r = do
    below ← below_introduced e v (given r.introduced)
    if below then some false else below_upper e v (given r.fixed) (given r.last_affected)

  -- A range that raises is skipped.
  abbrev pub range_hits : Ecosystem → Text → AffectedRange → Bool
  range_hits e v r = elim (in_range e v r) [ none ↦ false | some b ↦ b ]

  -- `version_matches`
  unfoldable pub version_matches : Ecosystem → Text → AffectedPackage → Bool
  unfolding text_eq
  version_matches e v p =
      is_some (parse_version e v)
      && (any (λ c. text_eq (normalize e c) (normalize e v)) p.versions
          || any (range_hits e v) p.ranges)

  above : Ecosystem → Text → Text → Bool
  above e a b = elim (compare_versions e a b) [ none ↦ false | some c ↦ is_gt c ]

  below : Ecosystem → Text → Text → Bool
  below e a b = elim (compare_versions e a b) [ none ↦ false | some c ↦ is_lt c ]

  -- A range without a fix, or with one that is not above the version or raises, is passed over.
  consider : Ecosystem → Text → Option Text → List Text → List Text
  unfolding above
  consider e v none later = later
  consider e v (some f) later = if above e f v then f ∷ later else later

  -- The first loop of `first_fixed_version`
  unfoldable pub fix_candidates : Ecosystem → Text → List AffectedRange → List Text
  unfolding consider
  fix_candidates e v [] = []
  fix_candidates e v (r ∷ rs) = consider e v (given r.fixed) (fix_candidates e v rs)

  -- The second loop: the lowest so far, against each candidate
  unfoldable pub lowest_of : Ecosystem → Text → List Text → Text
  unfolding below
  lowest_of e lowest [] = lowest
  lowest_of e lowest (c ∷ cs) = lowest_of e (if below e c lowest then c else lowest) cs

  lowest_candidate : Ecosystem → List Text → Option Text
  unfolding lowest_of
  lowest_candidate e [] = none
  lowest_candidate e (c ∷ cs) = some (lowest_of e c cs)

  -- `first_fixed_version`
  unfoldable pub first_fixed_version : Ecosystem → Text → AffectedPackage → Option Text
  unfolding fix_candidates lowest_candidate
  first_fixed_version e v p = lowest_candidate e (fix_candidates e v p.ranges)
