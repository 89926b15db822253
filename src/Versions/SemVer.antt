-- ===== src/Versions/SemVer.antt =====
-- `SemVer` of app/core/versions.py: parsing, printing and precedence.
pub mod Precedence
pub mod Equality
pub mod RoundTrip
pub mod Pieces
use Prim.Native.Nat.{Ordering, compare, lt, eq, gt}
use weedout.Base.{
  ℕ, ◌-◌, max, Bool, not, ◌&&◌, ◌||◌, Option, none, some, List, [], ◌∷◌, ◌++◌, map, ◌==◌,
  if◌then◌else◌, length, replicate, all, is_empty,
}
use weedout.Base.Order.{then_by, lexicographic}
use weedout.Base.Text.{
  Text, text, text_eq, text_compare, is_digit, is_upper, is_lower, is_space, remove_prefix, lstrip,
  split, join, span, int, show,
}

pub data Ident : Type 0 where
  num : ℕ → Ident
  word : Text → Ident

pub record SemVer : Type 0 where
  pub major : ℕ
  pub minor : ℕ
  pub patch : ℕ
  pub extra : List ℕ
  pub prerelease : List Ident
  pub build : Option Text

-- `_release_key`
abbrev pub release_key : SemVer → List ℕ
release_key v = v.major ∷ v.minor ∷ v.patch ∷ v.extra

-- `a += (0,) * (width - len(a))`
unfoldable pub zero_pad : ℕ → List ℕ → List ℕ
zero_pad width a = a ++ replicate (width - length a) 0

-- `-1 if x < y else 1` where `x != y`, and 0 where they are equal
unfoldable pub compare_ident : Ident → Ident → Ordering
compare_ident (num x) (num y) = compare x y
compare_ident (num x) (word t) = lt
compare_ident (word s) (num y) = gt
compare_ident (word s) (word t) = text_compare s t

-- The loop over `zip(self.prerelease, other.prerelease)`: the first pair that differs decides, and
-- the comparison of the lengths decides where there is none.
unfoldable pub compare_prerelease : List Ident → List Ident → Ordering
unfolding compare_ident
compare_prerelease [] [] = eq
compare_prerelease [] (y ∷ ys) = lt
compare_prerelease (x ∷ xs) [] = gt
compare_prerelease (x ∷ xs) (y ∷ ys) = then_by (compare_ident x y) (compare_prerelease xs ys)

-- `_compare`
unfoldable pub compare_semver : SemVer → SemVer → Ordering
unfolding zero_pad compare_prerelease
compare_semver v w =
    let width = max (length (release_key v)) (length (release_key w)) in
    let a = zero_pad width (release_key v) in
    let b = zero_pad width (release_key w) in
    if not (text_eq a b)
    then lexicographic compare a b
    else if is_empty v.prerelease && is_empty w.prerelease
    then eq
    else if is_empty v.prerelease
    then gt
    else if is_empty w.prerelease
    then lt
    else compare_prerelease v.prerelease w.prerelease

unfoldable pub print_ident : Ident → Text
print_ident (num n) = show n
print_ident (word t) = t

print_extra : List ℕ → Text
print_extra [] = []
print_extra (n ∷ ns) = text "." ++ join (text ".") (map show (n ∷ ns))

print_prerelease : List Ident → Text
unfolding print_ident
print_prerelease [] = []
print_prerelease (i ∷ is) = text "-" ++ join (text ".") (map print_ident (i ∷ is))

print_build : Option Text → Text
print_build none = []
print_build (some []) = []
print_build (some (c ∷ b)) = text "+" ++ c ∷ b

-- `__str__`
unfoldable pub print : SemVer → Text
unfolding print_extra print_prerelease print_build
print v =
    (show v.major
      ++ (text "." ++ (show v.minor ++ (text "." ++ show v.patch)))
      ++ print_extra v.extra)
    ++ (print_prerelease v.prerelease ++ print_build v.build)

-- The characters of the release part of the pattern, and those of its two labels.
is_release_char : ℕ → Bool
unfolding is_digit
is_release_char c = is_digit c || c == 46

unfoldable pub is_label_char : ℕ → Bool
unfolding is_digit is_upper is_lower
is_label_char c = is_digit c || is_upper c || is_lower c || c == 46 || c == 45

-- `\d+` on a whole text
unfoldable pub is_number : Text → Bool
is_number w = not (is_empty w) && all is_digit w

-- `(?:-(?P<prerelease>[0-9A-Za-z.\-]+))?`, and with `+` the build group
section : ℕ → Text → Option Text × Text
unfolding is_label_char
section mark [] = (none, [])
section mark (c ∷ s) =
    let (w, rest) = span is_label_char s in
    if c == mark && not (is_empty w) then (some w, rest) else (none, c ∷ s)

read_ident : Text → Ident
unfolding is_number
read_ident w = if is_number w then num (int w) else word w

read_prerelease : Option Text → List Ident
unfolding read_ident
read_prerelease none = []
read_prerelease (some pre) = map read_ident (split 46 pre)

first : List ℕ → ℕ
first [] = 0
first (n ∷ ns) = n

others : List ℕ → List ℕ
others [] = []
others (n ∷ ns) = ns

-- `minor` and `patch` are 0 where the text has fewer numbers.
release : List ℕ → Option Text → Option Text → SemVer
unfolding read_prerelease first others
release ns pre b = record {
  major = first ns;
  minor = first (others ns);
  patch = first (others (others ns));
  extra = others (others (others ns));
  prerelease = read_prerelease pre;
  build = b;
}

-- `SemVer.parse`. The pattern's numbers and dots are one run of characters: `\d+(\.\d+)*`. `none` is
-- `InvalidVersion`.
unfoldable pub parse : Text → Option SemVer
unfolding is_release_char is_number section release
parse raw =
    let (core, s) = span is_release_char (remove_prefix (text "v") (lstrip raw)) in
    let (pre, s') = section 45 s in
    let (b, s'') = section 43 s' in
    if all is_number (split 46 core) && all is_space s''
    then some (release (map int (split 46 core)) pre b)
    else none
