-- ===== src/Versions/Maven.antt =====
-- Maven versions of app/core/versions.py: tokens, trailing nulls and their order.
pub mod Laws
use Prim.Native.Nat.{Ordering, compare, lt, eq, gt}
use weedout.Base.{
  ℕ, Bool, false, not, ◌&&◌, ◌||◌, List, [], ◌∷◌, ◌++◌, map, ◌==◌, if◌then◌else◌, all, is_empty,
}
use weedout.Base.Order.{then_by}
use weedout.Base.Text.{
  Text, text, text_eq, text_compare, is_digit, is_upper, is_lower, lower, strip, split_by, int,
}

pub data Token : Type 0 where
  num : ℕ → Token
  qualifier : ℕ → Text → Token

-- `_MAVEN_QUALIFIERS.get(piece, _MAVEN_UNKNOWN_RANK)`
unfoldable pub qualifier_rank : Text → ℕ
unfolding text_eq
qualifier_rank piece =
    if text_eq piece (text "alpha") || text_eq piece (text "a")
    then 0
    else if text_eq piece (text "beta") || text_eq piece (text "b")
    then 1
    else if text_eq piece (text "milestone") || text_eq piece (text "m")
    then 2
    else if text_eq piece (text "rc") || text_eq piece (text "cr")
    then 3
    else if text_eq piece (text "snapshot")
    then 4
    else if text_eq piece []
        || text_eq piece (text "ga")
        || text_eq piece (text "final")
        || text_eq piece (text "release")
    then 5
    else if text_eq piece (text "sp")
    then 6
    else 7

is_letter : ℕ → Bool
unfolding is_upper is_lower
is_letter c = is_upper c || is_lower c

-- The next character continues a run of digits or of letters that `c` is in.
continues : ℕ → Text → Bool
unfolding is_letter is_digit
continues c [] = false
continues c (d ∷ s) = is_digit c && is_digit d || is_letter c && is_letter d

put_front : ℕ → List Text → List Text
put_front c [] = (c ∷ []) ∷ []
put_front c (w ∷ ws) = (c ∷ w) ∷ ws

-- `re.findall(r"(\d+|[A-Za-z]+)", part)`: the runs of digits and of letters
pieces : Text → List Text
unfolding continues put_front
pieces [] = []
pieces (c ∷ s) =
    let later = pieces s in
    if not (is_digit c || is_letter c)
    then later
    else if continues c s
    then put_front c later
    else (c ∷ []) ∷ later

is_separator : ℕ → Bool
is_separator c = c == 46 || c == 45 || c == 95 || c == 43

token : Text → Token
unfolding qualifier_rank
token piece = if all is_digit piece then num (int piece) else qualifier (qualifier_rank piece) piece

concat : List (List Token) → List Token
concat [] = []
concat (ts ∷ tss) = ts ++ concat tss

-- `_maven_tokens`
unfoldable pub maven_tokens : Text → List Token
unfolding pieces is_separator token concat split_by lower strip
maven_tokens value =
    concat (map (λ part. map token (pieces part)) (split_by is_separator (lower (strip value))))

-- `last[0] == 0 and last[1] == 0`, or a qualifier of the release's rank
unfoldable pub is_null : Token → Bool
is_null (num n) = n == 0
is_null (qualifier r w) = r == 5

-- `_maven_trim`, from the front: a token goes where it is null and so is all that follows.
unfoldable pub maven_trim : List Token → List Token
unfolding is_null
maven_trim [] = []
maven_trim (t ∷ ts) =
    let later = maven_trim ts in if is_empty later && is_null t then [] else t ∷ later

-- What stands for a missing token: the null of the other side's kind.
unfoldable pub missing : Token → Token
missing (num n) = num 0
missing (qualifier r w) = qualifier 5 []

unfoldable pub compare_token : Token → Token → Ordering
compare_token (num m) (num n) = compare m n
compare_token (num m) (qualifier r w) = gt
compare_token (qualifier r v) (num n) = lt
compare_token (qualifier q v) (qualifier r w) = then_by (compare q r) (text_compare v w)

-- The loop of `_maven_compare`
unfoldable pub compare_tokens : List Token → List Token → Ordering
unfolding missing compare_token
compare_tokens [] [] = eq
compare_tokens [] (b ∷ bs) = then_by (compare_token (missing b) b) (compare_tokens [] bs)
compare_tokens (a ∷ as') [] = then_by (compare_token a (missing a)) (compare_tokens as' [])
compare_tokens (a ∷ as') (b ∷ bs) = then_by (compare_token a b) (compare_tokens as' bs)

unfoldable pub maven_compare : Text → Text → Ordering
unfolding maven_tokens maven_trim compare_tokens
maven_compare l r = compare_tokens (maven_trim (maven_tokens l)) (maven_trim (maven_tokens r))
