-- ===== src/Versions/Maven/Laws.antt =====
-- The order of Maven versions: antisymmetric, blind to trailing nulls, and not transitive.
use Prim.Native.Nat.{Ordering, compare, lt, eq, gt}
use weedout.Base.{
  ℕ, ◌≡◌, refl, ap, ◌∙◌, inl, inr, Bool, true, false, ◌&&◌, List, [], ◌∷◌, ◌++◌, map, arith,
  if◌then◌else◌, Bool-cases, is_empty, All,
}
use weedout.Base.Order.{swap}
use weedout.Base.Text.{Text, text, text_compare-IsPreorder}
use weedout.Versions.Maven.{
  Token, num, qualifier, maven_tokens, is_null, maven_trim, missing, compare_token, compare_tokens,
  maven_compare,
}

compare_token_flip : (a b : Token) → compare_token b a ≡ swap (compare_token a b)
unfolding compare_token
compare_token_flip (num m) (num n) = ground arith
compare_token_flip (num m) (qualifier r w) = refl
compare_token_flip (qualifier r v) (num n) = refl
compare_token_flip (qualifier q v) (qualifier r w) =
    ground (arith, text_compare-IsPreorder.flip v w)

compare_tokens_flip : (as' bs : List Token) → compare_tokens bs as' ≡ swap (compare_tokens as' bs)
unfolding compare_tokens
compare_tokens_flip [] [] = refl
compare_tokens_flip [] (b ∷ bs) =
    rw (compare_token_flip (missing b) b) (ground (arith, compare_tokens_flip [] bs))
compare_tokens_flip (a ∷ as') [] =
    rw (compare_token_flip a (missing a)) (ground (arith, compare_tokens_flip as' []))
compare_tokens_flip (a ∷ as') (b ∷ bs) =
    rw (compare_token_flip a b) (ground (arith, compare_tokens_flip as' bs))

-- Swapping the operands of the Maven comparison negates the answer.
pub maven_compare_flip : (l r : Text) → maven_compare r l ≡ swap (maven_compare l r)
unfolding maven_compare
maven_compare_flip l r =
    compare_tokens_flip (maven_trim (maven_tokens l)) (maven_trim (maven_tokens r))

maven_trim-nulls : (ts : List Token) → All (λ t. is_null t ≡ true) ts → maven_trim ts ≡ []
unfolding maven_trim
maven_trim-nulls [] h = refl
maven_trim-nulls (t ∷ ts) (h, k) = rw (maven_trim-nulls ts k, h)

-- However many nulls follow (zeros, or release qualifiers such as `ga` and `final`), trimming leaves
-- the same tokens, and trimming again changes nothing.
pub maven_trim-append :
    (ts ns : List Token)
    → All (λ t. is_null t ≡ true) ns
    → (maven_trim (ts ++ ns) ≡ maven_trim ts) × (maven_trim (maven_trim ts) ≡ maven_trim ts)
unfolding maven_trim
maven_trim-append [] ns h = (maven_trim-nulls ns h, refl)
maven_trim-append (t ∷ ts) ns h =
    let (e, i) = maven_trim-append ts ns h in
    (
      rw e,
      elim (Bool-cases (is_empty (maven_trim ts) && is_null t)) [
        | inl dropped ↦ rw dropped
        | inr kept ↦ rw kept (rw i (rw kept))
      ],
    )

-- The tokens of a release that is made of numbers
abbrev pub numbers : List ℕ → List Token
numbers = map num

-- What follows a release, where its last token is not null
abbrev pub alpha_of_zero : List Token
alpha_of_zero = num 0 ∷ qualifier 0 (text "alpha") ∷ []

abbrev pub service_pack : List Token
service_pack = qualifier 6 (text "sp") ∷ []

compare_same : (n : ℕ) → compare n n ≡ eq
compare_same n = ground arith

trim-whole :
    (ns : List ℕ) (ts : List Token)
    → maven_trim ts ≡ ts
    → is_empty ts ≡ false
    → maven_trim (numbers ns ++ ts) ≡ numbers ns ++ ts
unfolding maven_trim
trim-whole [] ts h k = h
trim-whole (n ∷ ns) ts h k = rw (trim-whole ns ts h k) (go ns)
  where
    go :
        (ms : List ℕ)
        → (if is_empty (numbers ms ++ ts) && is_null (num n) then [] else num n ∷ numbers ns ++ ts)
          ≡ num n ∷ numbers ns ++ ts
    go [] = rw k refl
    go (m ∷ ms) = refl

compare-common :
    (ns : List ℕ) (as' bs : List Token)
    → compare_tokens (numbers ns ++ as') (numbers ns ++ bs) ≡ compare_tokens as' bs
unfolding compare_tokens compare_token
compare-common [] as' bs = refl
compare-common (n ∷ ns) as' bs = rw (compare_same n) (compare-common ns as' bs)

is_eq : Ordering → Bool
is_eq o = elim o [ eq ↦ true | _ ↦ false ]

is_null_of : (n : ℕ) (o : Ordering) → compare n 0 ≡ o → is_null (num n) ≡ is_eq o
unfolding is_null is_eq
is_null_of n o e = ground (arith, e)

compare-release :
    (ns : List ℕ) (ts : List Token)
    → compare_tokens (numbers ns ++ ts) (maven_trim (numbers ns)) ≡ compare_tokens ts []
unfolding compare_tokens compare_token maven_trim is_eq
compare-release [] ts = refl
compare-release (n ∷ ns) ts =
    go (maven_trim (numbers ns)) (compare n 0) refl refl (compare-release ns ts)
  where
    go :
        (later : List Token) (o : Ordering)
        → maven_trim (numbers ns) ≡ later
        → compare n 0 ≡ o
        → compare_tokens (numbers ns ++ ts) (maven_trim (numbers ns)) ≡ compare_tokens ts []
        → compare_tokens (numbers (n ∷ ns) ++ ts) (maven_trim (numbers (n ∷ ns)))
          ≡ compare_tokens ts []
    go [] lt e z ih = rw (e, is_null_of n lt z) (rw (compare_same n) (rw e at ih))
    go [] eq e z ih = rw (e, is_null_of n eq z) (rw z (rw e at ih))
    go [] gt e z ih = rw (e, is_null_of n gt z) (rw (compare_same n) (rw e at ih))
    go (t ∷ later) o e z ih = rw e (rw (compare_same n) (rw e at ih))

-- The Maven comparison goes round in a circle at every release that is made of numbers: where the tokens of
-- `release` are numbers, those of `alpha` are the same with `0` and `alpha` after them, as in `1.0-alpha`, and
-- those of `pack` the same with `sp`, as in `1-sp`, it puts `alpha` before `release`, `release` before
-- `pack`, and `pack` before `alpha`. So it is not transitive.
pub maven_compare_circle :
    (ns : List ℕ) (alpha release pack : Text)
    → maven_tokens alpha ≡ numbers ns ++ alpha_of_zero
    → maven_tokens release ≡ numbers ns
    → maven_tokens pack ≡ numbers ns ++ service_pack
    → (maven_compare alpha release ≡ lt)
      × (maven_compare release pack ≡ lt)
      × (maven_compare pack alpha ≡ lt)
unfolding maven_compare compare_tokens compare_token
maven_compare_circle ns alpha release pack a r p = (
  rw (a, r, trim-whole ns alpha_of_zero refl refl) (compare-release ns alpha_of_zero),
  rw (r, p, trim-whole ns service_pack refl refl)
      (compare_tokens_flip (numbers ns ++ service_pack) (maven_trim (numbers ns))
        ∙ ap swap (compare-release ns service_pack)),
  rw (p, a, trim-whole ns service_pack refl refl, trim-whole ns alpha_of_zero refl refl)
      (compare-common ns service_pack alpha_of_zero),
)
