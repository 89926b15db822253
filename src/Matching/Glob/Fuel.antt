-- ===== src/Matching/Glob/Fuel.antt =====
-- The fuel of the glob translation (app/core/matching.py) is enough: more of it changes nothing.
use mathlib.Core.Path.{ap₂}
use weedout.Base.{
  ℕ, zero, suc, ◌≤◌, ◌≡◌, refl, ap, Bool, true, false, Option, none, some, List, [], ◌∷◌, arith,
  ◌==◌, if◌then◌else◌, length,
}
use weedout.Base.Maybe.{map_option}
use weedout.Base.Text.{Text}
use weedout.Matching.Glob.{
  Glob, star, one, one_of, none_of, exactly, items, until_close, bracket_body, bracket,
  translate_from,
}

nothing_less : (n : ℕ) → suc n ≤ 0 → ⊥
nothing_less n h = omega arith

items-enough : (n m : ℕ) (s : Text) → length s ≤ n → length s ≤ m → items n s ≡ items m s
unfolding items
items-enough zero zero s h k = refl
items-enough zero (suc m) [] h k = refl
items-enough (suc n) zero [] h k = refl
items-enough zero (suc m) (a ∷ s) h k = elim (nothing_less (length s) h) [ ]
items-enough (suc n) zero (a ∷ s) h k = elim (nothing_less (length s) k) [ ]
items-enough (suc n) (suc m) [] h k = refl
items-enough (suc n) (suc m) (a ∷ []) h k = refl
items-enough (suc n) (suc m) (a ∷ b ∷ []) h k = refl
items-enough (suc n) (suc m) (a ∷ b ∷ c ∷ s) h k =
    rw
      (
        items-enough n m s (omega arith) (omega arith),
        items-enough n m (b ∷ c ∷ s) (omega arith) (omega arith),
      )
      refl

-- What is left is no longer than the text.
abbrev IsShort : {A : Type 0} → ℕ → Option (A × Text) → Type 0
IsShort n none = Unit
IsShort n (some p) = length p.1 ≤ n

IsShort-map :
    {A B : Type 0} (n : ℕ) (f : A → B) (o : Option (A × Text))
    → IsShort n o
    → IsShort n (map_option (λ p. (f p.0, p.1)) o)
IsShort-map n f none h = tt
IsShort-map n f (some p) h = h

IsShort-suc : {A : Type 0} (n : ℕ) (o : Option (A × Text)) → IsShort n o → IsShort (suc n) o
IsShort-suc n none h = tt
IsShort-suc n (some p) h = omega (arith, h)

until_close-IsShort : (s : Text) → IsShort (length s) (until_close s)
unfolding until_close
until_close-IsShort [] = tt
until_close-IsShort (c ∷ s) = go (c == 93) (
    IsShort-suc (length s) _
      (IsShort-map (length s) (λ w. c ∷ w) (until_close s) (until_close-IsShort s)))
  where
    go :
        (b : Bool)
        → IsShort (suc (length s)) (map_option (λ p. (c ∷ p.0, p.1)) (until_close s))
        → IsShort
            (suc (length s))
            (if b then some ([], s) else map_option (λ p. (c ∷ p.0, p.1)) (until_close s))
    go true h = omega arith
    go false h = h

bracket_body-IsShort : (s : Text) → IsShort (length s) (bracket_body s)
unfolding bracket_body
bracket_body-IsShort [] = tt
bracket_body-IsShort (c ∷ s) = go (c == 93)
  where
    go :
        (b : Bool)
        → IsShort
            (suc (length s))
            (if b then map_option (λ p. (93 ∷ p.0, p.1)) (until_close s) else until_close (c ∷ s))
    go true =
        IsShort-suc (length s) _
          (IsShort-map (length s) (λ w. 93 ∷ w) (until_close s) (until_close-IsShort s))
    go false = until_close-IsShort (c ∷ s)

bracket-IsShort : (s : Text) → IsShort (length s) (bracket s)
unfolding bracket
bracket-IsShort [] = tt
bracket-IsShort (c ∷ s) = go (c == 33)
  where
    go :
        (b : Bool)
        → IsShort (suc (length s)) (
            if b
            then map_option (λ p. (none_of (items (length p.0) p.0), p.1)) (bracket_body s)
            else map_option (λ p. (one_of (items (length p.0) p.0), p.1)) (bracket_body (c ∷ s)))
    go true = IsShort-suc (length s) _ (
        IsShort-map (length s) (λ w. none_of (items (length w) w)) (bracket_body s)
          (bracket_body-IsShort s))
    go false =
        IsShort-map (suc (length s)) (λ w. one_of (items (length w) w)) (bracket_body (c ∷ s))
          (bracket_body-IsShort (c ∷ s))

-- Any fuel from the length of the pattern on gives the translation.
translate_from-enough :
    (n m : ℕ) (s : Text) → length s ≤ n → length s ≤ m → translate_from n s ≡ translate_from m s
unfolding translate_from
translate_from-enough zero zero s h k = refl
translate_from-enough zero (suc m) [] h k = refl
translate_from-enough (suc n) zero [] h k = refl
translate_from-enough zero (suc m) (a ∷ s) h k = elim (nothing_less (length s) h) [ ]
translate_from-enough (suc n) zero (a ∷ s) h k = elim (nothing_less (length s) k) [ ]
translate_from-enough (suc n) (suc m) [] h k = refl
translate_from-enough (suc n) (suc m) (c ∷ s) h k =
    ap₂
      (λ later class.
        if c == 42
        then star ∷ later
        else if c == 63
        then one ∷ later
        else if c == 91
        then class
        else exactly c ∷ later)
      (translate_from-enough n m s (omega arith) (omega arith))
      (go (bracket s) (bracket-IsShort s) (λ t. translate_from-enough n m t))
  where
    class_on : ℕ → Option (Glob × Text) → List Glob
    class_on fuel o = elim o [
      | none ↦ exactly 91 ∷ translate_from fuel s
      | some p ↦ p.0 ∷ translate_from fuel p.1
    ]

    go :
        (o : Option (Glob × Text))
        → IsShort (length s) o
        → ((t : Text) → length t ≤ n → length t ≤ m → translate_from n t ≡ translate_from m t)
        → class_on n o ≡ class_on m o
    go none b rec = ap (λ gs. exactly 91 ∷ gs) (rec s (omega arith) (omega arith))
    go (some p) b rec = ap (λ gs. p.0 ∷ gs) (rec p.1 (omega (arith, b)) (omega (arith, b)))
