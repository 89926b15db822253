-- ===== src/Matching/Glob/Laws.antt =====
-- What the package globs of app/core/matching.py match.
use weedout.Base.{
  ◌≡◌, refl, sym, ap, ◌∙◌, Bool, true, false, ◌||◌, List, [], ◌∷◌, ◌++◌, map, append-nil, arith,
  ◌==◌, length, All,
}
use weedout.Base.Text.{Text, text, text_eq, lower, starts_with}
use weedout.Matching.Glob.{Glob, star, exactly, translate, glob_match, translate_from, any_suffix}

-- No character has a meaning of its own in a glob.
abbrev pub IsPlain : Text → Type 0
IsPlain p = All (λ c. (c == 42 || c == 63 || c == 91) ≡ false) p

translate_from-plain :
    (p s : Text)
    → IsPlain p
    → translate_from (length (p ++ s)) (p ++ s) ≡ map exactly p ++ translate_from (length s) s
unfolding translate_from
translate_from-plain [] s h = refl
translate_from-plain (c ∷ p) s (k, h) = ground (arith, translate_from-plain p s h)

match-exactly : (p s : Text) → glob_match (map exactly p) s ≡ text_eq (lower p) (lower s)
unfolding glob_match lower text_eq
match-exactly [] [] = refl
match-exactly [] (c ∷ s) = refl
match-exactly (a ∷ p) [] = refl
match-exactly (a ∷ p) (c ∷ s) = rw (match-exactly p s)

match-star : (s : Text) → glob_match (star ∷ []) s ≡ true
unfolding glob_match
match-star [] = refl
match-star (c ∷ s) = match-star s

match-prefix :
    (p s : Text) → glob_match (map exactly p ++ star ∷ []) s ≡ starts_with (lower p) (lower s)
unfolding glob_match lower starts_with
match-prefix [] s = match-star s
match-prefix (a ∷ p) [] = refl
match-prefix (a ∷ p) (c ∷ s) = rw (match-prefix p s)

-- A pattern without `*`, `?` and `[` matches exactly the names that it equals up to case; with a `*`
-- behind it, exactly the names that begin with it up to case.
pub glob_match-plain :
    (p s : Text)
    → IsPlain p
    → (glob_match (translate p) s ≡ text_eq (lower p) (lower s))
      × (glob_match (translate (p ++ text "*")) s ≡ starts_with (lower p) (lower s))
unfolding translate
glob_match-plain p s h = (
  ap (λ t. glob_match (translate_from (length t) t) s) (sym (append-nil p))
      ∙ ap (λ gs. glob_match gs s) (translate_from-plain p [] h ∙ append-nil (map exactly p))
      ∙ match-exactly p s,
  ap (λ gs. glob_match gs s) (translate_from-plain p (text "*") h) ∙ match-prefix p s,
)

any_suffix-end : (m : Text → Bool) (s : Text) → m [] ≡ true → any_suffix m s ≡ true
unfolding any_suffix
any_suffix-end m [] h = h
any_suffix-end m (c ∷ s) h = ground (arith, any_suffix-end m s h)

-- A star before what matches the empty text matches every text.
pub star-glob_match :
    (gs : List Glob) (s : Text) → glob_match gs [] ≡ true → glob_match (star ∷ gs) s ≡ true
unfolding glob_match
star-glob_match gs s h = any_suffix-end (glob_match gs) s h
