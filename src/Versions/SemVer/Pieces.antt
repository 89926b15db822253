-- ===== src/Versions/SemVer/Pieces.antt =====
-- Texts that are taken apart and joined again, as the patterns of app/core/versions.py do it.
use weedout.Base.{
  ℕ, ◌≡◌, refl, ap, ◌∙◌, Bool, true, false, List, [], ◌∷◌, ◌++◌, arith, ◌==◌, any, all, All,
}
use weedout.Base.Text.{Text, text, split_by, split, join, span}

-- A text at whose start a run of the characters `p` ends.
abbrev pub Stops : (ℕ → Bool) → Text → Type 0
Stops p [] = Unit
Stops p (c ∷ s) = p c ≡ false

pub span-append :
    (p : ℕ → Bool) (w s : Text) → all p w ≡ true → Stops p s → span p (w ++ s) ≡ (w, s)
unfolding span
span-append p [] [] h k = refl
span-append p [] (c ∷ s) h k = rw k
span-append p (c ∷ w) s h k = ground (arith, span-append p w s (ground arith) k)

pub split_by_self : (p : ℕ → Bool) (w : Text) → any p w ≡ false → split_by p w ≡ w ∷ []
unfolding split_by
split_by_self p [] h = refl
split_by_self p (c ∷ w) h = ground (arith, split_by_self p w)

pub split_by-append :
    (p : ℕ → Bool) (w s : Text) (c : ℕ)
    → any p w ≡ false
    → p c ≡ true
    → split_by p (w ++ c ∷ s) ≡ w ∷ split_by p s
unfolding split_by
split_by-append p [] s c h k = rw k
split_by-append p (d ∷ w) s c h k = ground (arith, split_by-append p w s c)

-- Splitting at the separator undoes a join of parts without it.
pub split-join :
    (w : Text) (ws : List Text)
    → All (λ v. any (λ c. c == 46) v ≡ false) (w ∷ ws)
    → split 46 (join (text ".") (w ∷ ws)) ≡ w ∷ ws
unfolding split join
split-join w [] h = split_by_self _ w h.0
split-join w (v ∷ ws) h =
    split_by-append _ w _ 46 h.0 refl ∙ ap (λ vs. w ∷ vs) (split-join v ws h.1)

pub all-append :
    (p : ℕ → Bool) (s t : Text) → all p s ≡ true → all p t ≡ true → all p (s ++ t) ≡ true
all-append p [] t h k = k
all-append p (c ∷ s) t h k = ground (arith, all-append p s t)

pub all-join :
    (p : ℕ → Bool) (ws : List Text)
    → p 46 ≡ true
    → All (λ w. all p w ≡ true) ws
    → all p (join (text ".") ws) ≡ true
unfolding join
all-join p [] d h = refl
all-join p (w ∷ []) d h = h.0
all-join p (w ∷ v ∷ ws) d h = all-append p w _ h.0 (ground (arith, all-join p (v ∷ ws) d h.1))

pub all_mono :
    (p q : ℕ → Bool) (w : Text)
    → ((c : ℕ) → p c ≡ true → q c ≡ true)
    → all p w ≡ true
    → all q w ≡ true
all_mono p q [] f h = refl
all_mono p q (c ∷ w) f h = ground (arith, f c, all_mono p q w f)

pub any-none :
    (p q : ℕ → Bool) (w : Text)
    → ((c : ℕ) → p c ≡ true → q c ≡ false)
    → all p w ≡ true
    → any q w ≡ false
any-none p q [] f h = refl
any-none p q (c ∷ w) f h = ground (arith, f c, any-none p q w f)
