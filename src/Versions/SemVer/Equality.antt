-- ===== src/Versions/SemVer/Equality.antt =====
-- Which versions are equal in the order of `SemVer` (app/core/versions.py).
use Prim.Native.Nat.{Ordering, eq}
use mathlib.Core.Path.{ap₂}
use weedout.Base.{ℕ, zero, suc, ◌≡◌, refl, sym, ◌∙◌, subst, ◌↔◌, List, [], ◌∷◌, arith, get_or}
use weedout.Base.Order.{then_by, cmp_refl, lexicographic}
use weedout.Base.Text.{Text, text_compare}
use weedout.Versions.SemVer.{
  num, Ident, word, SemVer, release_key, compare_ident, compare_prerelease, compare_semver,
}
use weedout.Versions.SemVer.Precedence.{
  compare_release, compare_label, compare_label-IsPreorder, compare_semver-precedence,
}

compare_release_sound :
    (xs ys : List ℕ) → compare_release xs ys ≡ eq → (i : ℕ) → get_or xs i 0 ≡ get_or ys i 0
unfolding compare_release
compare_release_sound [] [] h i = refl
compare_release_sound [] (y ∷ ys) h zero = ground arith
compare_release_sound [] (y ∷ ys) h (suc i) =
    ground (arith, compare_release_sound [] ys (ground arith) i)
compare_release_sound (x ∷ xs) [] h zero = ground arith
compare_release_sound (x ∷ xs) [] h (suc i) =
    ground (arith, compare_release_sound xs [] (ground arith) i)
compare_release_sound (x ∷ xs) (y ∷ ys) h zero = ground arith
compare_release_sound (x ∷ xs) (y ∷ ys) h (suc i) = compare_release_sound xs ys (ground arith) i

compare_release_complete :
    (xs ys : List ℕ) → ((i : ℕ) → get_or xs i 0 ≡ get_or ys i 0) → compare_release xs ys ≡ eq
unfolding compare_release
compare_release_complete [] [] h = refl
compare_release_complete [] (y ∷ ys) h =
    let first = h 0 in ground (arith, compare_release_complete [] ys (λ i. h (suc i)))
compare_release_complete (x ∷ xs) [] h =
    let first = h 0 in ground (arith, compare_release_complete xs [] (λ i. h (suc i)))
compare_release_complete (x ∷ xs) (y ∷ ys) h =
    let first = h 0 in ground (arith, compare_release_complete xs ys (λ i. h (suc i)))

text_compare_sound : (s t : Text) → text_compare s t ≡ eq → s ≡ t
unfolding lexicographic
text_compare_sound [] [] h = refl
text_compare_sound [] (d ∷ t) h = cc
text_compare_sound (c ∷ s) [] h = cc
text_compare_sound (c ∷ s) (d ∷ t) h = ground (arith, text_compare_sound s t)

compare_prerelease_sound : (xs ys : List Ident) → compare_prerelease xs ys ≡ eq → xs ≡ ys
unfolding compare_prerelease compare_ident
compare_prerelease_sound [] [] h = refl
compare_prerelease_sound [] (y ∷ ys) h = cc
compare_prerelease_sound (x ∷ xs) [] h = cc
compare_prerelease_sound (num x ∷ xs) (num y ∷ ys) h =
    ground (arith, compare_prerelease_sound xs ys)
compare_prerelease_sound (num x ∷ xs) (word t ∷ ys) h = cc
compare_prerelease_sound (word s ∷ xs) (num y ∷ ys) h = cc
compare_prerelease_sound (word s ∷ xs) (word t ∷ ys) h =
    ground (arith, text_compare_sound s t, compare_prerelease_sound xs ys)

compare_label_sound : (xs ys : List Ident) → compare_label xs ys ≡ eq → xs ≡ ys
unfolding compare_label
compare_label_sound [] [] h = refl
compare_label_sound [] (y ∷ ys) h = cc
compare_label_sound (x ∷ xs) [] h = cc
compare_label_sound (x ∷ xs) (y ∷ ys) h = compare_prerelease_sound (x ∷ xs) (y ∷ ys) h

-- Two versions compare equal exactly where each number of the release is the same, a missing one
-- being 0, and the prerelease is the same; the build metadata does not count.
pub compare_semver-eq_iff :
    (v w : SemVer)
    → (compare_semver v w ≡ eq) ↔ (
        ((i : ℕ) → get_or (release_key v) i 0 ≡ get_or (release_key w) i 0)
        × (v.prerelease ≡ w.prerelease))
compare_semver-eq_iff v w = (sound, complete)
  where
    keys : Ordering
    keys = compare_release (release_key v) (release_key w)

    labels : Ordering
    labels = compare_label v.prerelease w.prerelease

    both : then_by keys labels ≡ eq → (keys ≡ eq) × (labels ≡ eq)
    both h = ground arith

    sound :
        compare_semver v w ≡ eq
        → ((i : ℕ) → get_or (release_key v) i 0 ≡ get_or (release_key w) i 0)
          × (v.prerelease ≡ w.prerelease)
    sound h =
        let (k, l) = both (sym (compare_semver-precedence v w) ∙ h) in
        (compare_release_sound _ _ k, compare_label_sound _ _ l)

    complete :
        ((i : ℕ) → get_or (release_key v) i 0 ≡ get_or (release_key w) i 0)
          × (v.prerelease ≡ w.prerelease)
        → compare_semver v w ≡ eq
    complete (h, e) =
        compare_semver-precedence v w
        ∙ ap₂ then_by (compare_release_complete _ _ h) (
            subst (λ p. compare_label v.prerelease p ≡ eq) e
              (cmp_refl compare_label-IsPreorder v.prerelease))
