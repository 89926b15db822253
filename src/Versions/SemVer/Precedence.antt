-- ===== src/Versions/SemVer/Precedence.antt =====
-- The precedence of `SemVer._compare` is a total preorder, and build metadata has no part in it.

-- The reference: release numbers one by one, with 0 for a missing one.
use Prim.Native.Nat.{Ordering, compare, lt, eq, gt}
use mathlib.Core.Path.{fun_ext, ap₂}
use weedout.Base.{
  ℕ, zero, suc, ◌≤◌, max, ◌≡◌, refl, sym, ◌∙◌, subst, not, ◌&&◌, List, [], ◌∷◌, arith,
  if◌then◌else◌, length, is_empty,
}
use weedout.Base.Order.{
  swap, then_by, IsPreorder, on-IsPreorder, then_by-IsPreorder, lexicographic,
  lexicographic-IsPreorder,
}
use weedout.Base.Text.{text_eq, text_compare-IsPreorder}
use weedout.Versions.SemVer.{
  num, Ident, word, SemVer, release_key, zero_pad, compare_ident, compare_prerelease,
  compare_semver,
}

unfoldable pub compare_release : List ℕ → List ℕ → Ordering
compare_release [] [] = eq
compare_release [] (y ∷ ys) = then_by (compare 0 y) (compare_release [] ys)
compare_release (x ∷ xs) [] = then_by (compare x 0) (compare_release xs [])
compare_release (x ∷ xs) (y ∷ ys) = then_by (compare x y) (compare_release xs ys)

-- No prerelease is above every prerelease.
unfoldable pub compare_label : List Ident → List Ident → Ordering
compare_label [] [] = eq
compare_label [] (y ∷ ys) = gt
compare_label (x ∷ xs) [] = lt
compare_label (x ∷ xs) (y ∷ ys) = compare_prerelease (x ∷ xs) (y ∷ ys)

abbrev pub precedence : SemVer → SemVer → Ordering
precedence v w =
    then_by (compare_release (release_key v) (release_key w))
      (compare_label v.prerelease w.prerelease)

zero_pad-compare :
    (width : ℕ) (xs ys : List ℕ)
    → length xs ≤ width
    → length ys ≤ width
    → lexicographic compare (zero_pad width xs) (zero_pad width ys) ≡ compare_release xs ys
unfolding zero_pad lexicographic compare_release
zero_pad-compare zero [] [] h k = refl
zero_pad-compare zero [] (y ∷ ys) h k = absurd (omega arith)
zero_pad-compare zero (x ∷ xs) ys h k = absurd (omega arith)
zero_pad-compare (suc n) [] [] h k = ground (arith, zero_pad-compare n [] [])
zero_pad-compare (suc n) [] (y ∷ ys) h k = ground (arith, zero_pad-compare n [] ys)
zero_pad-compare (suc n) (x ∷ xs) [] h k = ground (arith, zero_pad-compare n xs [])
zero_pad-compare (suc n) (x ∷ xs) (y ∷ ys) h k = ground (arith, zero_pad-compare n xs ys)

compare_release_flip : (xs ys : List ℕ) → compare_release ys xs ≡ swap (compare_release xs ys)
unfolding compare_release
compare_release_flip [] [] = refl
compare_release_flip [] (y ∷ ys) = ground (arith, compare_release_flip [] ys)
compare_release_flip (x ∷ xs) [] = ground (arith, compare_release_flip xs [])
compare_release_flip (x ∷ xs) (y ∷ ys) = ground (arith, compare_release_flip xs ys)

pub compare_release_congr :
    (xs ys zs : List ℕ) → compare_release xs ys ≡ eq → compare_release xs zs ≡ compare_release ys zs
unfolding compare_release
compare_release_congr [] [] zs h = refl
compare_release_congr [] (y ∷ ys) [] h = ground (arith, compare_release_congr [] ys [])
compare_release_congr [] (y ∷ ys) (z ∷ zs) h = ground (arith, compare_release_congr [] ys zs)
compare_release_congr (x ∷ xs) [] [] h = ground (arith, compare_release_congr xs [] [])
compare_release_congr (x ∷ xs) [] (z ∷ zs) h = ground (arith, compare_release_congr xs [] zs)
compare_release_congr (x ∷ xs) (y ∷ ys) [] h = ground (arith, compare_release_congr xs ys [])
compare_release_congr (x ∷ xs) (y ∷ ys) (z ∷ zs) h = ground (arith, compare_release_congr xs ys zs)

compare_release_trans :
    (xs ys zs : List ℕ)
    → compare_release xs ys ≡ lt
    → compare_release ys zs ≡ lt
    → compare_release xs zs ≡ lt
unfolding compare_release
compare_release_trans [] [] zs h k = cc
compare_release_trans [] (y ∷ ys) [] h k = ground (arith, compare_release_trans [] ys [])
compare_release_trans [] (y ∷ ys) (z ∷ zs) h k = ground (arith, compare_release_trans [] ys zs)
compare_release_trans (x ∷ xs) [] [] h k = cc
compare_release_trans (x ∷ xs) [] (z ∷ zs) h k = ground (arith, compare_release_trans xs [] zs)
compare_release_trans (x ∷ xs) (y ∷ ys) [] h k = ground (arith, compare_release_trans xs ys [])
compare_release_trans (x ∷ xs) (y ∷ ys) (z ∷ zs) h k =
    ground (arith, compare_release_trans xs ys zs)

pub compare_release-IsPreorder : IsPreorder compare_release
compare_release-IsPreorder = record {
  flip = compare_release_flip;
  lt_trans = compare_release_trans;
  eq_left = compare_release_congr;
}

compare_ident-IsPreorder : IsPreorder compare_ident
unfolding compare_ident
compare_ident-IsPreorder = record { flip = flip; lt_trans = trans; eq_left = eq_left }
  where
    flip : (a b : Ident) → compare_ident b a ≡ swap (compare_ident a b)
    flip (num x) (num y) = ground arith
    flip (num x) (word t) = refl
    flip (word s) (num y) = refl
    flip (word s) (word t) = text_compare-IsPreorder.flip s t

    trans :
        (a b c : Ident) → compare_ident a b ≡ lt → compare_ident b c ≡ lt → compare_ident a c ≡ lt
    trans (num x) (num y) (num z) h k = ground arith
    trans (num x) b (word u) h k = refl
    trans (num x) (word t) (num z) h k = cc
    trans (word s) (num y) c h k = cc
    trans (word s) (word t) (num z) h k = cc
    trans (word s) (word t) (word u) h k = text_compare-IsPreorder.lt_trans s t u h k

    eq_left : (a b c : Ident) → compare_ident a b ≡ eq → compare_ident a c ≡ compare_ident b c
    eq_left (num x) (num y) (num z) h = ground arith
    eq_left (num x) (num y) (word u) h = refl
    eq_left (num x) (word t) c h = cc
    eq_left (word s) (num y) c h = cc
    eq_left (word s) (word t) (num z) h = refl
    eq_left (word s) (word t) (word u) h = text_compare-IsPreorder.eq_left s t u h

compare_prerelease-lexicographic :
    (xs ys : List Ident) → compare_prerelease xs ys ≡ lexicographic compare_ident xs ys
unfolding compare_prerelease lexicographic
compare_prerelease-lexicographic [] [] = refl
compare_prerelease-lexicographic [] (y ∷ ys) = refl
compare_prerelease-lexicographic (x ∷ xs) [] = refl
compare_prerelease-lexicographic (x ∷ xs) (y ∷ ys) = rw (compare_prerelease-lexicographic xs ys)

pub compare_label-IsPreorder : IsPreorder compare_label
unfolding compare_label
compare_label-IsPreorder = record { flip = flip; lt_trans = trans; eq_left = eq_left }
  where
    flip : (a b : List Ident) → compare_label b a ≡ swap (compare_label a b)
    flip [] [] = refl
    flip [] (y ∷ ys) = refl
    flip (x ∷ xs) [] = refl
    flip (x ∷ xs) (y ∷ ys) = rw (compare_prerelease-lexicographic) (
        rw (compare_prerelease-lexicographic)
          ((lexicographic-IsPreorder compare_ident-IsPreorder).flip (x ∷ xs) (y ∷ ys)))

    trans :
        (a b c : List Ident)
        → compare_label a b ≡ lt
        → compare_label b c ≡ lt
        → compare_label a c ≡ lt
    trans [] [] c h k = cc
    trans [] (y ∷ ys) c h k = cc
    trans (x ∷ xs) b [] h k = refl
    trans (x ∷ xs) [] (z ∷ zs) h k = cc
    trans (x ∷ xs) (y ∷ ys) (z ∷ zs) h k = rw compare_prerelease-lexicographic (
        (lexicographic-IsPreorder compare_ident-IsPreorder).lt_trans (x ∷ xs) (y ∷ ys) (z ∷ zs)
          (rw compare_prerelease-lexicographic at h) (rw compare_prerelease-lexicographic at k))

    eq_left : (a b c : List Ident) → compare_label a b ≡ eq → compare_label a c ≡ compare_label b c
    eq_left [] [] c h = refl
    eq_left [] (y ∷ ys) c h = cc
    eq_left (x ∷ xs) [] c h = cc
    eq_left (x ∷ xs) (y ∷ ys) [] h = refl
    eq_left (x ∷ xs) (y ∷ ys) (z ∷ zs) h = rw compare_prerelease-lexicographic (
        rw compare_prerelease-lexicographic (
          (lexicographic-IsPreorder compare_ident-IsPreorder).eq_left (x ∷ xs) (y ∷ ys) (z ∷ zs)
            (rw compare_prerelease-lexicographic at h)))

precedence-IsPreorder : IsPreorder precedence
precedence-IsPreorder =
    then_by-IsPreorder (on-IsPreorder release_key compare_release-IsPreorder)
      (on-IsPreorder (λ v. v.prerelease) compare_label-IsPreorder)

-- `a != b` on the padded keys, then `a < b`
compare_unequal :
    (xs ys : List ℕ) (d : Ordering)
    → (if not (text_eq xs ys) then lexicographic compare xs ys else d)
      ≡ then_by (lexicographic compare xs ys) d
unfolding text_eq lexicographic
compare_unequal [] [] d = refl
compare_unequal [] (y ∷ ys) d = refl
compare_unequal (x ∷ xs) [] d = refl
compare_unequal (x ∷ xs) (y ∷ ys) d = ground (arith, compare_unequal xs ys d)

compare_labels :
    (xs ys : List Ident)
    → (if is_empty xs && is_empty ys
        then eq
        else if is_empty xs
        then gt
        else if is_empty ys
        then lt
        else compare_prerelease xs ys)
      ≡ compare_label xs ys
unfolding compare_label
compare_labels [] [] = refl
compare_labels [] (y ∷ ys) = refl
compare_labels (x ∷ xs) [] = refl
compare_labels (x ∷ xs) (y ∷ ys) = refl

pub compare_semver-precedence : (v w : SemVer) → compare_semver v w ≡ precedence v w
unfolding compare_semver
compare_semver-precedence v w =
    compare_unequal (zero_pad width (release_key v)) (zero_pad width (release_key w)) _
    ∙ ap₂ then_by
        (zero_pad-compare width (release_key v) (release_key w) (omega arith) (omega arith))
        (compare_labels v.prerelease w.prerelease)
  where
    width : ℕ
    width = max (length (release_key v)) (length (release_key w))

-- SemVer precedence is a total preorder: swapping the operands negates the answer, `<` is
-- transitive, and versions that compare equal compare alike with every third.
pub compare_semver-IsPreorder : IsPreorder compare_semver
compare_semver-IsPreorder =
    subst IsPreorder (fun_ext λ v. fun_ext λ w. sym (compare_semver-precedence v w))
      precedence-IsPreorder
