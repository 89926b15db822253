-- ===== src/Versions/Ranges/Order.antt =====
-- Outside Maven, `compare` is a total preorder on the texts that parse.
use weedout.Base.Maybe.{◌>>=◌}
use Prim.Native.Nat.{Ordering, lt, eq, gt}
use weedout.Base.{◌≡◌, refl, sym, ap, ◌∙◌, subst, ◌≢◌, false, Option, none, some, arith}
use weedout.Base.Order.{swap, IsPreorder, cmp_refl, le_trans, le_lt_trans}
use weedout.Base.Text.{Text}
use weedout.Types.{Ecosystem, npm, pypi, go, crates_io, maven, ecosystem_is}
use weedout.Versions.Ranges.{
  Pep440, Parsed, semver, pep440, maven_version, parse_version, compare_versions,
}
use weedout.Versions.SemVer.{compare_semver}
use weedout.Versions.SemVer.Precedence.{compare_semver-IsPreorder}

abbrev pub IsOrdered : Ecosystem → Type 0
IsOrdered e = ecosystem_is e maven ≡ false

module _ (pep : Pep440) where
  -- `order_parsed`, with the Maven versions left out
  order_plain : Parsed pep.Version → Parsed pep.Version → Ordering
  order_plain (semver v) (semver w) = compare_semver v w
  order_plain (pep440 v) (pep440 w) = pep.compare_pep440 v w
  order_plain (maven_version v) (maven_version w) = eq
  order_plain (semver v) q = lt
  order_plain (pep440 v) (semver w) = gt
  order_plain (pep440 v) (maven_version w) = lt
  order_plain (maven_version v) q = gt

  order_plain_flip : (p q : Parsed pep.Version) → order_plain q p ≡ swap (order_plain p q)
  unfolding order_plain
  order_plain_flip (semver v) (semver w) = compare_semver-IsPreorder.flip v w
  order_plain_flip (semver v) (pep440 w) = refl
  order_plain_flip (semver v) (maven_version w) = refl
  order_plain_flip (pep440 v) (semver w) = refl
  order_plain_flip (pep440 v) (pep440 w) = pep.compare_pep440-IsPreorder.flip v w
  order_plain_flip (pep440 v) (maven_version w) = refl
  order_plain_flip (maven_version v) (semver w) = refl
  order_plain_flip (maven_version v) (pep440 w) = refl
  order_plain_flip (maven_version v) (maven_version w) = refl

  order_plain_trans :
      (p q r : Parsed pep.Version)
      → order_plain p q ≡ lt
      → order_plain q r ≡ lt
      → order_plain p r ≡ lt
  unfolding order_plain
  order_plain_trans (semver u) (semver v) (semver w) h k =
      compare_semver-IsPreorder.lt_trans u v w h k
  order_plain_trans (semver u) (pep440 v) (semver w) h k = cc
  order_plain_trans (semver u) (maven_version v) (semver w) h k = cc
  order_plain_trans (semver u) q (pep440 w) h k = refl
  order_plain_trans (semver u) q (maven_version w) h k = refl
  order_plain_trans (pep440 u) (semver v) r h k = cc
  order_plain_trans (pep440 u) (pep440 v) (semver w) h k = cc
  order_plain_trans (pep440 u) (pep440 v) (pep440 w) h k =
      pep.compare_pep440-IsPreorder.lt_trans u v w h k
  order_plain_trans (pep440 u) (pep440 v) (maven_version w) h k = refl
  order_plain_trans (pep440 u) (maven_version v) (semver w) h k = cc
  order_plain_trans (pep440 u) (maven_version v) (pep440 w) h k = cc
  order_plain_trans (pep440 u) (maven_version v) (maven_version w) h k = refl
  order_plain_trans (maven_version u) (semver v) r h k = cc
  order_plain_trans (maven_version u) (pep440 v) r h k = cc
  order_plain_trans (maven_version u) (maven_version v) r h k = cc

  order_plain_congr :
      (p q r : Parsed pep.Version) → order_plain p q ≡ eq → order_plain p r ≡ order_plain q r
  unfolding order_plain
  order_plain_congr (semver u) (semver v) (semver w) h = compare_semver-IsPreorder.eq_left u v w h
  order_plain_congr (semver u) (semver v) (pep440 w) h = refl
  order_plain_congr (semver u) (semver v) (maven_version w) h = refl
  order_plain_congr (semver u) (pep440 v) r h = cc
  order_plain_congr (semver u) (maven_version v) r h = cc
  order_plain_congr (pep440 u) (semver v) r h = cc
  order_plain_congr (pep440 u) (pep440 v) (semver w) h = refl
  order_plain_congr (pep440 u) (pep440 v) (pep440 w) h =
      pep.compare_pep440-IsPreorder.eq_left u v w h
  order_plain_congr (pep440 u) (pep440 v) (maven_version w) h = refl
  order_plain_congr (pep440 u) (maven_version v) r h = cc
  order_plain_congr (maven_version u) (semver v) r h = cc
  order_plain_congr (maven_version u) (pep440 v) r h = cc
  order_plain_congr (maven_version u) (maven_version v) (semver w) h = refl
  order_plain_congr (maven_version u) (maven_version v) (pep440 w) h = refl
  order_plain_congr (maven_version u) (maven_version v) (maven_version w) h = refl

  order_plain-IsPreorder : IsPreorder order_plain
  order_plain-IsPreorder = record {
    flip = order_plain_flip;
    lt_trans = order_plain_trans;
    eq_left = order_plain_congr;
  }

  compare_versions-plain :
      (e : Ecosystem) (l r : Text)
      → IsOrdered e
      → compare_versions pep e l r
        ≡ (parse_version pep e l >>= λ a. parse_version pep e r >>= λ b. some (order_plain a b))
  unfolding compare_versions order_plain
  compare_versions-plain npm l r h = ground arith
  compare_versions-plain go l r h = ground arith
  compare_versions-plain crates_io l r h = ground arith
  compare_versions-plain pypi l r h = ground arith
  compare_versions-plain maven l r h = cc

  bind_inv :
      (x y : Option (Parsed pep.Version)) (o : Ordering)
      → (x >>= λ a. y >>= λ b. some (order_plain a b)) ≡ some o
      → (a : Parsed pep.Version) × (b : Parsed pep.Version) × (x ≡ some a)
        × (y ≡ some b)
        × (order_plain a b ≡ o)
  bind_inv none y o k = cc
  bind_inv (some a) none o k = cc
  bind_inv (some a) (some b) o k = (a, b, refl, refl, cc)

  -- What a successful comparison was of.
  compare_inv :
      (e : Ecosystem) (l r : Text) (o : Ordering)
      → IsOrdered e
      → compare_versions pep e l r ≡ some o
      → (a : Parsed pep.Version) × (b : Parsed pep.Version) × (parse_version pep e l ≡ some a)
        × (parse_version pep e r ≡ some b)
        × (order_plain a b ≡ o)
  compare_inv e l r o h k = bind_inv _ _ o (sym (compare_versions-plain e l r h) ∙ k)

  compare_of_parsed :
      (e : Ecosystem) (l r : Text) (a b : Parsed pep.Version)
      → IsOrdered e
      → parse_version pep e l ≡ some a
      → parse_version pep e r ≡ some b
      → compare_versions pep e l r ≡ some (order_plain a b)
  compare_of_parsed e l r a b h p q = compare_versions-plain e l r h ∙ rw (p, q)

  module _ (e : Ecosystem) (h : IsOrdered e) where
    pub compare_versions_flip :
        (x y : Text) (o : Ordering)
        → compare_versions pep e x y ≡ some o
        → compare_versions pep e y x ≡ some (swap o)
    compare_versions_flip x y o k =
        let (a, b, p, q, m) = compare_inv e x y o h k in
        compare_of_parsed e y x b a h q p ∙ ap some (order_plain_flip a b ∙ ap swap m)

    -- The same version parsed at both places.
    same_parsed :
        (y : Text) (b b' : Parsed pep.Version)
        → parse_version pep e y ≡ some b
        → parse_version pep e y ≡ some b'
        → b ≡ b'
    same_parsed y b b' p q = cc

    -- Of two successful comparisons that share the middle one there is a third.
    compare_join :
        (x y z : Text) (o o' : Ordering)
        → compare_versions pep e x y ≡ some o
        → compare_versions pep e y z ≡ some o'
        → (a : Parsed pep.Version) × (b : Parsed pep.Version) × (c : Parsed pep.Version)
          × (order_plain a b ≡ o)
          × (order_plain b c ≡ o')
          × (compare_versions pep e x z ≡ some (order_plain a c))
    compare_join x y z o o' k l =
        let (a, b, p, q, m) = compare_inv e x y o h k in
        let (b', c, p', q', m') = compare_inv e y z o' h l in
        (
          a,
          b,
          c,
          m,
          subst (λ d. order_plain d c ≡ o') (same_parsed y b' b p' q) m',
          compare_of_parsed e x z a c h p q',
        )

    pub compare_versions_le_lt :
        (x y z : Text) (o : Ordering)
        → compare_versions pep e x y ≡ some o
        → o ≢ gt
        → compare_versions pep e y z ≡ some lt
        → compare_versions pep e x z ≡ some lt
    compare_versions_le_lt x y z o k n l =
        let (a, b, c, m, m', r) = compare_join x y z o lt k l in
        r ∙ ap some (le_lt_trans order_plain-IsPreorder a b c (λ g. n (sym m ∙ g)) m')

    pub compare_versions_le_le :
        (x y z : Text) (o o' : Ordering)
        → compare_versions pep e x y ≡ some o
        → o ≢ gt
        → compare_versions pep e y z ≡ some o'
        → o' ≢ gt
        → (o'' : Ordering) × (compare_versions pep e x z ≡ some o'') × (o'' ≢ gt)
    compare_versions_le_le x y z o o' k n l n' =
        let (a, b, c, m, m', r) = compare_join x y z o o' k l in
        (
          order_plain a c,
          r,
          le_trans order_plain-IsPreorder a b c (λ g. n (sym m ∙ g)) (λ g. n' (sym m' ∙ g)),
        )

    -- A version that was compared is as great as itself.
    pub compare_versions_self :
        (x y : Text) (o : Ordering)
        → compare_versions pep e x y ≡ some o
        → compare_versions pep e x x ≡ some eq
    compare_versions_self x y o k =
        let (a, b, p, q, m) = compare_inv e x y o h k in
        compare_of_parsed e x x a a h p p ∙ ap some (cmp_refl order_plain-IsPreorder a)

    -- Two texts that parse have a comparison.
    pub compare_versions_total :
        (x y : Text)
        → compare_versions pep e x x ≡ some eq
        → compare_versions pep e y y ≡ some eq
        → (o : Ordering) × (compare_versions pep e x y ≡ some o)
    compare_versions_total x y k l =
        let (a, a', p, q, m) = compare_inv e x x eq h k in
        let (b, b', p', q', m') = compare_inv e y y eq h l in
        (order_plain a b, compare_of_parsed e x y a b h p p')
