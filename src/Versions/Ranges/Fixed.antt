-- ===== src/Versions/Ranges/Fixed.antt =====
-- `first_fixed_version` of app/core/versions.py gives the least upgrade that leaves the window.
use Prim.Native.Nat.{Ordering, lt, eq, gt}
use weedout.Base.{
  ◌≡◌, refl, sym, ap, subst, ◌⊎◌, inl, inr, Bool, true, false, Option, none, some, List, [], ◌∷◌,
  arith, if◌then◌else◌, Bool-cases, All, In, All-In,
}
use weedout.Base.Text.{Text, lower}
use weedout.Types.{Ecosystem, AffectedRange, AffectedPackage}
use weedout.Versions.Ranges.{
  Pep440, given, is_lt, compare_versions, fix_candidates, lowest_of, first_fixed_version, above,
  below, consider, lowest_candidate,
}
use weedout.Versions.Ranges.Intervals.{VersionLe}
use weedout.Versions.Ranges.Order.{
  IsOrdered, compare_versions_flip, compare_versions_le_le, compare_versions_self,
  compare_versions_total,
}

module _ (pep : Pep440) (e : Ecosystem) where
  -- Some range of the entry has the bound `f`, and `f` is strictly above `v`.
  abbrev pub IsFixAbove : Text → AffectedPackage → Text → Type 0
  IsFixAbove v p f =
      ((r : AffectedRange) × In r p.ranges × (given r.fixed ≡ some f))
      × (compare_versions pep e f v ≡ some gt)

  above-gt : (f v : Text) → above pep e f v ≡ true → compare_versions pep e f v ≡ some gt
  unfolding above
  above-gt f v h = ground arith

  gt-above : (f v : Text) → compare_versions pep e f v ≡ some gt → above pep e f v ≡ true
  unfolding above
  gt-above f v h = rw (h, above)

  consider_sound :
      (v : Text) (o : Option Text) (later : List Text) (f : Text)
      → In f (consider pep e v o later)
      → ((o ≡ some f) × (compare_versions pep e f v ≡ some gt)) ⊎ In f later
  unfolding consider
  consider_sound v none later f m = inr m
  consider_sound v (some g) later f m = go (above pep e g v) refl m
    where
      go :
          (b : Bool)
          → above pep e g v ≡ b
          → In f (if b then g ∷ later else later)
          → ((some g ≡ some f) × (compare_versions pep e f v ≡ some gt)) ⊎ In f later
      go true a (inl same) =
          inl
            (ap some same, subst (λ t. compare_versions pep e t v ≡ some gt) same (above-gt g v a))
      go true a (inr m) = inr m
      go false a m = inr m

  consider_complete :
      (v : Text) (o : Option Text) (later : List Text) (f : Text)
      → ((o ≡ some f) × (compare_versions pep e f v ≡ some gt)) ⊎ In f later
      → In f (consider pep e v o later)
  unfolding consider
  consider_complete v none later f (inl (k, c)) = cc k
  consider_complete v none later f (inr m) = m
  consider_complete v (some g) later f (inl (k, c)) =
      let same : g ≡ f = cc in rw same (rw (gt-above f v c) (inl refl))
  consider_complete v (some g) later f (inr m) = elim (Bool-cases (above pep e g v)) [
    | inl kept ↦ rw kept (inr m)
    | inr passed ↦ rw passed m
  ]

  candidates_sound :
      (v : Text) (rs : List AffectedRange) (f : Text)
      → In f (fix_candidates pep e v rs)
      → ((r : AffectedRange) × In r rs × (given r.fixed ≡ some f))
        × (compare_versions pep e f v ≡ some gt)
  unfolding fix_candidates
  candidates_sound v [] f m = elim m [ ]
  candidates_sound v (r ∷ rs) f m = elim (consider_sound v (given r.fixed) _ f m) [
    | inl (g, c) ↦ ((r, inl refl, g), c)
    | inr later ↦ let ((q, m', g), c) = candidates_sound v rs f later in ((q, inr m', g), c)
  ]

  candidates_complete :
      (v : Text) (rs : List AffectedRange) (r : AffectedRange) (f : Text)
      → In r rs
      → given r.fixed ≡ some f
      → compare_versions pep e f v ≡ some gt
      → In f (fix_candidates pep e v rs)
  unfolding fix_candidates
  candidates_complete v [] r f m g c = elim m [ ]
  candidates_complete v (q ∷ rs) r f (inl same) g c =
      consider_complete v (given q.fixed) _ f
        (inl (subst (λ (t : AffectedRange). given t.fixed ≡ some f) (sym same) g, c))
  candidates_complete v (q ∷ rs) r f (inr m) g c =
      consider_complete v (given q.fixed) _ f (inr (candidates_complete v rs r f m g c))

  pick-In :
      (b : Bool) (c least : Text) (cs : List Text)
      → In (lowest_of pep e c cs) (c ∷ cs)
      → In (lowest_of pep e least cs) (least ∷ cs)
      → In (lowest_of pep e (if b then c else least) cs) (least ∷ c ∷ cs)
  pick-In true c least cs m m' = inr m
  pick-In false c least cs m (inl same) = inl same
  pick-In false c least cs m (inr later) = inr (inr later)

  lowest_of-In : (least : Text) (cs : List Text) → In (lowest_of pep e least cs) (least ∷ cs)
  unfolding lowest_of
  lowest_of-In least [] = inl refl
  lowest_of-In least (c ∷ cs) =
      pick-In (below pep e c least) c least cs (lowest_of-In c cs) (lowest_of-In least cs)

module _ (pep : Pep440) (e : Ecosystem) (h : IsOrdered e) where
  abbrev Parses : Text → Type 0
  Parses x = compare_versions pep e x x ≡ some eq

  abbrev Le : Text → Text → Type 0
  Le = VersionLe pep e

  Le_trans : (x y z : Text) → Le x y → Le y z → Le x z
  Le_trans x y z (o, c, n) (o', c', n') = compare_versions_le_le pep e h x y z o o' c n c' n'

  Le_refl : (x : Text) → Parses x → Le x x
  Le_refl x k = (eq, k, λ n. cc)

  abbrev IsLower : Text → Text → Text → Type 0
  IsLower c least x = Le x c × Le x least × Parses x

  below-is_lt :
      (c least : Text) (o : Ordering)
      → compare_versions pep e c least ≡ some o
      → below pep e c least ≡ is_lt o
  unfolding below
  below-is_lt c least o k = rw (k, below)

  choose-IsLower :
      (c least : Text) (o : Ordering)
      → compare_versions pep e c least ≡ some o
      → Parses c
      → Parses least
      → IsLower c least (if is_lt o then c else least)
  choose-IsLower c least lt m k l = (Le_refl c k, (lt, m, λ n. cc), k)
  choose-IsLower c least eq m k l =
      ((eq, compare_versions_flip pep e h c least eq m, λ n. cc), Le_refl least l, l)
  choose-IsLower c least gt m k l =
      ((lt, compare_versions_flip pep e h c least gt m, λ n. cc), Le_refl least l, l)

  -- The lower of two candidates is at or below both.
  pick-IsLower :
      (c least : Text)
      → Parses c
      → Parses least
      → IsLower c least (if below pep e c least then c else least)
  pick-IsLower c least k l =
      let (o, m) = compare_versions_total pep e h c least k l in
      subst (λ b. IsLower c least (if b then c else least)) (sym (below-is_lt c least o m))
        (choose-IsLower c least o m k l)

  lowest_of-le :
      (least : Text) (cs : List Text)
      → Parses least
      → All Parses cs
      → Le (lowest_of pep e least cs) least × All (Le (lowest_of pep e least cs)) cs
  unfolding lowest_of
  lowest_of-le least [] k l = (Le_refl least k, tt)
  lowest_of-le least (c ∷ cs) k (p, l) =
      let (le_c, le_least, parses) = pick-IsLower c least p k in
      let (lower, rest) = lowest_of-le (if below pep e c least then c else least) cs parses l in
      (Le_trans _ _ least lower le_least, (Le_trans _ _ c lower le_c, rest))

  All-Parses :
      (v : Text) (rs : List AffectedRange) (cs : List Text)
      → ((f : Text) → In f cs → compare_versions pep e f v ≡ some gt)
      → All Parses cs
  All-Parses v rs [] k = tt
  All-Parses v rs (c ∷ cs) k = (
    compare_versions_self pep e h c v gt (k c (inl refl)),
    All-Parses v rs cs (λ f m. k f (inr m)),
  )

  -- Outside Maven, the answer is a fix above the installed version, at or below every other one.
  abbrev pub IsFirstFix : Text → AffectedPackage → Option Text → Type 0
  IsFirstFix v p none = (f : Text) → ¬ IsFixAbove pep e v p f
  IsFirstFix v p (some f) = IsFixAbove pep e v p f × ((g : Text) → IsFixAbove pep e v p g → Le f g)

  lowest_candidate-IsFirstFix :
      (v : Text) (p : AffectedPackage) (cs : List Text)
      → ((f : Text) → In f cs → IsFixAbove pep e v p f)
      → ((f : Text) → IsFixAbove pep e v p f → In f cs)
      → IsFirstFix v p (lowest_candidate pep e cs)
  unfolding lowest_candidate
  lowest_candidate-IsFirstFix v p [] sound complete = λ f fix. complete f fix
  lowest_candidate-IsFirstFix v p (c ∷ cs) sound complete =
      let parses = All-Parses v p.ranges (c ∷ cs) (λ f m. (sound f m).1) in
      let (below_first, below_rest) = lowest_of-le c cs parses.0 parses.1 in
      (
        sound (lowest_of pep e c cs) (lowest_of-In pep e c cs),
        λ g fix.
            All-In (Le (lowest_of pep e c cs)) g (c ∷ cs) (below_first, below_rest)
              (complete g fix),
      )

  -- Outside Maven, `first_fixed_version` names a fix of one of the entry's ranges that is strictly
  -- above the installed version and at or below every other such fix; and it names none exactly
  -- where there is no such fix.
  pub first_fixed_version-IsFirstFix :
      (v : Text) (p : AffectedPackage) → IsFirstFix v p (first_fixed_version pep e v p)
  unfolding first_fixed_version
  first_fixed_version-IsFirstFix v p =
      lowest_candidate-IsFirstFix v p (fix_candidates pep e v p.ranges)
        (λ f m. candidates_sound pep e v p.ranges f m)
        (λ f fix. let ((r, m, g), c) = fix in candidates_complete pep e v p.ranges r f m g c)
