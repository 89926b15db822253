-- ===== src/Versions/Ranges/Intervals.antt =====
-- `in_range` of app/core/versions.py, and the versions that an advisory affects, by `version_matches` of app/core/versions.py, as intervals.
use Prim.Native.Nat.{Ordering, lt, gt}
use weedout.Base.{
  ◌≡◌, refl, ap, ◌≢◌, ◌↔◌, ◌⊎◌, inl, inr, Bool, true, false, Option, none, some, arith, Bool-cases,
  is_some, and_cases, any, In, any_of_In, In-of_any,
}
use weedout.Base.Maybe.{map_option}
use weedout.Base.Order.{swap}
use weedout.Base.Text.{Text, text, text_eq, text_eq_iff}
use weedout.Types.{Ecosystem, AffectedRange, AffectedPackage}
use weedout.Versions.Ranges.{
  given, Pep440, normalize, is_lt, is_le, parse_version, compare_versions, below_introduced,
  below_upper, in_range, range_hits, version_matches,
}
use weedout.Versions.Ranges.Order.{IsOrdered, compare_versions_flip}

module _ (pep : Pep440) where
  in_range-true :
      (e : Ecosystem) (v : Text) (r : AffectedRange)
      → in_range pep e v r ≡ some true
      → (below_introduced pep e v (given r.introduced) ≡ some false)
        × (below_upper pep e v (given r.fixed) (given r.last_affected) ≡ some true)
  unfolding in_range
  in_range-true e v r h = ground arith

  in_range_of_bounds :
      (e : Ecosystem) (v : Text) (r : AffectedRange)
      → below_introduced pep e v (given r.introduced) ≡ some false
      → below_upper pep e v (given r.fixed) (given r.last_affected) ≡ some true
      → in_range pep e v r ≡ some true
  unfolding in_range
  in_range_of_bounds e v r h k = rw (h, k)

  map-some :
      (p : Ordering → Bool) (b : Bool) (x : Option Ordering)
      → map_option p x ≡ some b
      → (o : Ordering) × (x ≡ some o) × (p o ≡ b)
  map-some p b none h = cc
  map-some p b (some o) h = (o, refl, cc)

-- A version is at or below another, by `compare`.
abbrev pub VersionLe : Pep440 → Ecosystem → Text → Text → Type 0
VersionLe pep e x y = (o : Ordering) × (compare_versions pep e x y ≡ some o) × (o ≢ gt)

-- At or after the start of a window; a missing or empty start, or the start `0`, is before every version.
abbrev pub IsAfterStart : Pep440 → Ecosystem → Text → Option Text → Type 0
IsAfterStart pep e v none = Unit
IsAfterStart pep e v (some start) = (start ≡ text "0") ⊎ VersionLe pep e start v

-- Before the fix, or else at or before the last affected version, or without an end
abbrev pub IsBeforeEnd : Pep440 → Ecosystem → Text → (fixed last : Option Text) → Type 0
IsBeforeEnd pep e v (some f) l = compare_versions pep e v f ≡ some lt
IsBeforeEnd pep e v none (some l) = VersionLe pep e v l
IsBeforeEnd pep e v none none = Unit

abbrev pub IsInside : Pep440 → Ecosystem → Text → AffectedRange → Type 0
IsInside pep e v r =
    IsAfterStart pep e v (given r.introduced)
    × IsBeforeEnd pep e v (given r.fixed) (given r.last_affected)

module _ (pep : Pep440) (e : Ecosystem) (h : IsOrdered e) where
  not_lt_swap : (o : Ordering) → is_lt o ≡ false → swap o ≢ gt
  not_lt_swap o k n = ground arith

  is_lt_of_not_gt : (o : Ordering) → swap o ≢ gt → is_lt o ≡ false
  is_lt_of_not_gt o n = ground arith

  swap-swap : (o : Ordering) → swap (swap o) ≡ o
  swap-swap o = ground arith

  start_sound :
      (v : Text) (o : Option Text)
      → below_introduced pep e v o ≡ some false
      → IsAfterStart pep e v o
  unfolding below_introduced
  start_sound v none k = tt
  start_sound v (some start) k = elim (Bool-cases (text_eq start (text "0"))) [
    | inl at_zero ↦ inl ((text_eq_iff start (text "0")).0 at_zero)
    | inr other ↦
        let (o, c, f) = map-some pep is_lt false (compare_versions pep e v start) (rw other at k) in
        inr (swap o, compare_versions_flip pep e h v start o c, not_lt_swap o f)
  ]

  start_complete :
      (v : Text) (o : Option Text)
      → IsAfterStart pep e v o
      → below_introduced pep e v o ≡ some false
  unfolding below_introduced
  start_complete v none k = refl
  start_complete v (some start) (inl z) = rw ((text_eq_iff start (text "0")).1 z) refl
  start_complete v (some start) (inr (o, c, n)) = elim (Bool-cases (text_eq start (text "0"))) [
    | inl at_zero ↦ rw at_zero refl
    | inr other ↦ rw other (
        rw (compare_versions_flip pep e h start v o c)
          (ap some (is_lt_of_not_gt (swap o) (rw swap-swap n))))
  ]

  end_sound :
      (v : Text) (f l : Option Text) → below_upper pep e v f l ≡ some true → IsBeforeEnd pep e v f l
  unfolding below_upper
  end_sound v (some f) l k =
      let (o, c, t) = map-some pep is_lt true (compare_versions pep e v f) k in ground (arith, c, t)
  end_sound v none (some l) k =
      let (o, c, t) = map-some pep is_le true (compare_versions pep e v l) k in
      (o, c, ground (arith, t))
  end_sound v none none k = tt

  end_complete :
      (v : Text) (f l : Option Text) → IsBeforeEnd pep e v f l → below_upper pep e v f l ≡ some true
  unfolding below_upper
  end_complete v (some f) l k = rw k refl
  end_complete v none (some l) (o, c, n) = rw c (ground (arith, n))
  end_complete v none none k = refl

  in_range-IsInside :
      (v : Text) (r : AffectedRange) → (in_range pep e v r ≡ some true) ↔ IsInside pep e v r
  in_range-IsInside v r = (
    λ k.
        let (a, b) = in_range-true pep e v r k in
        (
          start_sound v (given r.introduced) a,
          end_sound v (given r.fixed) (given r.last_affected) b,
        ),
    λ (a, b).
        in_range_of_bounds pep e v r (start_complete v (given r.introduced) a)
          (end_complete v (given r.fixed) (given r.last_affected) b),
  )

  -- A range hits a version exactly where the version is inside it.
  range_hits-IsInside :
      (v : Text) (r : AffectedRange) → (range_hits pep e v r ≡ true) ↔ IsInside pep e v r
  range_hits-IsInside v r = (
    λ k. (in_range-IsInside v r).0 (go (in_range pep e v r) refl k),
    λ i. hit (in_range pep e v r) ((in_range-IsInside v r).1 i),
  )
    where
      go :
          (o : Option Bool)
          → in_range pep e v r ≡ o
          → (elim (in_range pep e v r) [ none ↦ false | some b ↦ b ]) ≡ true
          → in_range pep e v r ≡ some true
      go none x k = ground (arith, x, k)
      go (some b) x k = ground (arith, x, k)

      hit :
          (o : Option Bool)
          → o ≡ some true
          → (elim o as (λ _. Bool) [ none ↦ false | some b ↦ b ]) ≡ true
      hit o x = ground (arith, x)

  -- Outside Maven, an advisory affects a version exactly where the version can be parsed, and is one of those
  -- that the advisory lists, up to spelling, or lies in one of its windows: not before the start, which `0`
  -- and a missing one leave open, and before the fix, or, in a window without a fix, not after the last
  -- affected version. A window with a bound that cannot be compared with the version has no part in it.
  pub version_matches-IsInside :
      (v : Text) (p : AffectedPackage)
      → (version_matches pep e v p ≡ true) ↔ (
          (is_some (parse_version pep e v) ≡ true)
          × (((c : Text) × In c p.versions × (normalize e c ≡ normalize e v))
              ⊎ ((r : AffectedRange) × In r p.ranges × IsInside pep e v r)))
  unfolding version_matches
  version_matches-IsInside v p = (sound, complete)
    where
      Listed : Type 0
      Listed = (c : Text) × In c p.versions × (normalize e c ≡ normalize e v)

      Inside : Type 0
      Inside = (r : AffectedRange) × In r p.ranges × IsInside pep e v r

      listed : Text → Bool
      listed c = text_eq (normalize e c) (normalize e v)

      by_list : any listed p.versions ≡ true → Listed
      by_list k =
          let (c, m, x) = In-of_any listed p.versions k in
          (c, m, (text_eq_iff (normalize e c) (normalize e v)).0 x)

      by_range : any (range_hits pep e v) p.ranges ≡ true → Inside
      by_range k =
          let (r, m, x) = In-of_any (range_hits pep e v) p.ranges k in
          (r, m, (range_hits-IsInside v r).0 x)

      sound :
          version_matches pep e v p ≡ true
          → (is_some (parse_version pep e v) ≡ true) × (Listed ⊎ Inside)
      sound k =
          let (a, b) = and_cases (is_some (parse_version pep e v)) _ k in
          (
            a,
            elim (Bool-cases (any listed p.versions)) [
              | inl x ↦ inl (by_list x)
              | inr x ↦ inr (by_range (ground (arith, b, x)))
            ],
          )

      complete :
          (is_some (parse_version pep e v) ≡ true) × (Listed ⊎ Inside)
          → version_matches pep e v p ≡ true
      complete (a, inl (c, m, x)) = ground (
        arith,
        a,
        any_of_In listed c p.versions m ((text_eq_iff (normalize e c) (normalize e v)).1 x),
      )
      complete (a, inr (r, m, x)) =
          ground
            (arith, a, any_of_In (range_hits pep e v) r p.ranges m ((range_hits-IsInside v r).1 x))
