-- ===== src/Matching/Scan/Laws.antt =====
-- What `triage_all` of app/core/matching.py returns.
use mathlib.Core.List.Perm
use Prim.Native.Nat.{Ordering, gt}
use mathlib.Core.List.{Perm}
use weedout.Base.{
  ℕ, suc, ◌+◌, ◌≡◌, refl, ap, ◌∙◌, ◌≢◌, Bool, true, false, not, ◌&&◌, Option, List, [], ◌∷◌, ◌++◌,
  map, arith, if◌then◌else◌, length, keep, All,
}
use weedout.Base.Order.{
  swap, IsPreorder, le_trans, compare-IsPreorder, on-IsPreorder, then_by-IsPreorder,
  reverse-IsPreorder,
}
use weedout.Base.Text.{Text, text_compare-IsPreorder, lower}
use weedout.Matching.Policy.{MatchPolicy, within_depth}
use weedout.Matching.Scan.{
  compare_urgency, sort_by_urgency, is_actionable, is_suppressed, decisions_for, triage_each,
  triage_all, kev_rank, insert_by_urgency,
}
use weedout.Types.{rank, Score, Dependency, Vulnerability, MatchDecision}
use weedout.Versions.Ranges.{Pep440, is_lt}

compare_urgency-IsPreorder : IsPreorder compare_urgency
unfolding compare_urgency
compare_urgency-IsPreorder = then_by-IsPreorder (on-IsPreorder kev_rank compare-IsPreorder) (
    then_by-IsPreorder
      (reverse-IsPreorder (on-IsPreorder (λ d. rank d.severity) compare-IsPreorder))
      (then_by-IsPreorder (on-IsPreorder (λ d. lower d.dependency.name) text_compare-IsPreorder)
        (on-IsPreorder (λ d. d.vulnerability.id) text_compare-IsPreorder)))

-- No decision is followed by one that comes strictly before it.
abbrev pub IsByUrgency : List MatchDecision → Type 0
IsByUrgency [] = Unit
IsByUrgency (d ∷ ds) = All (λ c. compare_urgency d c ≢ gt) ds × IsByUrgency ds

All-mono :
    {A : Type 0} {P Q : A → Type 0} (xs : List A) → ((x : A) → P x → Q x) → All P xs → All Q xs
All-mono [] f h = tt
All-mono (x ∷ xs) f (p, h) = (f x p, All-mono xs f h)

insert-All :
    (P : MatchDecision → Type 0) (d : MatchDecision) (ds : List MatchDecision)
    → P d
    → All P ds
    → All P (insert_by_urgency d ds)
unfolding insert_by_urgency
insert-All P d [] p h = (p, tt)
insert-All P d (c ∷ cs) p (q, h) = go (is_lt (compare_urgency c d)) (insert-All P d cs p h)
  where
    go :
        (b : Bool)
        → All P (insert_by_urgency d cs)
        → All P (if b then c ∷ insert_by_urgency d cs else d ∷ c ∷ cs)
    go true later = (q, later)
    go false later = (p, (q, h))

lt-ne-gt : (o : Ordering) → is_lt o ≡ true → o ≢ gt
lt-ne-gt o h e = ground arith

not_lt-flip : (o o' : Ordering) → is_lt o ≡ false → o' ≡ swap o → o' ≢ gt
not_lt-flip o o' h e k = ground arith

insert-IsByUrgency :
    (d : MatchDecision) (ds : List MatchDecision)
    → IsByUrgency ds
    → IsByUrgency (insert_by_urgency d ds)
unfolding insert_by_urgency
insert-IsByUrgency d [] h = (tt, tt)
insert-IsByUrgency d (c ∷ cs) (first, h) =
    go (is_lt (compare_urgency c d)) refl (insert-IsByUrgency d cs h)
  where
    go :
        (b : Bool)
        → is_lt (compare_urgency c d) ≡ b
        → IsByUrgency (insert_by_urgency d cs)
        → IsByUrgency (if b then c ∷ insert_by_urgency d cs else d ∷ c ∷ cs)
    go true less later =
        (insert-All (λ x. compare_urgency c x ≢ gt) d cs (lt-ne-gt _ less) first, later)
    go false other later =
        let before = not_lt-flip _ _ other (compare_urgency-IsPreorder.flip c d) in
        (
          (before, All-mono cs (λ x k. le_trans compare_urgency-IsPreorder d c x before k) first),
          (first, h),
        )

sort-IsByUrgency : (ds : List MatchDecision) → IsByUrgency (sort_by_urgency ds)
unfolding sort_by_urgency
sort-IsByUrgency [] = tt
sort-IsByUrgency (d ∷ ds) = insert-IsByUrgency d (sort_by_urgency ds) (sort-IsByUrgency ds)

insert-perm : (d : MatchDecision) (ds : List MatchDecision) → Perm (insert_by_urgency d ds) (d ∷ ds)
unfolding insert_by_urgency
insert-perm d [] = Perm.refl (d ∷ [])
insert-perm d (c ∷ cs) = go (is_lt (compare_urgency c d)) (insert-perm d cs)
  where
    go :
        (b : Bool)
        → Perm (insert_by_urgency d cs) (d ∷ cs)
        → Perm (if b then c ∷ insert_by_urgency d cs else d ∷ c ∷ cs) (d ∷ c ∷ cs)
    go true later = Perm.trans (Perm.cons c later) (Perm.swap d c cs)
    go false later = Perm.refl (d ∷ c ∷ cs)

sort-perm : (ds : List MatchDecision) → Perm (sort_by_urgency ds) ds
unfolding sort_by_urgency
sort-perm [] = Perm.refl []
sort-perm (d ∷ ds) = Perm.trans (insert-perm d (sort_by_urgency ds)) (Perm.cons d (sort-perm ds))

length-insert :
    (d : MatchDecision) (ds : List MatchDecision)
    → length (insert_by_urgency d ds) ≡ suc (length ds)
unfolding insert_by_urgency
length-insert d [] = refl
length-insert d (c ∷ cs) = ground (arith, length-insert d cs)

length-sort : (ds : List MatchDecision) → length (sort_by_urgency ds) ≡ length ds
unfolding sort_by_urgency
length-sort [] = refl
length-sort (d ∷ ds) = length-insert d (sort_by_urgency ds) ∙ ap suc (length-sort ds)

verdict_cases : (b : MatchDecision) → (is_actionable b && is_suppressed b) ≡ false
verdict_cases b = ground arith

abbrev pub is_outside : MatchDecision → Bool
is_outside b = not (is_actionable b) && not (is_suppressed b)

length-keep :
    (ds : List MatchDecision)
    → length (keep is_actionable ds) + length (keep is_suppressed ds) + length (keep is_outside ds)
      ≡ length ds
length-keep [] = omega arith
length-keep (d ∷ ds) = ground (arith, length-keep ds)

pub concat : List (List MatchDecision) → List MatchDecision
concat [] = []
concat (ds ∷ dss) = ds ++ concat dss

module _ (pep : Pep440) (candidates : Text × Text × Text → List Vulnerability)
    (kev_index : List Text) (policy : MatchPolicy)
    (epss_index : Text → Option (Score × Score)) where
  -- Every decision on a dependency within the policy's depth, in order
  abbrev pub examined : List Dependency → List MatchDecision
  examined ds = concat (
      map (decisions_for pep candidates kev_index policy epss_index)
        (keep (within_depth policy) ds))

  triage_each-examined :
      (ds : List Dependency)
      → (triage_each pep candidates kev_index policy epss_index ds).0 ≡ examined ds
  unfolding triage_each concat
  triage_each-examined [] = refl
  triage_each-examined (d ∷ ds) = go (within_depth policy d) (triage_each-examined ds)
    where
      here : List MatchDecision
      here = decisions_for pep candidates kev_index policy epss_index d

      later : List MatchDecision × ℕ
      later = triage_each pep candidates kev_index policy epss_index ds

      step : Bool → List MatchDecision × ℕ
      step b = if b then (here ++ later.0, later.1) else (later.0, later.1 + 1)

      go :
          (b : Bool)
          → later.0 ≡ examined ds
          → (step b).0
            ≡ concat (
                map
                  (decisions_for pep candidates kev_index policy epss_index)
                  (if b then d ∷ keep (within_depth policy) ds else keep (within_depth policy) ds))
      go true ih = ap (λ rest. here ++ rest) ih
      go false ih = ih

  unreached-length :
      (ds : List Dependency)
      → length (keep (within_depth policy) ds)
          + (triage_each pep candidates kev_index policy epss_index ds).1
        ≡ length ds
  unfolding triage_each
  unreached-length [] = omega arith
  unreached-length (d ∷ ds) = ground (arith, unreached-length ds)

  -- The scan's lists are the alerts and the filed ones among the decisions on the dependencies within
  -- reach, each in the order of urgency: nothing is lost, doubled or put in both.
  pub triage_all-sorted :
      (ds : List Dependency) (problems : List Text)
      → let r = triage_all pep candidates kev_index policy epss_index ds problems in
        IsByUrgency r.actionable
        × IsByUrgency r.suppressed
        × Perm r.actionable (keep is_actionable (examined ds))
        × Perm r.suppressed (keep is_suppressed (examined ds))
  unfolding triage_all
  triage_all-sorted ds problems =
      let e = triage_each-examined ds in
      (
        sort-IsByUrgency
            (keep is_actionable (triage_each pep candidates kev_index policy epss_index ds).0),
        sort-IsByUrgency
            (keep is_suppressed (triage_each pep candidates kev_index policy epss_index ds).0),
        rw (← e) (sort-perm _),
        rw (← e) (sort-perm _),
      )

  -- Nothing goes uncounted: the dependencies scanned and those out of reach are all that were given,
  -- and every decision on a scanned one is an alert, filed, or outside every range.
  pub triage_all-counts :
      (ds : List Dependency) (problems : List Text)
      → let r = triage_all pep candidates kev_index policy epss_index ds problems in
        (r.dependencies_scanned ≡ length (keep (within_depth policy) ds))
        × (r.dependencies_scanned + r.unreached_by_depth ≡ length ds)
        × (length r.actionable + length r.suppressed + length (keep is_outside (examined ds))
            ≡ length (examined ds))
  unfolding triage_all
  triage_all-counts ds problems =
      let n = unreached-length ds in
      let e = triage_each-examined ds in
      (
        omega arith,
        omega arith,
        rw (← e) (
            omega (
              arith,
              length-sort (
                  keep is_actionable (triage_each pep candidates kev_index policy epss_index ds).0),
              length-sort (
                  keep is_suppressed (triage_each pep candidates kev_index policy epss_index ds).0),
              length-keep (triage_each pep candidates kev_index policy epss_index ds).0,
            )),
      )
