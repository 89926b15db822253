-- ===== src/Manifests/Dependencies/Laws.antt =====
-- What the dependencies of a manifest are after `_dedupe` of app/core/manifests.py.
use weedout.Base.{
  ◌≡◌, refl, Bool, true, false, List, [], ◌∷◌, arith, ltb, leb, any, All, how_many, All-weaken, In,
  All-members,
}
use weedout.Manifests.Dependencies.{
  keep_best, best_of, compare_names, insert_by_name, sort_by_name, dedupe,
}
use weedout.Manifests.Dependencies.Distinct.{
  is_like, covers, keep_best_once, keep_best-covers, keep_best_read, keep_best_from,
}
use weedout.Types.{Dependency}
use weedout.Versions.Ranges.{is_lt}

best_of_once :
    (d : Dependency) (kept deps : List Dependency)
    → leb (how_many (is_like d) kept) 1 ≡ true
    → leb (how_many (is_like d) (best_of kept deps)) 1 ≡ true
best_of_once d kept [] h = h
best_of_once d kept (e ∷ deps) h =
    best_of_once d (keep_best e kept) deps (keep_best_once d e kept h)

best_of-covers :
    (d : Dependency) (kept deps : List Dependency)
    → any (covers d) kept ≡ true
    → any (covers d) (best_of kept deps) ≡ true
best_of-covers d kept [] h = h
best_of-covers d kept (e ∷ deps) h =
    best_of-covers d (keep_best e kept) deps (keep_best-covers d e kept h)

best_of_read :
    (kept deps : List Dependency) → All (λ d. any (covers d) (best_of kept deps) ≡ true) deps
best_of_read kept [] = tt
best_of_read kept (e ∷ deps) = (
  best_of-covers e (keep_best e kept) deps (keep_best_read e kept),
  best_of_read (keep_best e kept) deps,
)

best_of_from :
    (P : Dependency → Type 0) (kept deps : List Dependency)
    → All P kept
    → All P deps
    → All P (best_of kept deps)
best_of_from P kept [] a b = a
best_of_from P kept (e ∷ deps) a (p, b) =
    best_of_from P (keep_best e kept) deps (keep_best_from P e kept p a) b

-- Sorting changes neither the numbers of dependencies nor what holds of them.
insert_by_name-how_many :
    (p : Dependency → Bool) (d : Dependency) (deps : List Dependency)
    → how_many p (insert_by_name d deps) ≡ how_many p (d ∷ deps)
insert_by_name-how_many p d [] = refl
insert_by_name-how_many p d (c ∷ deps) =
    go (is_lt (compare_names c d)) refl (insert_by_name-how_many p d deps)
  where
    go :
        (b : Bool)
        → is_lt (compare_names c d) ≡ b
        → how_many p (insert_by_name d deps) ≡ how_many p (d ∷ deps)
        → how_many p (insert_by_name d (c ∷ deps)) ≡ how_many p (d ∷ c ∷ deps)
    go true e ih = ground (arith, e, ih)
    go false e ih = ground (arith, e)

sort_by_name-how_many :
    (p : Dependency → Bool) (deps : List Dependency)
    → how_many p (sort_by_name deps) ≡ how_many p deps
sort_by_name-how_many p [] = refl
sort_by_name-how_many p (d ∷ deps) =
    ground (arith, insert_by_name-how_many p d (sort_by_name deps), sort_by_name-how_many p deps)

insert_by_name-All :
    (P : Dependency → Type 0) (d : Dependency) (deps : List Dependency)
    → P d
    → All P deps
    → All P (insert_by_name d deps)
insert_by_name-All P d [] p a = (p, tt)
insert_by_name-All P d (c ∷ deps) p (q, a) =
    go (is_lt (compare_names c d)) refl (insert_by_name-All P d deps p a)
  where
    go :
        (b : Bool)
        → is_lt (compare_names c d) ≡ b
        → All P (insert_by_name d deps)
        → All P (insert_by_name d (c ∷ deps))
    go true e ih = rw e (q, ih)
    go false e ih = rw e (p, (q, a))

sort_by_name-All :
    (P : Dependency → Type 0) (deps : List Dependency) → All P deps → All P (sort_by_name deps)
sort_by_name-All P [] a = tt
sort_by_name-All P (d ∷ deps) (p, a) =
    insert_by_name-All P d (sort_by_name deps) p (sort_by_name-All P deps a)

counted : (p : Dependency → Bool) (deps : List Dependency) → any p deps ≡ ltb 0 (how_many p deps)
counted p [] = refl
counted p (d ∷ deps) = ground (arith, counted p deps)

covers_count :
    (d : Dependency) (deps : List Dependency)
    → leb (how_many (covers d) deps) (how_many (is_like d) deps) ≡ true
covers_count d [] = refl
covers_count d (c ∷ deps) = ground (arith, covers_count d deps)

-- The dependency has one row, of its own key, which is at least as exposed.
abbrev pub IsKeptOnce : List Dependency → Dependency → Type 0
IsKeptOnce kept d = (how_many (is_like d) kept ≡ 1) × (how_many (covers d) kept ≡ 1)

dedupe-IsKeptOnce :
    (deps : List Dependency) (d : Dependency)
    → any (covers d) (best_of [] deps) ≡ true
    → IsKeptOnce (dedupe deps) d
unfolding dedupe
dedupe-IsKeptOnce deps d h =
    let like = sort_by_name-how_many (is_like d) (best_of [] deps) in
    let cover = sort_by_name-how_many (covers d) (best_of [] deps) in
    let once = best_of_once d [] deps refl in
    let some_cover = counted (covers d) (best_of [] deps) in
    let fewer = covers_count d (best_of [] deps) in
    (
      ground (arith, like, once, some_cover, fewer, h),
      ground (arith, cover, once, some_cover, fewer, h),
    )

-- Of the dependencies that a parser finds, one is kept for each ecosystem, name and version, and it is at least
-- as exposed as any other that has them: one that ships is not lost to one that is only for development.
-- Nothing is kept that was not found.
pub dedupe_lem :
    (deps : List Dependency)
    → All (IsKeptOnce (dedupe deps)) deps × All (λ c. In c deps) (dedupe deps)
unfolding dedupe
dedupe_lem deps = (
  All-weaken (λ d. any (covers d) (best_of [] deps) ≡ true) (IsKeptOnce (dedupe deps))
      (dedupe-IsKeptOnce deps) deps (best_of_read [] deps),
  sort_by_name-All (λ c. In c deps) (best_of [] deps)
      (best_of_from (λ c. In c deps) [] deps tt (All-members (λ c. In c deps) deps (λ d m. m))),
)
