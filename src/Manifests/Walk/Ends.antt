-- ===== src/Manifests/Walk/Ends.antt =====
-- That `_walk_npm_graph` of app/core/manifests.py ends, with cycles in the lockfile too.
use weedout.Advisories.Json.{Fields}
use weedout.Base.{
  ℕ, zero, suc, ◌+◌, ◌≡◌, refl, sym, subst, Bool, true, false, not, List, [], ◌∷◌, ◌++◌, arith, leb,
  is_some, length, any, All, how_many, length-append, any-append,
}
use weedout.Base.Text.{Text, text_eq, text_eq_refl, text_eq_iff}
use weedout.Manifests.Walk.{
  Entries, children, entry_of, children_of, Routes, is_routed, push, push_all, visit, walk, starts,
  all_children, walk_npm_graph,
}
use weedout.Types.{chain}

-- How many of the names have no route
abbrev unrouted : Routes → List Text → ℕ
unrouted routes = how_many (λ n. not (is_routed routes n))

-- A new route leaves no more names without one, and one name less where it is one of them.
unrouted_mono :
    (r : Text × List Text) (routes : Routes) (names : List Text)
    → leb (unrouted (r ∷ routes) names) (unrouted routes names) ≡ true
unrouted_mono r routes [] = refl
unrouted_mono r routes (n ∷ names) = ground (arith, unrouted_mono r routes names)

unrouted_less :
    (child : Text) (chain : List Text) (routes : Routes) (names : List Text)
    → any (text_eq child) names ≡ true
    → is_routed routes child ≡ false
    → leb (1 + unrouted ((child, chain) ∷ routes) names) (unrouted routes names) ≡ true
unrouted_less child chain routes [] m f = cc
unrouted_less child chain routes (n ∷ names) m f =
    go (text_eq child n) refl (unrouted_less child chain routes names)
  where
    go :
        (b : Bool)
        → text_eq child n ≡ b
        → (any (text_eq child) names ≡ true
            → is_routed routes child ≡ false
            → leb (1 + unrouted ((child, chain) ∷ routes) names) (unrouted routes names) ≡ true)
        → leb (1 + unrouted ((child, chain) ∷ routes) (n ∷ names)) (unrouted routes (n ∷ names))
          ≡ true
    go true e ih = ground (
      arith,
      e,
      unrouted_mono (child, chain) routes names,
      subst (λ k. is_routed routes k ≡ false) ((text_eq_iff child n).0 e) f,
    )
    go false e ih = ground (arith, e, ih (ground (arith, e, m)) f)

-- What is left to do
abbrev work : List Text → Routes × Routes → ℕ
work names state = length state.1 + unrouted state.0 names

push-work :
    (names : List Text) (chain : List Text) (child : Text) (state : Routes × Routes)
    → any (text_eq child) names ≡ true
    → leb (work names (push chain child state)) (work names state) ≡ true
push-work names chain child (routes, queue) m = go (is_routed routes child) refl
  where
    go :
        (b : Bool)
        → is_routed routes child ≡ b
        → leb (work names (push chain child (routes, queue))) (work names (routes, queue)) ≡ true
    go true e = ground (arith, e)
    go false e = ground (
      arith,
      e,
      unrouted_less child (chain ++ child ∷ []) routes names m e,
      length-append queue ((child, chain ++ child ∷ []) ∷ []),
    )

abbrev IsAmong : List Text → List Text → Type 0
IsAmong names = All (λ n. any (text_eq n) names ≡ true)

push_all-work :
    (names : List Text) (chain : List Text) (more : List Text) (state : Routes × Routes)
    → IsAmong names more
    → leb (work names (push_all chain more state)) (work names state) ≡ true
push_all-work names chain [] state m = ground arith
push_all-work names chain (child ∷ more) state (m, ms) = ground (
  arith,
  push-work names chain child state m,
  push_all-work names chain more (push chain child state) ms,
)

IsAmong-cons : (n : Text) (names more : List Text) → IsAmong names more → IsAmong (n ∷ names) more
IsAmong-cons n names [] m = m
IsAmong-cons n names (k ∷ more) (m, ms) = (ground (arith, m), IsAmong-cons n names more ms)

IsAmong-refl : (names : List Text) → IsAmong names names
IsAmong-refl [] = tt
IsAmong-refl (n ∷ names) =
    (ground (arith, text_eq_refl n), IsAmong-cons n names names (IsAmong-refl names))

IsAmong-left : (names others more : List Text) → IsAmong names more → IsAmong (names ++ others) more
IsAmong-left names others [] m = m
IsAmong-left names others (k ∷ more) (m, ms) =
    (ground (arith, any-append (text_eq k) names others, m), IsAmong-left names others more ms)

IsAmong-right :
    (names others more : List Text) → IsAmong others more → IsAmong (names ++ others) more
IsAmong-right names others [] m = m
IsAmong-right names others (k ∷ more) (m, ms) =
    (ground (arith, any-append (text_eq k) names others, m), IsAmong-right names others more ms)

children_of_found :
    (m n : Text) (described : Fields) (entries : Entries)
    → text_eq m n ≡ true
    → children_of ((m, described) ∷ entries) n ≡ children described
children_of_found m n described entries e = rw (children_of, entry_of, e) refl

children_of_later :
    (m n : Text) (described : Fields) (entries : Entries)
    → text_eq m n ≡ false
    → children_of ((m, described) ∷ entries) n ≡ children_of entries n
children_of_later m n described entries e = rw (children_of, entry_of, e) refl

children_of-IsAmong :
    (n : Text) (entries : Entries) → IsAmong (all_children entries) (children_of entries n)
children_of-IsAmong n [] = tt
children_of-IsAmong n ((m, described) ∷ entries) =
    go (text_eq m n) refl (children_of-IsAmong n entries)
  where
    go :
        (b : Bool)
        → text_eq m n ≡ b
        → IsAmong (all_children entries) (children_of entries n)
        → IsAmong
            (all_children ((m, described) ∷ entries))
            (children_of ((m, described) ∷ entries) n)
    go true e ih =
        subst (IsAmong (children described ++ all_children entries))
          (sym (children_of_found m n described entries e))
          (IsAmong-left (children described) (all_children entries) (children described)
            (IsAmong-refl (children described)))
    go false e ih =
        subst (IsAmong (children described ++ all_children entries))
          (sym (children_of_later m n described entries e))
          (IsAmong-right (children described) (all_children entries) (children_of entries n) ih)

visit-work :
    (entries : Entries) (q : Text × List Text) (state : Routes × Routes)
    → leb (work (all_children entries) (visit entries q state)) (work (all_children entries) state)
      ≡ true
visit-work entries (name, chain) state = ground (
  arith,
  push_all-work (all_children entries) chain (children_of entries name) state
      (children_of-IsAmong name entries),
)

walk_ends :
    (entries : Entries) (rounds : ℕ) (routes queue : Routes)
    → leb (work (all_children entries) (routes, queue)) rounds ≡ true
    → is_some (walk entries rounds routes queue) ≡ true
unfolding walk
walk_ends entries rounds routes [] h = refl
walk_ends entries zero routes (q ∷ queue) h = ground arith
walk_ends entries (suc rounds) routes (q ∷ queue) h =
    walk_ends entries rounds (visit entries q (routes, queue)).0 (visit entries q (routes, queue)).1
      (ground (arith, visit-work entries q (routes, queue), h))

length-starts : (wanted : List Text) → length (starts wanted) ≡ length wanted
length-starts [] = refl
length-starts (n ∷ wanted) = ground (arith, length-starts wanted)

how_many_at_most :
    (p : Text → Bool) (names : List Text) → leb (how_many p names) (length names) ≡ true
how_many_at_most p [] = refl
how_many_at_most p (n ∷ names) = ground (arith, how_many_at_most p names)

-- Whatever the entries of a lockfile depend on, cycles and absent packages included, the walk ends within a round
-- for each name that the project depends on and one for each name that an entry depends on.
pub walk_npm_graph-is_some :
    (entries : Entries) (wanted : List Text) → is_some (walk_npm_graph entries wanted) ≡ true
unfolding walk_npm_graph
walk_npm_graph-is_some entries wanted =
    walk_ends entries (length wanted + length (all_children entries)) (starts wanted)
      (starts wanted)
      (ground (
        arith,
        length-starts wanted,
        how_many_at_most (λ n. not (is_routed (starts wanted) n)) (all_children entries),
      ))
