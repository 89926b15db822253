-- ===== src/Manifests/Walk/Sound.antt =====
-- What a chain of `_walk_npm_graph` of app/core/manifests.py says.
use mathlib.Core.Option.{none-ne-some, some-injective}
use weedout.Base.{
  ℕ, zero, suc, ◌+◌, ◌≡◌, refl, subst, inl, inr, Bool, true, false, some, List, [], ◌∷◌, ◌++◌, leb,
  length, All, All-append, In,
}
use weedout.Base.Text.{Text}
use weedout.Manifests.Walk.{
  Entries, children_of, Routes, is_routed, max_walk_depth, push, push_all, visit, walk, starts,
  all_children, walk_npm_graph,
}
use weedout.Types.{chain}

-- A chain from the project to a package: its first name is one that the project depends on, each next one is
-- a name that the entry of the one before depends on, and no chain of the full depth goes on.
pub data Chain (entries : Entries) (wanted : List Text) : Text → List Text → Type 0 where
  at_start : (n : Text) → In n wanted → Chain entries wanted n (n ∷ [])
  onward :
      (n child : Text) (chain : List Text)
      → Chain entries wanted n chain
      → leb max_walk_depth (length chain) ≡ false
      → In child (children_of entries n)
      → Chain entries wanted child (chain ++ child ∷ [])

module _ (entries : Entries) (wanted : List Text) where
  abbrev pub IsChained : Text × List Text → Type 0
  IsChained r = Chain entries wanted r.0 r.1

  abbrev pub AreChained : Routes × Routes → Type 0
  AreChained state = All IsChained state.0 × All IsChained state.1

  starts-IsChained :
      (names : List Text) → ((n : Text) → In n names → In n wanted) → All IsChained (starts names)
  starts-IsChained [] h = tt
  starts-IsChained (n ∷ names) h =
      (at_start n (h n (inl refl)), starts-IsChained names (λ k m. h k (inr m)))

  push-AreChained :
      (n child : Text) (chain : List Text) (state : Routes × Routes)
      → Chain entries wanted n chain
      → leb max_walk_depth (length chain) ≡ false
      → In child (children_of entries n)
      → AreChained state
      → AreChained (push chain child state)
  push-AreChained n child chain (routes, queue) c d m (a, b) = go (is_routed routes child) refl
    where
      longer : IsChained (child, chain ++ child ∷ [])
      longer = onward n child chain c d m

      go : (x : Bool) → is_routed routes child ≡ x → AreChained (push chain child (routes, queue))
      go true e = rw e (a, b)
      go false e = rw e (
        (longer, a),
        All-append IsChained queue ((child, chain ++ child ∷ []) ∷ []) b (longer, tt),
      )

  push_all-AreChained :
      (n : Text) (chain names : List Text) (state : Routes × Routes)
      → Chain entries wanted n chain
      → leb max_walk_depth (length chain) ≡ false
      → ((child : Text) → In child names → In child (children_of entries n))
      → AreChained state
      → AreChained (push_all chain names state)
  push_all-AreChained n chain [] state c d m a = a
  push_all-AreChained n chain (child ∷ names) state c d m a =
      push_all-AreChained n chain names (push chain child state) c d (λ k i. m k (inr i))
        (push-AreChained n child chain state c d (m child (inl refl)) a)

  visit-AreChained :
      (q : Text × List Text) (state : Routes × Routes)
      → IsChained q
      → AreChained state
      → AreChained (visit entries q state)
  visit-AreChained (n, chain) state c a = go (leb max_walk_depth (length chain)) refl
    where
      go :
          (x : Bool)
          → leb max_walk_depth (length chain) ≡ x
          → AreChained (visit entries (n, chain) state)
      go true e = rw e a
      go false e = rw e (push_all-AreChained n chain (children_of entries n) state c e (λ k i. i) a)

  walk-IsChained :
      (rounds : ℕ) (routes queue found : Routes)
      → All IsChained routes
      → All IsChained queue
      → walk entries rounds routes queue ≡ some found
      → All IsChained found
  unfolding walk
  walk-IsChained rounds routes [] found a b e =
      subst (λ x. All IsChained x) (some-injective routes found e) a
  walk-IsChained zero routes (q ∷ queue) found a b e = absurd (none-ne-some found e)
  walk-IsChained (suc rounds) routes (q ∷ queue) found a (c, b) e =
      let next = visit-AreChained q (routes, queue) c (a, b) in
      walk-IsChained rounds (visit entries q (routes, queue)).0 (visit entries q (routes, queue)).1
        found next.0 next.1 e

  -- Every route that the walk finds is a chain of dependencies from the project to the package, which it names
  -- last, of at most 64 names.
  pub walk_npm_graph-IsChained :
      (routes : Routes) → walk_npm_graph entries wanted ≡ some routes → All IsChained routes
  unfolding walk_npm_graph
  walk_npm_graph-IsChained routes =
      walk-IsChained (length wanted + length (all_children entries)) (starts wanted) (starts wanted)
        routes (starts-IsChained wanted (λ k i. i)) (starts-IsChained wanted (λ k i. i))
