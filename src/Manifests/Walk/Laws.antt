-- ===== src/Manifests/Walk/Laws.antt =====
-- What `_walk_npm_graph` of app/core/manifests.py finds in the end.
use mathlib.Core.Option.{none-ne-some, some-injective}
use weedout.Base.{
  ℕ, zero, suc, ◌+◌, ◌≡◌, refl, sym, subst, inl, inr, Bool, true, false, ◌&&◌, Option, none, some,
  List, [], ◌∷◌, ◌++◌, arith, leb, is_some, length, All, length-append, All-weaken, In, In-of_any,
  All-In, All-members,
}
use weedout.Base.Text.{Text, text_eq, text_eq_refl, text_eq_iff}
use weedout.Findings.Life.Loops.{settled}
use weedout.Manifests.Walk.{
  Entries, children_of, Routes, max_walk_depth, push_all, visit, walk, starts, all_children,
  walk_npm_graph,
}
use weedout.Manifests.Walk.Complete.{IsExpanded, IsSettled, IsDone, Pushed, push_all-Pushed}
use weedout.Manifests.Walk.Ends.{walk_npm_graph-is_some}
use weedout.Manifests.Walk.Shortest.{is_within, IsAtMost, IsAtLeast, AreOrdered, AtLevel}
use weedout.Manifests.Walk.Sound.{Chain, at_start, onward, IsChained, walk_npm_graph-IsChained}
use weedout.Types.{chain}

-- The level of the first chain in the queue
abbrev HasLevel : Routes → Routes → Type 0
HasLevel routes [] = Unit
HasLevel routes (q ∷ queue) = AtLevel (length q.1) (routes, queue)

next_level : (d : ℕ) (routes queue : Routes) → AtLevel d (routes, queue) → HasLevel routes queue
next_level d routes [] l = tt
next_level d routes (q ∷ queue) (a, (b, bs), (c, cs), (o, os)) = (
  All-weaken (IsAtMost (d + 1)) (IsAtMost (length q.1 + 1)) (λ r h. ground (arith, h, c)) routes a,
  All-weaken (IsAtMost (d + 1)) (IsAtMost (length q.1 + 1)) (λ r h. ground (arith, h, c)) queue bs,
  o,
  os,
)

abbrev Keeps : Routes → Routes → Type 0
Keeps before after = (n : Text) (k : ℕ) → is_within before n k ≡ true → is_within after n k ≡ true

module _ (entries : Entries) where
  abbrev Stepped : Text × List Text → Routes → Routes × Routes → Type 0
  Stepped q routes after =
      AtLevel (length q.1) after
      × All (IsDone entries after.0 after.1) after.0
      × Keeps routes after.0

  visit-IsDone :
      (q : Text × List Text) (routes queue : Routes)
      → AtLevel (length q.1) (routes, queue)
      → All (IsDone entries routes (q ∷ queue)) routes
      → Stepped q routes (visit entries q (routes, queue))
  visit-IsDone q routes queue l s = go (leb max_walk_depth (length q.1)) refl
    where
      full :
          leb max_walk_depth (length q.1) ≡ true
          → (r : Text × List Text) → IsDone entries routes (q ∷ queue) r
          → IsDone entries routes queue r
      full e r (inl (inl p)) = inr (inl (subst (λ x. leb max_walk_depth (length x.1) ≡ true) p e))
      full e r (inl (inr m)) = inl m
      full e r (inr x) = inr x

      at_hand :
          (r : Text × List Text)
          → IsDone entries routes (q ∷ queue) r
          → IsSettled entries q routes queue r
      at_hand r (inl (inl p)) = inr (inl p)
      at_hand r (inl (inr m)) = inl m
      at_hand r (inr x) = inr (inr x)

      after : Routes × Routes
      after = push_all q.1 (children_of entries q.0) (routes, queue)

      left :
          ((child : Text)
            → In child (children_of entries q.0)
            → is_within after.0 child (length q.1 + 1) ≡ true)
          → (r : Text × List Text) → IsSettled entries q after.0 after.1 r
          → IsDone entries after.0 after.1 r
      left h r (inl m) = inl m
      left h r (inr (inl p)) = inr (subst (IsExpanded entries after.0) p (inr h))
      left h r (inr (inr x)) = inr x

      pushed : Pushed entries q (children_of entries q.0) (routes, queue) after
      pushed =
          push_all-Pushed entries q (children_of entries q.0) (routes, queue) l
            (All-weaken (IsDone entries routes (q ∷ queue)) (IsSettled entries q routes queue)
              at_hand routes s)

      go :
          (t : Bool)
          → leb max_walk_depth (length q.1) ≡ t
          → Stepped q routes (visit entries q (routes, queue))
      go true e = rw e (
        l,
        All-weaken (IsDone entries routes (q ∷ queue)) (IsDone entries routes queue) (full e) routes
            s,
        λ n k w. w,
      )
      go false e = rw e (
        pushed.0,
        All-weaken (IsSettled entries q after.0 after.1) (IsDone entries after.0 after.1)
            (left pushed.3) after.0 pushed.1,
        pushed.2,
      )

  walk-IsDone :
      (rounds : ℕ) (routes queue found : Routes)
      → HasLevel routes queue
      → All (IsDone entries routes queue) routes
      → walk entries rounds routes queue ≡ some found
      → All (IsDone entries found []) found × Keeps routes found
  unfolding walk
  walk-IsDone rounds routes [] found l s e =
      subst (λ x. All (IsDone entries x []) x × Keeps routes x) (some-injective routes found e)
        (s, λ n k w. w)
  walk-IsDone zero routes (q ∷ queue) found l s e = absurd (none-ne-some found e)
  walk-IsDone (suc rounds) routes (q ∷ queue) found l s e =
      let (level, settled, keeps) = visit-IsDone q routes queue l s in
      let state = visit entries q (routes, queue) in
      let (all_done, keeps') =
        walk-IsDone rounds state.0 state.1 found (next_level (length q.1) state.0 state.1 level)
          settled e in
      (all_done, λ n k w. keeps' n k (keeps n k w))

starts_within : (n : Text) (wanted : List Text) → In n wanted → is_within (starts wanted) n 1 ≡ true
starts_within n [] m = elim m [ ]
starts_within n (k ∷ wanted) (inl e) =
    ground (arith, subst (λ x. text_eq k x ≡ true) e (text_eq_refl k))
starts_within n (k ∷ wanted) (inr m) = ground (arith, starts_within n wanted m)

starts_bounds :
    (wanted : List Text)
    → All (IsAtMost 1) (starts wanted)
      × All (IsAtLeast 1) (starts wanted)
      × AreOrdered (starts wanted)
starts_bounds [] = (tt, tt, tt)
starts_bounds (n ∷ wanted) = let (a, b, o) = starts_bounds wanted in ((refl, a), (refl, b), (b, o))

starts_level : (wanted : List Text) → HasLevel (starts wanted) (starts wanted)
starts_level [] = tt
starts_level (n ∷ wanted) =
    let (a, b, o) = starts_bounds wanted in
    let a' = All-weaken (IsAtMost 1) (IsAtMost 2) (λ r h. ground (arith, h)) (starts wanted) a in
    ((refl, a'), a', b, o)

starts-IsDone : (entries : Entries) (routes : Routes) → All (IsDone entries routes routes) routes
starts-IsDone entries routes = All-members (IsDone entries routes routes) routes (λ r m. inl m)

within_mono :
    (n : Text) (j k : ℕ) (routes : Routes)
    → leb j k ≡ true
    → is_within routes n j ≡ true
    → is_within routes n k ≡ true
within_mono n j k [] h w = w
within_mono n j k (r ∷ routes) h w = ground (arith, within_mono n j k routes h, h, w)

module _ (entries : Entries) (wanted : List Text) (routes : Routes) where
  abbrev Finished : Type 0
  Finished = All (IsDone entries routes []) routes × Keeps (starts wanted) routes

  Chain-within :
      Finished
      → (n : Text) (chain : List Text) → Chain entries wanted n chain
      → is_within routes n (length chain) ≡ true
  Chain-within f _ _ (at_start n m) = f.1 n 1 (starts_within n wanted m)
  Chain-within f _ _ (onward n child chain c d m) = go (
      In-of_any (λ r. text_eq r.0 n && leb (length r.1) (length chain)) routes
        (Chain-within f n chain c))
    where
      go :
          ((r : Text × List Text) × In r routes
            × (text_eq r.0 n && leb (length r.1) (length chain) ≡ true))
          → is_within routes child (length (chain ++ child ∷ [])) ≡ true
      go (r, i, t) = reach (All-In (IsDone entries routes []) r routes f.0 i)
        where
          name : r.0 ≡ n
          name = (text_eq_iff r.0 n).0 (ground (arith, t))

          short : leb (length r.1) (length chain) ≡ true
          short = ground (arith, t)

          reach :
              IsDone entries routes [] r
              → is_within routes child (length (chain ++ child ∷ [])) ≡ true
          reach (inl e) = elim e [ ]
          reach (inr (inl full)) = ground (arith, full, short, d)
          reach (inr (inr g)) =
              within_mono child (length r.1 + 1) (length (chain ++ child ∷ [])) routes
                (ground (arith, length-append chain (child ∷ []), short))
                (g child (subst (λ x. In child (children_of entries x)) (sym name) m))

-- What the project depends on, directly or not, by a chain of at most 64 names
module _ (entries : Entries) (wanted : List Text) where
  finished :
      (routes : Routes)
      → walk_npm_graph entries wanted ≡ some routes
      → Finished entries wanted routes
  unfolding walk_npm_graph
  finished routes =
      walk-IsDone entries (length wanted + length (all_children entries)) (starts wanted)
        (starts wanted) routes (starts_level wanted) (starts-IsDone entries (starts wanted))

  -- The walk comes to an end, with its routes. Each of them is a chain of dependencies from the project to a
  -- package, of at most 64 names, and wherever there is such a chain to a package, there is a route to it
  -- that is no longer: every package that can be reached is found, by a shortest chain.
  pub walk_npm_graph_lem :
      (routes : Routes) × (walk_npm_graph entries wanted ≡ some routes)
      × All (IsChained entries wanted) routes
      × ((n : Text) (chain : List Text)
          → Chain entries wanted n chain
          → is_within routes n (length chain) ≡ true)
  walk_npm_graph_lem =
      go (walk_npm_graph entries wanted) refl (walk_npm_graph-is_some entries wanted)
    where
      go :
          (o : Option Routes)
          → walk_npm_graph entries wanted ≡ o
          → is_some (walk_npm_graph entries wanted) ≡ true
          → (routes : Routes) × (walk_npm_graph entries wanted ≡ some routes)
            × All (IsChained entries wanted) routes
            × ((n : Text) (chain : List Text)
                → Chain entries wanted n chain
                → is_within routes n (length chain) ≡ true)
      go none e h = ground (arith, e, h)
      go (some routes) e h = (
        routes,
        e,
        walk_npm_graph-IsChained entries wanted routes e,
        Chain-within entries wanted routes (finished routes e),
      )
