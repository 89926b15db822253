-- ===== src/Manifests/Walk/Complete.antt =====
-- The packages that `_walk_npm_graph` of app/core/manifests.py is done with, and those that are in its queue.
use weedout.Base.{
  ℕ, ◌+◌, ◌≡◌, refl, subst, ◌⊎◌, inl, inr, Bool, true, false, List, [], ◌∷◌, ◌++◌, arith, leb,
  length, All, All-weaken, In,
}
use weedout.Base.Text.{Text}
use weedout.Manifests.Walk.{Entries, children_of, Routes, is_routed, max_walk_depth, push, push_all}
use weedout.Manifests.Walk.Shortest.{is_within, AtLevel, push_level}

In-append_left : {A : Type 0} (a : A) (xs ys : List A) → In a xs → In a (xs ++ ys)
In-append_left a [] ys m = elim m [ ]
In-append_left a (x ∷ xs) ys (inl e) = inl e
In-append_left a (x ∷ xs) ys (inr m) = inr (In-append_left a xs ys m)

In-append_end : {A : Type 0} (a : A) (xs : List A) → In a (xs ++ a ∷ [])
In-append_end a [] = inl refl
In-append_end a (x ∷ xs) = inr (In-append_end a xs)

module _ (entries : Entries) where
  -- The chain of the package is a full one, or what the package depends on is within one name more.
  abbrev pub IsExpanded : Routes → Text × List Text → Type 0
  IsExpanded routes r =
      (leb max_walk_depth (length r.1) ≡ true)
      ⊎ ((child : Text)
          → In child (children_of entries r.0)
          → is_within routes child (length r.1 + 1) ≡ true)

  -- Each route waits in the queue, is the one at hand, or is expanded.
  abbrev pub IsSettled : Text × List Text → Routes → Routes → Text × List Text → Type 0
  IsSettled q routes queue r = In r queue ⊎ ((q ≡ r) ⊎ IsExpanded routes r)

  abbrev pub IsDone : Routes → Routes → Text × List Text → Type 0
  IsDone routes queue r = In r queue ⊎ IsExpanded routes r

  IsExpanded-mono :
      (before after : Routes) (r : Text × List Text)
      → ((n : Text) (k : ℕ) → is_within before n k ≡ true → is_within after n k ≡ true)
      → IsExpanded before r
      → IsExpanded after r
  IsExpanded-mono before after r h (inl e) = inl e
  IsExpanded-mono before after r h (inr f) = inr (λ c m. h c (length r.1 + 1) (f c m))

  push-IsSettled :
      (q : Text × List Text) (child : Text) (state : Routes × Routes)
      → AtLevel (length q.1) state
      → All (IsSettled q state.0 state.1) state.0
      → All (IsSettled q (push q.1 child state).0 (push q.1 child state).1) (push q.1 child state).0
  push-IsSettled q child (routes, queue) l s =
      go (is_routed routes child) refl (push_level q.1 child (routes, queue) l).2
    where
      step : Text × List Text
      step = (child, q.1 ++ child ∷ [])

      later :
          ((n : Text) (k : ℕ) → is_within routes n k ≡ true → is_within (step ∷ routes) n k ≡ true)
          → (r : Text × List Text) → IsSettled q routes queue r
          → IsSettled q (step ∷ routes) (queue ++ step ∷ []) r
      later h r (inl m) = inl (In-append_left r queue (step ∷ []) m)
      later h r (inr (inl e)) = inr (inl e)
      later h r (inr (inr x)) = inr (inr (IsExpanded-mono routes (step ∷ routes) r h x))

      go :
          (t : Bool)
          → is_routed routes child ≡ t
          → ((n : Text) (k : ℕ)
              → is_within routes n k ≡ true
              → is_within (push q.1 child (routes, queue)).0 n k ≡ true)
          → All
              (IsSettled q (push q.1 child (routes, queue)).0 (push q.1 child (routes, queue)).1)
              (push q.1 child (routes, queue)).0
      go true e h = rw e s
      go false e h = rw e (
        inl (In-append_end step queue),
        All-weaken (IsSettled q routes queue) (IsSettled q (step ∷ routes) (queue ++ step ∷ []))
            (later (λ n k w. ground (arith, w))) routes s,
      )

  -- What the loops keep, and that all the names are within reach at their end
  abbrev pub Pushed : Text × List Text → List Text → Routes × Routes → Routes × Routes → Type 0
  Pushed q names before after =
      AtLevel (length q.1) after
      × All (IsSettled q after.0 after.1) after.0
      × ((n : Text) (k : ℕ) → is_within before.0 n k ≡ true → is_within after.0 n k ≡ true)
      × ((child : Text) → In child names → is_within after.0 child (length q.1 + 1) ≡ true)

  pub push_all-Pushed :
      (q : Text × List Text) (names : List Text) (state : Routes × Routes)
      → AtLevel (length q.1) state
      → All (IsSettled q state.0 state.1) state.0
      → Pushed q names state (push_all q.1 names state)
  push_all-Pushed q [] state l s = (l, s, λ n k w. w, λ c m. elim m [ ])
  push_all-Pushed q (child ∷ names) state l s =
      let (level, here, keeps) = push_level q.1 child state l in
      let (l', s', keeps', all_here) =
        push_all-Pushed q names (push q.1 child state) level (push-IsSettled q child state l s) in
      (l', s', (λ n k w. keeps' n k (keeps n k w)), λ c m. reach c keeps' here all_here m)
    where
      reach :
          (c : Text)
          → ((n : Text) (k : ℕ)
              → is_within (push q.1 child state).0 n k ≡ true
              → is_within (push_all q.1 names (push q.1 child state)).0 n k ≡ true)
          → is_within (push q.1 child state).0 child (length q.1 + 1) ≡ true
          → ((c : Text)
              → In c names
              → is_within (push_all q.1 names (push q.1 child state)).0 c (length q.1 + 1) ≡ true)
          → In c (child ∷ names)
          → is_within (push_all q.1 names (push q.1 child state)).0 c (length q.1 + 1) ≡ true
      reach c keeps' here all_here (inl e) =
          subst
            (λ x. is_within (push_all q.1 names (push q.1 child state)).0 x (length q.1 + 1) ≡ true)
            e (keeps' child (length q.1 + 1) here)
      reach c keeps' here all_here (inr m) = all_here c m
