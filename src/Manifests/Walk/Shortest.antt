-- ===== src/Manifests/Walk/Shortest.antt =====
-- That `_walk_npm_graph` of app/core/manifests.py finds every package that can be reached, by a shortest chain.
use weedout.Base.{
  ℕ, ◌+◌, ◌≡◌, refl, Bool, true, false, ◌&&◌, List, [], ◌∷◌, ◌++◌, arith, leb, length, any, All,
  length-append, All-append,
}
use weedout.Base.Text.{Text, text_eq, text_eq_refl}
use weedout.Manifests.Walk.{Routes, is_routed, push}
use weedout.Types.{chain}

-- The name has a route of at most `k` names.
abbrev pub is_within : Routes → Text → ℕ → Bool
is_within routes n k = any (λ r. text_eq r.0 n && leb (length r.1) k) routes

abbrev pub IsAtMost : ℕ → Text × List Text → Type 0
IsAtMost k r = leb (length r.1) k ≡ true

abbrev pub IsAtLeast : ℕ → Text × List Text → Type 0
IsAtLeast k r = leb k (length r.1) ≡ true

-- The chains in the queue never get shorter.
abbrev pub AreOrdered : Routes → Type 0
AreOrdered [] = Unit
AreOrdered (r ∷ rs) = All (IsAtLeast (length r.1)) rs × AreOrdered rs

ordered_end :
    (k : ℕ) (x : Text × List Text) (queue : Routes)
    → length x.1 ≡ k
    → All (IsAtMost k) queue
    → AreOrdered queue
    → AreOrdered (queue ++ x ∷ [])
ordered_end k x [] e a o = (tt, tt)
ordered_end k x (r ∷ queue) e (a, b) (o, p) = (
  All-append (IsAtLeast (length r.1)) queue (x ∷ []) o (ground (arith, a, e), tt),
  ordered_end k x queue e b p,
)

-- What the walk keeps while it is at a package that was reached by `d` names
abbrev pub AtLevel : ℕ → Routes × Routes → Type 0
AtLevel d state =
    All (IsAtMost (d + 1)) state.0
    × All (IsAtMost (d + 1)) state.1
    × All (IsAtLeast d) state.1
    × AreOrdered state.1

routed_within :
    (k : ℕ) (n : Text) (routes : Routes)
    → All (IsAtMost k) routes
    → is_routed routes n ≡ true
    → is_within routes n k ≡ true
routed_within k n [] a r = cc
routed_within k n (x ∷ routes) (a, b) r = go (text_eq x.0 n) refl (routed_within k n routes b)
  where
    go :
        (t : Bool)
        → text_eq x.0 n ≡ t
        → (is_routed routes n ≡ true → is_within routes n k ≡ true)
        → is_within (x ∷ routes) n k ≡ true
    go true e ih = ground (arith, e, a)
    go false e ih = ground (arith, e, ih (ground (arith, e, r)))

length_step : (chain : List Text) (child : Text) → length (chain ++ child ∷ []) ≡ length chain + 1
length_step chain child = length-append chain (child ∷ [])

-- A child is within reach after it is pushed, and everything stays within reach.
pub push_level :
    (chain : List Text) (child : Text) (state : Routes × Routes)
    → AtLevel (length chain) state
    → AtLevel (length chain) (push chain child state)
      × (is_within (push chain child state).0 child (length chain + 1) ≡ true)
      × ((n : Text) (k : ℕ)
          → is_within state.0 n k ≡ true
          → is_within (push chain child state).0 n k ≡ true)
push_level chain child (routes, queue) (a, b, c, o) = go (is_routed routes child) refl
  where
    step : Text × List Text
    step = (child, chain ++ child ∷ [])

    short : IsAtMost (length chain + 1) step
    short = ground (arith, length_step chain child)

    long : IsAtLeast (length chain) step
    long = ground (arith, length_step chain child)

    go :
        (t : Bool)
        → is_routed routes child ≡ t
        → AtLevel (length chain) (push chain child (routes, queue))
          × (is_within (push chain child (routes, queue)).0 child (length chain + 1) ≡ true)
          × ((n : Text) (k : ℕ)
              → is_within routes n k ≡ true
              → is_within (push chain child (routes, queue)).0 n k ≡ true)
    go true e = rw e ((a, b, c, o), routed_within (length chain + 1) child routes a e, λ n k w. w)
    go false e = rw e (
      (
        (short, a),
        All-append (IsAtMost (length chain + 1)) queue (step ∷ []) b (short, tt),
        All-append (IsAtLeast (length chain)) queue (step ∷ []) c (long, tt),
        ordered_end (length chain + 1) step queue (length_step chain child) b o,
      ),
      ground (arith, short, text_eq_refl child),
      λ n k w. ground (arith, w),
    )
