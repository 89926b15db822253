-- ===== src/Manifests/Lock/Placed.antt =====
-- Where the packages of a lockfile stand, by `_parse_lock_v2` of app/core/manifests.py.
use mathlib.Core.Option.{none-ne-some, some-injective}
use weedout.Advisories.Json.{Json, arr, obj, Fields, no_fields, field, get, bool, str, null, num}
use weedout.Base.{
  ℕ, ◌≡◌, refl, sym, ap, subst, ◌⊎◌, inl, inr, Bool, true, false, Option, none, some, List, [], ◌∷◌,
  ◌++◌, arith, length, All, In,
}
use weedout.Base.Maybe.{map_option}
use weedout.Base.Text.{Text, text, text_eq, text_eq_iff}
use weedout.Manifests.Lock.{
  direct_names, package_name, index_by_name, route_of, without_last, is_named, place_by, place,
  lock_entry, lock_entries, parse_lock_v2,
}
use weedout.Manifests.Walk.{Entries, Routes}
use weedout.Manifests.Walk.Laws.{walk_npm_graph_lem}
use weedout.Manifests.Walk.Shortest.{is_within}
use weedout.Manifests.Walk.Sound.{Chain, at_start, onward, IsChained}
use weedout.Types.{Dependency}

-- The path to the package leads from the project to it, and its length is the depth; or no chain leads there,
-- and the package is taken to stand one below what the project depends on.
abbrev pub IsPlaced : Entries → List Text → Text → List Text × ℕ → Type 0
IsPlaced entries wanted name (via, depth) =
    (Chain entries wanted name (via ++ name ∷ []) × (depth ≡ length via))
    ⊎ (((names : List Text) → ¬ Chain entries wanted name names) × (via ≡ []) × (depth ≡ 1))

without_last_end : (names : List Text) (n : Text) → without_last (names ++ n ∷ []) ≡ names
without_last_end [] n = refl
without_last_end (m ∷ []) n = refl
without_last_end (m ∷ k ∷ names) n = ap (λ x. m ∷ x) (without_last_end (k ∷ names) n)

-- A chain ends with the name that it leads to.
Chain-end :
    (entries : Entries) (wanted : List Text) (n : Text) (names : List Text)
    → Chain entries wanted n names
    → without_last names ++ n ∷ [] ≡ names
Chain-end entries wanted _ _ (at_start n m) = refl
Chain-end entries wanted _ _ (onward n child names c d m) =
    ap (λ x. x ++ child ∷ []) (without_last_end names child)

route_of_chained :
    (entries : Entries) (wanted : List Text) (n : Text) (routes : Routes)
    → All (IsChained entries wanted) routes
    → (names : List Text) → route_of n routes ≡ some names
    → Chain entries wanted n names
route_of_chained entries wanted n [] a names e = absurd (none-ne-some names e)
route_of_chained entries wanted n (r ∷ routes) (c, a) names e =
    go (text_eq r.0 n) refl (route_of_chained entries wanted n routes a names)
  where
    go :
        (b : Bool)
        → text_eq r.0 n ≡ b
        → (route_of n routes ≡ some names → Chain entries wanted n names)
        → Chain entries wanted n names
    go true h ih =
        subst (λ x. Chain entries wanted n x) (some-injective r.1 names (ground (arith, h, e)))
          (subst (λ x. Chain entries wanted x r.1) ((text_eq_iff r.0 n).0 h) c)
    go false h ih = ih (ground (arith, h, e))

within_routed :
    (n : Text) (k : ℕ) (routes : Routes) → route_of n routes ≡ none → is_within routes n k ≡ false
within_routed n k [] e = refl
within_routed n k (r ∷ routes) e = ground (arith, within_routed n k routes, e)

named_In : (wanted : List Text) (n : Text) → is_named wanted n ≡ true → In n wanted
named_In [] n h = cc
named_In (m ∷ wanted) n h = go (text_eq n m) refl (named_In wanted n)
  where
    go : (b : Bool) → text_eq n m ≡ b → (is_named wanted n ≡ true → In n wanted) → In n (m ∷ wanted)
    go true e ih = inl (sym ((text_eq_iff n m).0 e))
    go false e ih = inr (ih (ground (arith, e, h)))

-- The walk has ended with these routes.
abbrev IsWalked : Entries → List Text → Routes → Type 0
IsWalked entries wanted routes =
    All (IsChained entries wanted) routes
    × ((n : Text) (names : List Text)
        → Chain entries wanted n names
        → is_within routes n (length names) ≡ true)

place-IsPlaced :
    (entries : Entries) (wanted : List Text) (routes : Routes) (name : Text)
    → IsWalked entries wanted routes
    → IsPlaced entries wanted name (place routes wanted name)
unfolding place
place-IsPlaced entries wanted routes name (sound, complete) = go (route_of name routes) refl
  where
    nowhere : route_of name routes ≡ none → (names : List Text) → ¬ Chain entries wanted name names
    nowhere e names c =
        ground (arith, within_routed name (length names) routes e, complete name names c)

    unnamed :
        (b : Bool)
        → route_of name routes ≡ none
        → is_named wanted name ≡ b
        → is_named wanted name ≡ false
    unnamed true e h = absurd (nowhere e (name ∷ []) (at_start name (named_In wanted name h)))
    unnamed false e h = h

    go :
        (o : Option (List Text))
        → route_of name routes ≡ o
        → IsPlaced entries wanted name (place_by wanted name o)
    go none e = inr (nowhere e, refl, ground (arith, unnamed (is_named wanted name) e refl))
    go (some names) e = inl (
      subst (λ x. Chain entries wanted name x)
          (sym (
            Chain-end entries wanted name names
              (route_of_chained entries wanted name routes sound names e)))
          (route_of_chained entries wanted name routes sound names e),
      refl,
    )

abbrev StandsRight : Entries → List Text → Dependency → Type 0
StandsRight entries wanted d = IsPlaced entries wanted d.name (d.via, d.depth)

lock_entries_placed :
    (entries : Entries) (wanted : List Text) (routes : Routes) (packages : Fields)
    → IsWalked entries wanted routes
    → All (StandsRight entries wanted) (lock_entries routes wanted packages)
unfolding place package_name
lock_entries_placed entries wanted routes no_fields w = tt
lock_entries_placed entries wanted routes (field path (obj described) rest) w =
    named (package_name path described) (get (text "version") described)
      (lock_entries_placed entries wanted routes rest w)
  where
    named :
        (o : Option Text) (v : Json)
        → All (StandsRight entries wanted) (lock_entries routes wanted rest)
        → All
            (StandsRight entries wanted)
            (lock_entry routes wanted described (lock_entries routes wanted rest) o v)
    named none v ih = ih
    named (some name) null ih = ih
    named (some name) (bool b) ih = ih
    named (some name) (num n) ih = ih
    named (some name) (str []) ih = ih
    named (some name) (str (c ∷ version)) ih = (place-IsPlaced entries wanted routes name w, ih)
    named (some name) (arr vs) ih = ih
    named (some name) (obj inner) ih = ih
lock_entries_placed entries wanted routes (field path null rest) w =
    lock_entries_placed entries wanted routes rest w
lock_entries_placed entries wanted routes (field path (bool b) rest) w =
    lock_entries_placed entries wanted routes rest w
lock_entries_placed entries wanted routes (field path (num n) rest) w =
    lock_entries_placed entries wanted routes rest w
lock_entries_placed entries wanted routes (field path (str s) rest) w =
    lock_entries_placed entries wanted routes rest w
lock_entries_placed entries wanted routes (field path (arr vs) rest) w =
    lock_entries_placed entries wanted routes rest w

-- A lockfile of the second version is read to its end, whatever its packages depend on. Of each dependency that
-- it gives, the path leads from what the project depends on to the package, along what the entries depend
-- on, and the depth is its length; or there is no such chain of at most 64 names, the path is empty and
-- the depth is 1.
pub parse_lock_v2-IsPlaced :
    (packages : Fields)
    → (deps : List Dependency) × (parse_lock_v2 packages ≡ some deps)
      × All
          (λ d.
            IsPlaced
              (index_by_name packages)
              (direct_names (get [] packages))
              d.name
              (d.via, d.depth))
          deps
unfolding parse_lock_v2
parse_lock_v2-IsPlaced packages =
    let wanted = direct_names (get [] packages) in
    let (routes, e, sound, complete) = walk_npm_graph_lem (index_by_name packages) wanted in
    (
      lock_entries routes wanted packages,
      ap (map_option (λ x. lock_entries x wanted packages)) e,
      lock_entries_placed (index_by_name packages) wanted routes packages (sound, complete),
    )
