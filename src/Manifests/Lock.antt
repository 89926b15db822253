-- ===== src/Manifests/Lock.antt =====
-- `_parse_package_lock` of app/core/manifests.py: the lockfile of npm, from its decoded JSON.
pub mod Placed
use Prim.Native.Nat.{lt, eq, gt}
use weedout.Advisories.Json.{Json, obj, Fields, no_fields, field, get, bool, str}
use weedout.Base.{
  ℕ, ◌+◌, Bool, true, false, ◌||◌, Option, none, some, List, [], ◌∷◌, ◌++◌, map, ltb, if◌then◌else◌,
  length, any, is_empty,
}
use weedout.Base.Maybe.{map_option}
use weedout.Base.Text.{Text, text, text_eq, text_compare, starts_with, strip_prefix?}
use weedout.Manifests.Walk.{Entries, names_under, Routes, walk_npm_graph}
use weedout.Types.{
  npm, Reachability, runtime_direct, runtime_transitive, dev_only, unknown, Dependency, chain,
}

-- A set of names, in their order
abbrev insert_name : Text → List Text → List Text
insert_name n [] = n ∷ []
insert_name n (m ∷ names) =
    let later = m ∷ insert_name n names in
    elim (text_compare n m) [ lt ↦ n ∷ m ∷ names | eq ↦ m ∷ names | gt ↦ later ]

abbrev sorted_set : List Text → List Text
sorted_set [] = []
sorted_set (n ∷ names) = insert_name n (sorted_set names)

-- `direct`: what the root entry depends on
unfoldable pub direct_names : Json → List Text
direct_names (obj root) = sorted_set (
    names_under (text "dependencies") root
    ++ names_under (text "optionalDependencies") root
    ++ names_under (text "peerDependencies") root)
direct_names _ = []

abbrev pub marker : Text
marker = text "node_modules/"

-- What follows the last marker
abbrev pub after_last_marker : Text → Option Text
after_last_marker [] = none
after_last_marker (c ∷ s) =
    let here = strip_prefix? marker (c ∷ s) in
    elim (after_last_marker s) [ none ↦ here | some name ↦ some name ]

abbrev pub filled : Text → Option Text
filled [] = none
filled (c ∷ s) = some (c ∷ s)

-- `_lock_package_name`
unfoldable pub lock_package_name : Text → Option Text
unfolding strip_prefix?
lock_package_name path = elim (after_last_marker path) [ none ↦ none | some name ↦ filled name ]

-- `path.count("node_modules/")`
unfoldable pub nesting : Text → ℕ
unfolding starts_with
nesting [] = 0
nesting (c ∷ s) = (if starts_with marker (c ∷ s) then 1 else 0) + nesting s

-- The value is `true`.
abbrev pub is_true : Json → Bool
is_true (bool b) = b
is_true _ = false

-- The name of an entry that is read: not the root, and not a link
unfoldable pub package_name : (path : Text) → Fields → Option Text
unfolding lock_package_name
package_name path described =
    if is_empty path || is_true (get (text "link") described)
    then none
    else (elim (get (text "name") described) [
      | str name ↦ filled name
      | _ ↦ lock_package_name path
    ])

-- Entries by name, each with how deep its path is nested
abbrev pub Nested : Type 0
Nested = List (Text × ℕ × Fields)

abbrev pub offer_entry : Text × ℕ × Fields → Nested → Nested
offer_entry x [] = x ∷ []
offer_entry x (y ∷ best) =
    let later = y ∷ offer_entry x best in
    let better = if ltb x.1 y.1 then x else y in if text_eq x.0 y.0 then better ∷ best else later

abbrev pub best_entries : Nested → Fields → Nested
best_entries best no_fields = best
best_entries best (field path (obj described) rest) = elim (package_name path described) [
  | none ↦ best_entries best rest
  | some name ↦ best_entries (offer_entry (name, nesting path, described) best) rest
]
best_entries best (field path v rest) = best_entries best rest

-- `_index_by_name`
unfoldable pub index_by_name : Fields → Entries
unfolding package_name nesting text_eq
index_by_name packages = map (λ x. (x.0, x.2)) (best_entries [] packages)

abbrev pub route_of : Text → Routes → Option (List Text)
route_of n [] = none
route_of n ((m, chain) ∷ routes) =
    let rest = route_of n routes in if text_eq m n then some chain else rest

-- `chain[:-1]`
abbrev pub without_last : List Text → List Text
without_last [] = []
without_last (n ∷ []) = []
without_last (n ∷ m ∷ names) = n ∷ without_last (m ∷ names)

abbrev pub is_named : List Text → Text → Bool
is_named wanted n = any (text_eq n) wanted

-- The path to a package and its depth, from its route
abbrev pub place_by : (wanted : List Text) → Text → Option (List Text) → List Text × ℕ
place_by wanted name (some names) = (without_last names, length (without_last names))
place_by wanted name none = ([], if is_named wanted name then 0 else 1)

unfoldable pub place : Routes → (wanted : List Text) → Text → List Text × ℕ
unfolding text_eq
place routes wanted name = place_by wanted name (route_of name routes)

abbrev pub npm_dependency : Text → Text → Reachability → List Text → ℕ → Dependency
npm_dependency name version reachability via depth = record {
  ecosystem = npm;
  name = name;
  version = version;
  version_spec = version;
  reachability = reachability;
  version_exact = true;
  automated_reachability = unknown;
  reachability_evidence = [];
  depth = depth;
  via = via;
}

abbrev pub reachability_of : Bool → Bool → Reachability
reachability_of for_dev is_first =
    if for_dev then dev_only else if is_first then runtime_direct else runtime_transitive

-- The dependency of an entry, before those of the later ones: its name and its version as they are read
abbrev pub lock_entry :
    Routes → (wanted : List Text) → Fields → List Dependency → Option Text → Json → List Dependency
lock_entry routes wanted described deps (some name) (str (c ∷ version)) =
    let (via, depth) = place routes wanted name in
    npm_dependency name (c ∷ version)
      (reachability_of (is_true (get (text "dev") described)) (is_named wanted name)) via depth
    ∷ deps
lock_entry routes wanted described deps name version = deps

-- The loop over the packages of a lockfile of the second version
abbrev pub lock_entries : Routes → (wanted : List Text) → Fields → List Dependency
lock_entries routes wanted no_fields = []
lock_entries routes wanted (field path (obj described) rest) =
    lock_entry routes wanted described (lock_entries routes wanted rest)
      (package_name path described) (get (text "version") described)
lock_entries routes wanted (field path v rest) = lock_entries routes wanted rest

-- `_parse_lock_v2`
unfoldable pub parse_lock_v2 : Fields → Option (List Dependency)
unfolding place package_name direct_names walk_npm_graph index_by_name get
parse_lock_v2 packages =
    let wanted = direct_names (get [] packages) in
    map_option (λ routes. lock_entries routes wanted packages)
      (walk_npm_graph (index_by_name packages) wanted)
