-- ===== src/Manifests/LockFile.antt =====
-- `_parse_package_lock` and `_parse_lock_v1` of app/core/manifests.py, with what `parse_manifest` does after them.
use weedout.Advisories.Json.{Json, arr, obj, Fields, no_fields, field, get, bool, str, null, num}
use weedout.Base.{
  ℕ, zero, suc, ◌+◌, ◌≡◌, refl, Bool, true, false, ◌||◌, Option, none, some, List, [], ◌∷◌, ◌++◌,
  arith, ◌==◌, if◌then◌else◌, is_some, is_empty, Result, ok, err,
}
use weedout.Base.Maybe.{map_option}
use weedout.Base.Text.{Text, text, starts_with}
use weedout.Manifests.Dependencies.{kept_dependencies}
use weedout.Manifests.Lock.{is_true, npm_dependency, reachability_of, parse_lock_v2}
use weedout.Manifests.Lock.Placed.{parse_lock_v2-IsPlaced}
use weedout.Types.{Dependency}

pub data ManifestParseError : Type 0 where
  invalid_json no_object no_section : ManifestParseError

pub record ParsedManifest : Type 0 where
  pub dependencies : List Dependency
  pub project_name : Option Text
  -- Whether the warning about the number of dependencies is given
  pub is_cut : Bool

abbrev is_source : Text → Bool
is_source version = starts_with (text "file:") version || starts_with (text "git") version

-- The dependency of an entry of the first version, where it has one
abbrev entry_v1 : ℕ → List Text → Text → Fields → List Dependency
entry_v1 depth via name described = elim (get (text "version") described) [
  | str (c ∷ version) ↦
      if is_source (c ∷ version)
      then []
      else npm_dependency name (c ∷ version)
          (reachability_of (is_true (get (text "dev") described)) (depth == 0)) via depth
        ∷ []
  | _ ↦ []
]

abbrev nested_v1 : (List Text → Fields → List Dependency) → List Text → Fields → List Dependency
nested_v1 deeper via described = elim (get (text "dependencies") described) [
  | obj tree ↦ deeper via tree
  | _ ↦ []
]

abbrev entries_v1 :
    (List Text → Fields → List Dependency) → ℕ → List Text → Fields → List Dependency
entries_v1 deeper depth via no_fields = []
entries_v1 deeper depth via (field name (obj described) rest) =
    entry_v1 depth via name described
    ++ nested_v1 deeper (via ++ name ∷ []) described
    ++ entries_v1 deeper depth via rest
entries_v1 deeper depth via (field name v rest) = entries_v1 deeper depth via rest

-- `_parse_lock_v1`, where `levels` is what is left of the 65 levels down to `max_walk_depth`
unfoldable pub parse_lock_v1 : (levels depth : ℕ) → List Text → Fields → List Dependency
unfolding starts_with
parse_lock_v1 zero depth via tree = []
parse_lock_v1 (suc levels) depth via tree =
    entries_v1 (λ v t. parse_lock_v1 levels (depth + 1) v t) depth via tree

abbrev text_of : Json → Option Text
text_of (str s) = some s
text_of _ = none

-- `root["name"]`, where the root entry has one and the file has none
abbrev root_name : Option Text → Json → Option Text
root_name name (obj root) =
    if elim name [ none ↦ true | some s ↦ is_empty s ]
    then (elim (get (text "name") root) [ str s ↦ some s | _ ↦ name ])
    else name
root_name name v = name

abbrev is_filled : Fields → Bool
is_filled no_fields = false
is_filled (field k v fs) = true

abbrev manifest_of : Option Text → List Dependency → ParsedManifest
manifest_of name deps = record { dependencies = deps; project_name = name; is_cut = false }

-- The lockfile of the first version
abbrev lock_tree : Option Text → Json → Result ManifestParseError ParsedManifest
lock_tree name (obj tree) = ok (manifest_of name (parse_lock_v1 65 0 [] tree))
lock_tree name v = err no_section

-- The lockfile of the second version, where it has packages
abbrev lock_packages :
    Option Text → (tree : Json) → Json → Option (Result ManifestParseError ParsedManifest)
lock_packages name tree (obj packages) =
    if is_filled packages
    then map_option (λ deps. ok (manifest_of (root_name name (get [] packages)) deps))
        (parse_lock_v2 packages)
    else some (lock_tree name tree)
lock_packages name tree v = some (lock_tree name tree)

-- `_parse_package_lock`, of what `json.loads` gives
unfoldable pub parse_package_lock : Option Json → Option (Result ManifestParseError ParsedManifest)
unfolding parse_lock_v1 parse_lock_v2
parse_package_lock none = some (err invalid_json)
parse_package_lock (some (obj file)) =
    lock_packages (text_of (get (text "name") file)) (get (text "dependencies") file)
      (get (text "packages") file)
parse_package_lock (some v) = some (err no_object)

abbrev cut : ParsedManifest → ParsedManifest
cut parsed =
    let (deps, is_cut) = kept_dependencies parsed.dependencies in
    record parsed { dependencies = deps; is_cut = is_cut }

abbrev cut_result :
    Result ManifestParseError ParsedManifest → Result ManifestParseError ParsedManifest
cut_result (ok parsed) = ok (cut parsed)
cut_result (err e) = err e

-- `parse_manifest`, for the lockfile of npm
unfoldable pub parse_manifest : Option Json → Option (Result ManifestParseError ParsedManifest)
unfolding parse_package_lock kept_dependencies
parse_manifest decoded = map_option cut_result (parse_package_lock decoded)

-- Every value is read to its end: the walk over the packages ends.
pub parse_manifest-is_some : (decoded : Option Json) → is_some (parse_manifest decoded) ≡ true
unfolding parse_manifest parse_package_lock
parse_manifest-is_some none = refl
parse_manifest-is_some (some null) = refl
parse_manifest-is_some (some (bool b)) = refl
parse_manifest-is_some (some (num n)) = refl
parse_manifest-is_some (some (str s)) = refl
parse_manifest-is_some (some (arr vs)) = refl
parse_manifest-is_some (some (obj file)) = go (get (text "packages") file)
  where
    name : Option Text
    name = text_of (get (text "name") file)

    tree : Json
    tree = get (text "dependencies") file

    go : (v : Json) → is_some (map_option cut_result (lock_packages name tree v)) ≡ true
    go null = refl
    go (bool b) = refl
    go (num n) = refl
    go (str s) = refl
    go (arr vs) = refl
    go (obj no_fields) = refl
    go (obj (field k v fs)) =
        let (deps, e, _) = parse_lock_v2-IsPlaced (field k v fs) in ground (arith, e)
