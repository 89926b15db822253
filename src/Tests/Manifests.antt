-- ===== src/Tests/Manifests.antt =====
-- A lockfile of npm with a cycle and a package that nothing asks for (app/core/manifests.py).
use weedout.Advisories.Json.{Json, obj, Fields, no_fields, field, get, str}
use weedout.Manifests.Walk.{Entries}
use weedout.Base.{ℕ, ◌≡◌, refl, true, Option, some, List, [], ◌∷◌, map, length, All, In}
use weedout.Base.Maybe.{map_option}
use weedout.Base.Text.{Text, text}
use weedout.Manifests.Dependencies.{dedupe}
use weedout.Manifests.Dependencies.Laws.{IsKeptOnce, dedupe_lem}
use weedout.Manifests.Lock.{direct_names, index_by_name, npm_dependency, parse_lock_v2}
use weedout.Manifests.Lock.Placed.{IsPlaced, parse_lock_v2-IsPlaced}
use weedout.Manifests.Walk.{Routes, walk_npm_graph}
use weedout.Manifests.Walk.Laws.{walk_npm_graph_lem}
use weedout.Manifests.Walk.Shortest.{is_within}
use weedout.Manifests.Walk.Sound.{Chain, IsChained}
use weedout.Types.{runtime_direct, dev_only, Dependency}

abbrev asks_for : Text → Json
asks_for name = obj (field name (str (text "*")) no_fields)

abbrev installed : Text → Text → Json
installed version name =
    obj
      (field (text "version") (str version) (field (text "dependencies") (asks_for name) no_fields))

abbrev lockfile : Fields
lockfile = field [] (obj (field (text "dependencies") (asks_for (text "express")) no_fields)) (
    field (text "node_modules/express") (installed (text "4.18.0") (text "qs")) (
      field (text "node_modules/qs") (installed (text "6.11.0") (text "express"))
        (field (text "node_modules/stray") (installed (text "1.0.0") (text "absent")) no_fields)))

abbrev places : Option (List Dependency) → Option (List (Text × List Text × ℕ))
places = map_option (map (λ d. (d.name, d.via, d.depth)))

lockfile_test :
    places (parse_lock_v2 lockfile)
    ≡ some
        ((text "express", [], 0) ∷ (text "qs", text "express" ∷ [], 1) ∷ (text "stray", [], 1) ∷ [])
unfolding parse_lock_v2
lockfile_test = refl

abbrev lock_index : Entries
lock_index =
    (text "express", field (text "dependencies") (asks_for (text "qs")) no_fields)
    ∷ (text "qs", field (text "dependencies") (asks_for (text "express")) no_fields)
    ∷ []

walk_npm_graph_lem_example :
    (routes : Routes) × (walk_npm_graph lock_index (text "express" ∷ []) ≡ some routes)
    × All (IsChained lock_index (text "express" ∷ [])) routes
    × ((n : Text) (names : List Text)
        → Chain lock_index (text "express" ∷ []) n names
        → is_within routes n (length names) ≡ true)
walk_npm_graph_lem_example = walk_npm_graph_lem lock_index (text "express" ∷ [])

parse_lock_v2-IsPlaced_example :
    (deps : List Dependency) × (parse_lock_v2 lockfile ≡ some deps)
    × All
        (λ d.
          IsPlaced
            (index_by_name lockfile)
            (direct_names (get [] lockfile))
            d.name
            (d.via, d.depth))
        deps
parse_lock_v2-IsPlaced_example = parse_lock_v2-IsPlaced lockfile

abbrev in_both : List Dependency
in_both =
    npm_dependency (text "qs") (text "6.11.0") dev_only [] 0
    ∷ npm_dependency (text "qs") (text "6.11.0") runtime_direct [] 0
    ∷ []

dedupe_lem_example :
    All (IsKeptOnce (dedupe in_both)) in_both × All (λ c. In c in_both) (dedupe in_both)
dedupe_lem_example = dedupe_lem in_both
