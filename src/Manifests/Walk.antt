-- ===== src/Manifests/Walk.antt =====
-- `_walk_npm_graph` of app/core/manifests.py: how the packages of a lockfile are reached from the project.
pub mod Ends
pub mod Sound
pub mod Shortest
pub mod Complete
pub mod Laws
use weedout.Advisories.Json.{obj, Fields, keys, get}
use weedout.Base.{
  ℕ, zero, suc, ◌+◌, Bool, Option, none, some, List, [], ◌∷◌, ◌++◌, map, leb, if◌then◌else◌, length,
  any,
}
use weedout.Base.Text.{Text, text, text_eq}
use weedout.Types.{chain}

-- The names under a key of an entry, where it holds an object
abbrev pub names_under : Text → Fields → List Text
names_under section described = elim (get section described) [ obj fs ↦ keys fs | _ ↦ [] ]

-- What an entry depends on, in the order in which the loops read it
abbrev pub children : Fields → List Text
children described =
    names_under (text "dependencies") described
    ++ names_under (text "optionalDependencies") described

-- The entries by name
abbrev pub Entries : Type 0
Entries = List (Text × Fields)

-- `by_name.get(name)`
abbrev pub entry_of : Text → Entries → Option Fields
entry_of n [] = none
entry_of n ((m, described) ∷ entries) =
    let rest = entry_of n entries in if text_eq m n then some described else rest

abbrev pub children_of : Entries → Text → List Text
children_of entries n = elim (entry_of n entries) [
  | none ↦ []
  | some described ↦ children described
]

-- The names with their chains, the newest first
abbrev pub Routes : Type 0
Routes = List (Text × List Text)

-- `name in routes`
abbrev pub is_routed : Routes → Text → Bool
is_routed routes n = any (λ r. text_eq r.0 n) routes

abbrev pub max_walk_depth : ℕ
max_walk_depth = 64

-- One name that a package depends on, where the package was reached by `chain`
abbrev pub push : List Text → Text → Routes × Routes → Routes × Routes
push chain child (routes, queue) =
    if is_routed routes child
    then (routes, queue)
    else ((child, chain ++ child ∷ []) ∷ routes, queue ++ (child, chain ++ child ∷ []) ∷ [])

-- The inner loop: the routes and the queue, after the names that a package depends on
abbrev pub push_all : List Text → List Text → Routes × Routes → Routes × Routes
push_all chain [] state = state
push_all chain (child ∷ names) state = push_all chain names (push chain child state)

abbrev pub visit : Entries → Text × List Text → Routes × Routes → Routes × Routes
visit entries (name, chain) state =
    if leb max_walk_depth (length chain)
    then state
    else push_all chain (children_of entries name) state

-- The outer loop, for a number of rounds
unfoldable pub walk : Entries → (rounds : ℕ) → (routes queue : Routes) → Option Routes
unfolding text_eq
walk entries rounds routes [] = some routes
walk entries zero routes (q ∷ queue) = none
walk entries (suc rounds) routes (q ∷ queue) =
    let (more, rest) = visit entries q (routes, queue) in walk entries rounds more rest

abbrev pub starts : List Text → Routes
starts = map (λ n. (n, n ∷ []))

-- Every name that some entry depends on, as often as it does
abbrev pub all_children : Entries → List Text
all_children [] = []
all_children ((m, described) ∷ entries) = children described ++ all_children entries

-- `_walk_npm_graph`, for the names that the project itself depends on, in their order, with a round for each of
-- them and for each name that an entry gives
unfoldable pub walk_npm_graph : Entries → (wanted : List Text) → Option Routes
unfolding walk
walk_npm_graph entries wanted =
    walk entries (length wanted + length (all_children entries)) (starts wanted) (starts wanted)
