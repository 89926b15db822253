-- ===== src/Manifests/Dependencies.antt =====
-- `_dedupe` of app/core/manifests.py, and the cap of `parse_manifest` on what it leaves.
pub mod Distinct
pub mod Laws
use Prim.Native.Nat.{Ordering}
use weedout.Base.{ℕ, Bool, true, false, ◌&&◌, List, [], ◌∷◌, ltb, if◌then◌else◌, length, take}
use weedout.Base.Order.{then_by}
use weedout.Base.Text.{text_eq, text_compare, lower}
use weedout.Types.{
  ecosystem_value, Reachability, runtime_direct, runtime_transitive, dev_only, Dependency,
}
use weedout.Versions.Ranges.{is_lt}

-- Two dependencies with one key: ecosystem, name and version
unfoldable pub same_key : Dependency → Dependency → Bool
unfolding text_eq
same_key c d =
    text_eq (ecosystem_value c.ecosystem) (ecosystem_value d.ecosystem)
    && text_eq c.name d.name
    && text_eq c.version d.version

-- `order`
abbrev pub exposure : Reachability → ℕ
exposure runtime_direct = 0
exposure runtime_transitive = 1
exposure dev_only = 2

-- One dependency, with those that are kept so far
abbrev pub keep_best : Dependency → List Dependency → List Dependency
keep_best d [] = d ∷ []
keep_best d (c ∷ kept) =
    let later = c ∷ keep_best d kept in
    let better = if ltb (exposure d.reachability) (exposure c.reachability) then d else c in
    if same_key c d then better ∷ kept else later

abbrev pub best_of : List Dependency → List Dependency → List Dependency
best_of kept [] = kept
best_of kept (d ∷ deps) = best_of (keep_best d kept) deps

-- `d.name.lower()`, then the version
unfoldable pub compare_names : Dependency → Dependency → Ordering
unfolding lower
compare_names c d =
    then_by (text_compare (lower c.name) (lower d.name)) (text_compare c.version d.version)

abbrev pub insert_by_name : Dependency → List Dependency → List Dependency
insert_by_name d [] = d ∷ []
insert_by_name d (c ∷ deps) =
    let later = c ∷ insert_by_name d deps in
    if is_lt (compare_names c d) then later else d ∷ c ∷ deps

-- `sorted`
abbrev pub sort_by_name : List Dependency → List Dependency
sort_by_name [] = []
sort_by_name (d ∷ deps) = insert_by_name d (sort_by_name deps)

-- `_dedupe`
unfoldable pub dedupe : List Dependency → List Dependency
unfolding same_key compare_names
dedupe deps = sort_by_name (best_of [] deps)

abbrev pub max_dependencies : ℕ
max_dependencies = 5000

-- What `parse_manifest` keeps of the dependencies that a parser finds, and whether it warns
unfoldable pub kept_dependencies : List Dependency → List Dependency × Bool
unfolding dedupe
kept_dependencies deps =
    let distinct = dedupe deps in
    if ltb max_dependencies (length distinct)
    then (take max_dependencies distinct, true)
    else (distinct, false)
