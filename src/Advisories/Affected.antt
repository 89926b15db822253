-- ===== src/Advisories/Affected.antt =====
-- `parse_affected` of app/core/osv.py. A value of a type that the code does not test for may raise.
pub mod Laws
pub mod Total
use weedout.Base.{◌>>=◌}
use weedout.Advisories.Events.{pair_range_events}
use weedout.Advisories.Json.{
  Json, str, arr, obj, Fields, items, get, Raised, type_error, attribute_error, iterate, truthy,
  filled, filled_texts,
}
use weedout.Base.{
  Bool, false, not, ◌&&◌, ◌||◌, Option, none, some, List, [], ◌∷◌, ◌++◌, ◌==◌, if◌then◌else◌,
  is_empty, Result, ok, err,
}
use weedout.Base.Text.{Text, text, text_eq, lower, strip, span}
use weedout.Types.{
  Ecosystem, npm, pypi, go, crates_io, maven, ecosystem_value, AffectedRange, AffectedPackage,
}

abbrev ecosystems : List Ecosystem
ecosystems = npm ∷ pypi ∷ go ∷ crates_io ∷ maven ∷ []

supported : Text → List Ecosystem → Option Ecosystem
unfolding lower text_eq
supported s [] = none
supported s (e ∷ es) =
    let rest = supported s es in if text_eq s (lower (ecosystem_value e)) then some e else rest

unfoldable pub parse_ecosystem : Json → Result Raised (Option Ecosystem)
unfolding truthy span supported strip lower
parse_ecosystem (str s) = ok (
    if is_empty s
    then none
    else supported (lower (strip (span (λ c. not (c == 58)) s).0)) ecosystems)
parse_ecosystem raw = if truthy raw then err attribute_error else ok none

-- `raw_range.get("type") in _VERSION_RANGE_TYPES`; a list or a dictionary cannot be hashed.
unfoldable pub is_version_type : Json → Result Raised Bool
unfolding text_eq
is_version_type (str s) = ok (text_eq s (text "SEMVER") || text_eq s (text "ECOSYSTEM"))
is_version_type (arr vs) = err type_error
is_version_type (obj fs) = err type_error
is_version_type _ = ok false

module _ (repr : Json → Text) where
  unfoldable pub parse_range : Json → Result Raised (List AffectedRange)
  unfolding get is_version_type pair_range_events
  parse_range (obj fs) = do
    wanted ← is_version_type (get (text "type") fs)
    ok (
        if wanted
        then (elim (get (text "events") fs) [ arr es ↦ pair_range_events repr (items es) | _ ↦ [] ])
        else [])
  parse_range _ = ok []

  unfoldable pub parse_ranges : List Json → Result Raised (List AffectedRange)
  unfolding parse_range
  parse_ranges [] = ok []
  parse_ranges (r ∷ rs) = do first ← parse_range r; rest ← parse_ranges rs; ok (first ++ rest)

  -- What one entry appends to the result
  unfoldable pub parse_package : Ecosystem → Text → Fields → Result Raised (List AffectedPackage)
  unfolding get iterate parse_ranges filled_texts
  parse_package e n fs = do
    raw_ranges ← iterate (get (text "ranges") fs)
    ranges ← parse_ranges raw_ranges
    raw_versions ← iterate (get (text "versions") fs)
    let versions = filled_texts raw_versions in
        ok (
          if is_empty ranges && is_empty versions
          then []
          else record { ecosystem = e; name = n; ranges = ranges; versions = versions } ∷ [])

  unfoldable pub parse_entry : Json → Result Raised (List AffectedPackage)
  unfolding get parse_ecosystem filled parse_package
  parse_entry (obj fs) = elim (get (text "package") fs) [
    | obj ps ↦ do
      ecosystem ← parse_ecosystem (get (text "ecosystem") ps)
      elim ecosystem [
        | none ↦ ok []
        | some e ↦ elim (filled (get (text "name") ps)) [
          | none ↦ ok []
          | some n ↦ parse_package e n fs
        ]
      ]
    | _ ↦ ok []
  ]
  parse_entry _ = ok []

  unfoldable pub parse_entries : List Json → Result Raised (List AffectedPackage)
  unfolding parse_entry
  parse_entries [] = ok []
  parse_entries (e ∷ es) = do first ← parse_entry e; rest ← parse_entries es; ok (first ++ rest)

  unfoldable pub parse_affected : Json → Result Raised (List AffectedPackage)
  unfolding iterate parse_entries
  parse_affected raw = do entries ← iterate raw; parse_entries entries
