-- ===== src/Advisories/Affected/Total.antt =====
-- The values that `parse_affected` of app/core/osv.py reads without raising.
use weedout.Base.{◌>>=◌}
use weedout.Advisories.Affected.{
  parse_ecosystem, is_version_type, parse_range, parse_ranges, parse_package, parse_entry,
  parse_entries, parse_affected,
}
use weedout.Advisories.Json.{
  num, Json, null, bool, str, arr, obj, Fields, items, get, Raised, iterate, filled,
}
use weedout.Base.{
  ◌≡◌, refl, Bool, true, false, ◌&&◌, Option, none, some, List, [], ◌∷◌, and_cases, and_cases4, all,
  Result, ok, is_ok, is_ok-bind,
}
use weedout.Base.Text.{Text, text}
use weedout.Types.{Ecosystem, AffectedPackage}

-- A field that the schema says is a text, or a list, where it is present
abbrev is_text : Json → Bool
is_text null = true
is_text (str s) = true
is_text _ = false

abbrev pub is_list : Json → Bool
is_list null = true
is_list (arr vs) = true
is_list _ = false

abbrev pub list_items : Json → List Json
list_items (arr vs) = items vs
list_items _ = []

abbrev range_shaped : Json → Bool
range_shaped (obj fs) = is_text (get (text "type") fs)
range_shaped _ = false

abbrev package_shaped : Json → Bool
package_shaped (obj ps) = is_text (get (text "ecosystem") ps)
package_shaped _ = false

abbrev pub entry_shaped : Json → Bool
entry_shaped (obj fs) =
    package_shaped (get (text "package") fs)
    && is_list (get (text "ranges") fs)
    && all range_shaped (list_items (get (text "ranges") fs))
    && is_list (get (text "versions") fs)
entry_shaped _ = false

pub iterate-list : (v : Json) → is_list v ≡ true → iterate v ≡ ok (list_items v)
unfolding iterate
iterate-list null h = refl
iterate-list (arr vs) h = refl
iterate-list (bool b) h = cc
iterate-list (num n) h = cc
iterate-list (str s) h = cc
iterate-list (obj fs) h = cc

pub iterate-list_ok : (v : Json) → is_list v ≡ true → is_ok (iterate v) ≡ true
iterate-list_ok v h = rw (iterate-list v h) refl

parse_ecosystem-ok : (v : Json) → is_text v ≡ true → is_ok (parse_ecosystem v) ≡ true
unfolding parse_ecosystem
parse_ecosystem-ok null h = refl
parse_ecosystem-ok (str s) h = refl
parse_ecosystem-ok (arr vs) h = cc
parse_ecosystem-ok (bool b) h = cc
parse_ecosystem-ok (num n) h = cc
parse_ecosystem-ok (obj fs) h = cc

is_version_type-ok : (v : Json) → is_text v ≡ true → is_ok (is_version_type v) ≡ true
unfolding is_version_type
is_version_type-ok null h = refl
is_version_type-ok (str s) h = refl
is_version_type-ok (arr vs) h = cc
is_version_type-ok (bool b) h = cc
is_version_type-ok (num n) h = cc
is_version_type-ok (obj fs) h = cc

module _ (repr : Json → Text) where
  parse_range-ok : (r : Json) → range_shaped r ≡ true → is_ok (parse_range repr r) ≡ true
  unfolding parse_range
  parse_range-ok (obj fs) h =
      is_ok-bind (is_version_type (get (text "type") fs)) _ (is_version_type-ok _ h) (λ b e. refl)
  parse_range-ok null h = refl
  parse_range-ok (bool b) h = refl
  parse_range-ok (num n) h = refl
  parse_range-ok (str s) h = refl
  parse_range-ok (arr vs) h = refl

  parse_ranges-ok :
      (rs : List Json) → all range_shaped rs ≡ true → is_ok (parse_ranges repr rs) ≡ true
  unfolding parse_ranges
  parse_ranges-ok [] h = refl
  parse_ranges-ok (r ∷ rs) h =
      let (first, rest) = and_cases (range_shaped r) (all range_shaped rs) h in
      is_ok-bind (parse_range repr r) _ (parse_range-ok r first)
        (λ a e. is_ok-bind (parse_ranges repr rs) _ (parse_ranges-ok rs rest) (λ b f. refl))

  parse_package-ok :
      (e : Ecosystem) (n : Text) (fs : Fields)
      → is_list (get (text "ranges") fs) ≡ true
      → all range_shaped (list_items (get (text "ranges") fs)) ≡ true
      → is_list (get (text "versions") fs) ≡ true
      → is_ok (parse_package repr e n fs) ≡ true
  unfolding parse_package
  parse_package-ok e n fs l shaped v = rw (iterate-list (get (text "ranges") fs) l) (
      is_ok-bind (parse_ranges repr (list_items (get (text "ranges") fs))) _
        (parse_ranges-ok (list_items (get (text "ranges") fs)) shaped)
        (λ rs q.
          is_ok-bind (iterate (get (text "versions") fs)) _ (iterate-list_ok _ v) (λ vs q. refl)))

  parse_entry-ok : (v : Json) → entry_shaped v ≡ true → is_ok (parse_entry repr v) ≡ true
  unfolding parse_entry
  parse_entry-ok (obj fs) h =
      let ranges = get (text "ranges") fs in
      let (p, l, rs, vs) =
        and_cases4 (package_shaped (get (text "package") fs)) (is_list ranges)
          (all range_shaped (list_items ranges)) (is_list (get (text "versions") fs)) h in
      go (get (text "package") fs) p (λ e n. parse_package-ok e n fs l rs vs)
    where
      found :
          (Ecosystem → Text → Result Raised (List AffectedPackage))
          → Json
          → Option Ecosystem
          → Result Raised (List AffectedPackage)
      found read_package v o = elim o [
        | none ↦ ok []
        | some e ↦ elim (filled v) [ none ↦ ok [] | some n ↦ read_package e n ]
      ]

      found-ok :
          (v : Json) (o : Option Ecosystem)
          → ((e : Ecosystem) (n : Text) → is_ok (parse_package repr e n fs) ≡ true)
          → is_ok (found (λ e n. parse_package repr e n fs) v o) ≡ true
      found-ok v none h = refl
      found-ok v (some e) h = named (filled v)
        where
          named :
              (o : Option Text)
              → is_ok (elim o as (λ _. Result Raised (List AffectedPackage)) [
                | none ↦ ok []
                | some n ↦ parse_package repr e n fs
              ])
                ≡ true
          named none = refl
          named (some n) = h e n

      go :
          (v : Json)
          → package_shaped v ≡ true
          → ((e : Ecosystem) (n : Text) → is_ok (parse_package repr e n fs) ≡ true)
          → is_ok (elim v as (λ _. Result Raised (List AffectedPackage)) [
            | obj ps ↦
                parse_ecosystem (get (text "ecosystem") ps)
                >>= found (λ e n. parse_package repr e n fs) (get (text "name") ps)
            | _ ↦ ok []
          ])
            ≡ true
      go (obj ps) p h =
          is_ok-bind (parse_ecosystem (get (text "ecosystem") ps)) _ (parse_ecosystem-ok _ p)
            (λ o e. found-ok (get (text "name") ps) o h)
      go null p h = refl
      go (bool b) p h = refl
      go (num n) p h = refl
      go (str s) p h = refl
      go (arr vs) p h = refl
  parse_entry-ok null h = refl
  parse_entry-ok (bool b) h = refl
  parse_entry-ok (num n) h = refl
  parse_entry-ok (str s) h = refl
  parse_entry-ok (arr vs) h = refl

  parse_entries-ok :
      (es : List Json) → all entry_shaped es ≡ true → is_ok (parse_entries repr es) ≡ true
  unfolding parse_entries
  parse_entries-ok [] h = refl
  parse_entries-ok (e ∷ es) h =
      let (first, rest) = and_cases (entry_shaped e) (all entry_shaped es) h in
      is_ok-bind (parse_entry repr e) _ (parse_entry-ok e first)
        (λ a q. is_ok-bind (parse_entries repr es) _ (parse_entries-ok es rest) (λ b r. refl))

  pub parse_affected-ok :
      (v : Json)
      → is_list v ≡ true
      → all entry_shaped (list_items v) ≡ true
      → is_ok (parse_affected repr v) ≡ true
  unfolding parse_affected
  parse_affected-ok v l h = rw (iterate-list v l) (parse_entries-ok (list_items v) h)
