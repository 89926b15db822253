-- ===== src/Advisories/Osv/Total.antt =====
-- The records that `normalize_osv_record` of app/core/osv.py reads without raising.
use weedout.Base.{◌>>=◌}
use weedout.Advisories.Affected.{parse_affected}
use weedout.Advisories.Affected.Total.{
  is_list, list_items, entry_shaped, iterate-list, parse_affected-ok,
}
use weedout.Advisories.Json.{Json, obj, Fields, get, Raised, iterate, filled}
use weedout.Advisories.Osv.{
  extract_references, extract_cwe_ids, qualitative_label, normalize_fields, normalize_osv_record,
  block_label, first_label,
}
use weedout.Base.{
  ◌≡◌, refl, Bool, true, false, ◌&&◌, Option, none, some, List, if◌then◌else◌, and_cases4, all,
  is_empty, Result, ok, is_ok, is_ok-bind,
}
use weedout.Base.Text.{Text, text}
use weedout.Types.{Score, AffectedPackage, Vulnerability}

-- A record in the shape that the OSV schema gives to what the code reads: texts and lists where
-- they are expected, and objects in the lists of packages and of ranges.
abbrev pub record_shaped : Fields → Bool
record_shaped fs =
    is_list (get (text "affected") fs)
    && all entry_shaped (list_items (get (text "affected") fs))
    && is_list (get (text "aliases") fs)
    && is_list (get (text "references") fs)

module _ (repr : Json → Text) (float_of : Text → Option Score) where
  normalize_fields-ok :
      (id : Text) (ps : List AffectedPackage) (fs : Fields)
      → is_list (get (text "affected") fs) ≡ true
      → is_list (get (text "aliases") fs) ≡ true
      → is_list (get (text "references") fs) ≡ true
      → is_ok (normalize_fields repr float_of id ps fs) ≡ true
  unfolding normalize_fields qualitative_label extract_references extract_cwe_ids
  normalize_fields-ok id ps fs affected aliases references =
      is_ok-bind (qualitative_label fs) _ label (λ l e.
        rw
          (
            iterate-list (get (text "aliases") fs) aliases,
            iterate-list (get (text "references") fs) references,
            iterate-list (get (text "affected") fs) affected,
          )
          refl)
    where
      label : is_ok (qualitative_label fs) ≡ true
      label = go (block_label (get (text "database_specific") fs))
        where
          go :
              (o : Option Text)
              → is_ok (elim o as (λ _. Result Raised (Option Text)) [
                | some s ↦ ok (some s)
                | none ↦ iterate (get (text "affected") fs) >>= λ entries. ok (first_label entries)
              ])
                ≡ true
          go (some s) = refl
          go none = rw (iterate-list (get (text "affected") fs) affected) refl

  -- A record in the schema's shape is normalised without raising.
  pub normalize_osv_record-ok :
      (fs : Fields)
      → record_shaped fs ≡ true
      → is_ok (normalize_osv_record repr float_of (obj fs)) ≡ true
  unfolding normalize_osv_record
  normalize_osv_record-ok fs h =
      let affected = get (text "affected") fs in
      let (l, shaped, aliases, references) =
        and_cases4 (is_list affected) (all entry_shaped (list_items affected))
          (is_list (get (text "aliases") fs)) (is_list (get (text "references") fs)) h in
      go (filled (get (text "id") fs)) (parse_affected-ok repr affected l shaped)
        (λ id ps. normalize_fields-ok id ps fs l aliases references)
    where
      go :
          (o : Option Text)
          → is_ok (parse_affected repr (get (text "affected") fs)) ≡ true
          → ((id : Text) (ps : List AffectedPackage)
              → is_ok (normalize_fields repr float_of id ps fs) ≡ true)
          → is_ok (elim o as (λ _. Result Raised (Option Vulnerability)) [
            | none ↦ ok none
            | some id ↦ parse_affected repr (get (text "affected") fs) >>= λ affected.
                if is_empty affected
                then ok none
                else (normalize_fields repr float_of id affected fs >>= λ v. ok (some v))
          ])
            ≡ true
      go none h k = refl
      go (some id) h k =
          is_ok-bind (parse_affected repr (get (text "affected") fs)) _ h
            (λ ps e. built id ps k (is_empty ps))
        where
          built :
              (id : Text) (ps : List AffectedPackage)
              → ((id : Text) (ps : List AffectedPackage)
                  → is_ok (normalize_fields repr float_of id ps fs) ≡ true)
              → (b : Bool)
              → is_ok (
                  if b
                  then ok none
                  else (normalize_fields repr float_of id ps fs >>= λ v. ok (some v)))
                ≡ true
          built id ps k true = refl
          built id ps k false =
              is_ok-bind (normalize_fields repr float_of id ps fs) _ (k id ps) (λ v e. refl)
