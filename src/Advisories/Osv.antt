-- ===== src/Advisories/Osv.antt =====
-- `normalize_osv_record` of app/core/osv.py, with what it takes out of a record.
pub mod Laws
pub mod Total
use weedout.Base.{◌>>=◌}
use weedout.Advisories.Affected.{parse_affected}
use weedout.Advisories.Json.{
  Json, str, arr, obj, Fields, items, get, Raised, iterate, truthy, filled, filled_texts,
}
use weedout.Advisories.Severities.{normalize_severity}
use weedout.Base.{
  Bool, false, not, ◌&&◌, ◌||◌, Option, none, some, List, [], ◌∷◌, ◌++◌, if◌then◌else◌, take, all,
  is_empty, Result, ok,
}
use weedout.Base.Text.{Text, text, is_digit, upper, starts_with, strip_prefix?, strip}
use weedout.Types.{withdrawn, Score, AffectedPackage, Vulnerability, unique}

-- `isinstance(url, str) and url.startswith(("http://", "https://"))`
web_address : Json → List Text
unfolding starts_with
web_address (str s) =
    if starts_with (text "http://") s || starts_with (text "https://") s then s ∷ [] else []
web_address _ = []

reference_urls : List Json → List Text
unfolding web_address get
reference_urls [] = []
reference_urls (obj fs ∷ rs) = web_address (get (text "url") fs) ++ reference_urls rs
reference_urls (r ∷ rs) = web_address r ++ reference_urls rs

unfoldable pub extract_references : Json → Result Raised (List Text)
unfolding iterate reference_urls unique
extract_references raw = do
  references ← iterate raw
  ok (take 20 (unique [] (reference_urls references)))

-- `_CWE_RE.match`
is_cwe : Text → Bool
unfolding upper strip_prefix? is_digit
is_cwe s = elim (strip_prefix? (text "CWE-") (upper s)) [
  | none ↦ false
  | some ds ↦ not (is_empty ds) && all is_digit ds
]

cwe_of : Json → List Text
unfolding strip is_cwe upper
cwe_of (str s) = if is_cwe (strip s) then upper (strip s) ∷ [] else []
cwe_of _ = []

cwes_of : List Json → List Text
unfolding cwe_of get
cwes_of [] = []
cwes_of (obj fs ∷ vs) = cwe_of (get (text "cweId") fs) ++ cwes_of vs
cwes_of (v ∷ vs) = cwe_of v ++ cwes_of vs

cwes_under : Text → Fields → List Text
unfolding get cwes_of
cwes_under k fs = elim (get k fs) [
  | str s ↦ cwes_of (str s ∷ [])
  | arr vs ↦ cwes_of (items vs)
  | _ ↦ []
]

-- `collect`
collect : Json → List Text
unfolding cwes_under
collect (obj fs) =
    cwes_under (text "cwe_ids") fs ++ (cwes_under (text "cweIds") fs ++ cwes_under (text "cwes") fs)
collect _ = []

collect_each : List Json → List Text
unfolding collect get
collect_each [] = []
collect_each (obj fs ∷ es) = collect (get (text "database_specific") fs) ++ collect_each es
collect_each (e ∷ es) = collect_each es

unfoldable pub extract_cwe_ids : Fields → Result Raised (List Text)
unfolding iterate collect collect_each unique get
extract_cwe_ids fs = do
  entries ← iterate (get (text "affected") fs)
  ok (take 10 (unique [] (collect (get (text "database_specific") fs) ++ collect_each entries)))

-- The `severity` of a `database_specific` block
block_label : Json → Option Text
unfolding get
block_label (obj fs) = elim (get (text "severity") fs) [ str s ↦ some s | _ ↦ none ]
block_label _ = none

first_label : List Json → Option Text
unfolding block_label get
first_label [] = none
first_label (obj fs ∷ es) =
    let rest = first_label es in
    elim (block_label (get (text "database_specific") fs)) [ some s ↦ some s | none ↦ rest ]
first_label (e ∷ es) = first_label es

unfoldable pub qualitative_label : Fields → Result Raised (Option Text)
unfolding iterate block_label first_label get
qualitative_label fs = elim (block_label (get (text "database_specific") fs)) [
  | some s ↦ ok (some s)
  | none ↦ iterate (get (text "affected") fs) >>= λ entries. ok (first_label entries)
]

abbrev text_or_empty : Json → Text
text_or_empty (str s) = s
text_or_empty _ = []

abbrev text_or_none : Json → Option Text
text_or_none (str s) = some s
text_or_none _ = none

-- The `severity` array
unfoldable pub severity_entries : Fields → List Json
unfolding get
severity_entries fs = elim (get (text "severity") fs) [ arr vs ↦ items vs | _ ↦ [] ]

module _ (repr : Json → Text) (float_of : Text → Option Score) where
  -- What is built once the record has an identifier and affected packages
  unfoldable pub normalize_fields :
      Text → List AffectedPackage → Fields → Result Raised Vulnerability
  unfolding get iterate qualitative_label normalize_severity filled_texts extract_references
      extract_cwe_ids truthy severity_entries
  normalize_fields id affected fs = do
    label ← qualitative_label fs
    raw_aliases ← iterate (get (text "aliases") fs)
    references ← extract_references (get (text "references") fs)
    cwe_ids ← extract_cwe_ids fs
    let (severity, score, vector) = normalize_severity float_of (severity_entries fs) label in
        ok record {
          id = id;
          aliases = filled_texts raw_aliases;
          summary = text_or_empty (get (text "summary") fs);
          details = text_or_empty (get (text "details") fs);
          severity = severity;
          cvss_score = score;
          cvss_vector = vector;
          affected = affected;
          references = references;
          cwe_ids = cwe_ids;
          withdrawn = truthy (get (text "withdrawn") fs);
          published = text_or_none (get (text "published") fs);
        }

  unfoldable pub normalize_osv_record : Json → Result Raised (Option Vulnerability)
  unfolding get filled parse_affected normalize_fields
  normalize_osv_record (obj fs) = elim (filled (get (text "id") fs)) [
    | none ↦ ok none
    | some id ↦ parse_affected repr (get (text "affected") fs) >>= λ affected.
        if is_empty affected
        then ok none
        else (normalize_fields id affected fs >>= λ v. ok (some v))
  ]
  normalize_osv_record _ = ok none
