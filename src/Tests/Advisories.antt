-- ===== src/Tests/Advisories.antt =====
-- Tests of the advisory feeds' parsers (app/core/osv.py, app/core/cvss.py).
use weedout.Advisories.Affected.{parse_affected}
use weedout.Advisories.Affected.Laws.{IsEvaluable, parse_affected-IsEvaluable}
use weedout.Advisories.Cvss.{
  local, easy, some_privileges, no_interaction, no_impact, partial, Metrics,
}
use weedout.Advisories.Cvss.Vectors.{tenth, score_cvss_vector}
use weedout.Advisories.Events.{range, pair_range_events}
use weedout.Advisories.Events.Laws.{
  Interval, from, until, through, interval_range, event, events_of, pair_range_events-events_of,
}
use weedout.Advisories.Json.{
  Json, null, str, arr, obj, no_items, item, Fields, no_fields, field, to_items, get, type_error,
}
use weedout.Advisories.Osv.{normalize_osv_record}
use weedout.Advisories.Osv.Laws.{IsUsable, normalize_osv_record-IsUsable}
use weedout.Advisories.Osv.Total.{normalize_osv_record-ok}
use weedout.Advisories.Severities.{normalize_severity}
use weedout.Advisories.Severities.Laws.{IsBest, chosen, normalize_severity-IsBest}
use weedout.Base.{
  ◌*◌, ◌≡◌, refl, true, false, Option, none, some, List, [], ◌∷◌, map, All, ok, err, is_ok, Returns,
}
use weedout.Base.Text.{Text, text}
use weedout.Types.{pypi, medium, critical, Score, Vulnerability}

abbrev no_repr : Json → Text
no_repr v = []

abbrev no_float : Text → Option Score
no_float s = none

-- Remote code execution without a login
abbrev critical_vector : Text
critical_vector = text "CVSS:3.1/AV:N/AC:L/PR:N/UI:N/S:U/C:H/I:H/A:H"

score_cvss_vector_tests :
    (score_cvss_vector critical_vector ≡ some (98 * tenth))
    × (score_cvss_vector (text " cvss:3.0/AV:N/AC:L/PR:N/UI:R/S:C/C:L/I:L/A:N ")
        ≡ some (61 * tenth))
    × (score_cvss_vector (text "CVSS:3.1/AV:N/AC:L/PR:N/UI:N/S:U/C:N/I:N/A:N") ≡ some 0)
    × (score_cvss_vector (text "CVSS:3.1/AV:N/AC:L/PR:N/UI:N/S:U/C:H/I:H") ≡ none)
unfolding score_cvss_vector
score_cvss_vector_tests = (refl, refl, refl, refl)

abbrev local_read : Metrics
local_read = record {
  vector = local;
  complexity = easy;
  privileges = some_privileges;
  interaction = no_interaction;
  scope_changed = false;
  confidentiality = partial;
  integrity = no_impact;
  availability = no_impact;
}

abbrev severity_entry : Text → Json
severity_entry s =
    obj (field (text "type") (str (text "CVSS_V3")) (field (text "score") (str s) no_fields))

abbrev severity_list : List Json
severity_list = severity_entry critical_vector ∷ severity_entry (text "CVSS:4.0/AV:N") ∷ null ∷ []

normalize_severity_test :
    normalize_severity no_float severity_list (some (text "low"))
    ≡ (critical, some (98 * tenth), some critical_vector)
unfolding normalize_severity
normalize_severity_test = refl

label_test : normalize_severity no_float [] (some (text " Moderate ")) ≡ (medium, none, none)
unfolding normalize_severity
label_test = refl

normalize_severity-IsBest_example :
    let (severity, score, vector) = normalize_severity no_float severity_list (some (text "low")) in
    IsBest no_float severity_list score × (severity ≡ chosen no_float score (some (text "low")))
normalize_severity-IsBest_example =
    normalize_severity-IsBest no_float severity_list (some (text "low"))

abbrev windows : List Interval
windows =
    until (text "0") (text "1.5.0")
    ∷ from (text "2.0.0")
    ∷ through (text "3.0.0") (text "3.4.0")
    ∷ []

pair_range_events-events_of_example :
    pair_range_events no_repr (events_of windows) ≡ map interval_range windows
pair_range_events-events_of_example = pair_range_events-events_of no_repr windows

-- Closing events without an open window, and a value that is no event
abbrev stray_events : List Json
stray_events =
    event (text "fixed") (text "1.0")
    ∷ null
    ∷ event (text "introduced") (text "2")
    ∷ event (text "limit") (text "9")
    ∷ []

stray_test : pair_range_events no_repr stray_events ≡ (range (some (text "2")) none none ∷ [])
unfolding pair_range_events
stray_test = refl

abbrev affected_entry : Json
affected_entry = obj (
    field (text "package")
      (obj (
        field (text "ecosystem") (str (text "PyPI:any"))
          (field (text "name") (str (text "flask")) no_fields)))
      (field (text "ranges")
        (arr (
          item
            (obj (
              field (text "type") (str (text "ECOSYSTEM"))
                (field (text "events") (arr (to_items (events_of windows))) no_fields)))
            no_items))
        no_fields))

abbrev advisory_record : Fields
advisory_record = field (text "id") (str (text "GHSA-1")) (
    field (text "affected") (arr (item affected_entry (item null no_items))) (
      field (text "severity") (arr (to_items severity_list))
        (field (text "withdrawn") (str (text "2024-01-01T00:00:00Z")) no_fields)))

parse_affected_test :
    parse_affected no_repr (arr (item affected_entry (item null no_items)))
    ≡ ok (
        record {
          ecosystem = pypi;
          name = text "flask";
          ranges = map interval_range windows;
          versions = [];
        }
        ∷ [])
unfolding parse_affected
parse_affected_test = refl

parse_affected-IsEvaluable_example :
    Returns
      (All IsEvaluable)
      (parse_affected no_repr (arr (item affected_entry (item null no_items))))
parse_affected-IsEvaluable_example =
    parse_affected-IsEvaluable no_repr (arr (item affected_entry (item null no_items)))

-- A number where a list is expected raises.
raises_test :
    normalize_osv_record no_repr no_float
      (obj (field (text "id") (str (text "X")) (field (text "affected") (Json.num 5) no_fields)))
    ≡ err type_error
unfolding normalize_osv_record
raises_test = refl

normalize_osv_record-IsUsable_example :
    Returns
      (λ o. (v : Vulnerability) → o ≡ some v → IsUsable no_repr no_float advisory_record v)
      (normalize_osv_record no_repr no_float (obj advisory_record))
normalize_osv_record-IsUsable_example =
    normalize_osv_record-IsUsable no_repr no_float advisory_record

abbrev shaped_record : Fields
shaped_record = field (text "id") (str (text "GHSA-1")) (
    field (text "affected") (arr (item affected_entry no_items))
      (field (text "aliases") null no_fields))

normalize_osv_record-ok_example :
    is_ok (normalize_osv_record no_repr no_float (obj shaped_record)) ≡ true
unfolding get
normalize_osv_record-ok_example = normalize_osv_record-ok no_repr no_float shaped_record refl
