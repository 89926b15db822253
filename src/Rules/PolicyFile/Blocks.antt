-- ===== src/Rules/PolicyFile/Blocks.antt =====
-- The blocks `severity` and `epss` and the setting `profile` of app/core/policy.py.
use weedout.Base.{
  ℕ, ◌/◌, not, ◌&&◌, Option, none, some, List, [], ◌∷◌, ◌++◌, map, ltb, leb, if◌then◌else◌, take,
  any, keep,
}
use weedout.Base.Text.{Text, text, text_eq, lower, strip}
use weedout.Rules.PolicyFile.{
  SeverityKey, direct, transitive, dev, Warning, unknown_epss_setting, unknown_severity_setting,
  not_a_profile_name, epss_not_a_mapping, alert_above_not_a_number, alert_above_out_of_range,
  severity_not_a_mapping, not_a_severity,
}
use weedout.Rules.Yaml.{
  Yaml, null, number, not_finite, str, mapping, Entries, entry_keys, key_is, lookup, as_filled,
}
use weedout.Types.{Severity, low, medium, high, critical, Score, key}

-- `_THRESHOLDS`
unfoldable pub threshold_of : Text → Option Severity
unfolding text_eq
threshold_of s =
    if text_eq s (text "low")
    then some low
    else if text_eq s (text "medium")
    then some medium
    else if text_eq s (text "high")
    then some high
    else if text_eq s (text "critical")
    then some critical
    else none

-- `_read_profile`
unfoldable pub read_profile : Yaml → Option Text × List Warning
unfolding as_filled strip
read_profile null = (none, [])
read_profile value = elim (as_filled value) as (λ _. Option Text × List Warning) [
  | none ↦ (none, not_a_profile_name ∷ [])
  | some s ↦ (some (take 80 (strip s)), [])
]

abbrev pub billion : ℕ
billion = 1000000000

abbrev pub unknown_keys : (Yaml → Warning) → List Text → Entries → List Warning
unknown_keys warning known es =
    map warning (keep (λ k. not (any (λ name. key_is name k) known)) (entry_keys es))

-- `alert_above`, with the warning that it may give
unfoldable pub read_alert_above : Yaml → Option Score × List Warning
read_alert_above null = (none, [])
read_alert_above (number negative n) =
    let value = if not negative && ltb billion n then n / 100 else n in
    if not negative && ltb 0 value && leb value billion
    then (some value, [])
    else (none, alert_above_out_of_range ∷ [])
read_alert_above not_finite = (none, alert_above_out_of_range ∷ [])
read_alert_above _ = (none, alert_above_not_a_number ∷ [])

-- `_read_epss`
unfoldable pub read_epss : Yaml → Option Score × List Warning
unfolding read_alert_above lookup
read_epss null = (none, [])
read_epss (mapping es) =
    let (value, warnings) = read_alert_above (lookup (text "alert_above") es) in
    (value, unknown_keys unknown_epss_setting (text "alert_above" ∷ []) es ++ warnings)
read_epss _ = (none, epss_not_a_mapping ∷ [])

-- One turn of the loop over `_SEVERITY_KEYS`
unfoldable pub read_threshold : SeverityKey → Yaml → Option Severity × List Warning
unfolding threshold_of lower strip
read_threshold key null = (none, [])
read_threshold key (str s) =
    elim (threshold_of (lower (strip s))) as (λ _. Option Severity × List Warning) [
      | none ↦ (none, not_a_severity key ∷ [])
      | some t ↦ (some t, [])
    ]
read_threshold key _ = (none, not_a_severity key ∷ [])

pub record SeverityBlock : Type 0 where
  pub for_direct : Option Severity
  pub for_transitive : Option Severity
  pub for_dev : Option Severity
  pub problems : List Warning

-- `_read_severity`
unfoldable pub read_severity : Yaml → SeverityBlock
unfolding read_threshold lookup
read_severity null = record {
  for_direct = none;
  for_transitive = none;
  for_dev = none;
  problems = [];
}
read_severity (mapping es) =
    let (a, aw) = read_threshold direct (lookup (text "direct") es) in
    let (b, bw) = read_threshold transitive (lookup (text "transitive") es) in
    let (c, cw) = read_threshold dev (lookup (text "dev") es) in
    record {
      for_direct = a;
      for_transitive = b;
      for_dev = c;
      problems =
          aw
          ++ bw
          ++ cw
          ++ unknown_keys unknown_severity_setting
              (text "direct" ∷ text "transitive" ∷ text "dev" ∷ []) es;
    }
read_severity _ = record {
  for_direct = none;
  for_transitive = none;
  for_dev = none;
  problems = severity_not_a_mapping ∷ [];
}
