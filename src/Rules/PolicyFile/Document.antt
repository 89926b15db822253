-- ===== src/Rules/PolicyFile/Document.antt =====
-- `parse_policy` of app/core/policy.py.
use weedout.Base.{
  ℕ, ◌*◌, Option, none, some, List, [], ◌∷◌, ◌++◌, ltb, if◌then◌else◌, length, is_empty,
}
use weedout.Base.Text.{Text, text, strip}
use weedout.Matching.Policy.{ignores}
use weedout.Rules.PolicyFile.{
  unknown_setting, PolicyError, too_large, not_utf8, not_yaml, not_a_mapping, ParsedPolicy,
  empty_policy,
}
use weedout.Rules.PolicyFile.Blocks.{read_profile, unknown_keys, read_epss, read_severity}
use weedout.Rules.PolicyFile.Ignores.{read_ignores}
use weedout.Rules.Yaml.{Yaml, null, mapping, Entries, lookup}

abbrev pub max_policy_bytes : ℕ
max_policy_bytes = 64 * 1024

-- The document's settings, read one after the other
unfoldable pub read_document : Entries → ParsedPolicy
unfolding lookup read_severity read_ignores read_epss read_profile
read_document document =
    let severity = read_severity (lookup (text "severity") document) in
    let (ignores, ignore_warnings) = read_ignores (lookup (text "ignore") document) in
    let (epss, epss_warnings) = read_epss (lookup (text "epss") document) in
    let (profile, profile_warnings) = read_profile (lookup (text "profile") document) in
    record {
      direct_threshold = severity.for_direct;
      transitive_threshold = severity.for_transitive;
      dev_threshold = severity.for_dev;
      epss_threshold = epss;
      ignores = ignores;
      profile = profile;
      warnings =
          unknown_keys unknown_setting
            (text "version" ∷ text "severity" ∷ text "ignore" ∷ text "epss" ∷ text "profile" ∷ [])
            document
          ++ severity.problems
          ++ ignore_warnings
          ++ epss_warnings
          ++ profile_warnings;
      error = none;
    }

abbrev pub failed_policy : PolicyError → ParsedPolicy
failed_policy e = record empty_policy { error = some e }

unfoldable pub read_loaded : Option Yaml → ParsedPolicy
unfolding read_document
read_loaded none = failed_policy not_yaml
read_loaded (some null) = empty_policy
read_loaded (some (mapping document)) = read_document document
read_loaded (some _) = failed_policy not_a_mapping

pub data Content : Type 0 where
  no_content : Content
  bytes : List ℕ → Content
  characters : Text → Content

-- `yaml.safe_load`, none where it raises a YAMLError, and `bytes.decode("utf-8")`
pub record Loader : Type 0 where
  pub safe_load : Text → Option Yaml
  pub decode : List ℕ → Option Text

module _ (loader : Loader) where
  abbrev pub parse_text : Text → ParsedPolicy
  parse_text content =
      if ltb max_policy_bytes (length content)
      then failed_policy too_large
      else if is_empty (strip content)
      then empty_policy
      else read_loaded (loader.safe_load content)

  -- `parse_policy`
  unfoldable pub parse_policy : Content → ParsedPolicy
  unfolding read_loaded strip
  parse_policy no_content = empty_policy
  parse_policy (bytes content) =
      if ltb max_policy_bytes (length content)
      then failed_policy too_large
      else elim (loader.decode content) [
        | none ↦ failed_policy not_utf8
        | some decoded ↦ parse_text decoded
      ]
  parse_policy (characters content) = parse_text content
