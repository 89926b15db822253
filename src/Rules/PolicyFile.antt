-- ===== src/Rules/PolicyFile.antt =====
-- The data of app/core/policy.py: what a policy file says, and what is wrong with it. A warning is what it
-- is about, without its words.
pub mod Blocks
pub mod Ignores
pub mod Document
pub mod Reviews
pub mod Kept
pub mod Laws
pub mod Everything
use weedout.Base.{ℕ, Bool, true, false, Option, none, List, [], map, keep}
use weedout.Base.Text.{Text}
use weedout.Rules.Yaml.{Yaml}
use weedout.Types.{Severity, Score}

pub data IgnoreKind : Type 0 where
  advisory_kind package_kind : IgnoreKind

pub record IgnoreEntry : Type 0 where
  pub identifier : Text
  pub reason : Text
  pub kind : IgnoreKind

pub data SeverityKey : Type 0 where
  direct transitive dev : SeverityKey

pub data Warning : Type 0 where
  unknown_setting unknown_epss_setting unknown_severity_setting : Yaml → Warning
  not_a_profile_name epss_not_a_mapping alert_above_not_a_number alert_above_out_of_range : Warning
  severity_not_a_mapping ignore_not_a_list : Warning
  not_a_severity : SeverityKey → Warning
  entry_not_a_mapping both_subjects no_subject empty_package package_too_long : ℕ → Warning
  ignores_everything : ℕ → Warning
  no_reason : ℕ → Text → Warning
  listed_twice : Text → Warning

pub data PolicyError : Type 0 where
  too_large not_utf8 not_yaml not_a_mapping : PolicyError

pub record ParsedPolicy : Type 0 where
  pub direct_threshold : Option Severity
  pub transitive_threshold : Option Severity
  pub dev_threshold : Option Severity
  pub epss_threshold : Option Score
  pub ignores : List IgnoreEntry
  pub profile : Option Text
  pub warnings : List Warning
  pub error : Option PolicyError

abbrev pub empty_policy : ParsedPolicy
empty_policy = record {
  direct_threshold = none;
  transitive_threshold = none;
  dev_threshold = none;
  epss_threshold = none;
  ignores = [];
  profile = none;
  warnings = [];
  error = none;
}

abbrev pub kind_is : IgnoreKind → IgnoreKind → Bool
kind_is advisory_kind advisory_kind = true
kind_is package_kind package_kind = true
kind_is _ _ = false

-- `ParsedPolicy.ignored_ids` and `ParsedPolicy.ignored_packages`
abbrev pub identifiers : IgnoreKind → List IgnoreEntry → List Text
identifiers kind entries = map (λ e. e.identifier) (keep (λ e. kind_is e.kind kind) entries)
