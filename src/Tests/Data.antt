-- ===== src/Tests/Data.antt =====
-- The inputs that the tests of app/core share.

-- Versions of a made-up PyPI whose versions are plain numbers.
use Prim.Native.Nat.{compare}
use weedout.Base.{ℕ, false, Option, none, some, [], ◌∷◌, if◌then◌else◌, all}
use weedout.Base.Order.{compare-IsPreorder}
use weedout.Base.Text.{Text, text, is_digit, int}
use weedout.Types.{
  npm, runtime_direct, high, Score, AutomatedReachability, Dependency, AffectedRange,
  AffectedPackage, Vulnerability,
}
use weedout.Versions.Ranges.{Pep440}

abbrev pub plain_pep : Pep440
plain_pep = record {
  Version = ℕ;
  parse_pep440 = λ s. if all is_digit s then some (int s) else none;
  compare_pep440 = compare;
  compare_pep440-IsPreorder = compare-IsPreorder;
}

abbrev pub window : AffectedRange
window = record {
  introduced = some (text "4.0.0");
  fixed = some (text "4.17.21");
  last_affected = none;
}

abbrev pub lodash_entry : AffectedPackage
lodash_entry = record {
  ecosystem = npm;
  name = text "lodash";
  ranges =
      record { introduced = some (text "5.0.0"); fixed = some (text "5.0.2"); last_affected = none }
      ∷ window
      ∷ [];
  versions = [];
}

abbrev pub lodash : Dependency
lodash = record {
  ecosystem = npm;
  name = text "Lodash";
  version = text "4.17.20";
  version_spec = text "^4.17.20";
  reachability = runtime_direct;
  version_exact = false;
  automated_reachability = AutomatedReachability.unknown;
  reachability_evidence = [];
  depth = 0;
  via = [];
}

abbrev pub advisory : Vulnerability
advisory = record {
  id = text "GHSA-35jh-r3h4-6jhm";
  aliases = text "cve-2021-23337" ∷ [];
  summary = text "Command injection";
  details = [];
  severity = high;
  cvss_score = none;
  cvss_vector = none;
  affected = lodash_entry ∷ [];
  references = [];
  cwe_ids = [];
  withdrawn = false;
  published = none;
}

abbrev pub no_epss : Text → Option (Score × Score)
no_epss cve = none
