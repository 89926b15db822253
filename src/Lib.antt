-- ===== src/Lib.antt =====
-- Weedout tells the users of open source packages which published vulnerabilities concern them. It
-- reads a project's manifests into dependencies, reads the advisory feeds into vulnerabilities, and
-- decides for each pair whether to alert, to file the match silently, or to drop it. This library
-- models the decisions, that is the pure core under app/core, and what they rest on.
--
-- The parts, and where they are modelled:
--
--   Base        lists, texts, results and orders that the parts share.
--   Types       app/core/types.py: ecosystems, severities, verdicts, dependencies and advisories.
--   Versions    app/core/versions.py. Versions/SemVer is the class `SemVer` with `parse`, `print`
--               (`__str__`) and `compare_semver` (`_compare`); Versions/Maven is `_maven_tokens`,
--               `_maven_trim` and `_maven_compare`; Versions/Ranges is `compare`, `in_range`,
--               `version_matches` and `first_fixed_version`.
--   Matching    app/core/matching.py. Matching/Glob is `_glob`, Matching/Policy the class
--               `MatchPolicy`, Matching/Triage the function `triage`, and Matching/Scan
--               `triage_all`, its order, and `summarize`.
--   Advisories  app/core/osv.py and app/core/cvss.py. Advisories/Json is the decoded record,
--               Advisories/Events `_pair_range_events`, Advisories/Affected `parse_affected`,
--               Advisories/Osv `normalize_osv_record`, Advisories/Cvss `score_cvss_vector`, and
--               Advisories/Severities `normalize_severity`.
--   SupplyChain app/core/supply_chain.py. SupplyChain/Edits is `edit_distance`,
--               SupplyChain/Typosquats `check_typosquat`, SupplyChain/Facts `assess_facts`.
--   Findings    `_reconcile_matches` of app/services/scan_service.py, on the rows of one manifest.
--               Findings/Life is the life of one finding that it keeps, Findings/Digest
--               `send_new_match_digest` of app/services/alert_service.py with the cycle of
--               app/jobs/tasks.py, Findings/Status the choices of app/routes/internal_alerts.py and
--               the tabs of app/services/finding_service.py, and Findings/Status/Lists its
--               `list_findings`.
--   Rules       Rules/PolicyFile is app/core/policy.py over the values of Rules/Yaml,
--               Rules/Effective `build_policy` of app/services/rules_service.py, with
--               `effective_policy` for what follows once the profile is found and `layered` for the
--               layers put together, and Rules/Profiles app/services/profile_service.py.
--   Otp         app/core/totp.py and `verify_code` of app/services/twofactor_service.py. Otp is
--               `code_at` and `verify`, Otp/Accounts the codes that an account has used, with
--               `verify_codes` for a series of calls.
--   RateLimits  app/services/rate_limit_service.py, the table of hits as a list, and the check
--               before each record of app/routes/cli_auth.py, with `attempt_all` for a series of
--               requests, one after the other.
--   CliAuth     app/services/cli_auth_service.py: CliAuth the requests and their answers in the
--               browser (`answer`, for the routes of app/routes/internal_cli_auth.py), CliAuth/Flow
--               the poll `collect` and series of events (`issued_count`), CliAuth/Tokens the tokens.
--   Manifests   app/core/manifests.py. Manifests/Walk is `_walk_npm_graph`, Manifests/Lock
--               `_parse_lock_v2` with `_index_by_name`, Manifests/LockFile `_parse_lock_v1` and
--               `_parse_package_lock`, and Manifests/Dependencies `_dedupe`.
--   Tests       runs on small inputs, and the theorems at inputs that meet their hypotheses.
--
-- How the parts interact: the advisory parsers build `Vulnerability` records, `triage` asks
-- `version_matches` and `first_fixed_version` about each affected package of one, and `triage_all`
-- runs `triage` on every dependency within reach and sorts what comes out. A scan merges that result
-- with the findings it has stored, and tells the user of the new ones in a digest.
--
-- How the code is written here. A Python text is its list of code points; case and digits are
-- those of ASCII, white space is that of Unicode. A score, such as a CVSS score or a probability,
-- is a natural number of billionths. A function that may raise returns `none` where only one
-- exception can come out, and a `Result` where there are several. A comparison is lt, eq or gt for
-- -1, 0 or 1. The exploited catalog is a list of identifiers, the EPSS index and the candidate
-- advisories are functions of their keys, and `sorted` is a stable insertion sort. A JSON number is
-- a natural number. Loops are structural recursion, but for three on fuel: the translation of a glob
-- and of a class in it takes the length of the text, since each step drops a character; the
-- printing of a number n takes n + 1, since each step drops a digit; and the walk over the packages
-- of a lockfile takes a round for each name that the project or an entry depends on, since each
-- round takes one name from the queue and a name is queued once, and gives `none` where the rounds
-- run out. The nesting of an old lockfile is cut at the 65 levels of the code, which also keeps at
-- most 20 references and 10 weaknesses of a record and 5000 dependencies of a manifest.
--
-- Parameters stand for what the program calls and does not contain: the PEP 440 versions of the
-- packaging library (`Pep440`, with its order as a hypothesis where a theorem needs it), Python's
-- `str` of a value that is not a text and its conversion of a text to a float, `yaml.safe_load` and
-- the decoding of bytes (`Loader`), `json.loads`, whose result is an argument, base32, HMAC, SHA-256
-- (`hash` for a token), what is drawn at random, the accounts of a sign-in (`email_of`),
-- and `str.isdigit` where digits that are not ASCII matter. The CVSS formula is in exact
-- arithmetic, which rounds to the same tenth as binary floating point on every combination of
-- metrics.
--
-- Not modelled: calls that overlap, in the sign-in and elsewhere, since what changes a table is taken
-- one call after the other; the limit that Python sets on the digits of an integer, and the
-- OverflowError of `float` on a huge integer in a policy file; the wording of messages; the parsers
-- of the manifests other than the lockfile of npm; the database and the services around it, the web
-- application, the Go engine and the front ends.
pub mod Base
pub mod Types
pub mod Versions
pub mod Matching
pub mod Advisories
pub mod SupplyChain
pub mod Findings
pub mod Rules
pub mod Otp
pub mod RateLimits
pub mod CliAuth
pub mod Manifests
pub mod Tests
