-- ===== src/Findings/Life.antt =====
-- What the scans promise for one finding: its life, forgetting the table that `_reconcile_matches` of
-- app/services/scan_service.py keeps.
pub mod Rows
pub mod Lookup
pub mod Traces
pub mod Loops
pub mod Refinement
use weedout.Base.{ℕ, Bool, true, false, Option, none, some, if◌then◌else◌}
use weedout.Base.Maybe.{map_option}
use weedout.Findings.{
  AlertStatus, opened, filtered, dismissed, resolved, verdict_is_suppressed, CveMatch,
}
use weedout.Types.{Verdict, actionable, suppressed}

-- What a row says of the life of its finding
pub record Finding : Type 0 where
  pub status : AlertStatus
  pub verdict : Verdict
  pub first_seen_at : ℕ
  pub resolved_at : Option ℕ
  pub notified_at : Option ℕ

abbrev pub view : CveMatch → Finding
view row = record {
  status = row.status;
  verdict = row.assessment.verdict;
  first_seen_at = row.first_seen_at;
  resolved_at = row.resolved_at;
  notified_at = row.notified_at;
}

-- A scan that does not match the finding
unfoldable pub unmatched : (now : ℕ) → Finding → Finding
unmatched now f = elim f.status [
  | resolved ↦ f
  | _ ↦ record f { status = resolved; resolved_at = some now }
]

-- A scan that matches it and filters it
unfoldable pub quieted : Finding → Finding
quieted f = elim f.status [
  | dismissed ↦ record f { verdict = suppressed; resolved_at = none }
  | _ ↦ record f { status = filtered; verdict = suppressed; resolved_at = none }
]

-- A scan that matches it and wants it seen: only an open finding that was already loud stays as it is.
unfoldable pub raised : Finding → Finding
raised f = elim f.status [
  | dismissed ↦ record f { verdict = actionable }
  | opened ↦ record f {
    verdict = actionable;
    notified_at = if verdict_is_suppressed f.verdict then none else f.notified_at;
  }
  | _ ↦ record f { status = opened; verdict = actionable; resolved_at = none; notified_at = none }
]

unfoldable pub begun : (now : ℕ) → Verdict → Finding
begun now v = record {
  status = elim v [ actionable ↦ opened | _ ↦ filtered ];
  verdict = v;
  first_seen_at = now;
  resolved_at = none;
  notified_at = none;
}

-- The life of a finding over one scan, which may match it with a verdict
unfoldable pub after_scan : (now : ℕ) → Option Verdict → Option Finding → Option Finding
unfolding unmatched quieted raised begun
after_scan now none f = map_option (unmatched now) f
after_scan now (some v) none = some (begun now v)
after_scan now (some actionable) (some f) = some (raised f)
after_scan now (some _) (some f) = some (quieted f)

-- Whether the scan tells the user
unfoldable pub is_news : Option Verdict → Option Finding → Bool
is_news (some actionable) none = true
is_news (some actionable) (some f) = elim f.status [
  | dismissed ↦ false
  | opened ↦ verdict_is_suppressed f.verdict
  | resolved ↦ true
  | filtered ↦ verdict_is_suppressed f.verdict
]
is_news _ f = false
