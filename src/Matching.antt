-- ===== src/Matching.antt =====
-- app/core/matching.py: which of the advisories that match a dependency deserve an alert.
pub mod Glob
pub mod Policy
pub mod Triage
pub mod Scan
