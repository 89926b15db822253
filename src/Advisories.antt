-- ===== src/Advisories.antt =====
-- app/core/osv.py, app/core/cvss.py and app/core/epss.py: what the feeds' records become.
pub mod Json
pub mod Cvss
pub mod Severities
pub mod Events
pub mod Affected
pub mod Osv
