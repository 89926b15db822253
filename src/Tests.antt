-- ===== src/Tests.antt =====
-- Runs of the models on small inputs, and the theorems at inputs that meet their hypotheses.
mod Data
mod SemVer
mod Ranges
mod Matching
mod Advisories
mod CliAuth
mod SupplyChain
mod Otp
mod RateLimits
mod Findings
mod Rules
mod Manifests
