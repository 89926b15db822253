-- ===== src/Manifests.antt =====
-- app/core/manifests.py: what the lockfiles of npm say of the installed packages.
pub mod Dependencies
pub mod Lock
pub mod LockFile
pub mod Walk
