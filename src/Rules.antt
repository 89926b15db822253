-- ===== src/Rules.antt =====
-- The rules of a project: app/core/policy.py, app/services/rules_service.py and
-- app/services/profile_service.py.
pub mod Yaml
pub mod PolicyFile
pub mod Effective
pub mod Profiles
