-- ===== src/Versions.antt =====
-- app/core/versions.py: version parsing, ordering and range evaluation. PEP 440 versions are those
-- of the `packaging` package, which enters as a parameter.
pub mod SemVer
pub mod Maven
pub mod Ranges
