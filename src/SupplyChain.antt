-- ===== src/SupplyChain.antt =====
-- app/core/supply_chain.py: names that imitate popular packages, and what a registry's facts say.
pub mod Edits
pub mod Typosquats
pub mod Facts
