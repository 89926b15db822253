-- ===== src/SupplyChain/Facts.antt =====
-- `assess_facts` of app/core/supply_chain.py. A signal is its kind and level; the sentences are left
-- out.
use weedout.Base.{
  ℕ, Bool, true, false, Option, none, some, List, [], ◌∷◌, ◌++◌, leb, ◌==◌, if◌then◌else◌, is_empty,
}
use weedout.Base.Text.{Text}
use weedout.SupplyChain.Typosquats.{
  SignalKind, unmaintained, single_maintainer, provenance_missing, provenance_verified, SignalLevel,
  concerning, notable, informational,
}
use weedout.Types.{Ecosystem}

pub record PackageFacts : Type 0 where
  pub ecosystem : Ecosystem
  pub name : Text
  pub latest_version : Option Text
  pub days_since_release : Option ℕ
  pub maintainer_count : Option ℕ
  pub has_provenance : Option Bool
  pub deprecated : Option Text

abbrev Signal : Type 0
Signal = SignalKind × SignalLevel

maintenance : PackageFacts → List Signal
maintenance f =
    let quiet = elim f.days_since_release as (λ _. List Signal) [
      | none ↦ []
      | some days ↦ if leb 730 days then (unmaintained, notable) ∷ [] else []
    ] in
    elim f.deprecated as (λ _. List Signal) [
      | none ↦ quiet
      | some notice ↦ if is_empty notice then quiet else (unmaintained, concerning) ∷ []
    ]

maintainers : PackageFacts → List Signal
maintainers f = elim f.maintainer_count as (λ _. List Signal) [
  | none ↦ []
  | some n ↦ if n == 1 then (single_maintainer, informational) ∷ [] else []
]

provenance : PackageFacts → List Signal
provenance f = elim f.has_provenance as (λ _. List Signal) [
  | none ↦ []
  | some true ↦ (provenance_verified, informational) ∷ []
  | some false ↦ (provenance_missing, informational) ∷ []
]

unfoldable pub assess_facts : PackageFacts → List (SignalKind × SignalLevel)
unfolding maintenance maintainers provenance
assess_facts f = maintenance f ++ (maintainers f ++ provenance f)
