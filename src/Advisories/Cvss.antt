-- ===== src/Advisories/Cvss.antt =====
-- The CVSS v3 base score of app/core/cvss.py, in exact arithmetic. Weights are hundredths and the
-- formula's constants hundredths or thousandths, as written; on each of the 2592 combinations of
-- metrics the exact score is the one that binary floating point gives.
pub mod Laws
pub mod Vectors
use Prim.Native.Nat.{min}
use weedout.Base.{ℕ, suc, ◌+◌, ◌-◌, ◌*◌, ◌/◌, ◌%◌, ◌^◌, Bool, true, false, ltb, ◌==◌, if◌then◌else◌}

pub data AttackVector : Type 0 where
  network adjacent local physical : AttackVector

pub data Complexity : Type 0 where
  easy hard : Complexity

pub data Privileges : Type 0 where
  no_privileges some_privileges full_privileges : Privileges

pub data Interaction : Type 0 where
  no_interaction required : Interaction

pub data Impact : Type 0 where
  no_impact partial total : Impact

-- `_AV`, `_AC`, `_PR_UNCHANGED`, `_PR_CHANGED`, `_UI` and `_CIA`
unfoldable pub vector_weight : AttackVector → ℕ
vector_weight network = 85
vector_weight adjacent = 62
vector_weight local = 55
vector_weight physical = 20

unfoldable pub complexity_weight : Complexity → ℕ
complexity_weight easy = 77
complexity_weight hard = 44

unfoldable pub privileges_weight : Bool → Privileges → ℕ
privileges_weight scope_changed no_privileges = 85
privileges_weight false some_privileges = 62
privileges_weight false full_privileges = 27
privileges_weight true some_privileges = 68
privileges_weight true full_privileges = 50

unfoldable pub interaction_weight : Interaction → ℕ
interaction_weight no_interaction = 85
interaction_weight required = 62

unfoldable pub impact_weight : Impact → ℕ
impact_weight no_impact = 0
impact_weight partial = 22
impact_weight total = 56

pub record Metrics : Type 0 where
  pub vector : AttackVector
  pub complexity : Complexity
  pub privileges : Privileges
  pub interaction : Interaction
  pub scope_changed : Bool
  pub confidentiality : Impact
  pub integrity : Impact
  pub availability : Impact

-- `round(n / d)`: the nearest integer, ties to the even one
unfoldable pub nearest : ℕ → ℕ → ℕ
nearest n d =
    let q = n / d in
    let r = 2 * (n % d) in
    if ltb r d then q else if ltb d r then suc q else if q % 2 == 0 then q else suc q

-- `_roundup` of n / d, in tenths
unfoldable pub round_up : ℕ → ℕ → ℕ
unfolding nearest
round_up n d =
    let scaled = nearest (n * 100000) d in
    if scaled % 10000 == 0 then scaled / 10000 else suc (scaled / 10000)

-- `iss`, in millionths
unfoldable pub impact_subscore : Metrics → ℕ
unfolding impact_weight
impact_subscore m =
    1000000
    - (100 - impact_weight m.confidentiality)
      * (100 - impact_weight m.integrity)
      * (100 - impact_weight m.availability)

-- `exploitability`, with ten decimals
unfoldable pub exploitability : Metrics → ℕ
unfolding vector_weight complexity_weight privileges_weight interaction_weight
exploitability m =
    822
    * vector_weight m.vector
    * complexity_weight m.complexity
    * privileges_weight m.scope_changed m.privileges
    * interaction_weight m.interaction

-- `impact` for a changed scope, with 92 decimals, and for an unchanged one, with 8; a score that
-- is not positive is 0.
unfoldable pub changed_impact : ℕ → ℕ
changed_impact iss = 752 * (iss - 29000) * 10 ^ 84 - 325 * (iss - 20000) ^ 15

unfoldable pub unchanged_impact : ℕ → ℕ
unchanged_impact iss = 642 * iss

-- The score, in tenths
unfoldable pub base_score : Metrics → ℕ
unfolding round_up impact_subscore exploitability changed_impact unchanged_impact
base_score m =
    let iss = impact_subscore m in
    let changed = changed_impact iss in
    let unchanged = unchanged_impact iss in
    if m.scope_changed
    then (if changed == 0
        then 0
        else round_up (min ((changed + exploitability m * 10 ^ 82) * 108) (10 ^ 95)) (10 ^ 94))
    else if unchanged == 0
    then 0
    else round_up (min (unchanged * 100 + exploitability m) (10 ^ 11)) (10 ^ 10)
