-- ===== src/Gsbench/Safety.antt =====
-- AuthorizeScenario of internal/gsbench/safety.go: which safeguards a scenario of a risk needs.
mod Permissions
mod Examples
use gstop.Base.{ℕ, String, Bool, true, false, not, Option, none, some, ltb, if◌then◌else◌}

pub data RiskLevel : Type 0 where
  risk_a risk_b risk_c : RiskLevel
  other_risk : String → RiskLevel

-- What the configuration, the command line and the environment permit.
pub record Permits : Type 0 where
  pub allow_admin_mutation : Bool
  pub allow_infrastructure_fault : Bool
  pub allow_risk : RiskLevel
  pub external_fault_provider : Bool

pub data Refusal : Type 0 where
  needs_admin_mutation needs_risk_b needs_infrastructure_fault needs_risk_c : Refusal
  needs_fault_provider unknown_risk : Refusal

unfoldable pub risk_level_rank : RiskLevel → ℕ
risk_level_rank risk_a = 1
risk_level_rank risk_b = 2
risk_level_rank risk_c = 3
risk_level_rank (other_risk s) = 0

unfoldable pub is_risk_c : RiskLevel → Bool
is_risk_c risk_c = true
is_risk_c risk_a = false
is_risk_c risk_b = false
is_risk_c (other_risk s) = false

unfoldable pub authorize_scenario : RiskLevel → Permits → Option Refusal
authorize_scenario risk_a p = none
authorize_scenario risk_b p =
    if not p.allow_admin_mutation
    then some needs_admin_mutation
    else if ltb (risk_level_rank p.allow_risk) (risk_level_rank risk_b)
    then some needs_risk_b
    else none
authorize_scenario risk_c p =
    if not p.allow_infrastructure_fault
    then some needs_infrastructure_fault
    else if not (is_risk_c p.allow_risk)
    then some needs_risk_c
    else if not p.external_fault_provider
    then some needs_fault_provider
    else none
authorize_scenario (other_risk s) p = some unknown_risk
