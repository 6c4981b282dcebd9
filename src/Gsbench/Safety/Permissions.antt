-- ===== src/Gsbench/Safety/Permissions.antt =====
-- What AuthorizeScenario of internal/gsbench/safety.go asks of the permissions.
use gstop.Base.{true, none, ◌≡◌, ◌⊎◌, ◌↔◌, arith}
use gstop.Gsbench.Safety.{
  RiskLevel, risk_a, risk_b, risk_c, other_risk, Permits, risk_level_rank, is_risk_c,
  authorize_scenario,
}

-- The safeguards of a risk: none for A; administration and a risk of B or C for B; infrastructure
-- faults, the risk C and a provider of faults for C. No other risk has any that would do.
abbrev pub Granted : RiskLevel → Permits → Type 0
Granted risk_a p = Unit
Granted risk_b p =
    (p.allow_admin_mutation ≡ true) × ((p.allow_risk ≡ risk_b) ⊎ (p.allow_risk ≡ risk_c))
Granted risk_c p =
    (p.allow_infrastructure_fault ≡ true)
    × (p.allow_risk ≡ risk_c)
    × (p.external_fault_provider ≡ true)
Granted (other_risk s) p = ⊥

-- AuthorizeScenario allows a scenario exactly where all safeguards of its risk are set.
pub authorize_scenario-Granted :
    (r : RiskLevel) (p : Permits) → (authorize_scenario r p ≡ none) ↔ Granted r p
unfolding authorize_scenario risk_level_rank is_risk_c
authorize_scenario-Granted risk_a p = ground arith
authorize_scenario-Granted risk_b p = ground arith
authorize_scenario-Granted risk_c p = ground arith
authorize_scenario-Granted (other_risk s) p = ground arith
