-- ===== src/Gsbench/Safety/Examples.antt =====
-- Tests and instances for the safeguards.
use gstop.Base.{◌↔◌, ◌≡◌, refl, true, false, none, some}
use gstop.Gsbench.Safety.{Permits, risk_b, risk_c, needs_risk_c, authorize_scenario, is_risk_c}
use gstop.Gsbench.Safety.Permissions.{Granted, authorize_scenario-Granted}

abbrev admin_only : Permits
admin_only = record {
  allow_admin_mutation = true;
  allow_infrastructure_fault = true;
  allow_risk = risk_b;
  external_fault_provider = false;
}

abbrev everything : Permits
everything = record admin_only { allow_risk = risk_c; external_fault_provider = true }

risk_c_refused : authorize_scenario risk_c admin_only ≡ some needs_risk_c
unfolding authorize_scenario is_risk_c
risk_c_refused = refl

authorize_scenario-Granted_example :
    (authorize_scenario risk_c everything ≡ none) ↔ Granted risk_c everything
authorize_scenario-Granted_example = authorize_scenario-Granted risk_c everything
