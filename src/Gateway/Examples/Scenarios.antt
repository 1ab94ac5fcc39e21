-- ===== src/Gateway/Examples/Scenarios.antt =====
-- internal/opsgateway/mockdata.go: an entry of the table.
use graph_ops.Base.{ℕ, ◌≤◌, String, ◌≡◌, some}
use graph_ops.Base.Map.{get}
use graph_ops.Gateway.Scenarios.{numbered_key, scenario_data}
use graph_ops.Gateway.Scenarios.Parts.{Arithmetic, bits}
use graph_ops.Gateway.Scenarios.Downstream.{downstream_inventory_scenario}
use graph_ops.Gateway.Scenarios.Release.{release_regression_scenario}
use graph_ops.Gateway.Scenarios.Keys.{scenario_data-numbered}

-- An arithmetic that is not the processor's; the flags do not depend on it.
abbrev no_arithmetic : Arithmetic
no_arithmetic = record { sub = λ a b. bits 0; mul = λ a b. bits 0; div = λ a b. bits 0 }

abbrev outage : String
outage = "downstream_inventory_outage"

scenario_data-numbered_example :
    (get (scenario_data no_arithmetic) "release_config_regression"
      ≡ some (release_regression_scenario no_arithmetic 0))
    × (get (scenario_data no_arithmetic) outage
        ≡ some (downstream_inventory_scenario no_arithmetic))
    × ((i : ℕ)
        → 1 ≤ i
        → i ≤ 18
        → get (scenario_data no_arithmetic) (numbered_key i)
          ≡ some (release_regression_scenario no_arithmetic i))
scenario_data-numbered_example = scenario_data-numbered no_arithmetic
