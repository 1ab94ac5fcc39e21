-- ===== src/Gateway/Scenarios.antt =====
-- internal/opsgateway/mockdata.go: `scenarioData`.
pub mod Parts
pub mod Release
pub mod Downstream
pub mod Consistency
pub mod Keys
use Prim.Native.String.{◌++◌ as concat}
use graph_ops.Base.{ℕ, zero, suc, String, [], ◌∷◌}
use graph_ops.Base.Decimal.{padded}
use graph_ops.Base.Map.{Map, put}
use graph_ops.Gateway.Types.{ScenarioData}
use graph_ops.Gateway.Scenarios.Parts.{Arithmetic}
use graph_ops.Gateway.Scenarios.Release.{release_regression_scenario}
use graph_ops.Gateway.Scenarios.Downstream.{downstream_inventory_scenario}

-- `fmt.Sprintf("release_config_regression_%02d", i)`
unfoldable pub numbered_key : ℕ → String
numbered_key i = concat "release_config_regression_" (padded 2 i)

module _ (arithmetic : Arithmetic) where
  -- The loop, with `n` rounds left.
  unfoldable pub add_numbered : (n i : ℕ) → Map ScenarioData → Map ScenarioData
  unfolding numbered_key release_regression_scenario
  add_numbered zero i data' = data'
  add_numbered (suc n) i data' =
      add_numbered n (suc i) (put data' (numbered_key i) (release_regression_scenario arithmetic i))

  unfoldable pub scenario_data : Map ScenarioData
  unfolding add_numbered release_regression_scenario downstream_inventory_scenario
  scenario_data = add_numbered 18 1 (
      ("release_config_regression", release_regression_scenario arithmetic 0)
      ∷ ("downstream_inventory_outage", downstream_inventory_scenario arithmetic)
      ∷ [])
