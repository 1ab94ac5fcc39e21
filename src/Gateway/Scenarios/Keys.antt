-- ===== src/Gateway/Scenarios/Keys.antt =====
-- internal/opsgateway/mockdata.go: the keys of `scenarioData`.
use mathlib.Core.Path.{subst}
use text.Mathlib.TextLemmas.{append_cancel_left}
use graph_ops.Base.{
  ℕ, zero, suc, ◌+◌, ◌≤◌, ◌<◌, ◌≡◌, ◌≢◌, refl, ◌∙◌, inl, inr, some, arith, eqb, eqb→eq, Bool-cases,
}
use graph_ops.Base.Decimal.{padded, padded_inj}
use graph_ops.Base.Map.{Map, get, put, get-put_self, get-put_ne}
use graph_ops.Gateway.Types.{ScenarioData}
use graph_ops.Gateway.Scenarios.{numbered_key, add_numbered, scenario_data}
use graph_ops.Gateway.Scenarios.Parts.{Arithmetic}
use graph_ops.Gateway.Scenarios.Release.{release_regression_scenario}
use graph_ops.Gateway.Scenarios.Downstream.{downstream_inventory_scenario}

numbered_key_inj : (i j : ℕ) → numbered_key i ≡ numbered_key j → i ≡ j
unfolding numbered_key
numbered_key_inj i j e =
    padded_inj 2 i j (append_cancel_left "release_config_regression_" (padded 2 i) (padded 2 j) e)

module _ (arithmetic : Arithmetic) where
  -- The rest of the loop leaves an earlier key alone.
  get-add_numbered_old :
      (n i j : ℕ) (data' : Map ScenarioData)
      → j < i
      → get (add_numbered arithmetic n i data') (numbered_key j) ≡ get data' (numbered_key j)
  unfolding add_numbered
  get-add_numbered_old zero i j data' h = refl
  get-add_numbered_old (suc n) i j data' h =
      let differ : numbered_key i ≢ numbered_key j =
        λ e. let same = numbered_key_inj i j e in absurd (omega arith) in
      get-add_numbered_old n (suc i) j _ (omega arith) ∙ get-put_ne data' _ _ _ differ

  get-add_numbered :
      (n i j : ℕ) (data' : Map ScenarioData)
      → i ≤ j
      → j < i + n
      → get (add_numbered arithmetic n i data') (numbered_key j)
        ≡ some (release_regression_scenario arithmetic j)
  unfolding add_numbered
  get-add_numbered zero i j data' low high = absurd (omega arith)
  get-add_numbered (suc n) i j data' low high = elim (Bool-cases (eqb i j)) [
    | inl here ↦
        subst
          (λ k.
            get
              (add_numbered arithmetic n (suc i)
                (put data' (numbered_key i) (release_regression_scenario arithmetic i)))
              (numbered_key k)
            ≡ some (release_regression_scenario arithmetic k))
          (eqb→eq i j here)
          (get-add_numbered_old n (suc i) i _ (omega arith) ∙ get-put_self data' (numbered_key i) _)
    | inr later ↦
        let behind : suc i ≤ j = ground arith in get-add_numbered n (suc i) j _ behind (omega arith)
  ]

  numbered :
      (i : ℕ)
      → 1 ≤ i
      → i ≤ 18
      → get (scenario_data arithmetic) (numbered_key i)
        ≡ some (release_regression_scenario arithmetic i)
  unfolding scenario_data
  numbered i low high = get-add_numbered 18 1 i _ low (omega arith)

  -- The table has the scenario of the default playbook, the outage of the inventory, and for each
  -- number from 1 to 18 the release with that number, under its two-digit key.
  pub scenario_data-numbered :
      (get (scenario_data arithmetic) "release_config_regression"
        ≡ some (release_regression_scenario arithmetic 0))
      × (get (scenario_data arithmetic) "downstream_inventory_outage"
          ≡ some (downstream_inventory_scenario arithmetic))
      × ((i : ℕ)
          → 1 ≤ i
          → i ≤ 18
          → get (scenario_data arithmetic) (numbered_key i)
            ≡ some (release_regression_scenario arithmetic i))
  unfolding scenario_data add_numbered numbered_key get put padded
  scenario_data-numbered = (refl, refl, numbered)
