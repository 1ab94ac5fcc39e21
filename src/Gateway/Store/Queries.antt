-- ===== src/Gateway/Store/Queries.antt =====
-- internal/opsgateway/store.go: the evidence of a scenario. The two stores of the gateway have the
-- same three methods, and none of them reads the store. `scenarios` is the table `scenarioData`.
use graph_ops.Base.{Option, none, some}
use graph_ops.Base.Map.{Map, get}
use graph_ops.Base.Result.{ok, err}
use graph_ops.Base.Slice.{Slice, copy}
use graph_ops.Gateway.Types.{EvidenceItem, QueryResponse, ScenarioData}
use graph_ops.Gateway.Requests.{QueryRequest}
use graph_ops.Gateway.Redis.{resolve_playbook_key}
use graph_ops.Gateway.Store.State.{Outcome, unknown_scenario}

unfoldable pub query_of :
    (ScenarioData → Slice EvidenceItem) → Option ScenarioData → Outcome QueryResponse
query_of field none = err unknown_scenario
query_of field (some data') = ok (record { items = copy (field data') })

module _ (scenarios : Map ScenarioData) where
  unfoldable pub query_changes : QueryRequest → Outcome QueryResponse
  unfolding query_of
  query_changes req =
      query_of (λ d. d.change_items) (get scenarios (resolve_playbook_key req.playbook_key))

  unfoldable pub query_logs : QueryRequest → Outcome QueryResponse
  unfolding query_of
  query_logs req =
      query_of (λ d. d.log_items) (get scenarios (resolve_playbook_key req.playbook_key))

  unfoldable pub query_dependencies : QueryRequest → Outcome QueryResponse
  unfolding query_of
  query_dependencies req =
      query_of (λ d. d.dependency_items) (get scenarios (resolve_playbook_key req.playbook_key))
