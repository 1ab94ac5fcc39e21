-- ===== src/Gateway/Mysql/Queries.antt =====
-- internal/opsgateway/mysql_store.go: the three queries, which read the table `scenarioData` and not
-- the database.
use graph_ops.Base.Map.{Map, get}
use graph_ops.Gateway.Types.{QueryResponse, ScenarioData}
use graph_ops.Gateway.Requests.{QueryRequest}
use graph_ops.Gateway.Redis.{resolve_playbook_key}
use graph_ops.Gateway.Store.{Outcome, query_of}

module _ (scenarios : Map ScenarioData) where
  unfoldable pub query_changes : QueryRequest → Outcome QueryResponse
  unfolding query_of
  query_changes req =
      query_of (λ d. d.change_items) (get scenarios (resolve_playbook_key req.playbook_key))

  unfoldable pub query_logs : QueryRequest → Outcome QueryResponse
  unfolding query_of
  query_logs req =
      query_of (λ d. d.log_items) (get scenarios (resolve_playbook_key req.playbook_key))

  unfoldable pub query_dependencies : QueryRequest → Outcome QueryResponse
  unfolding query_of
  query_dependencies req =
      query_of (λ d. d.dependency_items) (get scenarios (resolve_playbook_key req.playbook_key))
