-- ===== src/Gateway/Evidence.antt =====
-- The queries of internal/opsgateway/server.go over the table of scenarios of store.go.
use graph_ops.Base.{
  String, ◌==◌, ◌||◌, ◌≡◌, ◌≢◌, refl, inl, inr, Option, none, some, Bool-cases, false,
  eq-false_of_ne,
}
use graph_ops.Base.Map.{Map, get}
use graph_ops.Base.Result.{ok}
use graph_ops.Base.Slice.{Slice, copy}
use graph_ops.Base.Text.{trim_space}
use graph_ops.Gateway.Types.{EvidenceItem, ScenarioData}
use graph_ops.Gateway.Requests.{QueryRequest, IncidentContext}
use graph_ops.Gateway.Redis.{resolve_playbook_key}
use graph_ops.Gateway.Store.{query_of, query_changes, query_logs, query_dependencies}
use graph_ops.Gateway.Server.{
  Answer, answer, answer_store_error, handle_query, query_payload, error_payload, with_defaults,
  lacks_place,
}

-- What a query must hold to be answered.
pub record IsPlaced (req : QueryRequest) : Type 0 where
  pub service_name : trim_space req.service_name ≢ ""
  pub context : IncidentContext
  pub given : req.incident_context ≡ some context
  pub cluster : trim_space context.cluster ≢ ""
  pub namespace : trim_space context.namespace ≢ ""

-- The answer that a scenario, if there is one, gives to a query for some of its evidence.
abbrev pub evidence : (ScenarioData → Slice EvidenceItem) → Option ScenarioData → Answer
evidence field none = record {
  status = 404;
  payload = error_payload "unknown scenario";
  label = "error";
}
evidence field (some d) = record {
  status = 200;
  payload = query_payload (record { items = copy (field d) });
  label = "ok";
}

resolve_playbook_key_idem :
    (key : String) → resolve_playbook_key (resolve_playbook_key key) ≡ resolve_playbook_key key
unfolding resolve_playbook_key
resolve_playbook_key_idem key = elim (Bool-cases (key == "")) [
  | inl missing ↦ rw missing
  | inr given ↦ rw (given, given)
]

placed-passes :
    (req : QueryRequest)
    → IsPlaced req
    → (trim_space req.service_name == "" || lacks_place req.incident_context) ≡ false
placed-passes req p = rw (
  eq-false_of_ne (trim_space req.service_name) "" p.service_name,
  p.given,
  eq-false_of_ne (trim_space p.context.cluster) "" p.cluster,
  eq-false_of_ne (trim_space p.context.namespace) "" p.namespace,
)

answer-query_of :
    (field : ScenarioData → Slice EvidenceItem) (scenario : Option ScenarioData)
    → answer query_payload (query_of field scenario) ≡ evidence field scenario
unfolding answer query_of answer_store_error
answer-query_of field none = refl
answer-query_of field (some d) = refl

-- A query that names a service and, in its context, a cluster and a namespace, none of them blank,
-- is answered by each of the three tools with its evidence of the scenario of the playbook, the
-- default playbook if the query names none, and with status 404 if there is no such scenario.
pub handle_query-evidence :
    (scenarios : Map ScenarioData) (req : QueryRequest)
    → IsPlaced req
    → let scenario = get scenarios (resolve_playbook_key req.playbook_key) in
      (handle_query (query_changes scenarios) (ok req) ≡ evidence (λ d. d.change_items) scenario)
      × (handle_query (query_logs scenarios) (ok req) ≡ evidence (λ d. d.log_items) scenario)
      × (handle_query (query_dependencies scenarios) (ok req)
          ≡ evidence (λ d. d.dependency_items) scenario)
unfolding handle_query query_changes query_logs query_dependencies with_defaults
handle_query-evidence scenarios req p =
    let key = resolve_playbook_key req.playbook_key in
    rw (placed-passes req p, resolve_playbook_key_idem)
      (
        answer-query_of (λ d. d.change_items) (get scenarios key),
        answer-query_of (λ d. d.log_items) (get scenarios key),
        answer-query_of (λ d. d.dependency_items) (get scenarios key),
      )
