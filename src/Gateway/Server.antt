-- ===== src/Gateway/Server.antt =====
-- internal/opsgateway/server.go: the handlers, over any `GatewayStore` (gateway.go). A handler's
-- result has the label under which `observeToolCall` counts the call.
use graph_ops.Base.{ℕ, String, ◌==◌, Bool, true, false, ◌||◌, Option, none, some, if◌then◌else◌}
use graph_ops.Base.Int.{pos, is_zero}
use graph_ops.Base.Result.{Result, ok, err}
use graph_ops.Base.Text.{trim_space}
use graph_ops.Base.Value.{Clock}
use graph_ops.Gateway.Types.{QueryResponse, RollbackResponse, VerificationResult}
use graph_ops.Gateway.Requests.{QueryRequest, RollbackRequest, VerifyRequest, IncidentContext}
use graph_ops.Gateway.Redis.{resolve_playbook_key}
use graph_ops.Gateway.Store.{GatewayError, unknown_scenario, failed, Outcome}

-- `GatewayStore`. The queries read no state.
pub record GatewayStore (S : Type 0) : Type 0 where
  pub query_changes : QueryRequest → Outcome QueryResponse
  pub query_logs : QueryRequest → Outcome QueryResponse
  pub query_dependencies : QueryRequest → Outcome QueryResponse
  pub rollback : RollbackRequest → Clock → S → Outcome RollbackResponse × S
  pub verify : VerifyRequest → S → Outcome VerificationResult × S

pub data Payload : Type 0 where
  error_payload : String → Payload
  query_payload : QueryResponse → Payload
  rollback_payload : RollbackResponse → Payload
  verify_payload : VerificationResult → Payload

-- The status code, the payload, and the label `status` of `observeToolCall`.
pub record Answer : Type 0 where
  pub status : ℕ
  pub payload : Payload
  pub label : String

abbrev pub bad_request : String → Answer
bad_request message = record {
  status = 400;
  payload = error_payload message;
  label = "bad_request";
}

unfoldable pub answer_store_error : GatewayError → Answer
answer_store_error unknown_scenario = record {
  status = 404;
  payload = error_payload "unknown scenario";
  label = "error";
}
answer_store_error (failed message) = record {
  status = 500;
  payload = error_payload message;
  label = "error";
}

unfoldable pub answer : {A : Type 0} → (A → Payload) → Result GatewayError A → Answer
unfolding answer_store_error
answer payload (ok value) = record { status = 200; payload = payload value; label = "ok" }
answer payload (err e) = answer_store_error e

-- The defaults of `handleQuery`.
unfoldable pub with_defaults : QueryRequest → QueryRequest
unfolding resolve_playbook_key
with_defaults req = record req {
  playbook_key = resolve_playbook_key req.playbook_key;
  time_window_minutes =
      if is_zero req.time_window_minutes then pos 120 else req.time_window_minutes;
}

abbrev pub lacks_place : Option IncidentContext → Bool
lacks_place none = true
lacks_place (some c) = trim_space c.cluster == "" || trim_space c.namespace == ""

unfoldable pub handle_query :
    (QueryRequest → Outcome QueryResponse) → Result String QueryRequest → Answer
unfolding with_defaults answer
handle_query query (err message) = bad_request message
handle_query query (ok req) =
    let found = answer query_payload (query (with_defaults req)) in
    if trim_space req.service_name == "" || lacks_place req.incident_context
    then bad_request
        "service_name plus incident_context.cluster and incident_context.namespace are required"
    else found

abbrev pub answered : {A S : Type 0} → (A → Payload) → Result GatewayError A × S → Answer × S
unfolding answer
answered payload (result, s) = (answer payload result, s)

abbrev pub lacks_rollback_fields : RollbackRequest → Bool
lacks_rollback_fields req =
    req.incident_id == ""
    || req.target_service == ""
    || req.idempotency_key == ""
    || req.current_revision == ""
    || req.target_revision == ""

abbrev pub is_missing : Option IncidentContext → Bool
is_missing none = true
is_missing (some c) = false

module _ {S : Type 0} (store : GatewayStore S) where
  unfoldable pub handle_rollback : Result String RollbackRequest → Clock → S → Answer × S
  unfolding resolve_playbook_key answer
  handle_rollback (err message) clock s = (bad_request message, s)
  handle_rollback (ok req) clock s =
      let asked : RollbackRequest = record req {
        playbook_key = resolve_playbook_key req.playbook_key;
      } in
      let done = answered rollback_payload (store.rollback asked clock s) in
      if lacks_rollback_fields req
      then (
        bad_request
            "incident_id, target_service, current_revision, target_revision, and idempotency_key are required",
        s,
      )
      else done

  unfoldable pub handle_verify : Result String VerifyRequest → S → Answer × S
  unfolding resolve_playbook_key answer
  handle_verify (err message) s = (bad_request message, s)
  handle_verify (ok req) s =
      let asked : VerifyRequest = record req {
        playbook_key = resolve_playbook_key req.playbook_key;
      } in
      let done = answered verify_payload (store.verify asked s) in
      if req.incident_id == "" || req.service_name == "" || is_missing req.incident_context
      then (bad_request "incident_id, service_name, and incident_context are required", s)
      else done
