-- ===== src/Gateway/Examples.antt =====
-- internal/opsgateway: a rollback, repeated and verified, on concrete data.
mod Mysql
mod Scenarios
use graph_ops.Base.Text.{trim_space}
use graph_ops.Gateway.Server.{handle_query}
use graph_ops.Gateway.Evidence.{evidence, handle_query-evidence}
use graph_ops.Base.{
  ne_of_eq-false, String, ◌≡◌, ◌≤◌, refl, none, some, false, List, [], ◌∷◌, length, arith,
}
use graph_ops.Base.Int.{pos, next_u64}
use graph_ops.Base.Map.{Map, get}
use graph_ops.Base.Result.{ok, err}
use graph_ops.Base.Slice.{nil_slice}
use graph_ops.Base.Value.{Clock}
use graph_ops.Gateway.Types.{ActionReceipt, RollbackResponse, ScenarioData, VerificationResult}
use graph_ops.Gateway.Requests.{QueryRequest, IncidentContext, RollbackRequest, VerifyRequest}
use graph_ops.Gateway.Redis.{RedisClient, resolve_playbook_key}
use graph_ops.Gateway.Telemetry.{rollback_requests}
use graph_ops.Gateway.Store.{
  query_changes, query_logs, query_dependencies, Store, new_store, emit, rollback, verify,
  rollback_found, rollback_scenario, when_taken, acquire, execute_rollback, new_receipt,
}
use graph_ops.Gateway.Independence.{forget, rollback-forget}
use graph_ops.Gateway.Receipts.{
  SameReceipt, Call, roll_back, verify_recovery, run_calls, Holds, run_calls-Holds,
}
use graph_ops.Gateway.Idempotency.{rollback_idempotent, verify-rollback}
use graph_ops.Gateway.Validity.{IsValid}
use graph_ops.Gateway.Runs.{run_calls-IsValid}
use graph_ops.Gateway.Serving.{
  memory_gateway, ActionRequest, post_rollback, post_verify, serve_action, IsAnswered,
  serve_action-IsAnswered,
}

abbrev noon : Clock
noon n = record { nanos = pos 63800000000000000000 }

-- A server that has every key already, and fails to write.
abbrev contended : RedisClient String
contended = record {
  set_nx = λ key value ttl redis. (ok false, redis);
  set = λ key value ttl redis. (err "read only", redis);
  del = λ key redis. (ok tt, key);
}

abbrev result : String → VerificationResult
result status = record {
  status = status;
  error_rate = record { bits = 0 };
  p95_latency_ms = pos 120;
  window_minutes = pos 15;
  query_refs = nil_slice;
  signal_checks = nil_slice;
  metrics = nil_slice;
  release_comparisons = nil_slice;
  anomalies = nil_slice;
  decision_basis = "signals";
  summary = status;
}

abbrev regression : ScenarioData
regression = record {
  current_revision = "v2";
  target_revision = "v1";
  change_items = nil_slice;
  log_items = nil_slice;
  dependency_items = nil_slice;
  verification_before = result "not_recovered";
  verification_after = result "recovered";
}

abbrev scenarios : Map ScenarioData
scenarios = ("release_config_regression", regression) ∷ []

abbrev request : RollbackRequest
request = record {
  incident_id = "inc-1";
  playbook_key = "";
  incident_context = none;
  target_service = "checkout";
  current_revision = "v2";
  target_revision = "v1";
  risk_level = "medium";
  idempotency_key = "key-1";
  requested_by = "orchestrator";
  verification_policy = none;
}

abbrev other_request : RollbackRequest
other_request = record request { incident_id = "inc-2"; idempotency_key = "key-2" }

abbrev check : VerifyRequest
check = record {
  incident_id = "inc-1";
  service_name = "checkout";
  playbook_key = "release_config_regression";
  incident_context = none;
  verification_policy = none;
}

abbrev calls : List (Call × Clock)
calls =
    (verify_recovery check, noon)
    ∷ (roll_back other_request, noon)
    ∷ (roll_back request, noon)
    ∷ (verify_recovery check, noon)
    ∷ []

abbrev start : Store String
start = new_store ""

abbrev receipt : ActionReceipt
receipt = new_receipt request regression 1 noon

abbrev response : RollbackResponse
response = record { receipt = receipt }

first_receipt : (rollback scenarios (some contended) request noon start).0 ≡ ok response
unfolding rollback rollback_found rollback_scenario when_taken acquire execute_rollback get
    resolve_playbook_key
first_receipt = unfold next_u64 in refl

rollback_idempotent_example :
    let later =
      run_calls scenarios
        (some contended)
        calls
        (rollback scenarios (some contended) request noon start).1 in
    (r : ActionReceipt) × (rollback scenarios (some contended) request noon later
      ≡ (ok (record { receipt = r }), emit (rollback_requests "idempotent" ∷ []) later))
    × SameReceipt r receipt
rollback_idempotent_example =
    rollback_idempotent scenarios (some contended) request request noon noon calls start response
      first_receipt refl

verify-rollback_example :
    let after_rollback = (rollback scenarios (some contended) request noon start).1 in
    ((verify scenarios check after_rollback).0 ≡ ok (result "recovered"))
    × (get (verify scenarios check after_rollback).1.receipts_by_key "key-1"
        ≡ some (record receipt { verification_status = "recovered" }))
verify-rollback_example =
    verify-rollback scenarios (some contended) request check noon start response regression
      (unfold get in refl) first_receipt refl (unfold resolve_playbook_key get in refl)

rollback-forget_example :
    ((rollback scenarios (some contended) request noon start).0
      ≡ (rollback scenarios none request noon (forget start)).0)
    × (forget (rollback scenarios (some contended) request noon start).1
        ≡ (rollback scenarios none request noon (forget start)).1)
rollback-forget_example = rollback-forget scenarios (some contended) request noon start

run_calls-IsValid_example : IsValid (run_calls scenarios (some contended) calls start)
run_calls-IsValid_example = run_calls-IsValid scenarios (some contended) "" calls (omega arith)

serve_action-IsAnswered_example : IsAnswered scenarios (some contended) noon start (
    serve_action
      (memory_gateway scenarios (some contended))
      (post_rollback (ok request))
      noon
      start)
serve_action-IsAnswered_example =
    serve_action-IsAnswered scenarios (some contended) (post_rollback (ok request)) noon start

abbrev checkout_context : IncidentContext
checkout_context = record {
  cluster = "prod-1";
  namespace = "shop";
  environment = "prod";
  alert_name = "HighErrorRate";
  alert_started_at = noon 0;
  release_id = "rel-42";
  release_version = "v2";
  previous_version = "v1";
  labels = none;
}

abbrev query : QueryRequest
query = record {
  incident_id = "inc-1";
  service_name = "checkout";
  playbook_key = "";
  incident_context = some checkout_context;
  time_window_minutes = pos 0;
}

handle_query-evidence_example :
    let scenario = get scenarios (resolve_playbook_key query.playbook_key) in
    (handle_query (query_changes scenarios) (ok query) ≡ evidence (λ d. d.change_items) scenario)
    × (handle_query (query_logs scenarios) (ok query) ≡ evidence (λ d. d.log_items) scenario)
    × (handle_query (query_dependencies scenarios) (ok query)
        ≡ evidence (λ d. d.dependency_items) scenario)
handle_query-evidence_example = handle_query-evidence scenarios query (
    unfold trim_space in
    record {
      service_name = ne_of_eq-false "checkout" "" refl;
      context = checkout_context;
      given = refl;
      cluster = ne_of_eq-false "prod-1" "" refl;
      namespace = ne_of_eq-false "shop" "" refl;
    })
