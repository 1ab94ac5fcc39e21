-- ===== src/Gateway/Serving.antt =====
-- The server of internal/opsgateway/server.go over the store of store.go: what its requests do.
use graph_ops.Base.{
  ◌≤◌, String, ◌==◌, ◌||◌, Bool, true, false, ◌≡◌, refl, Option, arith, if◌then◌else◌,
}
use graph_ops.Base.Map.{Map}
use graph_ops.Base.Result.{Result, ok, err}
use graph_ops.Base.Value.{Clock}
use graph_ops.Gateway.Types.{ScenarioData}
use graph_ops.Gateway.Requests.{RollbackRequest, VerifyRequest}
use graph_ops.Gateway.Redis.{RedisClient, resolve_playbook_key}
use graph_ops.Gateway.Store.{
  Store, query_changes, query_logs, query_dependencies, rollback, verify, Outcome, unknown_scenario,
  failed,
}
use graph_ops.Gateway.Receipts.{Call, roll_back, verify_recovery, execute_call}
use graph_ops.Gateway.Server.{
  GatewayStore, Payload, Answer, bad_request, answer, answered, rollback_payload, verify_payload,
  lacks_rollback_fields, is_missing, handle_rollback, handle_verify, answer_store_error,
}

-- `Store` as a `GatewayStore`.
abbrev pub memory_gateway :
    {R : Type 0} → Map ScenarioData → Option (RedisClient R) → GatewayStore (Store R)
memory_gateway scenarios client = record {
  query_changes = query_changes scenarios;
  query_logs = query_logs scenarios;
  query_dependencies = query_dependencies scenarios;
  rollback = rollback scenarios client;
  verify = verify scenarios;
}

-- The requests that change the store, with the body as it was decoded.
pub data ActionRequest : Type 0 where
  post_rollback : Result String RollbackRequest → ActionRequest
  post_verify : Result String VerifyRequest → ActionRequest

module _ {S : Type 0} (store : GatewayStore S) where
  unfoldable pub serve_action : ActionRequest → Clock → S → Answer × S
  serve_action (post_rollback body) clock s = handle_rollback store body clock s
  serve_action (post_verify body) clock s = handle_verify store body s

module _ {R : Type 0} (scenarios : Map ScenarioData) (client : Option (RedisClient R)) where
  -- A request is refused and changes nothing, or it is one call of the store; the label under which
  -- it is counted goes with the status of the answer.
  pub data IsAnswered (clock : Clock) (s : Store R) (out : Answer × Store R) : Type 0 where
    refused : out.0.status ≡ 400 → out.0.label ≡ "bad_request" → out.1 ≡ s → IsAnswered clock s out
    failed_call :
        (c : Call)
        → out.0.label ≡ "error"
        → 404 ≤ out.0.status
        → out.1 ≡ execute_call scenarios client c clock s
        → IsAnswered clock s out
    done :
        (c : Call)
        → out.0.label ≡ "ok"
        → out.0.status ≡ 200
        → out.1 ≡ execute_call scenarios client c clock s
        → IsAnswered clock s out

  answer-IsAnswered :
      {A : Type 0} (payload : A → Payload) (c : Call) (clock : Clock) (s s' : Store R)
      (result : Outcome A)
      → s' ≡ execute_call scenarios client c clock s
      → IsAnswered clock s (answered payload (result, s'))
  unfolding answer answer_store_error
  answer-IsAnswered payload c clock s s' (ok value) same = done c refl refl same
  answer-IsAnswered payload c clock s s' (err unknown_scenario) same =
      failed_call c refl (omega arith) same
  answer-IsAnswered payload c clock s s' (err (failed m)) same =
      failed_call c refl (omega arith) same

  guard-IsAnswered :
      (test : Bool) (message : String) (clock : Clock) (s : Store R)
      (after_guard : Answer × Store R)
      → IsAnswered clock s after_guard
      → IsAnswered clock s (if test then (bad_request message, s) else after_guard)
  guard-IsAnswered true message clock s after_guard h = refused refl refl refl
  guard-IsAnswered false message clock s after_guard h = h

  -- Every request that acts has one of three outcomes: it is refused with status 400, is counted as
  -- `bad_request` and changes nothing; or its effect is exactly that of one call of the store, and it
  -- is answered with 200 and counted as `ok`, or with 404 or more and counted as `error`.
  pub serve_action-IsAnswered :
      (request : ActionRequest) (clock : Clock) (s : Store R)
      → IsAnswered clock s (serve_action (memory_gateway scenarios client) request clock s)
  unfolding serve_action handle_rollback handle_verify
  serve_action-IsAnswered (post_rollback (err e)) clock s = refused refl refl refl
  serve_action-IsAnswered (post_rollback (ok req)) clock s =
      let asked : RollbackRequest = record req {
        playbook_key = resolve_playbook_key req.playbook_key;
      } in
      guard-IsAnswered (lacks_rollback_fields req) _ clock s _ (
        answer-IsAnswered rollback_payload (roll_back asked) clock s
          (rollback scenarios client asked clock s).1 (rollback scenarios client asked clock s).0
          (unfold execute_call in refl))
  serve_action-IsAnswered (post_verify (err e)) clock s = refused refl refl refl
  serve_action-IsAnswered (post_verify (ok req)) clock s =
      let asked : VerifyRequest = record req {
        playbook_key = resolve_playbook_key req.playbook_key;
      } in
      guard-IsAnswered
        (req.incident_id == "" || req.service_name == "" || is_missing req.incident_context) _ clock
        s _
        (answer-IsAnswered verify_payload (verify_recovery asked) clock s
          (verify scenarios asked s).1 (verify scenarios asked s).0 (unfold execute_call in refl))
