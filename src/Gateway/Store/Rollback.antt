-- ===== src/Gateway/Store/Rollback.antt =====
-- internal/opsgateway/store.go: `Rollback`. `scenarios` is the table `scenarioData`; `client` is
-- the Redis client, if the gateway has one.
use Prim.Native.String.{◌++◌ as concat}
use graph_ops.Base.{ℕ, String, Option, none, some, Bool, true, false, [], ◌∷◌}
use graph_ops.Base.Decimal.{padded}
use graph_ops.Base.Int.{next_u64}
use graph_ops.Base.Map.{Map, get, put}
use graph_ops.Base.Result.{Result, ok, err}
use graph_ops.Base.Value.{Clock}
use graph_ops.Gateway.Types.{ActionReceipt, RollbackResponse, ScenarioData}
use graph_ops.Gateway.Requests.{RollbackRequest}
use graph_ops.Gateway.Redis.{
  RedisClient, rollback_idempotency_ttl, rollback_redis_key, resolve_playbook_key, first_non_empty,
}
use graph_ops.Gateway.Telemetry.{rollback_requests}
use graph_ops.Gateway.Store.State.{Store, Outcome, unknown_scenario, emit}

-- `fmt.Sprintf("receipt-%06d", seq)`
unfoldable pub receipt_id : ℕ → String
receipt_id seq = concat "receipt" (concat "-" (padded 6 seq))

unfoldable pub new_receipt : RollbackRequest → ScenarioData → ℕ → Clock → ActionReceipt
new_receipt req scenario seq clock = record {
  receipt_id = receipt_id seq;
  idempotency_key = req.idempotency_key;
  action_type = "rollback";
  target_service = req.target_service;
  executor = req.requested_by;
  from_revision = first_non_empty (req.current_revision ∷ scenario.current_revision ∷ []);
  to_revision = first_non_empty (req.target_revision ∷ scenario.target_revision ∷ []);
  status = "executed";
  status_detail =
      "Mock rollback adapter executed the revert workflow and returned a deterministic receipt.";
  executed_at = clock 0;
  verification_status = "";
}

-- `err == nil && !locked`
abbrev is_taken : Result String Bool → Bool
is_taken (ok false) = true
is_taken (ok true) = false
is_taken (err e) = false

module _ {R : Type 0} where
  -- `SetNX`: whether another holder has the key.
  unfoldable pub acquire : Option (RedisClient R) → RollbackRequest → R → Bool × R
  acquire none req redis = (false, redis)
  acquire (some client) req redis =
      let (result, redis') =
        client.set_nx (rollback_redis_key req) "pending" rollback_idempotency_ttl redis in
      (is_taken result, redis')

  -- `Set`, and `Del` if that fails.
  after_set : RedisClient R → RollbackRequest → Result String (Unit {0}) × R → R
  after_set client req (ok _, redis) = redis
  after_set client req (err _, redis) = (client.del (rollback_redis_key req) redis).1

  unfoldable pub publish : Option (RedisClient R) → RollbackRequest → String → R → R
  unfolding after_set
  publish none req id redis = redis
  publish (some client) req id redis =
      after_set client req (client.set (rollback_redis_key req) id rollback_idempotency_ttl redis)

  -- The three writes to the maps of the store.
  unfoldable pub keep_receipt : RollbackRequest → ActionReceipt → ℕ → Store R → Store R
  keep_receipt req receipt seq s = record s {
    receipt_seq = seq;
    receipts_by_key = put s.receipts_by_key req.idempotency_key receipt;
    receipt_key_by_inc = put s.receipt_key_by_inc req.incident_id req.idempotency_key;
    rolled_back_by_inc = put s.rolled_back_by_inc req.incident_id true;
  }

  unfoldable pub execute_rollback :
      Option (RedisClient R)
      → RollbackRequest
      → ScenarioData
      → Clock
      → Store R
      → Outcome RollbackResponse × Store R
  execute_rollback client req scenario clock s =
      let seq = next_u64 s.receipt_seq in
      let receipt = new_receipt req scenario seq clock in
      let kept = keep_receipt req receipt seq s in
      let published = record kept { redis = publish client req receipt.receipt_id s.redis } in
      (ok (record { receipt = receipt }), emit (rollback_requests "executed" ∷ []) published)

  unfoldable pub replay_receipt : ActionReceipt → Store R → Outcome RollbackResponse × Store R
  replay_receipt receipt s =
      (ok (record { receipt = receipt }), emit (rollback_requests "idempotent" ∷ []) s)

  -- The key was taken: a receipt that is there by now is returned, else the rollback goes on.
  unfoldable pub when_taken :
      Bool
      → Option ActionReceipt
      → Option (RedisClient R)
      → RollbackRequest
      → ScenarioData
      → Clock
      → Store R
      → Outcome RollbackResponse × Store R
  when_taken true (some receipt) client req scenario clock s = replay_receipt receipt s
  when_taken true none client req scenario clock s = execute_rollback client req scenario clock s
  when_taken false found client req scenario clock s = execute_rollback client req scenario clock s

  unfoldable pub rollback_scenario :
      Option ScenarioData
      → Option (RedisClient R)
      → RollbackRequest
      → Clock
      → Store R
      → Outcome RollbackResponse × Store R
  rollback_scenario none client req clock s =
      (err unknown_scenario, emit (rollback_requests "scenario_not_found" ∷ []) s)
  rollback_scenario (some scenario) client req clock s =
      let (taken, redis) = acquire client req s.redis in
      when_taken taken (get s.receipts_by_key req.idempotency_key) client req scenario clock
        (record s { redis = redis })

  unfoldable pub rollback_found :
      Option ActionReceipt
      → Option ScenarioData
      → Option (RedisClient R)
      → RollbackRequest
      → Clock
      → Store R
      → Outcome RollbackResponse × Store R
  rollback_found (some receipt) scenario client req clock s = replay_receipt receipt s
  rollback_found none scenario client req clock s = rollback_scenario scenario client req clock s

  unfoldable pub rollback :
      Map ScenarioData
      → Option (RedisClient R)
      → RollbackRequest
      → Clock
      → Store R
      → Outcome RollbackResponse × Store R
  rollback scenarios client req clock s =
      rollback_found (get s.receipts_by_key req.idempotency_key)
        (get scenarios (resolve_playbook_key req.playbook_key)) client req clock s
