-- ===== src/Gateway/Mysql/Store.antt =====
-- internal/opsgateway/mysql_store.go: `Rollback` and `Verify`. `scenarios` is the table
-- `scenarioData`; `client` is the Redis client, if the gateway has one.
use Prim.Native.String.{◌++◌ as concat}
use graph_ops.Base.{
  ℕ, zero, suc, String, Option, none, some, Bool, true, false, List, [], ◌∷◌, ◌++◌,
}
use graph_ops.Base.Action.{Action}
use graph_ops.Base.Decimal.{signed_decimal}
use graph_ops.Base.Map.{Map, get}
use graph_ops.Base.Result.{Result, ok, err}
use graph_ops.Base.Value.{Time, Clock, unix_nano}
use graph_ops.Gateway.Types.{ActionReceipt, RollbackResponse, ScenarioData, VerificationResult}
use graph_ops.Gateway.Requests.{RollbackRequest, VerifyRequest}
use graph_ops.Gateway.Redis.{RedisClient, rollback_redis_key, resolve_playbook_key, first_non_empty}
use graph_ops.Gateway.Telemetry.{
  Sample, rollback_requests, recovery_verification, verification_snapshot,
}
use graph_ops.Gateway.Store.{GatewayError, Outcome, unknown_scenario, failed, acquire, publish}
use graph_ops.Gateway.Mysql.Database.{ReceiptRow, ReceiptDatabase, MysqlStore}

-- `fmt.Sprintf("receipt-%d", time.Now().UTC().UnixNano())`
unfoldable pub receipt_id : Time → String
receipt_id now = concat "receipt-" (signed_decimal (unix_nano now))

unfoldable pub new_receipt : RollbackRequest → ScenarioData → Clock → ActionReceipt
unfolding receipt_id
new_receipt req scenario clock = record {
  receipt_id = receipt_id (clock 0);
  idempotency_key = req.idempotency_key;
  action_type = "rollback";
  target_service = req.target_service;
  executor = req.requested_by;
  from_revision = first_non_empty (req.current_revision ∷ scenario.current_revision ∷ []);
  to_revision = first_non_empty (req.target_revision ∷ scenario.target_revision ∷ []);
  status = "executed";
  status_detail = "Mock rollback adapter executed the revert workflow and persisted the receipt.";
  executed_at = clock 1;
  verification_status = "";
}

unfoldable pub new_row : RollbackRequest → ScenarioData → Clock → ReceiptRow
unfolding new_receipt
new_row req scenario clock = record {
  incident_id = req.incident_id;
  playbook_key = resolve_playbook_key req.playbook_key;
  receipt = new_receipt req scenario clock;
}

-- A method of the store.
abbrev pub Step : Type 0 → Type 0 → Type 0 → Type 0
Step D R A = MysqlStore D R → Outcome A × MysqlStore D R

module _ {D R : Type 0} where
  abbrev pub counted : List Sample → MysqlStore D R → MysqlStore D R
  counted new s = record s { samples = s.samples ++ new }

  -- A call of the database.
  abbrev pub query :
      {A : Type 0} → Action String D A → MysqlStore D R → Result String A × MysqlStore D R
  query m s = ((m s.database).0, record s { database = (m s.database).1 })

  -- `Del`, whose error is ignored.
  unfoldable pub release :
      Option (RedisClient R) → RollbackRequest → MysqlStore D R → MysqlStore D R
  release none req s = s
  release (some client) req s = record s { redis = (client.del (rollback_redis_key req) s.redis).1 }

  unfoldable pub refuse :
      Option (RedisClient R) → RollbackRequest → GatewayError → String → Step D R RollbackResponse
  unfolding release
  refuse client req e result s =
      (err e, counted (rollback_requests result ∷ []) (release client req s))

  unfoldable pub replay : ActionReceipt → Step D R RollbackResponse
  replay receipt s =
      (ok (record { receipt = receipt }), counted (rollback_requests "idempotent" ∷ []) s)

  unfoldable pub after_insert :
      Option (RedisClient R)
      → RollbackRequest
      → ActionReceipt
      → Result String (Unit {0}) × MysqlStore D R
      → Outcome RollbackResponse × MysqlStore D R
  unfolding refuse
  after_insert client req receipt (err e, s) = refuse client req (failed e) "db_error" s
  after_insert client req receipt (ok _, s) = (
    ok (record { receipt = receipt }),
    counted (rollback_requests "executed" ∷ [])
        (record s { redis = publish client req receipt.receipt_id s.redis }),
  )

  -- `recordVerificationStatus` and `recordVerificationSnapshot`.
  unfoldable pub report : VerifyRequest → VerificationResult → Step D R VerificationResult
  report req result s = (
    ok result,
    counted (recovery_verification result.status ∷ verification_snapshot req.service_name result) s,
  )

abbrev get_receipt_by_key :
    {D R : Type 0}
    → ReceiptDatabase D
    → String
    → MysqlStore D R
    → Result String (Option ActionReceipt) × MysqlStore D R
get_receipt_by_key db key s = query (db.select_receipt key) s

module _ {D R : Type 0} (db : ReceiptDatabase D) (scenarios : Map ScenarioData)
    (client : Option (RedisClient R)) where
  unfoldable pub insert_scenario :
      Option ScenarioData → RollbackRequest → Clock → Step D R RollbackResponse
  unfolding refuse after_insert new_row new_receipt
  insert_scenario none req clock s = refuse client req unknown_scenario "scenario_not_found" s
  insert_scenario (some scenario) req clock s =
      after_insert client req (new_receipt req scenario clock)
        (query (db.insert_receipt (new_row req scenario clock)) s)

  unfoldable pub after_lookup :
      RollbackRequest
      → Clock
      → Result String (Option ActionReceipt) × MysqlStore D R
      → Outcome RollbackResponse × MysqlStore D R
  unfolding refuse replay insert_scenario
  after_lookup req clock (err e, s) = refuse client req (failed e) "db_error" s
  after_lookup req clock (ok (some receipt), s) = replay receipt s
  after_lookup req clock (ok none, s) =
      insert_scenario (get scenarios (resolve_playbook_key req.playbook_key)) req clock s

  unfoldable pub look_up : RollbackRequest → Clock → Step D R RollbackResponse
  unfolding after_lookup
  look_up req clock s = after_lookup req clock (get_receipt_by_key db req.idempotency_key s)

  -- The key was taken: a receipt that is found is returned, else the rollback goes on, an error too.
  unfoldable pub after_early_lookup :
      RollbackRequest
      → Clock
      → Result String (Option ActionReceipt) × MysqlStore D R
      → Outcome RollbackResponse × MysqlStore D R
  unfolding replay look_up
  after_early_lookup req clock (ok (some receipt), s) = replay receipt s
  after_early_lookup req clock (ok none, s) = look_up req clock s
  after_early_lookup req clock (err e, s) = look_up req clock s

  unfoldable pub when_taken : Bool → RollbackRequest → Clock → Step D R RollbackResponse
  unfolding look_up after_early_lookup
  when_taken true req clock s =
      after_early_lookup req clock (get_receipt_by_key db req.idempotency_key s)
  when_taken false req clock s = look_up req clock s

  unfoldable pub rollback : RollbackRequest → Clock → Step D R RollbackResponse
  unfolding when_taken
  rollback req clock s =
      let (taken, redis) = acquire client req s.redis in
      when_taken taken req clock (record s { redis = redis })

module _ {D R : Type 0} (db : ReceiptDatabase D) (scenarios : Map ScenarioData) where
  unfoldable pub after_update :
      VerifyRequest
      → ScenarioData
      → Result String (Unit {0}) × MysqlStore D R
      → Outcome VerificationResult × MysqlStore D R
  unfolding report
  after_update req scenario (err e, s) = (err (failed e), s)
  after_update req scenario (ok _, s) = report req scenario.verification_after s

  unfoldable pub after_count :
      VerifyRequest
      → ScenarioData
      → Result String ℕ × MysqlStore D R
      → Outcome VerificationResult × MysqlStore D R
  unfolding report after_update
  after_count req scenario (err e, s) = (err (failed e), s)
  after_count req scenario (ok zero, s) = report req scenario.verification_before s
  after_count req scenario (ok (suc n), s) =
      after_update req scenario
        (query (db.set_verification_status scenario.verification_after.status req.incident_id) s)

  unfoldable pub verify_scenario : Option ScenarioData → VerifyRequest → Step D R VerificationResult
  unfolding after_count
  verify_scenario none req s = (err unknown_scenario, s)
  verify_scenario (some scenario) req s =
      after_count req scenario (query (db.count_rollbacks req.incident_id) s)

  unfoldable pub verify : VerifyRequest → Step D R VerificationResult
  unfolding verify_scenario
  verify req s = verify_scenario (get scenarios (resolve_playbook_key req.playbook_key)) req s
