-- ===== src/Gateway/Idempotency.antt =====
-- Repeating a rollback, and verifying after it (internal/opsgateway/store.go).
use graph_ops.Base.{
  String, ◌≡◌, refl, ap, ◌∙◌, Option, none, some, List, [], ◌∷◌, Bool, true, false,
}
use graph_ops.Base.Map.{Map, get, get-put_self}
use graph_ops.Base.Result.{ok, ok-injective}
use graph_ops.Base.Value.{Clock}
use graph_ops.Gateway.Types.{ActionReceipt, RollbackResponse, ScenarioData}
use graph_ops.Gateway.Requests.{RollbackRequest, VerifyRequest}
use graph_ops.Gateway.Redis.{RedisClient, resolve_playbook_key}
use graph_ops.Gateway.Telemetry.{rollback_requests}
use graph_ops.Gateway.Store.{
  Store, emit, execute_rollback, replay_receipt, when_taken, rollback_scenario, rollback_found,
  keep_receipt, rollback, acquire, mark_receipt, mark_key, mark_verified, report_verification,
  verify_scenario, verify, is_rolled_back,
}
use graph_ops.Gateway.Receipts.{SameReceipt, Call, run_calls, run_calls-Holds}

-- A rollback that went through: its receipt is kept, and its incident points to it.
pub record IsKept {R : Type 0} (req : RollbackRequest) (receipt : ActionReceipt) (s : Store R)
    : Type 0 where
  pub stored : get s.receipts_by_key req.idempotency_key ≡ some receipt
  pub pointed : get s.receipt_key_by_inc req.incident_id ≡ some req.idempotency_key
  pub flagged : get s.rolled_back_by_inc req.incident_id ≡ some true

module _ {R : Type 0} where
  execute_rollback-IsKept :
      (client : Option (RedisClient R)) (req : RollbackRequest) (d : ScenarioData) (clock : Clock)
      (s : Store R) (response : RollbackResponse)
      → (execute_rollback client req d clock s).0 ≡ ok response
      → IsKept req response.receipt (execute_rollback client req d clock s).1
  unfolding execute_rollback keep_receipt
  execute_rollback-IsKept client req d clock s response h = record {
    stored =
        get-put_self s.receipts_by_key req.idempotency_key _
        ∙ ap {B = Option ActionReceipt} (λ (r : RollbackResponse). some r.receipt) (ok-injective h);
    pointed = get-put_self s.receipt_key_by_inc req.incident_id req.idempotency_key;
    flagged = get-put_self s.rolled_back_by_inc req.incident_id true;
  }

  when_taken-IsKept :
      (taken : Bool) (client : Option (RedisClient R)) (req : RollbackRequest) (d : ScenarioData)
      (clock : Clock) (s : Store R) (response : RollbackResponse)
      → (when_taken taken none client req d clock s).0 ≡ ok response
      → IsKept req response.receipt (when_taken taken none client req d clock s).1
  unfolding when_taken
  when_taken-IsKept true client req d clock s response h =
      execute_rollback-IsKept client req d clock s response h
  when_taken-IsKept false client req d clock s response h =
      execute_rollback-IsKept client req d clock s response h

  rollback_scenario-IsKept :
      (scenario : Option ScenarioData) (client : Option (RedisClient R)) (req : RollbackRequest)
      (clock : Clock) (s : Store R) (response : RollbackResponse)
      → get s.receipts_by_key req.idempotency_key ≡ none
      → (rollback_scenario scenario client req clock s).0 ≡ ok response
      → IsKept req response.receipt (rollback_scenario scenario client req clock s).1
  unfolding rollback_scenario
  rollback_scenario-IsKept none client req clock s response fresh h = cc
  rollback_scenario-IsKept (some d) client req clock s response fresh h = rw fresh (
      when_taken-IsKept (acquire client req s.redis).0 client req d clock
        (record s { redis = (acquire client req s.redis).1 }) response (rw fresh at h))

  -- Whether it went through now or before, a rollback that succeeds leaves its receipt in the store.
  rollback_found-stored :
      (found : Option ActionReceipt) (scenario : Option ScenarioData)
      (client : Option (RedisClient R)) (req : RollbackRequest) (clock : Clock) (s : Store R)
      (response : RollbackResponse)
      → get s.receipts_by_key req.idempotency_key ≡ found
      → (rollback_found found scenario client req clock s).0 ≡ ok response
      → get (rollback_found found scenario client req clock s).1.receipts_by_key req.idempotency_key
        ≡ some response.receipt
  unfolding rollback_found
  rollback_found-stored (some receipt) scenario client req clock s response e h =
      unfold replay_receipt in
      (e
        ∙ ap {B = Option ActionReceipt} (λ (r : RollbackResponse). some r.receipt) (ok-injective h))
  rollback_found-stored none scenario client req clock s response e h =
      (rollback_scenario-IsKept scenario client req clock s response e h).stored

  rollback_again :
      (scenarios : Map ScenarioData) (client : Option (RedisClient R)) (req : RollbackRequest)
      (clock : Clock) (s : Store R) (receipt : ActionReceipt)
      → get s.receipts_by_key req.idempotency_key ≡ some receipt
      → rollback scenarios client req clock s
        ≡ (ok (record { receipt = receipt }), emit (rollback_requests "idempotent" ∷ []) s)
  unfolding rollback
  rollback_again scenarios client req clock s receipt h =
      rw h (unfold rollback_found replay_receipt in refl)

  rollback-IsKept :
      (scenarios : Map ScenarioData) (client : Option (RedisClient R)) (req : RollbackRequest)
      (clock : Clock) (s : Store R) (response : RollbackResponse)
      → get s.receipts_by_key req.idempotency_key ≡ none
      → (rollback scenarios client req clock s).0 ≡ ok response
      → IsKept req response.receipt (rollback scenarios client req clock s).1
  unfolding rollback rollback_found
  rollback-IsKept scenarios client req clock s response fresh h = rw fresh (
      rollback_scenario-IsKept (get scenarios (resolve_playbook_key req.playbook_key)) client req
        clock s response fresh (rw fresh at h))

  mark_verified-IsKept :
      (status : String) (req : RollbackRequest) (receipt : ActionReceipt) (s : Store R)
      → IsKept req receipt s
      → get (mark_verified status req.incident_id s).receipts_by_key req.idempotency_key
        ≡ some (record receipt { verification_status = status })
  unfolding mark_verified
  mark_verified-IsKept status req receipt s k = rw k.pointed (
      unfold mark_key in
      rw k.stored (unfold mark_receipt in get-put_self s.receipts_by_key req.idempotency_key _))

  verify-IsKept :
      (check : VerifyRequest) (d : ScenarioData) (req : RollbackRequest) (receipt : ActionReceipt)
      (s : Store R)
      → IsKept req receipt s
      → check.incident_id ≡ req.incident_id
      → ((verify_scenario (some d) check s).0 ≡ ok d.verification_after)
        × (get (verify_scenario (some d) check s).1.receipts_by_key req.idempotency_key
            ≡ some (record receipt { verification_status = d.verification_after.status }))
  unfolding verify_scenario
  verify-IsKept check d req receipt s k same =
      let done : is_rolled_back check.incident_id s ≡ true =
        unfold is_rolled_back in rw (same, k.flagged) in
      rw (done, same)
        (unfold report_verification in
          (refl, mark_verified-IsKept d.verification_after.status req receipt s k))

-- Once a rollback has succeeded, any later rollback with the same idempotency key, whatever else it
-- asks for and whatever calls came in between, returns that receipt again, up to the verification
-- status, and changes nothing but the count of idempotent requests.
pub rollback_idempotent :
    {R : Type 0} (scenarios : Map ScenarioData) (client : Option (RedisClient R))
    (req again : RollbackRequest) (clock clock' : Clock) (cs : List (Call × Clock)) (s : Store R)
    (response : RollbackResponse)
    → (rollback scenarios client req clock s).0 ≡ ok response
    → again.idempotency_key ≡ req.idempotency_key
    → let later = run_calls scenarios client cs (rollback scenarios client req clock s).1 in
      (receipt : ActionReceipt) × (rollback scenarios client again clock' later
        ≡ (ok (record { receipt = receipt }), emit (rollback_requests "idempotent" ∷ []) later))
      × SameReceipt receipt response.receipt
rollback_idempotent scenarios client req again clock clock' cs s response h same =
    let first = rollback scenarios client req clock s in
    let stored : get first.1.receipts_by_key req.idempotency_key ≡ some response.receipt =
      unfold rollback in
      rollback_found-stored (get s.receipts_by_key req.idempotency_key)
        (get scenarios (resolve_playbook_key req.playbook_key)) client req clock s response refl
        h in
    let (receipt, there, agree) =
      run_calls-Holds scenarios client cs req.idempotency_key response.receipt first.1 stored in
    (
      receipt,
      rollback_again scenarios client again clock' (run_calls scenarios client cs first.1) receipt
          (ap (get (run_calls scenarios client cs first.1).receipts_by_key) same ∙ there),
      agree,
    )

-- After the first rollback under an idempotency key, a verification of the incident returns the
-- scenario's result for after the rollback, and records its status in that rollback's receipt.
pub verify-rollback :
    {R : Type 0} (scenarios : Map ScenarioData) (client : Option (RedisClient R))
    (req : RollbackRequest) (check : VerifyRequest) (clock : Clock) (s : Store R)
    (response : RollbackResponse) (d : ScenarioData)
    → get s.receipts_by_key req.idempotency_key ≡ none
    → (rollback scenarios client req clock s).0 ≡ ok response
    → check.incident_id ≡ req.incident_id
    → get scenarios (resolve_playbook_key check.playbook_key) ≡ some d
    → let after_rollback = (rollback scenarios client req clock s).1 in
      ((verify scenarios check after_rollback).0 ≡ ok d.verification_after)
      × (get (verify scenarios check after_rollback).1.receipts_by_key req.idempotency_key
          ≡ some (record response.receipt { verification_status = d.verification_after.status }))
unfolding verify
verify-rollback scenarios client req check clock s response d fresh h same known =
    let s' = (rollback scenarios client req clock s).1 in
    rw known (
      verify-IsKept check d req response.receipt s'
        (rollback-IsKept scenarios client req clock s response fresh h) same)
