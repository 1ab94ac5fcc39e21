-- ===== src/Gateway/Runs.antt =====
-- Runs of `Rollback` and `Verify` (internal/opsgateway/store.go) keep the store well formed.
use graph_ops.Base.{
  ◌+◌, ◌^◌, ◌≤◌, ◌<◌, String, ◌≡◌, refl, inl, inr, Option, none, some, List, [], ◌∷◌, Bool, true,
  false, arith, length, Bool-cases,
}
use graph_ops.Base.Int.{next_u64-le}
use graph_ops.Base.Map.{Map, get}
use graph_ops.Base.Value.{Clock}
use graph_ops.Gateway.Types.{ActionReceipt, ScenarioData}
use graph_ops.Gateway.Requests.{RollbackRequest, VerifyRequest}
use graph_ops.Gateway.Redis.{RedisClient, resolve_playbook_key}
use graph_ops.Gateway.Store.{
  Store, new_store, execute_rollback, keep_receipt, replay_receipt, when_taken, rollback_scenario,
  rollback_found, rollback, acquire, mark_receipt, mark_key, mark_verified, is_rolled_back,
  report_verification, verify_scenario, verify,
}
use graph_ops.Gateway.Receipts.{Call, roll_back, verify_recovery, execute_call, run_calls}
use graph_ops.Gateway.Validity.{
  IsValid, new_store-IsValid, mark_receipt-IsValid, execute_rollback-IsValid,
}

module _ {R : Type 0} where
  -- The validity of a store is not about its Redis server nor its metrics.
  abbrev SameReceipts : Store R → Store R → Type 0
  SameReceipts s t = s ≡ record t { redis = s.redis; samples = s.samples }

  IsValid-same : (s t : Store R) → SameReceipts s t → IsValid t → IsValid s
  IsValid-same s t e v = rw e (record {
    issued = v.issued;
    distinct = v.distinct;
    pointed = v.pointed;
    flagged = v.flagged;
  })

  mark_verified-IsValid :
      (status id : String) (s : Store R) → IsValid s → IsValid (mark_verified status id s)
  unfolding mark_verified
  mark_verified-IsValid status id s v = go (get s.receipt_key_by_inc id)
    where
      go : (found : Option String) → IsValid (mark_key status found s)
      go none = unfold mark_key in v
      go (some key) =
          unfold mark_key in mark_receipt-IsValid status key (get s.receipts_by_key key) s refl v

  verify_scenario-IsValid :
      (found : Option ScenarioData) (req : VerifyRequest) (s : Store R)
      → IsValid s
      → IsValid (verify_scenario found req s).1
  unfolding verify_scenario report_verification
  verify_scenario-IsValid none req s v = v
  verify_scenario-IsValid (some d) req s v = elim (Bool-cases (is_rolled_back req.incident_id s)) [
    | inl done ↦
        let marked = mark_verified d.verification_after.status req.incident_id s in
        rw done (
          IsValid-same _ marked refl
            (mark_verified-IsValid d.verification_after.status req.incident_id s v))
    | inr pending ↦ rw pending (IsValid-same _ s refl v)
  ]

  module _ (client : Option (RedisClient R)) (req : RollbackRequest) (clock : Clock) where
    when_taken-IsValid :
        (taken : Bool) (found : Option ActionReceipt) (d : ScenarioData) (s : Store R)
        → s.receipt_seq + 1 < 2 ^ 64
        → IsValid s
        → IsValid (when_taken taken found client req d clock s).1
    unfolding when_taken
    when_taken-IsValid true (some receipt) d s room v =
        unfold replay_receipt in IsValid-same _ s refl v
    when_taken-IsValid true none d s room v = execute_rollback-IsValid client req d clock s room v
    when_taken-IsValid false found d s room v = execute_rollback-IsValid client req d clock s room v

    rollback_found-IsValid :
        (found : Option ActionReceipt) (scenario : Option ScenarioData) (s : Store R)
        → s.receipt_seq + 1 < 2 ^ 64
        → IsValid s
        → IsValid (rollback_found found scenario client req clock s).1
    unfolding rollback_found
    rollback_found-IsValid (some receipt) scenario s room v =
        unfold replay_receipt in IsValid-same _ s refl v
    rollback_found-IsValid none none s room v = unfold rollback_scenario in IsValid-same _ s refl v
    rollback_found-IsValid none (some d) s room v =
        unfold rollback_scenario in
        when_taken-IsValid (acquire client req s.redis).0
          (get s.receipts_by_key req.idempotency_key) d
          (record s { redis = (acquire client req s.redis).1 }) room (IsValid-same _ s refl v)

module _ {R : Type 0} (scenarios : Map ScenarioData) (client : Option (RedisClient R)) where
  execute_call-IsValid :
      (c : Call) (clock : Clock) (s : Store R)
      → s.receipt_seq + 1 < 2 ^ 64
      → IsValid s
      → IsValid (execute_call scenarios client c clock s)
  unfolding execute_call rollback verify
  execute_call-IsValid (roll_back req) clock s room v =
      rollback_found-IsValid client req clock (get s.receipts_by_key req.idempotency_key)
        (get scenarios (resolve_playbook_key req.playbook_key)) s room v
  execute_call-IsValid (verify_recovery req) clock s room v =
      verify_scenario-IsValid (get scenarios (resolve_playbook_key req.playbook_key)) req s v

  -- A call uses up at most one receipt number.
  execute_call_seq :
      (c : Call) (clock : Clock) (s : Store R)
      → (execute_call scenarios client c clock s).receipt_seq ≤ s.receipt_seq + 1
  unfolding execute_call
  execute_call_seq (roll_back req) clock s =
      unfold rollback rollback_found rollback_scenario when_taken execute_rollback keep_receipt
        replay_receipt in
      ground (arith, next_u64-le s.receipt_seq)
  execute_call_seq (verify_recovery req) clock s =
      unfold verify verify_scenario report_verification mark_verified mark_key mark_receipt in
      ground arith

  run_calls-IsValid_from :
      (cs : List (Call × Clock)) (s : Store R)
      → s.receipt_seq + length cs < 2 ^ 64
      → IsValid s
      → IsValid (run_calls scenarios client cs s)
  unfolding run_calls
  run_calls-IsValid_from [] s room v = v
  run_calls-IsValid_from ((c, clock) ∷ cs) s room v =
      run_calls-IsValid_from cs (execute_call scenarios client c clock s)
        (omega (arith, execute_call_seq c clock s)) (execute_call-IsValid c clock s (omega arith) v)

-- After any run of fewer than 2^64 calls from the empty store, with or without Redis: each receipt
-- stands under its own idempotency key with a number that was given out, no two keys share a
-- receipt id, an incident that is flagged as rolled back has a key, and the key has a receipt.
pub run_calls-IsValid :
    {R : Type 0} (scenarios : Map ScenarioData) (client : Option (RedisClient R)) (redis : R)
    (cs : List (Call × Clock))
    → length cs < 2 ^ 64
    → IsValid (run_calls scenarios client cs (new_store redis))
run_calls-IsValid scenarios client redis cs few =
    run_calls-IsValid_from scenarios client cs (new_store redis) (omega arith)
      (new_store-IsValid redis)
