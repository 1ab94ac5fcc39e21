-- ===== src/Gateway/Receipts.antt =====
-- Receipts are for good (internal/opsgateway/store.go): a receipt stays under its idempotency key,
-- and only its verification status changes.
use graph_ops.Base.{
  String, ◌==◌, ◌≡◌, ◌≢◌, refl, sym, ap, ◌∙◌, inl, inr, Option, none, some, List, [], ◌∷◌, eq_iff,
  Bool-cases, Bool, true, false,
}
use graph_ops.Base.Map.{Map, get, get-put, get-put_ne}
use graph_ops.Base.Value.{Clock}
use graph_ops.Gateway.Types.{ActionReceipt, ScenarioData}
use graph_ops.Gateway.Requests.{RollbackRequest, VerifyRequest}
use graph_ops.Gateway.Redis.{RedisClient, resolve_playbook_key}
use graph_ops.Gateway.Store.{
  Store, execute_rollback, replay_receipt, when_taken, rollback_scenario, rollback_found,
  keep_receipt, rollback, acquire, mark_receipt, mark_key, mark_verified, report_verification,
  verify_scenario, verify, is_rolled_back,
}

-- The same receipt but for the verification status.
abbrev pub unverified : ActionReceipt → ActionReceipt
unverified receipt = record receipt { verification_status = "" }

abbrev pub SameReceipt : ActionReceipt → ActionReceipt → Type 0
SameReceipt a b = unverified a ≡ unverified b

pub data Call : Type 0 where
  roll_back : RollbackRequest → Call
  verify_recovery : VerifyRequest → Call

module _ {R : Type 0} (scenarios : Map ScenarioData) (client : Option (RedisClient R)) where
  unfoldable pub execute_call : Call → Clock → Store R → Store R
  execute_call (roll_back req) clock s = (rollback scenarios client req clock s).1
  execute_call (verify_recovery req) clock s = (verify scenarios req s).1

  unfoldable pub run_calls : List (Call × Clock) → Store R → Store R
  run_calls [] s = s
  run_calls ((c, clock) ∷ rest) s = run_calls rest (execute_call c clock s)

some_inj : {a b : ActionReceipt} → some a ≡ some b → a ≡ b
some_inj h = cc

module _ {R : Type 0} where
  -- `s'` still has the receipt `r` under `key`.
  abbrev pub Holds : String → ActionReceipt → Store R → Type 0
  Holds key r s = (r' : ActionReceipt) × (get s.receipts_by_key key ≡ some r') × SameReceipt r' r

  mark_receipt-Holds :
      (status k key : String) (found : Option ActionReceipt) (r : ActionReceipt) (s : Store R)
      → get s.receipts_by_key k ≡ found
      → get s.receipts_by_key key ≡ some r
      → Holds key r (mark_receipt status k found s)
  unfolding mark_receipt
  mark_receipt-Holds status k key none r s e h = (r, h, refl)
  mark_receipt-Holds status k key (some old) r s e h =
      let marked = record old { verification_status = status } in
      elim (Bool-cases (k == key)) [
        | inl same ↦
            let agree : k ≡ key = (eq_iff k key).0 same in
            (
              marked,
              rw (get-put, same) refl,
              ap unverified (some_inj (sym e ∙ (ap (get s.receipts_by_key) agree ∙ h))),
            )
        | inr other ↦ (r, rw (get-put, other) h, refl)
      ]

  mark_verified-Holds :
      (status id key : String) (r : ActionReceipt) (s : Store R)
      → get s.receipts_by_key key ≡ some r
      → Holds key r (mark_verified status id s)
  unfolding mark_verified
  mark_verified-Holds status id key r s h = go (get s.receipt_key_by_inc id)
    where
      go : (found : Option String) → Holds key r (mark_key status found s)
      go none = unfold mark_key in (r, h, refl)
      go (some k) =
          unfold mark_key in mark_receipt-Holds status k key (get s.receipts_by_key k) r s refl h

  verify-Holds :
      (found : Option ScenarioData) (req : VerifyRequest) (key : String) (r : ActionReceipt)
      (s : Store R)
      → get s.receipts_by_key key ≡ some r
      → Holds key r (verify_scenario found req s).1
  unfolding verify_scenario report_verification
  verify-Holds none req key r s h = (r, h, refl)
  verify-Holds (some d) req key r s h = elim (Bool-cases (is_rolled_back req.incident_id s)) [
    | inl done ↦ rw done (mark_verified-Holds d.verification_after.status req.incident_id key r s h)
    | inr pending ↦ rw pending (r, h, refl)
  ]

  execute_rollback-Holds :
      (client : Option (RedisClient R)) (req : RollbackRequest) (d : ScenarioData) (clock : Clock)
      (key : String) (r : ActionReceipt) (s : Store R)
      → req.idempotency_key ≢ key
      → get s.receipts_by_key key ≡ some r
      → Holds key r (execute_rollback client req d clock s).1
  unfolding execute_rollback keep_receipt
  execute_rollback-Holds client req d clock key r s ne h =
      (r, get-put_ne s.receipts_by_key req.idempotency_key key _ ne ∙ h, refl)

  when_taken-Holds :
      (taken : Bool) (found : Option ActionReceipt) (client : Option (RedisClient R))
      (req : RollbackRequest) (d : ScenarioData) (clock : Clock) (key : String) (r : ActionReceipt)
      (s : Store R)
      → req.idempotency_key ≢ key
      → get s.receipts_by_key key ≡ some r
      → Holds key r (when_taken taken found client req d clock s).1
  unfolding when_taken
  when_taken-Holds true (some receipt) client req d clock key r s ne h =
      unfold replay_receipt in (r, h, refl)
  when_taken-Holds true none client req d clock key r s ne h =
      execute_rollback-Holds client req d clock key r s ne h
  when_taken-Holds false found client req d clock key r s ne h =
      execute_rollback-Holds client req d clock key r s ne h

  rollback_found-Holds :
      (found : Option ActionReceipt) (scenario : Option ScenarioData)
      (client : Option (RedisClient R)) (req : RollbackRequest) (clock : Clock) (key : String)
      (r : ActionReceipt) (s : Store R)
      → get s.receipts_by_key req.idempotency_key ≡ found
      → get s.receipts_by_key key ≡ some r
      → Holds key r (rollback_found found scenario client req clock s).1
  unfolding rollback_found
  rollback_found-Holds (some receipt) scenario client req clock key r s e h =
      unfold replay_receipt in (r, h, refl)
  rollback_found-Holds none none client req clock key r s e h =
      unfold rollback_scenario in (r, h, refl)
  rollback_found-Holds none (some d) client req clock key r s e h =
      unfold rollback_scenario in
      when_taken-Holds (acquire client req s.redis).0 (get s.receipts_by_key req.idempotency_key)
        client req d clock key r (record s { redis = (acquire client req s.redis).1 })
        (λ same. cc (e, h, ap (get s.receipts_by_key) same)) h

module _ {R : Type 0} (scenarios : Map ScenarioData) (client : Option (RedisClient R)) where
  execute_call-Holds :
      (c : Call) (clock : Clock) (key : String) (r : ActionReceipt) (s : Store R)
      → get s.receipts_by_key key ≡ some r
      → Holds key r (execute_call scenarios client c clock s)
  unfolding execute_call rollback verify
  execute_call-Holds (roll_back req) clock key r s h =
      rollback_found-Holds (get s.receipts_by_key req.idempotency_key)
        (get scenarios (resolve_playbook_key req.playbook_key)) client req clock key r s refl h
  execute_call-Holds (verify_recovery req) clock key r s h =
      verify-Holds (get scenarios (resolve_playbook_key req.playbook_key)) req key r s h

  -- A receipt stays for good: after any calls there is still a receipt under its idempotency key, the
  -- same one up to the verification status.
  pub run_calls-Holds :
      (cs : List (Call × Clock)) (key : String) (r : ActionReceipt) (s : Store R)
      → get s.receipts_by_key key ≡ some r
      → Holds key r (run_calls scenarios client cs s)
  unfolding run_calls
  run_calls-Holds [] key r s h = (r, h, refl)
  run_calls-Holds ((c, clock) ∷ cs) key r s h =
      let (r', there, same) = execute_call-Holds c clock key r s h in
      let (last, found, agree) =
        run_calls-Holds cs key r' (execute_call scenarios client c clock s) there in
      (last, found, agree ∙ same)
