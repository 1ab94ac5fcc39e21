-- ===== src/Gateway/Store/Verify.antt =====
-- internal/opsgateway/store.go: `Verify`. `scenarios` is the table `scenarioData`.
use graph_ops.Base.{String, Option, none, some, Bool, false, ◌∷◌, if◌then◌else◌}
use graph_ops.Base.Map.{Map, get, put}
use graph_ops.Base.Result.{ok, err}
use graph_ops.Gateway.Types.{ActionReceipt, ScenarioData, VerificationResult}
use graph_ops.Gateway.Requests.{VerifyRequest}
use graph_ops.Gateway.Redis.{resolve_playbook_key}
use graph_ops.Gateway.Telemetry.{recovery_verification, verification_snapshot}
use graph_ops.Gateway.Store.State.{Store, Outcome, unknown_scenario, emit}

abbrev or_false : Option Bool → Bool
or_false none = false
or_false (some b) = b

module _ {R : Type 0} where
  -- `s.rolledBackByInc[req.IncidentID]`: false where the key is missing.
  unfoldable pub is_rolled_back : String → Store R → Bool
  is_rolled_back id s = or_false (get s.rolled_back_by_inc id)

  unfoldable pub mark_receipt : String → String → Option ActionReceipt → Store R → Store R
  mark_receipt status key none s = s
  mark_receipt status key (some receipt) s = record s {
    receipts_by_key = put s.receipts_by_key key (record receipt { verification_status = status });
  }

  unfoldable pub mark_key : String → Option String → Store R → Store R
  mark_key status none s = s
  mark_key status (some key) s = mark_receipt status key (get s.receipts_by_key key) s

  -- Writes the status into the receipt that the incident's last rollback left.
  unfoldable pub mark_verified : String → String → Store R → Store R
  mark_verified status id s = mark_key status (get s.receipt_key_by_inc id) s

  unfoldable pub report_verification :
      VerifyRequest → VerificationResult → Store R → Outcome VerificationResult × Store R
  report_verification req result s = (
    ok result,
    emit (recovery_verification result.status ∷ verification_snapshot req.service_name result) s,
  )

  unfoldable pub verify_scenario :
      Option ScenarioData → VerifyRequest → Store R → Outcome VerificationResult × Store R
  verify_scenario none req s = (err unknown_scenario, s)
  verify_scenario (some scenario) req s =
      if is_rolled_back req.incident_id s
      then report_verification req scenario.verification_after
          (mark_verified scenario.verification_after.status req.incident_id s)
      else report_verification req scenario.verification_before s

  unfoldable pub verify :
      Map ScenarioData → VerifyRequest → Store R → Outcome VerificationResult × Store R
  verify scenarios req s =
      verify_scenario (get scenarios (resolve_playbook_key req.playbook_key)) req s
