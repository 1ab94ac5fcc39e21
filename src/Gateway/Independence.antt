-- ===== src/Gateway/Independence.antt =====
-- The Redis lock of `Rollback` (internal/opsgateway/store.go) decides nothing: whatever the server
-- answers, the store does what it does without one.
use graph_ops.Base.{◌≡◌, refl, Option, none, some, Bool, true, false}
use graph_ops.Base.Map.{Map, get}
use graph_ops.Base.Value.{Clock}
use graph_ops.Gateway.Types.{ActionReceipt, ScenarioData}
use graph_ops.Gateway.Requests.{RollbackRequest}
use graph_ops.Gateway.Redis.{RedisClient, resolve_playbook_key}
use graph_ops.Gateway.Store.{
  Store, acquire, execute_rollback, replay_receipt, when_taken, rollback_scenario, rollback_found,
  keep_receipt, rollback,
}

module _ {R : Type 0} where
  -- The store without the state of the Redis server.
  abbrev pub forget : Store R → Store (Unit {0})
  forget s = record {
    receipt_seq = s.receipt_seq;
    receipts_by_key = s.receipts_by_key;
    receipt_key_by_inc = s.receipt_key_by_inc;
    rolled_back_by_inc = s.rolled_back_by_inc;
    redis = tt;
    samples = s.samples;
  }

  when_taken_lem :
      (taken : Bool) (client : Option (RedisClient R)) (req : RollbackRequest)
      (scenario : ScenarioData) (clock : Clock) (s : Store R)
      → when_taken taken none client req scenario clock s
        ≡ execute_rollback client req scenario clock s
  unfolding when_taken
  when_taken_lem true client req scenario clock s = refl
  when_taken_lem false client req scenario clock s = refl

  module _ (client : Option (RedisClient R)) (req : RollbackRequest) (clock : Clock)
      (s : Store R) where
    rollback_found_lem :
        (found : Option ActionReceipt) (scenario : Option ScenarioData)
        → get s.receipts_by_key req.idempotency_key ≡ found
        → ((rollback_found found scenario client req clock s).0
            ≡ (rollback_found found scenario none req clock (forget s)).0)
          × (forget (rollback_found found scenario client req clock s).1
              ≡ (rollback_found found scenario none req clock (forget s)).1)
    unfolding rollback_found rollback_scenario when_taken acquire
    rollback_found_lem (some receipt) scenario e = unfold replay_receipt in (refl, refl)
    rollback_found_lem none none e = unfold rollback_scenario in (refl, refl)
    rollback_found_lem none (some scenario) e =
        rw (rollback_scenario, e)
          (simp when_taken_lem (unfold execute_rollback keep_receipt in (refl, refl)))

  -- A rollback with a Redis client returns what it returns without one, and leaves the same receipts,
  -- keys, flags, sequence number and metrics, whatever the server answers.
  pub rollback-forget :
      (scenarios : Map ScenarioData) (client : Option (RedisClient R)) (req : RollbackRequest)
      (clock : Clock) (s : Store R)
      → ((rollback scenarios client req clock s).0
          ≡ (rollback scenarios none req clock (forget s)).0)
        × (forget (rollback scenarios client req clock s).1
            ≡ (rollback scenarios none req clock (forget s)).1)
  unfolding rollback
  rollback-forget scenarios client req clock s =
      rollback_found_lem client req clock s (get s.receipts_by_key req.idempotency_key)
        (get scenarios (resolve_playbook_key req.playbook_key)) refl
