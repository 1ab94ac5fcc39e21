-- ===== src/Gateway/Store.antt =====
-- `Store` of internal/opsgateway/store.go, passed on from its parts. `Rollback` and `Verify` hold
-- the mutex throughout, so a call is one step.
mod State
mod Queries
mod Rollback
mod Verify
pub use State.{Store, GatewayError, unknown_scenario, failed, Outcome, new_store, emit}
unfoldable pub use Queries.{query_of, query_changes, query_logs, query_dependencies}
unfoldable pub use Rollback.{
  receipt_id, new_receipt, acquire, publish, keep_receipt, execute_rollback, replay_receipt,
  when_taken, rollback_scenario, rollback_found, rollback,
}
unfoldable pub use Verify.{
  is_rolled_back, mark_receipt, mark_key, mark_verified, report_verification, verify_scenario,
  verify,
}
