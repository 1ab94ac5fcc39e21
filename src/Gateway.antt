-- ===== src/Gateway.antt =====
-- internal/opsgateway: the gateway to the tools and to the rollback action.
pub mod Types
pub mod Requests
pub mod Redis
pub mod Telemetry
pub mod Scenarios
pub mod Store
pub mod Independence
pub mod Receipts
pub mod Idempotency
pub mod Validity
pub mod Runs
pub mod Server
pub mod Serving
pub mod Evidence
pub mod Mysql
mod Examples
