-- ===== src/Gateway/Mysql/Database.antt =====
-- What internal/opsgateway/mysql_store.go calls: the table `action_receipts` behind `database/sql`.
-- The server and its driver are no part of the program, so they are a record of calls over a state
-- `D` of the database's.
use graph_ops.Base.{ℕ, String, Option, List}
use graph_ops.Base.Action.{Action}
use graph_ops.Gateway.Types.{ActionReceipt}
use graph_ops.Gateway.Telemetry.{Sample}

-- The columns of an INSERT.
pub record ReceiptRow : Type 0 where
  pub incident_id : String
  pub playbook_key : String
  pub receipt : ActionReceipt

-- `select_receipt` by the idempotency key gives none where `Scan` returns `sql.ErrNoRows`;
-- `count_rollbacks` and `set_verification_status` are about the rollbacks of an incident.
pub record ReceiptDatabase (D : Type 0) : Type 0 where
  pub select_receipt : String → Action String D (Option ActionReceipt)
  pub insert_receipt : ReceiptRow → Action String D (Unit {0})
  pub count_rollbacks : String → Action String D ℕ
  pub set_verification_status : (status incident_id : String) → Action String D (Unit {0})

-- The store with the states of its two servers and the updates of the metrics so far.
pub record MysqlStore (D R : Type 0) : Type 0 where
  pub database : D
  pub redis : R
  pub samples : List Sample
