-- ===== src/Gateway/Mysql/Server.antt =====
-- What internal/opsgateway/mysql_store.go relies on of the MySQL server behind `database/sql`, as
-- hypotheses on the calls: the table `action_receipts` of sql/migrations/001_init.sql.
use mathlib.Core.Bool.{◌&&◌}
use graph_ops.Base.{ℕ, String, ◌≡◌, ◌⊎◌, Option, none, some, Bool, false, List, [], ◌∷◌, ◌++◌}
use graph_ops.Base.Result.{Result, ok, err}
use graph_ops.Base.Rows.{any_row, find_row, update_rows, count_rows}
use graph_ops.Base.Value.{Time}
use graph_ops.Gateway.Types.{ActionReceipt}
use graph_ops.Gateway.Mysql.Database.{ReceiptRow, ReceiptDatabase}

-- `same` is the equality of the collation, `datetime` what `DATETIME(6)` keeps of an instant.
pub record Columns : Type 0 where
  pub same : String → String → Bool
  pub datetime : Time → Time

module _ (columns : Columns) where
  abbrev pub has_key : String → ReceiptRow → Bool
  has_key key row = columns.same row.receipt.idempotency_key key

  abbrev pub is_rollback_of : String → ReceiptRow → Bool
  is_rollback_of id row =
      columns.same row.incident_id id && columns.same row.receipt.action_type "rollback"

  abbrev pub stored : ReceiptRow → ReceiptRow
  stored row = record row {
    receipt = record row.receipt { executed_at = columns.datetime row.receipt.executed_at };
  }

  abbrev pub with_status : String → ReceiptRow → ReceiptRow
  with_status status row = record row {
    receipt = record row.receipt { verification_status = status };
  }

  abbrev pub receipts : Option ReceiptRow → Option ActionReceipt
  receipts none = none
  receipts (some row) = some row.receipt

  -- An INSERT has been carried out: `idempotency_key` is a unique key.
  abbrev pub Inserted : ReceiptRow → List ReceiptRow → List ReceiptRow → Type 0
  Inserted row before now =
      (any_row (has_key row.receipt.idempotency_key) before ≡ false)
      × (now ≡ before ++ stored row ∷ [])

  abbrev pub marked : String → String → List ReceiptRow → List ReceiptRow
  marked status id rows = update_rows (is_rollback_of id) (with_status status) rows

  -- Documented behaviour of the server, for one client of it: any call may fail; a statement that
  -- succeeds does what SQL says, one that fails has been carried out as a whole or not at all; a read
  -- changes nothing.
  pub record Behaves {D : Type 0} (db : ReceiptDatabase D) : Type 0 where
    pub rows : D → List ReceiptRow
    pub select :
        (key : String) (d d' : D) (r : Result String (Option ActionReceipt))
        → ◌≡◌ {A = Result String (Option ActionReceipt) × D} (db.select_receipt key d) (r, d')
        → (rows d' ≡ rows d)
          × ((found : Option ActionReceipt)
              → r ≡ ok found
              → found ≡ receipts (find_row (has_key key) (rows d)))
    pub insert_ok :
        (row : ReceiptRow) (d d' : D)
        → ◌≡◌ {A = Result String (Unit {0}) × D} (db.insert_receipt row d) (ok tt, d')
        → Inserted row (rows d) (rows d')
    pub insert_err :
        (row : ReceiptRow) (d d' : D) (e : String)
        → ◌≡◌ {A = Result String (Unit {0}) × D} (db.insert_receipt row d) (err e, d')
        → (rows d' ≡ rows d) ⊎ Inserted row (rows d) (rows d')
    pub count :
        (id : String) (d d' : D) (r : Result String ℕ)
        → ◌≡◌ {A = Result String ℕ × D} (db.count_rollbacks id d) (r, d')
        → (rows d' ≡ rows d) × ((n : ℕ) → r ≡ ok n → n ≡ count_rows (is_rollback_of id) (rows d))
    pub update_ok :
        (status id : String) (d d' : D)
        → ◌≡◌ {A = Result String (Unit {0}) × D}
            (db.set_verification_status status id d)
            (ok tt, d')
        → rows d' ≡ marked status id (rows d)
    pub update_err :
        (status id : String) (d d' : D) (e : String)
        → ◌≡◌ {A = Result String (Unit {0}) × D}
            (db.set_verification_status status id d)
            (err e, d')
        → (rows d' ≡ rows d) ⊎ (rows d' ≡ marked status id (rows d))
