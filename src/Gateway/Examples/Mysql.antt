-- ===== src/Gateway/Examples/Mysql.antt =====
-- internal/opsgateway/mysql_store.go: a small table of receipts that behaves as the store relies on,
-- and a rollback, repeated and verified, on it.
use graph_ops.Base.{
  String, ◌==◌, ◌≡◌, refl, sym, ap, inl, some, Bool, true, false, List, [], ◌∷◌, ◌++◌,
}
use graph_ops.Base.Map.{get}
use graph_ops.Base.Result.{Result, ok, err}
use graph_ops.Base.Rows.{any_row, find_row, count_rows}
use graph_ops.Gateway.Types.{RollbackResponse}
use graph_ops.Gateway.Redis.{resolve_playbook_key}
use graph_ops.Gateway.Store.{acquire}
use graph_ops.Gateway.Mysql.Database.{ReceiptRow, ReceiptDatabase, MysqlStore}
use graph_ops.Gateway.Mysql.Store.{
  new_receipt, after_insert, insert_scenario, after_lookup, look_up, after_early_lookup, when_taken,
  rollback, verify,
}
use graph_ops.Gateway.Mysql.Server.{
  Columns, has_key, is_rollback_of, stored, marked, receipts, Behaves,
}
use graph_ops.Gateway.Mysql.Effects.{Settles, rollback-Settles}
use graph_ops.Gateway.Mysql.Verifying.{Verifies, verify-Verifies}
use graph_ops.Gateway.Mysql.Runs.{action, run_calls, rollback-again}
use graph_ops.Gateway.Examples.{noon, contended, regression, scenarios, request, check, calls}

abbrev as_written : Columns
as_written = record { same = λ a b. a == b; datetime = λ t. t }

abbrev insert_unless :
    Bool → ReceiptRow → List ReceiptRow → Result String (Unit {0}) × List ReceiptRow
insert_unless true row rows = (err "duplicate", rows)
insert_unless false row rows = (ok tt, rows ++ stored as_written row ∷ [])

abbrev table : ReceiptDatabase (List ReceiptRow)
table = record {
  select_receipt =
      λ key rows. (ok (receipts as_written (find_row (has_key as_written key) rows)), rows);
  insert_receipt = λ row rows.
      insert_unless (any_row (has_key as_written row.receipt.idempotency_key) rows) row rows;
  count_rollbacks = λ id rows. (ok (count_rows (is_rollback_of as_written id) rows), rows);
  set_verification_status = λ status id rows. (ok tt, marked as_written status id rows);
}

-- What a call gives, and the rows that it leaves.
state_of :
    {A : Type 0} (rows rows' : List ReceiptRow) (r r' : Result String A)
    → ◌≡◌ {A = Result String A × List ReceiptRow} (r, rows) (r', rows')
    → rows' ≡ rows
state_of {A} rows rows' r r' h = sym (ap {A = Result String A × List ReceiptRow} (λ out. out.1) h)

value_of :
    {A : Type 0} (rows rows' : List ReceiptRow) (a : A) (r : Result String A)
    → ◌≡◌ {A = Result String A × List ReceiptRow} (ok a, rows) (r, rows')
    → (b : A) → r ≡ ok b
    → b ≡ a
value_of {A} rows rows' a r h b given =
    let value : ok a ≡ r = ap {A = Result String A × List ReceiptRow} (λ out. out.0) h in cc

insert-ok :
    (full : Bool) (row : ReceiptRow) (rows rows' : List ReceiptRow)
    → ◌≡◌ {A = Result String (Unit {0}) × List ReceiptRow}
        (insert_unless full row rows)
        (ok tt, rows')
    → (full ≡ false) × (rows' ≡ rows ++ stored as_written row ∷ [])
insert-ok true row rows rows' h =
    let never : ◌≡◌ {A = Result String (Unit {0})} (err "duplicate") (ok tt) =
      ap {A = Result String (Unit {0}) × List ReceiptRow} (λ out. out.0) h in
    cc
insert-ok false row rows rows' h = (refl, state_of _ rows' _ _ h)

insert-err :
    (full : Bool) (row : ReceiptRow) (rows rows' : List ReceiptRow) (e : String)
    → ◌≡◌ {A = Result String (Unit {0}) × List ReceiptRow}
        (insert_unless full row rows)
        (err e, rows')
    → rows' ≡ rows
insert-err true row rows rows' e h = state_of _ rows' _ _ h
insert-err false row rows rows' e h =
    let never : ◌≡◌ {A = Result String (Unit {0})} (ok tt) (err e) =
      ap {A = Result String (Unit {0}) × List ReceiptRow} (λ out. out.0) h in
    cc

never-err :
    (rows rows' : List ReceiptRow) (e : String)
    → ¬ ◌≡◌ {A = Result String (Unit {0}) × List ReceiptRow} (ok tt, rows) (err e, rows')
never-err rows rows' e h =
    let never : ◌≡◌ {A = Result String (Unit {0})} (ok tt) (err e) =
      ap {A = Result String (Unit {0}) × List ReceiptRow} (λ out. out.0) h in
    cc

abbrev table_laws : Behaves as_written table
table_laws = record {
  rows = λ rows. rows;
  select = λ key rows rows' r h. (state_of rows rows' _ r h, value_of rows rows' _ r h);
  insert_ok = λ row rows rows' h. insert-ok _ row rows rows' h;
  insert_err = λ row rows rows' e h. inl (insert-err _ row rows rows' e h);
  count = λ id rows rows' r h. (state_of rows rows' _ r h, value_of rows rows' _ r h);
  update_ok = λ status id rows rows' h. state_of _ rows' _ _ h;
  update_err = λ status id rows rows' e h. absurd (never-err _ rows' e h);
}

abbrev start : MysqlStore (List ReceiptRow) String
start = record { database = []; redis = ""; samples = [] }

abbrev first_response : RollbackResponse
first_response = record { receipt = new_receipt request regression noon }

first_response_lem :
    (rollback table scenarios (some contended) request noon start).0 ≡ ok first_response
unfolding rollback when_taken look_up after_early_lookup after_lookup insert_scenario after_insert
    acquire resolve_playbook_key get
first_response_lem = refl

rollback-Settles_example :
    Settles as_written scenarios request noon [] []
      (rollback table scenarios (some contended) request noon start).0
      (rollback table scenarios (some contended) request noon start).1.database
      (rollback table scenarios (some contended) request noon start).1.samples
rollback-Settles_example =
    rollback-Settles as_written table table_laws scenarios (some contended) request noon start

verify-Verifies_example :
    Verifies as_written scenarios check []
      (verify table scenarios check start).0
      (verify table scenarios check start).1.database
verify-Verifies_example = verify-Verifies as_written table table_laws scenarios check start

rollback-again_example :
    let later =
      run_calls table scenarios
        (some contended)
        calls
        (rollback table scenarios (some contended) request noon start).1 in
    let repeated =
      rollback table scenarios
        (some contended)
        (record request { incident_id = "inc-3" })
        noon
        later in
    (repeated.1.database ≡ later.database)
    × ((response' : RollbackResponse)
        → repeated.0 ≡ ok response'
        → action response'.receipt ≡ action first_response.receipt)
rollback-again_example =
    rollback-again as_written table table_laws scenarios (some contended) request
      (record request { incident_id = "inc-3" }) noon noon calls start first_response refl
      first_response_lem refl
