-- ===== src/Gateway/Mysql/Runs.antt =====
-- internal/opsgateway/mysql_store.go: a receipt over any sequence of calls of the gateway.
use graph_ops.Base.{
  String, ◌≡◌, refl, sym, ap, ◌∙◌, inl, inr, Option, none, some, true, false, List, [], ◌∷◌, ◌++◌,
  Bool-cases,
}
use graph_ops.Base.Int.{pos}
use graph_ops.Base.Map.{Map}
use graph_ops.Base.Result.{ok, ok-injective}
use graph_ops.Base.Rows.{
  any_row, find_row, find_row-append, find_row-append_old, find_row-update, find_row-none,
}
use graph_ops.Base.Value.{Clock}
use graph_ops.Gateway.Types.{ActionReceipt, RollbackResponse, ScenarioData, VerificationResult}
use graph_ops.Gateway.Requests.{RollbackRequest, VerifyRequest}
use graph_ops.Gateway.Telemetry.{Sample}
use graph_ops.Gateway.Redis.{RedisClient}
use graph_ops.Gateway.Store.{Outcome}
use graph_ops.Gateway.Receipts.{Call, roll_back, verify_recovery}
use graph_ops.Gateway.Mysql.Database.{ReceiptRow, ReceiptDatabase, MysqlStore}
use graph_ops.Gateway.Mysql.Store.{rollback, new_row, new_receipt, verify}
use graph_ops.Gateway.Mysql.Server.{
  Columns, has_key, is_rollback_of, with_status, marked, stored, receipts, Behaves,
}
use graph_ops.Gateway.Mysql.Effects.{
  Settles, replayed, executed, not_found, database_error, rollback-Settles,
}
use graph_ops.Gateway.Mysql.Verifying.{
  Verifies, not_known, still_broken, recovered, no_answer, verify-Verifies,
}

-- The receipt without its time, which a column rounds, and without what a verification wrote.
abbrev pub action : ActionReceipt → ActionReceipt
action receipt = record receipt { executed_at = record { nanos = pos 0 }; verification_status = "" }

module _ {D R : Type 0} (db : ReceiptDatabase D) (scenarios : Map ScenarioData)
    (client : Option (RedisClient R)) where
  unfoldable pub execute_call : Call → Clock → MysqlStore D R → MysqlStore D R
  execute_call (roll_back req) clock s = (rollback db scenarios client req clock s).1
  execute_call (verify_recovery req) clock s = (verify db scenarios req s).1

  unfoldable pub run_calls : List (Call × Clock) → MysqlStore D R → MysqlStore D R
  unfolding execute_call
  run_calls [] s = s
  run_calls ((call, clock) ∷ rest) s = run_calls rest (execute_call call clock s)

-- The table has a receipt of this action under the key.
abbrev pub Has : Columns → String → ActionReceipt → List ReceiptRow → Type 0
Has columns key receipt rows =
    (row : ReceiptRow) × (find_row (has_key columns key) rows ≡ some row)
    × (action row.receipt ≡ action receipt)

receipts-some :
    (columns : Columns) (found : Option ReceiptRow) (receipt : ActionReceipt)
    → receipts columns found ≡ some receipt
    → (row : ReceiptRow) × (found ≡ some row) × (row.receipt ≡ receipt)
receipts-some columns none receipt h = cc
receipts-some columns (some row) receipt h = (row, refl, cc)

module _ (columns : Columns) (key : String) (receipt : ActionReceipt) where
  not-Has :
      (rows : List ReceiptRow)
      → any_row (has_key columns key) rows ≡ false
      → ¬ Has columns key receipt rows
  not-Has rows none_such (row, found, same) =
      let missing : find_row (has_key columns key) rows ≡ none = find_row-none _ rows none_such in
      cc

  appended-Has :
      (rows more : List ReceiptRow)
      → Has columns key receipt rows
      → Has columns key receipt (rows ++ more)
  appended-Has rows more (row, found, same) =
      (row, find_row-append_old (has_key columns key) rows more row found, same)

  marked-Has :
      (status id : String) (rows : List ReceiptRow)
      → Has columns key receipt rows
      → Has columns key receipt (marked columns status id rows)
  marked-Has status id rows (row, found, same) =
      let now =
        find_row-update (has_key columns key) (is_rollback_of columns id)
          (with_status columns status) rows row (λ r. refl) found in
      elim (Bool-cases (is_rollback_of columns id row)) [
        | inl hit ↦ (with_status columns status row, rw hit at now, same)
        | inr missed ↦ (row, rw missed at now, same)
      ]

  Settles-Has :
      (scenarios : Map ScenarioData) (req : RollbackRequest) (clock : Clock)
      (before now : List ReceiptRow) (samples samples' : List Sample) (r : Outcome RollbackResponse)
      → Settles columns scenarios req clock before samples r now samples'
      → Has columns key receipt before
      → Has columns key receipt now
  Settles-Has scenarios req clock before now samples samples' r
        (replayed old is_old given same count) has =
      rw same has
  Settles-Has scenarios req clock before now samples samples' r
        (executed scenario found given (is_new, rows) count) has =
      rw rows (appended-Has before _ has)
  Settles-Has scenarios req clock before now samples samples' r (not_found missing given same count)
        has =
      rw same has
  Settles-Has scenarios req clock before now samples samples' r
        (database_error e given (inl same) count) has =
      rw same has
  Settles-Has scenarios req clock before now samples samples' r
        (database_error e given (inr (scenario, found, (is_new, rows))) count) has =
      rw rows (appended-Has before _ has)

  Verifies-Has :
      (scenarios : Map ScenarioData) (req : VerifyRequest) (before now : List ReceiptRow)
      (r : Outcome VerificationResult)
      → Verifies columns scenarios req before r now
      → Has columns key receipt before
      → Has columns key receipt now
  Verifies-Has scenarios req before now r (not_known missing given same) has = rw same has
  Verifies-Has scenarios req before now r (still_broken scenario found count given same) has =
      rw same has
  Verifies-Has scenarios req before now r (recovered scenario n found count given rows) has =
      rw rows (marked-Has _ req.incident_id before has)
  Verifies-Has scenarios req before now r (no_answer e status given (inl same)) has = rw same has
  Verifies-Has scenarios req before now r (no_answer e status given (inr rows)) has =
      rw rows (marked-Has status req.incident_id before has)

module _ {D R : Type 0} (columns : Columns) (db : ReceiptDatabase D) (laws : Behaves columns db)
    (scenarios : Map ScenarioData) (client : Option (RedisClient R)) where
  run_calls-Has :
      (key : String) (receipt : ActionReceipt) (cs : List (Call × Clock)) (s : MysqlStore D R)
      → Has columns key receipt (laws.rows s.database)
      → Has columns key receipt (laws.rows (run_calls db scenarios client cs s).database)
  unfolding run_calls execute_call
  run_calls-Has key receipt [] s has = has
  run_calls-Has key receipt ((roll_back req, clock) ∷ rest) s has =
      run_calls-Has key receipt rest _ (
        Settles-Has columns key receipt scenarios req clock _ _ _ _ _
          (rollback-Settles columns db laws scenarios client req clock s) has)
  run_calls-Has key receipt ((verify_recovery req, clock) ∷ rest) s has =
      run_calls-Has key receipt rest _ (
        Verifies-Has columns key receipt scenarios req _ _ _
          (verify-Verifies columns db laws scenarios req s) has)

  -- A rollback that succeeds leaves its receipt in the table.
  ok-Has :
      (req : RollbackRequest) (clock : Clock) (before now : List ReceiptRow)
      (samples samples' : List Sample) (r : Outcome RollbackResponse) (response : RollbackResponse)
      → columns.same req.idempotency_key req.idempotency_key ≡ true
      → Settles columns scenarios req clock before samples r now samples'
      → r ≡ ok response
      → Has columns req.idempotency_key response.receipt now
  unfolding new_row new_receipt
  ok-Has req clock before now samples samples' r response reflexive
        (replayed old is_old given same count) h =
      let (row, there, is) = receipts-some columns _ old is_old in
      let made = ok-injective (sym given ∙ h) in
      (row, rw (same, there), ap action (is ∙ ap {A = RollbackResponse} (λ r. r.receipt) made))
  ok-Has req clock before now samples samples' r response reflexive
        (executed scenario found given (is_new, rows) count) h =
      let made = ok-injective (sym given ∙ h) in
      (
        stored columns (new_row req scenario clock),
        rw rows (find_row-append (has_key columns req.idempotency_key) before _ is_new reflexive),
        ap {A = RollbackResponse} (λ r. action r.receipt) made,
      )
  ok-Has req clock before now samples samples' r response reflexive
        (not_found missing given same count) h =
      cc
  ok-Has req clock before now samples samples' r response reflexive
        (database_error e given case count) h =
      cc

  -- A rollback under a key that the table has adds no row, and gives that receipt or an error.
  again-Has :
      (req : RollbackRequest) (clock : Clock) (receipt : ActionReceipt)
      (before now : List ReceiptRow) (samples samples' : List Sample) (r : Outcome RollbackResponse)
      → Settles columns scenarios req clock before samples r now samples'
      → Has columns req.idempotency_key receipt before
      → (now ≡ before)
        × ((response : RollbackResponse)
            → r ≡ ok response
            → action response.receipt ≡ action receipt)
  unfolding new_row new_receipt
  again-Has req clock receipt before now samples samples' r (replayed old is_old given same count)
        (row, there, alike) =
      (
        same,
        λ response h.
            let made = ok-injective (sym given ∙ h) in
            let is : some row.receipt ≡ some old = sym (ap (receipts columns) there) ∙ is_old in
            let is_row : row.receipt ≡ old = cc in
            sym (ap {A = RollbackResponse} (λ r. action r.receipt) made)
            ∙ ap action (sym is_row)
            ∙ alike,
      )
  again-Has req clock receipt before now samples samples' r
        (executed scenario found given (is_new, rows) count) (row, there, alike) =
      absurd (not-Has columns req.idempotency_key receipt before is_new (row, there, alike))
  again-Has req clock receipt before now samples samples' r (not_found missing given same count)
        has =
      (same, λ response h. cc)
  again-Has req clock receipt before now samples samples' r
        (database_error e given (inl same) count) has =
      (same, λ response h. cc)
  again-Has req clock receipt before now samples samples' r
        (database_error e given (inr (scenario, found, (is_new, rows))) count) (row, there, alike) =
      absurd (not-Has columns req.idempotency_key receipt before is_new (row, there, alike))

  -- Once a rollback has succeeded, a later one with the same idempotency key, whatever else it asks
  -- for and whatever calls came in between, failing or not, changes no row, and if it succeeds it
  -- returns that receipt again, up to what the time column keeps and to the verification status.
  pub rollback-again :
      (req again : RollbackRequest) (clock clock' : Clock) (cs : List (Call × Clock))
      (s : MysqlStore D R) (response : RollbackResponse)
      → columns.same req.idempotency_key req.idempotency_key ≡ true
      → (rollback db scenarios client req clock s).0 ≡ ok response
      → again.idempotency_key ≡ req.idempotency_key
      → let later = run_calls db scenarios client cs (rollback db scenarios client req clock s).1 in
        let repeated = rollback db scenarios client again clock' later in
        (laws.rows repeated.1.database ≡ laws.rows later.database)
        × ((response' : RollbackResponse)
            → repeated.0 ≡ ok response'
            → action response'.receipt ≡ action response.receipt)
  rollback-again req again clock clock' cs s response reflexive h same_key =
      let first = rollback db scenarios client req clock s in
      let there =
        ok-Has req clock _ _ _ _ first.0 response reflexive
          (rollback-Settles columns db laws scenarios client req clock s) h in
      let later = run_calls db scenarios client cs first.1 in
      let still = run_calls-Has req.idempotency_key response.receipt cs first.1 there in
      again-Has again clock' response.receipt _ _ _ _ _
        (rollback-Settles columns db laws scenarios client again clock' later) (rw same_key still)
