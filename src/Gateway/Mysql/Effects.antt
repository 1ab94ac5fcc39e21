-- ===== src/Gateway/Mysql/Effects.antt =====
-- internal/opsgateway/mysql_store.go: what `Rollback` does to the table of receipts and counts.
use graph_ops.Base.{
  String, ◌≡◌, ◌⊎◌, refl, sym, ap, ◌∙◌, inl, inr, Option, none, some, Bool, true, false, List, [],
  ◌∷◌, ◌++◌,
}
use graph_ops.Base.Map.{Map, get}
use graph_ops.Base.Result.{Result, ok, err}
use graph_ops.Base.Rows.{find_row}
use graph_ops.Base.Value.{Clock}
use graph_ops.Gateway.Types.{ActionReceipt, RollbackResponse, ScenarioData}
use graph_ops.Gateway.Requests.{RollbackRequest}
use graph_ops.Gateway.Redis.{RedisClient, resolve_playbook_key}
use graph_ops.Gateway.Telemetry.{Sample, rollback_requests}
use graph_ops.Gateway.Store.{GatewayError, Outcome, unknown_scenario, failed, acquire}
use graph_ops.Gateway.Mysql.Database.{ReceiptRow, ReceiptDatabase, MysqlStore}
use graph_ops.Gateway.Mysql.Store.{
  release, refuse, replay, after_insert, insert_scenario, after_lookup, look_up, after_early_lookup,
  when_taken, rollback, new_row, new_receipt,
}
use graph_ops.Gateway.Mysql.Server.{Columns, has_key, receipts, Inserted, Behaves}

-- How a rollback may end, with the rows and the counts before and after it: the receipt with the key
-- is returned; a row with a new receipt has been added; an error is returned and no row has been
-- added; or the INSERT has failed after it was carried out.
pub data Settles (columns : Columns) (scenarios : Map ScenarioData) (req : RollbackRequest)
    (clock : Clock) (before : List ReceiptRow) (samples : List Sample)
    (r : Outcome RollbackResponse) (now : List ReceiptRow) (samples' : List Sample) : Type 0 where
  replayed :
      (receipt : ActionReceipt)
      → receipts columns (find_row (has_key columns req.idempotency_key) before) ≡ some receipt
      → r ≡ ok (record { receipt = receipt })
      → now ≡ before
      → samples' ≡ samples ++ rollback_requests "idempotent" ∷ []
      → Settles columns scenarios req clock before samples r now samples'
  executed :
      (scenario : ScenarioData)
      → get scenarios (resolve_playbook_key req.playbook_key) ≡ some scenario
      → r ≡ ok (record { receipt = new_receipt req scenario clock })
      → Inserted columns (new_row req scenario clock) before now
      → samples' ≡ samples ++ rollback_requests "executed" ∷ []
      → Settles columns scenarios req clock before samples r now samples'
  not_found :
      get scenarios (resolve_playbook_key req.playbook_key) ≡ none
      → r ≡ err unknown_scenario
      → now ≡ before
      → samples' ≡ samples ++ rollback_requests "scenario_not_found" ∷ []
      → Settles columns scenarios req clock before samples r now samples'
  database_error :
      (e : String)
      → r ≡ err (failed e)
      → (now ≡ before)
        ⊎ ((scenario : ScenarioData) × (get scenarios (resolve_playbook_key req.playbook_key)
              ≡ some scenario)
            × Inserted columns (new_row req scenario clock) before now)
      → samples' ≡ samples ++ rollback_requests "db_error" ∷ []
      → Settles columns scenarios req clock before samples r now samples'

module _ {D R : Type 0} where
  release-database :
      (client : Option (RedisClient R)) (req : RollbackRequest) (s : MysqlStore D R)
      → (release client req s).database ≡ s.database
  unfolding release
  release-database none req s = refl
  release-database (some client) req s = refl

  release-samples :
      (client : Option (RedisClient R)) (req : RollbackRequest) (s : MysqlStore D R)
      → (release client req s).samples ≡ s.samples
  unfolding release
  release-samples none req s = refl
  release-samples (some client) req s = refl

module _ {D R : Type 0} (columns : Columns) (db : ReceiptDatabase D) (laws : Behaves columns db)
    (scenarios : Map ScenarioData) (client : Option (RedisClient R)) (req : RollbackRequest)
    (clock : Clock) (before : List ReceiptRow) (samples : List Sample) where
  abbrev pub Ends : Outcome RollbackResponse × MysqlStore D R → Type 0
  Ends out =
      Settles columns scenarios req clock before samples out.0 (laws.rows out.1.database)
        out.1.samples

  refuse_ends :
      (e : GatewayError) (result : String) (s : MysqlStore D R)
      → s.samples ≡ samples
      → ((refuse client req e result s).0 ≡ err e)
        × (laws.rows (refuse client req e result s).1.database ≡ laws.rows s.database)
        × ((refuse client req e result s).1.samples ≡ samples ++ rollback_requests result ∷ [])
  unfolding refuse
  refuse_ends e result s same =
      (refl, ap laws.rows (release-database client req s), rw (release-samples client req s, same))

  after_insert-Ends :
      (scenario : ScenarioData) (s : MysqlStore D R)
      → get scenarios (resolve_playbook_key req.playbook_key) ≡ some scenario
      → laws.rows s.database ≡ before
      → s.samples ≡ samples
      → (out : Result String (Unit {0}) × D)
      → ◌≡◌ {A = Result String (Unit {0}) × D}
          (db.insert_receipt (new_row req scenario clock) s.database)
          out
      → Ends (
          after_insert client req
            (new_receipt req scenario clock)
            (out.0, record s { database = out.1 }))
  unfolding after_insert
  after_insert-Ends scenario s found at_rows at_samples (err e, d') eq =
      let s' : MysqlStore D R = record s { database = d' } in
      let (r, rows, count) = refuse_ends (failed e) "db_error" s' at_samples in
      let carried_out : (laws.rows d' ≡ before)
          ⊎ Inserted columns (new_row req scenario clock) before (laws.rows d') =
        rw (sym at_rows) (laws.insert_err (new_row req scenario clock) s.database d' e eq) in
      database_error e r
        (rw rows (elim carried_out [
          | inl same ↦ inl same
          | inr inserted ↦ inr (scenario, found, inserted)
        ]))
        count
  after_insert-Ends scenario s found at_rows at_samples (ok _, d') eq =
      executed scenario found refl
        (rw (sym at_rows) (laws.insert_ok (new_row req scenario clock) s.database d' eq))
        (rw at_samples)

  insert_scenario-Ends :
      (found : Option ScenarioData) (s : MysqlStore D R)
      → get scenarios (resolve_playbook_key req.playbook_key) ≡ found
      → laws.rows s.database ≡ before
      → s.samples ≡ samples
      → Ends (insert_scenario db scenarios client found req clock s)
  unfolding insert_scenario
  insert_scenario-Ends none s found at_rows at_samples =
      let (r, rows, count) = refuse_ends unknown_scenario "scenario_not_found" s at_samples in
      not_found found r (rows ∙ at_rows) count
  insert_scenario-Ends (some scenario) s found at_rows at_samples =
      after_insert-Ends scenario s found at_rows at_samples
        (db.insert_receipt (new_row req scenario clock) s.database) refl

  -- What a lookup finds is in the table, which it leaves as it is.
  looked_up :
      (d : D) (out : Result String (Option ActionReceipt) × D)
      → ◌≡◌ {A = Result String (Option ActionReceipt) × D}
          (db.select_receipt req.idempotency_key d)
          out
      → laws.rows d ≡ before
      → (laws.rows out.1 ≡ before)
        × ((receipt : ActionReceipt)
            → out.0 ≡ ok (some receipt)
            → receipts columns (find_row (has_key columns req.idempotency_key) before)
              ≡ some receipt)
  looked_up d (r, d') eq at_rows =
      let (same, found) = laws.select req.idempotency_key d d' r eq in
      (
        same ∙ at_rows,
        λ receipt h.
            sym (
              ap (λ rows. receipts columns (find_row (has_key columns req.idempotency_key) rows))
                at_rows)
            ∙ sym (found (some receipt) h),
      )

  after_lookup-Ends :
      (s : MysqlStore D R) (r : Result String (Option ActionReceipt))
      → laws.rows s.database ≡ before
      → ((receipt : ActionReceipt)
          → r ≡ ok (some receipt)
          → receipts columns (find_row (has_key columns req.idempotency_key) before) ≡ some receipt)
      → s.samples ≡ samples
      → Ends (after_lookup db scenarios client req clock (r, s))
  unfolding after_lookup replay
  after_lookup-Ends s (err e) at_rows found at_samples =
      let (r, rows, count) = refuse_ends (failed e) "db_error" s at_samples in
      database_error e r (inl (rows ∙ at_rows)) count
  after_lookup-Ends s (ok (some receipt)) at_rows found at_samples =
      replayed receipt (found receipt refl) refl at_rows (rw at_samples)
  after_lookup-Ends s (ok none) at_rows found at_samples =
      insert_scenario-Ends (get scenarios (resolve_playbook_key req.playbook_key)) s refl at_rows
        at_samples

  look_up-Ends :
      (s : MysqlStore D R)
      → laws.rows s.database ≡ before
      → s.samples ≡ samples
      → Ends (look_up db scenarios client req clock s)
  unfolding look_up
  look_up-Ends s at_rows at_samples =
      let out = db.select_receipt req.idempotency_key s.database in
      let (same, found) = looked_up s.database out refl at_rows in
      after_lookup-Ends (record s { database = out.1 }) out.0 same found at_samples

  after_early_lookup-Ends :
      (s : MysqlStore D R) (r : Result String (Option ActionReceipt))
      → laws.rows s.database ≡ before
      → ((receipt : ActionReceipt)
          → r ≡ ok (some receipt)
          → receipts columns (find_row (has_key columns req.idempotency_key) before) ≡ some receipt)
      → s.samples ≡ samples
      → Ends (after_early_lookup db scenarios client req clock (r, s))
  unfolding after_early_lookup replay
  after_early_lookup-Ends s (err e) at_rows found at_samples = look_up-Ends s at_rows at_samples
  after_early_lookup-Ends s (ok (some receipt)) at_rows found at_samples =
      replayed receipt (found receipt refl) refl at_rows (rw at_samples)
  after_early_lookup-Ends s (ok none) at_rows found at_samples = look_up-Ends s at_rows at_samples

  when_taken-Ends :
      (taken : Bool) (s : MysqlStore D R)
      → laws.rows s.database ≡ before
      → s.samples ≡ samples
      → Ends (when_taken db scenarios client taken req clock s)
  unfolding when_taken
  when_taken-Ends true s at_rows at_samples =
      let out = db.select_receipt req.idempotency_key s.database in
      let (same, found) = looked_up s.database out refl at_rows in
      after_early_lookup-Ends (record s { database = out.1 }) out.0 same found at_samples
  when_taken-Ends false s at_rows at_samples = look_up-Ends s at_rows at_samples

-- A rollback ends in one of these ways, whatever Redis answers: it returns the receipt that the table
-- has under its key and changes no row; it adds one row, with a new receipt under a key that was not
-- in use, and returns that receipt; the scenario is unknown; or a call of the database fails, and then
-- no row has been added, or that one. One request is counted, under the label of its end.
pub rollback-Settles :
    {D R : Type 0} (columns : Columns) (db : ReceiptDatabase D) (laws : Behaves columns db)
    (scenarios : Map ScenarioData) (client : Option (RedisClient R)) (req : RollbackRequest)
    (clock : Clock) (s : MysqlStore D R)
    → Settles columns scenarios req clock
        (laws.rows s.database)
        s.samples
        (rollback db scenarios client req clock s).0
        (laws.rows (rollback db scenarios client req clock s).1.database)
        (rollback db scenarios client req clock s).1.samples
unfolding rollback
rollback-Settles columns db laws scenarios client req clock s =
    when_taken-Ends columns db laws scenarios client req clock (laws.rows s.database) s.samples
      (acquire client req s.redis).0 (record s { redis = (acquire client req s.redis).1 }) refl refl
