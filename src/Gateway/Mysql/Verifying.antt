-- ===== src/Gateway/Mysql/Verifying.antt =====
-- internal/opsgateway/mysql_store.go: what `Verify` gives and does to the table of receipts.
use graph_ops.Base.{ℕ, zero, suc, String, ◌≡◌, ◌⊎◌, refl, sym, inl, Option, none, some, List}
use graph_ops.Base.Map.{Map, get}
use graph_ops.Base.Result.{Result, ok, err}
use graph_ops.Base.Rows.{count_rows}
use graph_ops.Gateway.Types.{ScenarioData, VerificationResult}
use graph_ops.Gateway.Requests.{VerifyRequest}
use graph_ops.Gateway.Redis.{resolve_playbook_key}
use graph_ops.Gateway.Store.{Outcome, unknown_scenario, failed}
use graph_ops.Gateway.Mysql.Database.{ReceiptRow, ReceiptDatabase, MysqlStore}
use graph_ops.Gateway.Mysql.Store.{after_update, after_count, verify_scenario, verify, report}
use graph_ops.Gateway.Mysql.Server.{Columns, is_rollback_of, marked, Behaves}

-- How a verification may end: the scenario decides by the rollbacks of the incident that the table
-- counts, and marks them; or a call of the database fails.
pub data Verifies (columns : Columns) (scenarios : Map ScenarioData) (req : VerifyRequest)
    (before : List ReceiptRow) (r : Outcome VerificationResult) (now : List ReceiptRow)
    : Type 0 where
  not_known :
      get scenarios (resolve_playbook_key req.playbook_key) ≡ none
      → r ≡ err unknown_scenario
      → now ≡ before
      → Verifies columns scenarios req before r now
  still_broken :
      (scenario : ScenarioData)
      → get scenarios (resolve_playbook_key req.playbook_key) ≡ some scenario
      → count_rows (is_rollback_of columns req.incident_id) before ≡ 0
      → r ≡ ok scenario.verification_before
      → now ≡ before
      → Verifies columns scenarios req before r now
  recovered :
      (scenario : ScenarioData) (n : ℕ)
      → get scenarios (resolve_playbook_key req.playbook_key) ≡ some scenario
      → count_rows (is_rollback_of columns req.incident_id) before ≡ suc n
      → r ≡ ok scenario.verification_after
      → now ≡ marked columns scenario.verification_after.status req.incident_id before
      → Verifies columns scenarios req before r now
  no_answer :
      (e status : String)
      → r ≡ err (failed e)
      → (now ≡ before) ⊎ (now ≡ marked columns status req.incident_id before)
      → Verifies columns scenarios req before r now

module _ {D R : Type 0} (columns : Columns) (db : ReceiptDatabase D) (laws : Behaves columns db)
    (scenarios : Map ScenarioData) (req : VerifyRequest) where
  abbrev Concludes : List ReceiptRow → Outcome VerificationResult × MysqlStore D R → Type 0
  Concludes before out = Verifies columns scenarios req before out.0 (laws.rows out.1.database)

  after_update-Verifies :
      (scenario : ScenarioData) (n : ℕ) (s : MysqlStore D R) (before : List ReceiptRow)
      → get scenarios (resolve_playbook_key req.playbook_key) ≡ some scenario
      → count_rows (is_rollback_of columns req.incident_id) before ≡ suc n
      → laws.rows s.database ≡ before
      → (out : Result String (Unit {0}) × D)
      → ◌≡◌ {A = Result String (Unit {0}) × D}
          (db.set_verification_status scenario.verification_after.status req.incident_id s.database)
          out
      → Concludes before
          (after_update db scenarios req scenario (out.0, record s { database = out.1 }))
  unfolding after_update report
  after_update-Verifies scenario n s before found count at_rows (err e, d') eq =
      no_answer e scenario.verification_after.status refl
        (rw (sym at_rows) (laws.update_err _ req.incident_id s.database d' e eq))
  after_update-Verifies scenario n s before found count at_rows (ok _, d') eq =
      recovered scenario n found count refl
        (rw (sym at_rows) (laws.update_ok _ req.incident_id s.database d' eq))

  after_count-Verifies :
      (scenario : ScenarioData) (s : MysqlStore D R)
      → get scenarios (resolve_playbook_key req.playbook_key) ≡ some scenario
      → (out : Result String ℕ × D)
      → ◌≡◌ {A = Result String ℕ × D} (db.count_rollbacks req.incident_id s.database) out
      → Concludes
          (laws.rows s.database)
          (after_count db scenarios req scenario (out.0, record s { database = out.1 }))
  unfolding after_count report
  after_count-Verifies scenario s found (err e, d') eq =
      no_answer e "" refl (inl (laws.count req.incident_id s.database d' (err e) eq).0)
  after_count-Verifies scenario s found (ok zero, d') eq =
      let (same, count) = laws.count req.incident_id s.database d' (ok zero) eq in
      still_broken scenario found (sym (count zero refl)) refl same
  after_count-Verifies scenario s found (ok (suc n), d') eq =
      let (same, count) = laws.count req.incident_id s.database d' (ok (suc n)) eq in
      after_update-Verifies scenario n (record s { database = d' }) (laws.rows s.database) found
        (sym (count (suc n) refl)) same _ refl

  verify_scenario-Verifies :
      (found : Option ScenarioData) (s : MysqlStore D R)
      → get scenarios (resolve_playbook_key req.playbook_key) ≡ found
      → Concludes (laws.rows s.database) (verify_scenario db scenarios found req s)
  unfolding verify_scenario
  verify_scenario-Verifies none s found = not_known found refl refl
  verify_scenario-Verifies (some scenario) s found = after_count-Verifies scenario s found _ refl

  -- A verification of a known scenario gives the result after a rollback exactly when the table counts
  -- a rollback of the incident, and then writes the status of that result into the receipts of the
  -- incident; otherwise it gives the result before one, or an error, and changes no row, except that
  -- an UPDATE that fails may have been carried out.
  pub verify-Verifies :
      (s : MysqlStore D R)
      → Verifies columns scenarios req
          (laws.rows s.database)
          (verify db scenarios req s).0
          (laws.rows (verify db scenarios req s).1.database)
  unfolding verify
  verify-Verifies s =
      verify_scenario-Verifies (get scenarios (resolve_playbook_key req.playbook_key)) s refl
