-- ===== src/Incident/Mysql/Server.antt =====
-- What internal/incidentapi/mysql_store.go relies on of the MySQL server behind `database/sql`, as
-- hypotheses on the calls.
use graph_ops.Base.{List, ℕ, ◌≤◌, String, ◌≡◌, ◌⊎◌, Option, none, some}
use graph_ops.Base.Result.{Result, ok, err}
use graph_ops.Base.Rows.{find_row}
use graph_ops.Incident.Types.{ApprovalDecision}
use graph_ops.Incident.Mysql.Database.{
  EventColumns, AgentRunColumns, Argument, Rows, IncidentColumns, Statement, Database,
}
use graph_ops.Incident.Mysql.Listing.{listing_text, listing_arguments, IsSelected}
use graph_ops.Incident.Mysql.Tables.{
  Tables, Storage, ApprovalRow, is_incident, is_approval_of, events_of, agent_runs_of, perform,
  most_affected,
}

abbrev pub decisions : Option ApprovalRow → Option ApprovalDecision
decisions none = none
decisions (some row) = some row.decision

module _ (storage : Storage) where
  -- Documented behaviour of the server, for one client of it: any call may fail; a statement that
  -- succeeds does what SQL says, one that fails has been carried out as a whole or not at all; a
  -- transaction is rolled back to where it began; a commit that fails has been carried out or not; a
  -- read changes nothing.
  pub record Behaves {D : Type 0} (db : Database D) : Type 0 where
    pub tables : D → Tables
    -- what a rollback goes back to
    pub saved : D → Tables
    pub begin_tx :
        (d d' : D) (r : Result String (Unit {0}))
        → ◌≡◌ {A = Result String (Unit {0}) × D} (db.begin_tx d) (r, d')
        → (tables d' ≡ tables d) × (saved d' ≡ tables d)
    pub exec_ok :
        (s : Statement) (d d' : D) (affected : Result String ℕ)
        → ◌≡◌ {A = Result String (Result String ℕ) × D} (db.exec s d) (ok affected, d')
        → (saved d' ≡ saved d)
          × ((n : ℕ) × (perform storage n s (tables d) ≡ some (tables d')))
          × ((k : ℕ) → affected ≡ ok k → k ≤ most_affected storage s (tables d))
    pub exec_err :
        (s : Statement) (d d' : D) (e : String)
        → ◌≡◌ {A = Result String (Result String ℕ) × D} (db.exec s d) (err e, d')
        → (saved d' ≡ saved d)
          × ((tables d' ≡ tables d)
              ⊎ ((n : ℕ) × (perform storage n s (tables d) ≡ some (tables d'))))
    pub commit_ok :
        (d d' : D)
        → ◌≡◌ {A = Result String (Unit {0}) × D} (db.commit d) (ok tt, d')
        → tables d' ≡ tables d
    pub commit_err :
        (d d' : D) (e : String)
        → ◌≡◌ {A = Result String (Unit {0}) × D} (db.commit d) (err e, d')
        → (tables d' ≡ tables d) ⊎ (tables d' ≡ saved d)
    pub rollback : (d : D) → tables (db.rollback d) ≡ saved d
    pub select_incident :
        (id : String) (d d' : D) (r : Result String (Option IncidentColumns))
        → ◌≡◌ {A = Result String (Option IncidentColumns) × D} (db.select_incident id d) (r, d')
        → (tables d' ≡ tables d)
          × ((found : Option IncidentColumns)
              → r ≡ ok found
              → found ≡ find_row (is_incident storage id) (tables d).incidents)
    pub select_approval :
        (id : String) (d d' : D) (r : Result String (Option ApprovalDecision))
        → ◌≡◌ {A = Result String (Option ApprovalDecision) × D} (db.select_approval id d) (r, d')
        → (tables d' ≡ tables d)
          × ((found : Option ApprovalDecision)
              → r ≡ ok found
              → found ≡ decisions (find_row (is_approval_of storage id) (tables d).approvals))
    pub query_ids :
        (query : String) (arguments : List Argument) (d d' : D) (r : Result String (Rows String))
        → ◌≡◌ {A = Result String (Rows String) × D} (db.query_ids query arguments d) (r, d')
        → tables d' ≡ tables d
    pub list_ids :
        (service status : Option String) (limit : ℕ) (d d' : D) (r : Result String (Rows String))
        → ◌≡◌ {A = Result String (Rows String) × D}
            (db.query_ids (listing_text service status) (listing_arguments service status limit) d)
            (r, d')
        → (rows : Rows String) → r ≡ ok rows
        → rows.failure ≡ none
        → IsSelected storage service status limit (tables d) rows.read
    pub select_events :
        (id : String) (d d' : D) (r : Result String (Rows EventColumns))
        → ◌≡◌ {A = Result String (Rows EventColumns) × D} (db.select_events id d) (r, d')
        → (tables d' ≡ tables d)
          × ((rows : Rows EventColumns)
              → r ≡ ok rows
              → rows.failure ≡ none
              → rows.read ≡ events_of storage id (tables d))
    pub select_agent_runs :
        (id : String) (d d' : D) (r : Result String (Rows AgentRunColumns))
        → ◌≡◌ {A = Result String (Rows AgentRunColumns) × D} (db.select_agent_runs id d) (r, d')
        → (tables d' ≡ tables d)
          × ((rows : Rows AgentRunColumns)
              → r ≡ ok rows
              → rows.failure ≡ none
              → rows.read ≡ agent_runs_of storage id (tables d))
