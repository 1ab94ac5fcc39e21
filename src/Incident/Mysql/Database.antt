-- ===== src/Incident/Mysql/Database.antt =====
-- What internal/incidentapi/mysql_store.go calls: the database behind `database/sql` and the
-- encoding of JSON columns. The server and its driver are no part of the program, so they are
-- records of calls over a state `D` of the database's.
use graph_ops.Base.{ℕ, String, Option, List}
use graph_ops.Base.Action.{Action}
use graph_ops.Base.Int.{ℤ}
use graph_ops.Base.Map.{Map}
use graph_ops.Base.Result.{Result}
use graph_ops.Base.Value.{Float64, Time, Json}
use graph_ops.Incident.Types.{IncidentContext, ApprovalDecision, AnalysisSnapshot, FinalReport}

-- The columns of `incidents` that `GetIncident` scans. A column that may be NULL is an `Option`.
pub record IncidentColumns : Type 0 where
  pub id : String
  pub service_name : String
  pub severity : String
  pub alert_summary : String
  pub playbook_key : Option String
  pub context_json : Option String
  pub status : String
  pub analysis_json : Option String
  pub report_json : Option String
  pub created_at : Time
  pub updated_at : Time

pub record EventColumns : Type 0 where
  pub id : ℤ
  pub incident_id : String
  pub event_type : String
  pub actor_type : String
  pub actor_name : String
  pub payload_json : String
  pub created_at : Time

pub record AgentRunColumns : Type 0 where
  pub id : ℤ
  pub incident_id : String
  pub node_name : String
  pub model_name : String
  pub prompt_version : String
  pub input_json : String
  pub output_json : String
  pub latency_ms : ℤ
  pub status : String
  pub checkpoint_id : String
  pub created_at : Time

-- The texts that the store executes, each with its arguments in their order.
pub data Statement : Type 0 where
  -- `INSERT INTO incidents`, with NULL for the analysis and the report
  insert_incident :
      (id service_name severity alert_summary playbook_key : String) (context_json : Option String)
      (status : String) (created_at updated_at : Time)
      → Statement
  -- `UPDATE incidents SET status, analysis_json, updated_at WHERE id`
  update_analysis : (status analysis_json : String) (updated_at : Time) (id : String) → Statement
  -- `DELETE FROM evidence_items WHERE incident_id`
  delete_evidence : (incident_id : String) → Statement
  -- `INSERT INTO evidence_items`
  insert_evidence :
      (incident_id evidence_id source_type source_ref summary : String) (confidence : Float64)
      (created_at : Time)
      → Statement
  -- `UPDATE incidents SET status, report_json, updated_at WHERE id`
  update_report : (status report_json : String) (updated_at : Time) (id : String) → Statement
  -- `UPDATE incidents SET status, updated_at WHERE id`
  update_status : (status : String) (updated_at : Time) (id : String) → Statement
  -- `INSERT INTO approvals ... ON DUPLICATE KEY UPDATE` of all other columns
  upsert_approval : (incident_id status reviewer comment : String) (updated_at : Time) → Statement
  -- `INSERT INTO incident_events`
  insert_event :
      (incident_id event_type actor_type actor_name payload_json : String) (created_at : Time)
      → Statement
  -- `INSERT INTO agent_runs`
  insert_agent_run :
      (incident_id node_name model_name prompt_version input_json output_json : String)
      (latency_ms : ℤ) (status checkpoint_id : String) (created_at : Time)
      → Statement

-- An argument of a query.
pub data Argument : Type 0 where
  text : String → Argument
  integer : ℤ → Argument

-- `sql.Rows`: the rows that could be read, and what `rows.Err` or a `Scan` says after them.
pub record Rows {ℓ} (A : Type ℓ) : Type ℓ where
  pub read : List A
  pub failure : Option String

-- A query for one row gives none where `Scan` returns `sql.ErrNoRows`. `exec` gives what
-- `RowsAffected` returns, which may be an error of its own.
pub record Database (D : Type 0) : Type 0 where
  pub begin_tx : Action String D (Unit {0})
  pub commit : Action String D (Unit {0})
  pub rollback : D → D
  pub exec : Statement → Action String D (Result String ℕ)
  pub select_incident : String → Action String D (Option IncidentColumns)
  pub select_approval : String → Action String D (Option ApprovalDecision)
  pub query_ids : String → List Argument → Action String D (Rows String)
  pub select_events : String → Action String D (Rows EventColumns)
  pub select_agent_runs : String → Action String D (Rows AgentRunColumns)

-- `json.Marshal` and `json.Unmarshal` at the types of the JSON columns: floating-point numbers are
-- printed and read there, which is not modelled.
pub record Encoding : Type 0 where
  pub marshal_context : Option IncidentContext → Result String String
  pub marshal_analysis : AnalysisSnapshot → Result String String
  pub marshal_report : FinalReport → Result String String
  pub marshal_object : Option (Map Json) → Result String String
  pub unmarshal_context : String → Result String IncidentContext
  pub unmarshal_analysis : String → Result String AnalysisSnapshot
  pub unmarshal_report : String → Result String FinalReport
  pub unmarshal_object : String → Result String (Option (Map Json))
