-- ===== src/Incident/Mysql/Reads.antt =====
-- internal/incidentapi/mysql_store.go: the methods that read.
use Prim.Native.String.{◌++◌ as concat}
use graph_ops.Base.{String, ◌==◌, Option, none, some, List, [], ◌∷◌, ◌++◌, if◌then◌else◌}
use graph_ops.Base.Action.{pure, or_fail, ◌>>=◌}
use graph_ops.Base.Map.{Map}
use graph_ops.Base.Result.{Result, ok, err}
use graph_ops.Base.Slice.{Slice, slice}
use graph_ops.Base.Value.{Json}
use graph_ops.Incident.Types.{
  IncidentContext, ApprovalDecision, AnalysisSnapshot, FinalReport, Incident, IncidentEvent,
  AgentRun,
}
use graph_ops.Incident.Requests.{ListIncidentsRequest}
use graph_ops.Incident.Repository.{incident_not_found}
use graph_ops.Incident.Store.{list_limit}
use graph_ops.Incident.Mysql.Database.{
  Argument, text, integer, IncidentColumns, EventColumns, AgentRunColumns, Database, Encoding,
}
use graph_ops.Incident.Mysql.Calls.{Method, call, check, collect}

-- A column that is NULL or empty gives nil, any other text is decoded.
unfoldable pub decode_text :
    {A : Type 0} → (String → Result String A) → String → Result String (Option A)
decode_text unmarshal column = elim (unmarshal column) [
  | ok value ↦ ok (some value)
  | err e ↦ err e
]

unfoldable pub decode_column :
    {A : Type 0} → (String → Result String A) → Option String → Result String (Option A)
unfolding decode_text
decode_column unmarshal none = ok none
decode_column unmarshal (some column) =
    if column == "" then ok none else decode_text unmarshal column

-- The same for a map: an empty column leaves it nil.
unfoldable pub decode_object :
    (String → Result String (Option (Map Json))) → String → Result String (Option (Map Json))
decode_object unmarshal column = if column == "" then ok none else unmarshal column

abbrev or_empty : Option String → String
or_empty none = ""
or_empty (some s) = s

unfoldable pub to_incident :
    IncidentColumns
    → Option IncidentContext
    → Option AnalysisSnapshot
    → Option FinalReport
    → Option ApprovalDecision
    → Incident
to_incident row context analysis report approval = record {
  id = row.id;
  service_name = row.service_name;
  severity = row.severity;
  alert_summary = row.alert_summary;
  playbook_key = or_empty row.playbook_key;
  context = context;
  status = row.status;
  approval = approval;
  analysis = analysis;
  report = report;
  created_at = row.created_at;
  updated_at = row.updated_at;
}

abbrev filter_by : String → String → List (String × Argument) → List (String × Argument)
filter_by condition value rest = if value == "" then rest else (condition, text value) ∷ rest

-- `conditions` with `args`, in their order.
unfoldable pub list_conditions : ListIncidentsRequest → List (String × Argument)
list_conditions req =
    filter_by "service_name = ?" req.service_name (filter_by "status = ?" req.status [])

-- `" WHERE " + strings.Join(conditions, " AND ")`
joined : List (String × Argument) → String
joined [] = ""
joined ((condition, _) ∷ []) = condition
joined ((condition, _) ∷ next ∷ rest) = concat condition (concat " AND " (joined (next ∷ rest)))

abbrev where_clause : List (String × Argument) → String
unfolding joined
where_clause [] = ""
where_clause (first ∷ rest) = concat " WHERE " (joined (first ∷ rest))

abbrev values_of : List (String × Argument) → List Argument
values_of [] = []
values_of ((_, value) ∷ rest) = value ∷ values_of rest

unfoldable pub list_query : ListIncidentsRequest → String
unfolding list_conditions where_clause
list_query req =
    concat "SELECT id FROM incidents"
      (concat (where_clause (list_conditions req)) " ORDER BY created_at DESC LIMIT ?")

unfoldable pub list_arguments : ListIncidentsRequest → List Argument
unfolding list_conditions
list_arguments req = values_of (list_conditions req) ++ integer (list_limit req) ∷ []

abbrev get_approval : {D : Type 0} → Database D → String → Method D (Option ApprovalDecision)
get_approval db id = call (db.select_approval id)

module _ {D : Type 0} (db : Database D) (encoding : Encoding) where
  unfoldable pub get_incident : String → Method D Incident
  unfolding decode_column to_incident
  get_incident id = do
    found ← call (db.select_incident id)
    row ← or_fail found incident_not_found
    context ← check (decode_column encoding.unmarshal_context row.context_json)
    analysis ← check (decode_column encoding.unmarshal_analysis row.analysis_json)
    report ← check (decode_column encoding.unmarshal_report row.report_json)
    approval ← get_approval db id
    pure (to_incident row context analysis report approval)

  unfoldable pub list_incidents : ListIncidentsRequest → Method D (Slice Incident)
  unfolding list_query list_arguments get_incident collect
  list_incidents req = do
    rows ← call (db.query_ids (list_query req) (list_arguments req))
    found ← collect get_incident rows
    pure (slice found)

  unfoldable pub read_event : EventColumns → Method D IncidentEvent
  unfolding decode_object
  read_event row = do
    payload ← check (decode_object encoding.unmarshal_object row.payload_json)
    pure (record {
      id = row.id;
      incident_id = row.incident_id;
      event_type = row.event_type;
      actor_type = row.actor_type;
      actor_name = row.actor_name;
      payload = payload;
      created_at = row.created_at;
    })

  unfoldable pub read_agent_run : AgentRunColumns → Method D AgentRun
  unfolding decode_object
  read_agent_run row = do
    input ← check (decode_object encoding.unmarshal_object row.input_json)
    output ← check (decode_object encoding.unmarshal_object row.output_json)
    pure (record {
      id = row.id;
      incident_id = row.incident_id;
      node_name = row.node_name;
      model_name = row.model_name;
      prompt_version = row.prompt_version;
      input = input;
      output = output;
      latency_ms = row.latency_ms;
      status = row.status;
      checkpoint_id = row.checkpoint_id;
      created_at = row.created_at;
    })

  -- The rows are read first; that the incident is there is tested after them.
  unfoldable pub list_events : String → Method D (Slice IncidentEvent)
  unfolding read_event collect get_incident
  list_events id = do
    rows ← call (db.select_events id)
    found ← collect read_event rows
    _ ← get_incident id
    pure (slice found)

  unfoldable pub list_agent_runs : String → Method D (Slice AgentRun)
  unfolding read_agent_run collect get_incident
  list_agent_runs id = do
    rows ← call (db.select_agent_runs id)
    found ← collect read_agent_run rows
    _ ← get_incident id
    pure (slice found)
