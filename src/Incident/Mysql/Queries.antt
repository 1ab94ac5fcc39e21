-- ===== src/Incident/Mysql/Queries.antt =====
-- internal/incidentapi/mysql_store.go: what the methods that read lists give.
use mathlib.Core.Path.{subst}
use graph_ops.Base.{String, ◌≡◌, refl, sym, ◌∙◌, Option, none, List}
use graph_ops.Base.Action.{Action, pure, ◌>>=◌}
use graph_ops.Base.Result.{Result, ok}
use graph_ops.Base.Map.{Map}
use graph_ops.Base.Value.{Json}
use graph_ops.Base.Slice.{items, slice}
use graph_ops.Incident.Types.{Incident, IncidentEvent, AgentRun}
use graph_ops.Incident.Requests.{ListIncidentsRequest}
use graph_ops.Incident.Mysql.Database.{Rows, EventColumns, AgentRunColumns, Database, Encoding}
use graph_ops.Incident.Mysql.Calls.{call, Method, collect}
use graph_ops.Incident.Mysql.Reads.{
  decode_object, get_incident, list_incidents, read_event, read_agent_run, list_events,
  list_agent_runs, list_query, list_arguments,
}
use graph_ops.Incident.Mysql.Tables.{Tables, Storage, events_of, agent_runs_of}
use graph_ops.Incident.Listings.{asked_for}
use graph_ops.Incident.Mysql.Listing.{
  listing_text, listing_arguments, filter_of, list_query-text, IsSelected,
}
use graph_ops.Incident.Mysql.Server.{Behaves}
use graph_ops.Incident.Mysql.Found.{IsFound, get_incident-IsFound}
use graph_ops.Incident.Mysql.Reading.{
  AllMade, Reads, Reads-pure, Reads-bind, Reads-check, Reads-call, collect-Reads,
}

module _ (encoding : Encoding) where
  -- The event of a row: its columns, with the payload decoded.
  abbrev pub IsEventOf : EventColumns → IncidentEvent → Type 0
  IsEventOf row item =
      (payload : Option (Map Json)) × (decode_object encoding.unmarshal_object row.payload_json
        ≡ ok payload)
      × (item ≡ record {
        id = row.id;
        incident_id = row.incident_id;
        event_type = row.event_type;
        actor_type = row.actor_type;
        actor_name = row.actor_name;
        payload = payload;
        created_at = row.created_at;
      })

  -- The agent run of a row: its columns, with input and output decoded.
  abbrev pub IsAgentRunOf : AgentRunColumns → AgentRun → Type 0
  IsAgentRunOf row item =
      (input : Option (Map Json)) × (output : Option (Map Json)) × (decode_object
          encoding.unmarshal_object row.input_json
        ≡ ok input)
      × (decode_object encoding.unmarshal_object row.output_json ≡ ok output)
      × (item ≡ record {
        id = row.id;
        incident_id = row.incident_id;
        node_name = row.node_name;
        model_name = row.model_name;
        prompt_version = row.prompt_version;
        input = input;
        output = output;
        latency_ms = row.latency_ms;
        status = row.status;
        checkpoint_id = row.checkpoint_id;
        created_at = row.created_at;
      })

module _ {D : Type 0} (storage : Storage) (db : Database D) (laws : Behaves storage db)
    (encoding : Encoding) (t : Tables) where
  get_incident-Reads :
      (id : String)
      → Reads laws.tables t (get_incident db encoding id) (IsFound storage encoding id t)
  get_incident-Reads id d at_t =
      let (same, found) = get_incident-IsFound storage db laws encoding id d in
      (same ∙ at_t, λ incident h. rw (sym at_t) (found incident h))

  -- The ids that the query of a request gives.
  query_ids-Reads :
      (req : ListIncidentsRequest)
      → Reads laws.tables t (call (db.query_ids (list_query req) (list_arguments req))) (λ rows.
        rows.failure ≡ none
        → IsSelected storage
            (filter_of req.service_name)
            (filter_of req.status)
            (asked_for req.limit)
            t
            rows.read)
  query_ids-Reads req =
      let (is_text, are_arguments) = list_query-text req in
      rw (is_text, are_arguments)
        (Reads-call laws.tables t
          (λ t rows.
            rows.failure ≡ none
            → IsSelected storage (filter_of req.service_name) (filter_of req.status)
                (asked_for req.limit) t rows.read)
          (db.query_ids (listing_text (filter_of req.service_name) (filter_of req.status)) (
            listing_arguments (filter_of req.service_name) (filter_of req.status)
              (asked_for req.limit)))
          (λ d d' r h. (
            laws.query_ids _ _ d d' r h,
            laws.list_ids (filter_of req.service_name) (filter_of req.status) (asked_for req.limit)
                d d' r h,
          )))

  -- `ListIncidents` changes no table. A list that it gives has the first `limit` (50, if that is not
  -- positive) of the incidents in the tables with the service and the status that are asked for, the
  -- newest first, each as it is in the tables.
  pub list_incidents-Reads :
      (req : ListIncidentsRequest)
      → Reads laws.tables t (list_incidents db encoding req) (λ listed.
        (ids : List String) × IsSelected storage
          (filter_of req.service_name)
          (filter_of req.status)
          (asked_for req.limit)
          t
          ids
        × AllMade (λ id. IsFound storage encoding id t) ids (items listed))
  unfolding list_incidents
  list_incidents-Reads req =
      Reads-bind laws.tables t _ _ _ _ (query_ids-Reads req) (λ rows selected.
        Reads-bind laws.tables t _ _ _ _
          (collect-Reads laws.tables t (λ id. IsFound storage encoding id t)
            (get_incident db encoding) get_incident-Reads rows)
          (λ bs (all_made, complete).
            Reads-pure laws.tables t _ (slice bs) (rows.read, selected complete, all_made)))

  read_event-Reads :
      (row : EventColumns)
      → Reads laws.tables t (read_event db encoding row) (IsEventOf encoding row)
  unfolding read_event
  read_event-Reads row =
      Reads-bind laws.tables t _ _ _ _
        (Reads-check laws.tables t (decode_object encoding.unmarshal_object row.payload_json))
        (λ payload decodes. Reads-pure laws.tables t _ _ (payload, decodes, refl))

  read_agent_run-Reads :
      (row : AgentRunColumns)
      → Reads laws.tables t (read_agent_run db encoding row) (IsAgentRunOf encoding row)
  unfolding read_agent_run
  read_agent_run-Reads row =
      Reads-bind laws.tables t _ _ _ _
        (Reads-check laws.tables t (decode_object encoding.unmarshal_object row.input_json))
        (λ input decodes_input.
          Reads-bind laws.tables t _ _ _ _
            (Reads-check laws.tables t (decode_object encoding.unmarshal_object row.output_json))
            (λ output decodes_output.
              Reads-pure laws.tables t _ _ (input, output, decodes_input, decodes_output, refl)))

  -- A list of rows that is read before it is tested that there is such an incident.
  rows-Reads :
      {A B : Type 0} (query : Action String D (Rows A)) (body : A → Method D B) (id : String)
      (expected : Tables → List A) (Made : A → B → Type 0)
      → ((d d' : D) (r : Result String (Rows A))
          → ◌≡◌ {A = Result String (Rows A) × D} (query d) (r, d')
          → (laws.tables d' ≡ laws.tables d)
            × ((rows : Rows A)
                → r ≡ ok rows
                → rows.failure ≡ none
                → rows.read ≡ expected (laws.tables d)))
      → ((row : A) → Reads laws.tables t (body row) (Made row))
      → Reads laws.tables t
          (do
            rows ← call query
            found ← collect body rows
            _ ← get_incident db encoding id
            pure (slice found))
          (λ listed.
            ((incident : Incident) × IsFound storage encoding id t incident)
            × AllMade Made (expected t) (items listed))
  rows-Reads query body id expected Made law reads =
      Reads-bind laws.tables t _ _ _ _
        (Reads-call laws.tables t (λ t rows. rows.failure ≡ none → rows.read ≡ expected t) query
          law)
        (λ rows read.
          Reads-bind laws.tables t _ _ _ _ (collect-Reads laws.tables t Made body reads rows)
            (λ found (all_made, complete).
              Reads-bind laws.tables t _ _ _ _ (get_incident-Reads id) (λ incident is_found.
                Reads-pure laws.tables t _ (slice found) (
                  (incident, is_found),
                  subst (λ rows. AllMade Made rows found) (read complete) all_made,
                ))))

  -- `ListEvents` and `ListAgentRuns` change no table. A list that they give is that of an incident in
  -- the tables, and has one item for each row of that incident, in ascending order of their numbers:
  -- the row's columns, with the JSON ones decoded.
  pub history-Reads :
      (id : String)
      → Reads laws.tables t (list_events db encoding id) (λ listed.
        ((incident : Incident) × IsFound storage encoding id t incident)
        × AllMade (IsEventOf encoding) (events_of storage id t) (items listed))
        × Reads laws.tables t (list_agent_runs db encoding id) (λ listed.
          ((incident : Incident) × IsFound storage encoding id t incident)
          × AllMade (IsAgentRunOf encoding) (agent_runs_of storage id t) (items listed))
  unfolding list_events list_agent_runs
  history-Reads id = (
    rows-Reads (db.select_events id) (read_event db encoding) id (events_of storage id)
        (IsEventOf encoding) (laws.select_events id) read_event-Reads,
    rows-Reads (db.select_agent_runs id) (read_agent_run db encoding) id (agent_runs_of storage id)
        (IsAgentRunOf encoding) (laws.select_agent_runs id) read_agent_run-Reads,
  )
