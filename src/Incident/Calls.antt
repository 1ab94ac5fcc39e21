-- ===== src/Incident/Calls.antt =====
-- The calls of `MemoryStore` (internal/incidentapi/store.go) seen by a client: reads after writes,
-- unknown incidents, and what a call leaves alone.
use graph_ops.Base.{
  ℕ, String, ◌≡◌, ◌≢◌, refl, ap, inl, inr, none, arith, eq_refl, Option-cases, eq-false_of_ne,
}
use graph_ops.Base.Int.{next_u64}
use graph_ops.Base.Map.{get, put, get-put}
use graph_ops.Base.Result.{ok, err, ok-injective}
use graph_ops.Base.Value.{Clock}
use graph_ops.Incident.Types.{Incident}
use graph_ops.Incident.Requests.{
  CreateIncidentRequest, ReviewIncidentRequest, UpsertAnalysisRequest, UpsertReportRequest,
  RecordIncidentEventRequest, RecordAgentRunRequest,
}
use graph_ops.Incident.Clone.{clone_incident}
use graph_ops.Incident.Repository.{incident_not_found}
use graph_ops.Incident.Store.{
  MemoryStore, at_key-put_ne, listed, create_incident, new_incident, get_incident, modify,
  save_analysis, save_report, review_incident, list_events, list_agent_runs, record_event,
  record_agent_run, with_analysis, with_report, with_review, incident_id,
}
use graph_ops.Incident.Commands.{
  Command, create, analyse, report, review, event, agent_run, decision_status, execute_command,
}

get-put_incident :
    (id : String) (incident : Incident) (s : MemoryStore)
    → get_incident id (record s { incidents = put s.incidents id incident })
      ≡ ok (clone_incident incident)
unfolding get_incident
get-put_incident id incident s = rw (get-put, eq_refl, get_incident)

get-modify :
    (id : String) (change : Incident → Incident) (s : MemoryStore)
    → get_incident id (modify id change s).1 ≡ (modify id change s).0
unfolding modify get_incident
get-modify id change s = elim (Option-cases (get s.incidents id)) [
  | inl missing ↦ rw (missing, modify) (rw (missing, get_incident))
  | inr (incident, found) ↦ rw (found, modify) (get-put_incident id (change incident) s)
]

-- A GET of the incident right after a call that changes it returns just what the call returned, the
-- error for an unknown incident included.
pub get-change :
    (id status : String) (a : UpsertAnalysisRequest) (r : UpsertReportRequest)
    (v : ReviewIncidentRequest) (clock : Clock) (s : MemoryStore)
    → (get_incident id (save_analysis id a clock s).1 ≡ (save_analysis id a clock s).0)
      × (get_incident id (save_report id r clock s).1 ≡ (save_report id r clock s).0)
      × (get_incident id (review_incident id status v clock s).1
          ≡ (review_incident id status v clock s).0)
unfolding save_analysis save_report review_incident
get-change id status a r v clock s = (
  get-modify id (with_analysis a (clock 0)) s,
  get-modify id (with_report r (clock 0)) s,
  get-modify id (with_review status v clock) s,
)

get_incident_missing :
    (id : String) (s : MemoryStore)
    → get_incident id s ≡ err incident_not_found
    → get s.incidents id ≡ none
unfolding get_incident
get_incident_missing id s h = ground arith

modify_unknown :
    (id : String) (change : Incident → Incident) (s : MemoryStore)
    → get s.incidents id ≡ none
    → modify id change s ≡ (err incident_not_found, s)
unfolding modify
modify_unknown id change s missing = rw (missing, modify)

-- Every call on an incident that the store does not know reports that it is not found, and writes
-- nothing.
pub unknown_incident :
    (id status : String) (a : UpsertAnalysisRequest) (r : UpsertReportRequest)
    (v : ReviewIncidentRequest) (e : RecordIncidentEventRequest) (g : RecordAgentRunRequest)
    (clock : Clock) (s : MemoryStore)
    → get_incident id s ≡ err incident_not_found
    → (save_analysis id a clock s ≡ (err incident_not_found, s))
      × (save_report id r clock s ≡ (err incident_not_found, s))
      × (review_incident id status v clock s ≡ (err incident_not_found, s))
      × (record_event id e clock s ≡ (err incident_not_found, s))
      × (record_agent_run id g clock s ≡ (err incident_not_found, s))
      × (list_events id s ≡ err incident_not_found)
      × (list_agent_runs id s ≡ err incident_not_found)
unfolding save_analysis save_report review_incident
unknown_incident id status a r v e g clock s h =
    let missing = get_incident_missing id s h in
    (
      modify_unknown id (with_analysis a (clock 0)) s missing,
      modify_unknown id (with_report r (clock 0)) s missing,
      modify_unknown id (with_review status v clock) s missing,
      unfold record_event in rw (missing, record_event),
      unfold record_agent_run in rw (missing, record_agent_run),
      unfold list_events in rw (missing, list_events),
      unfold list_agent_runs in rw (missing, list_agent_runs),
    )

-- A GET of the id that a creation returned gives the incident that it returned.
pub get-create :
    (req : CreateIncidentRequest) (clock : Clock) (s : MemoryStore) (incident : Incident)
    → (create_incident req clock s).0 ≡ ok incident
    → get_incident incident.id (create_incident req clock s).1 ≡ ok incident
unfolding create_incident
get-create req clock s incident h = rw (← ok-injective h) (
    unfold clone_incident new_incident in
    get-put_incident (incident_id (clock 0) (next_u64 s.seq)) _ (record s { seq = next_u64 s.seq }))

-- Nothing that a client can read about one incident differs between two stores.
pub record SameFor (id : String) (s t : MemoryStore) : Type 0 where
  pub incident : get_incident id s ≡ get_incident id t
  pub events : list_events id s ≡ list_events id t
  pub agent_runs : list_agent_runs id s ≡ list_agent_runs id t

-- The incident that a command is about; a creation is about the id that it gives.
abbrev pub target : Command → Clock → MemoryStore → String
target (create req) clock s = incident_id (clock 0) (next_u64 s.seq)
target (analyse id req) clock s = id
target (report id req) clock s = id
target (review id d req) clock s = id
target (event id req) clock s = id
target (agent_run id req) clock s = id

put_incident-SameFor :
    (id j : String) (incident : Incident) (n : ℕ) (s : MemoryStore)
    → id ≢ j
    → SameFor j (record s { seq = n; incidents = put s.incidents id incident }) s
unfolding get_incident list_events list_agent_runs
put_incident-SameFor id j incident n s h =
    let other = eq-false_of_ne id j h in
    record {
      incident = rw (get-put, other, get_incident);
      events = rw (get-put, other, list_events);
      agent_runs = rw (get-put, other, list_agent_runs);
    }

modify-SameFor :
    (id j : String) (change : Incident → Incident) (s : MemoryStore)
    → id ≢ j
    → SameFor j (modify id change s).1 s
unfolding modify
modify-SameFor id j change s h = elim (Option-cases (get s.incidents id)) [
  | inl missing ↦
      rw (missing, modify) (record { incident = refl; events = refl; agent_runs = refl })
  | inr (incident, found) ↦
      rw (found, modify) (put_incident-SameFor id j (change incident) s.seq s h)
]

event-SameFor :
    (id j : String) (req : RecordIncidentEventRequest) (clock : Clock) (s : MemoryStore)
    → id ≢ j
    → SameFor j (record_event id req clock s).1 s
unfolding record_event
event-SameFor id j req clock s h = elim (Option-cases (get s.incidents id)) [
  | inl missing ↦
      rw (missing, record_event) (record { incident = refl; events = refl; agent_runs = refl })
  | inr (incident, found) ↦
      rw (found, record_event)
        (record {
          incident = unfold get_incident in refl;
          events =
              unfold list_events in
              ap (listed (get s.incidents j)) (at_key-put_ne s.events_by_incident id j _ h);
          agent_runs = unfold list_agent_runs in refl;
        })
]

agent_run-SameFor :
    (id j : String) (req : RecordAgentRunRequest) (clock : Clock) (s : MemoryStore)
    → id ≢ j
    → SameFor j (record_agent_run id req clock s).1 s
unfolding record_agent_run
agent_run-SameFor id j req clock s h = elim (Option-cases (get s.incidents id)) [
  | inl missing ↦
      rw (missing, record_agent_run) (record { incident = refl; events = refl; agent_runs = refl })
  | inr (incident, found) ↦
      rw (found, record_agent_run)
        (record {
          incident = unfold get_incident in refl;
          events = unfold list_events in refl;
          agent_runs =
              unfold list_agent_runs in
              ap (listed (get s.incidents j)) (at_key-put_ne s.agent_runs_by_incident id j _ h);
        })
]

-- A command leaves the incident, the events and the agent runs of every other incident as they were.
pub execute_command-SameFor :
    (c : Command) (clock : Clock) (s : MemoryStore) (j : String)
    → target c clock s ≢ j
    → SameFor j (execute_command c clock s) s
unfolding execute_command create_incident save_analysis save_report review_incident
execute_command-SameFor (create req) clock s j h =
    put_incident-SameFor (incident_id (clock 0) (next_u64 s.seq)) j _ (next_u64 s.seq) s h
execute_command-SameFor (analyse id req) clock s j h =
    modify-SameFor id j (with_analysis req (clock 0)) s h
execute_command-SameFor (report id req) clock s j h =
    modify-SameFor id j (with_report req (clock 0)) s h
execute_command-SameFor (review id d req) clock s j h =
    modify-SameFor id j (with_review (decision_status d) req clock) s h
execute_command-SameFor (event id req) clock s j h = event-SameFor id j req clock s h
execute_command-SameFor (agent_run id req) clock s j h = agent_run-SameFor id j req clock s h
