-- ===== src/Incident/Store/Journal.antt =====
-- internal/incidentapi/store.go: the events and the agent runs of an incident.
use graph_ops.Base.{ℕ, String, ◌≡◌, ◌≢◌, ap, Option, none, some, [], ◌∷◌, ◌++◌}
use graph_ops.Base.Int.{pos, next_u64, to_int64}
use graph_ops.Base.Map.{Map, get, put, get-put_self, get-put_ne}
use graph_ops.Base.Result.{ok, err}
use graph_ops.Base.Slice.{Slice, nil_slice, slice, items, copy}
use graph_ops.Base.Value.{Time, Clock}
use graph_ops.Incident.Types.{Incident, IncidentEvent, AgentRun}
use graph_ops.Incident.Requests.{RecordIncidentEventRequest, RecordAgentRunRequest}
use graph_ops.Incident.Clone.{clone_any_map}
use graph_ops.Incident.Repository.{Outcome, incident_not_found}
use graph_ops.Incident.Store.State.{MemoryStore}

abbrev or_nil {ℓ} : {A : Type ℓ} → Option (Slice A) → Slice A
or_nil none = nil_slice
or_nil (some found) = found

-- The value of a map of slices: nil where the key is missing.
abbrev pub at_key {ℓ} : {A : Type ℓ} → Map (Slice A) → String → Slice A
at_key m id = or_nil (get m id)

pub at_key-put_self {ℓ} :
    {A : Type ℓ} (m : Map (Slice A)) (k : String) (v : Slice A) → at_key (put m k v) k ≡ v
at_key-put_self m k v = ap or_nil (get-put_self m k v)

pub at_key-put_ne {ℓ} :
    {A : Type ℓ} (m : Map (Slice A)) (k j : String) (v : Slice A)
    → k ≢ j
    → at_key (put m k v) j ≡ at_key m j
at_key-put_ne m k j v h = ap or_nil (get-put_ne m k j v h)

-- A copy of the slice, if the incident is there.
abbrev pub listed : {A : Type 0} → Option Incident → Slice A → Outcome (Slice A)
listed none found = err incident_not_found
listed (some _) found = ok (copy found)

unfoldable pub list_events : String → MemoryStore → Outcome (Slice IncidentEvent)
list_events id s = listed (get s.incidents id) (at_key s.events_by_incident id)

unfoldable pub list_agent_runs : String → MemoryStore → Outcome (Slice AgentRun)
list_agent_runs id s = listed (get s.incidents id) (at_key s.agent_runs_by_incident id)

unfoldable pub new_event : String → ℕ → RecordIncidentEventRequest → Time → IncidentEvent
new_event id seq req now = record {
  id = to_int64 (pos seq);
  incident_id = id;
  event_type = req.event_type;
  actor_type = req.actor_type;
  actor_name = req.actor_name;
  payload = some (clone_any_map req.payload);
  created_at = now;
}

unfoldable pub record_event :
    String → RecordIncidentEventRequest → Clock → MemoryStore → Outcome Unit × MemoryStore
record_event id req clock s = elim (get s.incidents id) [
  | none ↦ (err incident_not_found, s)
  | some _ ↦
      let seq = next_u64 s.event_seq in
      let event = new_event id seq req (clock 0) in
      let before = items (at_key s.events_by_incident id) in
      (
        ok tt,
        record s {
          event_seq = seq;
          events_by_incident = put s.events_by_incident id (slice (before ++ event ∷ []));
        },
      )
]

unfoldable pub new_agent_run : String → ℕ → RecordAgentRunRequest → Time → AgentRun
new_agent_run id seq req now = record {
  id = to_int64 (pos seq);
  incident_id = id;
  node_name = req.node_name;
  model_name = req.model_name;
  prompt_version = req.prompt_version;
  input = some (clone_any_map req.input);
  output = some (clone_any_map req.output);
  latency_ms = req.latency_ms;
  status = req.status;
  checkpoint_id = req.checkpoint_id;
  created_at = now;
}

unfoldable pub record_agent_run :
    String → RecordAgentRunRequest → Clock → MemoryStore → Outcome Unit × MemoryStore
record_agent_run id req clock s = elim (get s.incidents id) [
  | none ↦ (err incident_not_found, s)
  | some _ ↦
      let seq = next_u64 s.agent_run_seq in
      let run = new_agent_run id seq req (clock 0) in
      let before = items (at_key s.agent_runs_by_incident id) in
      (
        ok tt,
        record s {
          agent_run_seq = seq;
          agent_runs_by_incident = put s.agent_runs_by_incident id (slice (before ++ run ∷ []));
        },
      )
]
