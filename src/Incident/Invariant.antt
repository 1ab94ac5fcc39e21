-- ===== src/Incident/Invariant.antt =====
-- The well-formedness of `MemoryStore` (internal/incidentapi/store.go), kept by every command.
use graph_ops.Base.{
  ℕ, ◌+◌, ◌^◌, ◌≤◌, ◌<◌, String, ◌≡◌, refl, inl, inr, none, some, List, arith, Option-cases, ◌∙◌,
}
use graph_ops.Base.Decimal.{padded_behind_dash_inj}
use graph_ops.Base.Int.{next_u64, next_u64-eq_suc, to_int64_of_small}
use graph_ops.Base.Map.{get, get-empty, put-at_each}
use graph_ops.Base.Slice.{Slice, items}
use graph_ops.Base.Value.{Time, Clock}
use graph_ops.Incident.Types.{Incident, IncidentEvent, AgentRun}
use graph_ops.Incident.Requests.{
  CreateIncidentRequest, RecordIncidentEventRequest, RecordAgentRunRequest,
}
use graph_ops.Incident.Contents.{HasLabels, clone_context-HasLabels}
use graph_ops.Incident.Lifecycle.{IsConsistent, new_incident-IsConsistent}
use graph_ops.Incident.Numbering.{Numbered, put-Numbered}
use graph_ops.Incident.Store.{
  MemoryStore, new_memory_store, incident_id, new_incident, create_incident, modify, at_key,
  record_event, record_agent_run, new_event, new_agent_run,
}

-- An entry of the map of incidents.
pub record IsEntry (seq : ℕ) (id : String) (i : Incident) : Type 0 where
  pub keyed : i.id ≡ id
  pub consistent : IsConsistent i
  pub labels : HasLabels i.context
  pub issued : (now : Time) × (n : ℕ) × (id ≡ incident_id now n) × (n ≤ seq)

abbrev EventsNumbered : String → ℕ → List IncidentEvent → Type 0
EventsNumbered id hi = Numbered (λ e. e.id) (λ e. e.incident_id) id 0 hi

abbrev RunsNumbered : String → ℕ → List AgentRun → Type 0
RunsNumbered id hi = Numbered (λ r. r.id) (λ r. r.incident_id) id 0 hi

-- Every incident stands under its id, which was issued for it, and is consistent; the events and
-- the agent runs under an id are that incident's, with ascending numbers.
pub record IsValid (s : MemoryStore) : Type 0 where
  pub entries : (id : String) (i : Incident) → get s.incidents id ≡ some i → IsEntry s.seq id i
  pub events :
      (id : String) → EventsNumbered id s.event_seq (items (at_key s.events_by_incident id))
  pub runs :
      (id : String) → RunsNumbered id s.agent_run_seq (items (at_key s.agent_runs_by_incident id))

pub new_memory_store-IsValid : IsValid new_memory_store
new_memory_store-IsValid = record {
  entries = λ id i h. cc (get-empty {V = Incident} id);
  events = λ id. rw (get-empty {V = Slice IncidentEvent} id) (omega arith);
  runs = λ id. rw (get-empty {V = Slice AgentRun} id) (omega arith);
}

-- No counter reaches its limit within `n` more calls.
pub record HasRoom (n : ℕ) (s : MemoryStore) : Type 0 where
  pub seq : s.seq + n < 2 ^ 63
  pub event_seq : s.event_seq + n < 2 ^ 63
  pub agent_run_seq : s.agent_run_seq + n < 2 ^ 63

pub incident_id_inj :
    (now before : Time) (m n : ℕ) → incident_id now m ≡ incident_id before n → m ≡ n
unfolding incident_id
incident_id_inj now before m n e = padded_behind_dash_inj 6 m n _ _ e

-- The id of a new incident is the id of no other one.
pub incident_id-fresh :
    (now : Time) (s : MemoryStore)
    → IsValid s
    → HasRoom 1 s
    → get s.incidents (incident_id now (next_u64 s.seq)) ≡ none
incident_id-fresh now s v room =
    elim (Option-cases (get s.incidents (incident_id now (next_u64 s.seq)))) [
      | inl missing ↦ missing
      | inr (i, found) ↦
          let (before, n, e, le) = (v.entries (incident_id now (next_u64 s.seq)) i found).issued in
          let same : next_u64 s.seq ≡ n = incident_id_inj now before (next_u64 s.seq) n e in
          absurd (omega (arith, next_u64-eq_suc s.seq (omega arith)))
    ]

pub new_incident-IsEntry :
    (now : Time) (n : ℕ) (req : CreateIncidentRequest)
    → IsEntry n (incident_id now n) (new_incident (incident_id now n) req now)
unfolding new_incident
new_incident-IsEntry now n req = record {
  keyed = refl;
  consistent = new_incident-IsConsistent (incident_id now n) req now;
  labels = clone_context-HasLabels req.context;
  issued = (now, n, refl, omega arith);
}

pub IsEntry-le : (m n : ℕ) (id : String) (i : Incident) → m ≤ n → IsEntry m id i → IsEntry n id i
IsEntry-le m n id i le e =
    let (now, k, same, bound) = e.issued in
    record {
      keyed = e.keyed;
      consistent = e.consistent;
      labels = e.labels;
      issued = (now, k, same, omega arith);
    }

-- A change that keeps the id and the context and leaves the incident consistent.
pub IsEntry-change :
    {seq : ℕ} {id : String} (i i' : Incident)
    → i'.id ≡ i.id
    → i'.context ≡ i.context
    → IsConsistent i'
    → IsEntry seq id i
    → IsEntry seq id i'
IsEntry-change i i' same_id same_context consistent e = record {
  keyed = same_id ∙ e.keyed;
  consistent = consistent;
  labels = rw same_context e.labels;
  issued = e.issued;
}

pub create-IsValid :
    (req : CreateIncidentRequest) (clock : Clock) (s : MemoryStore)
    → HasRoom 1 s
    → IsValid s
    → IsValid (create_incident req clock s).1
unfolding create_incident
create-IsValid req clock s room v =
    let n = next_u64 s.seq in
    let le : s.seq ≤ n = omega (arith, next_u64-eq_suc s.seq (omega arith)) in
    record {
      entries =
          put-at_each (IsEntry n) s.incidents (incident_id (clock 0) n)
            (new_incident (incident_id (clock 0) n) req (clock 0))
            (λ j i h. IsEntry-le s.seq n j i le (v.entries j i h))
            (new_incident-IsEntry (clock 0) n req);
      events = v.events;
      runs = v.runs;
    }

-- A change in place that keeps entries entries keeps the store valid.
pub modify-IsValid :
    (id : String) (change : Incident → Incident) (s : MemoryStore)
    → ((i : Incident) → IsEntry s.seq id i → IsEntry s.seq id (change i))
    → IsValid s
    → IsValid (modify id change s).1
unfolding modify
modify-IsValid id change s keep v = elim (Option-cases (get s.incidents id)) [
  | inl missing ↦ rw (missing, modify) v
  | inr (i, found) ↦
      rw (found, modify)
        (record {
          entries =
              put-at_each (IsEntry s.seq) s.incidents id (change i) v.entries
                (keep i (v.entries id i found));
          events = v.events;
          runs = v.runs;
        })
]

pub event-IsValid :
    (id : String) (req : RecordIncidentEventRequest) (clock : Clock) (s : MemoryStore)
    → HasRoom 1 s
    → IsValid s
    → IsValid (record_event id req clock s).1
unfolding record_event
event-IsValid id req clock s room v = elim (Option-cases (get s.incidents id)) [
  | inl missing ↦ rw (missing, record_event) v
  | inr (i, found) ↦
      rw (found, record_event)
        (record {
          entries = v.entries;
          events =
              put-Numbered (λ e. e.id) (λ e. e.incident_id) s.events_by_incident s.event_seq
                (next_u64 s.event_seq) id (new_event id (next_u64 s.event_seq) req (clock 0))
                v.events (omega (arith, next_u64-eq_suc s.event_seq (omega arith)))
                (unfold new_event in
                  to_int64_of_small (next_u64 s.event_seq)
                    (omega (arith, next_u64-eq_suc s.event_seq (omega arith))))
                (unfold new_event in refl);
          runs = v.runs;
        })
]

pub agent_run-IsValid :
    (id : String) (req : RecordAgentRunRequest) (clock : Clock) (s : MemoryStore)
    → HasRoom 1 s
    → IsValid s
    → IsValid (record_agent_run id req clock s).1
unfolding record_agent_run
agent_run-IsValid id req clock s room v = elim (Option-cases (get s.incidents id)) [
  | inl missing ↦ rw (missing, record_agent_run) v
  | inr (i, found) ↦
      rw (found, record_agent_run)
        (record {
          entries = v.entries;
          events = v.events;
          runs =
              put-Numbered (λ r. r.id) (λ r. r.incident_id) s.agent_runs_by_incident s.agent_run_seq
                (next_u64 s.agent_run_seq) id
                (new_agent_run id (next_u64 s.agent_run_seq) req (clock 0)) v.runs
                (omega (arith, next_u64-eq_suc s.agent_run_seq (omega arith)))
                (unfold new_agent_run in
                  to_int64_of_small (next_u64 s.agent_run_seq)
                    (omega (arith, next_u64-eq_suc s.agent_run_seq (omega arith))))
                (unfold new_agent_run in refl);
        })
]
