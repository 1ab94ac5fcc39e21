-- ===== src/Incident/Examples/Calls.antt =====
-- The calls of the memory store (internal/incidentapi/store.go) on concrete data.
use mathlib.Core.List.Perm
use graph_ops.Base.{◌≡◌, refl, none, List, [], ◌∷◌, arith, ne_of_eq-false}
use graph_ops.Base.Int.{pos, next_u64}
use graph_ops.Base.Map.{get, values}
use graph_ops.Base.Result.{ok, err}
use graph_ops.Base.Slice.{slice}
use graph_ops.Incident.Types.{Incident}
use graph_ops.Incident.Requests.{ListIncidentsRequest}
use graph_ops.Incident.Repository.{incident_not_found}
use graph_ops.Incident.Store.{
  new_memory_store, incident_id, get_incident, save_analysis, save_report, review_incident,
  record_event, record_agent_run, list_events, list_agent_runs, list_incidents,
}
use graph_ops.Incident.Commands.{create, report, execute_command, run_commands}
use graph_ops.Incident.Calls.{SameFor, execute_command-SameFor, unknown_incident, get-change}
use graph_ops.Incident.Invariant.{IsValid, incident_id-fresh, new_memory_store-IsValid}
use graph_ops.Incident.Runs.{run_commands-IsValid}
use graph_ops.Incident.Listings.{IsListing, list_incidents-IsListing}
use graph_ops.Incident.Interleaving.{
  Event, reserve, insert, call, IsSound, run_events, run_events-IsSound,
}
use graph_ops.Incident.Examples.{
  checkout_request, morning, noon, visit, two_incidents, ann, diagnosis, recovery, note, node_run,
  story, other_unknown,
}

abbrev race : List Event
race =
    reserve checkout_request noon
    ∷ reserve checkout_request noon
    ∷ insert 1
    ∷ call (create checkout_request) noon
    ∷ insert 0
    ∷ []

run_events-IsSound_example :
    IsSound (run_events race (record { store = new_memory_store; waiting = [] }))
run_events-IsSound_example = run_events-IsSound race (omega arith)

run_commands-IsValid_example : IsValid (run_commands story new_memory_store)
run_commands-IsValid_example = run_commands-IsValid story (omega arith)

list_incidents-IsListing_example :
    let req : ListIncidentsRequest = record {
      service_name = "checkout";
      status = "";
      limit = pos 1;
    } in
    (out : List Incident) × (list_incidents visit req two_incidents ≡ ok (slice out))
    × IsListing req (values two_incidents.incidents) out
list_incidents-IsListing_example =
    list_incidents-IsListing visit
      (record { service_name = "checkout"; status = ""; limit = pos 1 }) two_incidents Perm.refl

execute_command-SameFor_example :
    SameFor "inc-2" (execute_command (report "inc-1" recovery) noon two_incidents) two_incidents
execute_command-SameFor_example =
    execute_command-SameFor (report "inc-1" recovery) noon two_incidents "inc-2"
      (ne_of_eq-false "inc-1" "inc-2" refl)

unknown_incident_example :
    (save_analysis "other" diagnosis noon two_incidents ≡ (err incident_not_found, two_incidents))
    × (save_report "other" recovery noon two_incidents ≡ (err incident_not_found, two_incidents))
    × (review_incident "other" "approved" ann noon two_incidents
        ≡ (err incident_not_found, two_incidents))
    × (record_event "other" note noon two_incidents ≡ (err incident_not_found, two_incidents))
    × (record_agent_run "other" node_run noon two_incidents
        ≡ (err incident_not_found, two_incidents))
    × (list_events "other" two_incidents ≡ err incident_not_found)
    × (list_agent_runs "other" two_incidents ≡ err incident_not_found)
unknown_incident_example =
    unknown_incident "other" "approved" diagnosis recovery ann note node_run noon two_incidents
      other_unknown

get-change_example :
    (get_incident "inc-1" (save_analysis "inc-1" diagnosis noon two_incidents).1
      ≡ (save_analysis "inc-1" diagnosis noon two_incidents).0)
    × (get_incident "inc-1" (save_report "inc-1" recovery noon two_incidents).1
        ≡ (save_report "inc-1" recovery noon two_incidents).0)
    × (get_incident "inc-1" (review_incident "inc-1" "approved" ann noon two_incidents).1
        ≡ (review_incident "inc-1" "approved" ann noon two_incidents).0)
get-change_example = get-change "inc-1" "approved" diagnosis recovery ann noon two_incidents

incident_id-fresh_example : get new_memory_store.incidents (incident_id morning (next_u64 0)) ≡ none
incident_id-fresh_example =
    incident_id-fresh morning new_memory_store new_memory_store-IsValid (omega arith)
