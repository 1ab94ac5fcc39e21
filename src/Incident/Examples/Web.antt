-- ===== src/Incident/Examples/Web.antt =====
-- The handlers of internal/incidentapi/server.go on concrete data.
use mathlib.Core.List.Perm
use graph_ops.Base.{◌≡◌, ◌↔◌, refl, List, arith, ne_of_eq-false}
use graph_ops.Base.Int.{pos}
use graph_ops.Base.Map.{values}
use graph_ops.Base.Result.{ok}
use graph_ops.Base.Slice.{slice}
use graph_ops.Base.Text.{trim_space}
use graph_ops.Incident.Types.{Incident, FinalReport}
use graph_ops.Incident.Requests.{ListIncidentsRequest}
use graph_ops.Incident.Clone.{clone_incident}
use graph_ops.Incident.Contents.{SameFindings}
use graph_ops.Incident.Store.{new_memory_store}
use graph_ops.Incident.Commands.{approve}
use graph_ops.Incident.Invariant.{IsValid}
use graph_ops.Incident.Listings.{IsListing}
use graph_ops.Base.Atoi.{atoi}
use graph_ops.Incident.Pages.{number, handle_list_incidents-IsListing}
use graph_ops.Incident.Server.{
  handle_list_incidents, incidents_body, handle_create_incident, handle_get_incident,
  handle_get_report, handle_save_report, handle_review_incident, incident_body, report_body,
}
use graph_ops.Incident.Api.{memory_repository, post_report, serve, serve_all}
use graph_ops.Incident.Serving.{IsServed, serve-IsServed, serve_all-IsValid}
use graph_ops.Incident.Exchanges.{IsAccepted, handle_create_incident_iff}
use graph_ops.Incident.Outcomes.{IsReviewed, report-handle_save_report, get-handle_review_incident}
use graph_ops.Incident.Examples.{
  noon, visit, checkout_request, incident_1, two_incidents, ann, recovery_report, recovery,
  requests, known,
}

serve-IsServed_example :
    IsServed noon two_incidents
      (serve (memory_repository visit) (post_report "inc-1" (ok recovery)) noon two_incidents)
serve-IsServed_example = serve-IsServed visit (post_report "inc-1" (ok recovery)) noon two_incidents

serve_all-IsValid_example : IsValid (serve_all (memory_repository visit) requests new_memory_store)
serve_all-IsValid_example = serve_all-IsValid visit requests (omega arith)

handle_create_incident_iff_example :
    let out =
      handle_create_incident (memory_repository visit) (ok checkout_request) noon two_incidents in
    (out.0.status ≡ 201) ↔ IsAccepted checkout_request
handle_create_incident_iff_example =
    handle_create_incident_iff visit checkout_request noon two_incidents

get-handle_review_incident_example :
    let store = memory_repository visit in
    let (answer, after_review) =
      handle_review_incident store "inc-1" "approved" (ok ann) noon two_incidents in
    (i : Incident) × (answer ≡ record { status = 200; body = incident_body i })
    × (handle_get_incident store "inc-1" after_review
        ≡ record { status = 200; body = incident_body i })
    × IsReviewed approve ann noon (clone_incident incident_1) i
get-handle_review_incident_example =
    get-handle_review_incident visit "inc-1" approve ann noon two_incidents
      (clone_incident incident_1) (unfold trim_space in ne_of_eq-false "ann" "" refl) known

report-handle_save_report_example :
    let store = memory_repository visit in
    let saved = handle_save_report store "inc-1" (ok recovery) noon two_incidents in
    (returned : FinalReport) × (handle_get_report store "inc-1" saved.1
      ≡ record { status = 200; body = report_body returned })
    × SameFindings returned recovery_report
report-handle_save_report_example =
    report-handle_save_report visit "inc-1" recovery_report noon two_incidents
      (clone_incident incident_1) known

handle_list_incidents-IsListing_example :
    let req : ListIncidentsRequest = record {
      service_name = trim_space " checkout";
      status = trim_space "";
      limit = pos 1;
    } in
    (out : List Incident) × (handle_list_incidents
        (memory_repository visit)
        " checkout"
        ""
        "1 "
        two_incidents
      ≡ record { status = 200; body = incidents_body (slice out) })
    × IsListing req (values two_incidents.incidents) out
handle_list_incidents-IsListing_example =
    handle_list_incidents-IsListing visit " checkout" "" "1 " (pos 1) two_incidents Perm.refl (
      number {n = pos 1} (unfold trim_space in ne_of_eq-false (trim_space "1 ") "" refl)
        (unfold trim_space atoi in refl))
