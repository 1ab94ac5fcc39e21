-- ===== src/Incident/Clone.antt =====
-- The copying functions of internal/incidentapi/store.go: `cloneIncidentContext`, `cloneAnyMap` and
-- `cloneIncident`. Values are immutable here, so a copied pointer is the copied value; what is left
-- to see of a copy is which slices and maps come out nil.
use graph_ops.Base.{String, Option, none, some}
use graph_ops.Base.Map
use graph_ops.Base.Map.{Map, copy_entries}
use graph_ops.Base.Slice.{copy}
use graph_ops.Base.Value.{Json}
use graph_ops.Incident.Types.{IncidentContext, ActionPlan, AnalysisSnapshot, FinalReport, Incident}

abbrev pub copy_labels : Option (Map String) → Option (Map String)
copy_labels none = none
copy_labels (some labels) = some (copy_entries Map.empty labels)

unfoldable pub clone_incident_context : Option IncidentContext → Option IncidentContext
clone_incident_context none = none
clone_incident_context (some context) =
    some (record context { labels = copy_labels context.labels })

unfoldable pub clone_any_map : Option (Map Json) → Map Json
clone_any_map none = Map.empty
clone_any_map (some payload) = copy_entries Map.empty payload

abbrev pub clone_action : Option ActionPlan → Option ActionPlan
clone_action none = none
clone_action (some action) = some (record action { evidence_ids = copy action.evidence_ids })

abbrev pub clone_analysis : Option AnalysisSnapshot → Option AnalysisSnapshot
clone_analysis none = none
clone_analysis (some analysis) = some (record {
  evidence = copy analysis.evidence;
  hypotheses = copy analysis.hypotheses;
  proposed_action = clone_action analysis.proposed_action;
})

abbrev pub copied_report : FinalReport → FinalReport
copied_report report = record report {
  anomaly_summary = copy report.anomaly_summary;
  handling_suggestions = copy report.handling_suggestions;
  metrics = copy report.metrics;
  release_comparisons = copy report.release_comparisons;
  anomalies = copy report.anomalies;
}

abbrev pub clone_report : Option FinalReport → Option FinalReport
clone_report none = none
clone_report (some report) = some (copied_report report)

unfoldable pub clone_incident : Incident → Incident
clone_incident incident = record incident {
  context = clone_incident_context incident.context;
  analysis = clone_analysis incident.analysis;
  report = clone_report incident.report;
}
