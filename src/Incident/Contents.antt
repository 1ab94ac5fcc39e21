-- ===== src/Incident/Contents.antt =====
-- What a copy of an incident by internal/incidentapi/store.go keeps: the contents. Only a slice that
-- is empty and not nil comes out nil.
use graph_ops.Base.{◌≡◌, refl, ap, Option, none, some, String, []}
use graph_ops.Base.Map.{
  Map, HasDistinctKeys, copy_entries, copy_entries_lem, copy_entries-HasDistinctKeys,
}
use graph_ops.Base.Slice.{items, items-copy, copy_idem}
use graph_ops.Incident.Types.{IncidentContext, ActionPlan, AnalysisSnapshot, FinalReport, Incident}
use graph_ops.Incident.Clone.{
  copy_labels, clone_incident_context, clone_action, clone_analysis, clone_report, clone_incident,
}

-- The labels are a Go map: no key stands in them twice.
abbrev AreLabels : Option (Map String) → Type 0
AreLabels none = Unit
AreLabels (some labels) = HasDistinctKeys labels

abbrev pub HasLabels : Option IncidentContext → Type 0
HasLabels none = Unit
HasLabels (some c) = AreLabels c.labels

-- Two plans agree but for nil and empty slices.
pub record SamePlan (a b : ActionPlan) : Type 0 where
  pub rest : a ≡ record b { evidence_ids = a.evidence_ids }
  pub evidence_ids : items a.evidence_ids ≡ items b.evidence_ids

abbrev pub SameAction : Option ActionPlan → Option ActionPlan → Type 0
SameAction none none = Unit
SameAction (some a) (some b) = SamePlan a b
SameAction _ _ = ⊥

abbrev pub SameAnalysis : Option AnalysisSnapshot → Option AnalysisSnapshot → Type 0
SameAnalysis none none = Unit
SameAnalysis (some a) (some b) =
    (items a.evidence ≡ items b.evidence)
    × (items a.hypotheses ≡ items b.hypotheses)
    × SameAction a.proposed_action b.proposed_action
SameAnalysis _ _ = ⊥

pub record SameFindings (a b : FinalReport) : Type 0 where
  pub rest : a ≡ record b {
    anomaly_summary = a.anomaly_summary;
    handling_suggestions = a.handling_suggestions;
    metrics = a.metrics;
    release_comparisons = a.release_comparisons;
    anomalies = a.anomalies;
  }
  pub anomaly_summary : items a.anomaly_summary ≡ items b.anomaly_summary
  pub handling_suggestions : items a.handling_suggestions ≡ items b.handling_suggestions
  pub metrics : items a.metrics ≡ items b.metrics
  pub release_comparisons : items a.release_comparisons ≡ items b.release_comparisons
  pub anomalies : items a.anomalies ≡ items b.anomalies

abbrev pub SameReport : Option FinalReport → Option FinalReport → Type 0
SameReport none none = Unit
SameReport (some a) (some b) = SameFindings a b
SameReport _ _ = ⊥

pub record SameContents (a b : Incident) : Type 0 where
  pub rest : a ≡ record b { analysis = a.analysis; report = a.report }
  pub analysis : SameAnalysis a.analysis b.analysis
  pub report : SameReport a.report b.report

copy_labels_lem : (o : Option (Map String)) → AreLabels o → copy_labels o ≡ o
copy_labels_lem none h = refl
copy_labels_lem (some labels) h = ap some (copy_entries_lem labels h)

clone_context_lem : (c : Option IncidentContext) → HasLabels c → clone_incident_context c ≡ c
unfolding clone_incident_context
clone_context_lem none h = refl
clone_context_lem (some c) h =
    ap {B = Option IncidentContext} (λ l. some (record c { labels = l }))
      (copy_labels_lem c.labels h)

clone_action-SameAction : (o : Option ActionPlan) → SameAction (clone_action o) o
clone_action-SameAction none = tt
clone_action-SameAction (some a) = record { rest = refl; evidence_ids = items-copy a.evidence_ids }

clone_analysis-SameAnalysis : (o : Option AnalysisSnapshot) → SameAnalysis (clone_analysis o) o
clone_analysis-SameAnalysis none = tt
clone_analysis-SameAnalysis (some a) =
    (items-copy a.evidence, items-copy a.hypotheses, clone_action-SameAction a.proposed_action)

pub clone_report-SameReport : (o : Option FinalReport) → SameReport (clone_report o) o
clone_report-SameReport none = tt
clone_report-SameReport (some r) = record {
  rest = refl;
  anomaly_summary = items-copy r.anomaly_summary;
  handling_suggestions = items-copy r.handling_suggestions;
  metrics = items-copy r.metrics;
  release_comparisons = items-copy r.release_comparisons;
  anomalies = items-copy r.anomalies;
}

-- A clone of an incident has the incident's contents: every field is the same, and every slice has
-- the same items, though an empty one comes out nil.
pub clone_incident-SameContents :
    (i : Incident) → HasLabels i.context → SameContents (clone_incident i) i
unfolding clone_incident
clone_incident-SameContents i h = record {
  rest =
      ap {B = Incident}
        (λ c. record i {
          context = c;
          analysis = clone_analysis i.analysis;
          report = clone_report i.report;
        })
        (clone_context_lem i.context h);
  analysis = clone_analysis-SameAnalysis i.analysis;
  report = clone_report-SameReport i.report;
}

copy_labels_idem : (o : Option (Map String)) → copy_labels (copy_labels o) ≡ copy_labels o
copy_labels_idem none = refl
copy_labels_idem (some m) =
    ap some (copy_entries_lem (copy_entries [] m) (copy_entries-HasDistinctKeys [] m tt))

clone_context_idem :
    (c : Option IncidentContext)
    → clone_incident_context (clone_incident_context c) ≡ clone_incident_context c
unfolding clone_incident_context
clone_context_idem none = refl
clone_context_idem (some c) =
    ap {B = Option IncidentContext} (λ l. some (record c { labels = l }))
      (copy_labels_idem c.labels)

clone_action_idem : (o : Option ActionPlan) → clone_action (clone_action o) ≡ clone_action o
clone_action_idem none = refl
clone_action_idem (some a) = simp copy_idem

clone_analysis_idem :
    (o : Option AnalysisSnapshot) → clone_analysis (clone_analysis o) ≡ clone_analysis o
clone_analysis_idem none = refl
clone_analysis_idem (some a) = simp (copy_idem, clone_action_idem a.proposed_action)

clone_report_idem : (o : Option FinalReport) → clone_report (clone_report o) ≡ clone_report o
clone_report_idem none = refl
clone_report_idem (some r) = simp copy_idem

-- Copying a copy changes nothing.
pub clone_incident_idem : (i : Incident) → clone_incident (clone_incident i) ≡ clone_incident i
unfolding clone_incident
clone_incident_idem i =
    simp (clone_context_idem i.context, clone_analysis_idem i.analysis, clone_report_idem i.report)

copy_labels-HasDistinctKeys : (o : Option (Map String)) → AreLabels (copy_labels o)
copy_labels-HasDistinctKeys none = tt
copy_labels-HasDistinctKeys (some m) = copy_entries-HasDistinctKeys [] m tt

-- A cloned context keeps its labels, and is the context if it comes from a Go map.
pub clone_context-HasLabels : (c : Option IncidentContext) → HasLabels (clone_incident_context c)
unfolding clone_incident_context
clone_context-HasLabels none = tt
clone_context-HasLabels (some c) = copy_labels-HasDistinctKeys c.labels
