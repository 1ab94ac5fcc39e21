-- ===== src/Incident/Mysql/Allowed.antt =====
-- internal/incidentapi/mysql_store.go: statements of `SaveAnalysis` that no key forbids, of an
-- incident that is there.
use graph_ops.Base.{ℕ, String, ◌≡◌, refl, ◌∙◌, some, Bool, true, false, [], ◌∷◌, ◌++◌}
use graph_ops.Base.Rows.{any_row-update}
use graph_ops.Base.Value.{Time, Clock}
use graph_ops.Incident.Types.{Evidence}
use graph_ops.Incident.Mysql.Database.{Statement, update_analysis, delete_evidence}
use graph_ops.Incident.Mysql.Writes.{evidence_statement}
use graph_ops.Incident.Mysql.Tables.{
  Tables, Storage, is_incident, knows, update_incident, set_analysis, perform, insert_if,
}
use graph_ops.Incident.Mysql.Effects.{without_evidence}

insert_if-true : {A : Type 0} (b : Bool) (a : A) → b ≡ true → insert_if b a ≡ some a
insert_if-true true a h = refl
insert_if-true false a h = cc

module _ (storage : Storage) (id : String) where
  -- A statement that the keys allow leaves the incident where it is.
  abbrev pub Allows : ℕ → Statement → Tables → Type 0
  Allows n s t = (t' : Tables) × (perform storage n s t ≡ some t') × (knows storage id t' ≡ true)

  pub evidence_allowed :
      (n : ℕ) (item : Evidence) (k : ℕ) (clock : Clock) (t : Tables)
      → knows storage id t ≡ true
      → Allows n (evidence_statement id item (clock k)) t
  unfolding perform
  evidence_allowed n item k clock t known =
      let t' : Tables = record t {
        evidence =
            t.evidence
            ++ record {
              incident_id = id;
              evidence_id = item.evidence_id;
              source_type = item.source_type;
              source_ref = item.source_ref;
              summary = item.summary;
              confidence = item.confidence;
              created_at = storage.datetime (clock k);
            }
              ∷ [];
      } in
      (t', insert_if-true (knows storage id t) t' known, known)

  pub delete_allowed :
      (n : ℕ) (t : Tables) → knows storage id t ≡ true → Allows n (delete_evidence id) t
  unfolding perform
  delete_allowed n t known = (without_evidence storage id t, refl, known)

  pub analysis_allowed :
      (n : ℕ) (status payload : String) (now : Time) (t : Tables)
      → knows storage id t ≡ true
      → Allows n (update_analysis status payload now id) t
  unfolding perform
  analysis_allowed n status payload now t known = (
    update_incident storage id (set_analysis storage status payload now) t,
    refl,
    any_row-update (is_incident storage id) (is_incident storage id)
          (set_analysis storage status payload now) t.incidents (λ row. refl)
        ∙ known,
  )
