-- ===== src/Incident/Mysql/Bodies.antt =====
-- internal/incidentapi/mysql_store.go: what the bodies of the two transactions make of the tables.
use graph_ops.Base.{ℕ, suc, String, ◌≡◌, refl, ◌∙◌, true, List, [], ◌∷◌}
use mathlib.Core.List.{append-nil}
use graph_ops.Base.Result.{Result, ok}
use graph_ops.Base.Slice.{items}
use graph_ops.Base.Value.{Clock}
use graph_ops.Incident.Types.{Evidence}
use graph_ops.Incident.Requests.{ReviewIncidentRequest, UpsertAnalysisRequest}
use graph_ops.Incident.Repository.{StoreError}
use graph_ops.Incident.Mysql.Database.{
  Database, Encoding, update_analysis, delete_evidence, update_status, upsert_approval,
}
use graph_ops.Incident.Mysql.Writes.{
  analysis_status, snapshot, evidence_statement, insert_items, analysis_body, review_body,
}
use graph_ops.Incident.Mysql.Tables.{Tables, Storage, knows}
use graph_ops.Incident.Mysql.Server.{Behaves}
use graph_ops.Incident.Mysql.Effects.{
  evidence_rows, with_evidence, analysed, reviewed, with_evidence-cons, evidence_inserted,
  evidence_deleted, analysis_updated-knows, status_updated-knows, analysis_updated, status_updated,
  approval_upserted,
}
use graph_ops.Incident.Mysql.Rules.{check_rule, exec_rule, rows_rule}

module _ (storage : Storage) (encoding : Encoding) (id : String) (clock : Clock) where
  -- The tables are those of a saved analysis, of an incident that is there.
  abbrev pub Analysed : UpsertAnalysisRequest → Tables → Tables → Type 0
  Analysed req t t' =
      (payload : String) × (encoding.marshal_analysis (snapshot req) ≡ ok payload)
      × (knows storage id t ≡ true)
      × (t' ≡ analysed storage id req clock payload t)

  -- The tables are those of a review of an incident that is there.
  abbrev pub Reviewed : String → ReviewIncidentRequest → Tables → Tables → Type 0
  Reviewed status req t t' =
      (knows storage id t ≡ true) × (t' ≡ reviewed storage id status req clock t)

module _ {D : Type 0} (storage : Storage) (db : Database D) (laws : Behaves storage db) where
  insert_items-rows :
      (id : String) (es : List Evidence) (k : ℕ) (clock : Clock) (d : D)
      → (laws.saved (insert_items db id es k clock d).1 ≡ laws.saved d)
        × ((insert_items db id es k clock d).0 ≡ ok tt
            → laws.tables (insert_items db id es k clock d).1
              ≡ with_evidence storage (laws.tables d) (evidence_rows storage id es k clock))
  unfolding insert_items
  insert_items-rows id [] k clock d = (refl, λ h. rw append-nil)
  insert_items-rows id (item ∷ es) k clock d =
      exec_rule storage db laws
        (λ r d'.
          (laws.saved d' ≡ laws.saved d)
          × (r ≡ ok tt
              → laws.tables d'
                ≡ with_evidence storage (laws.tables d)
                    (evidence_rows storage id (item ∷ es) k clock)))
        (evidence_statement id item (clock k)) _ d (λ e d' kept same. (kept, λ h. cc))
        (λ a d' n kept performed counted.
          let (kept', rows) = insert_items-rows id es (suc k) clock d' in
          (
            kept' ∙ kept,
            λ h.
                with_evidence-cons storage (laws.tables d) (laws.tables d') _ _ _
                  (evidence_inserted storage n id item k clock (laws.tables d) (laws.tables d')
                    performed).1
                  (rows h),
          ))

  module _ (encoding : Encoding) (id : String) (clock : Clock) where
    pub analysis_body-rows :
        (req : UpsertAnalysisRequest) (d : D)
        → (laws.saved (analysis_body db encoding id req clock d).1 ≡ laws.saved d)
          × ((analysis_body db encoding id req clock d).0 ≡ ok tt
              → Analysed storage encoding id clock req
                  (laws.tables d)
                  (laws.tables (analysis_body db encoding id req clock d).1))
    unfolding analysis_body
    analysis_body-rows req d =
        let Q : Result StoreError (Unit {0}) → D → Type 0 = λ r d'.
          (laws.saved d' ≡ laws.saved d)
          × (r ≡ ok tt → Analysed storage encoding id clock req (laws.tables d) (laws.tables d')) in
        check_rule Q (encoding.marshal_analysis (snapshot req)) _ d (λ e eq. (refl, λ h. cc))
          (λ payload eq.
            exec_rule storage db laws Q (update_analysis (analysis_status req) payload (clock 0) id)
              _ d (λ e d₁ kept same. (kept, λ h. cc))
              (λ a d₁ n kept performed counted.
                rows_rule Q a _ d₁ (λ e. (kept, λ h. cc))
                  (λ k found.
                    exec_rule storage db laws Q (delete_evidence id) _ d₁
                      (λ e d₂ kept₂ same. (kept₂ ∙ kept, λ h. cc))
                      (λ a₂ d₂ n₂ kept₂ performed₂ counted₂.
                        let (kept₃, rows) = insert_items-rows id (items req.evidence) 1 clock d₂ in
                        (
                          kept₃ ∙ kept₂ ∙ kept,
                          λ h. (
                            payload,
                            eq,
                            analysis_updated-knows storage (analysis_status req) payload (clock 0)
                                id (laws.tables d) k (counted (suc k) found),
                            rw (
                              rows h,
                              evidence_deleted storage n₂ id (laws.tables d₁) (laws.tables d₂)
                                  performed₂,
                              analysis_updated storage n (analysis_status req) payload (clock 0) id
                                  (laws.tables d) (laws.tables d₁) performed,
                            ),
                          ),
                        )))))

    pub review_body-rows :
        (status : String) (req : ReviewIncidentRequest) (d : D)
        → (laws.saved (review_body db encoding id status req clock d).1 ≡ laws.saved d)
          × ((review_body db encoding id status req clock d).0 ≡ ok tt
              → Reviewed storage encoding id clock status req
                  (laws.tables d)
                  (laws.tables (review_body db encoding id status req clock d).1))
    unfolding review_body
    review_body-rows status req d =
        let Q : Result StoreError (Unit {0}) → D → Type 0 = λ r d'.
          (laws.saved d' ≡ laws.saved d)
          × (r ≡ ok tt
              → Reviewed storage encoding id clock status req (laws.tables d) (laws.tables d')) in
        exec_rule storage db laws Q (update_status status (clock 0) id) _ d
          (λ e d₁ kept same. (kept, λ h. cc))
          (λ a d₁ n kept performed counted.
            rows_rule Q a _ d₁ (λ e. (kept, λ h. cc))
              (λ k found.
                exec_rule storage db laws Q
                  (upsert_approval id status req.reviewer req.comment (clock 1)) _ d₁
                  (λ e d₂ kept₂ same. (kept₂ ∙ kept, λ h. cc))
                  (λ a₂ d₂ n₂ kept₂ performed₂ counted₂. (
                    kept₂ ∙ kept,
                    λ h. (
                      status_updated-knows storage status (clock 0) id (laws.tables d) k
                          (counted (suc k) found),
                      rw (
                        (approval_upserted storage n₂ id status req.reviewer req.comment (clock 1)
                            (laws.tables d₁) (laws.tables d₂) performed₂).1,
                        status_updated storage n status (clock 0) id (laws.tables d)
                            (laws.tables d₁) performed,
                      ),
                    ),
                  ))))
