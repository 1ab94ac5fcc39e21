-- ===== src/Incident/Mysql/Success.antt =====
-- internal/incidentapi/mysql_store.go: `SaveAnalysis` saves the analysis when the database answers.
use mathlib.Core.Path.{subst}
use graph_ops.Base.{
  ◌≢◌, ℕ, zero, suc, String, ◌≡◌, refl, sym, ap, ◌∙◌, inl, inr, some, true, Bool-cases, List, [],
  ◌∷◌,
}
use graph_ops.Base.Action.{proceed, wrap_error}
use graph_ops.Base.Result.{Result, ok, err, ok-injective}
use graph_ops.Base.Slice.{items}
use graph_ops.Base.Value.{Clock}
use graph_ops.Incident.Types.{Evidence, Incident}
use graph_ops.Incident.Requests.{UpsertAnalysisRequest}
use graph_ops.Incident.Repository.{StoreError, failed}
use graph_ops.Incident.Mysql.Database.{
  Statement, Database, Encoding, update_analysis, delete_evidence,
}
use graph_ops.Incident.Mysql.Calls.{Method, rows_affected, exec, transaction, commit_or_roll_back}
use graph_ops.Incident.Mysql.Reads.{get_incident}
use graph_ops.Incident.Mysql.Writes.{
  analysis_status, snapshot, evidence_statement, insert_items, analysis_body, save_analysis,
}
use graph_ops.Incident.Mysql.Tables.{Storage, knows, update_incident, set_analysis, perform}
use graph_ops.Incident.Mysql.Effects.{analysed, analysis_updated, update_incident-unknown}
use graph_ops.Incident.Mysql.Atomic.{analysis_transaction}
use graph_ops.Incident.Mysql.Found.{get_incident-IsFound}
use graph_ops.Incident.Mysql.Server.{Behaves}
use graph_ops.Incident.Mysql.Answers.{Answers, Succeeds, Succeeds-bind, Succeeds-call}
use graph_ops.Incident.Mysql.Allowed.{Allows, evidence_allowed, delete_allowed, analysis_allowed}

module _ {D : Type 0} (storage : Storage) (db : Database D) (laws : Behaves storage db)
    (encoding : Encoding) (Fits : Statement → Type 0) (answers : Answers storage db laws Fits)
    (id : String) where
  Known : {A : Type 0} → A → D → Type 0
  Known a d = knows storage id (laws.tables d) ≡ true

  -- What a statement that succeeds has done to the tables, and the rows that it reports.
  Done : Statement → D → Result String ℕ → D → Type 0
  Done s d a d' =
      (knows storage id (laws.tables d') ≡ true)
      × ((n : ℕ) × (perform storage n s (laws.tables d) ≡ some (laws.tables d')))
      × ((k : ℕ) × (a ≡ ok k) × (k ≡ 0 → laws.tables d' ≡ laws.tables d))

  -- A statement that the keys allow, and after which the incident is still there.
  exec-Succeeds :
      (s : Statement) (d : D)
      → Fits s
      → ((n : ℕ) → Allows storage id n s (laws.tables d))
      → Succeeds (exec db s) d (Done s d)
  unfolding Done
  exec-Succeeds s d fits allowed =
      let (k, d', eq, counted) = answers.exec s d fits (λ n. ((allowed n).0, (allowed n).1)) in
      let (kept, (n, performed), bounded) = laws.exec_ok s d d' (ok k) eq in
      let (t, is_t, known) = allowed n in
      let same : some t ≡ some (laws.tables d') = sym is_t ∙ performed in
      let is_now : t ≡ laws.tables d' = cc in
      Succeeds-call (db.exec s) d d' _ _ eq
        (subst (λ t. knows storage id t ≡ true) is_now known, (n, performed), (k, refl, counted))

  -- The columns take every item of a list of evidence.
  abbrev pub EvidenceFits : List Evidence → ℕ → Clock → Type 0
  EvidenceFits [] k clock = Unit
  EvidenceFits (item ∷ rest) k clock =
      Fits (evidence_statement id item (clock k)) × EvidenceFits rest (suc k) clock

  insert_items-Succeeds :
      (es : List Evidence) (k : ℕ) (clock : Clock) (d : D)
      → EvidenceFits es k clock
      → knows storage id (laws.tables d) ≡ true
      → Succeeds (insert_items db id es k clock) d Known
  unfolding insert_items Known Done
  insert_items-Succeeds [] k clock d fits known = (tt, d, refl, known)
  insert_items-Succeeds (item ∷ es) k clock d (fits, rest) known =
      Succeeds-bind (exec db (evidence_statement id item (clock k))) _ d _ _
        (exec-Succeeds _ d fits
          (λ n. evidence_allowed storage id n item k clock (laws.tables d) known))
        (λ a d' (known', _, _). insert_items-Succeeds es (suc k) clock d' rest known')

  -- A change that has changed something has been counted.
  rows_affected-Succeeds :
      (affected : Result String ℕ) (k : ℕ) (d : D)
      → affected ≡ ok k
      → k ≢ 0
      → knows storage id (laws.tables d) ≡ true
      → Succeeds (rows_affected affected) d Known
  unfolding rows_affected Known
  rows_affected-Succeeds (ok (suc n)) k d eq some_row known = (tt, d, refl, known)
  rows_affected-Succeeds (ok zero) k d eq some_row known =
      let same : ◌≡◌ {A = ℕ} zero k = ok-injective eq in absurd (some_row (sym same))
  rows_affected-Succeeds (err e) k d eq some_row known = cc

  analysis_body-Succeeds :
      (req : UpsertAnalysisRequest) (clock : Clock) (d : D) (payload : String)
      → encoding.marshal_analysis (snapshot req) ≡ ok payload
      → Fits (update_analysis (analysis_status req) payload (clock 0) id)
      → Fits (delete_evidence id)
      → EvidenceFits (items req.evidence) 1 clock
      → update_incident storage id
          (set_analysis storage (analysis_status req) payload (clock 0))
          (laws.tables d)
        ≢ laws.tables d
      → knows storage id (laws.tables d) ≡ true
      → Succeeds (analysis_body db encoding id req clock) d Known
  unfolding analysis_body Known Done
  analysis_body-Succeeds req clock d payload marshalled update_fits delete_fits evidence_fits
        differs known =
      let update = update_analysis (analysis_status req) payload (clock 0) id in
      rw marshalled (
        Succeeds-bind (exec db update) _ d (Done update d) Known
          (exec-Succeeds update d update_fits (λ n.
            analysis_allowed storage id n (analysis_status req) payload (clock 0) (laws.tables d)
              known))
          (λ a d₂ (known₂, (n, performed), (k, counted, nothing)).
            let changed =
              analysis_updated storage n (analysis_status req) payload (clock 0) id (laws.tables d)
                (laws.tables d₂) performed in
            Succeeds-bind (rows_affected a) _ d₂ Known Known
              (rows_affected-Succeeds a k d₂ counted
                (λ none_found. differs (sym changed ∙ nothing none_found)) known₂)
              (λ _ d₃ known₃.
                Succeeds-bind (exec db (delete_evidence id)) _ d₃ _ Known
                  (exec-Succeeds _ d₃ delete_fits
                    (λ n. delete_allowed storage id n (laws.tables d₃) known₃))
                  (λ _ d₄ (known₄, _, _).
                    insert_items-Succeeds (items req.evidence) 1 clock d₄ evidence_fits known₄))))

  transaction-Succeeds :
      (body : Method D (Unit {0})) (d : D)
      → ((d' : D) → laws.tables d' ≡ laws.tables d → Succeeds body d' Known)
      → (d' : D) × ◌≡◌ {A = Result StoreError (Unit {0}) × D} (transaction db body d) (ok tt, d')
  unfolding transaction Known
  transaction-Succeeds body d succeeds =
      let (d₁, eq₁) = answers.begin_tx d in
      let same : laws.tables d₁ ≡ laws.tables d = (laws.begin_tx d d₁ (ok tt) eq₁).0 in
      let (u, d₃, eq₃, known₃) = succeeds d₁ same in
      let (d₄, eq₄) = answers.commit d₃ in
      (
        d₄,
        ap {A = Result String (Unit {0}) × D}
              (λ out. proceed (λ _ d. commit_or_roll_back db (body d)) (wrap_error failed out)) eq₁
            ∙ ap {A = Result StoreError (Unit {0}) × D} (commit_or_roll_back db) eq₃
            ∙ ap {A = Result String (Unit {0}) × D} (wrap_error failed) eq₄,
      )

  -- If the database answers, the analysis can be encoded, the columns take what is written and the
  -- UPDATE makes a difference (its time or its contents are new), then `SaveAnalysis` saves the
  -- analysis, and its answer is what `GetIncident` then gives: its status, text and time are in the
  -- incident, and its evidence has replaced what was there.
  pub save_analysis_saves :
      (req : UpsertAnalysisRequest) (clock : Clock) (d : D) (payload : String)
      → encoding.marshal_analysis (snapshot req) ≡ ok payload
      → Fits (update_analysis (analysis_status req) payload (clock 0) id)
      → Fits (delete_evidence id)
      → EvidenceFits (items req.evidence) 1 clock
      → update_incident storage id
          (set_analysis storage (analysis_status req) payload (clock 0))
          (laws.tables d)
        ≢ laws.tables d
      → (d' : D) × (laws.tables d' ≡ analysed storage id req clock payload (laws.tables d))
        × (save_analysis db encoding id req clock d ≡ get_incident db encoding id d')
        × (laws.tables (save_analysis db encoding id req clock d).1
            ≡ analysed storage id req clock payload (laws.tables d))
  unfolding save_analysis
  save_analysis_saves req clock d payload marshalled update_fits delete_fits evidence_fits differs =
      let known : knows storage id (laws.tables d) ≡ true =
        elim (Bool-cases (knows storage id (laws.tables d))) [
          | inl there ↦ there
          | inr unknown ↦
              absurd (differs (update_incident-unknown storage id _ (laws.tables d) unknown))
        ] in
      let (d', eq) = transaction-Succeeds (analysis_body db encoding id req clock) d (λ d' same.
        analysis_body-Succeeds req clock d' payload marshalled update_fits delete_fits evidence_fits
          (rw same differs) (rw same known)) in
      let (p, is_p, _, rows) =
        (analysis_transaction storage db laws encoding id req clock d).1
          (ap {A = Result StoreError (Unit {0}) × D} (λ out. out.0) eq) in
      let same : p ≡ payload = ok-injective (sym is_p ∙ marshalled) in
      let saved : laws.tables d' ≡ analysed storage id req clock payload (laws.tables d) =
        sym (ap {A = Result StoreError (Unit {0}) × D} (λ out. laws.tables out.1) eq)
        ∙ rows
        ∙ ap (λ p. analysed storage id req clock p (laws.tables d)) same in
      let answered : save_analysis db encoding id req clock d ≡ get_incident db encoding id d' =
        ap {A = Result StoreError (Unit {0}) × D} (proceed (λ _. get_incident db encoding id)) eq in
      (
        d',
        saved,
        answered,
        ap {A = Result StoreError Incident × D} (λ out. laws.tables out.1) answered
            ∙ (get_incident-IsFound storage db laws encoding id d').0
            ∙ saved,
      )
