-- ===== src/Incident/Mysql/Answers.antt =====
-- internal/incidentapi/mysql_store.go: a database that answers, and calls that succeed.
use graph_ops.Base.{ℕ, String, ◌≡◌, ap, ◌∙◌, some}
use graph_ops.Base.Action.{Action, ◌>>=◌, proceed, wrap_error}
use graph_ops.Base.Result.{Result, ok}
use graph_ops.Incident.Repository.{StoreError, failed}
use graph_ops.Incident.Mysql.Database.{Statement, Database}
use graph_ops.Incident.Mysql.Calls.{call, check}
use graph_ops.Incident.Mysql.Tables.{Tables, Storage, perform}
use graph_ops.Incident.Mysql.Server.{Behaves}

-- A database that answers: a transaction begins and is committed, and a statement whose values the
-- columns take (`Fits`) succeeds where no key is violated. The number of rows that it reports is 0
-- only if it has changed nothing.
pub record Answers (storage : Storage) {D : Type 0} (db : Database D) (laws : Behaves storage db)
    (Fits : Statement → Type 0) : Type 0 where
  pub begin_tx :
      (d : D) → (d' : D) × ◌≡◌ {A = Result String (Unit {0}) × D} (db.begin_tx d) (ok tt, d')
  pub commit : (d : D) → (d' : D) × ◌≡◌ {A = Result String (Unit {0}) × D} (db.commit d) (ok tt, d')
  pub exec :
      (s : Statement) (d : D)
      → Fits s
      → ((n : ℕ) → (t : Tables) × (perform storage n s (laws.tables d) ≡ some t))
      → (k : ℕ) × (d' : D) × ◌≡◌ {A = Result String (Result String ℕ) × D}
          (db.exec s d)
          (ok (ok k), d')
        × (k ≡ 0 → laws.tables d' ≡ laws.tables d)

-- A call that succeeds, and what holds of its value and of the state that it leaves.
abbrev pub Succeeds : {E D A : Type 0} → Action E D A → D → (A → D → Type 0) → Type 0
Succeeds {E} {D} {A} m d Holds =
    (a : A) × (d' : D) × ◌≡◌ {A = Result E A × D} (m d) (ok a, d') × Holds a d'

module _ {D A B : Type 0} where
  pub Succeeds-bind :
      {E : Type 0} (m : Action E D A) (f : A → Action E D B) (d : D) (Holds : A → D → Type 0)
      (Then : B → D → Type 0)
      → Succeeds m d Holds
      → ((a : A) (d' : D) → Holds a d' → Succeeds (f a) d' Then)
      → Succeeds (m >>= f) d Then
  Succeeds-bind {E} m f d Holds Then (a, d', eq, holds) rest =
      let (b, d'', eq', then') = rest a d' holds in
      (b, d'', ap {A = Result E A × D} (proceed f) eq ∙ eq', then')

pub Succeeds-call :
    {D A : Type 0} (m : Action String D A) (d d' : D) (a : A) (Holds : A → D → Type 0)
    → ◌≡◌ {A = Result String A × D} (m d) (ok a, d')
    → Holds a d'
    → Succeeds (call m) d Holds
Succeeds-call {D} {A} m d d' a Holds eq holds =
    (a, d', ap {A = Result String A × D} (wrap_error failed) eq, holds)

pub Succeeds-check :
    {D A : Type 0} (r : Result String A) (d : D) (a : A) (Holds : A → D → Type 0)
    → r ≡ ok a
    → Holds a d
    → Succeeds (check r) d Holds
Succeeds-check {D} {A} r d a Holds eq holds = (
  a,
  d,
  ap {A = Result String A} {B = Result StoreError A × D} (λ r. wrap_error failed (r, d)) eq,
  holds,
)
