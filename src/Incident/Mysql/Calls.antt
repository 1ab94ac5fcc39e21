-- ===== src/Incident/Mysql/Calls.antt =====
-- internal/incidentapi/mysql_store.go: `marshalJSON`, and the forms in which the methods call the
-- database: a failing call returns its error, a transaction that is not committed is rolled back.
use graph_ops.Base.{ℕ, zero, suc, String, Option, none, some, List, [], ◌∷◌}
use graph_ops.Base.Action.{Action, pure, fail, ◌>>=◌, ◌>>◌, wrap_error}
use graph_ops.Base.Result.{Result, ok, err}
use graph_ops.Incident.Repository.{StoreError, incident_not_found, failed}
use graph_ops.Incident.Mysql.Database.{Statement, Rows, Database}

-- A method of the store.
abbrev pub Method : Type 0 → Type 0 → Type 0
Method D A = Action StoreError D A

-- A call of the database in a method: its error is returned as it is.
abbrev pub call : {D A : Type 0} → Action String D A → Method D A
call m d = wrap_error failed (m d)

abbrev pub check : {D A : Type 0} → Result String A → Method D A
check r d = wrap_error failed (r, d)

-- `value == nil` holds of no pointer in an interface, so a nil context is encoded too.
unfoldable pub marshal_json :
    {V : Type 0} → (V → Result String String) → Option V → Result String (Option String)
marshal_json marshal none = ok none
marshal_json marshal (some value) = elim (marshal value) [
  | ok payload ↦ ok (some payload)
  | err e ↦ err e
]

abbrev found_rows : {D : Type 0} → ℕ → Method D (Unit {0})
found_rows zero = fail incident_not_found
found_rows (suc n) = pure tt

-- `result.RowsAffected()` and its two tests.
unfoldable pub rows_affected : {D : Type 0} → Result String ℕ → Method D (Unit {0})
rows_affected result = do n ← check result; found_rows n

abbrev pub check_rows : {D : Type 0} → Option String → Method D (Unit {0})
check_rows none = pure tt
check_rows (some e) = fail (failed e)

-- The loop over `rows`, with `body` for what it does with a row, and `rows.Err()` after it.
unfoldable pub each_row : {D A B : Type 0} → (A → Method D B) → List A → Method D (List B)
each_row body [] = pure []
each_row body (a ∷ rest) = do b ← body a; bs ← each_row body rest; pure (b ∷ bs)

unfoldable pub collect : {D A B : Type 0} → (A → Method D B) → Rows A → Method D (List B)
unfolding each_row
collect body rows = do bs ← each_row body rows.read; check_rows rows.failure; pure bs

module _ {D : Type 0} (db : Database D) where
  abbrev pub exec : Statement → Method D (Result String ℕ)
  exec statement = call (db.exec statement)

  -- `tx.Commit()`; what follows it, the deferred `tx.Rollback()`, does nothing any more.
  abbrev pub commit_or_roll_back :
      Result StoreError (Unit {0}) × D → Result StoreError (Unit {0}) × D
  commit_or_roll_back (ok _, d) = call db.commit d
  commit_or_roll_back (err e, d) = (err e, db.rollback d)

  -- `BeginTx`, the body, `Commit`; a body that returns an error is rolled back.
  unfoldable pub transaction : Method D (Unit {0}) → Method D (Unit {0})
  transaction body = do call db.begin_tx; λ d. commit_or_roll_back (body d)
