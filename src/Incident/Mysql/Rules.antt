-- ===== src/Incident/Mysql/Rules.antt =====
-- Rules for the calls of internal/incidentapi/mysql_store.go: what holds after a call and the rest
-- of its method, and what holds after a transaction.
use graph_ops.Base.{
  ℕ, zero, suc, ◌≤◌, String, ◌≡◌, ◌⊎◌, refl, ◌∙◌, inl, inr, some, Bool, true, false, List, arith,
  Bool-cases,
}
use graph_ops.Base.Action.{Action, ◌>>=◌, proceed, wrap_error}
use graph_ops.Base.Result.{Result, ok, err}
use graph_ops.Base.Rows.{any_row, count_rows, count_rows-none}
use graph_ops.Incident.Repository.{StoreError, incident_not_found, failed}
use graph_ops.Incident.Mysql.Database.{Statement, Database}
use graph_ops.Incident.Mysql.Calls.{
  Method, call, check, rows_affected, transaction, commit_or_roll_back, exec,
}
use graph_ops.Incident.Mysql.Tables.{Tables, Storage, insert_if, perform, most_affected}
use graph_ops.Incident.Mysql.Server.{Behaves}

module _ {ℓ} {D A B : Type 0} (Q : Result StoreError B → D → Type ℓ) where
  pub check_rule :
      (r : Result String A) (f : A → Method D B) (d : D)
      → ((e : String) → r ≡ err e → Q (err (failed e)) d)
      → ((a : A) → r ≡ ok a → Q (f a d).0 (f a d).1)
      → Q ((check r >>= f) d).0 ((check r >>= f) d).1
  check_rule (ok a) f d no_value value = value a refl
  check_rule (err e) f d no_value value = no_value e refl

  pub call_rule :
      (m : Action String D A) (f : A → Method D B) (d : D)
      → ((e : String) (d' : D)
          → ◌≡◌ {A = Result String A × D} (m d) (err e, d')
          → Q (err (failed e)) d')
      → ((a : A) (d' : D)
          → ◌≡◌ {A = Result String A × D} (m d) (ok a, d')
          → Q (f a d').0 (f a d').1)
      → Q ((call m >>= f) d).0 ((call m >>= f) d).1
  call_rule m f d no_value value = go (m d) no_value value
    where
      go :
          (out : Result String A × D)
          → ((e : String) (d' : D)
              → ◌≡◌ {A = Result String A × D} out (err e, d')
              → Q (err (failed e)) d')
          → ((a : A) (d' : D)
              → ◌≡◌ {A = Result String A × D} out (ok a, d')
              → Q (f a d').0 (f a d').1)
          → Q (proceed f (wrap_error failed out)).0 (proceed f (wrap_error failed out)).1
      go (ok a, d') no_value value = value a d' refl
      go (err e, d') no_value value = no_value e d' refl

-- After the test of the number of rows: an error, or there was a row.
pub rows_rule {ℓ} :
    {D B : Type 0} (Q : Result StoreError B → D → Type ℓ) (result : Result String ℕ)
    (f : Unit {0} → Method D B) (d : D)
    → ((e : StoreError) → Q (err e) d)
    → ((k : ℕ) → result ≡ ok (suc k) → Q (f tt d).0 (f tt d).1)
    → Q ((rows_affected result >>= f) d).0 ((rows_affected result >>= f) d).1
unfolding rows_affected
rows_rule Q (err e) f d no_value value = no_value (failed e)
rows_rule Q (ok zero) f d no_value value = no_value incident_not_found
rows_rule Q (ok (suc k)) f d no_value value = value k refl

-- The same at the end of a method.
pub last_rule {ℓ} :
    {D : Type 0} (Q : Result StoreError (Unit {0}) → D → Type ℓ) (result : Result String ℕ) (d : D)
    → ((e : StoreError) → Q (err e) d)
    → Q (ok tt) d
    → Q (rows_affected result d).0 (rows_affected result d).1
unfolding rows_affected
last_rule Q (err e) d no_value value = no_value (failed e)
last_rule Q (ok zero) d no_value value = no_value incident_not_found
last_rule Q (ok (suc k)) d no_value value = value

-- All of a change of the tables has been made, or none of it and the call has failed.
pub data IsAtomic {ℓ} {A : Type 0} (Applied : Tables → Type ℓ) (before : Tables)
    (r : Result StoreError A) (after_call : Tables) : Type ℓ where
  nothing :
      (e : StoreError) → r ≡ err e → after_call ≡ before → IsAtomic Applied before r after_call
  all : Applied after_call → IsAtomic Applied before r after_call

-- A call that fails after what it was to do, or before.
pub not_or_all {ℓ} :
    {A P : Type 0} (Applied : Tables → Type ℓ) (before after_call : Tables) (e : StoreError)
    → (after_call ≡ before) ⊎ P
    → (P → IsAtomic {A = A} Applied before (err e) after_call)
    → IsAtomic {A = A} Applied before (err e) after_call
not_or_all Applied before after_call e (inl same) carried_out = nothing e refl same
not_or_all Applied before after_call e (inr done) carried_out = carried_out done

pub insert_if-some {ℓ} :
    {A : Type ℓ} (b : Bool) (a a' : A) → insert_if b a ≡ some a' → (b ≡ true) × (a' ≡ a)
insert_if-some true a a' h = (refl, cc)
insert_if-some false a a' h = cc

pub count_rows-any :
    {A : Type 0} (p : A → Bool) (xs : List A) (k : ℕ)
    → suc k ≤ count_rows p xs
    → any_row p xs ≡ true
count_rows-any p xs k h = elim (Bool-cases (any_row p xs)) [
  | inl some_row ↦ some_row
  | inr no_row ↦ absurd (omega (arith, count_rows-none p xs no_row))
]

module _ {D : Type 0} (storage : Storage) (db : Database D) (laws : Behaves storage db) where
  -- What holds after a statement and the rest of its method.
  pub exec_rule {ℓ} :
      {B : Type 0} (Q : Result StoreError B → D → Type ℓ) (s : Statement)
      (f : Result String ℕ → Method D B) (d : D)
      → ((e : String) (d' : D)
          → laws.saved d' ≡ laws.saved d
          → (laws.tables d' ≡ laws.tables d)
            ⊎ ((n : ℕ) × (perform storage n s (laws.tables d) ≡ some (laws.tables d')))
          → Q (err (failed e)) d')
      → ((affected : Result String ℕ) (d' : D) (n : ℕ)
          → laws.saved d' ≡ laws.saved d
          → perform storage n s (laws.tables d) ≡ some (laws.tables d')
          → ((k : ℕ) → affected ≡ ok k → k ≤ most_affected storage s (laws.tables d))
          → Q (f affected d').0 (f affected d').1)
      → Q ((exec db s >>= f) d).0 ((exec db s >>= f) d).1
  exec_rule Q s f d no_value value =
      call_rule Q (db.exec s) f d
        (λ e d' eq. let (kept, same) = laws.exec_err s d d' e eq in no_value e d' kept same)
        (λ a d' eq.
          let (kept, (n, performed), counted) = laws.exec_ok s d d' a eq in
          value a d' n kept performed counted)

  committed {ℓ} :
      (Applied : Tables → Type ℓ) (before : Tables) (d : D) (out : Result String (Unit {0}) × D)
      → ◌≡◌ {A = Result String (Unit {0}) × D} (db.commit d) out
      → laws.saved d ≡ before
      → Applied (laws.tables d)
      → IsAtomic Applied before (wrap_error failed out).0 (laws.tables (wrap_error failed out).1)
        × ((wrap_error failed out).0 ≡ ok tt → Applied (laws.tables (wrap_error failed out).1))
  committed Applied before d (ok a, d') eq kept applied =
      let done : Applied (laws.tables d') = rw (laws.commit_ok d d' eq) applied in
      (all done, λ _. done)
  committed Applied before d (err e, d') eq kept applied = (go (laws.commit_err d d' e eq), λ h. cc)
    where
      go :
          (laws.tables d' ≡ laws.tables d) ⊎ (laws.tables d' ≡ laws.saved d)
          → IsAtomic {A = Unit {0}} Applied before (err (failed e)) (laws.tables d')
      go (inl same) = all (rw same applied)
      go (inr back) = nothing (failed e) refl (back ∙ kept)

  settled {ℓ} :
      (Applied : Tables → Type ℓ) (before : Tables) (out : Result StoreError (Unit {0}) × D)
      → laws.saved out.1 ≡ before
      → (out.0 ≡ ok tt → Applied (laws.tables out.1))
      → IsAtomic Applied before
          (commit_or_roll_back db out).0
          (laws.tables (commit_or_roll_back db out).1)
        × ((commit_or_roll_back db out).0 ≡ ok tt
            → Applied (laws.tables (commit_or_roll_back db out).1))
  settled Applied before (ok a, d) kept applied =
      committed Applied before d (db.commit d) refl kept (applied refl)
  settled Applied before (err e, d) kept applied =
      (nothing e refl (laws.rollback d ∙ kept), λ h. cc)

  -- A transaction does all that its body does, or nothing.
  pub transaction_rule {ℓ} :
      (Applied : Tables → Type ℓ) (body : Method D (Unit {0})) (d : D)
      → ((d₁ : D)
          → laws.saved d₁ ≡ laws.tables d
          → laws.tables d₁ ≡ laws.tables d
          → (laws.saved (body d₁).1 ≡ laws.tables d)
            × ((body d₁).0 ≡ ok tt → Applied (laws.tables (body d₁).1)))
      → IsAtomic Applied
          (laws.tables d)
          (transaction db body d).0
          (laws.tables (transaction db body d).1)
        × ((transaction db body d).0 ≡ ok tt → Applied (laws.tables (transaction db body d).1))
  unfolding transaction
  transaction_rule Applied body d step =
      call_rule
        (λ r d'.
          IsAtomic Applied (laws.tables d) r (laws.tables d')
          × (r ≡ ok tt → Applied (laws.tables d')))
        db.begin_tx _ d
        (λ e d' eq. (nothing (failed e) refl (laws.begin_tx d d' (err e) eq).0, λ h. cc))
        (λ a d' eq.
          let (same, kept) = laws.begin_tx d d' (ok a) eq in
          let (held, applied) = step d' kept same in
          settled Applied (laws.tables d) (body d') held applied)
