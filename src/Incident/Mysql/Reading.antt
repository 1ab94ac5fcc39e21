-- ===== src/Incident/Mysql/Reading.antt =====
-- internal/incidentapi/mysql_store.go: rules for methods that change no table.
use mathlib.Core.Path.{subst}
use graph_ops.Base.{String, ◌≡◌, refl, ◌∙◌, Option, none, some, List, [], ◌∷◌}
use graph_ops.Base.Action.{Action, wrap_error, pure, proceed, ◌>>=◌}
use graph_ops.Base.Result.{Result, ok, err}
use graph_ops.Incident.Repository.{StoreError, failed}
use graph_ops.Incident.Mysql.Database.{Rows}
use graph_ops.Incident.Mysql.Calls.{call, check, Method, each_row, collect, check_rows}
use graph_ops.Incident.Mysql.Tables.{Tables}

-- The values that a loop makes of the rows, one for each in their order.
pub data AllMade {A B : Type 0} (Made : A → B → Type 0) : List A → List B → Type 0 where
  no_more : AllMade Made [] []
  one_more :
      (a : A) (b : B) (rest : List A) (bs : List B)
      → Made a b
      → AllMade Made rest bs
      → AllMade Made (a ∷ rest) (b ∷ bs)

module _ {D : Type 0} (tables : D → Tables) (t : Tables) where
  -- A call that leaves the tables at `t`, and what holds of a value that it gives.
  abbrev pub Reads : {A : Type 0} → Method D A → (A → Type 0) → Type 0
  Reads {A} m Holds =
      (d : D) → tables d ≡ t → (tables (m d).1 ≡ t) × ((a : A) → (m d).0 ≡ ok a → Holds a)

  pub Reads-pure : {A : Type 0} (Holds : A → Type 0) (a : A) → Holds a → Reads (pure a) Holds
  Reads-pure Holds a holds d at_t = (at_t, λ a' h. let same : a ≡ a' = cc in subst Holds same holds)

  pub Reads-bind :
      {A B : Type 0} (Holds : A → Type 0) (Then : B → Type 0) (m : Method D A) (f : A → Method D B)
      → Reads m Holds
      → ((a : A) → Holds a → Reads (f a) Then)
      → Reads (m >>= f) Then
  Reads-bind {A = A} {B = B} Holds Then m f reads rest d at_t =
      go (m d) (reads d at_t).0 (reads d at_t).1
    where
      go :
          (out : Result StoreError A × D)
          → tables out.1 ≡ t
          → ((a : A) → out.0 ≡ ok a → Holds a)
          → (tables (proceed f out).1 ≡ t) × ((b : B) → (proceed f out).0 ≡ ok b → Then b)
      go (ok a, d') same holds = rest a (holds a refl) d' same
      go (err e, d') same holds = (same, λ b h. cc)

  pub Reads-check : {A : Type 0} (r : Result String A) → Reads (check r) (λ a. r ≡ ok a)
  Reads-check (ok a) d at_t = (at_t, λ a' h. cc)
  Reads-check (err e) d at_t = (at_t, λ a' h. cc)

  pub Reads-call :
      {A : Type 0} (Holds : Tables → A → Type 0) (m : Action String D A)
      → ((d d' : D) (r : Result String A)
          → ◌≡◌ {A = Result String A × D} (m d) (r, d')
          → (tables d' ≡ tables d) × ((a : A) → r ≡ ok a → Holds (tables d) a))
      → Reads (call m) (Holds t)
  Reads-call {A = A} Holds m law d at_t = go (m d) (law d (m d).1 (m d).0 refl)
    where
      go :
          (out : Result String A × D)
          → (tables out.1 ≡ tables d) × ((a : A) → out.0 ≡ ok a → Holds (tables d) a)
          → (tables (wrap_error failed out).1 ≡ t)
            × ((a : A) → (wrap_error failed out).0 ≡ ok a → Holds t a)
      go (ok a, d') (same, holds) = (
        same ∙ at_t,
        λ a' h.
            let is_a : a ≡ a' = cc in
            subst (Holds t) is_a (subst (λ t. Holds t a) at_t (holds a refl)),
      )
      go (err e, d') (same, holds) = (same ∙ at_t, λ a' h. cc)

  each_row-Reads :
      {A B : Type 0} (Made : A → B → Type 0) (body : A → Method D B)
      → ((a : A) → Reads (body a) (Made a))
      → (rows : List A) → Reads (each_row body rows) (AllMade Made rows)
  unfolding each_row
  each_row-Reads Made body reads [] = Reads-pure _ [] no_more
  each_row-Reads Made body reads (a ∷ rest) = Reads-bind (Made a) _ (body a) _ (reads a) (λ b made.
      Reads-bind (AllMade Made rest) _ (each_row body rest) _ (each_row-Reads Made body reads rest)
        (λ bs all_made. Reads-pure _ (b ∷ bs) (one_more a b rest bs made all_made)))

  pub collect-Reads :
      {A B : Type 0} (Made : A → B → Type 0) (body : A → Method D B)
      → ((a : A) → Reads (body a) (Made a))
      → (rows : Rows A)
      → Reads (collect body rows) (λ bs. AllMade Made rows.read bs × (rows.failure ≡ none))
  unfolding collect
  collect-Reads {B = B} Made body reads rows =
      Reads-bind (AllMade Made rows.read) _ (each_row body rows.read) _
        (each_row-Reads Made body reads rows.read) (λ bs all_made. last bs all_made rows.failure)
    where
      last :
          (bs : List B)
          → AllMade Made rows.read bs
          → (failure : Option String)
          → Reads
              (check_rows failure >>= λ _. pure bs)
              (λ bs. AllMade Made rows.read bs × (failure ≡ none))
      last bs all_made none = Reads-pure _ bs (all_made, refl)
      last bs all_made (some e) = λ d at_t. (at_t, λ bs h. cc)
