-- ===== src/Dsn.antt =====
-- cmd/incident-api/main.go and cmd/ops-gateway/main.go: `normalizeMySQLDSN`, which the two programs
-- have in the same words.
mod Examples
use Prim.Native.Char.{Char, code}
use mathlib.Core.List.{List, ◌++◌ as lists}
use Prim.Native.String.{[], ◌∷◌, ◌++◌ as concat}
use text.Mathlib.TextLemmas.{nil-append, cons-append, append-nil, append_assoc}
use graph_ops.Base.{
  ℕ, String, ◌==◌, ◌≡◌, ◌≢◌, refl, sym, ap, ◌∙◌, inl, inr, Bool, true, false, ◌&&◌, ◌||◌, not,
  arith, Bool-cases, eqb, eq-false_of_ne, if◌then◌else◌,
}
use graph_ops.Base.Text.{trim_space}

-- `strings.HasPrefix`.
starts_with : String → String → Bool
starts_with s [] = true
starts_with [] (c ∷ p) = false
starts_with (d ∷ s) (c ∷ p) = let rest = starts_with s p in eqb (code d) (code c) && rest

-- `strings.Contains`.
contains : String → String → Bool
unfolding starts_with
contains [] p = starts_with [] p
contains (c ∷ s) p = let rest = contains s p in starts_with (c ∷ s) p || rest

-- Adds a parameter that is not there.
with_parameter : String → String → String → String
unfolding contains
with_parameter key value dsn =
    if contains dsn key
    then dsn
    else concat dsn (concat (if contains dsn "?" then "&" else "?") (concat key value))

normalize_mysql_dsn : String → String
unfolding with_parameter
normalize_mysql_dsn dsn =
    let given = trim_space dsn in
    let complete =
      with_parameter "collation=" "utf8mb4_unicode_ci"
        (with_parameter "charset=" "utf8mb4" given) in
    if given == "" then "" else complete

normalizes :
    (normalize_mysql_dsn " root@tcp(db)/ops "
      ≡ "root@tcp(db)/ops?charset=utf8mb4&collation=utf8mb4_unicode_ci")
    × (normalize_mysql_dsn "root@/ops?charset=utf8"
        ≡ "root@/ops?charset=utf8&collation=utf8mb4_unicode_ci")
unfolding normalize_mysql_dsn trim_space
normalizes = (refl, refl)

and_mono : (a b c : Bool) → (b ≡ true → c ≡ true) → (a && b) ≡ true → (a && c) ≡ true
and_mono true b c f h = f h
and_mono false b c f h = h

or_mono :
    (a b c d : Bool)
    → (a ≡ true → c ≡ true)
    → (b ≡ true → d ≡ true)
    → (a || b) ≡ true
    → (c || d) ≡ true
or_mono true b c d f g h = rw (f refl)
or_mono false b true d f g h = refl
or_mono false b false d f g h = g h

starts_with-concat : (s t p : String) → starts_with s p ≡ true → starts_with (concat s t) p ≡ true
unfolding starts_with
starts_with-concat s t [] h = refl
starts_with-concat [] t (c ∷ p) h = cc
starts_with-concat (d ∷ s) t (c ∷ p) h = rw cons-append (
    and_mono (eqb (code d) (code c)) (starts_with s p) (starts_with (concat s t) p)
      (starts_with-concat s t p) h)

contains_empty : (s : String) → contains s [] ≡ true
unfolding contains
contains_empty [] = refl
contains_empty (c ∷ s) = refl

contains-concat_left : (s t p : String) → contains s p ≡ true → contains (concat s t) p ≡ true
unfolding contains
contains-concat_left [] t [] h = contains_empty (concat "" t)
contains-concat_left [] t (c ∷ p) h = cc
contains-concat_left (c ∷ s) t p h =
    let start : starts_with (c ∷ s) p ≡ true → starts_with (c ∷ concat s t) p ≡ true =
      λ e. rw (← cons-append) (starts_with-concat (c ∷ s) t p e) in
    rw cons-append (
      or_mono (starts_with (c ∷ s) p) (contains s p) (starts_with (c ∷ concat s t) p)
        (contains (concat s t) p) start (contains-concat_left s t p) h)

or_true : (a : Bool) → (a || true) ≡ true
or_true true = refl
or_true false = refl

contains-concat_right : (s t p : String) → contains t p ≡ true → contains (concat s t) p ≡ true
unfolding contains
contains-concat_right [] t p h = rw nil-append h
contains-concat_right (c ∷ s) t p h = rw cons-append (
    or_mono (starts_with (c ∷ concat s t) p) true _ _ (λ e. e) (λ _. contains-concat_right s t p h)
      (or_true (starts_with (c ∷ concat s t) p)))

starts_with_self : (s : String) → starts_with s s ≡ true
unfolding starts_with
starts_with_self [] = refl
starts_with_self (c ∷ s) = ground (arith, starts_with_self s)

contains_self : (s : String) → contains s s ≡ true
unfolding contains
contains_self [] = starts_with_self []
contains_self (c ∷ s) = rw (starts_with_self (c ∷ s))

with_parameter-contains :
    (key value dsn : String) → contains (with_parameter key value dsn) key ≡ true
unfolding with_parameter
with_parameter-contains key value dsn = elim (Bool-cases (contains dsn key)) [
  | inl there ↦ rw (there, there)
  | inr missing ↦
      let sep = if contains dsn "?" then "&" else "?" in
      rw missing (
        contains-concat_right dsn (concat sep (concat key value)) key (
          contains-concat_right sep (concat key value) key
            (contains-concat_left key value key (contains_self key))))
]

-- No character of the text is `d`.
abbrev lacks : Char → String → Bool
lacks d [] = true
lacks d (c ∷ s) = not (eqb (code d) (code c)) && lacks d s

lacks-cons :
    (d c : Char) (s : String)
    → lacks d (c ∷ s) ≡ true
    → (eqb (code d) (code c) ≡ false) × (lacks d s ≡ true)
lacks-cons d c s h = (ground arith, ground arith)

-- A text that lacks `d` is found before it or behind it, not across it.
starts_with-separated :
    (d : Char) (s t p : String)
    → lacks d p ≡ true
    → starts_with (concat s (d ∷ t)) p ≡ starts_with s p
unfolding starts_with
starts_with-separated d s t [] h = refl
starts_with-separated d [] t (c ∷ p) h = rw nil-append (rw (lacks-cons d c p h).0 refl)
starts_with-separated d (e ∷ s) t (c ∷ p) h =
    rw cons-append (rw (starts_with-separated d s t p (lacks-cons d c p h).1) refl)

contains-separated :
    (d c : Char) (s t p : String)
    → lacks d (c ∷ p) ≡ true
    → contains t (c ∷ p) ≡ false
    → contains (concat s (d ∷ t)) (c ∷ p) ≡ contains s (c ∷ p)
unfolding contains starts_with
contains-separated d c [] t p h absent = rw nil-append (rw ((lacks-cons d c p h).0, absent) refl)
contains-separated d c (e ∷ s) t p h absent = rw cons-append (
    rw (starts_with-separated d s t p (lacks-cons d c p h).1, contains-separated d c s t p h absent)
      refl)

-- Parameters behind a DSN: each behind a `&`, the first one behind a `?` if there is none yet.
abbrev query_text : Bool → List String → String
query_text marked List.[] = ""
query_text marked (List.◌∷◌ p ps) =
    concat (if marked then "&" else "?") (concat p (query_text true ps))

abbrev unless : Bool → String → List String
unless true p = List.[]
unless false p = List.◌∷◌ p List.[]

-- The parameters that a DSN lacks.
abbrev missing_parameters : String → List String
missing_parameters given =
    lists (unless (contains given "charset=") "charset=utf8mb4")
      (unless (contains given "collation=") "collation=utf8mb4_unicode_ci")

with_parameter-text :
    (key value dsn : String)
    → with_parameter key value dsn
      ≡ concat dsn (query_text (contains dsn "?") (unless (contains dsn key) (concat key value)))
unfolding with_parameter
with_parameter-text key value dsn = elim (Bool-cases (contains dsn key)) [
  | inl there ↦ rw there (sym (append-nil dsn))
  | inr missing ↦ rw missing (rw append-nil refl)
]

-- A parameter that is added to a DSN leaves a mark, and does not look like another parameter.
added_parameter :
    (given : String)
    → contains given "charset=" ≡ false
    → let first = with_parameter "charset=" "utf8mb4" given in
      (first ≡ concat given (concat (if contains given "?" then "&" else "?") "charset=utf8mb4"))
      × (contains first "?" ≡ true)
      × (contains first "collation=" ≡ contains given "collation=")
unfolding with_parameter contains starts_with
added_parameter given missing = elim (Bool-cases (contains given "?")) [
  | inl marked ↦ (
    rw (missing, marked) refl,
    rw (missing, marked) (contains-concat_left given "&charset=utf8mb4" "?" marked),
    rw (missing, marked) (contains-separated "&" "c" given "charset=utf8mb4" "ollation=" refl refl),
  )
  | inr unmarked ↦ (
    rw (missing, unmarked) refl,
    rw (missing, unmarked) (contains-concat_right given "?charset=utf8mb4" "?" refl),
    rw (missing, unmarked)
        (contains-separated "?" "c" given "charset=utf8mb4" "ollation=" refl refl),
  )
]

normalize_mysql_dsn-text :
    (dsn : String)
    → trim_space dsn ≢ ""
    → normalize_mysql_dsn dsn
      ≡ concat
          (trim_space dsn)
          (query_text (contains (trim_space dsn) "?") (missing_parameters (trim_space dsn)))
unfolding normalize_mysql_dsn
normalize_mysql_dsn-text dsn not_blank =
    rw (eq-false_of_ne (trim_space dsn) "" not_blank) (go (trim_space dsn))
  where
    go :
        (given : String)
        → with_parameter "collation=" "utf8mb4_unicode_ci"
            (with_parameter "charset=" "utf8mb4" given)
          ≡ concat given (query_text (contains given "?") (missing_parameters given))
    go given = elim (Bool-cases (contains given "charset=")) [
      | inl there ↦
          let same : with_parameter "charset=" "utf8mb4" given ≡ given =
            unfold with_parameter in rw there refl in
          ap (with_parameter "collation=" "utf8mb4_unicode_ci") same
          ∙ with_parameter-text "collation=" "utf8mb4_unicode_ci" given
          ∙ rw there refl
      | inr missing ↦
          let (first, marked, collation) = added_parameter given missing in
          with_parameter-text "collation=" "utf8mb4_unicode_ci"
            (with_parameter "charset=" "utf8mb4" given)
          ∙ rw (marked, collation, first, missing, append_assoc, append_assoc) refl
    ]

-- A DSN that is not blank keeps its text, without the space around it, and gets behind it exactly
-- the parameters that it lacks, the character set before the collation, each behind a `&`, or the
-- first behind a `?` if the text has none; so the result names a character set and a collation.
normalize_mysql_dsn-contains :
    (dsn : String)
    → trim_space dsn ≢ ""
    → (normalize_mysql_dsn dsn
        ≡ concat
            (trim_space dsn)
            (query_text (contains (trim_space dsn) "?") (missing_parameters (trim_space dsn))))
      × (contains (normalize_mysql_dsn dsn) "charset=" ≡ true)
      × (contains (normalize_mysql_dsn dsn) "collation=" ≡ true)
unfolding normalize_mysql_dsn
normalize_mysql_dsn-contains dsn given =
    let first = with_parameter "charset=" "utf8mb4" (trim_space dsn) in
    let e' = with_parameter-text "collation=" "utf8mb4_unicode_ci" first in
    (
      normalize_mysql_dsn-text dsn given,
      rw (eq-false_of_ne (trim_space dsn) "" given) (
          ap (λ s. contains s "charset=") e'
          ∙ contains-concat_left first _ "charset="
              (with_parameter-contains "charset=" "utf8mb4" (trim_space dsn))),
      rw (eq-false_of_ne (trim_space dsn) "" given)
          (with_parameter-contains "collation=" "utf8mb4_unicode_ci" first),
    )
