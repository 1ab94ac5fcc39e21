-- ===== src/Dsn/Examples.antt =====
-- `normalizeMySQLDSN` (cmd/incident-api/main.go, cmd/ops-gateway/main.go) on a concrete DSN.
use Prim.Native.String.{◌++◌ as concat}
use graph_ops.Base.{String, ◌≡◌, refl, true, ne_of_eq-false}
use graph_ops.Base.Text.{trim_space}
use graph_ops.Dsn.{
  contains, query_text, missing_parameters, normalize_mysql_dsn, normalize_mysql_dsn-contains,
}

abbrev dsn : String
dsn = " root:secret@tcp(mysql:3306)/graphops?parseTime=true "

normalize_mysql_dsn-contains_example :
    (normalize_mysql_dsn dsn
      ≡ concat
          (trim_space dsn)
          (query_text (contains (trim_space dsn) "?") (missing_parameters (trim_space dsn))))
    × (contains (normalize_mysql_dsn dsn) "charset=" ≡ true)
    × (contains (normalize_mysql_dsn dsn) "collation=" ≡ true)
normalize_mysql_dsn-contains_example =
    normalize_mysql_dsn-contains dsn (unfold trim_space in ne_of_eq-false (trim_space dsn) "" refl)
