-- ===== src/Tests/Examples/Shim.antt =====
-- The theorem on the artifacts of bootstrap.go at a concrete input, and what is planned for a table.
use unique_dialect.Base.{[], ◌∷◌, none, some, ◌≡◌, ◌≢◌, refl}
use unique_dialect.Bootstrap.Names.{names, texts, build_on_update_artifacts-ambiguous}
use unique_dialect.Bootstrap.Regexp.{find_create_table, find_on_update_columns}
use unique_dialect.Bootstrap.{build_on_update_artifacts, on_update_columns, table_artifacts}
use unique_dialect.Text.{Text, codes}
use unique_dialect.Tidb
use unique_dialect.Tidb.{NodeText}

abbrev unparsed : Text
unparsed =
    codes
      "CREATE table \"Users\" (`Seen` timestamp NOT NULL ON  UPDATE current_timestamp, x timestamp)"

unparsed_table : find_create_table unparsed ≡ some (codes "Users")
unfolding find_create_table codes
unparsed_table = refl

unparsed_columns : find_on_update_columns unparsed ≡ codes "seen" ∷ []
unfolding find_on_update_columns codes
unparsed_columns = refl

abbrev now : NodeText
now = record { original = []; restored = some (codes "CURRENT_TIMESTAMP") }

abbrev seen_column : Tidb.ColumnDef
seen_column = record {
  name = some (codes "Seen");
  column_type = none;
  options =
      none
      ∷ some (record { tp = Tidb.on_update; expr = Tidb.call now (codes "current_timestamp") })
      ∷ [];
}

parsed_columns : on_update_columns (none ∷ some seen_column ∷ []) ≡ codes "seen" ∷ []
unfolding on_update_columns codes
parsed_columns = refl

artifact_names :
    names (table_artifacts (codes "u") (codes "c" ∷ []))
    ≡ codes "ud_bootstrap_u_c_on_update" ∷ codes "ud_bootstrap_u_c_on_update_trg" ∷ []
unfolding table_artifacts codes
artifact_names = refl

build_on_update_artifacts-ambiguous_example :
    (names (build_on_update_artifacts (codes "user_log") (codes "at" ∷ []))
      ≡ names (build_on_update_artifacts (codes "user") (codes "log_at" ∷ [])))
    × (texts (build_on_update_artifacts (codes "user_log") (codes "at" ∷ []))
        ≢ texts (build_on_update_artifacts (codes "user") (codes "log_at" ∷ [])))
unfolding codes
build_on_update_artifacts-ambiguous_example =
    build_on_update_artifacts-ambiguous (codes "user") (codes "log") (codes "at")
