-- ===== src/Normalize/Tables.antt =====
-- internal/normalize/tidb_ddl.go: CREATE TABLE and RENAME TABLE.
use unique_dialect.Base.{
  Bool, true, false, ◌||◌, List, [], ◌∷◌, Option, none, some, if◌then◌else◌, choose, take,
}
use unique_dialect.Ir
use unique_dialect.Normalize.Columns.{normalize_tidb_column_def, normalize_tidb_table_name}
use unique_dialect.Normalize.Dml.{normalize_tidb_raw}
use unique_dialect.Normalize.Nodes.{restore_node}
use unique_dialect.Text.{Text, text_eq, is_empty, trim_space, index_byte}
use unique_dialect.Tidb.{ColumnDef, Constraint, CreateTableStmt, TableName, TableToTable}

abbrev pub is_named : Option ColumnDef → Bool
is_named none = false
is_named (some c) = choose c.name false λ n. true

-- The columns that have a name.
unfoldable pub table_columns : List (Option ColumnDef) → List Ir.CreateTableColumn
unfolding normalize_tidb_column_def
table_columns [] = []
table_columns (c ∷ cs) =
    let rest = table_columns cs in if is_named c then normalize_tidb_column_def c ∷ rest else rest

unfoldable pub table_constraints : List (Option Constraint) → List Text
table_constraints [] = []
table_constraints (none ∷ cs) = table_constraints cs
table_constraints (some c ∷ cs) = restore_node c.text ∷ table_constraints cs

unfoldable pub create_table_on : CreateTableStmt → Option TableName → Ir.Statement
unfolding table_columns table_constraints trim_space
create_table_on s none = Ir.raw []
create_table_on s (some t) = Ir.create_table (record {
  name = trim_space t.name;
  if_not_exists = s.if_not_exists;
  columns = table_columns s.cols;
  constraints = table_constraints s.constraints;
})

unfoldable pub normalize_tidb_create_table : CreateTableStmt → Ir.Statement
unfolding create_table_on
normalize_tidb_create_table s = create_table_on s s.table

unfoldable pub extract_schema : Text → Text
unfolding index_byte
extract_schema identifier = choose (index_byte b'.' identifier) [] λ i. take i identifier

unfoldable pub rename_within_same_schema : Text → Text → Bool
unfolding extract_schema text_eq
rename_within_same_schema old new = text_eq (extract_schema old) (extract_schema new)

-- One renaming, unless it is not of one schema.
unfoldable pub rename_statement : Text → Text → Option Ir.Statement
unfolding rename_within_same_schema
rename_statement old new =
    if is_empty old || is_empty new
    then none
    else if rename_within_same_schema old new
    then some (Ir.rename_table (record { old_name = old; new_name = new }))
    else none

unfoldable pub rename_tables : Option TableName → Option TableName → Option Ir.Statement
unfolding rename_statement normalize_tidb_table_name
rename_tables (some old) (some new) =
    rename_statement (normalize_tidb_table_name old) (normalize_tidb_table_name new)
rename_tables (some old) none = none
rename_tables none new = none

unfoldable pub rename_one : Option TableToTable → Option Ir.Statement
unfolding rename_tables
rename_one none = none
rename_one (some t) = rename_tables t.old_table t.new_table

-- The loop of normalizeTiDBRenameTable; `none` is its early return.
unfoldable pub rename_all : List (Option TableToTable) → Option (List Ir.Statement)
unfolding rename_one
rename_all [] = some []
rename_all (t ∷ ts) =
    choose (rename_one t) none λ s. choose (rename_all ts) none λ rest. some (s ∷ rest)

-- The one statement of a list, or all of them.
unfoldable pub rendered_of : List Ir.Statement → Ir.Rendered
rendered_of (s ∷ []) = Ir.single s
rendered_of [] = Ir.batch []
rendered_of (s ∷ t ∷ rest) = Ir.batch (s ∷ t ∷ rest)

unfoldable pub normalize_tidb_rename_table : Text → List (Option TableToTable) → Ir.Rendered
unfolding rename_all rendered_of normalize_tidb_raw
normalize_tidb_rename_table sql [] = Ir.single (normalize_tidb_raw sql)
normalize_tidb_rename_table sql (t ∷ ts) =
    choose (rename_all (t ∷ ts)) (Ir.single (normalize_tidb_raw sql)) rendered_of
