-- ===== src/Normalize/Show.antt =====
-- internal/normalize/tidb_show.go: SHOW. Each statement is accepted without a condition, or with one
-- equation of a column it knows and a value.
use unique_dialect.Base.{
  Bool, true, false, not, ◌&&◌, ◌||◌, [], ◌++◌, Option, none, some, String, if◌then◌else◌, ◌==◌,
}
use unique_dialect.Ir
use unique_dialect.Outcome.{Outcome, ok, err, ◌>>=◌, unsupported_show_variant, missing_show_name}
use unique_dialect.Text.{Text, codes, text_eq, is_empty, trim_space, equal_fold, lower_byte}
use unique_dialect.Tidb.{Expr, PatternLike, ShowStmt, ShowType, TableName}

-- A pattern that is read: LIKE without NOT and with the default escape.
abbrev pub is_plain_like : PatternLike → Bool
is_plain_like p = (not p.negated && p.is_like) && (p.escape == 0 || p.escape == 92)

unfoldable pub like_text : Bool → Expr → Outcome Text
like_text true (Expr.value t s shown) = ok s
like_text true _ = err unsupported_show_variant
like_text false e = err unsupported_show_variant

unfoldable pub like_pattern : PatternLike → Option Expr → Outcome Text
unfolding like_text
like_pattern p none = ok []
like_pattern p (some e) = like_text (is_plain_like p) e

unfoldable pub normalize_tidb_show_like_pattern : Option PatternLike → Outcome Text
unfolding like_pattern
normalize_tidb_show_like_pattern none = ok []
normalize_tidb_show_like_pattern (some p) = like_pattern p p.pattern

-- The column and the value of `column = value`: GetString, and GetValue in print.
pub record Equation : Type 0 where
  pub column : Text
  pub value : Text
  pub shown : Option Text

-- The tests that all the readers of a condition begin with.
unfoldable pub equation_of : Expr → Outcome Equation
unfolding trim_space
equation_of (Expr.equals t (Expr.column t1 (some name)) (Expr.value t2 s shown)) =
    ok (record { column = trim_space name; value = trim_space s; shown = shown })
equation_of (Expr.equals t (Expr.column t1 (some name)) _) = err unsupported_show_variant
equation_of (Expr.equals t (Expr.column t1 none) _) = err unsupported_show_variant
equation_of (Expr.equals t _ _) = err unsupported_show_variant
equation_of _ = err unsupported_show_variant

abbrev pub is_column : Equation → String → Bool
is_column q name = equal_fold q.column (codes name)

-- The readers whose condition names one column: normalizeTiDBShowVariablesWhere,
-- normalizeTiDBShowDatabasesWhere and normalizeTiDBShowColumnsWhere.
unfoldable pub normalize_tidb_show_one_where : String → Option Expr → Outcome Text
unfolding equation_of text_eq lower_byte codes
normalize_tidb_show_one_where name none = ok []
normalize_tidb_show_one_where name (some e) = do
  q ← equation_of e
  if is_column q name then ok q.value else err unsupported_show_variant

abbrev pub normalize_tidb_show_variables_where : Option Expr → Outcome Text
unfolding normalize_tidb_show_one_where
normalize_tidb_show_variables_where = normalize_tidb_show_one_where "Variable_name"

abbrev pub normalize_tidb_show_databases_where : Option Expr → Outcome Text
unfolding normalize_tidb_show_one_where
normalize_tidb_show_databases_where = normalize_tidb_show_one_where "Database"

abbrev pub normalize_tidb_show_columns_where : Option Expr → Outcome Text
unfolding normalize_tidb_show_one_where
normalize_tidb_show_columns_where = normalize_tidb_show_one_where "Field"

-- The name, the comment and the engine.
unfoldable pub normalize_tidb_show_table_status_where : Option Expr → Outcome (Text × Text × Text)
unfolding equation_of text_eq lower_byte codes
normalize_tidb_show_table_status_where none = ok ([], [], [])
normalize_tidb_show_table_status_where (some e) = do
  q ← equation_of e
  if is_column q "Name"
      then ok (q.value, [], [])
      else if is_column q "Comment"
      then ok ([], q.value, [])
      else if is_column q "Engine"
      then ok ([], [], q.value)
      else err unsupported_show_variant

abbrev pub shown_text : Option Text → Text
unfolding trim_space
shown_text none = []
shown_text (some t) = trim_space t

-- The value that a condition on a number has, from GetValue if GetString is empty.
abbrev pub raw_value : Equation → Text
unfolding trim_space
raw_value q = if is_empty q.value then shown_text q.shown else q.value

-- The conditions of SHOW INDEX, of which at most one is not empty.
pub record IndexWhere : Type 0 where
  pub key_name : Text
  pub column : Text
  pub index_type : Text
  pub non_unique : Text
  pub seq_in_index : Text

abbrev pub no_index_where : IndexWhere
no_index_where = record {
  key_name = [];
  column = [];
  index_type = [];
  non_unique = [];
  seq_in_index = [];
}

unfoldable pub normalize_tidb_show_index_where : Option Expr → Outcome IndexWhere
unfolding equation_of text_eq lower_byte codes
normalize_tidb_show_index_where none = ok no_index_where
normalize_tidb_show_index_where (some e) = do
  q ← equation_of e
  if is_column q "Key_name"
      then ok (record no_index_where { key_name = q.value })
      else if is_column q "Column_name"
      then ok (record no_index_where { column = q.value })
      else if is_column q "Index_type"
      then ok (record no_index_where { index_type = q.value })
      else if is_column q "Non_unique"
      then (if text_eq (raw_value q) (codes "0") || text_eq (raw_value q) (codes "1")
          then ok (record no_index_where { non_unique = raw_value q })
          else err unsupported_show_variant)
      else if is_column q "Seq_in_index"
      then (if is_empty (raw_value q)
          then err unsupported_show_variant
          else ok (record no_index_where { seq_in_index = raw_value q }))
      else err unsupported_show_variant

abbrev pub tables_column : Text → Text
unfolding trim_space codes
tables_column database =
    if is_empty (trim_space database)
    then codes "Tables_in_current_schema"
    else codes "Tables_in_" ++ trim_space database

-- The name and the table type.
unfoldable pub normalize_tidb_show_tables_where : Text → Bool → Option Expr → Outcome (Text × Text)
unfolding equation_of text_eq lower_byte codes
normalize_tidb_show_tables_where database full none = ok ([], [])
normalize_tidb_show_tables_where database full (some e) = do
  q ← equation_of e
  if full && is_column q "Table_type"
      then ok ([], q.value)
      else if equal_fold q.column (tables_column database)
      then ok (q.value, [])
      else err unsupported_show_variant

-- The database of a statement on a table: FROM, or the schema of the table.
unfoldable pub show_database : Text → TableName → Text
unfolding trim_space
show_database db table = if is_empty (trim_space db) then trim_space table.schema else trim_space db

unfoldable pub normalize_tidb_show_tables : ShowStmt → Outcome Ir.Statement
unfolding normalize_tidb_show_like_pattern normalize_tidb_show_tables_where trim_space
normalize_tidb_show_tables s = do
  pattern ← normalize_tidb_show_like_pattern s.pattern
  (name, table_type) ← normalize_tidb_show_tables_where (trim_space s.db_name) s.full s.where_expr
  ok (
      Ir.show_tables (record {
        database = trim_space s.db_name;
        full = s.full;
        pattern = pattern;
        name = name;
        table_type = table_type;
      }))

unfoldable pub normalize_tidb_show_columns : ShowStmt → Option TableName → Outcome Ir.Statement
unfolding normalize_tidb_show_like_pattern normalize_tidb_show_one_where show_database trim_space
normalize_tidb_show_columns s none = err missing_show_name
normalize_tidb_show_columns s (some table) =
    let rest = (do
      pattern ← normalize_tidb_show_like_pattern s.pattern
      field ← normalize_tidb_show_columns_where s.where_expr
      ok (
          Ir.show_columns (record {
            table = trim_space table.name;
            database = show_database s.db_name table;
            full = s.full;
            pattern = pattern;
            field = field;
          }))) in
    if s.extended then err unsupported_show_variant else rest

abbrev pub is_there {ℓ} : {A : Type ℓ} → Option A → Bool
is_there none = false
is_there (some a) = true

unfoldable pub normalize_tidb_show_index : ShowStmt → Option TableName → Outcome Ir.Statement
unfolding normalize_tidb_show_index_where show_database trim_space
normalize_tidb_show_index s none = err missing_show_name
normalize_tidb_show_index s (some table) =
    let rest = (do
      q ← normalize_tidb_show_index_where s.where_expr
      ok (
          Ir.show_index (record {
            table = trim_space table.name;
            database = show_database s.db_name table;
            key_name = q.key_name;
            column = q.column;
            index_type = q.index_type;
            non_unique = q.non_unique;
            seq_in_index = q.seq_in_index;
          }))) in
    if is_there s.pattern then err unsupported_show_variant else rest

unfoldable pub normalize_tidb_show_table_status : ShowStmt → Outcome Ir.Statement
unfolding normalize_tidb_show_like_pattern normalize_tidb_show_table_status_where trim_space
normalize_tidb_show_table_status s = do
  (name, comment, engine) ← normalize_tidb_show_table_status_where s.where_expr
  pattern ← normalize_tidb_show_like_pattern s.pattern
  ok (
      Ir.show_table_status (record {
        database = trim_space s.db_name;
        pattern = pattern;
        name = name;
        comment = comment;
        engine = engine;
      }))

unfoldable pub normalize_tidb_show_databases : ShowStmt → Outcome Ir.Statement
unfolding normalize_tidb_show_like_pattern normalize_tidb_show_one_where
normalize_tidb_show_databases s = do
  pattern ← normalize_tidb_show_like_pattern s.pattern
  name ← normalize_tidb_show_databases_where s.where_expr
  ok (Ir.show_databases (record { pattern = pattern; name = name }))

unfoldable pub normalize_tidb_show_create_database : ShowStmt → Outcome Ir.Statement
unfolding trim_space
normalize_tidb_show_create_database s =
    if is_empty (trim_space s.db_name)
    then err missing_show_name
    else ok (
        Ir.show_create_database
          (record { name = trim_space s.db_name; if_not_exists = s.if_not_exists }))

unfoldable pub normalize_tidb_show_create_table : Option TableName → Outcome Ir.Statement
unfolding trim_space
normalize_tidb_show_create_table none = err missing_show_name
normalize_tidb_show_create_table (some t) =
    ok (Ir.show_create_table (record { schema = trim_space t.schema; name = trim_space t.name }))

unfoldable pub normalize_tidb_show_create_view : Option TableName → Outcome Ir.Statement
unfolding trim_space
normalize_tidb_show_create_view none = err missing_show_name
normalize_tidb_show_create_view (some t) =
    ok (Ir.show_create_view (record { schema = trim_space t.schema; name = trim_space t.name }))

unfoldable pub normalize_tidb_show_variables : ShowStmt → Outcome Ir.Statement
unfolding normalize_tidb_show_like_pattern normalize_tidb_show_one_where
normalize_tidb_show_variables s =
    let rest = (do
      pattern ← normalize_tidb_show_like_pattern s.pattern
      name ← normalize_tidb_show_variables_where s.where_expr
      ok (Ir.show_variables (record { pattern = pattern; name = name }))) in
    if s.global_scope then err unsupported_show_variant else rest

unfoldable pub normalize_tidb_show_by : ShowStmt → ShowType → Outcome Ir.Statement
unfolding normalize_tidb_show_tables normalize_tidb_show_columns normalize_tidb_show_index
    normalize_tidb_show_table_status normalize_tidb_show_databases normalize_tidb_show_variables
    normalize_tidb_show_create_database normalize_tidb_show_create_table
    normalize_tidb_show_create_view
normalize_tidb_show_by s ShowType.tables = normalize_tidb_show_tables s
normalize_tidb_show_by s ShowType.columns = normalize_tidb_show_columns s s.table
normalize_tidb_show_by s ShowType.index = normalize_tidb_show_index s s.table
normalize_tidb_show_by s ShowType.table_status = normalize_tidb_show_table_status s
normalize_tidb_show_by s ShowType.databases = normalize_tidb_show_databases s
normalize_tidb_show_by s ShowType.create_database = normalize_tidb_show_create_database s
normalize_tidb_show_by s ShowType.create_table = normalize_tidb_show_create_table s.table
normalize_tidb_show_by s ShowType.create_view = normalize_tidb_show_create_view s.table
normalize_tidb_show_by s ShowType.variables = normalize_tidb_show_variables s
normalize_tidb_show_by s ShowType.other_show = err unsupported_show_variant

unfoldable pub normalize_tidb_show : ShowStmt → Outcome Ir.Statement
unfolding normalize_tidb_show_by
normalize_tidb_show s = normalize_tidb_show_by s s.tp
