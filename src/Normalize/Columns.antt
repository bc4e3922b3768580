-- ===== src/Normalize/Columns.antt =====
-- internal/normalize/tidb_ddl.go: columns, the parts and the options of indexes, and references.
use unique_dialect.Base.{
  Bool, true, false, ◌||◌, List, [], ◌∷◌, ◌++◌, Option, none, some, if◌then◌else◌,
}
use unique_dialect.Ir
use unique_dialect.Normalize.Nodes.{expr_text}
use unique_dialect.Text.{Text, codes, is_empty, trim_space, to_lower, lower_byte}
use unique_dialect.Tidb
use unique_dialect.Tidb.{
  ColumnDef, ColumnOption, ColumnOptionType, Expr, IndexPartSpecification, IndexOption,
  IndexLockAndAlgorithm, IndexVisibility, MatchType, ReferenceDef, TableName,
}

unfoldable pub normalize_tidb_table_name : TableName → Text
unfolding trim_space
normalize_tidb_table_name t =
    if is_empty (trim_space t.schema)
    then trim_space t.name
    else trim_space t.schema ++ b'.' ∷ trim_space t.name

abbrev pub blank_column : Ir.CreateTableColumn
blank_column = record {
  name = [];
  column_type = [];
  not_null = false;
  primary_key = false;
  unique = false;
  auto_increment = false;
  default = [];
}

unfoldable pub set_option : ColumnOptionType → Expr → Ir.CreateTableColumn → Ir.CreateTableColumn
unfolding expr_text
set_option ColumnOptionType.primary_key e c = record c { primary_key = true }
set_option ColumnOptionType.not_null e c = record c { not_null = true }
set_option ColumnOptionType.null e c = record c { not_null = false }
set_option ColumnOptionType.uniq_key e c = record c { unique = true }
set_option ColumnOptionType.auto_increment e c = record c { auto_increment = true }
set_option ColumnOptionType.default_value e c = record c { default = expr_text e }
set_option ColumnOptionType.on_update e c = c
set_option ColumnOptionType.other_option e c = c

unfoldable pub set_options :
    List (Option ColumnOption) → Ir.CreateTableColumn → Ir.CreateTableColumn
unfolding set_option
set_options [] c = c
set_options (none ∷ os) c = set_options os c
set_options (some o ∷ os) c = set_options os (set_option o.tp o.expr c)

abbrev pub type_text : Option Text → Text
unfolding trim_space lower_byte
type_text none = []
type_text (some t) = to_lower (trim_space t)

unfoldable pub normalize_named_column : ColumnDef → Option Text → Ir.CreateTableColumn
unfolding set_options trim_space
normalize_named_column c none = blank_column
normalize_named_column c (some name) =
    set_options c.options
      (record blank_column { name = trim_space name; column_type = type_text c.column_type })

unfoldable pub normalize_tidb_column_def : Option ColumnDef → Ir.CreateTableColumn
unfolding normalize_named_column
normalize_tidb_column_def none = blank_column
normalize_tidb_column_def (some c) = normalize_named_column c c.name

abbrev pub trimmed_text : Option Text → Text
unfolding trim_space
trimmed_text none = []
trimmed_text (some t) = trim_space t

abbrev pub condition_text : Option Expr → Text
unfolding expr_text
condition_text none = []
condition_text (some e) = expr_text e

unfoldable pub index_part : IndexPartSpecification → Ir.IndexPart
unfolding expr_text trim_space
index_part p = record {
  column = trimmed_text p.column;
  expr = condition_text p.expr;
  length = p.length;
  desc = p.desc;
}

unfoldable pub normalize_tidb_index_parts : List (Option IndexPartSpecification) → List Ir.IndexPart
unfolding index_part
normalize_tidb_index_parts [] = []
normalize_tidb_index_parts (none ∷ ps) = normalize_tidb_index_parts ps
normalize_tidb_index_parts (some p ∷ ps) = index_part p ∷ normalize_tidb_index_parts ps

-- The five results of normalizeTiDBIndexOption.
pub record IndexOptionTexts : Type 0 where
  pub using : Text
  pub parser_name : Text
  pub where_expr : Text
  pub comment : Text
  pub visibility : Text

unfoldable pub visibility_text : IndexVisibility → Text
unfolding codes
visibility_text IndexVisibility.visible = codes "VISIBLE"
visibility_text IndexVisibility.invisible = codes "INVISIBLE"
visibility_text IndexVisibility.default_visibility = []

unfoldable pub normalize_tidb_index_option : Option IndexOption → IndexOptionTexts
unfolding expr_text trim_space visibility_text
normalize_tidb_index_option none = record {
  using = [];
  parser_name = [];
  where_expr = [];
  comment = [];
  visibility = [];
}
normalize_tidb_index_option (some o) = record {
  using = trimmed_text o.tp;
  parser_name = trim_space o.parser_name;
  where_expr = condition_text o.condition;
  comment = trim_space o.comment;
  visibility = visibility_text o.visibility;
}

-- The algorithm and the lock.
unfoldable pub normalize_tidb_index_lock_and_algorithm : Option IndexLockAndAlgorithm → Text × Text
unfolding trim_space
normalize_tidb_index_lock_and_algorithm none = ([], [])
normalize_tidb_index_lock_and_algorithm (some l) = (trimmed_text l.algorithm, trimmed_text l.lock)

unfoldable pub normalize_tidb_match_type : MatchType → Text
unfolding codes
normalize_tidb_match_type MatchType.match_full = codes "FULL"
normalize_tidb_match_type MatchType.match_partial = codes "PARTIAL"
normalize_tidb_match_type MatchType.match_simple = codes "SIMPLE"
normalize_tidb_match_type MatchType.match_none = []

abbrev pub has_no {ℓ} : {A : Type ℓ} → List A → Bool
has_no [] = true
has_no (x ∷ xs) = false

unfoldable pub reference_to : ReferenceDef → Option TableName → Option Ir.ForeignKeyReference
unfolding normalize_tidb_table_name normalize_tidb_index_parts normalize_tidb_match_type trim_space
reference_to r none = none
reference_to r (some t) =
    let table = trim_space (normalize_tidb_table_name t) in
    let parts = normalize_tidb_index_parts r.parts in
    if is_empty table || has_no parts
    then none
    else some (record {
      table = table;
      parts = parts;
      match = normalize_tidb_match_type r.match;
      on_delete = trimmed_text r.on_delete;
      on_update = trimmed_text r.on_update;
    })

unfoldable pub normalize_tidb_foreign_key_reference :
    Option ReferenceDef → Option Ir.ForeignKeyReference
unfolding reference_to
normalize_tidb_foreign_key_reference none = none
normalize_tidb_foreign_key_reference (some r) = reference_to r r.table

abbrev pub table_text : Option TableName → Text
unfolding trim_space
table_text none = []
table_text (some t) = trim_space t.name

unfoldable pub normalize_tidb_create_index : Tidb.CreateIndexStmt → Ir.Statement
unfolding normalize_tidb_index_option normalize_tidb_index_lock_and_algorithm trim_space
    normalize_tidb_index_parts
normalize_tidb_create_index s =
    let option = normalize_tidb_index_option s.index_option in
    let alg = normalize_tidb_index_lock_and_algorithm s.lock_alg in
    Ir.create_index (record {
      name = trim_space s.index_name;
      table = table_text s.table;
      unique = s.is_unique;
      if_not_exists = s.if_not_exists;
      parts = normalize_tidb_index_parts s.parts;
      using = option.using;
      parser_name = option.parser_name;
      where_expr = option.where_expr;
      comment = option.comment;
      visibility = option.visibility;
      algorithm = alg.0;
      lock = alg.1;
    })

unfoldable pub normalize_tidb_drop_index : Tidb.DropIndexStmt → Ir.Statement
unfolding trim_space
normalize_tidb_drop_index s =
    Ir.drop_index (record {
      name = trim_space s.index_name;
      if_exists = s.if_exists;
      table = table_text s.table;
    })
