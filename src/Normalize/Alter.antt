-- ===== src/Normalize/Alter.antt =====
-- internal/normalize/tidb_ddl.go: ALTER TABLE. Its changes are gathered into one statement until an
-- index or a unique key needs a statement of its own, or a foreign key has to wait for columns.
pub mod Gather
pub mod Safe
pub mod Order
use unique_dialect.Base.{
  Bool, true, false, not, ◌&&◌, ◌||◌, List, [], ◌∷◌, ◌++◌, Option, none, some, if◌then◌else◌,
  choose,
}
use unique_dialect.Ir
use unique_dialect.Ir.{AlterTableSpecKind}
use unique_dialect.Normalize.Columns.{
  blank_column, normalize_tidb_column_def, normalize_tidb_index_parts, normalize_tidb_index_option,
  normalize_tidb_foreign_key_reference,
}
use unique_dialect.Normalize.Dml.{normalize_tidb_raw}
use unique_dialect.Normalize.Nodes.{expr_text}
use unique_dialect.Normalize.Tables.{rendered_of}
use unique_dialect.Outcome.{Outcome, ok, panic, ◌>>=◌}
use unique_dialect.Text.{Text, text_eq, is_empty, trim_space, to_lower, lower_byte}
use unique_dialect.Tidb
use unique_dialect.Tidb.{AlterTableType, ColumnDef, ColumnPosition, Constraint, ConstraintType}

-- An AlterTableSpec of internal/ir with nothing but its kind.
abbrev pub blank_spec : AlterTableSpecKind → Ir.AlterTableSpec
blank_spec kind = record {
  kind = kind;
  column = blank_column;
  name = [];
  new_name = [];
  default = [];
  constraint_name = [];
  parts = [];
  if_exists = false;
  if_not_exists = false;
  reference = record { table = []; parts = []; match = []; on_delete = []; on_update = [] };
}

unfoldable pub build_alter_column_mutation_specs :
    Ir.CreateTableColumn → Text → List Ir.AlterTableSpec
build_alter_column_mutation_specs column target =
    record (blank_spec Ir.alter_type) { name = target; column = column }
    ∷ (if column.not_null
        then record (blank_spec Ir.set_not_null) { name = target }
        else record (blank_spec Ir.drop_not_null) { name = target })
    ∷ []

-- What one clause of ALTER TABLE does to the statements gathered so far: it adds changes, or a
-- foreign key, or it takes a statement of its own, or the whole text is kept as it is.
pub data Effect : Type 0 where
  changes : List Ir.AlterTableSpec → Effect
  foreign_key : Ir.AlterTableSpec → Effect
  apart : Ir.Statement → Effect
  keep_raw : Effect

abbrev pub no_position : Option ColumnPosition → Bool
no_position none = false
no_position (some ColumnPosition.position_none) = true
no_position (some ColumnPosition.position_given) = false

unfoldable pub add_columns : Tidb.AlterTableSpec → List (Option ColumnDef) → Effect
unfolding normalize_tidb_column_def
add_columns s (c ∷ []) =
    if not s.has_new_constraints && no_position s.position
    then changes (record (blank_spec Ir.add_column) { column = normalize_tidb_column_def c } ∷ [])
    else keep_raw
add_columns s [] = keep_raw
add_columns s (_ ∷ _ ∷ _) = keep_raw

unfoldable pub drop_column : Option Text → Effect
unfolding trim_space
drop_column none = keep_raw
drop_column (some name) =
    changes (record (blank_spec Ir.drop_column) { name = trim_space name } ∷ [])

-- SET DEFAULT has the one option, which the code follows without a test.
unfoldable pub alter_default : Text → List (Option Tidb.ColumnOption) → Outcome Effect
unfolding expr_text
alter_default name (some o ∷ []) =
    ok (
      changes (record (blank_spec Ir.set_default) { name = name; default = expr_text o.expr } ∷ []))
alter_default name (none ∷ []) = panic
alter_default name [] = ok (changes (record (blank_spec Ir.drop_default) { name = name } ∷ []))
alter_default name (_ ∷ _ ∷ _) =
    ok (changes (record (blank_spec Ir.drop_default) { name = name } ∷ []))

unfoldable pub alter_named : ColumnDef → Option Text → Outcome Effect
unfolding alter_default trim_space
alter_named c none = ok keep_raw
alter_named c (some name) = alter_default (trim_space name) c.options

unfoldable pub alter_column : List (Option ColumnDef) → Outcome Effect
unfolding alter_named
alter_column (some c ∷ []) = alter_named c c.name
alter_column (none ∷ []) = ok keep_raw
alter_column [] = ok keep_raw
alter_column (_ ∷ _ ∷ _) = ok keep_raw

unfoldable pub modify_column : Option ColumnPosition → List (Option ColumnDef) → Effect
unfolding normalize_tidb_column_def build_alter_column_mutation_specs
modify_column position (some c ∷ []) =
    let column = normalize_tidb_column_def (some c) in
    if no_position position
    then changes (build_alter_column_mutation_specs column column.name)
    else keep_raw
modify_column position (none ∷ []) = keep_raw
modify_column position [] = keep_raw
modify_column position (_ ∷ _ ∷ _) = keep_raw

unfoldable pub rename_change : Text → Text → List Ir.AlterTableSpec
unfolding text_eq
rename_change old new =
    if text_eq old new
    then []
    else record (blank_spec Ir.rename_column) { name = old; new_name = new } ∷ []

unfoldable pub change_column_to : Text → Ir.CreateTableColumn → Effect
unfolding rename_change build_alter_column_mutation_specs
change_column_to old column =
    if is_empty old || is_empty column.name
    then keep_raw
    else changes
        (rename_change old column.name ++ build_alter_column_mutation_specs column column.name)

unfoldable pub change_column :
    Option ColumnPosition → Option Text → List (Option ColumnDef) → Effect
unfolding normalize_tidb_column_def change_column_to trim_space
change_column position (some old) (some c ∷ []) =
    if no_position position
    then change_column_to (trim_space old) (normalize_tidb_column_def (some c))
    else keep_raw
change_column position none (some c ∷ []) = keep_raw
change_column position old (none ∷ []) = keep_raw
change_column position old [] = keep_raw
change_column position old (_ ∷ _ ∷ _) = keep_raw

unfoldable pub add_unique_key : Text → Constraint → Effect
unfolding normalize_tidb_index_parts trim_space
add_unique_key table c = apart (
    Ir.alter_table (record {
      name = table;
      specs =
          record (blank_spec Ir.add_unique_key) {
            constraint_name = trim_space c.name;
            parts = normalize_tidb_index_parts c.keys;
            if_not_exists = c.if_not_exists;
          }
          ∷ [];
    }))

unfoldable pub add_foreign_key : Constraint → Effect
unfolding normalize_tidb_foreign_key_reference normalize_tidb_index_parts trim_space
add_foreign_key c = choose (normalize_tidb_foreign_key_reference c.refer) keep_raw λ r.
    foreign_key (record (blank_spec Ir.add_foreign_key) {
      constraint_name = trim_space c.name;
      parts = normalize_tidb_index_parts c.keys;
      if_not_exists = c.if_not_exists;
      reference = r;
    })

-- normalizeTiDBAlterTableAddIndex; without a name there is no statement.
unfoldable pub add_index : Text → Constraint → Effect
unfolding normalize_tidb_index_option normalize_tidb_index_parts trim_space
add_index table c =
    let option = normalize_tidb_index_option c.option in
    if is_empty (trim_space c.name)
    then keep_raw
    else apart (
        Ir.create_index (record {
          name = trim_space c.name;
          table = table;
          unique = false;
          if_not_exists = c.if_not_exists;
          parts = normalize_tidb_index_parts c.keys;
          using = option.using;
          parser_name = option.parser_name;
          where_expr = option.where_expr;
          comment = option.comment;
          visibility = option.visibility;
          algorithm = [];
          lock = [];
        }))

unfoldable pub add_constraint_by : Text → Constraint → ConstraintType → Effect
unfolding normalize_tidb_index_parts add_unique_key add_foreign_key add_index
add_constraint_by table c ConstraintType.primary_key =
    changes
      (record (blank_spec Ir.add_primary_key) { parts = normalize_tidb_index_parts c.keys } ∷ [])
add_constraint_by table c ConstraintType.uniq = add_unique_key table c
add_constraint_by table c ConstraintType.uniq_key = add_unique_key table c
add_constraint_by table c ConstraintType.uniq_index = add_unique_key table c
add_constraint_by table c ConstraintType.foreign_key = add_foreign_key c
add_constraint_by table c ConstraintType.key = add_index table c
add_constraint_by table c ConstraintType.index = add_index table c
add_constraint_by table c ConstraintType.other_constraint = keep_raw

unfoldable pub add_constraint : Text → Option Constraint → Effect
unfolding add_constraint_by
add_constraint table none = keep_raw
add_constraint table (some c) = add_constraint_by table c c.tp

-- The switch over the type of a clause.
unfoldable pub effect_by : Text → Tidb.AlterTableSpec → AlterTableType → Outcome Effect
unfolding add_columns drop_column alter_column modify_column change_column add_constraint trim_space
effect_by table s AlterTableType.add_columns = ok (add_columns s s.new_columns)
effect_by table s AlterTableType.drop_column = ok (drop_column s.old_column_name)
effect_by table s AlterTableType.alter_column = alter_column s.new_columns
effect_by table s AlterTableType.modify_column = ok (modify_column s.position s.new_columns)
effect_by table s AlterTableType.change_column =
    ok (change_column s.position s.old_column_name s.new_columns)
effect_by table s AlterTableType.add_constraint = ok (add_constraint table s.constraint)
effect_by table s AlterTableType.drop_primary_key =
    ok (changes (record (blank_spec Ir.drop_primary_key) { if_exists = s.if_exists } ∷ []))
effect_by table s AlterTableType.drop_index = ok (
    apart
      (Ir.drop_index (record { name = trim_space s.name; if_exists = s.if_exists; table = [] })))
effect_by table s AlterTableType.drop_foreign_key = ok (
    changes (
      record (blank_spec Ir.drop_foreign_key) { name = trim_space s.name; if_exists = s.if_exists }
      ∷ []))
effect_by table s AlterTableType.other_type = ok keep_raw

unfoldable pub effect_of : Text → Tidb.AlterTableSpec → Outcome Effect
unfolding effect_by
effect_of table s = effect_by table s s.tp
