-- ===== src/Normalize/Alter/Gather.antt =====
-- The loop of normalizeTiDBAlterTable in internal/normalize/tidb_ddl.go.
use unique_dialect.Base.{
  Bool, true, false, not, ◌&&◌, ◌||◌, List, [], ◌∷◌, ◌++◌, Option, none, some, if◌then◌else◌,
}
use unique_dialect.Ir
use unique_dialect.Ir.{AlterTableSpecKind}
use unique_dialect.Normalize.Alter.{changes, foreign_key, apart, keep_raw, effect_of}
use unique_dialect.Normalize.Dml.{normalize_tidb_raw}
use unique_dialect.Normalize.Tables.{rendered_of}
use unique_dialect.Outcome.{Outcome, ok, ◌>>=◌}
use unique_dialect.Text.{Text, text_eq, is_empty, trim_space, to_lower, lower_byte}
use unique_dialect.Tidb

-- The statements so far, and the changes that wait for theirs.
pub record Gathered : Type 0 where
  pub statements : List Ir.Statement
  pub specs : List Ir.AlterTableSpec

abbrev pub alter_statement : Text → List Ir.AlterTableSpec → Ir.Statement
alter_statement table specs = Ir.alter_table (record { name = table; specs = specs })

unfoldable pub flushed : Text → List Ir.Statement → List Ir.AlterTableSpec → List Ir.Statement
flushed table statements [] = statements
flushed table statements (s ∷ specs) = statements ++ alter_statement table (s ∷ specs) ∷ []

-- flushAlterTable.
unfoldable pub flush : Text → Gathered → Gathered
unfolding flushed
flush table g = record { statements = flushed table g.statements g.specs; specs = [] }

abbrev pub is_add_column : AlterTableSpecKind → Bool
is_add_column Ir.add_column = true
is_add_column _ = false

abbrev pub column_key : Text → Text
unfolding trim_space lower_byte
column_key name = to_lower (trim_space name)

abbrev pub added_name : Text → List Text → List Text
added_name [] names = names
added_name (c ∷ s) names = (c ∷ s) ∷ names

-- The names of the columns that some changes add.
unfoldable pub added_columns : List Ir.AlterTableSpec → List Text
unfolding trim_space lower_byte
added_columns [] = []
added_columns (s ∷ specs) =
    let rest = added_columns specs in
    if is_add_column s.kind then added_name (column_key s.column.name) rest else rest

unfoldable pub is_among : Text → List Text → Bool
unfolding text_eq
is_among name [] = false
is_among name (n ∷ names) = text_eq n name || is_among name names

-- Some part of a key is none of the added columns.
unfoldable pub some_missing : List Text → List Ir.IndexPart → Bool
unfolding is_among trim_space lower_byte
some_missing names [] = false
some_missing names (p ∷ parts) =
    (is_empty (column_key p.column) || not (is_among (column_key p.column) names))
    || some_missing names parts

abbrev pub has_any {ℓ} : {A : Type ℓ} → List A → Bool
has_any [] = false
has_any (x ∷ xs) = true

unfoldable pub should_split_alter_table_before_add_foreign_key :
    List Ir.AlterTableSpec → List Ir.IndexPart → Bool
unfolding added_columns some_missing
should_split_alter_table_before_add_foreign_key specs parts =
    has_any (added_columns specs) && some_missing (added_columns specs) parts

unfoldable pub gather_changes : List Ir.AlterTableSpec → Gathered → Gathered
gather_changes specs g = record g { specs = g.specs ++ specs }

unfoldable pub gather_foreign_key : Text → Ir.AlterTableSpec → Gathered → Gathered
unfolding should_split_alter_table_before_add_foreign_key flush gather_changes
gather_foreign_key table s g =
    gather_changes (s ∷ [])
      (if should_split_alter_table_before_add_foreign_key g.specs s.parts then flush table g else g)

unfoldable pub gather_apart : Text → Ir.Statement → Gathered → Gathered
unfolding flush
gather_apart table stmt g = record {
  statements = (flush table g).statements ++ stmt ∷ [];
  specs = [];
}

-- The rest of the loop; `none` is the early return with the text as it is.
unfoldable pub gather_all :
    Text → List (Option Tidb.AlterTableSpec) → Gathered → Outcome (Option Gathered)
unfolding effect_of gather_changes gather_foreign_key gather_apart
gather_all table [] g = ok (some g)
gather_all table (none ∷ specs) g = gather_all table specs g
gather_all table (some s ∷ specs) g = do
  effect ← effect_of table s
  elim effect [
    | changes added ↦ gather_all table specs (gather_changes added g)
    | foreign_key added ↦ gather_all table specs (gather_foreign_key table added g)
    | apart stmt ↦ gather_all table specs (gather_apart table stmt g)
    | keep_raw ↦ ok none
  ]

abbrev pub gathered_nothing : Gathered
gathered_nothing = record { statements = []; specs = [] }

unfoldable pub alter_rendered : Text → Text → Option Gathered → Ir.Rendered
unfolding flushed rendered_of normalize_tidb_raw
alter_rendered sql table none = Ir.single (normalize_tidb_raw sql)
alter_rendered sql table (some g) = rendered_of (flushed table g.statements g.specs)

unfoldable pub alter_table_on :
    Text → List (Option Tidb.AlterTableSpec) → Option Tidb.TableName → Outcome Ir.Rendered
unfolding gather_all alter_rendered trim_space
alter_table_on sql specs none = ok (Ir.single (normalize_tidb_raw sql))
alter_table_on sql specs (some t) = do
  gathered ← gather_all (trim_space t.name) specs gathered_nothing
  ok (alter_rendered sql (trim_space t.name) gathered)

unfoldable pub normalize_tidb_alter_table : Text → Tidb.AlterTableStmt → Outcome Ir.Rendered
unfolding alter_table_on
normalize_tidb_alter_table sql stmt = alter_table_on sql stmt.specs stmt.table
