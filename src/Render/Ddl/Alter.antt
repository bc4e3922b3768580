-- ===== src/Render/Ddl/Alter.antt =====
-- renderAlterTable of internal/render/render.go and the constraints that it adds and drops.
use unique_dialect.Base.{Bool, true, false, ◌&&◌, List, [], ◌∷◌, ◌++◌, if◌then◌else◌}
use unique_dialect.Dialect.{Dialect, mysql, postgres, sqlite, oracle, other}
use unique_dialect.Ir
use unique_dialect.Ir.{AlterTableSpecKind, AlterTableSpec, AlterTableStatement}
use unique_dialect.Render.Ddl.{is_standard, render_create_table_column, rewrite_create_table_type}
use unique_dialect.Render.Dml.{comma_space}
use unique_dialect.Render.Index.{render_index_parts, unless_empty}
use unique_dialect.Render.Quote.{quote_identifier_chain}
use unique_dialect.Render.Rewrite.{M, ◌>>=◌, done, rewrite_raw}
use unique_dialect.Text.{Text, codes, join, is_empty}

abbrev is_mysql : Dialect → Bool
is_mysql mysql = true
is_mysql postgres = false
is_mysql sqlite = false
is_mysql oracle = false
is_mysql (other _) = false

pub data KeyKind : Type 0 where
  primary_key unique_key : KeyKind

unfoldable pub key_words : KeyKind → Text
unfolding codes
key_words primary_key = codes "PRIMARY KEY"
key_words unique_key = codes "UNIQUE"

unfoldable pub named_constraint : Text → Dialect → Text
unfolding quote_identifier_chain codes
named_constraint name to =
    if is_empty name then [] else codes "CONSTRAINT " ++ quote_identifier_chain name to ++ codes " "

-- The words before the parts of a key.
unfoldable pub key_head : KeyKind → AlterTableSpec → Dialect → Text
unfolding key_words named_constraint quote_identifier_chain codes
key_head primary_key spec to =
    named_constraint spec.constraint_name to ++ key_words primary_key ++ codes " ("
key_head unique_key spec to =
    if is_mysql to
    then codes "UNIQUE KEY "
      ++ (if spec.if_not_exists then codes "IF NOT EXISTS " else [])
      ++ (if is_empty spec.constraint_name
          then []
          else quote_identifier_chain spec.constraint_name to ++ codes " ")
      ++ codes " ("
    else named_constraint spec.constraint_name to ++ key_words unique_key ++ codes " ("

unfoldable pub render_add_constraint : KeyKind → AlterTableSpec → Dialect → Dialect → M Text
unfolding key_head render_index_parts join codes
render_add_constraint kind spec from to = do
  parts ← render_index_parts spec.parts from to
  done (codes "ADD " ++ key_head kind spec to ++ join comma_space parts ++ codes ")")

unfoldable pub render_add_foreign_key : AlterTableSpec → Dialect → Dialect → M Text
unfolding named_constraint render_index_parts quote_identifier_chain join codes
render_add_foreign_key spec from to = do
  parts ← render_index_parts spec.parts from to
  ref_parts ← render_index_parts spec.reference.parts from to
  done (
      codes "ADD "
      ++ named_constraint spec.constraint_name to
      ++ codes "FOREIGN KEY "
      ++ (if spec.if_not_exists && is_mysql to then codes "IF NOT EXISTS " else [])
      ++ codes "("
      ++ join comma_space parts
      ++ codes ")"
      ++ codes " REFERENCES "
      ++ quote_identifier_chain spec.reference.table to
      ++ codes " ("
      ++ join comma_space ref_parts
      ++ codes ")"
      ++ unless_empty (codes " MATCH ") spec.reference.match
      ++ unless_empty (codes " ON DELETE ") spec.reference.on_delete
      ++ unless_empty (codes " ON UPDATE ") spec.reference.on_update)

unfoldable pub drop_constraint : Text → Bool → Dialect → Text
unfolding quote_identifier_chain codes
drop_constraint name if_exists to =
    (if if_exists then codes "DROP CONSTRAINT IF EXISTS " else codes "DROP CONSTRAINT ")
    ++ quote_identifier_chain name to

unfoldable pub render_drop_primary_key : Text → Bool → Dialect → Text
unfolding drop_constraint codes
render_drop_primary_key table_name if_exists to =
    if is_standard to
    then drop_constraint (table_name ++ codes "_pkey") if_exists to
    else codes "DROP PRIMARY KEY"

unfoldable pub render_drop_foreign_key : Text → Bool → Dialect → Text
unfolding drop_constraint quote_identifier_chain codes
render_drop_foreign_key name if_exists to =
    if is_standard to
    then drop_constraint name if_exists to
    else (if if_exists then codes "DROP FOREIGN KEY IF EXISTS " else codes "DROP FOREIGN KEY ")
      ++ quote_identifier_chain name to

unfoldable pub alter_column : AlterTableSpec → Dialect → Text → Text
unfolding quote_identifier_chain codes
alter_column spec to change = codes "ALTER COLUMN " ++ quote_identifier_chain spec.name to ++ change

-- One case of the switch over the kinds.
unfoldable pub render_spec : AlterTableSpecKind → Text → AlterTableSpec → Dialect → Dialect → M Text
unfolding render_create_table_column rewrite_raw rewrite_create_table_type alter_column
    render_add_constraint render_add_foreign_key render_drop_primary_key render_drop_foreign_key
    quote_identifier_chain codes
render_spec Ir.add_column table spec from to = do
  column ← render_create_table_column spec.column from to
  done (codes "ADD COLUMN " ++ column)
render_spec Ir.drop_column table spec from to =
    done (codes "DROP COLUMN " ++ quote_identifier_chain spec.name to)
render_spec Ir.set_default table spec from to = do
  default ← rewrite_raw spec.default from to
  done (alter_column spec to (codes " SET DEFAULT " ++ default))
render_spec Ir.drop_default table spec from to = done (alter_column spec to (codes " DROP DEFAULT"))
render_spec Ir.alter_type table spec from to =
    let t = rewrite_create_table_type spec.column.column_type spec.column.auto_increment to in
    done (alter_column spec to (codes " TYPE " ++ t))
render_spec Ir.set_not_null table spec from to = done (alter_column spec to (codes " SET NOT NULL"))
render_spec Ir.drop_not_null table spec from to =
    done (alter_column spec to (codes " DROP NOT NULL"))
render_spec Ir.rename_column table spec from to = done (
    codes "RENAME COLUMN "
    ++ quote_identifier_chain spec.name to
    ++ codes " TO "
    ++ quote_identifier_chain spec.new_name to)
render_spec Ir.add_primary_key table spec from to = render_add_constraint primary_key spec from to
render_spec Ir.add_unique_key table spec from to = render_add_constraint unique_key spec from to
render_spec Ir.add_foreign_key table spec from to = render_add_foreign_key spec from to
render_spec Ir.drop_primary_key table spec from to =
    done (render_drop_primary_key table spec.if_exists to)
render_spec Ir.drop_foreign_key table spec from to =
    done (render_drop_foreign_key spec.name spec.if_exists to)

unfoldable pub render_specs : Text → List AlterTableSpec → Dialect → Dialect → M (List Text)
unfolding render_spec
render_specs table [] from to n = ([], n)
render_specs table (s ∷ ss) from to n =
    let (t, n1) = render_spec s.kind table s from to n in
    let (ts, n2) = render_specs table ss from to n1 in (t ∷ ts, n2)

abbrev with_parts : List Text → Text
with_parts [] = []
with_parts (p ∷ ps) = b' ' ∷ join comma_space (p ∷ ps)

unfoldable pub render_alter_table : AlterTableStatement → Dialect → Dialect → M Text
unfolding render_specs quote_identifier_chain join codes
render_alter_table stmt from to = do
  parts ← render_specs stmt.name stmt.specs from to
  done (codes "ALTER TABLE " ++ quote_identifier_chain stmt.name to ++ with_parts parts)
