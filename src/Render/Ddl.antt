-- ===== src/Render/Ddl.antt =====
-- renderCreateTable, renderCreateTableColumn, rewriteCreateTableConstraint, rewriteCreateTableType
-- of internal/render/render.go; renderAlterTable is in Alter.
pub mod Alter
use unique_dialect.Base.{
  ℕ, ◌+◌, ◌-◌, Bool, true, false, not, ◌&&◌, ◌||◌, List, [], ◌∷◌, ◌++◌, Option, none, some, map,
  leb, ltb, if◌then◌else◌, choose, length, take, drop,
}
use unique_dialect.Dialect.{Dialect, mysql, postgres, sqlite, oracle, other}
use unique_dialect.Ir.{
  IndexPart, CreateTableColumn, CreateTableStatement, DropIndexStatement, CreateIndexStatement,
  RenameTableStatement,
}
use unique_dialect.Render.Dml.{comma_space, optional_clause}
use unique_dialect.Render.Quote.{dot, quote_identifier_chain, quote_string_literal}
use unique_dialect.Render.Regexp.{replace_func, integer_width_match}
use unique_dialect.Outcome.{returned}
use unique_dialect.Render.Slices.{before_paren, move_constraint_name}
use unique_dialect.Render.Rewrite.{M, ◌>>=◌, done, rewrite_raw}
use unique_dialect.Text.Decimal.{ℤ, pos, negsuc, itoa}
use unique_dialect.Text.{
  fields, Text, codes, trim_space, join, split, is_empty, is_space, has_prefix, to_upper,
  upper_byte, equal_fold, lower_byte, text_eq, index_byte, replace_all,
}

-- `to != "postgres" && to != "oracle"` is false.
abbrev pub is_standard : Dialect → Bool
is_standard postgres = true
is_standard oracle = true
is_standard mysql = false
is_standard sqlite = false
is_standard (other _) = false

-- The text up to the opening parenthesis, for a type such as `int(11)`.
unfoldable pub postgres_type : Text → Text
unfolding replace_func integer_width_match before_paren lower_byte text_eq codes
postgres_type t =
    let narrowed = replace_func integer_width_match (λ m. returned m (before_paren m)) t in
    if equal_fold narrowed (codes "datetime") then codes "timestamp" else narrowed

unfoldable pub rewrite_create_table_type : Text → Bool → Dialect → Text
unfolding postgres_type trim_space lower_byte text_eq codes
rewrite_create_table_type type_name auto_increment postgres =
    let normalized = trim_space type_name in
    let t = postgres_type normalized in
    if is_empty normalized
    then normalized
    else if auto_increment && equal_fold t (codes "integer")
    then codes "integer"
    else t
rewrite_create_table_type type_name auto_increment mysql = trim_space type_name
rewrite_create_table_type type_name auto_increment sqlite = trim_space type_name
rewrite_create_table_type type_name auto_increment oracle = trim_space type_name
rewrite_create_table_type type_name auto_increment (other _) = trim_space type_name

abbrev pub is_postgres : Dialect → Bool
is_postgres postgres = true
is_postgres mysql = false
is_postgres sqlite = false
is_postgres oracle = false
is_postgres (other _) = false

-- A part that is present only under a condition.
abbrev pub only_if : Bool → Text → List Text
only_if true t = t ∷ []
only_if false t = []

unfoldable pub default_part : Text → Dialect → Dialect → M (List Text)
unfolding rewrite_raw codes
default_part t from to =
    let written = (do t' ← rewrite_raw t from to; done ((codes "DEFAULT " ++ t') ∷ [])) in
    if is_empty t then done [] else written

unfoldable pub render_create_table_column : CreateTableColumn → Dialect → Dialect → M Text
unfolding quote_identifier_chain rewrite_create_table_type default_part join codes
render_create_table_column column from to = do
  default ← default_part column.default from to
  done (
      join (b' ' ∷ []) (
        quote_identifier_chain column.name to
        ∷ rewrite_create_table_type column.column_type column.auto_increment to
        ∷ (only_if (column.auto_increment && is_postgres to)
              (codes "GENERATED BY DEFAULT AS IDENTITY")
            ++ (only_if column.not_null (codes "NOT NULL")
                ++ (only_if column.primary_key (codes "PRIMARY KEY")
                    ++ (only_if column.unique (codes "UNIQUE") ++ default))))))

-- The spacing of a constraint, and the loss of its ENFORCED.
unfoldable pub space_constraint : Text → Text
unfolding replace_all trim_space fields join codes
space_constraint t0 =
    let t1 = replace_all t0 (codes "FOREIGN KEY(") (codes "FOREIGN KEY (") in
    let t2 = replace_all t1 (codes ")REFERENCES") (codes ") REFERENCES") in
    let t3 = replace_all t2 (codes "CHECK(") (codes "CHECK (") in
    let t4 = replace_all t3 (codes "\"(") (codes "\" (") in
    let t5 = replace_all t4 (codes "\">") (codes "\" > ") in
    let t6 = replace_all t5 (codes ">0") (codes "> 0") in
    let t7 = replace_all t6 (codes " NOT ENFORCED") [] in
    let t8 = replace_all t7 (codes " ENFORCED") [] in join (b' ' ∷ []) (fields (trim_space t8))

unfoldable pub rewrite_create_table_constraint : Text → Dialect → Dialect → M Text
unfolding rewrite_raw move_constraint_name space_constraint
rewrite_create_table_constraint input from to = do
  rewritten ← rewrite_raw input from to
  done (
      if is_standard to
      then choose (returned none (move_constraint_name rewritten)) rewritten space_constraint
      else rewritten)

unfoldable pub render_columns : List CreateTableColumn → Dialect → Dialect → M (List Text)
unfolding render_create_table_column
render_columns [] from to n = ([], n)
render_columns (c ∷ cs) from to n =
    let (t, n1) = render_create_table_column c from to n in
    let (ts, n2) = render_columns cs from to n1 in (t ∷ ts, n2)

unfoldable pub render_constraints : List Text → Dialect → Dialect → M (List Text)
unfolding rewrite_create_table_constraint
render_constraints [] from to n = ([], n)
render_constraints (c ∷ cs) from to n =
    let (t, n1) = rewrite_create_table_constraint c from to n in
    let (ts, n2) = render_constraints cs from to n1 in (t ∷ ts, n2)

unfoldable pub render_create_table : CreateTableStatement → Dialect → Dialect → M Text
unfolding render_columns render_constraints quote_identifier_chain join codes
render_create_table stmt from to = do
  columns ← render_columns stmt.columns from to
  constraints ← render_constraints stmt.constraints from to
  done (
      codes "CREATE TABLE "
      ++ (if stmt.if_not_exists then codes "IF NOT EXISTS " else [])
      ++ quote_identifier_chain stmt.name to
      ++ codes " ("
      ++ join comma_space (columns ++ constraints)
      ++ codes ")")
