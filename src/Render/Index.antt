-- ===== src/Render/Index.antt =====
-- renderIndexPart, renderCreateIndex, renderDropIndex and renderRenameTable of
-- internal/render/render.go.
use unique_dialect.Base.{Bool, true, false, not, ◌&&◌, List, [], ◌∷◌, ◌++◌, ltb, if◌then◌else◌}
use unique_dialect.Dialect.{Dialect, mysql, postgres, sqlite, oracle, other}
use unique_dialect.Ir.{IndexPart, DropIndexStatement, CreateIndexStatement, RenameTableStatement}
use unique_dialect.Render.Dml.{comma_space, optional_clause}
use unique_dialect.Render.Quote.{dot, quote_identifier_chain, quote_string_literal}
use unique_dialect.Render.Rewrite.{M, ◌>>=◌, done, rewrite_raw}
use unique_dialect.Text.Decimal.{ℤ, pos, negsuc, itoa}
use unique_dialect.Text.{Text, codes, trim_space, join, split, is_empty}

abbrev pub takes_lengths : Dialect → Bool
takes_lengths mysql = true
takes_lengths sqlite = true
takes_lengths postgres = false
takes_lengths oracle = false
takes_lengths (other _) = false

-- `part.Length > 0`.
abbrev pub is_positive : ℤ → Bool
is_positive (pos n) = ltb 0 n
is_positive (negsuc n) = false

unfoldable pub finish_index_part : IndexPart → Dialect → Text → Text
unfolding itoa codes
finish_index_part part to value =
    value
    ++ (if is_positive part.length && takes_lengths to
        then codes "(" ++ itoa part.length ++ codes ")"
        else [])
    ++ (if part.desc then codes " DESC" else [])

-- The empty text for a part with neither a column nor an expression.
unfoldable pub render_index_part : IndexPart → Dialect → Dialect → M Text
unfolding quote_identifier_chain rewrite_raw finish_index_part
render_index_part part from to =
    let expression = (do
      value ← rewrite_raw part.expr from to
      done (finish_index_part part to value)) in
    if not (is_empty part.column)
    then done (finish_index_part part to (quote_identifier_chain part.column to))
    else if not (is_empty part.expr)
    then expression
    else done []

-- The rendered parts that are not empty.
unfoldable pub render_index_parts : List IndexPart → Dialect → Dialect → M (List Text)
unfolding render_index_part
render_index_parts [] from to n = ([], n)
render_index_parts (p ∷ ps) from to n =
    let (t, n1) = render_index_part p from to n in
    let (ts, n2) = render_index_parts ps from to n1 in (if is_empty t then ts else t ∷ ts, n2)

abbrev pub unless_empty : Text → Text → Text
unless_empty keyword [] = []
unless_empty keyword (c ∷ s) = keyword ++ c ∷ s

abbrev pub takes_if_not_exists : Dialect → Bool
takes_if_not_exists mysql = true
takes_if_not_exists postgres = true
takes_if_not_exists sqlite = true
takes_if_not_exists oracle = false
takes_if_not_exists (other _) = false

-- COMMENT ON INDEX is a statement of its own.
unfoldable pub comment_on_index : CreateIndexStatement → Dialect → Text
unfolding quote_identifier_chain quote_string_literal codes
comment_on_index stmt to =
    if is_empty stmt.comment
    then []
    else codes "; COMMENT ON INDEX "
      ++ quote_identifier_chain stmt.name to
      ++ codes " IS "
      ++ quote_string_literal stmt.comment

-- The options behind the parts, around the condition.
unfoldable pub index_options : CreateIndexStatement → Dialect → Text → Text
unfolding quote_identifier_chain quote_string_literal comment_on_index codes
index_options stmt mysql condition =
    (if is_empty stmt.parser_name
      then []
      else codes " WITH PARSER " ++ quote_identifier_chain stmt.parser_name mysql)
    ++ (if is_empty stmt.comment
        then []
        else codes " COMMENT " ++ quote_string_literal stmt.comment)
    ++ unless_empty (codes " ") stmt.visibility
    ++ condition
    ++ unless_empty (codes " ALGORITHM = ") stmt.algorithm
    ++ unless_empty (codes " LOCK = ") stmt.lock
index_options stmt postgres condition = condition ++ comment_on_index stmt postgres
index_options stmt oracle condition = condition ++ comment_on_index stmt oracle
index_options stmt sqlite condition = condition
index_options stmt (other _) condition = condition

unfoldable pub render_create_index : CreateIndexStatement → Dialect → Dialect → M Text
unfolding render_index_parts optional_clause index_options quote_identifier_chain join codes
render_create_index stmt from to = do
  parts ← render_index_parts stmt.parts from to
  condition ← optional_clause (codes " WHERE ") stmt.where_expr from to
  done (
      codes "CREATE "
      ++ (if stmt.unique then codes "UNIQUE " else [])
      ++ codes "INDEX "
      ++ (if stmt.if_not_exists && takes_if_not_exists to then codes "IF NOT EXISTS " else [])
      ++ quote_identifier_chain stmt.name to
      ++ codes " ON "
      ++ quote_identifier_chain stmt.table to
      ++ unless_empty (codes " USING ") stmt.using
      ++ codes " ("
      ++ join comma_space parts
      ++ codes ")"
      ++ index_options stmt to condition)

unfoldable pub render_drop_index : DropIndexStatement → Dialect → Text
unfolding quote_identifier_chain codes
render_drop_index stmt to =
    codes "DROP INDEX "
    ++ (if stmt.if_exists then codes "IF EXISTS " else [])
    ++ quote_identifier_chain stmt.name to
    ++ (if takes_lengths to && not (is_empty stmt.table)
        then codes " ON " ++ quote_identifier_chain stmt.table to
        else [])

abbrev pub last_part : List Text → Text
last_part [] = []
last_part (p ∷ []) = p
last_part (p ∷ q ∷ ps) = last_part (q ∷ ps)

-- The statement of a dialect, from the old name, the new name without and with its schema.
unfoldable pub rename_to : Dialect → Text → Text → Text → Text
unfolding codes
rename_to postgres old base full = codes "ALTER TABLE " ++ old ++ codes " RENAME TO " ++ base
rename_to sqlite old base full = codes "ALTER TABLE " ++ old ++ codes " RENAME TO " ++ base
rename_to oracle old base full = codes "RENAME " ++ old ++ codes " TO " ++ base
rename_to mysql old base full = codes "RENAME TABLE " ++ old ++ codes " TO " ++ full
rename_to (other _) old base full = codes "RENAME TABLE " ++ old ++ codes " TO " ++ full

-- The last part of an identifier behind its dots.
unfoldable pub base_name : Text → Text
unfolding trim_space split
base_name identifier = last_part (split dot (trim_space identifier))

unfoldable pub render_rename_table : RenameTableStatement → Dialect → Text
unfolding base_name rename_to trim_space quote_identifier_chain codes
render_rename_table stmt to =
    let base = base_name stmt.new_name in
    let new_base = if is_empty base then trim_space stmt.new_name else base in
    rename_to to (quote_identifier_chain stmt.old_name to) (quote_identifier_chain new_base to)
      (quote_identifier_chain stmt.new_name to)
