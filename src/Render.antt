-- ===== src/Render.antt =====
-- internal/render/render.go: Statement and renderStatement over the parts in the modules below.
pub mod Slices
pub mod Regexp
pub mod Quote
pub mod Rewrite
pub mod Dml
pub mod Session
pub mod Show
pub mod Ddl
pub mod Index
pub mod Verdict
use unique_dialect.Base.{ℕ, List, [], ◌∷◌, if◌then◌else◌}
use unique_dialect.Dialect.{Dialect}
use unique_dialect.Ir
use unique_dialect.Outcome.{Outcome, ok, err, ◌>>=◌, unsupported_statement}
use unique_dialect.Render.Ddl.Alter.{render_alter_table}
use unique_dialect.Render.Ddl.{render_create_table}
use unique_dialect.Render.Dml.{render_select, render_insert, render_update, render_delete}
use unique_dialect.Render.Index.{render_create_index, render_drop_index, render_rename_table}
use unique_dialect.Render.Rewrite.{M, rewrite_raw}
use unique_dialect.Render.Session.{
  render_set, render_set_transaction, render_savepoint, render_release_savepoint,
  render_rollback_to_savepoint, render_use,
}
use unique_dialect.Render.Show.Columns.{render_show_columns}
use unique_dialect.Render.Show.Create.{
  render_show_create_database, render_show_create_table, render_show_create_view,
}
use unique_dialect.Render.Show.Index.{render_show_index}
use unique_dialect.Render.Show.Server.{render_show_databases, render_show_variables}
use unique_dialect.Render.Show.TableStatus.{render_show_table_status}
use unique_dialect.Render.Show.Tables.{render_show_tables}
use unique_dialect.Text.{Text, codes, trim_space, join, is_empty}

-- A rendering that may fail, and that leaves the placeholder counter alone.
abbrev pub keeping : Outcome Text → ℕ → Outcome (Text × ℕ)
keeping o n = do t ← o; ok (t, n)

unfoldable pub render_statement : Ir.Statement → Dialect → Dialect → ℕ → Outcome (Text × ℕ)
render_statement (Ir.raw sql) from to n = ok (rewrite_raw sql from to n)
render_statement (Ir.select s) from to n = ok (render_select s from to n)
render_statement (Ir.insert s) from to n = ok (render_insert s from to n)
render_statement (Ir.update s) from to n = ok (render_update s from to n)
render_statement (Ir.delete s) from to n = ok (render_delete s from to n)
render_statement (Ir.set s) from to n = keeping (render_set s to) n
render_statement (Ir.set_transaction s) from to n = keeping (render_set_transaction s to) n
render_statement (Ir.savepoint s) from to n = ok (render_savepoint s, n)
render_statement (Ir.release_savepoint s) from to n = ok (render_release_savepoint s, n)
render_statement (Ir.rollback_to_savepoint s) from to n = ok (render_rollback_to_savepoint s, n)
render_statement (Ir.use_database s) from to n = ok (render_use s to, n)
render_statement (Ir.show_tables s) from to n = keeping (render_show_tables s to) n
render_statement (Ir.show_columns s) from to n = keeping (render_show_columns s to) n
render_statement (Ir.show_index s) from to n = keeping (render_show_index s to) n
render_statement (Ir.show_table_status s) from to n = keeping (render_show_table_status s to) n
render_statement (Ir.show_databases s) from to n = keeping (render_show_databases s to) n
render_statement (Ir.show_create_database s) from to n =
    keeping (render_show_create_database s to) n
render_statement (Ir.show_create_table s) from to n = keeping (render_show_create_table s to) n
render_statement (Ir.show_create_view s) from to n = keeping (render_show_create_view s to) n
render_statement (Ir.show_variables s) from to n = keeping (render_show_variables s to) n
render_statement (Ir.create_table s) from to n = ok (render_create_table s from to n)
render_statement (Ir.alter_table s) from to n = ok (render_alter_table s from to n)
render_statement (Ir.drop_index s) from to n = ok (render_drop_index s to, n)
render_statement (Ir.create_index s) from to n = ok (render_create_index s from to n)
render_statement (Ir.rename_table s) from to n = ok (render_rename_table s to, n)
render_statement Ir.nested_batch from to n = err unsupported_statement

-- The loop over a batch: one counter for all its statements, and no empty parts.
unfoldable pub render_batch : List Ir.Statement → Dialect → Dialect → ℕ → Outcome (List Text)
unfolding render_statement trim_space
render_batch [] from to n = ok []
render_batch (s ∷ ss) from to n = do
  (t, n') ← render_statement s from to n
  parts ← render_batch ss from to n'
  ok (if is_empty (trim_space t) then parts else t ∷ parts)

unfoldable pub render : Ir.Rendered → Dialect → Dialect → Outcome Text
unfolding render_statement render_batch join codes
render (Ir.batch statements) from to = do
  parts ← render_batch statements from to 0
  ok (join (codes "; ") parts)
render (Ir.single s) from to = do (t, n) ← render_statement s from to 0; ok t
