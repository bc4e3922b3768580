-- ===== src/Render/Verdict.antt =====
-- Which statements Statement of internal/render/render.go can write in which dialect.
pub mod Servers
use unique_dialect.Base.{
  ℕ, Bool, true, false, ◌&&◌, List, [], ◌∷◌, Option, none, some, ◌≡◌, refl, ◌∙◌,
}
use unique_dialect.Dialect.{Dialect}
use unique_dialect.Ir
use unique_dialect.Outcome.{Outcome, ok, err, panic, ◌>>=◌, Returns}
use unique_dialect.Render.{keeping, render_statement, render_batch, render}
use unique_dialect.Text.{Text}
use unique_dialect.Render.Verdict.Servers.{
  verdict, is_server, verdict-render_set, verdict-render_set_transaction,
  verdict-render_show_tables, verdict-render_show_columns, verdict-render_show_index,
  verdict-render_show_table_status, verdict-render_show_databases,
  verdict-render_show_create_database, verdict-render_show_create_table,
  verdict-render_show_create_view, verdict-render_show_variables,
}
use unique_dialect.Render.Session.{render_set, render_set_transaction}
use unique_dialect.Render.Show.Columns.{render_show_columns}
use unique_dialect.Render.Show.Create.{
  render_show_create_database, render_show_create_table, render_show_create_view,
}
use unique_dialect.Render.Show.Index.{render_show_index}
use unique_dialect.Render.Show.Server.{render_show_databases, render_show_variables}
use unique_dialect.Render.Show.TableStatus.{render_show_table_status}
use unique_dialect.Render.Show.Tables.{render_show_tables}

-- Settings of the session and SHOW are written for the two servers only, and no batch in a batch.
abbrev pub is_renderable : Ir.Statement → Dialect → Bool
is_renderable (Ir.raw s) to = true
is_renderable (Ir.select s) to = true
is_renderable (Ir.insert s) to = true
is_renderable (Ir.update s) to = true
is_renderable (Ir.delete s) to = true
is_renderable (Ir.savepoint s) to = true
is_renderable (Ir.release_savepoint s) to = true
is_renderable (Ir.rollback_to_savepoint s) to = true
is_renderable (Ir.use_database s) to = true
is_renderable (Ir.create_table s) to = true
is_renderable (Ir.alter_table s) to = true
is_renderable (Ir.drop_index s) to = true
is_renderable (Ir.create_index s) to = true
is_renderable (Ir.rename_table s) to = true
is_renderable (Ir.set s) to = is_server to
is_renderable (Ir.set_transaction s) to = is_server to
is_renderable (Ir.show_tables s) to = is_server to
is_renderable (Ir.show_columns s) to = is_server to
is_renderable (Ir.show_index s) to = is_server to
is_renderable (Ir.show_table_status s) to = is_server to
is_renderable (Ir.show_databases s) to = is_server to
is_renderable (Ir.show_create_database s) to = is_server to
is_renderable (Ir.show_create_table s) to = is_server to
is_renderable (Ir.show_create_view s) to = is_server to
is_renderable (Ir.show_variables s) to = is_server to
is_renderable Ir.nested_batch to = false

verdict-keeping : (o : Outcome Text) (n : ℕ) → verdict (keeping o n) ≡ verdict o
verdict-keeping (ok t) n = refl
verdict-keeping (err e) n = refl
verdict-keeping panic n = refl

render_statement-verdict :
    (s : Ir.Statement) (from to : Dialect) (n : ℕ)
    → verdict (render_statement s from to n) ≡ some (is_renderable s to)
unfolding render_statement
render_statement-verdict (Ir.raw s) from to n = refl
render_statement-verdict (Ir.select s) from to n = refl
render_statement-verdict (Ir.insert s) from to n = refl
render_statement-verdict (Ir.update s) from to n = refl
render_statement-verdict (Ir.delete s) from to n = refl
render_statement-verdict (Ir.savepoint s) from to n = refl
render_statement-verdict (Ir.release_savepoint s) from to n = refl
render_statement-verdict (Ir.rollback_to_savepoint s) from to n = refl
render_statement-verdict (Ir.use_database s) from to n = refl
render_statement-verdict (Ir.create_table s) from to n = refl
render_statement-verdict (Ir.alter_table s) from to n = refl
render_statement-verdict (Ir.drop_index s) from to n = refl
render_statement-verdict (Ir.create_index s) from to n = refl
render_statement-verdict (Ir.rename_table s) from to n = refl
render_statement-verdict (Ir.set s) from to n =
    verdict-keeping (render_set s to) n ∙ verdict-render_set s to
render_statement-verdict (Ir.set_transaction s) from to n =
    verdict-keeping (render_set_transaction s to) n ∙ verdict-render_set_transaction s to
render_statement-verdict (Ir.show_tables s) from to n =
    verdict-keeping (render_show_tables s to) n ∙ verdict-render_show_tables s to
render_statement-verdict (Ir.show_columns s) from to n =
    verdict-keeping (render_show_columns s to) n ∙ verdict-render_show_columns s to
render_statement-verdict (Ir.show_index s) from to n =
    verdict-keeping (render_show_index s to) n ∙ verdict-render_show_index s to
render_statement-verdict (Ir.show_table_status s) from to n =
    verdict-keeping (render_show_table_status s to) n ∙ verdict-render_show_table_status s to
render_statement-verdict (Ir.show_databases s) from to n =
    verdict-keeping (render_show_databases s to) n ∙ verdict-render_show_databases s to
render_statement-verdict (Ir.show_create_database s) from to n =
    verdict-keeping (render_show_create_database s to) n ∙ verdict-render_show_create_database s to
render_statement-verdict (Ir.show_create_table s) from to n =
    verdict-keeping (render_show_create_table s to) n ∙ verdict-render_show_create_table s to
render_statement-verdict (Ir.show_create_view s) from to n =
    verdict-keeping (render_show_create_view s to) n ∙ verdict-render_show_create_view s to
render_statement-verdict (Ir.show_variables s) from to n =
    verdict-keeping (render_show_variables s to) n ∙ verdict-render_show_variables s to
render_statement-verdict Ir.nested_batch from to n = refl

abbrev pub all_renderable : List Ir.Statement → Dialect → Bool
all_renderable [] to = true
all_renderable (s ∷ ss) to = is_renderable s to && all_renderable ss to

verdict-bind :
    {A B : Type 0} (m : Outcome A) (f : A → Outcome B) (a b : Bool)
    → verdict m ≡ some a
    → ((x : A) → verdict (f x) ≡ some b)
    → verdict (m >>= f) ≡ some (a && b)
verdict-bind (ok x) f true b e h = h x
verdict-bind (ok x) f false b e h = cc
verdict-bind (err e') f true b e h = cc
verdict-bind (err e') f false b e h = refl
verdict-bind panic f a b e h = cc

verdict-map : {A B : Type 0} (m : Outcome A) (f : A → B) → verdict (m >>= λ x. ok (f x)) ≡ verdict m
verdict-map (ok x) f = refl
verdict-map (err e) f = refl
verdict-map panic f = refl

render_batch-verdict :
    (ss : List Ir.Statement) (from to : Dialect) (n : ℕ)
    → verdict (render_batch ss from to n) ≡ some (all_renderable ss to)
unfolding render_batch
render_batch-verdict [] from to n = refl
render_batch-verdict (s ∷ ss) from to n =
    verdict-bind (render_statement s from to n) _ (is_renderable s to) (all_renderable ss to)
      (render_statement-verdict s from to n)
      λ x. verdict-map (render_batch ss from to x.1) _ ∙ render_batch-verdict ss from to x.1

abbrev pub is_writable : Ir.Rendered → Dialect → Bool
is_writable (Ir.batch ss) to = all_renderable ss to
is_writable (Ir.single s) to = is_renderable s to

-- Statement never panics: it writes a batch if it can write each of its statements, and otherwise returns an error; of the
-- statements, settings of the session and SHOW can be written for MySQL and PostgreSQL only, a batch within a batch for no dialect, and all
-- others for every dialect.
render-verdict :
    (r : Ir.Rendered) (from to : Dialect) → verdict (render r from to) ≡ some (is_writable r to)
unfolding render
render-verdict (Ir.batch ss) from to =
    verdict-map (render_batch ss from to 0) _ ∙ render_batch-verdict ss from to 0
render-verdict (Ir.single s) from to =
    verdict-map (render_statement s from to 0) _ ∙ render_statement-verdict s from to 0

verdict-Returns : {A : Type 0} (o : Outcome A) (b : Bool) → verdict o ≡ some b → Returns o
verdict-Returns (ok a) b e = tt
verdict-Returns (err x) b e = tt
verdict-Returns panic b e = cc

pub render-Returns : (r : Ir.Rendered) (from to : Dialect) → Returns (render r from to)
render-Returns r from to =
    verdict-Returns (render r from to) (is_writable r to) (render-verdict r from to)
