-- ===== src/Render/Verdict/Servers.antt =====
-- Which dialects internal/render/render.go writes the settings of the session and SHOW in.
use unique_dialect.Base.{Bool, true, false, Option, none, some, ◌≡◌, refl, if◌then◌else◌}
use unique_dialect.Dialect.{Dialect, mysql, postgres, sqlite, oracle, other}
use unique_dialect.Ir
use unique_dialect.Outcome.{Outcome, ok, err, panic}
use unique_dialect.Text.{Text, text_eq, codes}
use unique_dialect.Render.Session.{render_set, render_set_transaction}
use unique_dialect.Render.Show.Columns.{render_show_columns}
use unique_dialect.Render.Show.Create.{
  render_show_create_database, render_show_create_table, render_show_create_view,
}
use unique_dialect.Render.Show.Index.{render_show_index}
use unique_dialect.Render.Show.Server.{render_show_databases, render_show_variables}
use unique_dialect.Render.Show.TableStatus.{render_show_table_status}
use unique_dialect.Render.Show.Tables.{render_show_tables}

-- A value, an error, or a panic.
abbrev pub verdict : {A : Type 0} → Outcome A → Option Bool
verdict (ok a) = some true
verdict (err e) = some false
verdict panic = none

abbrev pub is_server : Dialect → Bool
is_server mysql = true
is_server postgres = true
is_server sqlite = false
is_server oracle = false
is_server (other _) = false

verdict-either : (b : Bool) (x y : Text) → verdict (if b then ok x else ok y) ≡ some true
verdict-either true x y = refl
verdict-either false x y = refl

pub verdict-render_set :
    (s : Ir.SetStatement) (to : Dialect) → verdict (render_set s to) ≡ some (is_server to)
unfolding render_set
verdict-render_set s mysql = verdict-either (text_eq s.kind (codes "charset")) _ _
verdict-render_set s postgres = refl
verdict-render_set s sqlite = refl
verdict-render_set s oracle = refl
verdict-render_set s (other d) = refl

pub verdict-render_set_transaction :
    (s : Ir.SetTransactionStatement) (to : Dialect)
    → verdict (render_set_transaction s to) ≡ some (is_server to)
unfolding render_set_transaction
verdict-render_set_transaction s mysql = verdict-either (text_eq s.scope (codes "transaction")) _ _
verdict-render_set_transaction s postgres =
    verdict-either (text_eq s.scope (codes "transaction")) _ _
verdict-render_set_transaction s sqlite = refl
verdict-render_set_transaction s oracle = refl
verdict-render_set_transaction s (other d) = refl

-- What is written for the two servers only, from its verdict for each dialect.
verdict-servers :
    (f : Dialect → Outcome Text)
    → verdict (f mysql) ≡ some true
    → verdict (f postgres) ≡ some true
    → verdict (f sqlite) ≡ some false
    → verdict (f oracle) ≡ some false
    → ((d : Text) → verdict (f (other d)) ≡ some false)
    → (to : Dialect) → verdict (f to) ≡ some (is_server to)
verdict-servers f m p s o h mysql = m
verdict-servers f m p s o h postgres = p
verdict-servers f m p s o h sqlite = s
verdict-servers f m p s o h oracle = o
verdict-servers f m p s o h (other d) = h d

pub verdict-render_show_tables :
    (s : Ir.ShowTablesStatement) (to : Dialect)
    → verdict (render_show_tables s to) ≡ some (is_server to)
unfolding render_show_tables
verdict-render_show_tables s =
    verdict-servers (render_show_tables s) refl refl refl refl (λ d. refl)

pub verdict-render_show_columns :
    (s : Ir.ShowColumnsStatement) (to : Dialect)
    → verdict (render_show_columns s to) ≡ some (is_server to)
unfolding render_show_columns
verdict-render_show_columns s =
    verdict-servers (render_show_columns s) refl refl refl refl (λ d. refl)

pub verdict-render_show_index :
    (s : Ir.ShowIndexStatement) (to : Dialect)
    → verdict (render_show_index s to) ≡ some (is_server to)
unfolding render_show_index
verdict-render_show_index s = verdict-servers (render_show_index s) refl refl refl refl (λ d. refl)

pub verdict-render_show_table_status :
    (s : Ir.ShowTableStatusStatement) (to : Dialect)
    → verdict (render_show_table_status s to) ≡ some (is_server to)
unfolding render_show_table_status
verdict-render_show_table_status s =
    verdict-servers (render_show_table_status s) refl refl refl refl (λ d. refl)

pub verdict-render_show_databases :
    (s : Ir.ShowDatabasesStatement) (to : Dialect)
    → verdict (render_show_databases s to) ≡ some (is_server to)
unfolding render_show_databases
verdict-render_show_databases s =
    verdict-servers (render_show_databases s) refl refl refl refl (λ d. refl)

pub verdict-render_show_create_database :
    (s : Ir.ShowCreateDatabaseStatement) (to : Dialect)
    → verdict (render_show_create_database s to) ≡ some (is_server to)
unfolding render_show_create_database
verdict-render_show_create_database s =
    verdict-servers (render_show_create_database s) refl refl refl refl (λ d. refl)

pub verdict-render_show_create_table :
    (s : Ir.ShowCreateTableStatement) (to : Dialect)
    → verdict (render_show_create_table s to) ≡ some (is_server to)
unfolding render_show_create_table
verdict-render_show_create_table s =
    verdict-servers (render_show_create_table s) refl refl refl refl (λ d. refl)

pub verdict-render_show_create_view :
    (s : Ir.ShowCreateViewStatement) (to : Dialect)
    → verdict (render_show_create_view s to) ≡ some (is_server to)
unfolding render_show_create_view
verdict-render_show_create_view s =
    verdict-servers (render_show_create_view s) refl refl refl refl (λ d. refl)

pub verdict-render_show_variables :
    (s : Ir.ShowVariablesStatement) (to : Dialect)
    → verdict (render_show_variables s to) ≡ some (is_server to)
unfolding render_show_variables
verdict-render_show_variables s =
    verdict-servers (render_show_variables s) refl refl refl refl (λ d. refl)
