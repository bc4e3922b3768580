-- ===== src/Normalize/Total.antt =====
-- Which statements internal/normalize turns into normalized ones without a panic.
use unique_dialect.Base.{
  arith, Bool, true, false, ◌≤◌, List, [], ◌∷◌, Option, none, some, String, ◌≡◌, if◌then◌else◌,
  if-ind, length, All,
}
use unique_dialect.Ir
use unique_dialect.Normalize.Alter.Gather.{normalize_tidb_alter_table}
use unique_dialect.Normalize.Alter.Safe.{SpecThere, alter_table_on-Returns}
use unique_dialect.Normalize.Dml.Safe.{
  normalize_tidb_insert-Returns, normalize_tidb_update-Returns, normalize_tidb_delete-Returns,
}
use unique_dialect.Normalize.Parsed.{node_statement, one}
use unique_dialect.Normalize.Set.{
  normalize_tidb_set, normalize_tidb_variable, normalize_tidb_set_charset,
  normalize_tidb_transaction_isolation_level, normalize_tidb_transaction_read_mode_scope,
  normalize_tidb_transaction_read_mode, SetTarget, set_target, normalize_tidb_savepoint,
  normalize_tidb_release_savepoint,
}
use unique_dialect.Normalize.Show.{
  like_text, like_pattern, normalize_tidb_show_like_pattern, equation_of, is_there,
  normalize_tidb_show_one_where, normalize_tidb_show_table_status_where,
  normalize_tidb_show_index_where, normalize_tidb_show_tables_where, normalize_tidb_show_tables,
  normalize_tidb_show_columns, normalize_tidb_show_index, normalize_tidb_show_table_status,
  normalize_tidb_show_databases, normalize_tidb_show_create_database,
  normalize_tidb_show_create_table, normalize_tidb_show_create_view, normalize_tidb_show_variables,
  normalize_tidb_show_by, normalize_tidb_show,
}
use unique_dialect.Outcome.{Outcome, ◌>>=◌, Returns, >>=-Returns}
use unique_dialect.Syntax.Scan.{trim_statement}
use unique_dialect.Text.{Text, trim_space}
use unique_dialect.Tidb.{
  Expr, PatternLike, ShowStmt, ShowType, StmtNode, TableName, VariableAssignment,
}

-- What is needed of the statement that the TiDB parser has read from a text: a statement on data has a
-- text as long as its keywords, and the options of ALTER TABLE are there; SELECT is left out.
abbrev pub NodeFits : Text → StmtNode → Type 0
NodeFits sql (StmtNode.select s) = s.has_with ≡ true
NodeFits sql (StmtNode.insert dup) = 12 ≤ length (trim_statement sql)
NodeFits sql StmtNode.update = 7 ≤ length (trim_statement sql)
NodeFits sql StmtNode.delete = 12 ≤ length (trim_statement sql)
NodeFits sql (StmtNode.alter_table a) = All SpecThere a.specs
NodeFits sql _ = Unit

if-Returns :
    {A : Type 0} (b : Bool) (x y : Outcome A) → Returns x → Returns y → Returns (if b then x else y)
if-Returns b x y hx hy = if-ind Returns b x y (λ _. hx) (λ _. hy)

then-Returns :
    {A B : Type 0} (m : Outcome A) (f : A → Outcome B)
    → Returns m
    → ((a : A) → Returns (f a))
    → Returns (m >>= f)
then-Returns m f h k = >>=-Returns m f h λ a _. k a

charset-Returns : (v : Option Expr) → Returns (normalize_tidb_set_charset v)
unfolding normalize_tidb_set_charset
charset-Returns none = tt
charset-Returns (some e) = ground arith

level-Returns : (v : Option Expr) → Returns (normalize_tidb_transaction_isolation_level v)
unfolding normalize_tidb_transaction_isolation_level
level-Returns none = tt
level-Returns (some e) = ground arith

scope-Returns : (sql : Text) → Returns (normalize_tidb_transaction_read_mode_scope sql)
unfolding normalize_tidb_transaction_read_mode_scope
scope-Returns sql = ground arith

mode-Returns : (v : Option Expr) → Returns (normalize_tidb_transaction_read_mode v)
unfolding normalize_tidb_transaction_read_mode
mode-Returns none = tt
mode-Returns (some e) = ground arith

variable-Returns :
    (sql : Text) (v : VariableAssignment) (t : SetTarget)
    → Returns (normalize_tidb_variable sql v t)
unfolding normalize_tidb_variable
variable-Returns sql v SetTarget.names = then-Returns _ _ (charset-Returns v.value) λ _. tt
variable-Returns sql v SetTarget.charset = then-Returns _ _ (charset-Returns v.value) λ _. tt
variable-Returns sql v SetTarget.isolation_one_shot =
    then-Returns _ _ (level-Returns v.value) λ _. tt
variable-Returns sql v SetTarget.isolation =
    if-Returns v.is_global _ _ tt (then-Returns _ _ (level-Returns v.value) λ _. tt)
variable-Returns sql v SetTarget.read_only =
    then-Returns _ _ (scope-Returns sql) λ _. then-Returns _ _ (mode-Returns v.value) λ _. tt
variable-Returns sql v SetTarget.other_variable = tt

set-Returns :
    (sql : Text) (vs : List (Option VariableAssignment)) → Returns (normalize_tidb_set sql vs)
unfolding normalize_tidb_set
set-Returns sql [] = tt
set-Returns sql (some v ∷ []) =
    if-Returns v.extended _ _ tt (variable-Returns sql v (set_target v.name))
set-Returns sql (none ∷ []) = tt
set-Returns sql (v ∷ w ∷ vs) = tt

like_text-Returns : (b : Bool) (e : Expr) → Returns (like_text b e)
unfolding like_text
like_text-Returns true (Expr.value t s shown) = tt
like_text-Returns true (Expr.column t n) = tt
like_text-Returns true (Expr.equals t a b) = tt
like_text-Returns true (Expr.call t n) = tt
like_text-Returns true (Expr.other t) = tt
like_text-Returns false e = tt

like_pattern-Returns : (p : PatternLike) (e : Option Expr) → Returns (like_pattern p e)
unfolding like_pattern
like_pattern-Returns p none = tt
like_pattern-Returns p (some e) = like_text-Returns _ e

pattern-Returns : (p : Option PatternLike) → Returns (normalize_tidb_show_like_pattern p)
unfolding normalize_tidb_show_like_pattern
pattern-Returns none = tt
pattern-Returns (some p) = like_pattern-Returns p p.pattern

equation-Returns : (e : Expr) → Returns (equation_of e)
unfolding equation_of
equation-Returns (Expr.value t s shown) = tt
equation-Returns (Expr.column t n) = tt
equation-Returns (Expr.call t n) = tt
equation-Returns (Expr.other t) = tt
equation-Returns (Expr.equals t (Expr.column t1 (some n)) (Expr.value t2 s shown)) = tt
equation-Returns (Expr.equals t (Expr.column t1 (some n)) (Expr.column t2 m)) = tt
equation-Returns (Expr.equals t (Expr.column t1 (some n)) (Expr.equals t2 a b)) = tt
equation-Returns (Expr.equals t (Expr.column t1 (some n)) (Expr.call t2 m)) = tt
equation-Returns (Expr.equals t (Expr.column t1 (some n)) (Expr.other t2)) = tt
equation-Returns (Expr.equals t (Expr.column t1 none) b) = tt
equation-Returns (Expr.equals t (Expr.value t1 s shown) b) = tt
equation-Returns (Expr.equals t (Expr.equals t1 a a') b) = tt
equation-Returns (Expr.equals t (Expr.call t1 n) b) = tt
equation-Returns (Expr.equals t (Expr.other t1) b) = tt

one_where-Returns :
    (name : String) (e : Option Expr) → Returns (normalize_tidb_show_one_where name e)
unfolding normalize_tidb_show_one_where
one_where-Returns name none = tt
one_where-Returns name (some e) = then-Returns _ _ (equation-Returns e) λ q. ground arith

table_status_where-Returns : (e : Option Expr) → Returns (normalize_tidb_show_table_status_where e)
unfolding normalize_tidb_show_table_status_where
table_status_where-Returns none = tt
table_status_where-Returns (some e) = then-Returns _ _ (equation-Returns e) λ q. ground arith

index_where-Returns : (e : Option Expr) → Returns (normalize_tidb_show_index_where e)
unfolding normalize_tidb_show_index_where
index_where-Returns none = tt
index_where-Returns (some e) = then-Returns _ _ (equation-Returns e) λ q. ground arith

tables_where-Returns :
    (db : Text) (full : Bool) (e : Option Expr)
    → Returns (normalize_tidb_show_tables_where db full e)
unfolding normalize_tidb_show_tables_where
tables_where-Returns db full none = tt
tables_where-Returns db full (some e) = then-Returns _ _ (equation-Returns e) λ q. ground arith

columns-Returns : (s : ShowStmt) (t : Option TableName) → Returns (normalize_tidb_show_columns s t)
unfolding normalize_tidb_show_columns
columns-Returns s none = tt
columns-Returns s (some t) = if-Returns s.extended _ _ tt (
    then-Returns _ _ (pattern-Returns s.pattern)
      λ _. then-Returns _ _ (one_where-Returns "Field" s.where_expr) λ _. tt)

index-Returns : (s : ShowStmt) (t : Option TableName) → Returns (normalize_tidb_show_index s t)
unfolding normalize_tidb_show_index
index-Returns s none = tt
index-Returns s (some t) =
    if-Returns (is_there s.pattern) _ _ tt
      (then-Returns _ _ (index_where-Returns s.where_expr) λ _. tt)

create_table-Returns : (t : Option TableName) → Returns (normalize_tidb_show_create_table t)
unfolding normalize_tidb_show_create_table
create_table-Returns none = tt
create_table-Returns (some t) = tt

create_view-Returns : (t : Option TableName) → Returns (normalize_tidb_show_create_view t)
unfolding normalize_tidb_show_create_view
create_view-Returns none = tt
create_view-Returns (some t) = tt

show_by-Returns : (s : ShowStmt) (t : ShowType) → Returns (normalize_tidb_show_by s t)
unfolding normalize_tidb_show_by normalize_tidb_show_tables normalize_tidb_show_table_status
    normalize_tidb_show_databases normalize_tidb_show_create_database normalize_tidb_show_variables
show_by-Returns s ShowType.tables =
    then-Returns _ _ (pattern-Returns s.pattern) λ _.
      then-Returns _ _ (tables_where-Returns (trim_space s.db_name) s.full s.where_expr) λ _. tt
show_by-Returns s ShowType.columns = columns-Returns s s.table
show_by-Returns s ShowType.index = index-Returns s s.table
show_by-Returns s ShowType.table_status =
    then-Returns _ _ (table_status_where-Returns s.where_expr)
      λ _. then-Returns _ _ (pattern-Returns s.pattern) λ _. tt
show_by-Returns s ShowType.databases =
    then-Returns _ _ (pattern-Returns s.pattern)
      λ _. then-Returns _ _ (one_where-Returns "Database" s.where_expr) λ _. tt
show_by-Returns s ShowType.create_database = ground arith
show_by-Returns s ShowType.create_table = create_table-Returns s.table
show_by-Returns s ShowType.create_view = create_view-Returns s.table
show_by-Returns s ShowType.variables = if-Returns s.global_scope _ _ tt (
    then-Returns _ _ (pattern-Returns s.pattern)
      λ _. then-Returns _ _ (one_where-Returns "Variable_name" s.where_expr) λ _. tt)
show_by-Returns s ShowType.other_show = tt

one-Returns : (o : Outcome Ir.Statement) → Returns o → Returns (one o)
one-Returns o h = then-Returns o _ h λ _. tt

pub node_statement-Returns :
    (sql : Text) (node : StmtNode) → NodeFits sql node → Returns (node_statement sql node)
unfolding node_statement normalize_tidb_show normalize_tidb_alter_table normalize_tidb_savepoint
    normalize_tidb_release_savepoint
node_statement-Returns sql (StmtNode.select s) h = rw h tt
node_statement-Returns sql StmtNode.set_opr h = tt
node_statement-Returns sql (StmtNode.set vs) h = one-Returns _ (set-Returns sql vs)
node_statement-Returns sql (StmtNode.insert dup) h =
    one-Returns _ (normalize_tidb_insert-Returns sql dup h)
node_statement-Returns sql StmtNode.update h = one-Returns _ (normalize_tidb_update-Returns sql h)
node_statement-Returns sql StmtNode.delete h = one-Returns _ (normalize_tidb_delete-Returns sql h)
node_statement-Returns sql StmtNode.explain h = tt
node_statement-Returns sql (StmtNode.show s) h = one-Returns _ (show_by-Returns s s.tp)
node_statement-Returns sql (StmtNode.create_table s) h = tt
node_statement-Returns sql StmtNode.create_database h = tt
node_statement-Returns sql StmtNode.create_view h = tt
node_statement-Returns sql StmtNode.drop_database h = tt
node_statement-Returns sql StmtNode.truncate_table h = tt
node_statement-Returns sql (StmtNode.rename_table ts) h = tt
node_statement-Returns sql (StmtNode.alter_table a) h = alter_table_on-Returns sql a.specs a.table h
node_statement-Returns sql (StmtNode.drop_table v) h = tt
node_statement-Returns sql (StmtNode.create_index s) h = tt
node_statement-Returns sql (StmtNode.drop_index s) h = tt
node_statement-Returns sql (StmtNode.begin b) h = tt
node_statement-Returns sql (StmtNode.commit d) h = tt
node_statement-Returns sql (StmtNode.rollback r) h = tt
node_statement-Returns sql (StmtNode.savepoint n) h = one-Returns _ (ground arith)
node_statement-Returns sql (StmtNode.release_savepoint n) h = one-Returns _ (ground arith)
node_statement-Returns sql (StmtNode.use_db n) h = tt
node_statement-Returns sql StmtNode.other h = tt
