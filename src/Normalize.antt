-- ===== src/Normalize.antt =====
-- internal/normalize/normalize.go: Statement, which turns the statements of the syntax layer into
-- the normalized ones.
pub mod Nodes
pub mod Dml
pub mod Set
pub mod Show
pub mod Columns
pub mod Tables
pub mod Alter
pub mod Parsed
pub mod Total
use unique_dialect.Base.{ℕ, Bool, ◌||◌, [], ◌∷◌, Option, none, some, map, ◌==◌}
use unique_dialect.Ir
use unique_dialect.Syntax
use unique_dialect.Text.{Text, trim_by, trim_space, split, join}

-- The cut set of stripIdentifier: backquote, double quote, space.
unfoldable pub in_strip_cutset : ℕ → Bool
in_strip_cutset c = c == 96 || c == 34 || c == 32

-- Each dotted part without its quotes.
unfoldable pub strip_identifier : Text → Text
unfolding trim_by trim_space split join in_strip_cutset
strip_identifier input =
    join (b'.' ∷ []) (map (trim_by in_strip_cutset) (split b'.' (trim_space input)))

unfoldable pub join_of : Syntax.Join → Ir.Join
unfolding trim_space
join_of j = record { kind = trim_space j.kind; table = trim_space j.table; on = trim_space j.on }

unfoldable pub assignment_of : Syntax.Assignment → Ir.Assignment
unfolding strip_identifier trim_space
assignment_of a = record { column = strip_identifier a.column; value = trim_space a.value }

unfoldable pub limit_of : Syntax.LimitClause → Ir.LimitClause
limit_of l = record { offset = l.offset; count = l.count }

unfoldable pub style_of : Syntax.ConflictStyle → Ir.ConflictStyle
style_of Syntax.mysql_style = Ir.mysql_style
style_of Syntax.postgres_style = Ir.postgres_style

unfoldable pub conflict_of : Syntax.ConflictClause → Ir.ConflictClause
unfolding style_of assignment_of
conflict_of c = record {
  style = style_of c.style;
  target_columns = c.target_columns;
  assignments = map assignment_of c.assignments;
}

abbrev optional {ℓ κ} : {A : Type ℓ} {B : Type κ} → (A → B) → Option A → Option B
optional f none = none
optional f (some a) = some (f a)

unfoldable pub normalize : Syntax.Statement → Ir.Statement
unfolding join_of assignment_of limit_of conflict_of strip_identifier trim_space
normalize (Syntax.raw sql) = Ir.raw sql
normalize (Syntax.select s) = Ir.select (record {
  columns = s.columns;
  from = trim_space s.from;
  joins = map join_of s.joins;
  where_expr = trim_space s.where_expr;
  order_by = s.order_by;
  limit = optional limit_of s.limit;
})
normalize (Syntax.insert s) = Ir.insert (record {
  table = strip_identifier s.table;
  columns = s.columns;
  values = s.values;
  conflict = optional conflict_of s.conflict;
})
normalize (Syntax.update s) = Ir.update (record {
  table = strip_identifier s.table;
  assignments = map assignment_of s.assignments;
  where_expr = trim_space s.where_expr;
})
normalize (Syntax.delete s) =
    Ir.delete (record { table = strip_identifier s.table; where_expr = trim_space s.where_expr })
