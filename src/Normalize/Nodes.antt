-- ===== src/Normalize/Nodes.antt =====
-- The texts of TiDB nodes, as internal/normalize/tidb_dml.go takes them.
use unique_dialect.Base.{[], ◌∷◌, none, some, if◌then◌else◌}
use unique_dialect.Outcome.{Outcome}
use unique_dialect.Text.Decimal.{ℤ, atoi}
use unique_dialect.Text.{Text, trim_space, is_empty, fields, join}
use unique_dialect.Tidb.{NodeText, Expr, node_text_of}

-- restoreTiDBNode.
abbrev pub restore_node : NodeText → Text
restore_node n = elim n.restored [ none ↦ [] | some t ↦ t ]

unfoldable pub tidb_node_text : NodeText → Text
unfolding trim_space
tidb_node_text n =
    if is_empty (trim_space n.original) then restore_node n else trim_space n.original

unfoldable pub normalize_whitespace : Text → Text
unfolding trim_space fields join
normalize_whitespace value = join (b' ' ∷ []) (fields (trim_space value))

-- The text of an expression in one line.
unfoldable pub expr_text : Expr → Text
unfolding normalize_whitespace tidb_node_text
expr_text e = normalize_whitespace (tidb_node_text (node_text_of e))

unfoldable pub parse_tidb_int_expr : Expr → Outcome ℤ
unfolding atoi trim_space
parse_tidb_int_expr e = atoi (trim_space (restore_node (node_text_of e)))
