-- ===== src/Translator/Sql/Laws.antt =====
-- translateSQL of translator.go as a whole: the way of PostgreSQL, and the way of the dialects that the
-- TiDB parser reads.
use unique_dialect.Base.{
  true, ◌||◌, none, List, [], ◌∷◌, Option, some, ◌≡◌, refl, ap, ◌∙◌, if◌then◌else◌, if-ind,
}
use unique_dialect.Dialect.{
  Dialect, mysql, postgres, sqlite, oracle, other, dialect_text, same_dialect,
}
use unique_dialect.Ir
use unique_dialect.Normalize.Set.{
  SetTarget, set_target, set_session_tx_read_only_assignment, set_session_transaction_read_mode,
  set_transaction_read_mode,
}
use unique_dialect.Normalize.Parsed.{parsed_statement, native_statement, node_statement}
use unique_dialect.Outcome.{Outcome, ok, err, panic, ◌>>=◌, parser_adaptation}
use unique_dialect.Parser.Classify.{
  classify_tidb_statement, classify_tidb_set, set_status, show_status,
  set_global_transaction_read_mode,
}
use unique_dialect.Parser.Extensions.{wrap_tidb, wrap_tidb_one}
use unique_dialect.Parser.Multi.{parse_one, parse_multi, parse_multi_tidb}
use unique_dialect.Parser.{
  ParsedStatement, StatementKind, SupportStatus, NativeAst, supported, recognized_unadapted,
  unsupported, should_block, blocks_kind, single,
}
use unique_dialect.Render.{render}
use unique_dialect.Text.Pattern.{match_string}
use unique_dialect.Text.{Text}
use unique_dialect.Tidb.{StmtNode, VariableAssignment, ShowStmt, ShowType}
use unique_dialect.Translator.Sql.{
  translate_sql, translate_parse, translate_normalized, is_supported, is_strict_kind,
}

-- The dialects whose texts go to the TiDB parser.
abbrev pub IsTidbDialect : Dialect → Type 0
IsTidbDialect mysql = Unit
IsTidbDialect sqlite = Unit
IsTidbDialect oracle = Unit
IsTidbDialect postgres = ⊥
IsTidbDialect (other d) = ⊥

module _ (parse_tidb : Text → Option (List StmtNode)) where
  parse_one-tidb :
      (from : Dialect) (sql : Text) (node : StmtNode)
      → IsTidbDialect from
      → parse_tidb sql ≡ some (node ∷ [])
      → parse_one parse_tidb sql (dialect_text from)
        ≡ ok (wrap_tidb_one sql (dialect_text from) node)
  unfolding parse_one parse_multi parse_multi_tidb wrap_tidb single dialect_text
  parse_one-tidb mysql sql node t e = rw e refl
  parse_one-tidb sqlite sql node t e = rw e refl
  parse_one-tidb oracle sql node t e = rw e refl
  parse_one-tidb postgres sql node t e = absurd t
  parse_one-tidb (other d) sql node t e = absurd t

  -- What translateSQL does with the one statement that the TiDB parser has read.
  pub translate_sql-node :
      (from to : Dialect) (sql : Text) (node : StmtNode)
      → IsTidbDialect from
      → parse_tidb sql ≡ some (node ∷ [])
      → translate_sql parse_tidb from to sql ≡ (
          if same_dialect from to
          then ok sql
          else if should_block
              (classify_tidb_statement sql node).0
              (classify_tidb_statement sql node).1
          then err parser_adaptation
          else translate_normalized from to sql
              (wrap_tidb_one sql (dialect_text from) node)
              (node_statement sql node))
  unfolding translate_sql translate_parse wrap_tidb_one parsed_statement native_statement
  translate_sql-node from to sql node t e = rw (parse_one-tidb from sql node t e) refl

-- SHOW and SET, whose failed normalization is an error.
abbrev pub IsStrict : StmtNode → Type 0
IsStrict (StmtNode.show s) = Unit
IsStrict (StmtNode.set vs) = Unit
IsStrict _ = ⊥

-- Adapted, or recognized and to be refused.
abbrev IsRecognized : SupportStatus → Type 0
IsRecognized supported = Unit
IsRecognized recognized_unadapted = Unit
IsRecognized unsupported = ⊥

variable-IsRecognized :
    (sql : Text) (v : VariableAssignment) (t : SetTarget) → IsRecognized (set_status sql v t)
unfolding set_status
variable-IsRecognized sql v SetTarget.names = tt
variable-IsRecognized sql v SetTarget.charset = tt
variable-IsRecognized sql v SetTarget.isolation_one_shot = tt
variable-IsRecognized sql v SetTarget.isolation =
    if-ind IsRecognized v.is_global _ _ (λ _. tt) (λ _. tt)
variable-IsRecognized sql v SetTarget.read_only =
    if-ind IsRecognized (match_string set_global_transaction_read_mode sql) _ _ (λ _. tt)
      λ _.
        if-ind IsRecognized (match_string set_session_tx_read_only_assignment sql) _ _ (λ _. tt)
          λ _.
            if-ind IsRecognized
              (match_string set_session_transaction_read_mode sql
                || match_string set_transaction_read_mode sql)
              _ _ (λ _. tt) (λ _. tt)
variable-IsRecognized sql v SetTarget.other_variable = tt

set-IsRecognized :
    (sql : Text) (vs : List (Option VariableAssignment)) → IsRecognized (classify_tidb_set sql vs).1
unfolding classify_tidb_set
set-IsRecognized sql [] = tt
set-IsRecognized sql (some v ∷ []) = variable-IsRecognized sql v (set_target v.name)
set-IsRecognized sql (none ∷ []) = tt
set-IsRecognized sql (v ∷ w ∷ vs) = tt

show-IsRecognized : (s : ShowStmt) (t : ShowType) → IsRecognized (show_status s t)
unfolding show_status
show-IsRecognized s ShowType.variables = if-ind IsRecognized s.global_scope _ _ (λ _. tt) (λ _. tt)
show-IsRecognized s ShowType.other_show = tt
show-IsRecognized s ShowType.tables = tt
show-IsRecognized s ShowType.columns = tt
show-IsRecognized s ShowType.index = tt
show-IsRecognized s ShowType.table_status = tt
show-IsRecognized s ShowType.create_table = tt
show-IsRecognized s ShowType.create_view = tt
show-IsRecognized s ShowType.databases = tt
show-IsRecognized s ShowType.create_database = tt

set-kind :
    (sql : Text) (vs : List (Option VariableAssignment))
    → (classify_tidb_set sql vs).0 ≡ StatementKind.set_kind
unfolding classify_tidb_set
set-kind sql [] = refl
set-kind sql (some v ∷ []) = refl
set-kind sql (none ∷ []) = refl
set-kind sql (v ∷ w ∷ vs) = refl

-- The rendering of what a statement is normalized to, if its status allows it.
abbrev pub strict_result : Dialect → Dialect → SupportStatus → Outcome Ir.Rendered → Outcome Text
unfolding render
strict_result from to status m =
    let rendered = m >>= λ r. render r from to in
    if is_supported status then rendered else err parser_adaptation

module _ (from to : Dialect) (sql : Text) (p : ParsedStatement NativeAst) where
  -- One of the two kinds, with one of the two statuses.
  strict_kind :
      (k : StatementKind) (st : SupportStatus) (m : Outcome Ir.Rendered)
      → p.kind ≡ k
      → p.status ≡ st
      → blocks_kind k ≡ true
      → is_strict_kind k ≡ true
      → IsRecognized st
      → (if should_block k st then err parser_adaptation else translate_normalized from to sql p m)
        ≡ strict_result from to st m
  unfolding should_block translate_normalized
  strict_kind k supported (ok r) ek es b s t = refl
  strict_kind k supported (err e) ek es b s t = rw (ek, es, s) refl
  strict_kind k supported panic ek es b s t = refl
  strict_kind k recognized_unadapted m ek es b s t = rw b refl
  strict_kind k unsupported m ek es b s t = absurd t

module _ (parse_tidb : Text → Option (List StmtNode)) where
  -- For a text that the TiDB parser reads as one SHOW or SET, and a dialect of that parser, translateSQL
  -- hands back the text for the same dialect; to any other it is the normalization and the rendering, one
  -- after the other, where the statement is classified as supported, and the error that it is not adapted
  -- where it is not: such a statement never comes out as it went in, nor through the other parser.
  pub translate_sql-strict :
      (from to : Dialect) (sql : Text) (node : StmtNode)
      → IsTidbDialect from
      → IsStrict node
      → parse_tidb sql ≡ some (node ∷ [])
      → translate_sql parse_tidb from to sql ≡ (
          if same_dialect from to
          then ok sql
          else strict_result from to (classify_tidb_statement sql node).1 (node_statement sql node))
  unfolding classify_tidb_statement wrap_tidb_one
  translate_sql-strict from to sql (StmtNode.show s) t strict e =
      translate_sql-node parse_tidb from to sql (StmtNode.show s) t e
      ∙ ap (λ (o : Outcome Text). if same_dialect from to then ok sql else o)
          (strict_kind from to sql (wrap_tidb_one sql (dialect_text from) (StmtNode.show s))
            StatementKind.show (show_status s s.tp) (node_statement sql (StmtNode.show s)) refl refl
            refl refl (show-IsRecognized s s.tp))
  translate_sql-strict from to sql (StmtNode.set vs) t strict e =
      translate_sql-node parse_tidb from to sql (StmtNode.set vs) t e
      ∙ ap (λ (o : Outcome Text). if same_dialect from to then ok sql else o)
          (strict_kind from to sql (wrap_tidb_one sql (dialect_text from) (StmtNode.set vs))
            (classify_tidb_set sql vs).0 (classify_tidb_set sql vs).1
            (node_statement sql (StmtNode.set vs)) refl refl (rw (set-kind sql vs) refl)
            (rw (set-kind sql vs) refl) (set-IsRecognized sql vs))
  translate_sql-strict from to sql node t strict e = absurd strict
