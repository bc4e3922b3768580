-- ===== src/Parser/Classify.antt =====
-- internal/parser/classify.go: the kind of a TiDB statement, and whether the program adapts it. The
-- expressions for SET TRANSACTION are word for word those of internal/normalize/tidb_set.go.
use unique_dialect.Base.{Bool, not, ◌||◌, List, [], ◌∷◌, Option, none, some, if◌then◌else◌}
use unique_dialect.Normalize.Set.{
  ◌>>◌, statement_end, read_mode, set_session_transaction_read_mode, set_transaction_read_mode,
  set_session_tx_read_only_assignment, SetTarget, set_target,
}
use unique_dialect.Parser.{
  StatementKind, SupportStatus, supported, recognized_unadapted, unsupported,
}
use unique_dialect.Text.Pattern.{Pattern, blanks, some_blanks, word, optional, either, match_string}
use unique_dialect.Text.{Text, is_empty}
use unique_dialect.Tidb
use unique_dialect.Tidb.{StmtNode, ShowType, ShowStmt, VariableAssignment}

-- setGlobalTransactionReadModePattern.
abbrev pub set_global_transaction_read_mode : Pattern
set_global_transaction_read_mode =
    blanks
    >> word "SET"
    >> some_blanks
    >> word "GLOBAL"
    >> some_blanks
    >> word "TRANSACTION"
    >> some_blanks
    >> word "READ"
    >> some_blanks
    >> read_mode
    >> statement_end

-- startTransactionWithConsistentSnapshotPattern.
abbrev pub start_transaction_with_consistent_snapshot : Pattern
start_transaction_with_consistent_snapshot =
    blanks
    >> word "START"
    >> some_blanks
    >> word "TRANSACTION"
    >> some_blanks
    >> word "WITH"
    >> some_blanks
    >> word "CONSISTENT"
    >> some_blanks
    >> word "SNAPSHOT"
    >> statement_end

-- The completion types of COMMIT and ROLLBACK that say what is the default.
abbrev pub default_completion : Pattern
default_completion =
    either
      (word "AND"
        >> some_blanks
        >> word "NO"
        >> some_blanks
        >> word "CHAIN"
        >> optional (some_blanks >> word "NO" >> some_blanks >> word "RELEASE"))
      (word "NO" >> some_blanks >> word "RELEASE")

-- commitDefaultCompletionVariantPattern and rollbackDefaultCompletionVariantPattern.
abbrev pub commit_default_completion_variant : Pattern
commit_default_completion_variant =
    blanks >> word "COMMIT" >> some_blanks >> default_completion >> statement_end

abbrev pub rollback_default_completion_variant : Pattern
rollback_default_completion_variant =
    blanks >> word "ROLLBACK" >> some_blanks >> default_completion >> statement_end

unfoldable pub set_status : Text → VariableAssignment → SetTarget → SupportStatus
unfolding match_string
set_status sql v SetTarget.names = supported
set_status sql v SetTarget.charset = supported
set_status sql v SetTarget.isolation_one_shot = supported
set_status sql v SetTarget.isolation = if v.is_global then recognized_unadapted else supported
set_status sql v SetTarget.read_only =
    if match_string set_global_transaction_read_mode sql
    then recognized_unadapted
    else if match_string set_session_tx_read_only_assignment sql
    then supported
    else if match_string set_session_transaction_read_mode sql
        || match_string set_transaction_read_mode sql
    then supported
    else recognized_unadapted
set_status sql v SetTarget.other_variable = recognized_unadapted

unfoldable pub classify_tidb_set :
    Text → List (Option VariableAssignment) → StatementKind × SupportStatus
unfolding set_status set_target
classify_tidb_set sql (some v ∷ []) = (StatementKind.set_kind, set_status sql v (set_target v.name))
classify_tidb_set sql (none ∷ []) = (StatementKind.set_kind, recognized_unadapted)
classify_tidb_set sql [] = (StatementKind.set_kind, recognized_unadapted)
classify_tidb_set sql (_ ∷ _ ∷ _) = (StatementKind.set_kind, recognized_unadapted)

unfoldable pub classify_tidb_begin : Text → Tidb.BeginStmt → StatementKind × SupportStatus
unfolding match_string
classify_tidb_begin sql b =
    if match_string start_transaction_with_consistent_snapshot sql
    then (StatementKind.begin, recognized_unadapted)
    else if (not (is_empty b.mode) || b.causal_consistency_only) || b.has_as_of
    then (StatementKind.begin, recognized_unadapted)
    else (StatementKind.begin, supported)

unfoldable pub completion_status : Pattern → Text → Bool → SupportStatus
unfolding match_string
completion_status p sql default =
    if match_string p sql
    then recognized_unadapted
    else if default
    then supported
    else recognized_unadapted

unfoldable pub show_status : ShowStmt → ShowType → SupportStatus
show_status s ShowType.variables = if s.global_scope then recognized_unadapted else supported
show_status s ShowType.other_show = recognized_unadapted
show_status s ShowType.tables = supported
show_status s ShowType.columns = supported
show_status s ShowType.index = supported
show_status s ShowType.table_status = supported
show_status s ShowType.create_table = supported
show_status s ShowType.create_view = supported
show_status s ShowType.databases = supported
show_status s ShowType.create_database = supported

unfoldable pub classify_tidb_statement : Text → StmtNode → StatementKind × SupportStatus
unfolding classify_tidb_set classify_tidb_begin completion_status show_status
classify_tidb_statement sql (StmtNode.select s) =
    if s.has_with then (StatementKind.with_query, supported) else (StatementKind.select, supported)
classify_tidb_statement sql StmtNode.set_opr = (StatementKind.set_op, supported)
classify_tidb_statement sql (StmtNode.set vs) = classify_tidb_set sql vs
classify_tidb_statement sql (StmtNode.insert _) = (StatementKind.insert, supported)
classify_tidb_statement sql StmtNode.update = (StatementKind.update, supported)
classify_tidb_statement sql StmtNode.delete = (StatementKind.delete, supported)
classify_tidb_statement sql (StmtNode.rename_table _) = (StatementKind.rename_table, supported)
classify_tidb_statement sql (StmtNode.create_table _) = (StatementKind.create_table, supported)
classify_tidb_statement sql StmtNode.create_database = (StatementKind.create_database, supported)
classify_tidb_statement sql StmtNode.explain = (StatementKind.explain, supported)
classify_tidb_statement sql StmtNode.create_view = (StatementKind.create_view, supported)
classify_tidb_statement sql (StmtNode.show s) = (StatementKind.show, show_status s s.tp)
classify_tidb_statement sql (StmtNode.alter_table _) = (StatementKind.alter_table, supported)
classify_tidb_statement sql (StmtNode.drop_table is_view) =
    if is_view then (StatementKind.drop_view, supported) else (StatementKind.drop_table, supported)
classify_tidb_statement sql StmtNode.drop_database = (StatementKind.drop_database, supported)
classify_tidb_statement sql StmtNode.truncate_table = (StatementKind.truncate, supported)
classify_tidb_statement sql (StmtNode.create_index _) = (StatementKind.create_index, supported)
classify_tidb_statement sql (StmtNode.drop_index _) = (StatementKind.drop_index, supported)
classify_tidb_statement sql (StmtNode.begin b) = classify_tidb_begin sql b
classify_tidb_statement sql (StmtNode.commit default) =
    (StatementKind.commit, completion_status commit_default_completion_variant sql default)
classify_tidb_statement sql (StmtNode.rollback r) = (
  StatementKind.rollback,
  completion_status rollback_default_completion_variant sql r.default_completion,
)
classify_tidb_statement sql (StmtNode.savepoint _) = (StatementKind.savepoint, supported)
classify_tidb_statement sql (StmtNode.release_savepoint _) =
    (StatementKind.release_savepoint, supported)
classify_tidb_statement sql (StmtNode.use_db _) = (StatementKind.use_database, supported)
classify_tidb_statement sql StmtNode.other = (StatementKind.other, unsupported)
