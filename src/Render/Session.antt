-- ===== src/Render/Session.antt =====
-- renderSet, renderSetTransaction, the savepoint statements and renderUse of
-- internal/render/render.go.
use unique_dialect.Base.{◌||◌, ◌++◌, if◌then◌else◌}
use unique_dialect.Dialect.{Dialect, mysql, postgres, sqlite, oracle, other}
use unique_dialect.Ir.{
  SetStatement, SetTransactionStatement, SavepointStatement, ReleaseSavepointStatement,
  RollbackToSavepointStatement, UseStatement,
}
use unique_dialect.Outcome.{Outcome, ok, err, unsupported_set_target}
use unique_dialect.Render.Quote.{quote_string_literal, quote_identifier_chain}
use unique_dialect.Text.{Text, codes, trim_space, to_lower, lower_byte, text_eq, is_empty}

unfoldable pub render_postgres_client_encoding : Text → Text
unfolding text_eq lower_byte trim_space codes
render_postgres_client_encoding charset =
    let name = to_lower (trim_space charset) in
    if text_eq name (codes "utf8") || text_eq name (codes "utf8mb4") then codes "UTF8" else charset

unfoldable pub render_set : SetStatement → Dialect → Outcome Text
unfolding render_postgres_client_encoding quote_string_literal text_eq codes
render_set stmt postgres = ok (
    codes "SET client_encoding TO "
    ++ quote_string_literal (render_postgres_client_encoding stmt.charset))
render_set stmt mysql =
    if text_eq stmt.kind (codes "charset")
    then ok (codes "SET CHARACTER SET " ++ stmt.charset)
    else ok (codes "SET NAMES " ++ stmt.charset)
render_set stmt sqlite = err unsupported_set_target
render_set stmt oracle = err unsupported_set_target
render_set stmt (other _) = err unsupported_set_target

-- The words behind the scope: an access mode, or else an isolation level.
unfoldable pub transaction_mode : SetTransactionStatement → Text
unfolding codes
transaction_mode stmt =
    if is_empty stmt.access_mode
    then codes "ISOLATION LEVEL " ++ stmt.isolation_level
    else stmt.access_mode

unfoldable pub render_set_transaction : SetTransactionStatement → Dialect → Outcome Text
unfolding transaction_mode text_eq codes
render_set_transaction stmt postgres =
    if text_eq stmt.scope (codes "transaction")
    then ok (codes "SET TRANSACTION " ++ transaction_mode stmt)
    else ok (codes "SET SESSION CHARACTERISTICS AS TRANSACTION " ++ transaction_mode stmt)
render_set_transaction stmt mysql =
    if text_eq stmt.scope (codes "transaction")
    then ok (codes "SET TRANSACTION " ++ transaction_mode stmt)
    else ok (codes "SET SESSION TRANSACTION " ++ transaction_mode stmt)
render_set_transaction stmt sqlite = err unsupported_set_target
render_set_transaction stmt oracle = err unsupported_set_target
render_set_transaction stmt (other _) = err unsupported_set_target

unfoldable pub render_savepoint : SavepointStatement → Text
unfolding trim_space codes
render_savepoint stmt = codes "SAVEPOINT " ++ trim_space stmt.name

unfoldable pub render_release_savepoint : ReleaseSavepointStatement → Text
unfolding trim_space codes
render_release_savepoint stmt = codes "RELEASE SAVEPOINT " ++ trim_space stmt.name

unfoldable pub render_rollback_to_savepoint : RollbackToSavepointStatement → Text
unfolding trim_space codes
render_rollback_to_savepoint stmt = codes "ROLLBACK TO SAVEPOINT " ++ trim_space stmt.name

unfoldable pub render_use : UseStatement → Dialect → Text
unfolding quote_identifier_chain codes
render_use stmt postgres =
    codes "SET search_path TO " ++ quote_identifier_chain stmt.database postgres
render_use stmt mysql = codes "USE " ++ quote_identifier_chain stmt.database mysql
render_use stmt sqlite = codes "USE " ++ quote_identifier_chain stmt.database sqlite
render_use stmt oracle = codes "USE " ++ quote_identifier_chain stmt.database oracle
render_use stmt (other d) = codes "USE " ++ quote_identifier_chain stmt.database (other d)
