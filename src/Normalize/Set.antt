-- ===== src/Normalize/Set.antt =====
-- internal/normalize/tidb_set.go and internal/normalize/tidb_txn.go: SET and the savepoints.
use unique_dialect.Base.{
  ℕ, Bool, false, ◌||◌, List, [], ◌∷◌, Option, none, some, String, if◌then◌else◌, ◌==◌,
}
use unique_dialect.Ir
use unique_dialect.Normalize.Dml.{normalize_tidb_raw}
use unique_dialect.Normalize.Nodes.{tidb_node_text}
use unique_dialect.Outcome.{
  Outcome, ok, err, ◌>>=◌, unsupported_set_variant, unsupported_set_charset,
  unsupported_isolation_level, unsupported_access_mode, missing_savepoint_name,
}
use unique_dialect.Text.Pattern.{
  Pattern, blanks, some_blanks, word, optional, either, then_by, match_string,
}
use unique_dialect.Text.{
  Text, codes, text_eq, is_empty, trim_by, trim_space, to_lower, to_upper, lower_byte, upper_byte,
  replace_all,
}
use unique_dialect.Tidb
use unique_dialect.Tidb.{Expr, VariableAssignment, node_text_of}

infixr 20 ◌>>◌
abbrev pub ◌>>◌ : Pattern → Pattern → Pattern
◌>>◌ = then_by

-- `\s*;?\s*$`.
abbrev pub statement_end : Pattern
statement_end = blanks >> optional (word ";") >> blanks

abbrev pub read_mode : Pattern
read_mode = either (word "ONLY") (word "WRITE")

-- normalizeSetSessionTransactionReadModePattern.
abbrev pub set_session_transaction_read_mode : Pattern
set_session_transaction_read_mode =
    blanks
    >> word "SET"
    >> some_blanks
    >> word "SESSION"
    >> some_blanks
    >> word "TRANSACTION"
    >> some_blanks
    >> word "READ"
    >> some_blanks
    >> read_mode
    >> statement_end

-- normalizeSetTransactionReadModePattern.
abbrev pub set_transaction_read_mode : Pattern
set_transaction_read_mode =
    blanks
    >> word "SET"
    >> some_blanks
    >> word "TRANSACTION"
    >> some_blanks
    >> word "READ"
    >> some_blanks
    >> read_mode
    >> statement_end

abbrev pub switch_value : Pattern
switch_value = either (word "0") (
    either (word "1")
      (either (word "ON") (either (word "OFF") (either (word "TRUE") (word "FALSE")))))

-- normalizeSetSessionTxReadOnlyAssignmentPattern.
abbrev pub set_session_tx_read_only_assignment : Pattern
set_session_tx_read_only_assignment =
    blanks
    >> word "SET"
    >> some_blanks
    >> optional (either (word "SESSION" >> some_blanks) (word "@@SESSION."))
    >> either (word "TX_READ_ONLY") (word "TRANSACTION_READ_ONLY")
    >> blanks
    >> word "="
    >> blanks
    >> switch_value
    >> statement_end

-- The cut set of the values: backquote, both quotes, blank.
unfoldable pub in_value_cutset : ℕ → Bool
in_value_cutset c = c == 96 || c == 39 || c == 34 || c == 32

abbrev pub is_one_of : Text → List String → Bool
is_one_of t [] = false
is_one_of t (s ∷ ss) = text_eq t (codes s) || is_one_of t ss

unfoldable pub normalize_tidb_set_charset : Option Expr → Outcome Text
unfolding tidb_node_text trim_space trim_by lower_byte in_value_cutset text_eq codes
normalize_tidb_set_charset none = err unsupported_set_charset
normalize_tidb_set_charset (some e) =
    let charset =
      trim_by in_value_cutset (to_lower (trim_space (tidb_node_text (node_text_of e)))) in
    if is_one_of charset ("utf8" ∷ "utf8mb4" ∷ []) then ok charset else err unsupported_set_charset

-- GetString of a value, and the text of any other expression.
unfoldable pub string_of : Expr → Text
unfolding tidb_node_text
string_of (Expr.value t s shown) = s
string_of e = tidb_node_text (node_text_of e)

unfoldable pub normalize_tidb_transaction_isolation_level : Option Expr → Outcome Text
unfolding string_of trim_space trim_by upper_byte in_value_cutset replace_all text_eq codes
normalize_tidb_transaction_isolation_level none = err unsupported_isolation_level
normalize_tidb_transaction_isolation_level (some e) =
    let level =
      replace_all (trim_by in_value_cutset (to_upper (trim_space (string_of e)))) (codes "-")
        (codes " ") in
    if is_one_of level
      ("READ UNCOMMITTED" ∷ "READ COMMITTED" ∷ "REPEATABLE READ" ∷ "SERIALIZABLE" ∷ [])
    then ok level
    else err unsupported_isolation_level

unfoldable pub normalize_tidb_transaction_read_mode_scope : Text → Outcome Text
unfolding match_string codes
normalize_tidb_transaction_read_mode_scope sql =
    if match_string set_session_tx_read_only_assignment sql
    then ok (codes "session")
    else if match_string set_session_transaction_read_mode sql
    then ok (codes "session")
    else if match_string set_transaction_read_mode sql
    then ok (codes "transaction")
    else err unsupported_set_variant

-- GetValue in print if it is there, and GetString otherwise.
unfoldable pub direct_string_of : Expr → Text
unfolding tidb_node_text
direct_string_of (Expr.value t s (some shown)) = shown
direct_string_of (Expr.value t s none) = s
direct_string_of e = tidb_node_text (node_text_of e)

unfoldable pub normalize_tidb_transaction_read_mode : Option Expr → Outcome Text
unfolding direct_string_of trim_space trim_by upper_byte in_value_cutset text_eq codes
normalize_tidb_transaction_read_mode none = err unsupported_access_mode
normalize_tidb_transaction_read_mode (some e) =
    let mode = to_upper (trim_by in_value_cutset (trim_space (direct_string_of e))) in
    if is_one_of mode ("0" ∷ "OFF" ∷ "FALSE" ∷ [])
    then ok (codes "READ WRITE")
    else if is_one_of mode ("1" ∷ "ON" ∷ "TRUE" ∷ [])
    then ok (codes "READ ONLY")
    else err unsupported_access_mode

-- The kinds of variable that SET is read for, by the name of the variable.
pub data SetTarget : Type 0 where
  names charset isolation_one_shot isolation read_only other_variable : SetTarget

unfoldable pub set_target : Text → SetTarget
unfolding text_eq codes
set_target name =
    if is_one_of name ("SetNAMES" ∷ [])
    then names
    else if is_one_of name ("SetCharset" ∷ [])
    then charset
    else if is_one_of name ("tx_isolation_one_shot" ∷ [])
    then isolation_one_shot
    else if is_one_of name ("tx_isolation" ∷ "transaction_isolation" ∷ [])
    then isolation
    else if is_one_of name ("tx_read_only" ∷ "transaction_read_only" ∷ [])
    then read_only
    else other_variable

unfoldable pub normalize_tidb_variable :
    Text → VariableAssignment → SetTarget → Outcome Ir.Statement
unfolding normalize_tidb_set_charset normalize_tidb_transaction_isolation_level codes
    normalize_tidb_transaction_read_mode_scope normalize_tidb_transaction_read_mode
normalize_tidb_variable sql v names = do
  cs ← normalize_tidb_set_charset v.value
  ok (Ir.set (record { kind = codes "names"; charset = cs }))
normalize_tidb_variable sql v charset = do
  cs ← normalize_tidb_set_charset v.value
  ok (Ir.set (record { kind = codes "charset"; charset = cs }))
normalize_tidb_variable sql v isolation_one_shot = do
  level ← normalize_tidb_transaction_isolation_level v.value
  ok (
      Ir.set_transaction
        (record { scope = codes "transaction"; isolation_level = level; access_mode = [] }))
normalize_tidb_variable sql v isolation =
    let session = (do
      level ← normalize_tidb_transaction_isolation_level v.value
      ok (
          Ir.set_transaction
            (record { scope = codes "session"; isolation_level = level; access_mode = [] }))) in
    if v.is_global then err unsupported_set_variant else session
normalize_tidb_variable sql v read_only = do
  scope ← normalize_tidb_transaction_read_mode_scope sql
  mode ← normalize_tidb_transaction_read_mode v.value
  ok (Ir.set_transaction (record { scope = scope; isolation_level = []; access_mode = mode }))
normalize_tidb_variable sql v other_variable = err unsupported_set_variant

unfoldable pub normalize_tidb_set : Text → List (Option VariableAssignment) → Outcome Ir.Statement
unfolding normalize_tidb_variable set_target
normalize_tidb_set sql (some v ∷ []) =
    if v.extended
    then err unsupported_set_variant
    else normalize_tidb_variable sql v (set_target v.name)
normalize_tidb_set sql (none ∷ []) = err unsupported_set_variant
normalize_tidb_set sql [] = err unsupported_set_variant
normalize_tidb_set sql (_ ∷ _ ∷ _) = err unsupported_set_variant

unfoldable pub normalize_tidb_savepoint : Text → Outcome Ir.Statement
unfolding trim_space
normalize_tidb_savepoint name =
    if is_empty (trim_space name)
    then err missing_savepoint_name
    else ok (Ir.savepoint (record { name = trim_space name }))

unfoldable pub normalize_tidb_release_savepoint : Text → Outcome Ir.Statement
unfolding trim_space
normalize_tidb_release_savepoint name =
    if is_empty (trim_space name)
    then err missing_savepoint_name
    else ok (Ir.release_savepoint (record { name = trim_space name }))

unfoldable pub normalize_tidb_rollback : Tidb.RollbackStmt → Text → Ir.Statement
unfolding trim_space normalize_tidb_raw
normalize_tidb_rollback stmt sql =
    if is_empty (trim_space stmt.savepoint_name)
    then normalize_tidb_raw sql
    else Ir.rollback_to_savepoint (record { name = trim_space stmt.savepoint_name })
