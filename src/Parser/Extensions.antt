-- ===== src/Parser/Extensions.antt =====
-- internal/parser/extensions.go: the statements of MariaDB and MySQL that the TiDB parser does not
-- read. Their text is changed to one that it reads, and the clauses are marked in what it returns.
use unique_dialect.Base.{
  ℕ, ◌+◌, Bool, true, false, ◌&&◌, ◌||◌, List, [], ◌∷◌, Option, none, some, map, String,
  if◌then◌else◌, choose, ltb, leb, length, ◌==◌,
}
use unique_dialect.Normalize.Set.{◌>>◌, statement_end}
use unique_dialect.Parser.{
  ParsedStatement, StatementKind, supported, NativeAst, tidb_node, drop_foreign_key_stmt,
}
use unique_dialect.Parser.Classify.{classify_tidb_statement}
use unique_dialect.Parser.Inline.{
  drop_foreign_key_if_exists, drop_primary_key_if_exists, drop_index_if_exists,
  add_unique_key_if_not_exists, where_database, matches, replace_matches, skip_words,
  leading_blanks, identifier_match, strip_wrapped_identifier,
}
use unique_dialect.Parser.Specs.{split_alter_table_spec_clauses}
use unique_dialect.Render.Regexp.{Matcher, span, is_blank, is_word}
use unique_dialect.Text.Pattern.{Pattern, blanks, some_blanks, word, match_string, rests}
use unique_dialect.Text.{Text, codes}
use unique_dialect.Tidb.{
  AlterTableSpec, AlterTableType, Constraint, ConstraintType, ShowType, StmtNode,
}

-- wrapTiDBStatements.
unfoldable pub wrap_tidb_one : Text → Text → StmtNode → ParsedStatement NativeAst
unfolding classify_tidb_statement
wrap_tidb_one sql dialect node = record {
  sql = sql;
  source_dialect = dialect;
  kind = (classify_tidb_statement sql node).0;
  status = (classify_tidb_statement sql node).1;
  native = tidb_node node;
}

unfoldable pub wrap_tidb : Text → Text → List StmtNode → List (ParsedStatement NativeAst)
unfolding wrap_tidb_one
wrap_tidb sql dialect nodes = map (wrap_tidb_one sql dialect) nodes

-- showDatabasesWhereDatabasePattern, which has no end.
abbrev pub show_databases_where_database : Pattern
show_databases_where_database =
    blanks
    >> word "SHOW"
    >> some_blanks
    >> word "DATABASES"
    >> some_blanks
    >> word "WHERE"
    >> some_blanks
    >> word "DATABASE"
    >> blanks
    >> word "="

abbrev pub is_any {ℓ} : {A : Type ℓ} → List A → Bool
is_any [] = false
is_any (x ∷ xs) = true

abbrev pub is_show_databases : ShowType → Bool
is_show_databases ShowType.databases = true
is_show_databases _ = false

-- The one statement, if it is SHOW DATABASES with a condition.
unfoldable pub show_databases_node : List StmtNode → Bool
show_databases_node (StmtNode.show s ∷ []) =
    is_show_databases s.tp && choose s.where_expr false λ e. true
show_databases_node _ = false

-- The indexes of the clauses that an expression matches, from `i` on.
unfoldable pub indexes_from : Matcher → ℕ → List Text → List ℕ
unfolding matches
indexes_from m i [] = []
indexes_from m i (spec ∷ specs) =
    let rest = indexes_from m (i + 1) specs in if matches m spec then i ∷ rest else rest

-- The four lists of indexes.
pub record SpecIndexes : Type 0 where
  pub drop_foreign_key : List ℕ
  pub drop_primary_key : List ℕ
  pub drop_index : List ℕ
  pub add_unique_key : List ℕ

unfoldable pub spec_indexes : List Text → SpecIndexes
unfolding indexes_from drop_foreign_key_if_exists drop_primary_key_if_exists drop_index_if_exists
    add_unique_key_if_not_exists
spec_indexes specs = record {
  drop_foreign_key = indexes_from drop_foreign_key_if_exists 0 specs;
  drop_primary_key = indexes_from drop_primary_key_if_exists 0 specs;
  drop_index = indexes_from drop_index_if_exists 0 specs;
  add_unique_key = indexes_from add_unique_key_if_not_exists 0 specs;
}

abbrev pub has_indexes : SpecIndexes → Bool
has_indexes x =
    (is_any x.drop_foreign_key || is_any x.drop_primary_key)
    || (is_any x.drop_index || is_any x.add_unique_key)

-- mariaDBExtensionSpecIndexes.
unfoldable pub mariadb_extension_spec_indexes : Text → Option SpecIndexes
unfolding matches drop_foreign_key_if_exists drop_primary_key_if_exists drop_index_if_exists
    add_unique_key_if_not_exists split_alter_table_spec_clauses spec_indexes
mariadb_extension_spec_indexes sql =
    let found =
      choose (split_alter_table_spec_clauses sql) none
        λ specs. if has_indexes (spec_indexes specs) then some (spec_indexes specs) else none in
    if (matches drop_foreign_key_if_exists sql || matches drop_primary_key_if_exists sql)
      || (matches drop_index_if_exists sql || matches add_unique_key_if_not_exists sql)
    then found
    else none

unfoldable pub is_pending : ℕ → List ℕ → Bool
is_pending i [] = false
is_pending i (j ∷ js) = i == j || is_pending i js

unfoldable pub mark_if_exists :
    Bool → (AlterTableType → Bool) → AlterTableSpec → Option AlterTableSpec
mark_if_exists false is_type s = some s
mark_if_exists true is_type s = if is_type s.tp then some (record s { if_exists = true }) else none

abbrev pub is_drop_foreign_key : AlterTableType → Bool
is_drop_foreign_key AlterTableType.drop_foreign_key = true
is_drop_foreign_key _ = false

abbrev pub is_drop_primary_key : AlterTableType → Bool
is_drop_primary_key AlterTableType.drop_primary_key = true
is_drop_primary_key _ = false

abbrev pub is_drop_index : AlterTableType → Bool
is_drop_index AlterTableType.drop_index = true
is_drop_index _ = false

abbrev pub is_add_constraint : AlterTableType → Bool
is_add_constraint AlterTableType.add_constraint = true
is_add_constraint _ = false

abbrev pub is_uniq : ConstraintType → Bool
is_uniq ConstraintType.uniq = true
is_uniq ConstraintType.uniq_key = true
is_uniq ConstraintType.uniq_index = true
is_uniq _ = false

unfoldable pub mark_constraint : AlterTableSpec → Option Constraint → Option AlterTableSpec
mark_constraint s none = none
mark_constraint s (some c) =
    if is_uniq c.tp
    then some (record s { constraint = some (record c { if_not_exists = true }) })
    else none

unfoldable pub mark_unique : Bool → AlterTableSpec → Option AlterTableSpec
unfolding mark_constraint
mark_unique false s = some s
mark_unique true s = if is_add_constraint s.tp then mark_constraint s s.constraint else none

-- The four tests on one clause.
unfoldable pub mark_spec : SpecIndexes → ℕ → AlterTableSpec → Option AlterTableSpec
unfolding is_pending mark_if_exists mark_unique
mark_spec x i s0 =
    choose (mark_if_exists (is_pending i x.drop_foreign_key) is_drop_foreign_key s0) none λ s1.
      choose (mark_if_exists (is_pending i x.drop_primary_key) is_drop_primary_key s1) none λ s2.
        choose (mark_if_exists (is_pending i x.drop_index) is_drop_index s2) none
          λ s3. mark_unique (is_pending i x.add_unique_key) s3

abbrev pub is_marked_nil : SpecIndexes → ℕ → Bool
unfolding is_pending
is_marked_nil x i =
    (is_pending i x.drop_foreign_key || is_pending i x.drop_primary_key)
    || (is_pending i x.drop_index || is_pending i x.add_unique_key)

unfoldable pub mark_optional :
    SpecIndexes → ℕ → Option AlterTableSpec → Option (Option AlterTableSpec)
unfolding mark_spec is_pending
mark_optional x i none = if is_marked_nil x i then none else some none
mark_optional x i (some s) = choose (mark_spec x i s) none λ s'. some (some s')

unfoldable pub mark_all :
    SpecIndexes → ℕ → List (Option AlterTableSpec) → Option (List (Option AlterTableSpec))
unfolding mark_optional
mark_all x i [] = some []
mark_all x i (s ∷ specs) =
    choose (mark_optional x i s) none
      λ s'. choose (mark_all x (i + 1) specs) none λ rest. some (s' ∷ rest)

-- An index is still pending at the end if it is not one of `0 .. n - 1`.
unfoldable pub all_seen : ℕ → List ℕ → Bool
all_seen n [] = true
all_seen n (i ∷ rest) = ltb i n && all_seen n rest

-- markAlterTableExtensionSpecs.
unfoldable pub mark_alter_table_extension_specs :
    SpecIndexes → List (Option AlterTableSpec) → Option (List (Option AlterTableSpec))
unfolding mark_all all_seen
mark_alter_table_extension_specs x specs =
    let n = length specs in
    if has_indexes x
      && ((all_seen n x.drop_foreign_key && all_seen n x.drop_primary_key)
          && (all_seen n x.drop_index && all_seen n x.add_unique_key))
    then mark_all x 0 specs
    else none

unfoldable pub mark_nodes : SpecIndexes → List StmtNode → Option (List StmtNode)
unfolding mark_alter_table_extension_specs
mark_nodes x (StmtNode.alter_table a ∷ []) =
    choose (mark_alter_table_extension_specs x a.specs) none
      λ specs. some (StmtNode.alter_table (record a { specs = specs }) ∷ [])
mark_nodes x _ = none

-- The text that the TiDB parser reads in place of the extensions.
unfoldable pub sanitized : Text → Text
unfolding replace_matches drop_foreign_key_if_exists drop_primary_key_if_exists drop_index_if_exists
    add_unique_key_if_not_exists codes
sanitized sql0 =
    let sql1 = replace_matches drop_foreign_key_if_exists (codes "DROP FOREIGN KEY") sql0 in
    let sql2 = replace_matches drop_primary_key_if_exists (codes "DROP PRIMARY KEY") sql1 in
    let sql3 = replace_matches drop_index_if_exists (codes "DROP INDEX") sql2 in
    replace_matches add_unique_key_if_not_exists (codes "ADD UNIQUE KEY") sql3

abbrev pub is_table_char : ℕ → Bool
unfolding is_word
is_table_char c = is_word c || c == b'.'

-- Some blanks, and words with blanks after each of them.
unfoldable pub blanks_and_words : List String → Text → Option Text
unfolding leading_blanks skip_words span is_blank
blanks_and_words ws s = if leb 1 (span is_blank s) then skip_words ws (leading_blanks s) else none

-- mariaDBDropForeignKeyIfExistsPattern with its two groups.
unfoldable pub drop_foreign_key_match : Text → Option (Text × Text)
unfolding leading_blanks skip_words blanks_and_words identifier_match match_string is_word
drop_foreign_key_match sql =
    let clause : List String = "DROP" ∷ "FOREIGN" ∷ "KEY" ∷ "IF" ∷ "EXISTS" ∷ [] in
    choose (skip_words ("ALTER" ∷ "TABLE" ∷ []) (leading_blanks sql)) none λ s1.
      choose (identifier_match is_table_char s1) none λ t.
        choose (blanks_and_words clause t.1) none λ s2.
          choose (identifier_match is_word s2) none
            λ n. if match_string statement_end n.1 then some (t.0, n.0) else none

module _ (parse_tidb : Text → Option (List StmtNode)) (sql dialect : Text) where
  -- parseShowDatabasesWhereDatabaseExtension.
  unfoldable pub parse_show_databases_where_database : Option (List (ParsedStatement NativeAst))
  unfolding rests replace_matches where_database show_databases_node wrap_tidb codes
  parse_show_databases_where_database =
      let read =
        choose (parse_tidb (replace_matches where_database (codes "WHERE `Database`") sql)) none
          λ nodes. if show_databases_node nodes then some (wrap_tidb sql dialect nodes) else none in
      if is_any (rests show_databases_where_database sql) then read else none

  -- parseStandaloneMariaDBDropForeignKeyIfExists.
  unfoldable pub parse_standalone_drop_foreign_key_if_exists :
      Option (List (ParsedStatement NativeAst))
  unfolding drop_foreign_key_match strip_wrapped_identifier
  parse_standalone_drop_foreign_key_if_exists = choose (drop_foreign_key_match sql) none λ m. some (
      record {
        sql = sql;
        source_dialect = dialect;
        kind = StatementKind.alter_table;
        status = supported;
        native = drop_foreign_key_stmt (record {
          table = strip_wrapped_identifier m.0;
          name = strip_wrapped_identifier m.1;
          if_exists = true;
        });
      }
      ∷ [])

  -- parseMariaDBDropForeignKeyIfExistsAlterTableBatch.
  unfoldable pub parse_alter_table_batch : Option (List (ParsedStatement NativeAst))
  unfolding mariadb_extension_spec_indexes sanitized mark_nodes wrap_tidb
  parse_alter_table_batch = choose (mariadb_extension_spec_indexes sql) none λ x.
      choose (parse_tidb (sanitized sql)) none
        λ nodes. choose (mark_nodes x nodes) none λ marked. some (wrap_tidb sql dialect marked)

  -- parseMariaDBExtensionStatement.
  unfoldable pub parse_mariadb_extension_statement : Option (List (ParsedStatement NativeAst))
  unfolding parse_show_databases_where_database parse_standalone_drop_foreign_key_if_exists
      parse_alter_table_batch
  parse_mariadb_extension_statement =
      choose parse_show_databases_where_database
        (choose parse_standalone_drop_foreign_key_if_exists parse_alter_table_batch λ ps. some ps)
        λ ps. some ps
