-- ===== src/Tidb.antt =====
-- What the program reads of the statement nodes of the TiDB parser (internal/parser/tidb/ast). The
-- parser itself is a parameter of the model. A pointer that the program tests for nil is optional
-- here, one that it follows without a test is taken to be there, as the grammar gives it.
use unique_dialect.Base.{ℕ, Bool, List, Option}
use unique_dialect.Text.Decimal.{ℤ}
use unique_dialect.Text.{Text}

-- OriginalText of a node, and what Restore writes unless it fails.
pub record NodeText : Type 0 where
  pub original : Text
  pub restored : Option Text

pub data Expr : Type 0 where
  -- A ValueExpr: GetString, and GetValue in print unless it is nil.
  value : NodeText → Text → Option Text → Expr
  -- A ColumnNameExpr with the name of its column.
  column : NodeText → Option Text → Expr
  -- A BinaryOperationExpr whose operation is EQ.
  equals : NodeText → Expr → Expr → Expr
  -- A FuncCallExpr with the name of the function.
  call : NodeText → Text → Expr
  other : NodeText → Expr

abbrev pub node_text_of : Expr → NodeText
node_text_of (value t _ _) = t
node_text_of (column t _) = t
node_text_of (equals t _ _) = t
node_text_of (call t _) = t
node_text_of (other t) = t

pub record TableName : Type 0 where
  pub schema : Text
  pub name : Text

-- A PatternLikeOrIlikeExpr; the escape byte is 0 if there is none.
pub record PatternLike : Type 0 where
  pub negated : Bool
  pub is_like : Bool
  pub escape : ℕ
  pub pattern : Option Expr

pub data ShowType : Type 0 where
  tables columns index table_status create_table create_view databases create_database : ShowType
  variables other_show : ShowType

pub record ShowStmt : Type 0 where
  pub tp : ShowType
  pub db_name : Text
  pub table : Option TableName
  pub full : Bool
  pub extended : Bool
  pub if_not_exists : Bool
  pub global_scope : Bool
  pub pattern : Option PatternLike
  pub where_expr : Option Expr

-- A VariableAssignment; only whether it has an ExtendValue is read.
pub record VariableAssignment : Type 0 where
  pub name : Text
  pub value : Option Expr
  pub is_global : Bool
  pub extended : Bool

pub record Limit : Type 0 where
  pub count : Expr
  pub offset : Option Expr

pub record SelectStmt : Type 0 where
  pub has_with : Bool
  pub limit : Option Limit

-- An assignment of ON DUPLICATE KEY UPDATE: the nodes of the column and of the value.
pub record Assignment : Type 0 where
  pub column : NodeText
  pub expr : Expr

pub data ColumnOptionType : Type 0 where
  primary_key not_null null uniq_key auto_increment default_value on_update : ColumnOptionType
  other_option : ColumnOptionType

pub record ColumnOption : Type 0 where
  pub tp : ColumnOptionType
  pub expr : Expr

-- A ColumnDef, with its type in print.
pub record ColumnDef : Type 0 where
  pub name : Option Text
  pub column_type : Option Text
  pub options : List (Option ColumnOption)

pub record IndexPartSpecification : Type 0 where
  pub column : Option Text
  pub length : ℤ
  pub desc : Bool
  pub expr : Option Expr

pub data IndexVisibility : Type 0 where
  default_visibility visible invisible : IndexVisibility

-- An IndexOption; its type in print unless it is IndexTypeInvalid.
pub record IndexOption : Type 0 where
  pub tp : Option Text
  pub parser_name : Text
  pub condition : Option Expr
  pub comment : Text
  pub visibility : IndexVisibility

-- An IndexLockAndAlgorithm, both in print unless they are the default.
pub record IndexLockAndAlgorithm : Type 0 where
  pub algorithm : Option Text
  pub lock : Option Text

pub data MatchType : Type 0 where
  match_none match_full match_partial match_simple : MatchType

-- A ReferenceDef, with the two options in print.
pub record ReferenceDef : Type 0 where
  pub table : Option TableName
  pub parts : List (Option IndexPartSpecification)
  pub match : MatchType
  pub on_delete : Option Text
  pub on_update : Option Text

pub data ConstraintType : Type 0 where
  primary_key key index uniq uniq_key uniq_index foreign_key other_constraint : ConstraintType

pub record Constraint : Type 0 where
  pub text : NodeText
  pub tp : ConstraintType
  pub name : Text
  pub if_not_exists : Bool
  pub keys : List (Option IndexPartSpecification)
  pub refer : Option ReferenceDef
  pub option : Option IndexOption

pub data AlterTableType : Type 0 where
  add_columns add_constraint drop_column drop_primary_key drop_index : AlterTableType
  drop_foreign_key modify_column change_column alter_column other_type : AlterTableType

-- A ColumnPosition.
pub data ColumnPosition : Type 0 where
  position_none position_given : ColumnPosition

pub record AlterTableSpec : Type 0 where
  pub tp : AlterTableType
  pub name : Text
  pub if_exists : Bool
  pub constraint : Option Constraint
  pub new_columns : List (Option ColumnDef)
  pub has_new_constraints : Bool
  pub old_column_name : Option Text
  pub position : Option ColumnPosition

pub record AlterTableStmt : Type 0 where
  pub table : Option TableName
  pub specs : List (Option AlterTableSpec)

pub record CreateTableStmt : Type 0 where
  pub table : Option TableName
  pub if_not_exists : Bool
  pub cols : List (Option ColumnDef)
  pub constraints : List (Option Constraint)

pub record CreateIndexStmt : Type 0 where
  pub index_name : Text
  pub table : Option TableName
  pub is_unique : Bool
  pub if_not_exists : Bool
  pub parts : List (Option IndexPartSpecification)
  pub index_option : Option IndexOption
  pub lock_alg : Option IndexLockAndAlgorithm

pub record DropIndexStmt : Type 0 where
  pub index_name : Text
  pub if_exists : Bool
  pub table : Option TableName

-- A TableToTable.
pub record TableToTable : Type 0 where
  pub old_table : Option TableName
  pub new_table : Option TableName

pub record BeginStmt : Type 0 where
  pub mode : Text
  pub causal_consistency_only : Bool
  pub has_as_of : Bool

pub record RollbackStmt : Type 0 where
  pub default_completion : Bool
  pub savepoint_name : Text

pub data StmtNode : Type 0 where
  select : SelectStmt → StmtNode
  set_opr : StmtNode
  set : List (Option VariableAssignment) → StmtNode
  -- An InsertStmt with its ON DUPLICATE KEY UPDATE.
  insert : List Assignment → StmtNode
  update delete explain : StmtNode
  show : ShowStmt → StmtNode
  create_table : CreateTableStmt → StmtNode
  create_database create_view drop_database truncate_table : StmtNode
  rename_table : List (Option TableToTable) → StmtNode
  alter_table : AlterTableStmt → StmtNode
  -- A DropTableStmt; true for a view.
  drop_table : Bool → StmtNode
  create_index : CreateIndexStmt → StmtNode
  drop_index : DropIndexStmt → StmtNode
  begin : BeginStmt → StmtNode
  -- A CommitStmt; true for the default completion type.
  commit : Bool → StmtNode
  rollback : RollbackStmt → StmtNode
  savepoint release_savepoint use_db : Text → StmtNode
  other : StmtNode
