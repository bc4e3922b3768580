-- ===== src/Ir.antt =====
-- internal/ir/ir.go: the normalized statements. A batch holds statements, so the statement type is
-- in two layers, and a batch inside a batch is a constructor of its own.
use unique_dialect.Base.{Bool, List, Option}
use unique_dialect.Text.Decimal.{ℤ}
use unique_dialect.Text.{Text}

pub data AlterTableSpecKind : Type 0 where
  add_column : AlterTableSpecKind
  drop_column : AlterTableSpecKind
  set_default : AlterTableSpecKind
  drop_default : AlterTableSpecKind
  alter_type : AlterTableSpecKind
  set_not_null : AlterTableSpecKind
  drop_not_null : AlterTableSpecKind
  rename_column : AlterTableSpecKind
  add_primary_key : AlterTableSpecKind
  add_unique_key : AlterTableSpecKind
  add_foreign_key : AlterTableSpecKind
  drop_primary_key : AlterTableSpecKind
  drop_foreign_key : AlterTableSpecKind

pub data ConflictStyle : Type 0 where
  mysql_style postgres_style : ConflictStyle

pub record IndexPart : Type 0 where
  pub column : Text
  pub expr : Text
  pub length : ℤ
  pub desc : Bool

pub record Join : Type 0 where
  pub kind : Text
  pub table : Text
  pub on : Text

pub record LimitClause : Type 0 where
  pub offset : Option ℤ
  pub count : ℤ

pub record Assignment : Type 0 where
  pub column : Text
  pub value : Text

pub record ConflictClause : Type 0 where
  pub style : ConflictStyle
  pub target_columns : List Text
  pub assignments : List Assignment

pub record CreateTableColumn : Type 0 where
  pub name : Text
  pub column_type : Text
  pub not_null : Bool
  pub primary_key : Bool
  pub unique : Bool
  pub auto_increment : Bool
  pub default : Text

pub record ForeignKeyReference : Type 0 where
  pub table : Text
  pub parts : List IndexPart
  pub match : Text
  pub on_delete : Text
  pub on_update : Text

pub record AlterTableSpec : Type 0 where
  pub kind : AlterTableSpecKind
  pub column : CreateTableColumn
  pub name : Text
  pub new_name : Text
  pub default : Text
  pub constraint_name : Text
  pub parts : List IndexPart
  pub if_exists : Bool
  pub if_not_exists : Bool
  pub reference : ForeignKeyReference

pub record SelectStatement : Type 0 where
  pub columns : List Text
  pub from : Text
  pub joins : List Join
  pub where_expr : Text
  pub order_by : List Text
  pub limit : Option LimitClause

pub record InsertStatement : Type 0 where
  pub table : Text
  pub columns : List Text
  pub values : List Text
  pub conflict : Option ConflictClause

pub record UpdateStatement : Type 0 where
  pub table : Text
  pub assignments : List Assignment
  pub where_expr : Text

pub record DeleteStatement : Type 0 where
  pub table : Text
  pub where_expr : Text

pub record SetStatement : Type 0 where
  pub kind : Text
  pub charset : Text

pub record SetTransactionStatement : Type 0 where
  pub scope : Text
  pub isolation_level : Text
  pub access_mode : Text

pub record SavepointStatement : Type 0 where
  pub name : Text

pub record ReleaseSavepointStatement : Type 0 where
  pub name : Text

pub record RollbackToSavepointStatement : Type 0 where
  pub name : Text

pub record UseStatement : Type 0 where
  pub database : Text

pub record ShowTablesStatement : Type 0 where
  pub database : Text
  pub full : Bool
  pub pattern : Text
  pub name : Text
  pub table_type : Text

pub record ShowColumnsStatement : Type 0 where
  pub table : Text
  pub database : Text
  pub full : Bool
  pub pattern : Text
  pub field : Text

pub record ShowIndexStatement : Type 0 where
  pub table : Text
  pub database : Text
  pub key_name : Text
  pub column : Text
  pub index_type : Text
  pub non_unique : Text
  pub seq_in_index : Text

pub record ShowTableStatusStatement : Type 0 where
  pub database : Text
  pub pattern : Text
  pub name : Text
  pub comment : Text
  pub engine : Text

pub record ShowDatabasesStatement : Type 0 where
  pub pattern : Text
  pub name : Text

pub record ShowCreateDatabaseStatement : Type 0 where
  pub name : Text
  pub if_not_exists : Bool

pub record ShowCreateTableStatement : Type 0 where
  pub schema : Text
  pub name : Text

pub record ShowCreateViewStatement : Type 0 where
  pub schema : Text
  pub name : Text

pub record ShowVariablesStatement : Type 0 where
  pub pattern : Text
  pub name : Text

pub record CreateTableStatement : Type 0 where
  pub name : Text
  pub if_not_exists : Bool
  pub columns : List CreateTableColumn
  pub constraints : List Text

pub record AlterTableStatement : Type 0 where
  pub name : Text
  pub specs : List AlterTableSpec

pub record DropIndexStatement : Type 0 where
  pub name : Text
  pub if_exists : Bool
  pub table : Text

pub record CreateIndexStatement : Type 0 where
  pub name : Text
  pub table : Text
  pub unique : Bool
  pub if_not_exists : Bool
  pub parts : List IndexPart
  pub using : Text
  pub parser_name : Text
  pub where_expr : Text
  pub comment : Text
  pub visibility : Text
  pub algorithm : Text
  pub lock : Text

pub record RenameTableStatement : Type 0 where
  pub old_name : Text
  pub new_name : Text

pub data Statement : Type 0 where
  raw : Text → Statement
  select : SelectStatement → Statement
  insert : InsertStatement → Statement
  update : UpdateStatement → Statement
  delete : DeleteStatement → Statement
  set : SetStatement → Statement
  set_transaction : SetTransactionStatement → Statement
  savepoint : SavepointStatement → Statement
  release_savepoint : ReleaseSavepointStatement → Statement
  rollback_to_savepoint : RollbackToSavepointStatement → Statement
  use_database : UseStatement → Statement
  show_tables : ShowTablesStatement → Statement
  show_columns : ShowColumnsStatement → Statement
  show_index : ShowIndexStatement → Statement
  show_table_status : ShowTableStatusStatement → Statement
  show_databases : ShowDatabasesStatement → Statement
  show_create_database : ShowCreateDatabaseStatement → Statement
  show_create_table : ShowCreateTableStatement → Statement
  show_create_view : ShowCreateViewStatement → Statement
  show_variables : ShowVariablesStatement → Statement
  create_table : CreateTableStatement → Statement
  alter_table : AlterTableStatement → Statement
  drop_index : DropIndexStatement → Statement
  create_index : CreateIndexStatement → Statement
  rename_table : RenameTableStatement → Statement
  -- A batch inside a batch; no code reads its statements.
  nested_batch : Statement

-- What render.Statement takes: one statement, or a batch.
pub data Rendered : Type 0 where
  single : Statement → Rendered
  batch : List Statement → Rendered
