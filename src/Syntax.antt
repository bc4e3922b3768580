-- ===== src/Syntax.antt =====
-- internal/syntax/syntax.go: the statements of the syntax layer. The scanner is in Scan, and the
-- two parsers, of internal/syntax/mysql and internal/syntax/postgres, in Mysql and Postgres.
pub mod Scan
pub mod Joins
pub mod Clauses
pub mod Mysql
pub mod Postgres
use unique_dialect.Base.{List, Option}
use unique_dialect.Text.Decimal.{ℤ}
use unique_dialect.Text.{Text}

pub record Join : Type 0 where
  pub kind : Text
  pub table : Text
  pub on : Text

-- The offset is a pointer in the source, and absent where that is nil.
pub record LimitClause : Type 0 where
  pub offset : Option ℤ
  pub count : ℤ

pub record Assignment : Type 0 where
  pub column : Text
  pub value : Text

pub data ConflictStyle : Type 0 where
  mysql_style postgres_style : ConflictStyle

pub record ConflictClause : Type 0 where
  pub style : ConflictStyle
  pub target_columns : List Text
  pub assignments : List Assignment

pub record SelectStatement : Type 0 where
  pub columns : List Text
  pub from : Text
  pub joins : List Join
  pub where_expr : Text
  pub order_by : List Text
  pub limit : Option LimitClause

pub record InsertStatement : Type 0 where
  pub table : Text
  pub columns : List Text
  pub values : List Text
  pub conflict : Option ConflictClause

pub record UpdateStatement : Type 0 where
  pub table : Text
  pub assignments : List Assignment
  pub where_expr : Text

pub record DeleteStatement : Type 0 where
  pub table : Text
  pub where_expr : Text

pub data Statement : Type 0 where
  raw : Text → Statement
  select : SelectStatement → Statement
  insert : InsertStatement → Statement
  update : UpdateStatement → Statement
  delete : DeleteStatement → Statement
