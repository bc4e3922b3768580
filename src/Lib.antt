-- ===== src/Lib.antt =====
-- UniqueDialect, a library that translates SQL between the dialects of MySQL, PostgreSQL, SQLite
-- and Oracle, from the scanner of SQL text to the translator with its cache and the database
-- connection that uses it.
--
-- The parts of the program and how they interact. `Translator.Translate` (translator.go) looks a
-- text up in its cache and otherwise has `translateSQL` parse it (internal/parser, and the
-- hand-written parsers of internal/syntax), turn the result into the intermediate representation
-- (internal/normalize, internal/ir) and write it in the target dialect (internal/render). The
-- connection of sql_driver.go has a statement translated before the driver of the target database runs it,
-- with the arguments of internal/params, and logs failures (logging.go).
--
-- The files:
--   Base        the shared names of the libraries, Boolean tests, lists, loops on fuel.
--   Outcome     how a Go call ends: a value, an error, a panic.
--   Text        Go strings as lists of bytes, the functions of the package strings that the code
--               calls, strconv.Itoa and strconv.Atoi in Text/Decimal, and regular expressions for
--               whole statements in Text/Pattern. Text/Trim and Text/Parts
--               have their laws.
--   Syntax      the statements of internal/syntax/syntax.go. Syntax/Scan is its scanner
--               (splitTopLevelCSV, findTopLevelKeyword, findMatchingParen, stripIdentifier), with one
--               module of theorems for each of the three loops. Syntax/Mysql and Syntax/Postgres are
--               Parse of internal/syntax/mysql/parser.go and internal/syntax/postgres/parser.go;
--               Syntax/Clauses and Syntax/Joins are what the two have in common, word for word.
--   Ir          the records of internal/ir/ir.go.
--   Dialect     the dialect names of types.go.
--   Tidb        what the program reads of the statement nodes of the TiDB parser.
--   Normalize   Statement of internal/normalize/normalize.go. Below it the TiDB statements: Normalize/Dml
--               is internal/normalize/tidb_dml.go, Normalize/Set is tidb_set.go and tidb_txn.go,
--               Normalize/Show is tidb_show.go, Normalize/Columns, Normalize/Tables and Normalize/Alter
--               are tidb_ddl.go, and Normalize/Parsed is parsed_statement.go. Normalize/Total and the
--               modules Safe and Order have the theorems.
--   Render      internal/render/render.go: Render/Regexp and Render/Rewrite for the rewriting of text,
--               Render/Quote for identifiers and literals, Render/Slices for what slices a text, Render/Dml, Render/Ddl, Render/Index,
--               Render/Session and Render/Show for the statements.
--   Parser      the types and the classification of internal/parser. Parser/Classify is classify.go,
--               Parser/Inline, Parser/Specs and Parser/Extensions are extensions.go, and Parser/Multi is
--               ParseOne and ParseMulti over the TiDB parser.
--   Translator  translator.go. Translator/Memo has the cache, Translator/Threads concurrent calls,
--               Translator/Sql the translation, and Translator/Sql/Legacy that from PostgreSQL.
--   Options     the options of types.go, their defaults, and BuildDriverDSN.
--   Params      internal/params/params.go. Params/Values has the theorems.
--   Logging     logging.go.
--   Driver      sql_driver.go: the connection and its prepared statements; Driver/Open is the
--               connector. Driver/Uncached, Driver/Logged and Driver/Ordinals have the theorems.
--   Encryptor   encryptor.go, with RawStdEncoding in Text/Base64. Encryptor/RoundTrip has the theorem.
--   Bootstrap   bootstrap.go; Bootstrap/Regexp has its two regular expressions, Bootstrap/Names the theorem.
--   Tests       runs of the model at concrete inputs.
--
-- How state and operations correspond. Go's integers that are indices are ℕ, and an index of -1
-- is `none`; the numbers of a limit are ℤ with the range of 64 bits. A slice expression is
-- `slice`, which panics out of range as Go does; where the bounds follow from the search before
-- it, `take` and `drop` stand instead. A renderer's function that slices returns an outcome, of which its
-- caller takes the value; Render/Slices/Bounds shows that there is one. The scanner's four loop variables are the record `Scan`.
-- The counter of placeholders in the renderer's `state` is passed through the functions of
-- Render by hand or by the monad `M`. The cache is an association list with the newest entry
-- first, so that a write shadows what was there. A translator is a value that each call returns
-- anew; concurrent calls are lists of calls in phases, of which one at a time takes its next
-- locked section or its translation. In Memo and Threads the translation is any function of the
-- options and the text, since Translate uses nothing else of it; the arguments of a call are a
-- list of any type, copied by value.
--
-- The bounds. The loops over joins run on fuel, one more than the bytes of their text; each
-- round reads a join and leaves a shorter text, as the theorems on them state. All else is
-- structural.
--
-- What is simplified. Texts are taken to be of ASCII characters: strings.ToUpper and
-- strings.TrimSpace act on bytes. On other texts the model is not the code: strings.ToUpper may
-- change the length, and findTopLevelKeyword, which slices the text in upper case at the
-- indices of the input, then compares the wrong bytes or panics. Syntax/Scan/Upper has the search
-- with that slice, for any strings.ToUpper. The results that exclude a panic, or say when there is
-- one, have a premise that their text is of ASCII characters. Error messages are reduced to their kind.
--
-- The TiDB parser under internal/parser/tidb, a copy of another project's, is a parameter: a function
-- from texts to lists of statements, without which a text is a syntax error. Its statements are data
-- with what the program reads of them. A pointer that the program tests for nil is optional; one that
-- it follows without a test is taken to be there, as the grammar gives it, but for the option of SET
-- DEFAULT, whose lack is a panic.
--
-- The driver of the target database is a parameter: its calls are functions of a state of any
-- type, and a method that it may lack is optional. A Go value of type `any` is data with one
-- constructor for each type that the code asks for; a Valuer stands with what its Value method
-- returns, a composite value with its JSON text. The log files are one list of lines with their paths;
-- which of them can be written is a parameter, and the time stamps are left out. The cipher of
-- encryptor.go is a parameter, and so is the random source, a function of how often it has been
-- read; a model is a list of targets, each a list of fields.
--
-- What is not modelled: FormatDSN and ParseDSN of types.go and dsn.go with the functions that start
-- from them, and the glue to GORM (gorm.go).
mod Base
pub mod Outcome
pub mod Text
pub mod Syntax
pub mod Ir
pub mod Dialect
pub mod Render
pub mod Tidb
pub mod Normalize
pub mod Parser
pub mod Translator
pub mod Options
pub mod Params
pub mod Logging
pub mod Driver
pub mod Encryptor
pub mod Bootstrap
mod Tests
