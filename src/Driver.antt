-- ===== src/Driver.antt =====
-- sql_driver.go: the connection that translates a statement before the driver of the target
-- database runs it. That driver is a parameter.
pub mod Uncached
pub mod Open
pub mod Ordinals
pub mod Logged
use unique_dialect.Base.{ℕ, ◌+◌, Bool, List, [], ◌∷◌, Option, none, some, map, choose}
use unique_dialect.Logging.{SqlFailureLogger, Log, log_translation_failure, log_execution_failure}
use unique_dialect.Outcome.{Outcome, ok, err, panic, ◌>>=◌, Failure, skip}
use unique_dialect.Params.{GoValue, normalize}
use unique_dialect.Text.{Text, codes}
use unique_dialect.Translator.{Translator, TranslatorOptions, Translation, translate}

pub record NamedValue : Type 0 where
  pub name : Text
  pub ordinal : ℕ
  pub value : GoValue

unfoldable pub named_values_to_args : List NamedValue → List GoValue
named_values_to_args values = map (λ v. v.value) values

-- The value that Normalize gives, or the value as it is.
abbrev pub value_or : GoValue → Outcome GoValue → Outcome GoValue
value_or v (ok w) = ok w
value_or v (err e) = ok v
value_or v panic = panic

-- The loop of argsFromSlice from an index on.
unfoldable pub args_from_index : ℕ → List GoValue → Outcome (List NamedValue)
unfolding normalize
args_from_index i [] = ok []
args_from_index i (v ∷ vs) = do
  converted ← value_or v (normalize v)
  rest ← args_from_index (i + 1) vs
  ok ((record { name = []; ordinal = i + 1; value = converted }) ∷ rest)

unfoldable pub args_from_slice : List GoValue → Outcome (List NamedValue)
unfolding args_from_index
args_from_slice values = args_from_index 0 values

unfoldable pub named_values_to_values : List NamedValue → Outcome (List GoValue)
unfolding normalize
named_values_to_values [] = ok []
named_values_to_values (v ∷ vs) = do
  converted ← normalize v.value
  rest ← named_values_to_values vs
  ok (converted ∷ rest)

-- A call of the driver of the target database, on its state `S`.
abbrev pub Call : Type 0 → Type 0 → Type 0 → Type 0
Call S A R = A → S → S × Outcome R

-- A prepared statement of that driver; the optional methods are those with a context.
pub record BaseStmt (S R : Type 0) : Type 0 where
  pub exec_with : Option (Call S (List NamedValue) R)
  pub exec_values : Call S (List GoValue) R
  pub query_with : Option (Call S (List NamedValue) R)
  pub query_values : Call S (List GoValue) R

-- A connection of that driver; `R` stands for its results and rows.
pub record BaseConn (S R : Type 0) : Type 0 where
  pub execer : Option (Call S (Text × List NamedValue) R)
  pub queryer : Option (Call S (Text × List NamedValue) R)
  pub preparer : Option (Call S Text (BaseStmt S R))
  pub prepare_plain : Call S Text (BaseStmt S R)

pub record VirtualStmt (S R : Type 0) : Type 0 where
  pub stmt : BaseStmt S R
  pub original_sql : Text
  pub translated_sql : Text

-- What calls change: the translator, the log files and the database.
pub record World (S : Type 0) : Type 0 where
  pub translator : Translator
  pub log : Log
  pub base : S

module _ (f : TranslatorOptions → Text → Outcome Text) (writable : Text → Bool)
    (logger : Option SqlFailureLogger) {S : Type 0} where
  -- The end of a call of the driver: an error is logged.
  unfoldable pub after_base :
      {A : Type 0} → Text → Text → Text → World S → S × Outcome A → World S × Outcome A
  unfolding log_execution_failure
  after_base stage sql translated w (s, ok r) = (record w { base = s }, ok r)
  after_base stage sql translated w (s, err e) = (
    record w { log = log_execution_failure writable logger stage sql translated e w.log; base = s },
    err e,
  )
  after_base stage sql translated w (s, panic) = (record w { base = s }, panic)

  -- The call of the driver with the arguments of argsFromSlice.
  unfoldable pub run_with :
      {R : Type 0}
      → Text
      → Call S (Text × List NamedValue) R
      → Text
      → Text
      → World S
      → Outcome (List NamedValue)
      → World S × Outcome R
  unfolding after_base
  run_with stage call sql translated w (ok args) =
      after_base stage sql translated w (call (translated, args) w.base)
  run_with stage call sql translated w (err e) = (w, err e)
  run_with stage call sql translated w panic = (w, panic)

  -- ExecContext and QueryContext behind Translate.
  unfoldable pub run_translation :
      {R : Type 0}
      → Text
      → Call S (Text × List NamedValue) R
      → Text
      → World S
      → Translator × Outcome (Translation GoValue)
      → World S × Outcome R
  unfolding run_with args_from_slice log_translation_failure
  run_translation stage call sql w (t, ok r) =
      run_with stage call sql r.sql (record w { translator = t }) (args_from_slice r.args)
  run_translation stage call sql w (t, err e) = (
    record w { translator = t; log = log_translation_failure writable logger stage sql e w.log },
    err e,
  )
  run_translation stage call sql w (t, panic) = (record w { translator = t }, panic)

  unfoldable pub run_context :
      {R : Type 0}
      → Text
      → Option (Call S (Text × List NamedValue) R)
      → Text
      → List NamedValue
      → World S
      → World S × Outcome R
  unfolding run_translation translate named_values_to_args
  run_context stage none sql args w = (w, err skip)
  run_context stage (some call) sql args w =
      run_translation stage call sql w (translate f w.translator sql (named_values_to_args args))

  unfoldable pub exec_context :
      {R : Type 0} → BaseConn S R → Text → List NamedValue → World S → World S × Outcome R
  unfolding run_context codes
  exec_context conn sql args w = run_context (codes "exec") conn.execer sql args w

  unfoldable pub query_context :
      {R : Type 0} → BaseConn S R → Text → List NamedValue → World S → World S × Outcome R
  unfolding run_context codes
  query_context conn sql args w = run_context (codes "query") conn.queryer sql args w

  abbrev pub virtual :
      {R : Type 0}
      → Text
      → Text
      → World S × Outcome (BaseStmt S R)
      → World S × Outcome (VirtualStmt S R)
  virtual sql translated (w, o) = (
    w,
    o >>= λ stmt. ok (record { stmt = stmt; original_sql = sql; translated_sql = translated }),
  )

  -- PrepareContext behind Translate.
  unfoldable pub prepare_translation :
      {R : Type 0}
      → BaseConn S R
      → Text
      → World S
      → Translator × Outcome (Translation GoValue)
      → World S × Outcome (VirtualStmt S R)
  unfolding after_base log_translation_failure codes
  prepare_translation conn sql w (t, ok r) = virtual sql r.sql (
      after_base (codes "prepare") sql r.sql (record w { translator = t })
        (choose conn.preparer conn.prepare_plain (λ call. call) r.sql w.base))
  prepare_translation conn sql w (t, err e) = (
    record w {
      translator = t;
      log = log_translation_failure writable logger (codes "prepare") sql e w.log;
    },
    err e,
  )
  prepare_translation conn sql w (t, panic) = (record w { translator = t }, panic)

  unfoldable pub prepare_context :
      {R : Type 0} → BaseConn S R → Text → World S → World S × Outcome (VirtualStmt S R)
  unfolding prepare_translation translate
  prepare_context conn sql w = prepare_translation conn sql w (translate f w.translator sql [])

  -- The calls of a prepared statement: with a context, or with plain values.
  unfoldable pub run_values :
      {R : Type 0}
      → Text
      → Call S (List GoValue) R
      → VirtualStmt S R
      → World S
      → Outcome (List GoValue)
      → World S × Outcome R
  unfolding after_base
  run_values stage call s w (ok values) =
      after_base stage s.original_sql s.translated_sql w (call values w.base)
  run_values stage call s w (err e) = (w, err e)
  run_values stage call s w panic = (w, panic)

  unfoldable pub run_stmt :
      {R : Type 0}
      → Text
      → Option (Call S (List NamedValue) R)
      → Call S (List GoValue) R
      → VirtualStmt S R
      → List NamedValue
      → World S
      → World S × Outcome R
  unfolding after_base run_values named_values_to_values
  run_stmt stage none plain s args w = run_values stage plain s w (named_values_to_values args)
  run_stmt stage (some call) plain s args w =
      after_base stage s.original_sql s.translated_sql w (call args w.base)

  unfoldable pub stmt_exec_context :
      {R : Type 0} → VirtualStmt S R → List NamedValue → World S → World S × Outcome R
  unfolding run_stmt codes
  stmt_exec_context s args w =
      run_stmt (codes "stmt_exec") s.stmt.exec_with s.stmt.exec_values s args w

  unfoldable pub stmt_query_context :
      {R : Type 0} → VirtualStmt S R → List NamedValue → World S → World S × Outcome R
  unfolding run_stmt codes
  stmt_query_context s args w =
      run_stmt (codes "stmt_query") s.stmt.query_with s.stmt.query_values s args w
