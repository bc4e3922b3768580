-- ===== src/Driver/Logged.antt =====
-- The entries of the failure log that the connection of sql_driver.go writes.
use unique_dialect.Base.{Bool, true, false, List, [], ◌∷◌, ◌++◌, Option, none, some, ◌≡◌, refl}
use unique_dialect.Driver.{
  NamedValue, named_values_to_args, args_from_slice, Call, BaseConn, World, after_base, run_with,
  run_translation, run_context, exec_context, query_context,
}
use unique_dialect.Driver.Ordinals.{IsGood, args_from_slice-ordinals}
use unique_dialect.Logging.{
  SqlFailureLogger, SqlFailureLogEntry, Log, new_sql_failure_logger, write, translation_entry,
  execution_entry, log_translation_failure, log_execution_failure,
}
use unique_dialect.Options.{LoggingOptions, normalized_logging, text_or}
use unique_dialect.Outcome.{Outcome, ok, err, panic, Failure}
use unique_dialect.Params.{GoValue}
use unique_dialect.Text.{Text, codes, is_empty}
use unique_dialect.Translator.{Translator, TranslatorOptions, Translation, translate}

-- One more line, for the statement and the error of the call.
abbrev pub IsEntry : Text → Text → Failure → Log → Log → Type 0
IsEntry stage sql e before after =
    (path : Text) × (entry : SqlFailureLogEntry) × (after ≡ before ++ (path, entry) ∷ [])
    × (entry.stage ≡ stage)
    × (entry.input_sql ≡ sql)
    × (entry.error ≡ e)

-- The log after a call: one more line if it failed, and else none.
abbrev pub IsLogged : {S R : Type 0} → Text → Text → Log → World S × Outcome R → Type 0
IsLogged stage sql log (w, ok r) = w.log ≡ log
IsLogged stage sql log (w, err e) = IsEntry stage sql e log w.log
IsLogged stage sql log (w, panic) = w.log ≡ log

-- A logger that is on and has both of its paths.
abbrev IsOn : Option SqlFailureLogger → Type 0
IsOn none = ⊥
IsOn (some l) =
    (l.enabled ≡ true)
    × (is_empty l.translate_log_path ≡ false)
    × (is_empty l.execution_log_path ≡ false)

args_from_slice-IsGood : (vs : List GoValue) → IsGood (λ _. Unit) (args_from_slice vs)
args_from_slice-IsGood vs = go _ (args_from_slice vs) (args_from_slice-ordinals vs)
  where
    go :
        (P : List NamedValue → Type 0) (o : Outcome (List NamedValue))
        → IsGood P o
        → IsGood (λ _. Unit) o
    go P (ok ns) h = tt
    go P (err e) h = h
    go P panic h = tt

text_or-filled : (s d : Text) → is_empty d ≡ false → is_empty (text_or s d) ≡ false
unfolding text_or
text_or-filled [] d h = h
text_or-filled (c ∷ s) d h = refl

new_sql_failure_logger-IsOn :
    (opts : LoggingOptions)
    → opts.log_failed_sql ≡ true
    → IsOn (new_sql_failure_logger (normalized_logging opts))
unfolding new_sql_failure_logger normalized_logging codes
new_sql_failure_logger-IsOn opts h = rw h (
  refl,
  text_or-filled opts.translate_failure_log_path _ refl,
  text_or-filled opts.execution_failure_log_path _ refl,
)

module _ (writable : Text → Bool) (h : (path : Text) → writable path ≡ true) where
  write-appends :
      (path : Text) (entry : SqlFailureLogEntry) (log : Log)
      → is_empty path ≡ false
      → write writable path entry log ≡ log ++ (path, entry) ∷ []
  unfolding write
  write-appends path entry log filled = rw (filled, h path) refl

  log_translation_failure-IsEntry :
      (logger : Option SqlFailureLogger) (stage sql : Text) (e : Failure) (log : Log)
      → IsOn logger
      → IsEntry stage sql e log (log_translation_failure writable logger stage sql e log)
  unfolding log_translation_failure translation_entry
  log_translation_failure-IsEntry none stage sql e log on = elim on [ ]
  log_translation_failure-IsEntry (some l) stage sql e log (on, p, q) =
      let entry = translation_entry stage sql e in
      (
        l.translate_log_path,
        entry,
        rw on (write-appends l.translate_log_path entry log p),
        refl,
        refl,
        refl,
      )

  log_execution_failure-IsEntry :
      (logger : Option SqlFailureLogger) (stage sql translated : Text) (e : Failure) (log : Log)
      → IsOn logger
      → IsEntry stage sql e log (log_execution_failure writable logger stage sql translated e log)
  unfolding log_execution_failure execution_entry
  log_execution_failure-IsEntry none stage sql translated e log on = elim on [ ]
  log_execution_failure-IsEntry (some l) stage sql translated e log (on, p, q) =
      let entry = execution_entry stage sql translated e in
      (
        l.execution_log_path,
        entry,
        rw on (write-appends l.execution_log_path entry log q),
        refl,
        refl,
        refl,
      )

  module _ (f : TranslatorOptions → Text → Outcome Text) (logger : Option SqlFailureLogger)
      (on : IsOn logger) {S : Type 0} where
    after_base-IsLogged :
        {A : Type 0} (stage sql translated : Text) (w : World S) (r : S × Outcome A)
        → IsLogged stage sql w.log (after_base f writable logger stage sql translated w r)
    unfolding after_base
    after_base-IsLogged stage sql translated w (s, ok a) = refl
    after_base-IsLogged stage sql translated w (s, err e) =
        log_execution_failure-IsEntry logger stage sql translated e w.log on
    after_base-IsLogged stage sql translated w (s, panic) = refl

    run_with-IsLogged :
        {R : Type 0} (stage : Text) (call : Call S (Text × List NamedValue) R)
        (sql translated : Text) (w : World S) (o : Outcome (List NamedValue))
        → IsGood (λ _. Unit) o
        → IsLogged stage sql w.log (run_with f writable logger stage call sql translated w o)
    unfolding run_with
    run_with-IsLogged stage call sql translated w (ok args) good =
        after_base-IsLogged stage sql translated w (call (translated, args) w.base)
    run_with-IsLogged stage call sql translated w (err e) good = elim good [ ]
    run_with-IsLogged stage call sql translated w panic good = refl

    run_translation-IsLogged :
        {R : Type 0} (stage : Text) (call : Call S (Text × List NamedValue) R) (sql : Text)
        (w : World S) (t : Translator) (o : Outcome (Translation GoValue))
        → IsLogged stage sql w.log (run_translation f writable logger stage call sql w (t, o))
    unfolding run_translation
    run_translation-IsLogged stage call sql w t (ok r) =
        run_with-IsLogged stage call sql r.sql (record w { translator = t })
          (args_from_slice r.args) (args_from_slice-IsGood r.args)
    run_translation-IsLogged stage call sql w t (err e) =
        log_translation_failure-IsEntry logger stage sql e w.log on
    run_translation-IsLogged stage call sql w t panic = refl

    run_context-IsLogged :
        {R : Type 0} (stage : Text) (call : Call S (Text × List NamedValue) R) (sql : Text)
        (args : List NamedValue) (w : World S)
        → IsLogged stage sql w.log (run_context f writable logger stage (some call) sql args w)
    unfolding run_context
    run_context-IsLogged stage call sql args w =
        let t = translate f w.translator sql (named_values_to_args args) in
        run_translation-IsLogged stage call sql w t.0 t.1

-- With LogFailedSQL, a call of ExecContext or QueryContext that fails, be it in the translation or in the target database, writes one
-- line with its stage, its statement and its error, and a call that does not fail writes none, if the driver has
-- the method and the log files can be written; the default paths of the options are enough for that.
pub exec_context-IsLogged :
    {S R : Type 0} (f : TranslatorOptions → Text → Outcome Text) (writable : Text → Bool)
    (opts : LoggingOptions) (conn : BaseConn S R) (exec query : Call S (Text × List NamedValue) R)
    (sql : Text) (args : List NamedValue) (w : World S)
    → opts.log_failed_sql ≡ true
    → ((path : Text) → writable path ≡ true)
    → conn.execer ≡ some exec
    → conn.queryer ≡ some query
    → IsLogged
        (codes "exec")
        sql
        w.log
        (exec_context f writable (new_sql_failure_logger (normalized_logging opts)) conn sql args w)
      × IsLogged (codes "query") sql w.log (
          query_context f writable
            (new_sql_failure_logger (normalized_logging opts))
            conn
            sql
            args
            w)
unfolding exec_context query_context
exec_context-IsLogged f writable opts conn exec query sql args w enabled h has_exec has_query =
    let on = new_sql_failure_logger-IsOn opts enabled in
    (
      rw has_exec (run_context-IsLogged writable h f _ on (codes "exec") exec sql args w),
      rw has_query (run_context-IsLogged writable h f _ on (codes "query") query sql args w),
    )
