-- ===== src/Tests/Examples/Drive.antt =====
-- The theorems on parameters and on the driver at concrete inputs.
use unique_dialect.Base.{ℕ, true, false, List, [], ◌∷◌, none, some, ◌≡◌, ◌↔◌, refl, arith, length}
use unique_dialect.Dialect.{mysql, postgres}
use unique_dialect.Driver.Logged.{IsLogged, exec_context-IsLogged}
use unique_dialect.Driver.Uncached.{
  Client, done, exec, prepare, stmt_exec, forget_cache, run, seen, run-forget_cache,
}
use unique_dialect.Driver.{
  BaseStmt, BaseConn, VirtualStmt, exec_context, query_context, prepare_context, stmt_exec_context,
}
use unique_dialect.Logging.{new_sql_failure_logger}
use unique_dialect.Options.{LoggingOptions, normalized_logging}
use unique_dialect.Outcome.{Outcome, ok, err, panic, Returns, invalid_assignment, base_error}
use unique_dialect.Params.Values.{AllOk, IsDriverValue, ends_in_nil_valuer, normalize-outcome}
use unique_dialect.Params.{
  GoValue, valuer, nil_valuer, pointer, int64, uint, string, named_string, raw_message, composite,
  composite_kind, scalar_kind, normalize,
}
use unique_dialect.Text.Decimal.{negsuc}
use unique_dialect.Text.{Text, codes}
use unique_dialect.Translator.{Translator, TranslatorOptions}

-- A Valuer that returns a `uint` with the highest bit set.
abbrev big : GoValue
big = valuer (uint 18446744073709551615) (composite_kind none)

big_value : normalize big ≡ ok (int64 (negsuc 0))
unfolding normalize
big_value = refl

raw_value : normalize (raw_message (codes "{}")) ≡ ok (string (codes "{}"))
unfolding normalize codes
raw_value = refl

nil_value : normalize (valuer nil_valuer scalar_kind) ≡ panic
unfolding normalize
nil_value = refl

normalize-outcome_example :
    AllOk IsDriverValue (normalize big)
    × (Returns (normalize big) ↔ (ends_in_nil_valuer big ≡ false))
normalize-outcome_example = normalize-outcome big (omega arith)

abbrev named : GoValue
named = pointer (named_string (b'x' ∷ []))

abbrev values : List GoValue
values = big ∷ composite (some (codes "[1]")) ∷ composite none ∷ []

-- A database whose state is the list of the statements it ran; it refuses the empty statement.
abbrev keep : Text → List Text → List Text × Outcome ℕ
keep [] seen = (seen, err (base_error 7))
keep (c ∷ s) seen = ((c ∷ s) ∷ seen, ok (length seen))

abbrev statement : Text → BaseStmt (List Text) ℕ
statement sql = record {
  exec_with = none;
  exec_values = λ args s. keep sql s;
  query_with = none;
  query_values = λ args s. keep sql s;
}

abbrev connection : BaseConn (List Text) ℕ
connection = record {
  execer = some (λ p s. keep p.0 s);
  queryer = some (λ p s. keep p.0 s);
  preparer = none;
  prepare_plain = λ sql s. (s, ok (statement sql));
}

-- A translation that fails on the empty text.
abbrev mark_statement : TranslatorOptions → Text → Outcome Text
mark_statement opts [] = err invalid_assignment
mark_statement opts (c ∷ s) = ok (b'>' ∷ c ∷ s)

abbrev new_one : Translator
new_one = record {
  opts = record { input_dialect = mysql; target_dialect = postgres };
  cache = [];
  stats = record { hits = 0; misses = 0 };
}

abbrev after_prepare : Outcome (VirtualStmt (List Text) ℕ) → Client (List Text) ℕ (Outcome ℕ)
after_prepare (ok stmt) = stmt_exec stmt [] (λ o. exec (b'a' ∷ []) [] (λ o. done o))
after_prepare (err e) = done (err e)
after_prepare panic = done panic

-- The same text three times, and an error in between.
abbrev program : Client (List Text) ℕ (Outcome ℕ)
program = exec (b'a' ∷ []) [] (λ o. exec [] [] (λ o. prepare (b'a' ∷ []) (λ o. after_prepare o)))

program_runs :
    (seen (
      run mark_statement
        (λ p. true)
        none
        (λ t. t)
        connection
        program
        (record { translator = new_one; log = []; base = [] }))).2
    ≡ ok 2
unfolding exec_context prepare_context stmt_exec_context
program_runs = refl

run-forget_cache_example :
    seen (
      run mark_statement
        (λ p. true)
        none
        (λ t. t)
        connection
        program
        (record { translator = new_one; log = []; base = [] }))
    ≡ seen (
        run mark_statement
          (λ p. true)
          none
          forget_cache
          connection
          program
          (record { translator = new_one; log = []; base = [] }))
run-forget_cache_example =
    run-forget_cache mark_statement (λ p. true) none connection program new_one [] [] tt

abbrev settings : LoggingOptions
settings = record {
  level = [];
  log_failed_sql = true;
  translate_failure_log_path = [];
  execution_failure_log_path = [];
}

exec_context-IsLogged_example :
    IsLogged (codes "exec") [] [] (
      exec_context mark_statement
        (λ p. true)
        (new_sql_failure_logger (normalized_logging settings))
        connection
        []
        []
        (record { translator = new_one; log = []; base = [] }))
    × IsLogged (codes "query") [] [] (
        query_context mark_statement
          (λ p. true)
          (new_sql_failure_logger (normalized_logging settings))
          connection
          []
          []
          (record { translator = new_one; log = []; base = [] }))
exec_context-IsLogged_example =
    exec_context-IsLogged mark_statement (λ p. true) settings connection (λ p s. keep p.0 s)
      (λ p s. keep p.0 s) [] [] (record { translator = new_one; log = []; base = [] }) refl
      (λ p. refl) refl refl
