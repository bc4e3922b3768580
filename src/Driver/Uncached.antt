-- ===== src/Driver/Uncached.antt =====
-- A client of the connection of sql_driver.go, with and without the translator's cache.
use unique_dialect.Base.{Bool, List, [], Option, none, some, ◌≡◌, refl, sym, ap, ◌∙◌, choose}
use unique_dialect.Driver.{
  NamedValue, named_values_to_args, args_from_slice, named_values_to_values, Call, BaseConn,
  VirtualStmt, World, after_base, run_with, run_translation, run_context, exec_context,
  query_context, prepare_translation, prepare_context, run_values, run_stmt, stmt_exec_context,
  stmt_query_context,
}
use unique_dialect.Logging.{SqlFailureLogger, Log}
use unique_dialect.Outcome.{Outcome, ok, err, panic, ◌>>=◌}
use unique_dialect.Params.{GoValue}
use unique_dialect.Text.{Text, codes}
use unique_dialect.Translator.Memo.{IsSound, translate-refines, with_args}
use unique_dialect.Translator.{Translator, TranslatorOptions, Translation, translate}

-- A program over one connection: each call is followed by what the program does with its outcome.
pub data Client (S R X : Type 0) : Type 0 where
  done : X → Client S R X
  exec query : Text → List NamedValue → (Outcome R → Client S R X) → Client S R X
  prepare : Text → (Outcome (VirtualStmt S R) → Client S R X) → Client S R X
  stmt_exec stmt_query :
      VirtualStmt S R → List NamedValue → (Outcome R → Client S R X) → Client S R X

abbrev pub forget_cache : Translator → Translator
forget_cache t = record t { cache = [] }

-- What is left of a run but for the translator.
abbrev pub seen : {S X : Type 0} → World S × X → Log × S × X
seen (w, x) = (w.log, w.base, x)

module _ (f : TranslatorOptions → Text → Outcome Text) where
  abbrev Like : Translator → Translator → Type 0
  Like t u = (t.opts ≡ u.opts) × IsSound f t.opts t.cache × IsSound f u.opts u.cache

  translate-Like :
      (t u : Translator) (sql : Text) (args : List GoValue)
      → Like t u
      → Like (translate f t sql args).0 (translate f u sql args).0
        × ((translate f t sql args).1 ≡ (translate f u sql args).1)
  translate-Like t u sql args (same, p, q) =
      let (a, b, c, _) = translate-refines f t sql args p in
      let (d, e, g, _) = translate-refines f u sql args q in
      ((b ∙ (same ∙ sym e), c, g), a ∙ (ap (λ opts. with_args args (f opts sql)) same ∙ sym d))

module _ (f : TranslatorOptions → Text → Outcome Text) (writable : Text → Bool)
    (logger : Option SqlFailureLogger) {S : Type 0} where
  -- What a program ends with, and the log and the database behind it; `g` runs before each call.
  abbrev pub run :
      {R X : Type 0}
      → (Translator → Translator)
      → BaseConn S R
      → Client S R X
      → World S
      → World S × X
  run g conn (done x) w = (w, x)
  run g conn (exec sql args k) w =
      let r =
        exec_context f writable logger conn sql args (record w { translator = g w.translator }) in
      run g conn (k r.1) r.0
  run g conn (query sql args k) w =
      let r =
        query_context f writable logger conn sql args (record w { translator = g w.translator }) in
      run g conn (k r.1) r.0
  run g conn (prepare sql k) w =
      let r =
        prepare_context f writable logger conn sql (record w { translator = g w.translator }) in
      run g conn (k r.1) r.0
  run g conn (stmt_exec s args k) w =
      let r =
        stmt_exec_context f writable logger s args (record w { translator = g w.translator }) in
      run g conn (k r.1) r.0
  run g conn (stmt_query s args k) w =
      let r =
        stmt_query_context f writable logger s args (record w { translator = g w.translator }) in
      run g conn (k r.1) r.0

  -- Two calls end alike, but for the caches.
  abbrev Answer : {A : Type 0} → World S × Outcome A → World S × Outcome A → Type 0
  Answer (v, o) (w, p) =
      Like f v.translator w.translator × (v.log ≡ w.log) × (v.base ≡ w.base) × (o ≡ p)

  abbrev at : Translator → Log → S → World S
  at t log s = record { translator = t; log = log; base = s }

  after_base-Answer :
      {A : Type 0} (stage sql translated : Text) (t u : Translator) (log : Log) (s : S)
      (r : S × Outcome A)
      → Like f t u
      → Answer
          (after_base f writable logger stage sql translated (at t log s) r)
          (after_base f writable logger stage sql translated (at u log s) r)
  unfolding after_base
  after_base-Answer stage sql translated t u log s (s', ok a) h = (h, refl, refl, refl)
  after_base-Answer stage sql translated t u log s (s', err e) h = (h, refl, refl, refl)
  after_base-Answer stage sql translated t u log s (s', panic) h = (h, refl, refl, refl)

  run_with-Answer :
      {R : Type 0} (stage : Text) (call : Call S (Text × List NamedValue) R) (sql translated : Text)
      (t u : Translator) (log : Log) (s : S) (o : Outcome (List NamedValue))
      → Like f t u
      → Answer
          (run_with f writable logger stage call sql translated (at t log s) o)
          (run_with f writable logger stage call sql translated (at u log s) o)
  unfolding run_with
  run_with-Answer stage call sql translated t u log s (ok args) h =
      after_base-Answer stage sql translated t u log s (call (translated, args) s) h
  run_with-Answer stage call sql translated t u log s (err e) h = (h, refl, refl, refl)
  run_with-Answer stage call sql translated t u log s panic h = (h, refl, refl, refl)

  run_translation-Answer :
      {R : Type 0} (stage : Text) (call : Call S (Text × List NamedValue) R) (sql : Text)
      (v w : Translator) (t u : Translator) (log : Log) (s : S) (o : Outcome (Translation GoValue))
      → Like f t u
      → Answer
          (run_translation f writable logger stage call sql (at v log s) (t, o))
          (run_translation f writable logger stage call sql (at w log s) (u, o))
  unfolding run_translation
  run_translation-Answer stage call sql v w t u log s (ok r) h =
      run_with-Answer stage call sql r.sql t u log s (args_from_slice r.args) h
  run_translation-Answer stage call sql v w t u log s (err e) h = (h, refl, refl, refl)
  run_translation-Answer stage call sql v w t u log s panic h = (h, refl, refl, refl)

  run_context-Answer :
      {R : Type 0} (stage : Text) (call : Option (Call S (Text × List NamedValue) R)) (sql : Text)
      (args : List NamedValue) (t u : Translator) (log : Log) (s : S)
      → Like f t u
      → Answer
          (run_context f writable logger stage call sql args (at t log s))
          (run_context f writable logger stage call sql args (at u log s))
  unfolding run_context
  run_context-Answer stage none sql args t u log s h = (h, refl, refl, refl)
  run_context-Answer stage (some call) sql args t u log s h =
      let (like, same) = translate-Like f t u sql (named_values_to_args args) h in
      rw same (
        run_translation-Answer stage call sql t u _ _ log s
          (translate f u sql (named_values_to_args args)).1 like)

  prepare_translation-Answer :
      {R : Type 0} (conn : BaseConn S R) (sql : Text) (v w t u : Translator) (log : Log) (s : S)
      (o : Outcome (Translation GoValue))
      → Like f t u
      → Answer
          (prepare_translation f writable logger conn sql (at v log s) (t, o))
          (prepare_translation f writable logger conn sql (at w log s) (u, o))
  unfolding prepare_translation
  prepare_translation-Answer conn sql v w t u log s (ok r) h =
      let (like, a, b, c) =
        after_base-Answer (codes "prepare") sql r.sql t u log s
          (choose conn.preparer conn.prepare_plain (λ call. call) r.sql s) h in
      (
        like,
        a,
        b,
        ap
            (λ o.
              o >>= λ stmt. ok (record { stmt = stmt; original_sql = sql; translated_sql = r.sql }))
            c,
      )
  prepare_translation-Answer conn sql v w t u log s (err e) h = (h, refl, refl, refl)
  prepare_translation-Answer conn sql v w t u log s panic h = (h, refl, refl, refl)

  prepare_context-Answer :
      {R : Type 0} (conn : BaseConn S R) (sql : Text) (t u : Translator) (log : Log) (s : S)
      → Like f t u
      → Answer
          (prepare_context f writable logger conn sql (at t log s))
          (prepare_context f writable logger conn sql (at u log s))
  unfolding prepare_context
  prepare_context-Answer conn sql t u log s h =
      let (like, same) = translate-Like f t u sql [] h in
      rw same (prepare_translation-Answer conn sql t u _ _ log s (translate f u sql []).1 like)

  run_values-Answer :
      {R : Type 0} (stage : Text) (call : Call S (List GoValue) R) (stmt : VirtualStmt S R)
      (t u : Translator) (log : Log) (s : S) (o : Outcome (List GoValue))
      → Like f t u
      → Answer
          (run_values f writable logger stage call stmt (at t log s) o)
          (run_values f writable logger stage call stmt (at u log s) o)
  unfolding run_values
  run_values-Answer stage call stmt t u log s (ok vs) h =
      after_base-Answer stage stmt.original_sql stmt.translated_sql t u log s (call vs s) h
  run_values-Answer stage call stmt t u log s (err e) h = (h, refl, refl, refl)
  run_values-Answer stage call stmt t u log s panic h = (h, refl, refl, refl)

  run_stmt-Answer :
      {R : Type 0} (stage : Text) (call : Option (Call S (List NamedValue) R))
      (plain : Call S (List GoValue) R) (stmt : VirtualStmt S R) (args : List NamedValue)
      (t u : Translator) (log : Log) (s : S)
      → Like f t u
      → Answer
          (run_stmt f writable logger stage call plain stmt args (at t log s))
          (run_stmt f writable logger stage call plain stmt args (at u log s))
  unfolding run_stmt
  run_stmt-Answer stage none plain stmt args t u log s h =
      run_values-Answer stage plain stmt t u log s (named_values_to_values args) h
  run_stmt-Answer stage (some call) plain stmt args t u log s h =
      after_base-Answer stage stmt.original_sql stmt.translated_sql t u log s (call args s) h

  run-Answer :
      {R X A : Type 0} (conn : BaseConn S R) (k : Outcome A → Client S R X)
      (x y : World S × Outcome A)
      → ((o : Outcome A) (t u : Translator) (log : Log) (s : S)
          → Like f t u
          → seen (run (λ t. t) conn (k o) (at t log s))
            ≡ seen (run forget_cache conn (k o) (at u log s)))
      → Answer x y
      → seen (run (λ t. t) conn (k x.1) x.0) ≡ seen (run forget_cache conn (k y.1) y.0)
  run-Answer conn k (v, o) (w, p) ih (like, a, b, c) = rw (a, b, c) (ih p _ _ w.log w.base like)

  run-Like :
      {R X : Type 0} (conn : BaseConn S R) (c : Client S R X) (t u : Translator) (log : Log) (s : S)
      → Like f t u
      → seen (run (λ t. t) conn c (at t log s)) ≡ seen (run forget_cache conn c (at u log s))
  unfolding exec_context query_context stmt_exec_context stmt_query_context
  run-Like conn (done x) t u log s h = refl
  run-Like conn (exec sql args k) t u log s (same, p, q) =
      run-Answer conn k _ _ (λ o. run-Like conn (k o))
        (run_context-Answer (codes "exec") conn.execer sql args t (forget_cache u) log s
          (same, p, tt))
  run-Like conn (query sql args k) t u log s (same, p, q) =
      run-Answer conn k _ _ (λ o. run-Like conn (k o))
        (run_context-Answer (codes "query") conn.queryer sql args t (forget_cache u) log s
          (same, p, tt))
  run-Like conn (prepare sql k) t u log s (same, p, q) =
      run-Answer conn k _ _ (λ o. run-Like conn (k o))
        (prepare_context-Answer conn sql t (forget_cache u) log s (same, p, tt))
  run-Like conn (stmt_exec stmt args k) t u log s (same, p, q) =
      run-Answer conn k _ _ (λ o. run-Like conn (k o))
        (run_stmt-Answer (codes "stmt_exec") stmt.stmt.exec_with stmt.stmt.exec_values stmt args t
          (forget_cache u) log s (same, p, tt))
  run-Like conn (stmt_query stmt args k) t u log s (same, p, q) =
      run-Answer conn k _ _ (λ o. run-Like conn (k o))
        (run_stmt-Answer (codes "stmt_query") stmt.stmt.query_with stmt.stmt.query_values stmt args
          t (forget_cache u) log s (same, p, tt))

  -- A program over the connection ends with the same result, the same log files and the same
  -- database as one before each of whose calls the cache is emptied, if at the start each entry of the cache is the translation
  -- of its text: the cache never shows, whatever the program does with the outcomes of its calls and of those of its
  -- prepared statements.
  pub run-forget_cache :
      {R X : Type 0} (conn : BaseConn S R) (c : Client S R X) (t : Translator) (log : Log) (s : S)
      → IsSound f t.opts t.cache
      → seen (run (λ t. t) conn c (at t log s)) ≡ seen (run forget_cache conn c (at t log s))
  run-forget_cache conn c t log s sound = run-Like conn c t t log s (refl, sound, sound)
