-- ===== src/Translator/Threads/Safety.antt =====
-- The steps of concurrent calls: what they keep, and that they end.
use unique_dialect.Base.{
  ℕ, zero, suc, ◌+◌, ◌≤◌, ◌<◌, List, [], ◌∷◌, Option, none, some, ◌≡◌, refl, sym, ap, ◌∙◌, arith,
  choose, All, length, ◌*◌,
}
use unique_dialect.Outcome.{Outcome, ok, err, panic}
use unique_dialect.Text.{Text}
use unique_dialect.Translator.{
  TranslatorOptions, Translator, Translation, cache_key, lookup, count_hit, store,
}
use unique_dialect.Translator.Memo.{IsSound, lookup-IsSound, with_args, successes, answered}
use unique_dialect.Translator.Threads.{
  Phase, started, hit, missed, translated, finished, Call, at, begin, after_translation, advance,
  distance, remaining, Step, here, there, Steps, stay, more,
}

module _ {A : Type 0} where
  abbrev counted : Phase A → ℕ
  counted started = 0
  counted (hit v) = 0
  counted missed = 0
  counted (translated v) = 0
  counted (finished o) = successes o

  -- The calls that came back with a translation.
  abbrev pub answers : List (Call A) → ℕ
  answers [] = 0
  answers (c ∷ cs) = counted c.phase + answers cs

  abbrev pub begin_all : List (Text × List A) → List (Call A)
  begin_all [] = []
  begin_all ((sql, args) ∷ requests) = begin sql args ∷ begin_all requests

  begin_all-answers : (rs : List (Text × List A)) → answers (begin_all rs) ≡ 0
  begin_all-answers [] = refl
  begin_all-answers (r ∷ rs) = omega (arith, begin_all-answers rs)

  begin_all-remaining : (rs : List (Text × List A)) → remaining (begin_all rs) ≡ 3 * length rs
  begin_all-remaining [] = refl
  begin_all-remaining (r ∷ rs) = omega (arith, begin_all-remaining rs)

module _ {A : Type 0} (f : TranslatorOptions → Text → Outcome Text) where
  -- What a call knows of the translation of its text.
  abbrev pub Knows : TranslatorOptions → Call A → Phase A → Type 0
  Knows opts c started = Unit
  Knows opts c (hit v) = f opts c.sql ≡ ok v
  Knows opts c missed = Unit
  Knows opts c (translated v) = f opts c.sql ≡ ok v
  Knows opts c (finished o) = o ≡ with_args c.args (f opts c.sql)

  abbrev pub CallKnows : TranslatorOptions → Call A → Type 0
  CallKnows opts c = Knows opts c c.phase

  -- What a step of a call does.
  abbrev Advanced : Translator → Call A → Phase A → Translator × Call A → Type 0
  Advanced t c p (t', c') =
      (t'.opts ≡ t.opts)
      × IsSound f t.opts t'.cache
      × CallKnows t.opts c'
      × (answered t' + counted p ≡ answered t + counted c'.phase)
      × (0 < distance p → distance c'.phase < distance p)

  read-Advanced :
      (t : Translator) (c : Call A) (o : Option Text)
      → lookup (cache_key t.opts c.sql) t.cache ≡ o
      → IsSound f t.opts t.cache
      → Advanced t c started (t, at c (choose o missed λ v. hit v))
  read-Advanced t c none e s = (refl, s, tt, omega arith, λ h. omega arith)
  read-Advanced t c (some v) e s =
      (refl, s, lookup-IsSound f t.opts t.cache c.sql v s e, omega arith, λ h. omega arith)

  translation-Advanced :
      (t : Translator) (c : Call A) (o : Outcome Text)
      → f t.opts c.sql ≡ o
      → IsSound f t.opts t.cache
      → Advanced t c missed (t, at c (after_translation o))
  translation-Advanced t c (ok v) e s = (refl, s, e, omega arith, λ h. omega arith)
  translation-Advanced t c (err x) e s =
      (refl, s, ap (with_args c.args) (sym e), omega arith, λ h. omega arith)
  translation-Advanced t c panic e s =
      (refl, s, ap (with_args c.args) (sym e), omega arith, λ h. omega arith)

  advance-Advanced :
      (t : Translator) (c : Call A) (p : Phase A)
      → p ≡ c.phase
      → IsSound f t.opts t.cache
      → Knows t.opts c p
      → Advanced t c p (advance f t c p)
  unfolding advance count_hit store
  advance-Advanced t c started at_phase s k = read-Advanced t c _ refl s
  advance-Advanced t c (hit v) at_phase s k =
      (refl, s, ap (with_args c.args) (sym k), omega arith, λ h. omega arith)
  advance-Advanced t c missed at_phase s k = translation-Advanced t c _ refl s
  advance-Advanced t c (translated v) at_phase s k =
      (refl, ((c.sql, refl, k), s), ap (with_args c.args) (sym k), omega arith, λ h. omega arith)
  advance-Advanced t c (finished o) at_phase s k =
      (refl, s, rw (sym at_phase) k, rw (sym at_phase) refl, λ h. absurd (omega arith))

  -- What the system keeps while its calls run.
  abbrev pub Kept : Translator → List (Call A) → Translator → List (Call A) → Type 0
  Kept t cs t' cs' =
      (t'.opts ≡ t.opts)
      × IsSound f t.opts t'.cache
      × All (CallKnows t.opts) cs'
      × (answered t' + answers cs ≡ answered t + answers cs')

  Step-Kept :
      (t : Translator) (cs : List (Call A)) (t' : Translator) (cs' : List (Call A))
      → IsSound f t.opts t.cache
      → All (CallKnows t.opts) cs
      → Step f t cs t' cs'
      → Kept t cs t' cs' × (remaining cs' < remaining cs)
  Step-Kept t [] t' cs' s ks step = elim step [ ]
  Step-Kept t (c ∷ cs) _ _ s (k, ks) (here running) =
      let (o, s', k', n, d) = advance-Advanced t c c.phase refl s k in
      let less = d running in ((o, s', (k', ks), omega arith), omega arith)
  Step-Kept t (c ∷ cs) t' (_ ∷ cs') s (k, ks) (there step) =
      let ((o, s', ks', n), d) = Step-Kept t cs t' cs' s ks step in
      ((o, s', (k, ks'), omega arith), omega arith)

  Steps-Kept :
      (opts : TranslatorOptions) (n : ℕ) (t : Translator) (cs : List (Call A)) (t' : Translator)
      (cs' : List (Call A))
      → t.opts ≡ opts
      → IsSound f opts t.cache
      → All (CallKnows opts) cs
      → Steps f n t cs t' cs'
      → (t'.opts ≡ opts)
        × IsSound f opts t'.cache
        × All (CallKnows opts) cs'
        × (answered t' + answers cs ≡ answered t + answers cs')
        × (n + remaining cs' ≤ remaining cs)
  Steps-Kept opts zero t cs t' cs' same s ks stay = (same, s, ks, refl, omega arith)
  Steps-Kept opts (suc n) t cs t' cs' same s ks (more {t' = u} {cs' = us} step steps) =
      let ((o, s1, ks1, n1), d) = Step-Kept t cs u us (rw same s) (rw same ks) step in
      let (o2, s2, ks2, n2, d2) =
        Steps-Kept opts n u us t' cs' (o ∙ same) (rw (sym same) s1) (rw (sym same) ks1) steps in
      (o2, s2, ks2, omega arith, omega arith)

  -- Every call that has come back has the result of the translation of its text.
  abbrev pub AllAnswered : TranslatorOptions → List (Call A) → Type 0
  AllAnswered opts [] = Unit
  AllAnswered opts (c ∷ cs) =
      ((o : Outcome (Translation A)) → c.phase ≡ finished o → o ≡ with_args c.args (f opts c.sql))
      × AllAnswered opts cs

  Knows-answered :
      (opts : TranslatorOptions) (cs : List (Call A))
      → All (CallKnows opts) cs
      → AllAnswered opts cs
  Knows-answered opts [] ks = tt
  Knows-answered opts (c ∷ cs) (k, ks) = (λ o e. known c.phase e k, Knows-answered opts cs ks)
    where
      known :
          {o : Outcome (Translation A)} (p : Phase A)
          → p ≡ finished o
          → Knows opts c p
          → o ≡ with_args c.args (f opts c.sql)
      known started e k = cc
      known (hit v) e k = cc
      known missed e k = cc
      known (translated v) e k = cc
      known (finished o') e k = cc

  begin_all-Knows :
      (opts : TranslatorOptions) (rs : List (Text × List A)) → All (CallKnows opts) (begin_all rs)
  begin_all-Knows opts [] = tt
  begin_all-Knows opts (r ∷ rs) = (tt, begin_all-Knows opts rs)

  -- In every order of the steps of any number of calls, begun on a translator whose cache has only
  -- translations of their texts: that stays so, each call that has come back returned what the
  -- translation of its text gives, with its own arguments, hits and misses together have grown by the
  -- number of translations that came back, and three steps for each call are the most there can be.
  pub interleaved :
      (n : ℕ) (t : Translator) (requests : List (Text × List A)) (t' : Translator)
      (cs : List (Call A))
      → IsSound f t.opts t.cache
      → Steps f n t (begin_all requests) t' cs
      → IsSound f t'.opts t'.cache
        × AllAnswered t'.opts cs
        × (answered t' ≡ answered t + answers cs)
        × (n + remaining cs ≤ 3 * length requests)
  interleaved n t rs t' cs s steps =
      let (o, s', ks, m, d) =
        Steps-Kept t.opts n t (begin_all rs) t' cs refl s (begin_all-Knows t.opts rs) steps in
      (
        rw o s',
        rw o (Knows-answered t.opts cs ks),
        omega (arith, begin_all-answers rs),
        omega (arith, begin_all-remaining rs),
      )
