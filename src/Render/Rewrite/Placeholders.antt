-- ===== src/Render/Rewrite/Placeholders.antt =====
-- The numbering of placeholders, and the way back.
use unique_dialect.Base.{
  ℕ, ◌+◌, ◌-◌, ◌<◌, true, false, [], ◌∷◌, ◌++◌, Option, none, some, ◌≡◌, ◌≢◌, ◌⊎◌, refl, ap, ◌∙◌,
  arith, ◌==◌, Bool-cases, inl, inr, All, if◌then◌else◌, length,
}
use unique_dialect.Dialect.{Dialect, mysql, postgres, sqlite, oracle, other}
use unique_dialect.Render.Regexp.{replace_func_from, span, is_digit, placeholder_match}
use unique_dialect.Render.Rewrite.{
  placeholder_mark, number_questions, replace_question_placeholders, question_placeholders,
}
use unique_dialect.Text.Decimal.Digits.{IsDigit, format_nat-IsDigit, format_nat-length}
use unique_dialect.Text.Decimal.{format_nat}
use unique_dialect.Text.{Text, codes}

abbrev pub count : ℕ → Text → ℕ
count b [] = 0
count b (c ∷ s) = (if c == b then 1 else 0) + count b s

number_questions-count :
    (sign : ℕ) (s : Text) (n : ℕ) → (number_questions sign s n).1 ≡ n + count b'?' s
unfolding number_questions
number_questions-count sign [] n = omega arith
number_questions-count sign (c ∷ s) n =
    ground (arith, number_questions-count sign s n, number_questions-count sign s (n + 1))

-- The counter moves on by the number of question marks for the dialects that number their
-- placeholders, and stays for the others, whose text stays too.
pub replace_question_placeholders-count :
    (input : Text) (to : Dialect) (n : ℕ)
    → ((placeholder_mark to ≡ none) × (replace_question_placeholders input to n ≡ (input, n)))
      ⊎ ((sign : ℕ) × (placeholder_mark to ≡ some sign)
          × ((replace_question_placeholders input to n).1 ≡ n + count b'?' input))
unfolding replace_question_placeholders
replace_question_placeholders-count input mysql n = inl (refl, refl)
replace_question_placeholders-count input sqlite n = inl (refl, refl)
replace_question_placeholders-count input (other _) n = inl (refl, refl)
replace_question_placeholders-count input postgres n =
    inr (b'$', refl, number_questions-count b'$' input n)
replace_question_placeholders-count input oracle n =
    inr (b':', refl, number_questions-count b':' input n)

-- No digit comes first.
abbrev pub NoDigitFirst : Text → Type 0
NoDigitFirst [] = Unit
NoDigitFirst (c ∷ s) = is_digit c ≡ false

-- No `$` in the text, and no digit right behind a `?`.
abbrev pub IsUnambiguous : Text → Type 0
IsUnambiguous [] = Unit
IsUnambiguous (c ∷ s) = (c ≢ b'$') × (c ≡ b'?' → NoDigitFirst s) × IsUnambiguous s

IsDigit-is_digit : (c : ℕ) → IsDigit c → is_digit c ≡ true
unfolding is_digit
IsDigit-is_digit c h = ground arith

span-digits :
    (ds rest : Text) → All IsDigit ds → NoDigitFirst rest → span is_digit (ds ++ rest) ≡ length ds
unfolding span
span-digits [] [] h f = refl
span-digits [] (c ∷ rest) h f = rw f
span-digits (d ∷ ds) rest (hd, h) f = ground (arith, IsDigit-is_digit d hd, span-digits ds rest h f)

abbrev as_question : Text → Text
as_question t = codes "?"

replace_skip :
    (ds rest : Text) (before : Option ℕ)
    → (last : Option ℕ) × (replace_func_from placeholder_match as_question
          (length ds)
          before
          (ds ++ rest)
        ≡ replace_func_from placeholder_match as_question 0 last rest)
unfolding replace_func_from
replace_skip [] rest before = (before, refl)
replace_skip (d ∷ ds) rest before = replace_skip ds rest (some d)

placeholder_match-digits :
    (ds rest : Text) (before : Option ℕ)
    → All IsDigit ds
    → 0 < length ds
    → NoDigitFirst rest
    → placeholder_match before (b'$' ∷ (ds ++ rest)) ≡ some (length ds + 1)
placeholder_match-digits ds rest before h pos f =
    unfold placeholder_match in rw (span-digits ds rest h f) (ground arith)

replace_placeholder :
    (ds rest : Text) (before : Option ℕ)
    → All IsDigit ds
    → 0 < length ds
    → NoDigitFirst rest
    → (last : Option ℕ) × (replace_func_from placeholder_match as_question 0 before
          (b'$' ∷ (ds ++ rest))
        ≡ b'?' ∷ replace_func_from placeholder_match as_question 0 last rest)
replace_placeholder ds rest before h pos f =
    let (last, e) = replace_skip ds rest (some b'$') in
    let size : length ds + 1 - 1 ≡ length ds = omega arith in
    (
      last,
      unfold replace_func_from codes in
          rw (placeholder_match-digits ds rest before h pos f) (rw size (ap (◌∷◌ b'?') e)),
    )

replace_other :
    (c : ℕ) (s : Text) (before : Option ℕ)
    → c ≢ b'$'
    → replace_func_from placeholder_match as_question 0 before (c ∷ s)
      ≡ c ∷ replace_func_from placeholder_match as_question 0 (some c) s
replace_other c s before ne = unfold replace_func_from in rw (miss ne)
  where
    miss : c ≢ b'$' → placeholder_match before (c ∷ s) ≡ none
    miss ne = unfold placeholder_match in ground arith

number_questions-NoDigitFirst :
    (s : Text) (n : ℕ) → NoDigitFirst s → NoDigitFirst (number_questions b'$' s n).0
unfolding number_questions is_digit
number_questions-NoDigitFirst [] n h = tt
number_questions-NoDigitFirst (c ∷ s) n h = ground arith

-- One character of the loop.
number_question :
    (c : ℕ) (s : Text) (n : ℕ)
    → (c == b'?') ≡ true
    → (number_questions b'$' (c ∷ s) n).0
      ≡ b'$' ∷ (format_nat (n + 1) ++ (number_questions b'$' s (n + 1)).0)
number_question c s n e = unfold number_questions in rw e

number_other :
    (c : ℕ) (s : Text) (n : ℕ)
    → (c == b'?') ≡ false
    → (number_questions b'$' (c ∷ s) n).0 ≡ c ∷ (number_questions b'$' s n).0
number_other c s n e = unfold number_questions in rw e

unnumber :
    (s : Text) (n : ℕ) (before : Option ℕ)
    → IsUnambiguous s
    → replace_func_from placeholder_match as_question 0 before (number_questions b'$' s n).0 ≡ s
unnumber [] n before h = unfold number_questions replace_func_from in refl
unnumber (c ∷ s) n before (no_mark, apart, h) = elim (Bool-cases (c == b'?')) [
  | inl e ↦
      let found : c ≡ b'?' = ground arith in
      let (last, r) =
        replace_placeholder (format_nat (n + 1)) (number_questions b'$' s (n + 1)).0 before
          (format_nat-IsDigit (n + 1)) (format_nat-length (n + 1))
          (number_questions-NoDigitFirst s (n + 1) (apart found)) in
      rw (number_question c s n e) (r ∙ cc (unnumber s (n + 1) last h))
  | inr e ↦ rw (number_other c s n e) (
      replace_other c (number_questions b'$' s n).0 before no_mark
      ∙ ap (◌∷◌ c) (unnumber s n (some c) h))
]

-- Numbering the question marks of a text for PostgreSQL, and reading the numbered placeholders as
-- question marks again, gives the text back, if it holds no `$` and no digit stands right behind
-- a question mark.
pub question_placeholders-number :
    (input : Text) (n : ℕ)
    → IsUnambiguous input
    → question_placeholders (replace_question_placeholders input postgres n).0 ≡ input
question_placeholders-number input n h =
    unfold question_placeholders replace_question_placeholders in unnumber input n none h
