-- ===== src/Text/Decimal/Digits.antt =====
-- A decimal print is made of digits, and of at least one.
use unique_dialect.Base.{
  ℕ, zero, suc, ◌/◌, ◌%◌, ◌<◌, ◌≤◌, [], ◌∷◌, arith, All, ◌==◌, Bool-cases, inl, inr, if-ind, length,
}
use unique_dialect.Text.Decimal.RoundTrip.{put_digits-round, format_nat-DigitFirst, DigitFirst}
use unique_dialect.Text.Decimal.{digit_of, put_digits, format_nat}
use unique_dialect.Text.{Text}

abbrev pub IsDigit : ℕ → Type 0
IsDigit c = (b'0' ≤ c) × (c ≤ b'9')

put_digits-IsDigit :
    (fuel n : ℕ) (tail : Text) → All IsDigit tail → All IsDigit (put_digits fuel n tail)
put_digits-IsDigit zero n tail h = unfold put_digits in h
put_digits-IsDigit (suc fuel) n tail h =
    rw (put_digits-round fuel n tail) (elim (Bool-cases (n == 0)) [
      | inl e ↦ rw e h
      | inr e ↦ rw e (
          put_digits-IsDigit fuel (n / 10) (digit_of (n % 10) ∷ tail)
            ((omega arith, omega arith), h))
    ])

pub format_nat-IsDigit : (n : ℕ) → All IsDigit (format_nat n)
unfolding format_nat
format_nat-IsDigit n =
    if-ind (All IsDigit) (n == 0) _ _ (λ _. ((omega arith, omega arith), tt))
      (λ _. put_digits-IsDigit n n [] tt)

pub format_nat-length : (n : ℕ) → 0 < length (format_nat n)
format_nat-length n = not_empty (format_nat n) (format_nat-DigitFirst n)
  where
    not_empty : (s : Text) → DigitFirst s → 0 < length s
    not_empty [] h = absurd h
    not_empty (c ∷ s) h = omega arith
