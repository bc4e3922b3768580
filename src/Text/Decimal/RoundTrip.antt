-- ===== src/Text/Decimal/RoundTrip.antt =====
-- strconv.Atoi as the inverse of strconv.Itoa.
use native.Mathlib.Numerals.{towards_suc}
use unique_dialect.Base.{
  ℕ, zero, suc, ◌+◌, ◌-◌, ◌*◌, ◌^◌, ltb, ◌/◌, ◌%◌, ◌≤◌, ◌<◌, Bool, true, false, ◌&&◌, [], ◌∷◌, ◌≡◌,
  refl, arith, leb, ◌==◌, Bool-cases, inl, inr, ◌∙◌, if-ind, if◌then◌else◌,
}
use unique_dialect.Outcome.{ok, ◌>>=◌}
use unique_dialect.Text.Decimal.{
  ℤ, pos, negsuc, digit_of, put_digits, format_nat, itoa, scan_digits, read_digits, atoi,
  in_range_pos, IsInt64,
}
use unique_dialect.Text.{Text}

-- One round of the printer.
pub put_digits-round :
    (fuel n : ℕ) (tail : Text)
    → put_digits (suc fuel) n tail
      ≡ (if n == 0 then tail else put_digits fuel (n / 10) (digit_of (n % 10) ∷ tail))
unfolding put_digits
put_digits-round fuel n tail =
    by_test (n == 0) (put_digits fuel (n / 10) (digit_of (n % 10) ∷ tail))
  where
    by_test :
        (b : Bool) (more : Text)
        → elim b [ true ↦ tail | false ↦ more ] ≡ (if b then tail else more)
    by_test true more = refl
    by_test false more = refl

-- One digit of the reader.
scan_digits-digit :
    (d : ℕ) (s : Text) (n : ℕ)
    → d < 10
    → n * 10 + d < 2 ^ 64
    → scan_digits (digit_of d ∷ s) n ≡ scan_digits s (n * 10 + d)
unfolding scan_digits
scan_digits-digit d s n h k =
    let same : digit_of d - b'0' ≡ d = omega arith in
    let is_digit : (leb b'0' (digit_of d) && leb (digit_of d) b'9') ≡ true = ground arith in
    let fits : ltb (n * 10 + d) (2 ^ 64) ≡ true = ground arith in rw (is_digit, same, fits) refl

-- The printed digits are read as their number.
scan_digits-put_digits :
    (fuel n : ℕ) (tail : Text)
    → n ≤ fuel
    → n < 2 ^ 64
    → scan_digits (put_digits fuel n tail) 0 ≡ scan_digits tail n
scan_digits-put_digits zero n tail h k =
    let none_left : n ≡ 0 = omega arith in rw none_left (unfold put_digits in refl)
scan_digits-put_digits (suc fuel) n tail h k =
    rw (put_digits-round fuel n tail) (elim (Bool-cases (n == 0)) [
      | inl e ↦ let none_left : n ≡ 0 = ground arith in rw (e, none_left) refl
      | inr e ↦
          let put_back : n / 10 * 10 + n % 10 ≡ n = omega arith in
          rw e (
            scan_digits-put_digits fuel (n / 10) (digit_of (n % 10) ∷ tail) (ground arith)
              (omega arith)
            ∙ scan_digits-digit (n % 10) tail (n / 10) (omega arith) (omega arith)
            ∙ rw put_back refl)
    ])

-- A digit comes first.
abbrev pub DigitFirst : Text → Type 0
DigitFirst [] = ⊥
DigitFirst (c ∷ s) = (b'0' ≤ c) × (c ≤ b'9')

put_digits-DigitFirst :
    (fuel n : ℕ) (tail : Text) → DigitFirst tail → DigitFirst (put_digits fuel n tail)
put_digits-DigitFirst zero n tail h = unfold put_digits in h
put_digits-DigitFirst (suc fuel) n tail h =
    rw (put_digits-round fuel n tail) (elim (Bool-cases (n == 0)) [
      | inl e ↦ rw e h
      | inr e ↦ rw e (
          put_digits-DigitFirst fuel (n / 10) (digit_of (n % 10) ∷ tail) (omega arith, omega arith))
    ])

pub format_nat-DigitFirst : (n : ℕ) → DigitFirst (format_nat n)
unfolding format_nat
format_nat-DigitFirst n =
    if-ind DigitFirst (n == 0) _ _ (λ _. (omega arith, omega arith)) (positive n)
  where
    positive : (n : ℕ) → (n == 0) ≡ false → DigitFirst (put_digits n n [])
    positive zero e = absurd (ground arith)
    positive (suc m) e =
        rw (put_digits-round m (suc m) [], e)
          (put_digits-DigitFirst m (suc m / 10) (digit_of (suc m % 10) ∷ [])
            (omega arith, omega arith))

pub read_digits-format_nat : (n : ℕ) → n < 2 ^ 64 → read_digits (format_nat n) ≡ ok n
read_digits-format_nat n h = reads (format_nat n) (format_nat-DigitFirst n) ∙ scanned
  where
    reads : (s : Text) → DigitFirst s → read_digits s ≡ scan_digits s 0
    reads [] h = absurd h
    reads (c ∷ s) h = unfold read_digits in refl

    scanned : scan_digits (format_nat n) 0 ≡ ok n
    scanned = elim (Bool-cases (n == 0)) [
      | inl e ↦
          let is_zero : n ≡ 0 = ground arith in rw is_zero (unfold format_nat scan_digits in refl)
      | inr e ↦
          unfold format_nat in
          rw e (scan_digits-put_digits n n [] (omega arith) h ∙ unfold scan_digits in refl)
    ]

atoi-unsigned : (s : Text) → DigitFirst s → atoi s ≡ (do n ← read_digits s; in_range_pos n)
unfolding atoi
atoi-unsigned [] h = absurd h
atoi-unsigned (c ∷ s) h = ground arith

-- Every integer in the range of 64 bits is read back from its decimal print, signs included.
pub atoi-itoa : (z : ℤ) → IsInt64 z → atoi (itoa z) ≡ ok z
unfolding itoa
atoi-itoa (pos n) h =
    atoi-unsigned (format_nat n) (format_nat-DigitFirst n)
    ∙ rw (read_digits-format_nat n (omega arith)) (ground arith)
atoi-itoa (negsuc n) h =
    unfold atoi in
    rw (read_digits-format_nat (n + 1) (omega arith)) (simp towards_suc (ground arith))
