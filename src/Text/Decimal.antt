-- ===== src/Text/Decimal.antt =====
-- strconv.Itoa and strconv.Atoi on 64-bit integers: base ten with a sign, and a range check.
pub mod RoundTrip
pub mod Digits
pub mod Total
use unique_dialect.Base.{
  ℕ, zero, suc, ◌+◌, ◌-◌, ◌*◌, ◌/◌, ◌%◌, ◌^◌, ◌<◌, [], ◌∷◌, true, false, ◌&&◌, ltb, leb, ◌==◌,
  if◌then◌else◌, arith,
}
use unique_dialect.Outcome.{Outcome, ok, err, invalid_number, number_out_of_range, ◌>>=◌}
use unique_dialect.Text.{Text}

-- `negsuc n` is -(n + 1).
pub data ℤ : Type 0 where
  pos : ℕ → ℤ
  negsuc : ℕ → ℤ

abbrev pub digit_of : ℕ → ℕ
digit_of d = d + 48

-- The decimal digits of a number in front of a text; each round takes the last one off.
unfoldable pub put_digits : ℕ → ℕ → Text → Text
put_digits zero n tail = tail
put_digits (suc fuel) n tail = elim (n == 0) [
  | true ↦ tail
  | false ↦ put_digits fuel (n / 10) (digit_of (n % 10) ∷ tail)
]

-- A number has no more digits than its value, save for zero.
unfoldable pub format_nat : ℕ → Text
unfolding put_digits
format_nat n = if n == 0 then digit_of 0 ∷ [] else put_digits n n []

-- strconv.Itoa.
unfoldable pub itoa : ℤ → Text
unfolding format_nat
itoa (pos n) = format_nat n
itoa (negsuc n) = b'-' ∷ format_nat (n + 1)

-- The number that decimal digits spell behind `n`; any other byte is an error, and so is a number
-- beyond 64 bits, whichever is met first.
unfoldable pub scan_digits : Text → ℕ → Outcome ℕ
scan_digits [] n = ok n
scan_digits (c ∷ s) n =
    let next = scan_digits s (n * 10 + (c - b'0')) in
    if leb b'0' c && leb c b'9'
    then (if ltb (n * 10 + (c - b'0')) (2 ^ 64) then next else err number_out_of_range)
    else err invalid_number

unfoldable pub read_digits : Text → Outcome ℕ
unfolding scan_digits
read_digits [] = err invalid_number
read_digits (c ∷ s) = scan_digits (c ∷ s) 0

abbrev pub in_range_pos : ℕ → Outcome ℤ
in_range_pos n = if ltb n (2 ^ 63) then ok (pos n) else err number_out_of_range

abbrev pub in_range_neg : ℕ → Outcome ℤ
in_range_neg zero = ok (pos 0)
in_range_neg (suc n) = if ltb n (2 ^ 63) then ok (negsuc n) else err number_out_of_range

-- strconv.Atoi.
unfoldable pub atoi : Text → Outcome ℤ
unfolding read_digits
atoi [] = err invalid_number
atoi (c ∷ s) =
    if c == b'-'
    then (do n ← read_digits s; in_range_neg n)
    else if c == b'+'
    then (do n ← read_digits s; in_range_pos n)
    else (do n ← read_digits (c ∷ s); in_range_pos n)

-- The values of Go's int on a 64-bit machine.
abbrev pub IsInt64 : ℤ → Type 0
IsInt64 (pos n) = n < 2 ^ 63
IsInt64 (negsuc n) = n < 2 ^ 63
