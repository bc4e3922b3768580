-- ===== src/Text/Decimal/Total.antt =====
-- strconv.Atoi gives a number or an error.
use unique_dialect.Base.{ℕ, zero, suc, ◌+◌, ◌-◌, ◌*◌, ◌^◌, ◌&&◌, [], ◌∷◌, leb, ltb, ◌==◌, if-ind}
use unique_dialect.Outcome.{Returns, >>=-Returns}
use unique_dialect.Text.Decimal.{scan_digits, read_digits, in_range_pos, in_range_neg, atoi}
use unique_dialect.Text.{Text}

scan_digits-Returns : (s : Text) (n : ℕ) → Returns (scan_digits s n)
unfolding scan_digits
scan_digits-Returns [] n = tt
scan_digits-Returns (c ∷ s) n =
    let next = scan_digits-Returns s (n * 10 + (c - b'0')) in
    if-ind Returns (leb b'0' c && leb c b'9') _ _
      (λ _. if-ind Returns (ltb (n * 10 + (c - b'0')) (2 ^ 64)) _ _ (λ _. next) (λ _. tt)) (λ _. tt)

read_digits-Returns : (s : Text) → Returns (read_digits s)
unfolding read_digits
read_digits-Returns [] = tt
read_digits-Returns (c ∷ s) = scan_digits-Returns (c ∷ s) 0

in_range_pos-Returns : (n : ℕ) → Returns (in_range_pos n)
in_range_pos-Returns n = if-ind Returns (ltb n (2 ^ 63)) _ _ (λ _. tt) (λ _. tt)

in_range_neg-Returns : (n : ℕ) → Returns (in_range_neg n)
in_range_neg-Returns zero = tt
in_range_neg-Returns (suc n) = if-ind Returns (ltb n (2 ^ 63)) _ _ (λ _. tt) (λ _. tt)

pub atoi-Returns : (s : Text) → Returns (atoi s)
unfolding atoi
atoi-Returns [] = tt
atoi-Returns (c ∷ s) =
    if-ind Returns (c == b'-') _ _
      (λ _. >>=-Returns (read_digits s) _ (read_digits-Returns s) λ n _. in_range_neg-Returns n)
      λ _.
        if-ind Returns (c == b'+') _ _
          (λ _. >>=-Returns (read_digits s) _ (read_digits-Returns s) λ n _. in_range_pos-Returns n)
          λ _.
            >>=-Returns (read_digits (c ∷ s)) _ (read_digits-Returns (c ∷ s))
              λ n _. in_range_pos-Returns n
