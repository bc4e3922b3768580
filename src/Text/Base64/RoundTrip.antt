-- ===== src/Text/Base64/RoundTrip.antt =====
-- Decoding in base 64 takes an encoding back.
use unique_dialect.Base.{
  ℕ, ◌+◌, ◌*◌, ◌/◌, ◌%◌, ◌<◌, false, ◌||◌, List, [], ◌∷◌, some, ◌≡◌, refl, ap, map, arith, All,
  ◌==◌,
}
use unique_dialect.Text.Base64.{
  symbol, symbol_value, encode_to_string, without_line_ends, symbol_values, grouped, decode_string,
}
use unique_dialect.Text.{Text}

symbol_value-symbol : (n : ℕ) → n < 64 → symbol_value (symbol n) ≡ some n
unfolding symbol_value symbol
symbol_value-symbol n h = ground arith

symbol-ends_no_line : (n : ℕ) → n < 64 → (symbol n == 10 || symbol n == 13) ≡ false
unfolding symbol
symbol-ends_no_line n h = ground arith

abbrev IsSextet : ℕ → Type 0
IsSextet n = n < 64

abbrev pub IsByte : ℕ → Type 0
IsByte n = n < 256

-- The values whose symbols an encoding is.
abbrev sextets : Text → List ℕ
sextets [] = []
sextets (a ∷ []) = (a / 4) ∷ (a % 4 * 16) ∷ []
sextets (a ∷ b ∷ []) = (a / 4) ∷ (a % 4 * 16 + b / 16) ∷ (b % 16 * 4) ∷ []
sextets (a ∷ b ∷ c ∷ s) =
    (a / 4) ∷ (a % 4 * 16 + b / 16) ∷ (b % 16 * 4 + c / 64) ∷ (c % 64) ∷ sextets s

encode_to_string-sextets : (s : Text) → encode_to_string s ≡ map symbol (sextets s)
unfolding encode_to_string
encode_to_string-sextets [] = refl
encode_to_string-sextets (a ∷ []) = refl
encode_to_string-sextets (a ∷ b ∷ []) = refl
encode_to_string-sextets (a ∷ b ∷ c ∷ s) = rw (encode_to_string-sextets s) refl

sextets-All : (s : Text) → All IsByte s → All IsSextet (sextets s)
sextets-All [] h = tt
sextets-All (a ∷ []) (ha, h) = (omega arith, (omega arith, tt))
sextets-All (a ∷ b ∷ []) (ha, (hb, h)) = (omega arith, (omega arith, (omega arith, tt)))
sextets-All (a ∷ b ∷ c ∷ s) (ha, (hb, (hc, h))) =
    (omega arith, (omega arith, (omega arith, (omega arith, sextets-All s h))))

grouped-sextets : (s : Text) → All IsByte s → grouped (sextets s) ≡ some s
unfolding grouped
grouped-sextets [] h = refl
grouped-sextets (a ∷ []) (ha, h) = ap (λ x. some (x ∷ [])) (omega arith)
grouped-sextets (a ∷ b ∷ []) (ha, (hb, h)) =
    let first : (a / 4) * 4 + (a % 4 * 16 + b / 16) / 16 ≡ a = omega arith in
    let second : (a % 4 * 16 + b / 16) % 16 * 16 + (b % 16 * 4) / 4 ≡ b = omega arith in
    rw (first, second) refl
grouped-sextets (a ∷ b ∷ c ∷ s) (ha, (hb, (hc, h))) =
    let first : (a / 4) * 4 + (a % 4 * 16 + b / 16) / 16 ≡ a = omega arith in
    let second : (a % 4 * 16 + b / 16) % 16 * 16 + (b % 16 * 4 + c / 64) / 4 ≡ b = omega arith in
    let third : (b % 16 * 4 + c / 64) % 4 * 64 + c % 64 ≡ c = omega arith in
    rw (grouped-sextets s h, first, second, third) refl

without_line_ends-symbols :
    (ns : List ℕ) → All IsSextet ns → without_line_ends (map symbol ns) ≡ map symbol ns
unfolding without_line_ends
without_line_ends-symbols [] h = refl
without_line_ends-symbols (n ∷ ns) (hn, h) =
    rw (symbol-ends_no_line n hn, without_line_ends-symbols ns h) refl

symbol_values-symbols : (ns : List ℕ) → All IsSextet ns → symbol_values (map symbol ns) ≡ some ns
unfolding symbol_values
symbol_values-symbols [] h = refl
symbol_values-symbols (n ∷ ns) (hn, h) =
    rw (symbol_value-symbol n hn, symbol_values-symbols ns h) refl

pub decode_string-encode_to_string :
    (s : Text) → All IsByte s → decode_string (encode_to_string s) ≡ some s
unfolding decode_string
decode_string-encode_to_string s h =
    let low = sextets-All s h in
    rw
      (
        encode_to_string-sextets s,
        without_line_ends-symbols (sextets s) low,
        symbol_values-symbols (sextets s) low,
      )
      (grouped-sextets s h)
