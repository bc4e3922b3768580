-- ===== src/Params/Values.antt =====
-- What Normalize of internal/params/params.go makes of a value.
use unique_dialect.Base.{
  ℕ, ◌<◌, Bool, true, false, Option, none, some, ◌≡◌, refl, ltb, arith, choose, choose-ind, ◌↔◌,
  if-ind,
}
use unique_dialect.Outcome.{Outcome, ok, err, panic, Returns}
use unique_dialect.Params.{
  Kind, byte_slice, composite_kind, scalar_kind, GoValue, nil, valuer, failing_valuer, nil_valuer,
  instant, pointer, bytes, raw_message, int64, int, uint, uint64, composite, unsupported, is_value,
  int64_of, convert_value, behind_pointers, normalize_kind, normalize_converted, normalize,
}
use unique_dialect.Text.Decimal.{ℤ, pos, negsuc}

abbrev pub IsInt64 : ℤ → Type 0
IsInt64 (pos n) = n < 9223372036854775808
IsInt64 (negsuc n) = n < 9223372036854775808

-- The numbers in a value are numbers of their types.
abbrev pub Fits : GoValue → Type 0
Fits (valuer v k) = Fits v
Fits (pointer v) = Fits v
Fits (int64 n) = IsInt64 n
Fits (int n) = IsInt64 n
Fits (uint u) = u < 18446744073709551616
Fits (uint64 u) = u < 18446744073709551616
Fits _ = Unit

-- A value of one of the types that database/sql/driver allows, in the bounds of its type.
abbrev pub IsDriverValue : GoValue → Type 0
IsDriverValue v = (is_value v ≡ true) × Fits v

abbrev pub AllOk : (GoValue → Type 0) → Outcome GoValue → Type 0
AllOk P (ok v) = P v
AllOk P (err e) = Unit
AllOk P panic = Unit

abbrev AllSome : (GoValue → Type 0) → Option GoValue → Type 0
AllSome P (some v) = P v
AllSome P none = Unit

int64_of-IsInt64 : (u : ℕ) → u < 18446744073709551616 → IsInt64 (int64_of u)
int64_of-IsInt64 u h =
    if-ind IsInt64 (ltb u 9223372036854775808) _ _ (λ e. ground arith) λ e. ground arith

normalize-pointer : (v : GoValue) → normalize (pointer v) ≡ normalize_converted (pointer v)
unfolding normalize normalize_converted convert_value
normalize-pointer (instant t) = refl
normalize-pointer v = refl

convert_value-IsDriverValue : (v : GoValue) → Fits v → AllSome IsDriverValue (convert_value v)
unfolding convert_value
convert_value-IsDriverValue (valuer v k) h =
    if-ind (AllSome IsDriverValue) (is_value v) _ _ (λ e. (e, h)) λ _. tt
convert_value-IsDriverValue (pointer v) h = convert_value-IsDriverValue v h
convert_value-IsDriverValue (int64 n) h = (refl, h)
convert_value-IsDriverValue (int n) h = (refl, h)
convert_value-IsDriverValue (uint u) h = (refl, int64_of-IsInt64 u h)
convert_value-IsDriverValue (uint64 u) h =
    if-ind (AllSome IsDriverValue) (ltb u 9223372036854775808) _ _ (λ e. (refl, ground arith))
      λ _. tt
convert_value-IsDriverValue (failing_valuer k) h = tt
convert_value-IsDriverValue (composite j) h = tt
convert_value-IsDriverValue unsupported h = tt
convert_value-IsDriverValue _ h = (refl, tt)

normalize_kind-IsDriverValue : (k : Option Kind) → AllOk IsDriverValue (normalize_kind k)
unfolding normalize_kind
normalize_kind-IsDriverValue none = (refl, tt)
normalize_kind-IsDriverValue (some (byte_slice b)) = (refl, tt)
normalize_kind-IsDriverValue (some (composite_kind (some j))) = (refl, tt)
normalize_kind-IsDriverValue (some (composite_kind none)) = tt
normalize_kind-IsDriverValue (some scalar_kind) = tt

normalize_converted-IsDriverValue :
    (v : GoValue) → Fits v → AllOk IsDriverValue (normalize_converted v)
unfolding normalize_converted
normalize_converted-IsDriverValue v h = go (convert_value v) (convert_value-IsDriverValue v h)
  where
    go :
        (o : Option GoValue)
        → AllSome IsDriverValue o
        → AllOk IsDriverValue (choose o (normalize_kind (behind_pointers v)) ok)
    go none _ = normalize_kind-IsDriverValue (behind_pointers v)
    go (some w) k = k

normalize-IsDriverValue : (v : GoValue) → Fits v → AllOk IsDriverValue (normalize v)
unfolding normalize
normalize-IsDriverValue nil h = (refl, tt)
normalize-IsDriverValue (valuer v k) h = normalize-IsDriverValue v h
normalize-IsDriverValue (failing_valuer k) h = tt
normalize-IsDriverValue nil_valuer h = tt
normalize-IsDriverValue (instant t) h = (refl, tt)
normalize-IsDriverValue (pointer v) h =
    rw (normalize-pointer v) (normalize_converted-IsDriverValue (pointer v) h)
normalize-IsDriverValue (bytes b) h = (refl, tt)
normalize-IsDriverValue (raw_message b) h = (refl, tt)
normalize-IsDriverValue v h = normalize_converted-IsDriverValue v h

-- The values that Normalize takes itself, before it asks the converter, in a way of its own.
abbrev pub is_special : GoValue → Bool
is_special nil_valuer = true
is_special (raw_message b) = true
is_special _ = false

-- A nil pointer with a Value method of its target stands behind the Value methods.
abbrev pub ends_in_nil_valuer : GoValue → Bool
ends_in_nil_valuer (valuer v k) = ends_in_nil_valuer v
ends_in_nil_valuer nil_valuer = true
ends_in_nil_valuer _ = false

normalize_kind-Returns : (k : Option Kind) → Returns (normalize_kind k)
unfolding normalize_kind
normalize_kind-Returns none = tt
normalize_kind-Returns (some (byte_slice b)) = tt
normalize_kind-Returns (some (composite_kind (some j))) = tt
normalize_kind-Returns (some (composite_kind none)) = tt
normalize_kind-Returns (some scalar_kind) = tt

normalize_converted-Returns : (v : GoValue) → Returns (normalize_converted v)
unfolding normalize_converted
normalize_converted-Returns v =
    choose-ind Returns (convert_value v) _ ok (normalize_kind-Returns (behind_pointers v)) λ a _. tt

normalize-Returns_iff : (v : GoValue) → Returns (normalize v) ↔ (ends_in_nil_valuer v ≡ false)
unfolding normalize
normalize-Returns_iff nil = (λ _. refl, λ _. tt)
normalize-Returns_iff (valuer v k) = normalize-Returns_iff v
normalize-Returns_iff (failing_valuer k) = (λ _. refl, λ _. tt)
normalize-Returns_iff nil_valuer = (λ (h : ⊥). elim h [ ], λ e. cc)
normalize-Returns_iff (instant t) = (λ _. refl, λ _. tt)
normalize-Returns_iff (pointer v) =
    (λ _. refl, λ _. rw (normalize-pointer v) (normalize_converted-Returns (pointer v)))
normalize-Returns_iff (bytes b) = (λ _. refl, λ _. tt)
normalize-Returns_iff (raw_message b) = (λ _. refl, λ _. tt)
normalize-Returns_iff v = (λ _. refl, λ _. normalize_converted-Returns v)

-- Normalize panics exactly on the nil pointers whose Value method cannot take one, and on the values whose
-- Value methods lead to one. What it returns without an error is of a type that database/sql/driver
-- allows, and an integer in it is an int64, whatever type of integer it was given, if the numbers
-- of the value are numbers of their types.
pub normalize-outcome :
    (v : GoValue)
    → Fits v
    → AllOk IsDriverValue (normalize v) × (Returns (normalize v) ↔ (ends_in_nil_valuer v ≡ false))
normalize-outcome v h = (normalize-IsDriverValue v h, normalize-Returns_iff v)
