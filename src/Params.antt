-- ===== src/Params.antt =====
-- internal/params/params.go, and of the standard library the converter that it calls.
pub mod Values
use unique_dialect.Base.{
  ℕ, ◌-◌, Bool, true, false, List, [], ◌∷◌, Option, none, some, ltb, if◌then◌else◌, choose,
}
use unique_dialect.Outcome.{
  Outcome, ok, err, panic, ◌>>=◌, failing_parameter, unsupported_parameter, marshal_parameter,
}
use unique_dialect.Text.Decimal.{ℤ, pos, negsuc}
use unique_dialect.Text.{Text}

-- The kinds that Normalize tells apart once the converter has refused a value.
pub data Kind : Type 0 where
  byte_slice : Text → Kind
  -- A map, struct, slice or array, with what json.Marshal makes of it.
  composite_kind : Option Text → Kind
  scalar_kind : Kind

-- A value of type `any`, by the types that the code asks for. A driver.Valuer stands with
-- what its Value method returns and with its kind behind all pointers.
pub data GoValue : Type 0 where
  nil : GoValue
  valuer : GoValue → Kind → GoValue
  failing_valuer : Kind → GoValue
  -- A nil pointer to a type whose Value method has no pointer receiver.
  nil_valuer : GoValue
  -- A time.Time stands with its text under json.Marshal.
  instant : Text → GoValue
  pointer : GoValue → GoValue
  nil_pointer : GoValue
  bytes named_bytes raw_message : Text → GoValue
  -- An int64, and a value of another type of a signed kind.
  int64 int : ℤ → GoValue
  -- A value of the kind uint or a smaller one, and one of the kind uint64.
  uint uint64 : ℕ → GoValue
  -- A float stands by the bits of the float64 that equals it.
  float64 float32 : ℕ → GoValue
  boolean named_boolean : Bool → GoValue
  string named_string : Text → GoValue
  composite : Option Text → GoValue
  -- A value with the methods Decompose and Compose of a decimal number.
  decimal : Text → GoValue
  -- A channel, function, complex number and the like.
  unsupported : GoValue

-- driver.IsValue.
abbrev pub is_value : GoValue → Bool
is_value nil = true
is_value (instant t) = true
is_value (bytes b) = true
is_value (int64 n) = true
is_value (float64 x) = true
is_value (boolean b) = true
is_value (string s) = true
is_value (decimal d) = true
is_value _ = false

-- The conversion `int64(u)` of a uint64.
abbrev pub int64_of : ℕ → ℤ
int64_of u = if ltb u 9223372036854775808 then pos u else negsuc (18446744073709551615 - u)

-- driver.DefaultParameterConverter.ConvertValue; `none` is an error.
unfoldable pub convert_value : GoValue → Option GoValue
convert_value nil = some nil
convert_value (valuer v k) = if is_value v then some v else none
convert_value (failing_valuer k) = none
convert_value nil_valuer = some nil
convert_value (instant t) = some (instant t)
convert_value (pointer v) = convert_value v
convert_value nil_pointer = some nil
convert_value (bytes b) = some (bytes b)
convert_value (named_bytes b) = some (bytes b)
convert_value (raw_message b) = some (bytes b)
convert_value (int64 n) = some (int64 n)
convert_value (int n) = some (int64 n)
convert_value (uint u) = some (int64 (int64_of u))
convert_value (uint64 u) = if ltb u 9223372036854775808 then some (int64 (pos u)) else none
convert_value (float64 x) = some (float64 x)
convert_value (float32 x) = some (float64 x)
convert_value (boolean b) = some (boolean b)
convert_value (named_boolean b) = some (boolean b)
convert_value (string s) = some (string s)
convert_value (named_string s) = some (string s)
convert_value (composite j) = none
convert_value (decimal d) = some (decimal d)
convert_value unsupported = none

-- The kind behind all pointers; `none` if one of them is nil.
abbrev pub behind_pointers : GoValue → Option Kind
behind_pointers (pointer v) = behind_pointers v
behind_pointers nil_pointer = none
behind_pointers nil_valuer = none
behind_pointers (valuer v k) = some k
behind_pointers (failing_valuer k) = some k
behind_pointers (bytes b) = some (byte_slice b)
behind_pointers (named_bytes b) = some (byte_slice b)
behind_pointers (raw_message b) = some (byte_slice b)
behind_pointers (instant t) = some (composite_kind (some t))
behind_pointers (composite j) = some (composite_kind j)
behind_pointers _ = some scalar_kind

-- The end of Normalize, on the kind of a value that the converter has refused.
unfoldable pub normalize_kind : Option Kind → Outcome GoValue
normalize_kind none = ok nil
normalize_kind (some (byte_slice b)) = ok (bytes b)
normalize_kind (some (composite_kind (some json))) = ok (string json)
normalize_kind (some (composite_kind none)) = err marshal_parameter
normalize_kind (some scalar_kind) = err unsupported_parameter

unfoldable pub normalize_converted : GoValue → Outcome GoValue
unfolding convert_value normalize_kind
normalize_converted v = choose (convert_value v) (normalize_kind (behind_pointers v)) ok

-- A nil *time.Time is a nil pointer like any other: both ways end in nil.
unfoldable pub normalize : GoValue → Outcome GoValue
unfolding normalize_converted
normalize nil = ok nil
normalize (valuer v k) = normalize v
normalize (failing_valuer k) = err failing_parameter
normalize nil_valuer = panic
normalize (instant t) = ok (instant t)
normalize (pointer (instant t)) = ok (instant t)
normalize (bytes b) = ok (bytes b)
normalize (raw_message b) = ok (string b)
normalize v = normalize_converted v

unfoldable pub normalize_all : List GoValue → Outcome (List GoValue)
unfolding normalize
normalize_all [] = ok []
normalize_all (v ∷ vs) = do converted ← normalize v; rest ← normalize_all vs; ok (converted ∷ rest)
