-- ===== src/Outcome.antt =====
-- What a call of a Go function ends in: a value, an error that it returns, or a run-time panic.
use unique_dialect.Base.{ℕ, ◌≡◌, refl}

-- The errors that the modelled code creates itself or passes on from `strconv`.
pub data Failure : Type 0 where
  invalid_insert_columns invalid_insert_values invalid_assignment : Failure
  invalid_limit_clause invalid_number number_out_of_range : Failure
  invalid_conflict_target unsupported_conflict_action : Failure
  unsupported_set_target unsupported_show_target unsupported_statement : Failure
  missing_dialect parser_adaptation : Failure
  expected_single_statement missing_database unsupported_driver : Failure
  missing_from_clause missing_set_clause missing_savepoint_name : Failure
  unsupported_set_variant unsupported_set_charset unsupported_isolation_level : Failure
  unsupported_access_mode unsupported_show_variant missing_show_name : Failure
  unsupported_parsed_statement unsupported_dialect syntax_error : Failure
  failing_parameter unsupported_parameter marshal_parameter skip invalid_configuration : Failure
  read_nonce decode_cipher_text short_cipher_text decrypt_failure : Failure
  -- An error of the driver of the target database, by a number.
  base_error : ℕ → Failure

pub data Outcome {ℓ} (A : Type ℓ) : Type ℓ where
  ok : A → Outcome A
  err : Failure → Outcome A
  panic : Outcome A

infixl 5 ◌>>=◌
abbrev pub ◌>>=◌ {ℓ κ} : {A : Type ℓ} {B : Type κ} → Outcome A → (A → Outcome B) → Outcome B
ok a >>= f = f a
err e >>= f = err e
panic >>= f = panic

-- The value of a call, or a default if it has none.
abbrev pub returned {ℓ} : {A : Type ℓ} → A → Outcome A → A
returned default (ok a) = a
returned default (err e) = default
returned default panic = default

-- The call comes back to its caller, with a value or an error.
abbrev pub Returns {ℓ} : {A : Type ℓ} → Outcome A → Type 0
Returns (ok a) = Unit
Returns (err e) = Unit
Returns panic = ⊥

pub >>=-Returns {ℓ κ} :
    {A : Type ℓ} {B : Type κ} (m : Outcome A) (f : A → Outcome B)
    → Returns m
    → ((a : A) → m ≡ ok a → Returns (f a))
    → Returns (m >>= f)
>>=-Returns (ok a) f h k = k a refl
>>=-Returns (err e) f h k = tt
>>=-Returns panic f h k = h
