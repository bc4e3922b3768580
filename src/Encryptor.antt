-- ===== src/Encryptor.antt =====
-- encryptor.go: the values of fields that are kept encrypted. The cipher and the random source are
-- parameters.
pub mod RoundTrip
use unique_dialect.Base.{
  ℕ, ◌+◌, Bool, not, List, [], ◌∷◌, ◌++◌, Option, none, some, if◌then◌else◌, length, take, drop,
  ltb, choose,
}
use unique_dialect.Outcome.{
  Outcome, ok, err, panic, ◌>>=◌, Failure, read_nonce, decode_cipher_text, short_cipher_text,
  decrypt_failure,
}
use unique_dialect.Text.Base64.{encode_to_string, decode_string}
use unique_dialect.Text.{Text, codes, has_prefix, trim_prefix}

-- cipher.AEAD without additional data. Seal gives what it appends to the nonce.
pub record Aead : Type 0 where
  pub nonce_size : ℕ
  pub seal : Text → Text → Text
  pub open_sealed : Text → Text → Option Text

-- An encryptor with how often it has read from the random source.
pub record Encryptor : Type 0 where
  pub encrypt : Text → ℕ → ℕ × Outcome Text
  pub decrypt : Text → Outcome Text

unfoldable pub cipher_prefix : Text
unfolding codes
cipher_prefix = codes "enc:v1:"

-- `random i` is what the read number `i` from the random source gives.
unfoldable pub aes_encrypt : Aead → (ℕ → Option Text) → Text → ℕ → ℕ × Outcome Text
unfolding codes encode_to_string
aes_encrypt aead random plain i =
    choose (random i) (i + 1, err read_nonce)
      λ nonce. (i + 1, ok (codes "enc:v1:" ++ encode_to_string (nonce ++ aead.seal nonce plain)))

unfoldable pub open_payload : Aead → Text → Outcome Text
open_payload aead payload =
    if ltb (length payload) aead.nonce_size
    then err short_cipher_text
    else choose (aead.open_sealed (take aead.nonce_size payload) (drop aead.nonce_size payload))
        (err decrypt_failure) ok

unfoldable pub aes_decrypt : Aead → Text → Outcome Text
unfolding codes has_prefix trim_prefix decode_string open_payload
aes_decrypt aead text =
    if not (has_prefix text (codes "enc:v1:"))
    then ok text
    else choose (decode_string (trim_prefix text (codes "enc:v1:"))) (err decode_cipher_text)
        λ payload. open_payload aead payload

abbrev pub aes_encryptor : Aead → (ℕ → Option Text) → Encryptor
aes_encryptor aead random = record {
  encrypt = λ plain i. aes_encrypt aead random plain i;
  decrypt = λ text. aes_decrypt aead text;
}

-- The functions that encryptFields and decryptFields hand to walkModel.
unfoldable pub encrypt_field : Encryptor → Text → ℕ → ℕ × Outcome Text
unfolding has_prefix codes
encrypt_field e value i =
    if has_prefix value (codes "enc:v1:") then (i, ok value) else e.encrypt value i

abbrev pub plain_or : Text → Outcome Text → Outcome Text
plain_or value (ok plain) = ok plain
plain_or value (err e) = ok value
plain_or value panic = panic

unfoldable pub decrypt_field : Encryptor → Text → ℕ → ℕ × Outcome Text
unfolding has_prefix codes
decrypt_field e value i =
    if not (has_prefix value (codes "enc:v1:"))
    then (i, ok value)
    else (i, plain_or value (e.decrypt value))

pub data FieldValue : Type 0 where
  zero_value : FieldValue
  text_value : Text → FieldValue
  -- A value of another type than string.
  other_value : FieldValue

pub record Field : Type 0 where
  pub is_encrypted : Bool
  pub value : FieldValue

-- The reads so far, and the errors of `db.AddError`.
pub record Session : Type 0 where
  pub reads : ℕ
  pub errors : List Failure

-- The rest of the loop behind `convert`; Set takes a text for a field that held one.
unfoldable pub set_converted : Field → Session → ℕ × Outcome Text → Outcome (Field × Session)
set_converted f s (i, ok text) = ok (record f { value = text_value text }, record s { reads = i })
set_converted f s (i, err e) = ok (f, record { reads = i; errors = s.errors ++ e ∷ [] })
set_converted f s (i, panic) = panic

abbrev pub convert_value_of :
    (Text → ℕ → ℕ × Outcome Text) → Field → FieldValue → Session → Outcome (Field × Session)
convert_value_of convert f zero_value s = ok (f, s)
convert_value_of convert f (text_value text) s = set_converted f s (convert text s.reads)
convert_value_of convert f other_value s = ok (f, s)

unfoldable pub walk_field :
    (Text → ℕ → ℕ × Outcome Text) → Field → Session → Outcome (Field × Session)
unfolding set_converted
walk_field convert f s =
    if not f.is_encrypted then ok (f, s) else convert_value_of convert f f.value s

-- The inner loop of walkModel, over the fields of a target.
unfoldable pub walk_fields :
    (Text → ℕ → ℕ × Outcome Text) → List Field → Session → Outcome (List Field × Session)
unfolding walk_field
walk_fields convert [] s = ok ([], s)
walk_fields convert (f ∷ fs) s = do
  (g, t) ← walk_field convert f s
  (gs, u) ← walk_fields convert fs t
  ok (g ∷ gs, u)

unfoldable pub walk_model :
    (Text → ℕ → ℕ × Outcome Text)
    → List (List Field)
    → Session
    → Outcome (List (List Field) × Session)
unfolding walk_fields
walk_model convert [] s = ok ([], s)
walk_model convert (fs ∷ targets) s = do
  (gs, t) ← walk_fields convert fs s
  (rest, u) ← walk_model convert targets t
  ok (gs ∷ rest, u)
