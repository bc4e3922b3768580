-- ===== src/Encryptor/RoundTrip.antt =====
-- encryptFields and decryptFields of encryptor.go, one after the other.
use unique_dialect.Base.{
  ℕ, ◌+◌, Bool, true, false, List, [], ◌∷◌, ◌++◌, Option, some, ◌≡◌, refl, sym, ap, ◌∙◌, arith,
  length, take, drop, All, All-append, length-append, ltb,
}
use unique_dialect.Encryptor.{
  Aead, cipher_prefix, aes_encrypt, open_payload, aes_decrypt, aes_encryptor, encrypt_field,
  decrypt_field, FieldValue, zero_value, text_value, other_value, Field, Session, set_converted,
  walk_field, walk_fields, walk_model,
}
use unique_dialect.Outcome.{Outcome, ok, ◌>>=◌}
use unique_dialect.Text.Base64.RoundTrip.{IsByte, decode_string-encode_to_string}
use unique_dialect.Text.Base64.{encode_to_string}
use unique_dialect.Text.{Text, codes, has_prefix, trim_prefix}

take_length : (xs ys : Text) → take (length xs) (xs ++ ys) ≡ xs
take_length [] ys = refl
take_length (x ∷ xs) ys = ap (◌∷◌ x) (take_length xs ys)

drop_length : (xs ys : Text) → drop (length xs) (xs ++ ys) ≡ ys
drop_length [] ys = refl
drop_length (x ∷ xs) ys = drop_length xs ys

fits : (n m : ℕ) → ltb (n + m) n ≡ false
fits n m = ground arith

-- A value that does not look like an encrypted one; the characters of a text are bytes.
abbrev pub IsPlainValue : FieldValue → Type 0
IsPlainValue (text_value t) = (has_prefix t cipher_prefix ≡ false) × All IsByte t
IsPlainValue _ = Unit

abbrev pub IsPlain : Field → Type 0
IsPlain f = f.is_encrypted ≡ true → IsPlainValue f.value

module _ (aead : Aead) (random : ℕ → Option Text) where
  abbrev pub encrypting : Text → ℕ → ℕ × Outcome Text
  encrypting = encrypt_field (aes_encryptor aead random)

  abbrev pub decrypting : Text → ℕ → ℕ × Outcome Text
  decrypting = decrypt_field (aes_encryptor aead random)

  -- Encrypted without an error, and what comes out is decrypted to what there was, and not encrypted again.
  abbrev pub IsKept :
      {A : Type 0}
      → ((Text → ℕ → ℕ × Outcome Text) → A → Session → Outcome (A × Session))
      → A
      → Session
      → Type 0
  IsKept {A} walk x s =
      (y : A) × (j : ℕ) × (walk encrypting x s ≡ ok (y, record s { reads = j }))
      × ((t : Session) → walk decrypting y t ≡ ok (x, t))
      × ((t : Session) → walk encrypting y t ≡ ok (y, t))

module _ (aead : Aead) (random : ℕ → Option Text)
    (opens : (nonce plain : Text)
      → length nonce ≡ aead.nonce_size
      → aead.open_sealed nonce (aead.seal nonce plain) ≡ some plain)
    (seals : (nonce plain : Text)
      → All IsByte nonce
      → All IsByte plain
      → All IsByte (aead.seal nonce plain))
    (draws : (i : ℕ)
      → (nonce : Text) × (random i ≡ some nonce)
        × (length nonce ≡ aead.nonce_size)
        × All IsByte nonce) where
  open_payload-seal :
      (nonce plain : Text)
      → length nonce ≡ aead.nonce_size
      → open_payload aead (nonce ++ aead.seal nonce plain) ≡ ok plain
  unfolding open_payload
  open_payload-seal nonce plain e =
      rw
        (
          sym e,
          length-append nonce (aead.seal nonce plain),
          fits (length nonce) (length (aead.seal nonce plain)),
          take_length nonce (aead.seal nonce plain),
          drop_length nonce (aead.seal nonce plain),
          opens nonce plain e,
        )
        refl

  abbrev IsSealed : Text → ℕ → Text → Type 0
  IsSealed plain i c =
      (aes_encrypt aead random plain i ≡ (i + 1, ok c))
      × (aes_decrypt aead c ≡ ok plain)
      × (has_prefix c cipher_prefix ≡ true)

  aes_encrypt-IsSealed : (plain : Text) (i : ℕ) → All IsByte plain → (c : Text) × IsSealed plain i c
  unfolding aes_encrypt aes_decrypt codes has_prefix trim_prefix cipher_prefix
  aes_encrypt-IsSealed plain i bytes =
      let (nonce, e, l, b) = draws i in
      let payload = nonce ++ aead.seal nonce plain in
      let all = All-append IsByte nonce (aead.seal nonce plain) b (seals nonce plain b bytes) in
      (
        codes "enc:v1:" ++ encode_to_string payload,
        (
          rw e refl,
          rw (decode_string-encode_to_string payload all) (open_payload-seal nonce plain l),
          refl,
        ),
      )

  encrypting-plain :
      (plain : Text) (i : ℕ) (o : ℕ × Outcome Text)
      → has_prefix plain cipher_prefix ≡ false
      → aes_encrypt aead random plain i ≡ o
      → encrypting aead random plain i ≡ o
  unfolding encrypt_field cipher_prefix codes
  encrypting-plain plain i o h e = rw h e

  encrypting-sealed :
      (c : Text) (i : ℕ)
      → has_prefix c cipher_prefix ≡ true
      → encrypting aead random c i ≡ (i, ok c)
  unfolding encrypt_field cipher_prefix codes
  encrypting-sealed c i h = rw h refl

  decrypting-sealed :
      (c plain : Text) (i : ℕ)
      → has_prefix c cipher_prefix ≡ true
      → aes_decrypt aead c ≡ ok plain
      → decrypting aead random c i ≡ (i, ok plain)
  unfolding decrypt_field cipher_prefix codes
  decrypting-sealed c plain i h e = rw (h, e) refl

  text_field-IsKept :
      (text : Text) (s : Session)
      → has_prefix text cipher_prefix ≡ false
      → All IsByte text
      → IsKept aead random walk_field (record { is_encrypted = true; value = text_value text }) s
  unfolding walk_field set_converted
  text_field-IsKept text s plain bytes =
      let (c, (e, d, p)) = aes_encrypt-IsSealed text s.reads bytes in
      (
        record { is_encrypted = true; value = text_value c },
        s.reads + 1,
        rw (encrypting-plain text s.reads _ plain e) refl,
        (λ t. rw (decrypting-sealed c text t.reads p d) refl),
        λ t. rw (encrypting-sealed c t.reads p) refl,
      )

  field-IsKept :
      (b : Bool) (v : FieldValue) (s : Session)
      → (b ≡ true → IsPlainValue v)
      → IsKept aead random walk_field (record { is_encrypted = b; value = v }) s
  unfolding walk_field
  field-IsKept false v s h = (_, s.reads, refl, (λ t. refl), λ t. refl)
  field-IsKept true zero_value s h = (_, s.reads, refl, (λ t. refl), λ t. refl)
  field-IsKept true (text_value text) s h = let (p, b) = h refl in text_field-IsKept text s p b
  field-IsKept true other_value s h = (_, s.reads, refl, (λ t. refl), λ t. refl)

  -- A loop over a list, one element after the other.
  abbrev IsLoop :
      {A : Type 0}
      → ((Text → ℕ → ℕ × Outcome Text) → A → Session → Outcome (A × Session))
      → ((Text → ℕ → ℕ × Outcome Text) → List A → Session → Outcome (List A × Session))
      → Type 0
  IsLoop {A} walk loop =
      (convert : Text → ℕ → ℕ × Outcome Text) (x : A) (xs : List A) (s : Session)
      → loop convert (x ∷ xs) s
        ≡ (walk convert x s >>= λ p. loop convert xs p.1 >>= λ q. ok (p.0 ∷ q.0, q.1))

  loop-IsKept :
      {A : Type 0} (walk : (Text → ℕ → ℕ × Outcome Text) → A → Session → Outcome (A × Session))
      (loop : (Text → ℕ → ℕ × Outcome Text) → List A → Session → Outcome (List A × Session))
      → IsLoop walk loop
      → (x : A) (xs : List A) (s : Session) → IsKept aead random walk x s
      → ((t : Session) → IsKept aead random loop xs t)
      → IsKept aead random loop (x ∷ xs) s
  loop-IsKept walk loop step x xs s (y, j, e, d, a) rest =
      let (ys, k, e', d', a') = rest (record s { reads = j }) in
      (
        y ∷ ys,
        k,
        step (encrypting aead random) x xs s ∙ (rw (e, e') refl),
        (λ t. step (decrypting aead random) y ys t ∙ (rw (d t, d' t) refl)),
        λ t. step (encrypting aead random) y ys t ∙ (rw (a t, a' t) refl),
      )

  walk_fields-IsKept :
      (fs : List Field) (s : Session) → All IsPlain fs → IsKept aead random walk_fields fs s
  unfolding walk_fields
  walk_fields-IsKept [] s h = ([], s.reads, refl, (λ t. refl), λ t. refl)
  walk_fields-IsKept (f ∷ fs) s (hf, h) =
      loop-IsKept walk_field walk_fields (λ convert x xs t. refl) f fs s
        (field-IsKept f.is_encrypted f.value s hf) λ t. walk_fields-IsKept fs t h

  -- If the cipher opens what it sealed under a nonce of its size, seals to bytes, and the random source gives
  -- nonces of that size, encryptFields makes of a model no tagged text of which begins with the prefix one
  -- that decryptFields turns back into it and that encryptFields leaves as it is, without an error.
  pub walk_model-IsKept :
      (targets : List (List Field)) (s : Session)
      → All (All IsPlain) targets
      → IsKept aead random walk_model targets s
  unfolding walk_model
  walk_model-IsKept [] s h = ([], s.reads, refl, (λ t. refl), λ t. refl)
  walk_model-IsKept (fs ∷ targets) s (hf, h) =
      loop-IsKept walk_fields walk_model (λ convert x xs t. refl) fs targets s
        (walk_fields-IsKept fs s hf) λ t. walk_model-IsKept targets t h
