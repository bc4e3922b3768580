-- ===== src/Tests/Examples/Keep.antt =====
-- The theorem on encrypted fields at a concrete input.
use unique_dialect.Base.{ℕ, true, false, List, [], ◌∷◌, Option, none, some, ◌≡◌, refl, arith}
use mathlib.Core.Bool.{false≢true}
use unique_dialect.Encryptor.RoundTrip.{IsKept, walk_model-IsKept}
use unique_dialect.Encryptor.{
  Aead, Field, Session, aes_encrypt, cipher_prefix, text_value, zero_value, walk_model,
}
use unique_dialect.Outcome.{ok, decode_cipher_text}
use unique_dialect.Text.{Text, codes, has_prefix}

abbrev behind_mark : Text → Option Text
behind_mark [] = none
behind_mark (c ∷ s) = some s

-- A cipher that sets a byte before the text.
abbrev marking : Aead
marking = record {
  nonce_size = 2;
  seal = λ nonce plain. 7 ∷ plain;
  open_sealed = λ nonce body. behind_mark body;
}

abbrev same_nonce : ℕ → Option Text
same_nonce i = some (1 ∷ 2 ∷ [])

sealed : aes_encrypt marking same_nonce (b'h' ∷ b'i' ∷ []) 0 ≡ (1, ok (codes "enc:v1:AQIHaGk"))
unfolding aes_encrypt codes
sealed = refl

abbrev user : List Field
user =
    (record { is_encrypted = true; value = text_value (b'h' ∷ b'i' ∷ []) })
    ∷ (record { is_encrypted = true; value = zero_value })
    ∷ (record { is_encrypted = false; value = text_value (codes "enc:v1:") })
    ∷ []

abbrev start : Session
start = record { reads = 3; errors = decode_cipher_text ∷ [] }

walk_model-IsKept_example : IsKept marking same_nonce walk_model (user ∷ []) start
walk_model-IsKept_example =
    walk_model-IsKept marking same_nonce (λ nonce plain e. refl)
      (λ nonce plain n p. (omega arith, p))
      (λ i. (1 ∷ 2 ∷ [], refl, refl, (omega arith, (omega arith, tt)))) (user ∷ []) start
      (
        (
          (λ e. (unfold has_prefix cipher_prefix codes in refl, (omega arith, (omega arith, tt)))),
          ((λ e. tt), ((λ e. elim (false≢true e) [ ]), tt)),
        ),
        tt,
      )
