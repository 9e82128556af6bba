-- ===== src/Chacha/Runs.antt =====
-- Runs of the counters under a toy cipher, and the properties applied to it.
use pyatv_rs.Prelude.{ℕ, ◌-◌, ◌^◌, ◌≡◌, refl, none, [], ◌∷◌, zeros, arith, to_le_bytes}
use pyatv_rs.Chacha.{
  padded_counter, nonce, zero_prefix_len, Cipher, ok, err, counter_exhausted, encrypt, decrypt,
  next_counter, encrypt_with_nonce, answer,
}
use pyatv_rs.Chacha.Stream.{IsPaired, decrypt-encrypt, nonce_injective}
use pyatv_rs.Chacha.Toy.{toy, client, device, toy-IsAead, client-device-IsPaired}

exhausted :
    encrypt toy (record client { out_counter = 2 ^ 64 - 1 }) (7 ∷ []) none
    ≡ (record client { out_counter = 2 ^ 64 - 1 }, err counter_exhausted)
unfolding encrypt next_counter
exhausted = refl

-- Twelve bytes under either layout, low byte first.
padded_nonce : nonce padded_counter 0x0102 ≡ 0 ∷ 0 ∷ 0 ∷ 0 ∷ 2 ∷ 1 ∷ 0 ∷ 0 ∷ 0 ∷ 0 ∷ 0 ∷ 0 ∷ []
unfolding nonce zero_prefix_len zeros to_le_bytes
padded_nonce = refl

encrypted :
    encrypt toy client (7 ∷ []) none ≡ (record client { out_counter = 6 }, ok (7 ∷ zeros 16))
unfolding encrypt next_counter encrypt_with_nonce answer zeros
encrypted = refl

decrypt-encrypt_example :
    (d' : Cipher) × (decrypt toy device (7 ∷ zeros 16) none ≡ (d', ok (7 ∷ [])))
    × IsPaired (record client { out_counter = 6 }) d'
decrypt-encrypt_example =
    decrypt-encrypt toy client (record client { out_counter = 6 }) device (7 ∷ []) none
      (7 ∷ zeros 16) toy-IsAead client-device-IsPaired encrypted

nonce_injective_example : ◌≡◌ {A = ℕ} 9 9
nonce_injective_example = nonce_injective padded_counter 9 9 (omega arith) (omega arith) refl
