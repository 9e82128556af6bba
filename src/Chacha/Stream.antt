-- ===== src/Chacha/Stream.antt =====
-- Two ends of one direction stay in step, and no nonce is used twice.
use pyatv_rs.Prelude.{
  ℕ, ◌^◌, ◌<◌, ◌≡◌, ◌≢◌, refl, sym, ◌∙◌, ap, Option, none, some, Bytes, arith, Option-cases, inl,
  inr, from_le_bytes, to_le_bytes, from_le_bytes-to_le_bytes, zeros, take, drop,
}
use pyatv_rs.Chacha.{
  Aead, IsAead, NonceLayout, padded_counter, bare_counter, zero_prefix_len, nonce, Cipher, Result,
  ok, err, Error, counter_exhausted, failed_encrypt, next_counter, encrypt, decrypt, answer,
  aad_bytes, encrypt_with_nonce, decrypt_with_nonce, out_nonce, in_nonce,
}

-- The receiver opens what the sender seals next.
pub record IsPaired (sender receiver : Cipher) : Type 0 where
  pub same_key : receiver.in_key ≡ sender.out_key
  pub same_counter : receiver.in_counter ≡ sender.out_counter
  pub same_layout : receiver.layout ≡ sender.layout

answer-ok : (e : Error) (o : Option Bytes) (bytes : Bytes) → answer e o ≡ ok bytes → o ≡ some bytes
unfolding answer
answer-ok e none bytes h = cc
answer-ok e (some b) bytes h = cc

pub record IsSealed (aead : Aead) (c c' : Cipher) (data' aad sealed : Bytes) : Type 0 where
  pub counted : next_counter c.out_counter ≡ some c'.out_counter
  pub after : c' ≡ record c { out_counter = c'.out_counter }
  pub made : aead.seal c.out_key (out_nonce c) aad data' ≡ some sealed

err≢ok : (bytes : Bytes) → err counter_exhausted ≢ ok bytes
err≢ok bytes = cc

counted_up : (c c' : Cipher) (n : ℕ) → record c { out_counter = n } ≡ c' → n ≡ c'.out_counter
counted_up c c' n h = ap (λ z. z.out_counter) h

exhausted :
    (c c' : Cipher) (sealed : Bytes)
    → ◌≡◌ {A = Cipher × Result Bytes} (c, err counter_exhausted) (c', ok sealed)
    → ⊥
exhausted c c' sealed h = err≢ok sealed (ap (λ z. z.1) h)

same_nonce : (c d : Cipher) → IsPaired c d → in_nonce d ≡ out_nonce c
unfolding in_nonce out_nonce
same_nonce c d paired =
    ap (nonce d.layout) paired.same_counter ∙ ap (λ l. nonce l c.out_counter) paired.same_layout

module _ (aead : Aead) where
  taken_apart :
      (c c' : Cipher) (n : ℕ) (data' aad sealed : Bytes)
      → next_counter c.out_counter ≡ some n
      → ◌≡◌ {A = Cipher × Result Bytes}
          (
            record c { out_counter = n },
            answer failed_encrypt (aead.seal c.out_key (out_nonce c) aad data'),
          )
          (c', ok sealed)
      → IsSealed aead c c' data' aad sealed
  taken_apart c c' n data' aad sealed e h = record {
    counted = e ∙ ap some (counted_up c c' n (ap (λ z. z.0) h));
    after =
        sym (ap (λ z. z.0) h)
        ∙ ap (λ k. record c { out_counter = k }) (counted_up c c' n (ap (λ z. z.0) h));
    made =
        answer-ok failed_encrypt (aead.seal c.out_key (out_nonce c) aad data') sealed
          (ap (λ z. z.1) h);
  }

  -- A successful encryption, taken apart.
  pub encrypt-IsSealed :
      (c c' : Cipher) (data' : Bytes) (aad : Option Bytes) (sealed : Bytes)
      → encrypt aead c data' aad ≡ (c', ok sealed)
      → IsSealed aead c c' data' (aad_bytes aad) sealed
  unfolding encrypt encrypt_with_nonce
  encrypt-IsSealed c c' data' aad sealed h = elim (Option-cases (next_counter c.out_counter)) [
    | inl (n, e) ↦ taken_apart c c' n data' (aad_bytes aad) sealed e (rw (e, encrypt) at h)
    | inr e ↦ absurd (exhausted c c' sealed (rw (e, encrypt) at h))
  ]

  -- Two ends of a direction that are in step stay in step: what one seals the other opens, under the
  -- same associated data, and then their counters agree again. The cipher opens what it sealed.
  pub decrypt-encrypt :
      (c c' d : Cipher) (data' : Bytes) (aad : Option Bytes) (sealed : Bytes)
      → IsAead aead
      → IsPaired c d
      → encrypt aead c data' aad ≡ (c', ok sealed)
      → (d' : Cipher) × (decrypt aead d sealed aad ≡ (d', ok data')) × IsPaired c' d'
  unfolding decrypt decrypt_with_nonce answer
  decrypt-encrypt c c' d data' aad sealed good paired h =
      let s = encrypt-IsSealed c c' data' aad sealed h in
      (
        record d { in_counter = c'.out_counter },
        rw
            (
              ap next_counter paired.same_counter ∙ s.counted,
              decrypt,
              same_nonce c d paired,
              paired.same_key,
              good.opens c.out_key (out_nonce c) (aad_bytes aad) data' sealed s.made,
            )
            refl,
        record {
          same_key = paired.same_key ∙ ap (λ z. z.out_key) (sym s.after);
          same_counter = refl;
          same_layout = paired.same_layout ∙ ap (λ z. z.layout) (sym s.after);
        },
      )

counter_bytes :
    (layout : NonceLayout) (a : ℕ)
    → take 8 (drop (zero_prefix_len layout) (nonce layout a)) ≡ to_le_bytes 8 a
unfolding nonce zero_prefix_len zeros to_le_bytes
counter_bytes padded_counter a = refl
counter_bytes bare_counter a = refl

-- Two counters of 64 bits that have one nonce under a layout are the same counter.
pub nonce_injective :
    (layout : NonceLayout) (a b : ℕ)
    → a < 2 ^ 64
    → b < 2 ^ 64
    → nonce layout a ≡ nonce layout b
    → a ≡ b
nonce_injective layout a b ha hb h =
    sym (from_le_bytes-to_le_bytes 8 a (omega arith))
    ∙ ap from_le_bytes (
        sym (counter_bytes layout a)
        ∙ ap (λ n. take 8 (drop (zero_prefix_len layout) n)) h
        ∙ counter_bytes layout b)
    ∙ from_le_bytes-to_le_bytes 8 b (omega arith)
