-- ===== src/Companion/Codec/Body.antt =====
-- The body of a frame, sealed at one end and opened at the other.
use pyatv_rs.Prelude.{
  ℕ, suc, ◌+◌, ◌≡◌, ◌∙◌, sym, ap, subst, refl, Option, none, some, [], ◌∷◌, Bytes, length, arith,
}
use pyatv_rs.Chacha.{Aead, IsAead, Cipher, auth_tag_length, encrypt, decrypt, aad_bytes, out_nonce}
use pyatv_rs.Chacha
use pyatv_rs.Chacha.Stream.{IsPaired, decrypt-encrypt, encrypt-IsSealed}
use pyatv_rs.Companion.Frame.{pairing, ok, err≢ok, ok_injective}
use pyatv_rs.Companion.Codec.{Answer, sealed_length, ciphered, seal_body, open_body}

-- Both ends are in the clear, or their ciphers are in step.
abbrev pub AreTied : Option Cipher → Option Cipher → Type 0
AreTied none none = Unit {0}
AreTied (some c) (some d) = IsPaired c d
AreTied _ _ = ⊥

ciphered-ok :
    (p : Cipher × Chacha.Result Bytes) (cipher' : Option Cipher) (body : Bytes)
    → ciphered p ≡ (cipher', ok body)
    → (c' : Cipher) × (p ≡ (c', Chacha.ok body)) × (cipher' ≡ some c')
unfolding ciphered
ciphered-ok (c, Chacha.ok bytes) cipher' body h = (
  c,
  ap (λ z. (c, Chacha.ok z)) (ok_injective bytes body (ap (λ z. z.1) h)),
  sym (ap (λ z. z.0) h),
)
ciphered-ok (c, Chacha.err e) cipher' body h = absurd (err≢ok (pairing e) body (ap (λ z. z.1) h))

ciphered_lem :
    (d : Cipher) (payload : Bytes) → ciphered (d, Chacha.ok payload) ≡ (some d, ok payload)
unfolding ciphered
ciphered_lem d payload = refl

module _ (aead : Aead) where
  -- What sealing a body means to the other end: it opens, its length is the one in the header, and
  -- the ciphers stay in step.
  pub record IsBody (payload header body : Bytes) (cipher cipher' other : Option Cipher)
      : Type 0 where
    pub other' : Option Cipher
    pub opened : open_body aead other body header ≡ (other', ok payload)
    pub size : length body ≡ sealed_length cipher payload
    pub tied : AreTied cipher' other'

  -- A body that is not sealed.
  plain :
      (payload header body : Bytes) (cipher cipher' other other' : Option Cipher)
      → open_body aead other payload header ≡ (other', ok payload)
      → length payload ≡ sealed_length cipher payload
      → other ≡ other'
      → cipher ≡ cipher'
      → ◌≡◌ {A = Answer Bytes} (ok payload) (ok body)
      → AreTied cipher other
      → IsBody payload header body cipher cipher' other
  plain payload header body cipher cipher' other other' o n p q h tied =
      let same = sym (ok_injective payload body h) in
      record {
        other' = other';
        opened = ap (λ z. open_body aead other z header) same ∙ o;
        size = ap length same ∙ n;
        tied = subst (λ z. AreTied z other') q (subst (AreTied cipher) p tied);
      }

  open_some :
      (d : Cipher) (body header : Bytes) (k : ℕ)
      → length body ≡ suc k
      → open_body aead (some d) body header ≡ ciphered (decrypt aead d body (some header))
  unfolding open_body
  open_some d [] header k h = absurd (omega (arith, h))
  open_some d (b ∷ bs) header k h = refl

  pub seal_body-IsBody :
      (good : IsAead aead) (cipher cipher' other : Option Cipher) (payload header body : Bytes)
      → AreTied cipher other
      → seal_body aead cipher payload header ≡ (cipher', ok body)
      → IsBody payload header body cipher cipher' other
  unfolding seal_body open_body sealed_length
  seal_body-IsBody good cipher cipher' other [] header body tied h =
      plain [] header body cipher cipher' other other refl refl refl (ap (λ z. z.0) h)
        (ap (λ z. z.1) h) tied
  seal_body-IsBody good none cipher' none (b ∷ bs) header body tied h =
      plain (b ∷ bs) header body none cipher' none none refl refl refl (ap (λ z. z.0) h)
        (ap (λ z. z.1) h) tied
  seal_body-IsBody good (some c) cipher' (some d) (b ∷ bs) header body tied h =
      let (c', run, is) = ciphered-ok (encrypt aead c (b ∷ bs) (some header)) cipher' body h in
      let (d', back, paired) =
        decrypt-encrypt aead c c' d (b ∷ bs) (some header) body good tied run in
      let size' =
        good.adds_tag c.out_key (out_nonce c) (aad_bytes (some header)) (b ∷ bs) body
          (encrypt-IsSealed aead c c' (b ∷ bs) (some header) body run).made in
      record {
        other' = some d';
        opened =
            open_some d body header (length bs + auth_tag_length) (omega (arith, size'))
            ∙ ap ciphered back
            ∙ ciphered_lem d' (b ∷ bs);
        size = size';
        tied = subst (λ z. AreTied z (some d')) (sym is) paired;
      }
  seal_body-IsBody good none cipher' (some d) (b ∷ bs) header body tied h = absurd tied
  seal_body-IsBody good (some c) cipher' none (b ∷ bs) header body tied h = absurd tied
