-- ===== src/Chacha.antt =====
-- crates/pyatv-pairing/src/chacha.rs: the session cipher and its message counters. The cipher of
-- the chacha20poly1305 package is a parameter, a pair of functions of the key, the nonce, the
-- associated data and the message, either of which may fail.
pub mod Stream
pub mod Toy
mod Runs
use pyatv_rs.Prelude.{
  ℕ, ◌+◌, ◌-◌, ◌^◌, ◌≡◌, Option, none, some, List, [], ◌∷◌, ◌++◌, Bytes, length, ltb, if◌then◌else◌,
  to_le_bytes, zeros,
}
use mathlib.Core.Option

pub record Aead : Type 0 where
  pub seal : Bytes → Bytes → Bytes → Bytes → Option Bytes
  pub unseal : Bytes → Bytes → Bytes → Bytes → Option Bytes

abbrev pub nonce_length : ℕ
nonce_length = 12

abbrev pub auth_tag_length : ℕ
auth_tag_length = 16

-- What the package documents: what was sealed opens under the same key, nonce and associated data,
-- and sealing adds a tag of 16 bytes.
pub record IsAead (aead : Aead) : Type 0 where
  pub opens :
      (key nonce aad message sealed : Bytes)
      → aead.seal key nonce aad message ≡ some sealed
      → aead.unseal key nonce aad sealed ≡ some message
  pub adds_tag :
      (key nonce aad message sealed : Bytes)
      → aead.seal key nonce aad message ≡ some sealed
      → length sealed ≡ length message + auth_tag_length

pub data NonceLayout : Type 0 where
  padded_counter bare_counter : NonceLayout

unfoldable pub zero_prefix_len : NonceLayout → ℕ
zero_prefix_len padded_counter = nonce_length - 8
zero_prefix_len bare_counter = 0

unfoldable pub counter_len : NonceLayout → ℕ
unfolding zero_prefix_len
counter_len layout = nonce_length - zero_prefix_len layout

-- Twelve zero bytes, eight of which the counter overwrites.
unfoldable pub nonce : NonceLayout → ℕ → Bytes
unfolding zero_prefix_len
nonce layout counter =
    zeros (zero_prefix_len layout)
    ++ to_le_bytes 8 counter
    ++ zeros (nonce_length - (zero_prefix_len layout + 8))

unfoldable pub pad : Bytes → Bytes
pad fixed = zeros (nonce_length - length fixed) ++ fixed

pub data Error : Type 0 where
  counter_exhausted failed_encrypt failed_decrypt : Error

pub data Result {ℓ} (A : Type ℓ) : Type ℓ where
  ok : A → Result A
  err : Error → Result A

pub record Cipher : Type 0 where
  pub out_key : Bytes
  pub in_key : Bytes
  pub out_counter : ℕ
  pub in_counter : ℕ
  pub layout : NonceLayout

unfoldable pub new : Bytes → Bytes → NonceLayout → Cipher
new out_key in_key layout = record {
  out_key = out_key;
  in_key = in_key;
  out_counter = 0;
  in_counter = 0;
  layout = layout;
}

unfoldable pub with_padded_counter : Bytes → Bytes → Cipher
unfolding new
with_padded_counter out_key in_key = new out_key in_key padded_counter

unfoldable pub with_bare_counter : Bytes → Bytes → Cipher
unfolding new
with_bare_counter out_key in_key = new out_key in_key bare_counter

unfoldable pub out_nonce : Cipher → Bytes
unfolding nonce
out_nonce c = nonce c.layout c.out_counter

unfoldable pub in_nonce : Cipher → Bytes
unfolding nonce
in_nonce c = nonce c.layout c.in_counter

-- `checked_add` on `u64`.
unfoldable pub next_counter : ℕ → Option ℕ
next_counter counter = if ltb (counter + 1) (2 ^ 64) then some (counter + 1) else none

unfoldable pub aad_bytes : Option Bytes → Bytes
aad_bytes none = []
aad_bytes (some aad) = aad

unfoldable pub answer : Error → Option Bytes → Result Bytes
answer e (some bytes) = ok bytes
answer e none = err e

module _ (aead : Aead) where
  unfoldable pub encrypt_with_nonce : Cipher → Bytes → Bytes → Option Bytes → Result Bytes
  unfolding answer aad_bytes
  encrypt_with_nonce c data' nonce' aad =
      answer failed_encrypt (aead.seal c.out_key nonce' (aad_bytes aad) data')

  unfoldable pub decrypt_with_nonce : Cipher → Bytes → Bytes → Option Bytes → Result Bytes
  unfolding answer aad_bytes
  decrypt_with_nonce c data' nonce' aad =
      answer failed_decrypt (aead.unseal c.in_key nonce' (aad_bytes aad) data')

  -- The counter has advanced when the sealing fails, and not when it is exhausted.
  unfoldable pub encrypt : Cipher → Bytes → Option Bytes → Cipher × Result Bytes
  unfolding next_counter encrypt_with_nonce out_nonce
  encrypt c data' aad = elim (next_counter c.out_counter) [
    | none ↦ (c, err counter_exhausted)
    | some counter ↦
        (record c { out_counter = counter }, encrypt_with_nonce c data' (out_nonce c) aad)
  ]

  unfoldable pub decrypt : Cipher → Bytes → Option Bytes → Cipher × Result Bytes
  unfolding next_counter decrypt_with_nonce in_nonce
  decrypt c data' aad = elim (next_counter c.in_counter) [
    | none ↦ (c, err counter_exhausted)
    | some counter ↦
        (record c { in_counter = counter }, decrypt_with_nonce c data' (in_nonce c) aad)
  ]
