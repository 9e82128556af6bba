-- ===== src/Companion/Codec.antt =====
-- crates/pyatv-proto-companion/src/codec.rs: frames over a byte stream, sealed once a session key is
-- installed. Reserving room in the buffer and lending it to a reader have no effect here.
pub mod Body
pub mod Exchange
pub mod Partial
use pyatv_rs.Prelude.{
  ℕ, ◌+◌, ◌*◌, ◌<◌, ◌≤◌, ◌≡◌, refl, Bool, true, false, Option, none, some, List, [], ◌∷◌, ◌++◌,
  Bytes, length, take, drop, ltb, if◌then◌else◌,
}
use pyatv_rs.Chacha.{Aead, Cipher, auth_tag_length, with_bare_counter, encrypt, decrypt}
use pyatv_rs.Chacha
use pyatv_rs.Companion.Frame.{
  FrameType, FrameHeader, Error, over_limit, pairing, Result, ok, err, header_length, new, encode,
  decode, total_length,
}

abbrev pub max_frame_payload : ℕ
max_frame_payload = 1024 * 1024

pub record Frame : Type 0 where
  pub frame_type : FrameType
  pub payload : Bytes

pub record FrameCodec : Type 0 where
  pub buffer : Bytes
  pub cipher : Option Cipher

abbrev pub Answer {ℓ} : Type ℓ → Type ℓ
Answer A = Result Chacha.Error A

abbrev pub new_codec : FrameCodec
new_codec = record { buffer = []; cipher = none }

unfoldable pub enable_encryption : Bytes → Bytes → FrameCodec → FrameCodec
unfolding with_bare_counter
enable_encryption output_key input_key codec = record codec {
  cipher = some (with_bare_counter output_key input_key);
}

unfoldable pub is_encrypted : FrameCodec → Bool
is_encrypted codec = elim (codec.cipher) [ some c ↦ true | none ↦ false ]

unfoldable pub pending_bytes : FrameCodec → ℕ
pending_bytes codec = length codec.buffer

unfoldable pub push : Bytes → FrameCodec → FrameCodec
push bytes codec = record codec { buffer = codec.buffer ++ bytes }

unfoldable pub clear : FrameCodec → FrameCodec
clear codec = record codec { buffer = [] }

unfoldable pub has_remaining : FrameCodec → Bool
has_remaining codec = elim (codec.buffer) [ [] ↦ false | b ∷ bs ↦ true ]

-- A frame with an empty payload is not sealed.
unfoldable pub sealed_length : Option Cipher → Bytes → ℕ
sealed_length cipher [] = 0
sealed_length none (b ∷ bs) = length (b ∷ bs)
sealed_length (some c) (b ∷ bs) = length (b ∷ bs) + auth_tag_length

-- What the cipher makes of a body: the codec's cipher afterwards, and the bytes.
unfoldable pub ciphered : Cipher × Chacha.Result Bytes → Option Cipher × Answer Bytes
ciphered (c, Chacha.ok bytes) = (some c, ok bytes)
ciphered (c, Chacha.err e) = (some c, err (pairing e))

module _ (aead : Aead) where
  unfoldable pub seal_body : Option Cipher → Bytes → Bytes → Option Cipher × Answer Bytes
  unfolding ciphered
  seal_body cipher [] header = (cipher, ok [])
  seal_body none (b ∷ bs) header = (none, ok (b ∷ bs))
  seal_body (some c) (b ∷ bs) header = ciphered (encrypt aead c (b ∷ bs) (some header))

  unfoldable pub open_body : Option Cipher → Bytes → Bytes → Option Cipher × Answer Bytes
  unfolding ciphered
  open_body cipher [] header = (cipher, ok [])
  open_body none (b ∷ bs) header = (none, ok (b ∷ bs))
  open_body (some c) (b ∷ bs) header = ciphered (decrypt aead c (b ∷ bs) (some header))

  unfoldable pub encode_sealed :
      FrameHeader → Option Cipher × Answer Bytes → FrameCodec → FrameCodec × Answer Bytes
  encode_sealed header (cipher, err e) codec = (record codec { cipher = cipher }, err e)
  encode_sealed header (cipher, ok body) codec =
      (record codec { cipher = cipher }, ok (encode header ++ body))

  -- `FrameCodec::encode`.
  unfoldable pub encode_payload : FrameType → Bytes → FrameCodec → FrameCodec × Answer Bytes
  unfolding sealed_length seal_body encode_sealed
  encode_payload frame_type payload codec =
      let length' = sealed_length codec.cipher payload in
      if ltb max_frame_payload length'
      then (codec, err (over_limit frame_type length'))
      else elim (new {E = Chacha.Error} frame_type length') [
        | err e ↦ (codec, err e)
        | ok header ↦ encode_sealed header (seal_body codec.cipher payload (encode header)) codec
      ]

  unfoldable pub frame_of :
      FrameType → Bytes → Option Cipher × Answer Bytes → FrameCodec × Answer (Option Frame)
  frame_of frame_type rest (cipher, err e) = (record { buffer = rest; cipher = cipher }, err e)
  frame_of frame_type rest (cipher, ok payload) = (
    record { buffer = rest; cipher = cipher },
    ok (some (record { frame_type = frame_type; payload = payload })),
  )

  -- The part of `next_frame` behind the header.
  unfoldable pub next_body : FrameHeader → FrameCodec → FrameCodec × Answer (Option Frame)
  unfolding total_length open_body frame_of
  next_body header codec =
      if ltb max_frame_payload header.payload_length
      then (codec, err (over_limit header.frame_type header.payload_length))
      else if ltb (length codec.buffer) (total_length header)
      then (codec, ok none)
      else frame_of header.frame_type (drop (total_length header) codec.buffer) (
          open_body codec.cipher (drop header_length (take (total_length header) codec.buffer))
            (encode header))

  unfoldable pub next_frame : FrameCodec → FrameCodec × Answer (Option Frame)
  unfolding next_body
  next_frame codec =
      if ltb (length codec.buffer) header_length
      then (codec, ok none)
      else elim (decode {E = Chacha.Error} (take header_length codec.buffer)) [
        | err e ↦ (codec, err e)
        | ok header ↦ next_body header codec
      ]
