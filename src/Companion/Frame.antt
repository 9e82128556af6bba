-- ===== src/Companion/Frame.antt =====
-- crates/pyatv-proto-companion/src/frame.rs: the frame types and the four-byte header.
use pyatv_rs.Prelude.{
  ℕ, ◌+◌, ◌*◌, ◌/◌, ◌%◌, ◌≤◌, ◌≡◌, ◌∙◌, ◌↔◌, refl, ap, subst, Bool, true, false, Option, none, some,
  [], ◌∷◌, ◌++◌, Bytes, length, ltb, ◌==◌, if◌then◌else◌, arith, lt→ltb, Bool-cases, inl, inr, sym,
}

abbrev pub header_length : ℕ
header_length = 4

abbrev pub max_encodable_payload : ℕ
max_encodable_payload = 0x00FFFFFF

pub data FrameType : Type 0 where
  unknown no_op ps_start ps_next pv_start pv_next u_opack e_opack p_opack : FrameType
  pa_req pa_rsp session_start_request session_start_response session_data family_identity_request
        family_identity_response family_identity_update :
      FrameType

-- `frame_type as u8`.
unfoldable pub type_byte : FrameType → ℕ
type_byte unknown = 0
type_byte no_op = 1
type_byte ps_start = 3
type_byte ps_next = 4
type_byte pv_start = 5
type_byte pv_next = 6
type_byte u_opack = 7
type_byte e_opack = 8
type_byte p_opack = 9
type_byte pa_req = 10
type_byte pa_rsp = 11
type_byte session_start_request = 16
type_byte session_start_response = 17
type_byte session_data = 18
type_byte family_identity_request = 32
type_byte family_identity_response = 33
type_byte family_identity_update = 34

unfoldable pub from_byte : ℕ → Option FrameType
from_byte byte =
    if byte == 0
    then some unknown
    else if byte == 1
    then some no_op
    else if byte == 3
    then some ps_start
    else if byte == 4
    then some ps_next
    else if byte == 5
    then some pv_start
    else if byte == 6
    then some pv_next
    else if byte == 7
    then some u_opack
    else if byte == 8
    then some e_opack
    else if byte == 9
    then some p_opack
    else if byte == 10
    then some pa_req
    else if byte == 11
    then some pa_rsp
    else if byte == 16
    then some session_start_request
    else if byte == 17
    then some session_start_response
    else if byte == 18
    then some session_data
    else if byte == 32
    then some family_identity_request
    else if byte == 33
    then some family_identity_response
    else if byte == 34
    then some family_identity_update
    else none

unfoldable pub is_auth : FrameType → Bool
is_auth ps_start = true
is_auth ps_next = true
is_auth pv_start = true
is_auth pv_next = true
is_auth _ = false

unfoldable pub is_opack : FrameType → Bool
is_opack u_opack = true
is_opack e_opack = true
is_opack p_opack = true
is_opack _ = false

unfoldable pub response_type : FrameType → FrameType
response_type ps_start = ps_next
response_type pv_start = pv_next
response_type other = other

-- The errors of the frame header and of the codec. The last one carries the cipher's.
pub data Error {ℓ} (E : Type ℓ) : Type ℓ where
  payload_too_large : ℕ → Error E
  short_header : ℕ → Error E
  unknown_type : ℕ → Error E
  over_limit : FrameType → ℕ → Error E
  pairing : E → Error E

pub data Result {ℓ κ} (E : Type ℓ) (A : Type κ) : Type (ℓ ⊔ κ) where
  ok : A → Result E A
  err : Error E → Result E A

pub record FrameHeader : Type 0 where
  pub frame_type : FrameType
  pub payload_length : ℕ

module _ {ℓ} {E : Type ℓ} where
  unfoldable pub new : FrameType → ℕ → Result E FrameHeader
  new frame_type payload_length =
      if ltb max_encodable_payload payload_length
      then err (payload_too_large payload_length)
      else ok (record { frame_type = frame_type; payload_length = payload_length })

-- The low three bytes of the length as a `u32`, which saturates.
unfoldable pub encode : FrameHeader → Bytes
encode h =
    let length' = if ltb h.payload_length 0x100000000 then h.payload_length else 0xFFFFFFFF in
    type_byte h.frame_type ∷ length' / 0x10000 % 256 ∷ length' / 0x100 % 256 ∷ length' % 256 ∷ []

module _ {ℓ} {E : Type ℓ} where
  -- The header of the first four bytes. The three shifted bytes do not overlap, so `|` is `+`.
  unfoldable pub decode : Bytes → Result E FrameHeader
  decode (b₀ ∷ b₁ ∷ b₂ ∷ b₃ ∷ rest) = elim (from_byte b₀) [
    | none ↦ err (unknown_type b₀)
    | some frame_type ↦
        ok (record { frame_type = frame_type; payload_length = b₁ * 0x10000 + b₂ * 0x100 + b₃ })
  ]
  decode input = err (short_header (length input))

unfoldable pub total_length : FrameHeader → ℕ
total_length h = header_length + h.payload_length

module _ {ℓ} {E : Type ℓ} where
  unfoldable pub encode_frame : FrameType → Bytes → Result E Bytes
  unfolding new encode
  encode_frame frame_type payload = elim (new {E = E} frame_type (length payload)) [
    | err e ↦ err e
    | ok header ↦ ok (encode header ++ payload)
  ]

from_byte-type_byte : (t : FrameType) → from_byte (type_byte t) ≡ some t
unfolding from_byte type_byte
from_byte-type_byte unknown = refl
from_byte-type_byte _ = refl

-- A byte is read as a frame type exactly when it is that type's byte.
pub from_byte_iff_type :
    (byte : ℕ) (t : FrameType) → (from_byte byte ≡ some t) ↔ (type_byte t ≡ byte)
unfolding from_byte type_byte
from_byte_iff_type byte t =
    (λ h. ground arith, λ e. subst (λ b. from_byte b ≡ some t) e (from_byte-type_byte t))

encode_lem :
    (h : FrameHeader)
    → h.payload_length ≤ max_encodable_payload
    → encode h
      ≡ type_byte h.frame_type
        ∷ h.payload_length / 0x10000 % 256
        ∷ h.payload_length / 0x100 % 256
        ∷ h.payload_length % 256
        ∷ []
unfolding encode
encode_lem h fits = rw (lt→ltb h.payload_length 0x100000000 (omega arith)) refl

pub length-encode : (h : FrameHeader) → length (encode h) ≡ 4
unfolding encode
length-encode h = refl

three_bytes :
    (n : ℕ)
    → n ≤ max_encodable_payload
    → (n / 0x10000 % 256) * 0x10000 + (n / 0x100 % 256) * 0x100 + n % 256 ≡ n
three_bytes n h = omega arith

module _ {ℓ} {E : Type ℓ} where
  pub err≢ok {κ} : {A : Type κ} (e : Error E) (a : A) → ¬ ◌≡◌ {A = Result E A} (err e) (ok a)
  err≢ok e a = cc

  pub ok_injective {κ} : {A : Type κ} (a b : A) → ◌≡◌ {A = Result E A} (ok a) (ok b) → a ≡ b
  ok_injective a b h = cc

  decode_lem :
      (t : FrameType) (a b c : ℕ) (rest : Bytes)
      → decode {E = E} (type_byte t ∷ a ∷ b ∷ c ∷ rest)
        ≡ ok (record { frame_type = t; payload_length = a * 0x10000 + b * 0x100 + c })
  unfolding decode
  decode_lem t a b c rest = rw (from_byte-type_byte t, decode) refl

  pub decode-encode_fits :
      (h : FrameHeader) (rest : Bytes)
      → h.payload_length ≤ max_encodable_payload
      → decode {E = E} (encode h ++ rest) ≡ ok h
  decode-encode_fits h rest fits =
      ap (λ bs. decode (bs ++ rest)) (encode_lem h fits)
      ∙ decode_lem h.frame_type (h.payload_length / 0x10000 % 256) (h.payload_length / 0x100 % 256)
          (h.payload_length % 256) rest
      ∙ ap (λ n. ok (record { frame_type = h.frame_type; payload_length = n }))
          (three_bytes h.payload_length fits)

  pub new_fits :
      (t : FrameType) (n : ℕ) (h : FrameHeader)
      → new {E = E} t n ≡ ok h
      → (h ≡ record { frame_type = t; payload_length = n }) × (n ≤ max_encodable_payload)
  unfolding new
  new_fits t n h e = elim (Bool-cases (ltb max_encodable_payload n)) [
    | inl o ↦ absurd (err≢ok (payload_too_large n) h (rw (o, new) at e))
    | inr o ↦ (
      sym (ok_injective (record { frame_type = t; payload_length = n }) h (rw (o, new) at e)),
      ground arith,
    )
  ]

  -- The header of a frame whose payload fits the length field is read back from the front of the
  -- input, whatever follows it.
  pub decode_header-encode :
      (t : FrameType) (n : ℕ) (h : FrameHeader) (rest : Bytes)
      → new {E = E} t n ≡ ok h
      → decode {E = E} (encode h ++ rest) ≡ ok h
  decode_header-encode t n h rest e =
      let (h_is, fits) = new_fits t n h e in
      decode-encode_fits h rest
        (subst (λ k. k ≤ max_encodable_payload) (sym (ap (λ z. z.payload_length) h_is)) fits)
