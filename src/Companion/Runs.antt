-- ===== src/Companion/Runs.antt =====
-- Frames at concrete inputs, and the properties applied there.
use pyatv_rs.Prelude.{
  Bytes, Option, List, arith, ℕ, ◌≡◌, ◌↔◌, refl, none, some, [], ◌∷◌, ◌++◌, zeros,
}
use pyatv_rs.Chacha.{encrypt, next_counter, encrypt_with_nonce, answer}
use pyatv_rs.Chacha.Toy.{toy, client, device, toy-IsAead, client-device-IsPaired}
use pyatv_rs.Companion.Frame.{
  FrameType, e_opack, ok, new, encode, decode, from_byte, type_byte, decode_header-encode,
  from_byte_iff_type,
}
use pyatv_rs.Companion.Codec.{
  FrameCodec, push, next_frame, encode_payload, sealed_length, seal_body, encode_sealed, ciphered,
}
use pyatv_rs.Companion.Codec.Body.{AreTied}
use pyatv_rs.Companion.Codec.Exchange.{next_frame-encode_payload}
use pyatv_rs.Companion.Codec.Partial.{next_frame-partial}
use pyatv_rs.Opack.Value.{Value, dict, end}
use pyatv_rs.Companion.Message
use pyatv_rs.Companion.Message.{Envelope, request, from_value, to_value}
use pyatv_rs.Companion.Message.RoundTrip.{from_value-to_value}
use pyatv_rs.Companion.Protocol
use pyatv_rs.Companion.Protocol.{for_xid, with_xid}
use pyatv_rs.Companion.Protocol.Dispatch.{Arrival, frame, exchange_opack, poll_once}
use pyatv_rs.Companion.Protocol.Answered.{IsResponse, IsAnswered, frames, pump-IsAnswered}
use pyatv_rs.Opack.Value
use pyatv_rs.Opack.Value.{field, string, uint}
use pyatv_rs.Opack.De.{unpack}
use pyatv_rs.Opack.Ser.{
  enter, write_string, intern_bytes, is_interned, write_uint, container_tag, count_fields,
  finish_container,
}
use pyatv_rs.Opack.Objects.{lookup, record_encoding}
use pyatv_rs.Companion.Message.{response}
use pyatv_rs.Companion.Frame.{is_auth, is_opack}
use pyatv_rs.Companion.Protocol.Dispatch.{pump}
use pyatv_rs.Prelude.{length}
use pyatv_rs.Prelude.{is_utf8, zeros}
use pyatv_rs.Companion.Protocol.Tracked.{IsTracked, with_xid-IsTracked}
use pyatv_rs.Companion.Protocol.Calls.{poll_once-IsTracked}
use pyatv_rs.Companion.Protocol.Exchange.{IsRequested, exchange_opack-IsRequested}
use pyatv_rs.Prelude.{ap, sym, ◌∙◌, find_key}

abbrev no_text : Value → Bytes
no_text v = []

abbrev no_hash : List ℕ → ℕ
no_hash words = 0

-- A response with the number 7, and a stray one with the number 9.
abbrev response_7 : Bytes
response_7 =
    0xE3 ∷ 0x42 ∷ b'_' ∷ b'x' ∷ 0x0F ∷ 0x42 ∷ b'_' ∷ b't' ∷ 0x0B ∷ 0x42 ∷ b'_' ∷ b'c' ∷ 0xE0 ∷ []

abbrev response_9 : Bytes
response_9 = 0xE2 ∷ 0x42 ∷ b'_' ∷ b'x' ∷ 0x11 ∷ 0x42 ∷ b'_' ∷ b't' ∷ 0x0B ∷ []

abbrev arriving : List (Arrival ℕ)
arriving = frame e_opack response_9 ∷ frame e_opack response_7 ∷ frame e_opack response_9 ∷ []

abbrev never : FrameType → Bytes → Option ℕ
never t bytes = none

exchange_opack-IsRequested_example :
    IsRequested ℕ no_hash 32 no_text e_opack
      (dict end)
      arriving
      (with_xid 7)
      (exchange_opack no_hash 32 no_text never e_opack (dict end) arriving (with_xid 7))
exchange_opack-IsRequested_example =
    exchange_opack-IsRequested ℕ no_hash 32 no_text never e_opack (dict end) arriving (with_xid 7)
      (with_xid-IsTracked no_text 7)

abbrev answer_7 : Value
answer_7 = dict (
    field (string Message.key_xid) (uint 7) (
      field (string Message.key_type) (uint 3) (field (string Message.key_content) (dict end) end)))

unpack-response_7 : unpack no_hash 32 response_7 ≡ Value.ok (answer_7, length response_7)
unfolding unpack is_utf8
unpack-response_7 = refl

abbrev message_7 : Envelope
message_7 = record {
  identifier = none;
  message_type = some response;
  xid = some 7;
  content = dict end;
  error = none;
}

from_value-answer_7 : from_value no_text answer_7 ≡ Message.ok message_7
unfolding from_value
from_value-answer_7 = refl

response_7-IsResponse : IsResponse no_hash 32 no_text 7 e_opack response_7
unfolding is_auth is_opack
response_7-IsResponse = record {
  value = answer_7;
  consumed = length response_7;
  message = message_7;
  plain = refl;
  opack = refl;
  unpacked = unpack-response_7;
  reads = from_value-answer_7;
  kind = refl;
  number = refl;
}

abbrev answer_9 : Value
answer_9 =
    dict (field (string Message.key_xid) (uint 9) (field (string Message.key_type) (uint 3) end))

unpack-response_9 : unpack no_hash 32 response_9 ≡ Value.ok (answer_9, length response_9)
unfolding unpack is_utf8
unpack-response_9 = refl

abbrev number_of : Option ℕ → ℕ
number_of (some xid) = xid
number_of none = 0

abbrev xid_of : Message.Result Envelope → ℕ
xid_of (Message.ok m) = number_of m.xid
xid_of (Message.err e) = 0

xid_of-answer_9 : xid_of (from_value no_text answer_9) ≡ 9
unfolding from_value
xid_of-answer_9 = refl

abbrev read_value : Value.Result (Value × ℕ) → Value
read_value (Value.ok (v, n)) = v
read_value (Value.err e) = dict end

-- The stray response is none with the number 7.
response_9-IsOther : IsResponse no_hash 32 no_text 7 e_opack response_9 → ⊥
response_9-IsOther r =
    let value : answer_9 ≡ r.value = ap read_value (sym unpack-response_9 ∙ r.unpacked) in
    let nine : 9 ≡ 7 =
      sym xid_of-answer_9
      ∙ ap (λ v. xid_of (from_value no_text v)) value
      ∙ ap xid_of r.reads
      ∙ ap number_of r.number in
    omega (arith, nine)

-- The stray response is dropped, the frame behind the answer is not read, and the number is free.
exchange_opack-sample :
    exchange_opack no_hash 32 no_text never e_opack (dict end) arriving (with_xid 7) ≡ (
      Protocol.ok answer_7,
      record (with_xid 8) { sent = (e_opack, 0xE1 ∷ 0x42 ∷ b'_' ∷ b'x' ∷ 0x0F ∷ []) ∷ [] },
      frame e_opack response_9 ∷ [],
    )
unfolding exchange_opack with_xid is_utf8 enter write_string intern_bytes lookup is_interned
    record_encoding write_uint container_tag count_fields finish_container
exchange_opack-sample = refl

pump-IsAnswered_example :
    IsAnswered no_hash 32 no_text ℕ response_7-IsResponse.value response_7-IsResponse.message
      (frame e_opack response_9 ∷ [])
      (pump no_hash 32 no_text
        (for_xid 7)
        (frames no_hash 32 no_text ℕ ((e_opack, response_9) ∷ [])
          ++ frame e_opack response_7 ∷ frame e_opack response_9 ∷ [])
        (with_xid 7))
unfolding with_xid find_key
pump-IsAnswered_example =
    pump-IsAnswered no_hash 32 no_text ℕ 7 ((e_opack, response_9) ∷ []) e_opack response_7
      (frame e_opack response_9 ∷ []) (with_xid 7) refl (response_9-IsOther, tt)
      response_7-IsResponse

poll_once-IsTracked_example :
    IsTracked no_text (poll_once no_hash 32 no_text arriving (with_xid 7)).1
poll_once-IsTracked_example =
    poll_once-IsTracked ℕ no_hash 32 no_text arriving (with_xid 7) (with_xid-IsTracked no_text 7)

abbrev volume_request : Envelope
volume_request = record {
  identifier = some (b'_' ∷ b'm' ∷ []);
  message_type = some request;
  xid = some 7;
  content = dict end;
  error = none;
}

from_value-to_value_example :
    from_value no_text (to_value volume_request) ≡ Message.ok volume_request
from_value-to_value_example = from_value-to_value no_text volume_request refl (omega arith)

from_byte_iff_type_example : (from_byte 8 ≡ some e_opack) ↔ (type_byte e_opack ≡ 8)
from_byte_iff_type_example = from_byte_iff_type 8 e_opack

decode_header-encode_example :
    decode {E = ℕ} (encode (record { frame_type = e_opack; payload_length = 0x010203 }) ++ 9 ∷ [])
    ≡ ok (record { frame_type = e_opack; payload_length = 0x010203 })
decode_header-encode_example =
    decode_header-encode {E = ℕ} e_opack 0x010203
      (record { frame_type = e_opack; payload_length = 0x010203 }) (9 ∷ []) (unfold new in refl)

abbrev sender : FrameCodec
sender = record { buffer = []; cipher = some client }

abbrev receiver : FrameCodec
receiver = record { buffer = []; cipher = some device }

abbrev sent : FrameCodec
sent = record { buffer = []; cipher = some (record client { out_counter = 6 }) }

-- The length in the header counts the tag.
encode_sealed_frame :
    encode_payload toy e_opack (7 ∷ []) sender ≡ (sent, ok (8 ∷ 0 ∷ 0 ∷ 17 ∷ 7 ∷ zeros 16))
unfolding encode_payload sealed_length seal_body encode_sealed ciphered new encode type_byte encrypt
    next_counter encrypt_with_nonce answer zeros
encode_sealed_frame = refl

next_frame-encode_payload_example :
    (receiver' : FrameCodec) × (next_frame toy
        (push ((8 ∷ 0 ∷ 0 ∷ 17 ∷ 7 ∷ zeros 16) ++ 1 ∷ 2 ∷ []) receiver)
      ≡ (receiver', ok (some (record { frame_type = e_opack; payload = 7 ∷ [] }))))
    × (receiver'.buffer ≡ 1 ∷ 2 ∷ [])
    × AreTied (sent.cipher) receiver'.cipher
next_frame-encode_payload_example =
    next_frame-encode_payload toy e_opack (7 ∷ []) (8 ∷ 0 ∷ 0 ∷ 17 ∷ 7 ∷ zeros 16) (1 ∷ 2 ∷ [])
      sender sent receiver toy-IsAead client-device-IsPaired refl encode_sealed_frame

next_frame-partial_example :
    next_frame toy (push (8 ∷ 0 ∷ 0 ∷ 17 ∷ 7 ∷ []) receiver)
    ≡ (push (8 ∷ 0 ∷ 0 ∷ 17 ∷ 7 ∷ []) receiver, ok none)
next_frame-partial_example =
    next_frame-partial toy e_opack (7 ∷ []) (8 ∷ 0 ∷ 0 ∷ 17 ∷ 7 ∷ []) (zeros 15) 0 sender sent
      receiver toy-IsAead client-device-IsPaired refl (unfold zeros in encode_sealed_frame)
