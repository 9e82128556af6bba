-- ===== src/Companion/Message.antt =====
-- crates/pyatv-proto-companion/src/message.rs: the envelope of a message. How `Debug` prints a value
-- is a parameter, since the derived text is the compiler's.
pub mod RoundTrip
use pyatv_rs.Prelude.{
  ℕ, ◌^◌, Bool, true, false, Option, none, some, List, [], ◌∷◌, ◌++◌, Bytes, ltb, ◌==◌,
  if◌then◌else◌,
}
use pyatv_rs.Opack.Value.{
  Value, Fields, dict, string, uint, end, field, as_str, as_u64, as_dict, get,
}
use mathlib.Core.Option

abbrev pub key_identifier : Bytes
key_identifier = b'_' ∷ b'i' ∷ []

abbrev pub key_type : Bytes
key_type = b'_' ∷ b't' ∷ []

abbrev pub key_xid : Bytes
key_xid = b'_' ∷ b'x' ∷ []

abbrev pub key_content : Bytes
key_content = b'_' ∷ b'c' ∷ []

abbrev pub key_error_message : Bytes
key_error_message = b'_' ∷ b'e' ∷ b'm' ∷ []

abbrev pub key_error_code : Bytes
key_error_code = b'_' ∷ b'e' ∷ b'c' ∷ []

abbrev pub key_error_domain : Bytes
key_error_domain = b'_' ∷ b'e' ∷ b'd' ∷ []

pub data MessageType : Type 0 where
  event request response : MessageType

unfoldable pub code : MessageType → ℕ
code event = 1
code request = 2
code response = 3

unfoldable pub from_code : ℕ → Option MessageType
from_code n =
    if n == 1
    then some event
    else if n == 2
    then some request
    else if n == 3
    then some response
    else none

pub record CommandError : Type 0 where
  pub message : Bytes
  pub error_code : Option ℕ
  pub domain : Option Bytes

pub record Envelope : Type 0 where
  pub identifier : Option Bytes
  pub message_type : Option MessageType
  pub xid : Option ℕ
  pub content : Value
  pub error : Option CommandError

-- The errors that a message can raise in this file.
pub data Error : Type 0 where
  not_a_dict : Value → Error
  rejected : Option Bytes → CommandError → Error

pub data Result {ℓ} (A : Type ℓ) : Type ℓ where
  ok : A → Result A
  err : Error → Result A

unfoldable pub outgoing : Bytes → MessageType → Value → Envelope
outgoing identifier message_type content = record {
  identifier = some identifier;
  message_type = some message_type;
  xid = none;
  content = content;
  error = none;
}

abbrev pub request_envelope : Bytes → Value → Envelope
unfolding outgoing
request_envelope identifier content = outgoing identifier request content

abbrev pub event_envelope : Bytes → Value → Envelope
unfolding outgoing
event_envelope identifier content = outgoing identifier event content

-- An entry that stands only when there is a value for it.
unfoldable pub optional_field : Bytes → Option Value → Fields → Fields
optional_field key none rest = rest
optional_field key (some v) rest = field (string key) v rest

unfoldable pub to_value : Envelope → Value
unfolding optional_field code
to_value e = dict (
    optional_field key_identifier (Option.map string e.identifier) (
      optional_field key_type (Option.map (λ t. uint (code t)) e.message_type) (
        field (string key_content) e.content (optional_field key_xid (Option.map uint e.xid) end))))

unfoldable pub and_then {ℓ κ} : {A : Type ℓ} {B : Type κ} → Option A → (A → Option B) → Option B
and_then none f = none
and_then (some a) f = f a

unfoldable pub try_u32 : ℕ → Option ℕ
try_u32 n = if ltb n (2 ^ 32) then some n else none

unfoldable pub or_empty_dict : Option Value → Value
or_empty_dict none = dict end
or_empty_dict (some v) = v

module _ (debug : Value → Bytes) where
  unfoldable pub error_text : Value → Bytes
  unfolding as_str
  error_text v = elim (as_str v) [ some s ↦ s | none ↦ debug v ]

  unfoldable pub command_error : Value → Value → CommandError
  unfolding get error_text and_then as_u64 as_str
  command_error v message = record {
    message = error_text message;
    error_code = and_then (get v key_error_code) as_u64;
    domain = and_then (get v key_error_domain) as_str;
  }

  unfoldable pub envelope_of : Value → Envelope
  unfolding get command_error and_then as_str as_u64 from_code try_u32 or_empty_dict
  envelope_of v = record {
    identifier = and_then (get v key_identifier) as_str;
    message_type = and_then (and_then (get v key_type) as_u64) from_code;
    xid = and_then (and_then (get v key_xid) as_u64) try_u32;
    content = or_empty_dict (get v key_content);
    error = Option.map (command_error v) (get v key_error_message);
  }

  unfoldable pub from_value : Value → Result Envelope
  unfolding as_dict envelope_of
  from_value v = elim (as_dict v) [ none ↦ err (not_a_dict v) | some fields ↦ ok (envelope_of v) ]

-- The command that the message names; the program puts a fixed text where there is none.
unfoldable pub into_result : Envelope → Result Envelope
into_result e = elim (e.error) [ none ↦ ok e | some error ↦ err (rejected e.identifier error) ]
