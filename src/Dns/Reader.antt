-- ===== src/Dns/Reader.antt =====
-- crates/pyatv-mdns/src/dns/reader.rs, a cursor over a whole message, and the errors of mod.rs that it
-- and the names give. Where an operation fails, the caller gives the message up, so an error comes
-- without a cursor. The sum of a position and a count is far from the end of a usize.
use pyatv_rs.Prelude.{ℕ, ◌+◌, ◌-◌, ◌*◌, [], ◌∷◌, Bytes, length, take, drop, ltb, if◌then◌else◌}

pub data Error : Type 0 where
  unexpected_eof : (needed available : ℕ) → Error
  offset_out_of_bounds : (offset length' : ℕ) → Error
  compression_loop : Error
  reserved_label_type : ℕ → Error
  label_not_utf8 invalid_punycode : Bytes → Error
  txt_chunk_overruns_record : (chunk_length remaining' : ℕ) → Error
  non_ascii_txt_key : Bytes → Error
  invalid_address_length : (qtype expected length' : ℕ) → Error
  rdata_length_mismatch : (expected consumed : ℕ) → Error
  -- Not of the source: the fuel ran out.
  stuck : Error

pub data Result {ℓ} (A : Type ℓ) : Type ℓ where
  ok : A → Result A
  err : Error → Result A

pub record Reader : Type 0 where
  pub message : Bytes
  pub position : ℕ

abbrev pub new : Bytes → Reader
new message = record { message = message; position = 0 }

unfoldable pub remaining : Reader → ℕ
remaining r = length r.message - r.position

unfoldable pub seek : ℕ → Reader → Result Reader
seek position r =
    if ltb (length r.message) position
    then err (offset_out_of_bounds position (length r.message))
    else ok (record r { position = position })

unfoldable pub read_slice : ℕ → Reader → Result (Bytes × Reader)
unfolding remaining
read_slice count r =
    if ltb (length r.message) (r.position + count)
    then err (unexpected_eof count (remaining r))
    else ok (take count (drop r.position r.message), record r { position = r.position + count })

-- `from_be_bytes`, of as many bytes as there are.
unfoldable pub from_be_bytes : ℕ → Bytes → ℕ
from_be_bytes high [] = high
from_be_bytes high (byte ∷ bytes) = from_be_bytes (high * 256 + byte) bytes

unfoldable pub number_of : Result (Bytes × Reader) → Result (ℕ × Reader)
unfolding from_be_bytes
number_of (err e) = err e
number_of (ok (bytes, r)) = ok (from_be_bytes 0 bytes, r)

unfoldable pub read_u8 : Reader → Result (ℕ × Reader)
unfolding number_of read_slice
read_u8 r = number_of (read_slice 1 r)

unfoldable pub read_u16 : Reader → Result (ℕ × Reader)
unfolding number_of read_slice
read_u16 r = number_of (read_slice 2 r)

unfoldable pub read_u32 : Reader → Result (ℕ × Reader)
unfolding number_of read_slice
read_u32 r = number_of (read_slice 4 r)
