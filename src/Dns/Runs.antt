-- ===== src/Dns/Runs.antt =====
-- Names at concrete inputs, and the properties applied there.
use pyatv_rs.Prelude.{
  ◌+◌, ◌≡◌, refl, Option, none, List, [], ◌∷◌, ◌++◌, Bytes, length, All, is_utf8, arith,
}
use pyatv_rs.Dns.Reader.{ok, err, compression_loop}
use pyatv_rs.Dns.Name.{decode_label, join, parse_name}
use pyatv_rs.Dns.Name.Total.{MovesOn, parse_name-MovesOn}
use pyatv_rs.Dns.Name.Spec.{at, IsName, ended, labelled, pointed, parse_name-IsName}
use pyatv_rs.Dns.Name.{encode_name_labels}
use pyatv_rs.Dns.Name.RoundTrip.{parse_name-encode_name_labels}
use pyatv_rs.Prelude.{some, bytes_eq, if◌then◌else◌}
use pyatv_rs.Dns.Txt.{TxtRecords, to_ascii_lowercase, is_ascii, get, insert, parse_txt, encode}
use pyatv_rs.Dns.Txt.RoundTrip.{IsEntry, parse_txt-encode}
use pyatv_rs.Dns.Txt.Total.{EndsAt, parse_txt-EndsAt, get-insert}
use pyatv_rs.Dns.Reader.{new}
use pyatv_rs.Dns.Message.{unpack_header, unpack_message}
use pyatv_rs.Dns.Message.Total.{IsCounted, unpack_message-IsCounted}
use pyatv_rs.Dns.Compress.{Offsets, encode_labels}
use pyatv_rs.Dns.Compress.Known.{IsPlain, closed}
use pyatv_rs.Dns.Compress.RoundTrip.{AreOffsets, parse_name-encode_labels}

abbrev no_punycode : Bytes → Option Bytes
no_punycode text = none

abbrev as_is : Bytes → Bytes
as_is text = text

abbrev tcp : Bytes
tcp = b'_' ∷ b't' ∷ b'c' ∷ b'p' ∷ []

abbrev local : Bytes
local = b'l' ∷ b'o' ∷ b'c' ∷ b'a' ∷ b'l' ∷ []

-- A pointer to itself.
abbrev looping : Bytes
looping = 0xC0 ∷ 0 ∷ []

parse_name-looping : parse_name no_punycode (at looping 0) ≡ err compression_loop
unfolding parse_name
parse_name-looping = refl

parse_name-MovesOn_example : MovesOn (at looping 0) (parse_name no_punycode (at looping 0))
parse_name-MovesOn_example = parse_name-MovesOn no_punycode (at looping 0)

-- `local` at the start, and `tcp` with a pointer to it behind.
abbrev pointing : Bytes
pointing = 5 ∷ (local ++ 0 ∷ 4 ∷ (tcp ++ 0xC0 ∷ 0 ∷ 9 ∷ []))

decode_label-local : decode_label no_punycode local ≡ ok local
unfolding decode_label is_utf8
decode_label-local = refl

decode_label-tcp : decode_label no_punycode tcp ≡ ok tcp
unfolding decode_label is_utf8
decode_label-tcp = refl

pointing-IsName : IsName no_punycode pointing 7 (tcp ∷ local ∷ []) 1 14
pointing-IsName =
    labelled 7 14 1 tcp tcp (local ∷ []) refl (omega arith) (omega arith) (omega arith) refl
      decode_label-tcp
      (pointed 12 7 0 0 0 (local ∷ []) (omega arith) refl refl (
        labelled 0 7 0 local local [] refl (omega arith) (omega arith) (omega arith) refl
          decode_label-local (ended 6 refl)))

parse_name-IsName_example :
    parse_name no_punycode (at pointing 7) ≡ ok (join (tcp ∷ local ∷ []), at pointing 14)
parse_name-IsName_example =
    parse_name-IsName no_punycode pointing 7 14 1 (tcp ∷ local ∷ []) (omega arith) pointing-IsName

tcp-IsPlain : IsPlain no_punycode as_is tcp
tcp-IsPlain = record {
  normal = refl;
  filled = omega arith;
  short = omega arith;
  reads = decode_label-tcp;
  printed = (
    (λ h. omega (arith, h)),
    ((λ h. omega (arith, h)), ((λ h. omega (arith, h)), ((λ h. omega (arith, h)), tt))),
  );
}

local-IsPlain : IsPlain no_punycode as_is local
local-IsPlain = record {
  normal = refl;
  filled = omega arith;
  short = omega arith;
  reads = decode_label-local;
  printed = (
    (λ h. omega (arith, h)),
    (
      (λ h. omega (arith, h)),
      ((λ h. omega (arith, h)), ((λ h. omega (arith, h)), ((λ h. omega (arith, h)), tt))),
    ),
  );
}

abbrev service : List Bytes
service = tcp ∷ local ∷ []

service-ArePlain : All (IsPlain no_punycode as_is) service
service-ArePlain = (tcp-IsPlain, (local-IsPlain, tt))

parse_name-encode_name_labels_example :
    parse_name no_punycode (at ((7 ∷ []) ++ (encode_name_labels as_is service ++ 9 ∷ [])) 1)
    ≡ ok (
      join service,
      at
          ((7 ∷ []) ++ (encode_name_labels as_is service ++ 9 ∷ []))
          (1 + length (encode_name_labels as_is service)),
    )
parse_name-encode_name_labels_example =
    parse_name-encode_name_labels no_punycode as_is service (7 ∷ []) (9 ∷ []) service-ArePlain

abbrev first : Offsets × Bytes
first = encode_labels as_is (closed service) [] (7 ∷ [])

-- The second name is a pointer to the first.
second_compressed :
    (encode_labels as_is (closed service) first.0 first.1).1
    ≡ 7 ∷ 4 ∷ (tcp ++ 5 ∷ (local ++ 0 ∷ 0xC0 ∷ 1 ∷ []))
unfolding encode_labels
second_compressed = refl

parse_name-encode_labels_example :
    (parse_name no_punycode (at (first.1 ++ 9 ∷ []) 1)
      ≡ ok (join service, at (first.1 ++ 9 ∷ []) (length first.1)))
    × AreOffsets no_punycode as_is (first.1 ++ 9 ∷ []) first.0
parse_name-encode_labels_example =
    parse_name-encode_labels no_punycode as_is service [] (7 ∷ []) (9 ∷ []) service-ArePlain
      (omega arith) tt

abbrev two_entries : List (Bytes × Bytes)
two_entries = (b'v' ∷ b'o' ∷ b'l' ∷ [], 1 ∷ b'=' ∷ []) ∷ (b'a' ∷ [], []) ∷ []

vol-IsEntry : IsEntry (b'v' ∷ b'o' ∷ b'l' ∷ [], 1 ∷ b'=' ∷ [])
unfolding to_ascii_lowercase is_ascii
vol-IsEntry = record {
  filled = omega arith;
  lowercase = refl;
  ascii = refl;
  unsplit = ((λ h. omega (arith, h)), ((λ h. omega (arith, h)), ((λ h. omega (arith, h)), tt)));
  short = omega arith;
}

a-IsEntry : IsEntry (b'a' ∷ [], [])
unfolding to_ascii_lowercase is_ascii
a-IsEntry = record {
  filled = omega arith;
  lowercase = refl;
  ascii = refl;
  unsplit = ((λ h. omega (arith, h)), tt);
  short = omega arith;
}

abbrev two_records : TxtRecords
two_records = record { entries = two_entries }

parse_txt-encode_example :
    parse_txt (length (encode two_records)) (at ((7 ∷ []) ++ (encode two_records ++ 9 ∷ [])) 1)
    ≡ ok (
      two_records,
      at ((7 ∷ []) ++ (encode two_records ++ 9 ∷ [])) (1 + length (encode two_records)),
    )
parse_txt-encode_example =
    parse_txt-encode two_entries (7 ∷ []) (9 ∷ []) (vol-IsEntry, (a-IsEntry, tt))
      (tt, ((refl, tt), tt))

-- A chunk that claims more than the record has.
parse_txt-EndsAt_example :
    EndsAt (at (3 ∷ b'a' ∷ b'=' ∷ []) 0) (0 + 3) (parse_txt 3 (at (3 ∷ b'a' ∷ b'=' ∷ []) 0))
parse_txt-EndsAt_example = parse_txt-EndsAt 3 (at (3 ∷ b'a' ∷ b'=' ∷ []) 0)

-- `VOL` and `vol` are one key.
get-insert_example :
    get (b'v' ∷ b'o' ∷ b'l' ∷ []) (insert (b'V' ∷ b'O' ∷ b'L' ∷ []) [] two_records).1 ≡ (
      if bytes_eq
        (to_ascii_lowercase (b'V' ∷ b'O' ∷ b'L' ∷ []))
        (to_ascii_lowercase (b'v' ∷ b'o' ∷ b'l' ∷ []))
      then some []
      else get (b'v' ∷ b'o' ∷ b'l' ∷ []) two_records)
get-insert_example = get-insert (b'V' ∷ b'O' ∷ b'L' ∷ []) (b'v' ∷ b'o' ∷ b'l' ∷ []) [] two_records

-- One question, for `local`.
abbrev asking : Bytes
asking = 0 ∷ 7 ∷ 0 ∷ 0 ∷ 0 ∷ 1 ∷ 0 ∷ 0 ∷ 0 ∷ 0 ∷ 0 ∷ 0 ∷ 5 ∷ (local ++ 0 ∷ 0 ∷ 12 ∷ 0 ∷ 1 ∷ [])

unpack_message-IsCounted_example :
    IsCounted no_punycode (unpack_header (new asking)) (unpack_message no_punycode asking)
unpack_message-IsCounted_example = unpack_message-IsCounted no_punycode asking
