-- ===== src/Dns/Message.antt =====
-- Reading whole messages: `unpack` of crates/pyatv-mdns/src/dns/record.rs and message.rs. A query type
-- is its number, an address its octets. The name, type and class of a DnsResource are its owner, as a
-- question holds them.
use pyatv_rs.Prelude.{ℕ, zero, suc, ◌-◌, Option, List, [], ◌∷◌, Bytes, ◌==◌, if◌then◌else◌}
use pyatv_rs.Dns.Reader.{
  Result, ok, err, Reader, new, read_u16, read_u32, read_slice, invalid_address_length,
  rdata_length_mismatch,
}
use pyatv_rs.Dns.Name.{parse_name}
use pyatv_rs.Dns.Txt.{TxtRecords, parse_txt}
pub mod Total

-- `?` and what follows.
unfoldable pub and_then {ℓ κ} :
    {A : Type ℓ} {B : Type κ}
    → Result (A × Reader)
    → (A → Reader → Result (B × Reader))
    → Result (B × Reader)
and_then (err e) f = err e
and_then (ok (a, r)) f = f a r

abbrev pub type_a : ℕ
type_a = 0x0001

abbrev pub type_ptr : ℕ
type_ptr = 0x000C

abbrev pub type_txt : ℕ
type_txt = 0x0010

abbrev pub type_aaaa : ℕ
type_aaaa = 0x001C

abbrev pub type_srv : ℕ
type_srv = 0x0021

pub record SrvData : Type 0 where
  pub priority : ℕ
  pub weight : ℕ
  pub port : ℕ
  pub target : Bytes

pub data RecordData : Type 0 where
  a aaaa ptr other : Bytes → RecordData
  txt : TxtRecords → RecordData
  srv : SrvData → RecordData

pub record DnsQuestion : Type 0 where
  pub qname : Bytes
  pub qtype : ℕ
  pub qclass : ℕ

pub record DnsResource : Type 0 where
  pub owner : DnsQuestion
  pub ttl : ℕ
  pub rd : RecordData

pub record DnsHeader : Type 0 where
  pub id : ℕ
  pub flags : ℕ
  pub qdcount : ℕ
  pub ancount : ℕ
  pub nscount : ℕ
  pub arcount : ℕ

pub record DnsMessage : Type 0 where
  pub msg_id : ℕ
  pub msg_flags : ℕ
  pub questions : List DnsQuestion
  pub answers : List DnsResource
  pub authorities : List DnsResource
  pub resources : List DnsResource

unfoldable pub unpack_header : Reader → Result (DnsHeader × Reader)
unfolding and_then read_u16
unpack_header r = and_then (read_u16 r) (λ id r. and_then (read_u16 r) (λ flags r.
    and_then (read_u16 r) (λ qd r. and_then (read_u16 r) (λ an r. and_then (read_u16 r) (λ ns r.
      and_then (read_u16 r) (λ ar r. ok (
        record { id = id; flags = flags; qdcount = qd; ancount = an; nscount = ns; arcount = ar },
        r,
      )))))))

unfoldable pub read_address : ℕ → ℕ → Reader → Result (Bytes × Reader)
unfolding read_slice
read_address rd_length expected r =
    if rd_length == expected
    then read_slice expected r
    else err
        (invalid_address_length (if expected == 4 then type_a else type_aaaa) expected rd_length)

-- A loop that pushes what it reads.
unfoldable pub read_all :
    {A : Type 0} → (Reader → Result (A × Reader)) → ℕ → Reader → Result (List A × Reader)
unfolding and_then
read_all unpack zero r = ok ([], r)
read_all unpack (suc count) r =
    and_then (unpack r) (λ x r. and_then (read_all unpack count r) (λ xs r. ok (x ∷ xs, r)))

-- The check that ends the reading of a record.
unfoldable pub checked :
    ℕ → ℕ → DnsQuestion → ℕ → RecordData → Reader → Result (DnsResource × Reader)
checked rd_start rd_length owner ttl rd r =
    if r.position - rd_start == rd_length
    then ok (record { owner = owner; ttl = ttl; rd = rd }, r)
    else err (rdata_length_mismatch rd_length (r.position - rd_start))

module _ (decode_punycode : Bytes → Option Bytes) where
  unfoldable pub read_srv : Reader → Result (RecordData × Reader)
  unfolding and_then read_u16 parse_name
  read_srv r = and_then (read_u16 r) (λ priority r. and_then (read_u16 r) (λ weight r.
      and_then (read_u16 r) (λ port r. and_then (parse_name decode_punycode r) (λ target r.
        ok (
          srv (record { priority = priority; weight = weight; port = port; target = target }),
          r,
        )))))

  unfoldable pub parse_rdata : ℕ → ℕ → Reader → Result (RecordData × Reader)
  unfolding and_then read_address parse_name parse_txt read_srv read_slice
  parse_rdata qtype rd_length r =
      if qtype == type_a
      then and_then (read_address rd_length 4 r) (λ octets r. ok (a octets, r))
      else if qtype == type_aaaa
      then and_then (read_address rd_length 16 r) (λ octets r. ok (aaaa octets, r))
      else if qtype == type_ptr
      then and_then (parse_name decode_punycode r) (λ name r. ok (ptr name, r))
      else if qtype == type_txt
      then and_then (parse_txt rd_length r) (λ records r. ok (txt records, r))
      else if qtype == type_srv
      then read_srv r
      else and_then (read_slice rd_length r) (λ bytes r. ok (other bytes, r))

  -- `DnsQuestion::unpack`, with which the reading of a record begins too.
  unfoldable pub unpack_question : Reader → Result (DnsQuestion × Reader)
  unfolding and_then read_u16 parse_name
  unpack_question r = and_then (parse_name decode_punycode r) (λ qname r.
      and_then (read_u16 r) (λ qtype r.
        and_then (read_u16 r)
          (λ qclass r. ok (record { qname = qname; qtype = qtype; qclass = qclass }, r))))

  unfoldable pub unpack_resource : Reader → Result (DnsResource × Reader)
  unfolding and_then read_u16 read_u32 unpack_question parse_rdata checked
  unpack_resource r = and_then (unpack_question r) (λ owner r. and_then (read_u32 r) (λ ttl r.
      and_then (read_u16 r) (λ rd_length r.
        and_then (parse_rdata owner.qtype rd_length r) (checked r.position rd_length owner ttl))))

  unfoldable pub unpack_sections : DnsHeader → Reader → Result (DnsMessage × Reader)
  unfolding and_then read_all unpack_question unpack_resource
  unpack_sections h r = and_then (read_all unpack_question h.qdcount r) (λ questions r.
      and_then (read_all unpack_resource h.ancount r) (λ answers r.
        and_then (read_all unpack_resource h.nscount r) (λ authorities r.
          and_then (read_all unpack_resource h.arcount r) (λ resources r. ok (
            record {
              msg_id = h.id;
              msg_flags = h.flags;
              questions = questions;
              answers = answers;
              authorities = authorities;
              resources = resources;
            },
            r,
          )))))

  -- `DnsMessage::unpack`.
  unfoldable pub unpack_message : Bytes → Result (DnsMessage × Reader)
  unfolding and_then unpack_header unpack_sections
  unpack_message msg = and_then (unpack_header (new msg)) unpack_sections
