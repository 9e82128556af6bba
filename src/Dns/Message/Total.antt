-- ===== src/Dns/Message/Total.antt =====
-- Reading whole messages, well formed or not.
use pyatv_rs.Prelude.{
  ℕ, zero, suc, ◌≤◌, ◌≡◌, refl, ap, Bool-cases, inl, inr, ◌∷◌, Bytes, length, Option, ◌==◌, ◌-◌,
  ◌+◌, ltb, arith,
}
use pyatv_rs.Dns.Reader.{Result, ok, err, Reader, new, read_u16, read_u32, read_slice, number_of}
use pyatv_rs.Dns.Name.{parse_name}
use pyatv_rs.Dns.Name.Total.{IsError, MovesOn, parse_name-MovesOn}
use pyatv_rs.Dns.Txt.{TxtRecords, parse_txt}
use pyatv_rs.Dns.Txt.Total.{EndsAt, parse_txt-EndsAt}
use pyatv_rs.Dns.Message.{
  and_then, DnsQuestion, DnsHeader, DnsMessage, RecordData, unpack_header, read_address, read_all,
  checked, read_srv, parse_rdata, unpack_question, unpack_resource, unpack_sections, unpack_message,
  type_a, type_aaaa, type_ptr, type_txt, type_srv,
}

-- An operation that fails with an error of the source, or gives what the predicate asks and does not
-- move the cursor back.
abbrev pub Gives : {A : Type 0} → (A → Type 0) → Reader → Result (A × Reader) → Type 0
Gives P r (err e) = IsError e
Gives P r (ok (a, r')) = P a × (r.position ≤ r'.position)

abbrev Any : {A : Type 0} → A → Type 0
Any a = Unit {0}

weakened :
    {A : Type 0} (P : A → Type 0) (r r' : Reader) (o : Result (A × Reader))
    → r.position ≤ r'.position
    → Gives P r' o
    → Gives P r o
weakened P r r' (err e) b h = h
weakened P r r' (ok (a, r'')) b h = (h.0, omega (arith, b, h.1))

and_then-Gives :
    {A B : Type 0} (P : A → Type 0) (Q : B → Type 0) (r : Reader) (o : Result (A × Reader))
    (f : A → Reader → Result (B × Reader))
    → Gives P r o
    → ((a : A) (r' : Reader) → P a → Gives Q r' (f a r'))
    → Gives Q r (and_then o f)
unfolding and_then
and_then-Gives P Q r (err e) f h g = h
and_then-Gives P Q r (ok (a, r')) f h g = weakened Q r r' (f a r') h.1 (g a r' h.0)

read_slice-Gives : (n : ℕ) (r : Reader) → Gives Any r (read_slice n r)
unfolding read_slice
read_slice-Gives n r = elim (Bool-cases (ltb (length r.message) (r.position + n))) [
  | inl b ↦ rw (b, read_slice) tt
  | inr b ↦ rw (b, read_slice) (tt, omega arith)
]

number_of-Gives :
    (r : Reader) (o : Result (Bytes × Reader)) → Gives Any r o → Gives Any r (number_of o)
unfolding number_of
number_of-Gives r (err e) h = h
number_of-Gives r (ok (bytes, r')) h = (tt, h.1)

read_u16-Gives : (r : Reader) → Gives Any r (read_u16 r)
unfolding read_u16
read_u16-Gives r = number_of-Gives r (read_slice 2 r) (read_slice-Gives 2 r)

read_u32-Gives : (r : Reader) → Gives Any r (read_u32 r)
unfolding read_u32
read_u32-Gives r = number_of-Gives r (read_slice 4 r) (read_slice-Gives 4 r)

MovesOn-Gives : {A : Type 0} (r : Reader) (o : Result (A × Reader)) → MovesOn r o → Gives Any r o
MovesOn-Gives r (err e) h = h
MovesOn-Gives r (ok (a, r')) h = (tt, omega (arith, h.behind))

EndsAt-Gives :
    (r : Reader) (n : ℕ) (o : Result (TxtRecords × Reader))
    → EndsAt r (r.position + n) o
    → Gives Any r o
EndsAt-Gives r n (err e) h = h
EndsAt-Gives r n (ok (records, r')) h = (tt, omega (arith, h.1))

stay : (r : Reader) → r.position ≤ r.position
stay r = omega arith

-- Reading a value and going on without moving.
wrapped :
    {A B : Type 0} (r : Reader) (o : Result (A × Reader)) (f : A → B)
    → Gives Any r o
    → Gives Any r (and_then o (λ a r'. ok (f a, r')))
wrapped r o f h = and_then-Gives Any Any r o (λ a r'. ok (f a, r')) h (λ a r' i. (tt, stay r'))

read_address-Gives :
    (rd_length expected : ℕ) (r : Reader) → Gives Any r (read_address rd_length expected r)
unfolding read_address
read_address-Gives rd_length expected r = elim (Bool-cases (rd_length == expected)) [
  | inl b ↦ rw (b, read_address) (read_slice-Gives expected r)
  | inr b ↦ rw (b, read_address) tt
]

checked-Gives :
    (start rd_length ttl : ℕ) (owner : DnsQuestion) (rd : RecordData) (r : Reader)
    → Gives Any r (checked start rd_length owner ttl rd r)
unfolding checked
checked-Gives start rd_length ttl owner rd r = elim (Bool-cases (r.position - start == rd_length)) [
  | inl b ↦ rw (b, checked) (tt, stay r)
  | inr b ↦ rw (b, checked) tt
]

read_all-Gives :
    {A : Type 0} (unpack : Reader → Result (A × Reader)) (count : ℕ) (r : Reader)
    → ((r : Reader) → Gives Any r (unpack r))
    → Gives (λ xs. length xs ≡ count) r (read_all unpack count r)
unfolding read_all
read_all-Gives unpack zero r h = (refl, stay r)
read_all-Gives unpack (suc count) r h =
    and_then-Gives Any (λ xs. length xs ≡ suc count) r (unpack r)
      (λ x r. and_then (read_all unpack count r) (λ xs r. ok (x ∷ xs, r))) (h r)
      (λ x r i.
        and_then-Gives (λ xs. length xs ≡ count) (λ xs. length xs ≡ suc count) r
          (read_all unpack count r) (λ xs r. ok (x ∷ xs, r)) (read_all-Gives unpack count r h)
          (λ xs r j. (ap suc j, stay r)))

unpack_header-Gives : (r : Reader) → Gives Any r (unpack_header r)
unfolding unpack_header
unpack_header-Gives r = and_then-Gives Any Any r (read_u16 r) _ (read_u16-Gives r) (λ id r i.
    and_then-Gives Any Any r (read_u16 r) _ (read_u16-Gives r) (λ flags r i.
      and_then-Gives Any Any r (read_u16 r) _ (read_u16-Gives r) (λ qd r i.
        and_then-Gives Any Any r (read_u16 r) _ (read_u16-Gives r) (λ an r i.
          and_then-Gives Any Any r (read_u16 r) _ (read_u16-Gives r) (λ ns r i.
            and_then-Gives Any Any r (read_u16 r) _ (read_u16-Gives r) (λ ar r i. (tt, stay r)))))))

module _ (decode_punycode : Bytes → Option Bytes) where
  name-Gives : (r : Reader) → Gives Any r (parse_name decode_punycode r)
  name-Gives r =
      MovesOn-Gives r (parse_name decode_punycode r) (parse_name-MovesOn decode_punycode r)

  read_srv-Gives : (r : Reader) → Gives Any r (read_srv decode_punycode r)
  unfolding read_srv
  read_srv-Gives r = and_then-Gives Any Any r (read_u16 r) _ (read_u16-Gives r) (λ priority r i.
      and_then-Gives Any Any r (read_u16 r) _ (read_u16-Gives r) (λ weight r i.
        and_then-Gives Any Any r (read_u16 r) _ (read_u16-Gives r) (λ port r i.
          and_then-Gives Any Any r (parse_name decode_punycode r) _ (name-Gives r)
            (λ target r i. (tt, stay r)))))

  parse_rdata-Gives :
      (qtype rd_length : ℕ) (r : Reader)
      → Gives Any r (parse_rdata decode_punycode qtype rd_length r)
  unfolding parse_rdata
  parse_rdata-Gives qtype rd_length r = elim (Bool-cases (qtype == type_a)) [
    | inl a ↦
        rw (a, parse_rdata)
          (wrapped r (read_address rd_length 4 r) RecordData.a (read_address-Gives rd_length 4 r))
    | inr a ↦ elim (Bool-cases (qtype == type_aaaa)) [
      | inl b ↦
          rw (a, parse_rdata, b)
            (wrapped r (read_address rd_length 16 r) RecordData.aaaa
              (read_address-Gives rd_length 16 r))
      | inr b ↦ elim (Bool-cases (qtype == type_ptr)) [
        | inl c ↦
            rw (a, parse_rdata, b, c)
              (wrapped r (parse_name decode_punycode r) RecordData.ptr (name-Gives r))
        | inr c ↦ elim (Bool-cases (qtype == type_txt)) [
          | inl d ↦
              rw (a, parse_rdata, b, c, d)
                (wrapped r (parse_txt rd_length r) RecordData.txt
                  (EndsAt-Gives r rd_length (parse_txt rd_length r) (parse_txt-EndsAt rd_length r)))
          | inr d ↦ elim (Bool-cases (qtype == type_srv)) [
            | inl e ↦ rw (a, parse_rdata, b, c, d, e) (read_srv-Gives r)
            | inr e ↦
                rw (a, parse_rdata, b, c, d, e)
                  (wrapped r (read_slice rd_length r) RecordData.other
                    (read_slice-Gives rd_length r))
          ]
        ]
      ]
    ]
  ]

  unpack_question-Gives : (r : Reader) → Gives Any r (unpack_question decode_punycode r)
  unfolding unpack_question
  unpack_question-Gives r =
      and_then-Gives Any Any r (parse_name decode_punycode r) _ (name-Gives r) (λ qname r i.
        and_then-Gives Any Any r (read_u16 r) _ (read_u16-Gives r) (λ qtype r i.
          and_then-Gives Any Any r (read_u16 r) _ (read_u16-Gives r) (λ qclass r i. (tt, stay r))))

  unpack_resource-Gives : (r : Reader) → Gives Any r (unpack_resource decode_punycode r)
  unfolding unpack_resource
  unpack_resource-Gives r =
      and_then-Gives Any Any r (unpack_question decode_punycode r) _ (unpack_question-Gives r)
        (λ owner r i. and_then-Gives Any Any r (read_u32 r) _ (read_u32-Gives r) (λ ttl r i.
          and_then-Gives Any Any r (read_u16 r) _ (read_u16-Gives r) (λ rd_length r i.
            and_then-Gives Any Any r (parse_rdata decode_punycode owner.qtype rd_length r)
              (checked r.position rd_length owner ttl) (parse_rdata-Gives owner.qtype rd_length r)
              (λ rd r' i. checked-Gives r.position rd_length ttl owner rd r'))))

  -- A message with as many entries in each section as its header says.
  abbrev pub HasCounts : DnsHeader → DnsMessage → Type 0
  HasCounts h m =
      (length m.questions ≡ h.qdcount)
      × ((length m.answers ≡ h.ancount)
          × ((length m.authorities ≡ h.nscount) × (length m.resources ≡ h.arcount)))

  unpack_sections-Gives :
      (h : DnsHeader) (r : Reader) → Gives (HasCounts h) r (unpack_sections decode_punycode h r)
  unfolding unpack_sections
  unpack_sections-Gives h r =
      and_then-Gives (λ xs. length xs ≡ h.qdcount) (HasCounts h) r
        (read_all (unpack_question decode_punycode) h.qdcount r) _
        (read_all-Gives (unpack_question decode_punycode) h.qdcount r unpack_question-Gives)
        (λ questions r q.
          and_then-Gives (λ xs. length xs ≡ h.ancount) (HasCounts h) r
            (read_all (unpack_resource decode_punycode) h.ancount r) _
            (read_all-Gives (unpack_resource decode_punycode) h.ancount r unpack_resource-Gives)
            (λ answers r a.
              and_then-Gives (λ xs. length xs ≡ h.nscount) (HasCounts h) r
                (read_all (unpack_resource decode_punycode) h.nscount r) _
                (read_all-Gives (unpack_resource decode_punycode) h.nscount r unpack_resource-Gives)
                (λ authorities r n.
                  and_then-Gives (λ xs. length xs ≡ h.arcount) (HasCounts h) r
                    (read_all (unpack_resource decode_punycode) h.arcount r) _
                    (read_all-Gives (unpack_resource decode_punycode) h.arcount r
                      unpack_resource-Gives)
                    (λ resources r m. ((q, (a, (n, m))), stay r)))))

  -- A message, against its header.
  abbrev pub IsCounted : Result (DnsHeader × Reader) → Result (DnsMessage × Reader) → Type 0
  IsCounted (err e) o = IsError e × (o ≡ err e)
  IsCounted (ok (h, r)) o = Gives (HasCounts h) r o

  after_header :
      (r : Reader) (o : Result (DnsHeader × Reader))
      → Gives Any r o
      → IsCounted o (and_then o (unpack_sections decode_punycode))
  unfolding and_then
  after_header r (err e) h = (h, refl)
  after_header r (ok (header, r')) h = unpack_sections-Gives header r'

  -- Reading a message ends on every input. It fails with the header's error, or with an error of the
  -- source, or it gives as many entries in each section as the header says, and never moves the cursor
  -- behind the header back.
  pub unpack_message-IsCounted :
      (msg : Bytes) → IsCounted (unpack_header (new msg)) (unpack_message decode_punycode msg)
  unfolding unpack_message
  unpack_message-IsCounted msg =
      after_header (new msg) (unpack_header (new msg)) (unpack_header-Gives (new msg))
