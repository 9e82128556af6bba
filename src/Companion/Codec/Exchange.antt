-- ===== src/Companion/Codec/Exchange.antt =====
-- A frame that one end encodes is the frame that the other end takes from its buffer.
use pyatv_rs.Prelude.{
  ℕ, ◌+◌, ◌≤◌, ◌≡◌, ◌∙◌, sym, ap, subst, refl, Option, some, [], ◌++◌, Bytes, length, take, drop,
  ltb, arith, Bool-cases, inl, inr, length-append, take-append, drop-append, append_assoc,
  append-nil, le→ltb_false,
}
use pyatv_rs.Chacha.{Aead, IsAead, Cipher, auth_tag_length, encrypt, decrypt, aad_bytes, out_nonce}
use pyatv_rs.Chacha
use pyatv_rs.Companion.Frame.{
  FrameType, FrameHeader, over_limit, ok, err, header_length, new, encode, decode, total_length,
  decode-encode_fits, length-encode, err≢ok, ok_injective,
}
use pyatv_rs.Companion.Codec.{
  max_frame_payload, FrameCodec, Answer, push, sealed_length, seal_body, open_body, encode_sealed,
  encode_payload, frame_of, next_body, next_frame,
}
use pyatv_rs.Companion.Codec.Body.{AreTied, seal_body-IsBody}

module _ (aead : Aead) where
  -- A successful encoding, taken apart.
  pub record IsEncoded (t : FrameType) (payload bytes : Bytes) (sender sender' : FrameCodec)
      : Type 0 where
    pub header : FrameHeader
    pub body : Bytes
    pub limit : sealed_length sender.cipher payload ≤ max_frame_payload
    pub header_is :
        header ≡ record { frame_type = t; payload_length = sealed_length sender.cipher payload }
    pub sealing : seal_body aead sender.cipher payload (encode header) ≡ (sender'.cipher, ok body)
    pub bytes_are : bytes ≡ encode header ++ body

  encoded :
      (t : FrameType) (payload bytes body : Bytes) (sender sender' : FrameCodec)
      (header : FrameHeader) (cipher' : Option Cipher)
      → sealed_length sender.cipher payload ≤ max_frame_payload
      → header ≡ record { frame_type = t; payload_length = sealed_length sender.cipher payload }
      → seal_body aead sender.cipher payload (encode header) ≡ (cipher', ok body)
      → ◌≡◌ {A = FrameCodec × Answer Bytes}
          (record sender { cipher = cipher' }, ok (encode header ++ body))
          (sender', ok bytes)
      → IsEncoded t payload bytes sender sender'
  encoded t payload bytes body sender sender' header cipher' limit header_is sealing h = record {
    header = header;
    body = body;
    limit = limit;
    header_is = header_is;
    sealing = sealing ∙ ap (λ z. (z, ok body)) (ap (λ z. z.0.cipher) h);
    bytes_are = sym (ok_injective (encode header ++ body) bytes (ap (λ z. z.1) h));
  }

  sealed_case :
      (t : FrameType) (payload bytes : Bytes) (sender sender' : FrameCodec) (header : FrameHeader)
      (p : Option Cipher × Answer Bytes)
      → sealed_length sender.cipher payload ≤ max_frame_payload
      → header ≡ record { frame_type = t; payload_length = sealed_length sender.cipher payload }
      → seal_body aead sender.cipher payload (encode header) ≡ p
      → encode_sealed aead header p sender ≡ (sender', ok bytes)
      → IsEncoded t payload bytes sender sender'
  unfolding encode_sealed
  sealed_case t payload bytes sender sender' header (c, err e) limit header_is sealing h =
      absurd (err≢ok e bytes (ap (λ z. z.1) h))
  sealed_case t payload bytes sender sender' header (c, ok body) limit header_is sealing h =
      encoded t payload bytes body sender sender' header c limit header_is sealing h

  new_ok :
      (t : FrameType) (n : ℕ)
      → n ≤ max_frame_payload
      → new {E = Chacha.Error} t n ≡ ok (record { frame_type = t; payload_length = n })
  unfolding new
  new_ok t n h = rw (le→ltb_false 0x00FFFFFF n (omega arith)) refl

  pub encode_payload-IsEncoded :
      (t : FrameType) (payload bytes : Bytes) (sender sender' : FrameCodec)
      → encode_payload aead t payload sender ≡ (sender', ok bytes)
      → IsEncoded t payload bytes sender sender'
  unfolding encode_payload
  encode_payload-IsEncoded t payload bytes sender sender' h =
      elim (Bool-cases (ltb max_frame_payload (sealed_length sender.cipher payload))) [
        | inl o ↦ absurd (
            err≢ok (over_limit t (sealed_length sender.cipher payload)) bytes
              (ap (λ z. z.1) (rw (o, encode_payload) at h)))
        | inr o ↦
            let limit : sealed_length sender.cipher payload ≤ max_frame_payload = ground arith in
            sealed_case t payload bytes sender sender'
              (record { frame_type = t; payload_length = sealed_length sender.cipher payload })
              (seal_body aead sender.cipher payload (
                encode (record {
                  frame_type = t;
                  payload_length = sealed_length sender.cipher payload;
                })))
              limit refl refl
              (rw (o, encode_payload, new_ok t (sealed_length sender.cipher payload) limit) at h)
      ]

  parts_size :
      (header : FrameHeader) (body : Bytes)
      → length body ≡ header.payload_length
      → length (encode header ++ body) ≡ header_length + header.payload_length
  parts_size header body size =
      omega (arith, length-append (encode header) body, length-encode header, size)

  head_part :
      (header : FrameHeader) (more : Bytes)
      → take header_length (encode header ++ more) ≡ encode header
  head_part header more =
      ap (λ n. take n (encode header ++ more)) (sym (length-encode header))
      ∙ take-append (encode header) more

  tail_part :
      (header : FrameHeader) (more : Bytes) → drop header_length (encode header ++ more) ≡ more
  tail_part header more =
      ap (λ n. drop n (encode header ++ more)) (sym (length-encode header))
      ∙ drop-append (encode header) more

  pub decode_head :
      (header : FrameHeader) (more : Bytes)
      → header.payload_length ≤ max_frame_payload
      → decode {E = Chacha.Error} (take header_length (encode header ++ more)) ≡ ok header
  decode_head header more limit =
      ap decode (head_part header more ∙ sym (append-nil (encode header)))
      ∙ decode-encode_fits header [] (omega (arith, limit))

  frame_part :
      (header : FrameHeader) (body rest : Bytes)
      → length body ≡ header.payload_length
      → (take (header_length + header.payload_length) (encode header ++ (body ++ rest))
          ≡ encode header ++ body)
        × (drop (header_length + header.payload_length) (encode header ++ (body ++ rest)) ≡ rest)
  frame_part header body rest size =
      let n = parts_size header body size in
      (
        rw (sym n, sym (append_assoc (encode header) body rest))
            (take-append (encode header ++ body) rest),
        rw (sym n, sym (append_assoc (encode header) body rest))
            (drop-append (encode header ++ body) rest),
      )

  buffer_size :
      (header : FrameHeader) (body rest : Bytes)
      → length body ≡ header.payload_length
      → header_length + header.payload_length ≤ length (encode header ++ (body ++ rest))
  buffer_size header body rest size = omega (
    arith,
    length-append (encode header) (body ++ rest),
    length-append body rest,
    length-encode header,
    size,
  )

  -- What `next_frame` does with a buffer that starts with a whole frame.
  next_frame-whole :
      (header : FrameHeader) (body rest : Bytes) (cipher : Option Cipher)
      → header.payload_length ≤ max_frame_payload
      → length body ≡ header.payload_length
      → next_frame aead (record { buffer = encode header ++ (body ++ rest); cipher = cipher })
        ≡ frame_of aead header.frame_type rest (open_body aead cipher body (encode header))
  unfolding next_frame next_body total_length
  next_frame-whole header body rest cipher limit size =
      let room = buffer_size header body rest size in
      let (front, back) = frame_part header body rest size in
      rw
        (
          le→ltb_false (length (encode header ++ (body ++ rest))) header_length
              (omega (arith, room)),
          decode_head header (body ++ rest) limit,
          next_body,
          le→ltb_false max_frame_payload header.payload_length limit,
          total_length,
          le→ltb_false (length (encode header ++ (body ++ rest)))
              (header_length + header.payload_length) room,
          front,
          back,
          tail_part header body,
        )
        refl

  frame_of_lem :
      (t : FrameType) (rest : Bytes) (cipher : Option Cipher) (payload : Bytes)
      → frame_of aead t rest (cipher, ok payload) ≡ (
        record { buffer = rest; cipher = cipher },
        ok (some (record { frame_type = t; payload = payload })),
      )
  unfolding frame_of
  frame_of_lem t rest cipher payload = refl

  pushed :
      (head body bytes rest : Bytes) (receiver : FrameCodec)
      → receiver.buffer ≡ []
      → bytes ≡ head ++ body
      → push (bytes ++ rest) receiver
        ≡ record { buffer = head ++ (body ++ rest); cipher = receiver.cipher }
  unfolding push
  pushed head body bytes rest receiver clear e =
      ap (λ z. record { buffer = z ++ (bytes ++ rest); cipher = receiver.cipher }) clear
      ∙ ap (λ z. record { buffer = z; cipher = receiver.cipher })
          (ap (λ z. z ++ rest) e ∙ append_assoc head body rest)

  -- A frame that one codec encodes is the next frame of the other, whatever follows it in the stream:
  -- the type and the payload come back, the bytes behind it stay in the buffer, and the ciphers of
  -- the two ends are still in step. The receiver's buffer is empty before, both ends are in the clear
  -- or have ciphers in step, and the cipher opens what it sealed and adds 16 bytes.
  pub next_frame-encode_payload :
      (t : FrameType) (payload bytes rest : Bytes) (sender sender' receiver : FrameCodec)
      → IsAead aead
      → AreTied sender.cipher receiver.cipher
      → receiver.buffer ≡ []
      → encode_payload aead t payload sender ≡ (sender', ok bytes)
      → (receiver' : FrameCodec) × (next_frame aead (push (bytes ++ rest) receiver)
          ≡ (receiver', ok (some (record { frame_type = t; payload = payload }))))
        × (receiver'.buffer ≡ rest)
        × AreTied sender'.cipher receiver'.cipher
  next_frame-encode_payload t payload bytes rest sender sender' receiver good tied clear h =
      let e = encode_payload-IsEncoded t payload bytes sender sender' h in
      let b =
        seal_body-IsBody aead good sender.cipher sender'.cipher receiver.cipher payload
          (encode e.header) e.body tied e.sealing in
      let size : e.header.payload_length ≡ sealed_length sender.cipher payload =
        ap (λ z. z.payload_length) e.header_is in
      (
        record { buffer = rest; cipher = b.other' },
        ap (next_frame aead) (pushed (encode e.header) e.body bytes rest receiver clear e.bytes_are)
            ∙ next_frame-whole e.header e.body rest receiver.cipher
                (subst (λ n. n ≤ max_frame_payload) (sym size) e.limit) (b.size ∙ sym size)
            ∙ ap (frame_of aead e.header.frame_type rest) b.opened
            ∙ ap (λ k. frame_of aead k rest (b.other', ok payload))
                (ap (λ z. z.frame_type) e.header_is)
            ∙ frame_of_lem t rest b.other' payload,
        refl,
        b.tied,
      )
