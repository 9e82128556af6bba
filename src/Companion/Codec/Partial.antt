-- ===== src/Companion/Codec/Partial.antt =====
-- A frame that has not wholly arrived.
use pyatv_rs.Prelude.{
  ℕ, zero, suc, ◌+◌, ◌<◌, ◌≤◌, ◌≡◌, ◌∙◌, sym, ap, refl, subst, Option, none, [], ◌∷◌, ◌++◌, Bytes,
  length, take, ltb, arith, Bool-cases, inl, inr, length-append, le→ltb_false, lt→ltb,
}
use pyatv_rs.Chacha.{Aead, IsAead, Cipher}
use pyatv_rs.Chacha
use pyatv_rs.Companion.Frame.{
  FrameType, FrameHeader, ok, header_length, encode, decode, total_length, length-encode,
}
use pyatv_rs.Companion.Codec.{
  max_frame_payload, FrameCodec, push, sealed_length, encode_payload, next_frame, next_body,
}
use pyatv_rs.Companion.Codec.Body.{AreTied, seal_body-IsBody}
use pyatv_rs.Companion.Codec.Exchange.{encode_payload-IsEncoded, decode_head}

take-prefix : (n : ℕ) (xs ys : Bytes) → n ≤ length xs → take n (xs ++ ys) ≡ take n xs
take-prefix zero xs ys h = refl
take-prefix (suc n) [] ys h = absurd (omega arith)
take-prefix (suc n) (x ∷ xs) ys h = ap (λ t. x ∷ t) (take-prefix n xs ys (omega arith))

module _ (aead : Aead) where
  -- A buffer with a whole header and less than the payload that it declares.
  waits :
      (front : Bytes) (header : FrameHeader) (cipher : Option Cipher)
      → header_length ≤ length front
      → decode {E = Chacha.Error} (take header_length front) ≡ ok header
      → header.payload_length ≤ max_frame_payload
      → length front < header_length + header.payload_length
      → next_frame aead (record { buffer = front; cipher = cipher })
        ≡ (record { buffer = front; cipher = cipher }, ok none)
  unfolding next_frame next_body total_length
  waits front header cipher whole h limit short =
      rw
        (
          le→ltb_false (length front) header_length whole,
          h,
          next_body,
          le→ltb_false max_frame_payload header.payload_length limit,
          total_length,
          lt→ltb (length front) (header_length + header.payload_length) short,
        )
        refl

  starts :
      (front : Bytes) (cipher : Option Cipher)
      → length front < header_length
      → next_frame aead (record { buffer = front; cipher = cipher })
        ≡ (record { buffer = front; cipher = cipher }, ok none)
  unfolding next_frame
  starts front cipher short = rw (lt→ltb (length front) header_length short) refl

  -- While only a part of an encoded frame has arrived, taking the next frame gives none and leaves the
  -- codec as it is. The receiver's buffer was empty, both ends are in the clear or have ciphers in
  -- step, and the cipher opens what it sealed and adds 16 bytes.
  pub next_frame-partial :
      (t : FrameType) (payload front back : Bytes) (b : ℕ) (sender sender' receiver : FrameCodec)
      → IsAead aead
      → AreTied sender.cipher receiver.cipher
      → receiver.buffer ≡ []
      → encode_payload aead t payload sender ≡ (sender', ok (front ++ b ∷ back))
      → next_frame aead (push front receiver) ≡ (push front receiver, ok none)
  unfolding push
  next_frame-partial t payload front back b sender sender' receiver good tied clear h =
      subst
        (λ z.
          next_frame aead (record { buffer = z ++ front; cipher = receiver.cipher })
          ≡ (record { buffer = z ++ front; cipher = receiver.cipher }, ok none))
        (sym clear)
        (elim (Bool-cases (ltb (length front) header_length)) [
          | inl e ↦ starts front receiver.cipher (ground (arith, e))
          | inr e ↦
              let d =
                encode_payload-IsEncoded aead t payload (front ++ b ∷ back) sender sender' h in
              let s =
                seal_body-IsBody aead good sender.cipher sender'.cipher receiver.cipher payload
                  (encode d.header) d.body tied d.sealing in
              let size : d.header.payload_length ≡ sealed_length sender.cipher payload =
                ap (λ z. z.payload_length) d.header_is in
              let whole : header_length ≤ length front = ground (arith, e) in
              let fits : d.header.payload_length ≤ max_frame_payload =
                subst (λ n. n ≤ max_frame_payload) (sym size) d.limit in
              waits front d.header receiver.cipher whole
                (ap decode (
                    sym (take-prefix header_length front (b ∷ back) whole)
                    ∙ ap (take header_length) d.bytes_are)
                  ∙ decode_head aead d.header d.body fits)
                fits
                (omega (
                  arith,
                  ap length d.bytes_are,
                  length-append front (b ∷ back),
                  length-append (encode d.header) d.body,
                  length-encode d.header,
                  s.size,
                  size,
                ))
        ])
