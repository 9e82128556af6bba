-- ===== src/Opack/Reads/Payloads.antt =====
-- Strings and byte strings, inline and behind a length prefix.
use pyatv_rs.Prelude.{
  ℕ, ◌+◌, ◌^◌, ◌≤◌, ◌<◌, ◌≡◌, ◌≢◌, refl, true, List, ◌∷◌, ◌++◌, Bytes, length, append_assoc,
  to_le_bytes, length-to_le_bytes, length-append, is_utf8, arith, leb, Bool-cases, inl, inr,
}
use pyatv_rs.Opack.Value.{string, byte_data, ok}
use pyatv_rs.Opack.Objects.{UnpackTable}
use pyatv_rs.Opack.Ser.{write_string, write_data}
use pyatv_rs.Opack.De.{le_len, arm_of, decode_arm, string_len_arm, data_len_arm}
use pyatv_rs.Opack.Leaf.{le_uint_lem, text_lem, octets_lem, arm-string, arm-data}
use pyatv_rs.Opack.Spec.{payload}
use pyatv_rs.Opack.Reads.{Reads, Reads-along}

module _ (hash : List ℕ → ℕ) (element_cost : ℕ) (table : UnpackTable) (depth budget : ℕ)
    (hb : budget < 2 ^ 64) where
  string_inline_Reads :
      (text : Bytes)
      → is_utf8 text ≡ true
      → length text ≤ 0x20
      → Reads hash element_cost table depth budget hb
          ((0x40 + length text) ∷ text)
          (string text)
          true
  unfolding decode_arm payload
  string_inline_Reads bytes valid h = record {
    head = 0x40 + length bytes;
    tail = bytes;
    split = refl;
    low = omega arith;
    no_terminator = omega arith;
    reads = λ a b start rest o s room.
        rw
          (
            arm-string (length bytes) h,
            text_lem table depth budget (length bytes) start bytes rest (o + 1) s hb valid refl
                room,
          )
          (ground arith);
  }

  string_len_Reads :
      (t k : ℕ) (bytes : Bytes)
      → arm_of t ≡ string_len_arm k
      → t < 0xA0
      → t ≢ 3
      → is_utf8 bytes ≡ true
      → length bytes < 256 ^ k
      → Reads hash element_cost table depth budget hb
          (t ∷ (to_le_bytes k (length bytes) ++ bytes))
          (string bytes)
          true
  unfolding decode_arm payload le_len
  string_len_Reads t k bytes arm low no_end valid h = record {
    head = t;
    tail = to_le_bytes k (length bytes) ++ bytes;
    split = refl;
    low = low;
    no_terminator = no_end;
    reads = λ a b start rest o s room.
        rw
          (
            arm,
            append_assoc (to_le_bytes k (length bytes)) bytes rest,
            le_uint_lem table depth budget k (length bytes) (bytes ++ rest) (o + 1) s h,
            text_lem table depth budget (length bytes) start bytes rest (o + 1 + k) s hb valid refl
                room,
          )
          (ground (
            arith,
            length-append (to_le_bytes k (length bytes)) bytes,
            length-to_le_bytes k (length bytes),
          ));
  }

  data_inline_Reads :
      (bytes : Bytes)
      → length bytes ≤ 0x20
      → Reads hash element_cost table depth budget hb
          ((0x70 + length bytes) ∷ bytes)
          (byte_data bytes)
          true
  unfolding decode_arm payload
  data_inline_Reads bytes h = record {
    head = 0x70 + length bytes;
    tail = bytes;
    split = refl;
    low = omega arith;
    no_terminator = omega arith;
    reads = λ a b start rest o s room.
        rw
          (
            arm-data (length bytes) h,
            octets_lem table depth budget (length bytes) bytes rest (o + 1) s hb refl room,
          )
          (ground arith);
  }

  data_len_Reads :
      (t k : ℕ) (bytes : Bytes)
      → arm_of t ≡ data_len_arm k
      → t < 0xA0
      → t ≢ 3
      → length bytes < 256 ^ k
      → Reads hash element_cost table depth budget hb
          (t ∷ (to_le_bytes k (length bytes) ++ bytes))
          (byte_data bytes)
          true
  unfolding decode_arm payload le_len
  data_len_Reads t k bytes arm low no_end h = record {
    head = t;
    tail = to_le_bytes k (length bytes) ++ bytes;
    split = refl;
    low = low;
    no_terminator = no_end;
    reads = λ a b start rest o s room.
        rw
          (
            arm,
            append_assoc (to_le_bytes k (length bytes)) bytes rest,
            le_uint_lem table depth budget k (length bytes) (bytes ++ rest) (o + 1) s h,
            octets_lem table depth budget (length bytes) bytes rest (o + 1 + k) s hb refl room,
          )
          (ground (
            arith,
            length-append (to_le_bytes k (length bytes)) bytes,
            length-to_le_bytes k (length bytes),
          ));
  }

  pub string_Reads :
      (content bytes : Bytes)
      → is_utf8 content ≡ true
      → write_string content ≡ ok bytes
      → Reads hash element_cost table depth budget hb bytes (string content) true
  string_Reads content bytes valid h = elim (Bool-cases (leb (length content) 0x20)) [
    | inl e ↦
        Reads-along hash element_cost table depth budget hb
          (string_inline_Reads content valid (ground arith)) (unfold write_string in ground arith)
    | inr e ↦ elim (Bool-cases (leb (length content) 0xFF)) [
      | inl e₁ ↦
          Reads-along hash element_cost table depth budget hb
            (string_len_Reads 0x61 1 content (unfold arm_of in refl) (omega arith) (omega arith)
              valid (ground arith))
            (unfold write_string in ground arith)
      | inr e₁ ↦ elim (Bool-cases (leb (length content) 0xFFFF)) [
        | inl e₂ ↦
            Reads-along hash element_cost table depth budget hb
              (string_len_Reads 0x62 2 content (unfold arm_of in refl) (omega arith) (omega arith)
                valid (ground arith))
              (unfold write_string in ground arith)
        | inr e₂ ↦ elim (Bool-cases (leb (length content) 0x00FF_FFFF)) [
          | inl e₃ ↦
              Reads-along hash element_cost table depth budget hb
                (string_len_Reads 0x63 3 content (unfold arm_of in refl) (omega arith) (omega arith)
                  valid (ground arith))
                (unfold write_string in ground arith)
          | inr e₃ ↦ elim (Bool-cases (leb (length content) 0xFFFF_FFFF)) [
            | inl e₄ ↦
                Reads-along hash element_cost table depth budget hb
                  (string_len_Reads 0x64 4 content (unfold arm_of in refl) (omega arith)
                    (omega arith) valid (ground arith))
                  (unfold write_string in ground arith)
            | inr e₄ ↦ absurd (unfold write_string in ground arith)
          ]
        ]
      ]
    ]
  ]

  pub data_Reads :
      (bytes : Bytes)
      → length bytes < 2 ^ 64
      → Reads hash element_cost table depth budget hb (write_data bytes) (byte_data bytes) true
  data_Reads bytes h = elim (Bool-cases (leb (length bytes) 0x20)) [
    | inl e ↦
        Reads-along hash element_cost table depth budget hb (data_inline_Reads bytes (ground arith))
          (unfold write_data in ground arith)
    | inr e ↦ elim (Bool-cases (leb (length bytes) 0xFF)) [
      | inl e₁ ↦
          Reads-along hash element_cost table depth budget hb
            (data_len_Reads 0x91 1 bytes (unfold arm_of in refl) (omega arith) (omega arith)
              (ground arith))
            (unfold write_data in ground arith)
      | inr e₁ ↦ elim (Bool-cases (leb (length bytes) 0xFFFF)) [
        | inl e₂ ↦
            Reads-along hash element_cost table depth budget hb
              (data_len_Reads 0x92 2 bytes (unfold arm_of in refl) (omega arith) (omega arith)
                (ground arith))
              (unfold write_data in ground arith)
        | inr e₂ ↦ elim (Bool-cases (leb (length bytes) 0xFFFF_FFFF)) [
          | inl e₃ ↦
              Reads-along hash element_cost table depth budget hb
                (data_len_Reads 0x93 4 bytes (unfold arm_of in refl) (omega arith) (omega arith)
                  (ground arith))
                (unfold write_data in ground arith)
          | inr e₃ ↦
              Reads-along hash element_cost table depth budget hb
                (data_len_Reads 0x94 8 bytes (unfold arm_of in refl) (omega arith) (omega arith)
                  (omega arith))
                (unfold write_data in ground arith)
        ]
      ]
    ]
  ]
