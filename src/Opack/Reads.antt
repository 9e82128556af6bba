-- ===== src/Opack/Reads.antt =====
-- The bytes that the encoder writes for a leaf are read back by the decoder's match on the tag.
pub mod Payloads
pub mod Leaves
use pyatv_rs.Prelude.{
  ℕ, zero, suc, ◌+◌, ◌-◌, ◌*◌, ◌^◌, ◌≤◌, ◌<◌, ◌≡◌, ◌≢◌, refl, sym, ap, ◌∙◌, Bool, true, false, List,
  [], ◌∷◌, ◌++◌, Bytes, length, append_assoc, to_le_bytes, from_le_bytes, from_le_bytes-to_le_bytes,
  length-to_le_bytes, length-append, is_utf8, arith, leb, ltb, if◌then◌else◌, some, subst,
  Bool-cases, inl, inr,
}
use pyatv_rs.Opack.Tags
use pyatv_rs.Opack.Value.{
  Value, UintWidth, one, two, four, eight, byte_count, width_tag, narrowest_for, null, bool, uint,
  sized_uint, float, float32, string, byte_data, uuid, absolute_time, Result, ok, err,
}
use pyatv_rs.Opack.Objects.{UnpackTable}
use pyatv_rs.Opack.Ser.{
  Encoder, write_sized, write_sized_uint, write_string, write_data, write_uint, write, emit,
  is_interned,
}
use pyatv_rs.Opack.De.{
  M, take, le_uint, le_len, text, octets, sized, Arm, arm_of, decode_arm, sized_arm, string_arm,
  string_len_arm, data_arm, data_len_arm, small_int_arm,
}
use pyatv_rs.Opack.Leaf.{
  at, take_exact, le_uint_lem, text_lem, octets_lem, arm-small_int, arm-string, arm-data, arm-sized,
  width_of-width_tag,
}
use pyatv_rs.Opack.Spec.{LeafFits, payload, norm}

module _ (hash : List ℕ → ℕ) (element_cost : ℕ) (table : UnpackTable) (depth budget : ℕ)
    (hb : budget < 2 ^ 64) where
  -- `bytes` is a tag and what stands behind it, and the arm of that tag reads `v`.
  pub record Reads (bytes : Bytes) (v : Value) (slot : Bool) : Type 0 where
    pub head : ℕ
    pub tail : Bytes
    pub split : bytes ≡ head ∷ tail
    pub low : head < 0xA0
    pub no_terminator : head ≢ 3
    pub reads :
        (array_body dict_body : ℕ → M Value) (start : ℕ) (rest : Bytes) (o s : ℕ)
        → s + payload v ≤ budget
        → decode_arm hash element_cost array_body dict_body head start
            (arm_of head)
            (at table depth budget (tail ++ rest) (o + 1) s)
          ≡ ok ((v, slot), at table depth budget rest (o + length bytes) (s + payload v))

  pub null-Reads : Reads (Tags.null_tag ∷ []) null false
  unfolding decode_arm arm_of payload
  null-Reads = record {
    head = Tags.null_tag;
    tail = [];
    split = refl;
    low = omega arith;
    no_terminator = omega arith;
    reads = λ a b start rest o s room. ground arith;
  }

  pub true-Reads : Reads (Tags.true_tag ∷ []) (bool true) false
  unfolding decode_arm arm_of payload
  true-Reads = record {
    head = Tags.true_tag;
    tail = [];
    split = refl;
    low = omega arith;
    no_terminator = omega arith;
    reads = λ a b start rest o s room. ground arith;
  }

  pub false-Reads : Reads (Tags.false_tag ∷ []) (bool false) false
  unfolding decode_arm arm_of payload
  false-Reads = record {
    head = Tags.false_tag;
    tail = [];
    split = refl;
    low = omega arith;
    no_terminator = omega arith;
    reads = λ a b start rest o s room. ground arith;
  }

  pub small_Reads : (n : ℕ) → n < 0x28 → Reads ((n + 8) ∷ []) (uint n) false
  unfolding decode_arm payload
  small_Reads n h = record {
    head = n + 8;
    tail = [];
    split = refl;
    low = omega arith;
    no_terminator = omega arith;
    reads = λ a b start rest o s room. rw (arm-small_int n h) (ground arith);
  }

  pub uuid_Reads : (u : Bytes) → length u ≡ 16 → Reads (Tags.uuid_tag ∷ u) (uuid u) true
  unfolding decode_arm arm_of payload
  uuid_Reads u h = record {
    head = Tags.uuid_tag;
    tail = u;
    split = refl;
    low = omega arith;
    no_terminator = omega arith;
    reads = λ a b start rest o s room.
        rw (take_exact table depth budget 16 u rest (o + 1) s h) (ground arith);
  }

  pub float_Reads : (n : ℕ) → n < 2 ^ 64 → Reads (Tags.float64_tag ∷ to_le_bytes 8 n) (float n) true
  unfolding decode_arm arm_of payload
  float_Reads n h = record {
    head = Tags.float64_tag;
    tail = to_le_bytes 8 n;
    split = refl;
    low = omega arith;
    no_terminator = omega arith;
    reads = λ a b start rest o s room.
        rw (le_uint_lem table depth budget 8 n rest (o + 1) s h)
          (ground (arith, length-to_le_bytes 8 n));
  }

  pub float32_Reads :
      (n : ℕ) → n < 2 ^ 32 → Reads (Tags.float32_tag ∷ to_le_bytes 4 n) (float32 n) true
  unfolding decode_arm arm_of payload
  float32_Reads n h = record {
    head = Tags.float32_tag;
    tail = to_le_bytes 4 n;
    split = refl;
    low = omega arith;
    no_terminator = omega arith;
    reads = λ a b start rest o s room.
        rw
          (
            take_exact table depth budget 4 (to_le_bytes 4 n) rest (o + 1) s
                (length-to_le_bytes 4 n),
            from_le_bytes-to_le_bytes 4 n h,
          )
          (ground (arith, length-to_le_bytes 4 n));
  }

  -- Tags of the sized integers are below 0x34.
  pub width_low : (w : UintWidth) → (width_tag w < 0xA0) × (width_tag w ≢ 3)
  unfolding width_tag
  width_low one = omega arith
  width_low _ = omega arith

  pub sized_Reads :
      (n : ℕ) (w : UintWidth)
      → n < 256 ^ byte_count w
      → Reads (write_sized n w) (sized_uint n w) true
  unfolding decode_arm payload write_sized sized
  sized_Reads n w h = record {
    head = width_tag w;
    tail = to_le_bytes (byte_count w) n;
    split = refl;
    low = (width_low w).0;
    no_terminator = (width_low w).1;
    reads = λ a b start rest o s room.
        rw
          (
            arm-sized w,
            width_of-width_tag w,
            le_uint_lem table depth budget (byte_count w) n rest (o + 1) s h,
          )
          (ground (arith, length-to_le_bytes (byte_count w) n));
  }

  pub Reads-along :
      {x y : Bytes} {v : Value} {slot : Bool} → Reads x v slot → x ≡ y → Reads y v slot
  Reads-along {v} {slot} r e = subst (λ b. Reads b v slot) e r
