-- ===== src/Opack/RoundTrip/Pointer.antt =====
-- A back-reference that the encoder emits resolves to the value of its slot.
use pyatv_rs.Prelude.{
  ℕ, ◌+◌, ◌/◌, ◌%◌, ◌^◌, ◌≤◌, ◌<◌, ◌≡◌, ◌≢◌, refl, false, some, List, [], ◌∷◌, ◌++◌, Bytes, length,
  get_elem?, to_le_bytes, arith, leb, Bool-cases, inl, inr, le→leb,
}
use pyatv_rs.Opack.Value.{Value, ok}
use pyatv_rs.Opack.Objects.{UnpackTable, get_value}
use pyatv_rs.Opack.Ser.{pointer_bytes}
use pyatv_rs.Opack.De.{
  M, le_len, resolve, back_reference, arm_of, decode_arm, pointer_arm, pointer_len_arm,
}
use pyatv_rs.Opack.Leaf.{at, le_uint_lem, charge_lem}

arm-pointer : (n : ℕ) → n ≤ 0x20 → arm_of (0xA0 + n) ≡ pointer_arm n
unfolding arm_of
arm-pointer n h = ground arith

resolve_lem :
    (ut : UnpackTable) (depth budget : ℕ) (rest : Bytes) (o s i : ℕ) (v : Value)
    → get_elem? ut.values i ≡ some v
    → resolve i (at ut depth budget rest o s) ≡ ok (v, at ut depth budget rest o s)
unfolding resolve get_value
resolve_lem ut depth budget rest o s i v h = ground arith

two_bytes : (i : ℕ) → i ≤ 0xFFFF → to_le_bytes 2 i ≡ (i % 256) ∷ (i / 256) ∷ []
unfolding to_le_bytes
two_bytes i h = ground arith

one_byte : (i : ℕ) → i ≤ 0xFF → to_le_bytes 1 i ≡ i ∷ []
unfolding to_le_bytes
one_byte i h = ground arith

module _ (hash : List ℕ → ℕ) (element_cost : ℕ) (ut : UnpackTable) (depth budget : ℕ)
    (hb : budget < 2 ^ 64) where
  -- `bytes` is a back-reference tag and its index, and the arm of the tag resolves to `v`.
  pub record Points (bytes : Bytes) (v : Value) : Type 0 where
    pub head : ℕ
    pub tail : Bytes
    pub split : bytes ≡ head ∷ tail
    pub no_terminator : head ≢ 3
    pub reads :
        (array_body dict_body : ℕ → M Value) (start : ℕ) (rest : Bytes) (o s : ℕ)
        → s + element_cost ≤ budget
        → decode_arm hash element_cost array_body dict_body head start
            (arm_of head)
            (at ut depth budget (tail ++ rest) (o + 1) s)
          ≡ ok ((v, false), at ut depth budget rest (o + length bytes) (s + element_cost))

  back_reference_lem :
      (i : ℕ) (v : Value) (rest : Bytes) (o s : ℕ)
      → get_elem? ut.values i ≡ some v
      → s + element_cost ≤ budget
      → back_reference hash element_cost i (at ut depth budget rest o s)
        ≡ ok (v, at ut depth budget rest o (s + element_cost))
  unfolding back_reference
  back_reference_lem i v rest o s h room =
      rw (charge_lem ut depth budget element_cost rest o s hb room)
        (resolve_lem ut depth budget rest o (s + element_cost) i v h)

  inline_Points :
      (i : ℕ) (v : Value) → i ≤ 0x20 → get_elem? ut.values i ≡ some v → Points ((0xA0 + i) ∷ []) v
  unfolding decode_arm
  inline_Points i v h at_i = record {
    head = 0xA0 + i;
    tail = [];
    split = refl;
    no_terminator = omega arith;
    reads = λ a b start rest o s room.
        rw (arm-pointer i h, back_reference_lem i v rest (o + 1) s at_i room);
  }

  long_Points :
      (t k i : ℕ) (v : Value)
      → arm_of t ≡ pointer_len_arm k
      → t ≢ 3
      → i < 256 ^ k
      → length (to_le_bytes k i) ≡ k
      → get_elem? ut.values i ≡ some v
      → Points (t ∷ to_le_bytes k i) v
  unfolding decode_arm le_len
  long_Points t k i v arm no_end h len at_i = record {
    head = t;
    tail = to_le_bytes k i;
    split = refl;
    no_terminator = no_end;
    reads = λ a b start rest o s room.
        rw
          (
            arm,
            le_uint_lem ut depth budget k i rest (o + 1) s h,
            back_reference_lem i v rest (o + 1 + k) s at_i room,
          )
          (ground arith);
  }

  -- Every index up to 0xFFFF that has a value in the decoder's table is emitted as a back-reference,
  -- and a decoder with that table and room for one element in a budget under 2^64 resolves it to
  -- the value.
  pub pointer_bytes-Points :
      (i : ℕ) (v : Value)
      → i ≤ 0xFFFF
      → get_elem? ut.values i ≡ some v
      → (p : Bytes) × (pointer_bytes i ≡ some p) × Points p v
  pointer_bytes-Points i v h at_i = elim (Bool-cases (leb i 0x20)) [
    | inl e ↦ ((0xA0 + i) ∷ [], unfold pointer_bytes in rw e, inline_Points i v (ground arith) at_i)
    | inr e ↦ elim (Bool-cases (leb i 0xFF)) [
      | inl e₁ ↦ (
        0xC1 ∷ to_le_bytes 1 i,
        unfold pointer_bytes in rw (e, e₁, one_byte i (ground arith)),
        long_Points 0xC1 1 i v (unfold arm_of in refl) (omega arith) (ground arith)
            (unfold to_le_bytes in refl) at_i,
      )
      | inr e₁ ↦ (
        0xC2 ∷ to_le_bytes 2 i,
        unfold pointer_bytes in rw (e, e₁, le→leb i 0xFFFF h, two_bytes i h),
        long_Points 0xC2 2 i v (unfold arm_of in refl) (omega arith) (omega arith)
            (unfold to_le_bytes in refl) at_i,
      )
    ]
  ]
