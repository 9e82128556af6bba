-- ===== src/Opack/Reads/Leaves.antt =====
-- Every leaf that the encoder writes is read back.
use pyatv_rs.Prelude.{
  ℕ, ◌^◌, ◌<◌, ◌≡◌, refl, Bool, true, false, List, Bytes, arith, ltb, subst, ltb→lt, Bool-cases,
  inl, inr,
}
use pyatv_rs.Opack.Value.{
  Value, UintWidth, one, byte_count, narrowest_for, null, bool, uint, sized_uint, float, float32,
  string, byte_data, uuid, absolute_time, array, dict, Result, ok, err,
}
use pyatv_rs.Opack.Objects.{UnpackTable}
use pyatv_rs.Opack.Ser.{
  Encoder, write_sized, write_sized_uint, write_string, write_uint, write, emit, is_interned,
}
use pyatv_rs.Opack.Spec.{LeafFits, norm}
use pyatv_rs.Opack.Reads.{
  Reads, null-Reads, true-Reads, false-Reads, small_Reads, uuid_Reads, float_Reads, float32_Reads,
  sized_Reads,
}
use pyatv_rs.Opack.Reads.Payloads.{string_Reads, data_Reads}

narrowest_fits : (n : ℕ) → n < 2 ^ 64 → n < 256 ^ byte_count (narrowest_for n)
unfolding byte_count narrowest_for
narrowest_fits n h = ground arith

sized_fits :
    (n : ℕ) (w : UintWidth) {bytes : Bytes}
    → n < 2 ^ 64
    → write_sized_uint n w ≡ ok bytes
    → (n < 256 ^ byte_count w) × (write_sized n w ≡ bytes)
unfolding write_sized_uint byte_count
sized_fits n one h e = ground arith
sized_fits n _ h e = ground arith

pub emit_lem :
    (enc enc' : Encoder) (r : Result Bytes) {bytes : Bytes}
    → emit enc r ≡ ok (bytes, enc')
    → (r ≡ ok bytes) × (enc' ≡ enc)
unfolding emit
emit_lem enc enc' (ok b) h = (cc, cc)
emit_lem enc enc' (err x) h = absurd (cc)

module _ (hash : List ℕ → ℕ) (element_cost : ℕ) (table : UnpackTable) (depth budget : ℕ)
    (hb : budget < 2 ^ 64) where
  abbrev Read : Bytes → Value → Bool → Type 0
  Read = Reads hash element_cost table depth budget hb

  as-Read :
      {x y : Bytes} {v w : Value} {slot slot' : Bool}
      → Read x v slot
      → x ≡ y
      → v ≡ w
      → slot ≡ slot'
      → Read y w slot'
  as-Read {x} {v} {w} {slot'} r p q z =
      subst (λ b. Read b w slot') p (subst (λ u. Read x u slot') q (subst (λ t. Read x v t) z r))

  uint_Reads : (n : ℕ) → n < 2 ^ 64 → Read (write_uint n) (norm (uint n)) (is_interned (uint n))
  uint_Reads n h = elim (Bool-cases (ltb n 0x28)) [
    | inl e ↦
        as-Read (small_Reads hash element_cost table depth budget hb n (ltb→lt n _ e))
          (unfold write_uint in ground arith) (unfold norm in ground arith)
          (unfold is_interned in ground arith)
    | inr e ↦
        as-Read
          (sized_Reads hash element_cost table depth budget hb n (narrowest_for n)
            (narrowest_fits n h))
          (unfold write_uint in ground arith) (unfold norm in ground arith)
          (unfold is_interned in ground arith)
  ]

  -- What `write` gives for a leaf reads back as the leaf's normal form, and the encoder is as before.
  pub leaf_Reads :
      (v : Value) (enc enc' : Encoder) (bytes : Bytes)
      → LeafFits v
      → write v enc ≡ ok (bytes, enc')
      → Read bytes (norm v) (is_interned v) × (enc' ≡ enc)
  unfolding write norm is_interned
  leaf_Reads null enc enc' bytes fits e =
      (as-Read (null-Reads hash element_cost table depth budget hb) (cc) refl refl, cc)
  leaf_Reads (bool true) enc enc' bytes fits e =
      (as-Read (true-Reads hash element_cost table depth budget hb) (cc) refl refl, cc)
  leaf_Reads (bool false) enc enc' bytes fits e =
      (as-Read (false-Reads hash element_cost table depth budget hb) (cc) refl refl, cc)
  leaf_Reads (uint n) enc enc' bytes fits e = (as-Read (uint_Reads n fits) (cc) refl refl, cc)
  leaf_Reads (sized_uint n w) enc enc' bytes fits e =
      let (wrote, same) = emit_lem enc enc' (write_sized_uint n w) e in
      let (room, form) = sized_fits n w fits wrote in
      (as-Read (sized_Reads hash element_cost table depth budget hb n w room) form refl refl, same)
  leaf_Reads (float n) enc enc' bytes fits e =
      (as-Read (float_Reads hash element_cost table depth budget hb n fits) (cc) refl refl, cc)
  leaf_Reads (float32 n) enc enc' bytes fits e =
      (as-Read (float32_Reads hash element_cost table depth budget hb n fits) (cc) refl refl, cc)
  leaf_Reads (string s) enc enc' bytes fits e =
      let (wrote, same) = emit_lem enc enc' (write_string s) e in
      (string_Reads hash element_cost table depth budget hb s bytes fits.0 wrote, same)
  leaf_Reads (byte_data s) enc enc' bytes fits e =
      (as-Read (data_Reads hash element_cost table depth budget hb s fits) (cc) refl refl, cc)
  leaf_Reads (uuid u) enc enc' bytes fits e =
      (as-Read (uuid_Reads hash element_cost table depth budget hb u fits) (cc) refl refl, cc)
  leaf_Reads (absolute_time n) enc enc' bytes fits e = cc
  leaf_Reads (array xs) enc enc' bytes fits e = absurd fits
  leaf_Reads (dict fs) enc enc' bytes fits e = absurd fits
