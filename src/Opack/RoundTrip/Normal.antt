-- ===== src/Opack/RoundTrip/Normal.antt =====
-- The normal form of a leaf is a leaf that is written the same way.
use pyatv_rs.Prelude.{
  ℕ, ◌^◌, ◌<◌, ◌≡◌, refl, true, false, Bytes, arith, ltb, Bool-cases, inl, inr, ap, ◌∙◌,
}
use pyatv_rs.Opack.Value.{
  Value, byte_count, narrowest_for, bool, uint, sized_uint, string, byte_data, absolute_time, array,
  dict, ok,
}
use pyatv_rs.Opack.Ser.{
  Encoder, write, write_uint, write_sized, write_sized_uint, emit, is_interned,
}
use pyatv_rs.Opack.Spec.{LeafFits, norm, payload}
use pyatv_rs.Opack.Reads.Leaves.{emit_lem}

-- All that the table needs of a normal form.
pub record IsNormal (v : Value) (enc : Encoder) (bytes : Bytes) : Type 0 where
  pub fits : LeafFits (norm v)
  pub interned : is_interned (norm v) ≡ is_interned v
  pub normal : norm (norm v) ≡ norm v
  pub writes : (other : Encoder) → write (norm v) other ≡ ok (bytes, other)

narrowest_room :
    (n : ℕ)
    → n < 2 ^ 64
    → write_sized_uint n (narrowest_for n) ≡ ok (write_sized n (narrowest_for n))
unfolding write_sized_uint narrowest_for byte_count
narrowest_room n h = ground arith

wide_form : (n : ℕ) → ltb n 0x28 ≡ false → write_uint n ≡ write_sized n (narrowest_for n)
unfolding write_uint
wide_form n h = ground arith

emitted : (enc : Encoder) (bytes : Bytes) → emit enc (ok bytes) ≡ ok (bytes, enc)
unfolding emit
emitted enc bytes = refl

pub leaf_IsNormal :
    (v : Value) (enc enc' : Encoder) (bytes : Bytes)
    → LeafFits v
    → write v enc ≡ ok (bytes, enc')
    → IsNormal v enc bytes
unfolding norm write is_interned
leaf_IsNormal (uint n) enc enc' bytes fits e = elim (Bool-cases (ltb n 0x28)) [
  | inl small ↦ record {
    fits = rw small fits;
    interned = rw small;
    normal = rw small (rw small);
    writes = λ other. rw small (cc e);
  }
  | inr wide ↦ record {
    fits = rw wide fits;
    interned = rw wide (ground arith);
    normal = rw wide;
    writes = λ other.
        rw (wide, narrowest_room n fits)
          (emitted other _ ∙ ap (λ b. ok (b, other)) (cc (e, wide_form n wide)));
  }
]
leaf_IsNormal (string s) enc enc' bytes fits e = record {
  fits = fits;
  interned = refl;
  normal = refl;
  writes = λ other. rw ((emit_lem enc enc' _ e).0) (emitted other bytes);
}
leaf_IsNormal (sized_uint n w) enc enc' bytes fits e = record {
  fits = fits;
  interned = refl;
  normal = refl;
  writes = λ other. rw ((emit_lem enc enc' _ e).0) (emitted other bytes);
}
leaf_IsNormal (absolute_time n) enc enc' bytes fits e = cc
leaf_IsNormal (array xs) enc enc' bytes fits e = absurd fits
leaf_IsNormal (dict fs) enc enc' bytes fits e = absurd fits
leaf_IsNormal (bool true) enc enc' bytes fits e = record {
  fits = fits;
  interned = refl;
  normal = refl;
  writes = λ other. cc;
}
leaf_IsNormal (bool false) enc enc' bytes fits e = record {
  fits = fits;
  interned = refl;
  normal = refl;
  writes = λ other. cc;
}
leaf_IsNormal _ enc enc' bytes fits e = record {
  fits = fits;
  interned = refl;
  normal = refl;
  writes = λ other. cc;
}

pub payload-lt : (v : Value) → LeafFits v → payload v < 2 ^ 64
unfolding payload
payload-lt (string s) fits = fits.1
payload-lt (byte_data b) fits = fits
payload-lt _ fits = omega arith

pub payload-norm : (v : Value) → payload (norm v) ≡ payload v
unfolding payload norm
payload-norm (uint n) = ground arith
payload-norm _ = refl
