-- ===== src/Tlv8/Total.antt =====
-- `decode` on any input, well formed or not.
use pyatv_rs.Prelude.{
  ℕ, zero, suc, ◌≤◌, ◌≡◌, ◌≢◌, subst, [], ◌∷◌, Bytes, length, some, arith, split_at, length-drop,
  Option-cases, inl, inr,
}
use pyatv_rs.Tlv8.{Entries, Tlv8, Result, ok, err, stuck, add_chunk, decode_loop, decode}
use pyatv_rs.Tlv8.RoundTrip.{IsFresh, IsDistinct}

split_at_rest :
    (n : ℕ) (input : Bytes) {value rest : Bytes}
    → split_at n input ≡ some (value, rest)
    → length rest ≤ length input
split_at_rest n input h = ground (arith, length-drop n input)

decode_loop-ne-stuck :
    (fuel offset : ℕ) (input : Bytes) (es : Entries)
    → length input ≤ fuel
    → decode_loop fuel offset input es ≢ err stuck
unfolding decode_loop
decode_loop-ne-stuck zero offset [] es h = λ e. cc
decode_loop-ne-stuck (suc fuel) offset [] es h = λ e. cc
decode_loop-ne-stuck zero offset (t ∷ input) es h = absurd (omega arith)
decode_loop-ne-stuck (suc fuel) offset (t ∷ []) es h = λ e. cc
decode_loop-ne-stuck (suc fuel) offset (t ∷ n ∷ input) es h =
    elim (Option-cases (split_at n input)) [
      | inl ((value, rest), e) ↦
          rw (e, decode_loop)
            (decode_loop-ne-stuck fuel _ rest (add_chunk t value es)
              (omega (arith, split_at_rest n input e)))
      | inr e ↦ rw (e, decode_loop) (λ p. cc)
    ]

-- The decoder's loop ends on every input: it never runs out of the fuel that `decode` gives it.
pub decode-ne-stuck : (input : Bytes) → decode input ≢ err stuck
unfolding decode
decode-ne-stuck input = decode_loop-ne-stuck (length input) 0 input [] (omega arith)

IsFresh-add_chunk :
    (tag t : ℕ) (value : Bytes) (es : Entries)
    → t ≢ tag
    → IsFresh tag es
    → IsFresh tag (add_chunk t value es)
unfolding add_chunk
IsFresh-add_chunk tag t value [] ne h = (ne, tt)
IsFresh-add_chunk tag t value ((u, x) ∷ es) ne h =
    ground (arith, IsFresh-add_chunk tag t value es ne h.1)

IsDistinct-add_chunk :
    (t : ℕ) (value : Bytes) (es : Entries) → IsDistinct es → IsDistinct (add_chunk t value es)
unfolding add_chunk
IsDistinct-add_chunk t value [] h = (tt, tt)
IsDistinct-add_chunk t value ((u, x) ∷ es) h = ground (
  arith,
  IsDistinct-add_chunk t value es h.1,
  λ (ne : t ≢ u). IsFresh-add_chunk u t value es ne h.0,
)

abbrev entries_of : Result Tlv8 → Entries
entries_of (ok m) = m.entries
entries_of (err e) = []

decode_loop-IsDistinct :
    (fuel offset : ℕ) (input : Bytes) (es : Entries) (m : Tlv8)
    → IsDistinct es
    → decode_loop fuel offset input es ≡ ok m
    → IsDistinct m.entries
unfolding decode_loop
decode_loop-IsDistinct zero offset [] es m h e = subst (λ r. IsDistinct (entries_of r)) e h
decode_loop-IsDistinct (suc fuel) offset [] es m h e = subst (λ r. IsDistinct (entries_of r)) e h
decode_loop-IsDistinct zero offset (t ∷ input) es m h e = cc
decode_loop-IsDistinct (suc fuel) offset (t ∷ []) es m h e = cc
decode_loop-IsDistinct (suc fuel) offset (t ∷ n ∷ input) es m h e =
    elim (Option-cases (split_at n input)) [
      | inl ((value, rest), q) ↦
          decode_loop-IsDistinct fuel _ rest (add_chunk t value es) m
            (IsDistinct-add_chunk t value es h) (rw (q, decode_loop) at e)
      | inr q ↦ absurd (cc (rw (q, decode_loop) at e))
    ]

-- Whatever the input, a message that `decode` accepts has no tag twice.
pub decode-IsDistinct : (input : Bytes) (m : Tlv8) → decode input ≡ ok m → IsDistinct m.entries
unfolding decode
decode-IsDistinct input m e = decode_loop-IsDistinct (length input) 0 input [] m tt e
