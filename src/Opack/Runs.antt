-- ===== src/Opack/Runs.antt =====
-- Concrete runs of the OPACK codec, and its theorems at concrete inputs.
use pyatv_rs.Prelude.{
  ℕ, ◌+◌, ◌*◌, ◌≡◌, refl, List, [], ◌∷◌, Bytes, true, length, some, ◌^◌, ◌≤◌, arith,
}
use pyatv_rs.Opack.Value.{
  Value, ok, bool, uint, sized_uint, string, array, nil, cons, one, from_tag,
}
use pyatv_rs.Opack.Ser.{
  pack, enter, write_string, intern_bytes, is_interned, container_tag, count_items, pointer_bytes,
  write_uint, finish_container,
}
use pyatv_rs.Opack.Objects.{lookup, record_encoding, get_value, record_value, hash_into}
use pyatv_rs.Prelude.{to_le_bytes, is_utf8, from_le_bytes, buffer8, zeros}
use pyatv_rs.Opack.De.{unpack, unpack_with_budget}
use pyatv_rs.Opack.Spec.{
  Fits, leaf, in_array, more, none, leaves, leaves_items, cost, cost_items, payload, norm,
}
use pyatv_rs.Opack.Sync.{TellsZerosApart}
use pyatv_rs.Opack.Objects.{digest_of, UnpackTable}
use pyatv_rs.Opack.RoundTrip.Pointer.{Points, pointer_bytes-Points}
use pyatv_rs.Opack.RoundTrip.Whole.{unpack_with_budget-pack}

-- A hasher that tells all the words of these runs apart.
unfoldable pub sum_hash : List ℕ → ℕ
sum_hash [] = 7
sum_hash (w ∷ ws) = w + 3 * sum_hash ws

-- [["a"], "a", 40, 40, true]
abbrev sample : Value
sample = array (
    cons (array (cons (string (b'a' ∷ [])) nil))
      (cons (string (b'a' ∷ [])) (cons (uint 40) (cons (uint 40) (cons (bool true) nil)))))

abbrev sample_bytes : Bytes
sample_bytes = 0xD5 ∷ 0xD1 ∷ 0x41 ∷ b'a' ∷ 0xA0 ∷ 0x30 ∷ 40 ∷ 0xA1 ∷ 0x01 ∷ []

pack-sample : pack sample ≡ ok sample_bytes
unfolding pack enter write_string intern_bytes lookup is_interned record_encoding container_tag
    count_items pointer_bytes write_uint to_le_bytes finish_container
pack-sample = refl

unpack-sample :
    unpack sum_hash 32 sample_bytes
    ≡ ok (
      array (
          cons (array (cons (string (b'a' ∷ [])) nil)) (
            cons
              (string (b'a' ∷ []))
              (cons (sized_uint 40 one) (cons (sized_uint 40 one) (cons (bool true) nil))))),
      9,
    )
unfolding unpack sum_hash is_utf8 get_value record_value from_tag hash_into from_le_bytes buffer8
    zeros
unpack-sample = refl

sum_hash-TellsZerosApart : TellsZerosApart sum_hash
unfolding sum_hash digest_of hash_into
sum_hash-TellsZerosApart = record { double = λ h. omega (arith, h); single = λ h. omega (arith, h) }

letter-Fits : Fits (string (b'a' ∷ []))
unfolding is_utf8
letter-Fits = leaf (refl, omega arith)

sample-Fits : Fits sample
sample-Fits = in_array (
    more (in_array (more letter-Fits none)) (
      more letter-Fits
        (more (leaf (omega arith)) (more (leaf (omega arith)) (more (leaf tt) none)))))

sample-leaves : leaves sample ≤ 2 ^ 16
unfolding leaves leaves_items
sample-leaves = omega arith

sample-cost : cost 32 sample ≤ 65536
unfolding cost cost_items payload
sample-cost = omega arith

unpack_with_budget-pack_example :
    unpack_with_budget sum_hash 32 sample_bytes 65536 ≡ ok (norm sample, length sample_bytes)
unpack_with_budget-pack_example =
    unpack_with_budget-pack sum_hash 32 65536 sample sample_bytes sum_hash-TellsZerosApart
      (omega arith) sample-Fits sample-leaves sample-cost pack-sample

abbrev one_value : UnpackTable
one_value = record { values = uint 40 ∷ []; buckets = λ digest. [] }

pointer_bytes-Points_example :
    (p : Bytes) × (pointer_bytes 0 ≡ some p)
    × Points sum_hash 32 one_value 0 65536 (omega arith) p (uint 40)
pointer_bytes-Points_example =
    pointer_bytes-Points sum_hash 32 one_value 0 65536 (omega arith) 0 (uint 40) (omega arith) refl
