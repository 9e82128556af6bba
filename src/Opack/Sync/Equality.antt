-- ===== src/Opack/Sync/Equality.antt =====
-- When the derived equality and the digest of two leaves agree, the leaves are the same.
use pyatv_rs.Prelude.{
  ℕ, ◌≡◌, ◌<◌, ◌^◌, ap, ◌⊎◌, inl, inr, true, List, arith, ◌==◌, ltb, ==→eq, bytes_eq→eq, Bool-cases,
}
use pyatv_rs.Opack.Value.{
  Value, UintWidth, one, null, bool, uint, sized_uint, float, float32, string, byte_data, uuid,
  absolute_time, array, dict, value_eq, float_eq, float32_eq, width_eq, bool_eq,
}
use pyatv_rs.Opack.Objects.{digest_of}
use pyatv_rs.Opack.Spec.{LeafFits}
use pyatv_rs.Opack.Sync.{TellsZerosApart}

width_eq→eq : (v w : UintWidth) → width_eq v w ≡ true → v ≡ w
unfolding width_eq
width_eq→eq one w h = ground arith
width_eq→eq _ w h = ground arith

-- Equal doubles are the same bits or the two zeros.
float_eq→eq :
    (a b : ℕ)
    → a < 2 ^ 64
    → b < 2 ^ 64
    → float_eq a b ≡ true
    → (a ≡ b) ⊎ ((a ≡ 0) × (b ≡ 2 ^ 63) ⊎ (a ≡ 2 ^ 63) × (b ≡ 0))
unfolding float_eq
float_eq→eq a b ha hb h = elim (Bool-cases (a == b)) [
  | inl e ↦ inl (==→eq a b e)
  | inr e ↦ elim (Bool-cases (ltb a b)) [
    | inl l ↦ inr (inl (ground arith, ground arith))
    | inr l ↦ inr (inr (ground arith, ground arith))
  ]
]

float32_eq→eq :
    (a b : ℕ)
    → a < 2 ^ 32
    → b < 2 ^ 32
    → float32_eq a b ≡ true
    → (a ≡ b) ⊎ ((a ≡ 0) × (b ≡ 2 ^ 31) ⊎ (a ≡ 2 ^ 31) × (b ≡ 0))
unfolding float32_eq
float32_eq→eq a b ha hb h = elim (Bool-cases (a == b)) [
  | inl e ↦ inl (==→eq a b e)
  | inr e ↦ elim (Bool-cases (ltb a b)) [
    | inl l ↦ inr (inl (ground arith, ground arith))
    | inr l ↦ inr (inr (ground arith, ground arith))
  ]
]

module _ (hash : List ℕ → ℕ) (apart : TellsZerosApart hash) where
  -- Two leaves in the ranges of their types that are equal for `PartialEq` and have one digest are the
  -- same value, bit for bit, if the hasher tells the two zeros of each float type apart.
  pub value_eq→eq :
      (u v : Value)
      → LeafFits u
      → LeafFits v
      → value_eq u v ≡ true
      → digest_of hash u ≡ digest_of hash v
      → u ≡ v
  unfolding value_eq
  value_eq→eq null v hu hv h d = ground arith
  value_eq→eq (bool a) (bool b) hu hv h d = unfold bool_eq in ground arith
  value_eq→eq (uint a) (uint b) hu hv h d = ground arith
  value_eq→eq (sized_uint a x) (sized_uint b y) hu hv h d = ground (arith, width_eq→eq x y)
  value_eq→eq (float a) (float b) hu hv h d = elim (float_eq→eq a b hu hv h) [
    | inl e ↦ ap float e
    | inr (inl (p, q)) ↦ absurd (apart.double (cc (d, ap float p, ap float q)))
    | inr (inr (p, q)) ↦ absurd (apart.double (cc (d, ap float p, ap float q)))
  ]
  value_eq→eq (float32 a) (float32 b) hu hv h d = elim (float32_eq→eq a b hu hv h) [
    | inl e ↦ ap float32 e
    | inr (inl (p, q)) ↦ absurd (apart.single (cc (d, ap float32 p, ap float32 q)))
    | inr (inr (p, q)) ↦ absurd (apart.single (cc (d, ap float32 p, ap float32 q)))
  ]
  value_eq→eq (string a) (string b) hu hv h d = ap string (bytes_eq→eq a b h)
  value_eq→eq (byte_data a) (byte_data b) hu hv h d = ap byte_data (bytes_eq→eq a b h)
  value_eq→eq (uuid a) (uuid b) hu hv h d = ap uuid (bytes_eq→eq a b h)
  value_eq→eq (absolute_time a) (absolute_time b) hu hv h d = ground arith
  value_eq→eq (array xs) v hu hv h d = absurd hu
  value_eq→eq (dict fs) v hu hv h d = absurd hu
  value_eq→eq _ _ hu hv h d = cc
