-- ===== src/Opack/RoundTrip.antt =====
-- What the encoder writes, the decoder reads back.
pub mod Pointer
pub mod Normal
pub mod Leaf
pub mod Interned
pub mod Items
pub mod Fields
pub mod Container
pub mod Nested
pub mod Whole
use pyatv_rs.Prelude.{ℕ, ◌+◌, ◌*◌, ◌≤◌, ◌<◌, ◌≡◌, ◌≢◌, List, [], ◌∷◌, ◌++◌, Bytes, length, ◌^◌}
use pyatv_rs.Opack.Value.{Value, ok}
use pyatv_rs.Opack.Objects.{UnpackTable}
use pyatv_rs.Opack.Ser.{Encoder}
use pyatv_rs.Opack.De.{M, value}
use pyatv_rs.Opack.Spec.{norm, cost, leaves}
use pyatv_rs.Opack.Leaf.{at}
use pyatv_rs.Opack.Sync.{InSync}

-- The bytes start with a byte that is no terminator.
pub record Opens (bytes : Bytes) : Type 0 where
  pub head : ℕ
  pub tail : Bytes
  pub split : bytes ≡ head ∷ tail
  pub no_terminator : head ≢ 3

module _ (hash : List ℕ → ℕ) (budget : ℕ) where
  -- With fuel for the bytes, `m` reads `a` off them, charges `c` at most, and the decoder's table
  -- follows the encoder's from `enc` to `enc'`.
  pub record Run {A : Type 0} (m : ℕ → M A) (slack : ℕ) (bytes : Bytes) (a : A) (enc enc' : Encoder)
      (ut : UnpackTable) (c : ℕ) : Type 0 where
    pub table : UnpackTable
    pub sync : InSync hash enc'.table table
    pub runs :
        (f : ℕ) (rest : Bytes) (o s : ℕ)
        → 2 * length bytes + slack ≤ f
        → s + c ≤ budget
        → (s' : ℕ) × (s' ≤ s + c)
          × (m f (at ut enc.depth budget (bytes ++ rest) o s)
              ≡ ok (a, at table enc'.depth budget rest (o + length bytes) s'))

module _ (hash : List ℕ → ℕ) (element_cost budget : ℕ) where
  -- What is shown of one value that was written from `enc` as `out`.
  pub record Wrote (v : Value) (enc : Encoder) (ut : UnpackTable) (out : Bytes × Encoder)
      : Type 0 where
    pub opens : Opens out.0
    pub run :
        Run hash budget
          (value hash element_cost)
          1
          out.0
          (norm v)
          enc
          out.1
          ut
          (cost element_cost v)
    pub grows : length out.1.table.indices ≤ length enc.table.indices + leaves v
