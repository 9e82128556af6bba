-- ===== src/Mrp/Runs.antt =====
-- Varints at concrete values.
use pyatv_rs.Prelude.{◌≡◌, ◌<◌, ◌≤◌, refl, [], ◌∷◌, ◌++◌, length, arith}
use pyatv_rs.Mrp.Variant.{
  ok, err, truncated, write, write_loop, read, read_loop, shifted, outcome, read-write, read_bounds,
}

write_300 : write 300 ≡ 0xAC ∷ 0x02 ∷ []
unfolding write write_loop
write_300 = refl

read_truncated : read (0xAC ∷ []) ≡ err (truncated 1)
unfolding read read_loop outcome
read_truncated = refl

read_300 : read (0xAC ∷ 0x02 ∷ 9 ∷ []) ≡ ok (300, 2)
unfolding read read_loop shifted outcome
read_300 = refl

read-write_example : read (write 300 ++ 9 ∷ []) ≡ ok (300, length (write 300))
read-write_example = read-write 300 (9 ∷ []) (omega arith)

read_bounds_example : (0 < 2) × (2 ≤ 10) × (2 ≤ 3)
read_bounds_example = read_bounds (0xAC ∷ 0x02 ∷ 9 ∷ []) 300 2 read_300
