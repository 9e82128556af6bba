-- ===== src/Mrp/Variant.antt =====
-- crates/pyatv-proto-mrp/src/variant.rs: the base-128 varint.
use pyatv_rs.Prelude.{
  ℕ, zero, suc, ◌+◌, ◌*◌, ◌/◌, ◌%◌, ◌^◌, ◌≤◌, ◌<◌, ◌≡◌, ◌∙◌, refl, sym, ap, Option, none, some, [],
  ◌∷◌, ◌++◌, Bytes, length, true, false, ltb, ◌==◌, if◌then◌else◌, arith, Bool-cases, inl, inr,
}
use native.Mathlib.Nat.{pow-suc}
use native.Mathlib.Numerals.{towards_suc}

abbrev pub max_len : ℕ
max_len = 10

-- The loop of `write`. Ten rounds end it for every `u64`.
unfoldable pub write_loop : ℕ → ℕ → Bytes
write_loop zero remaining = []
write_loop (suc rounds) remaining =
    let rest = write_loop rounds (remaining / 128) in
    if remaining / 128 == 0 then remaining % 128 ∷ [] else (remaining % 128 + 128) ∷ rest

unfoldable pub write : ℕ → Bytes
unfolding write_loop
write value = write_loop max_len value

pub data Error : Type 0 where
  truncated : ℕ → Error
  too_long : Error

pub data Result {ℓ} (A : Type ℓ) : Type ℓ where
  ok : A → Result A
  err : Error → Result A

-- What a byte adds to the result: its low seven bits, shifted in a `u64`. The bits of the result so
-- far lie below them, so `|=` is `+`.
unfoldable pub shifted : ℕ → ℕ → ℕ
shifted byte index = (byte % 128) * 2 ^ (7 * index) % 2 ^ 64

-- The loop of `read` over the first bytes, of which `rounds` are left.
unfoldable pub read_loop : ℕ → ℕ → ℕ → Bytes → Option (ℕ × ℕ)
unfolding shifted
read_loop zero index result input = none
read_loop (suc rounds) index result [] = none
read_loop (suc rounds) index result (byte ∷ input) =
    let rest = read_loop rounds (index + 1) (result + shifted byte index) input in
    if byte / 128 % 2 == 0 then some (result + shifted byte index, index + 1) else rest

unfoldable pub outcome : Bytes → Option (ℕ × ℕ) → Result (ℕ × ℕ)
outcome input (some answer) = ok answer
outcome input none = err (if ltb (length input) max_len then truncated (length input) else too_long)

unfoldable pub read : Bytes → Result (ℕ × ℕ)
unfolding read_loop outcome
read input = outcome input (read_loop max_len 0 0 input)

pow_step : (i : ℕ) → 2 ^ (7 * (i + 1)) ≡ 128 * 2 ^ (7 * i)
pow_step i = ap (λ k. 2 ^ k) (shifted_seven i) ∙ simp towards_suc (omega arith)
  where
    shifted_seven : (i : ℕ) → 7 * (i + 1) ≡ 7 * i + 7
    shifted_seven i = omega arith

shifted_lem : (b i s : ℕ) → s ≡ 2 ^ (7 * i) → (b % 128) * s < 2 ^ 64 → shifted b i ≡ (b % 128) * s
unfolding shifted
shifted_lem b i s e h = rw (← e) (omega (arith, h))

shifted_more :
    (v i s : ℕ)
    → s ≡ 2 ^ (7 * i)
    → (v % 128) * s < 2 ^ 64
    → shifted (v % 128 + 128) i ≡ (v % 128) * s
shifted_more v i s e h =
    let low : (v % 128 + 128) % 128 ≡ v % 128 = omega arith in
    shifted_lem (v % 128 + 128) i s e (rw low h) ∙ rw low refl

-- The low group and the rest of a number, at a scale.
groups : (v s : ℕ) → (v % 128) * s + v / 128 * (128 * s) ≡ v * s
groups v s = spread (v % 128) (v / 128) s ∙ ap (λ t. t * s) (whole v)
  where
    spread : (m q s : ℕ) → m * s + q * (128 * s) ≡ (m + 128 * q) * s
    spread m q s = grind arith

    whole : (v : ℕ) → v % 128 + 128 * (v / 128) ≡ v
    whole v = omega arith

write_last : (n v : ℕ) → (v / 128 == 0) ≡ true → write_loop (suc n) v ≡ v % 128 ∷ []
unfolding write_loop
write_last n v h = rw (h, write_loop) refl

write_more :
    (n v : ℕ)
    → (v / 128 == 0) ≡ false
    → write_loop (suc n) v ≡ (v % 128 + 128) ∷ write_loop n (v / 128)
unfolding write_loop
write_more n v h = rw (h, write_loop) refl

read_last :
    (n i r b : ℕ) (input : Bytes)
    → b < 128
    → read_loop (suc n) i r (b ∷ input) ≡ some (r + shifted b i, i + 1)
unfolding read_loop
read_last n i r b input h = ground (arith, h)

read_more :
    (n i r b : ℕ) (input : Bytes)
    → b < 128
    → read_loop (suc n) i r ((b + 128) ∷ input)
      ≡ read_loop n (i + 1) (r + shifted (b + 128) i) input
unfolding read_loop
read_more n i r b input h = ground (arith, h)

rounds_left : (n v : ℕ) → v < 128 ^ suc n → (v / 128 == 0) ≡ false → 0 < n
rounds_left zero v h z = ground (arith, h)
rounds_left (suc n) v h z = omega arith

same_pair : (a b c d : ℕ) → a ≡ b → c ≡ d → ◌≡◌ {A = ℕ × ℕ} (a, c) (b, d)
same_pair a b c d p q = cc

same_answer : (a b c d : ℕ) → a ≡ b → c ≡ d → ◌≡◌ {A = Option (ℕ × ℕ)} (some (a, c)) (some (b, d))
same_answer a b c d p q = cc

read_loop-write_loop :
    (n i r v s : ℕ) (rest : Bytes)
    → s ≡ 2 ^ (7 * i)
    → v < 128 ^ n
    → r + v * s < 2 ^ 64
    → 0 < n
    → read_loop n i r (write_loop n v ++ rest) ≡ some (r + v * s, i + length (write_loop n v))
read_loop-write_loop zero i r v s rest e small fits pos = absurd (omega arith)
read_loop-write_loop (suc n) i r v s rest e small fits pos = elim (Bool-cases (v / 128 == 0)) [
  | inl h ↦
      let small_v : v < 128 = ground (arith, h) in
      let low : v % 128 ≡ v = omega arith in
      let term : shifted (v % 128) i ≡ v * s =
        shifted_lem (v % 128) i s e (rw (low, low) (omega (arith, fits))) ∙ rw (low, low) refl in
      rw (write_last n v h) (read_last n i r (v % 128) rest (omega arith) ∙ rw term refl)
  | inr h ↦
      let term : shifted (v % 128 + 128) i ≡ (v % 128) * s =
        shifted_more v i s e (omega (arith, fits, groups v s)) in
      rw (write_more n v h) (
        read_more n i r (v % 128) (write_loop n (v / 128) ++ rest) (omega arith)
        ∙ rw term (
            read_loop-write_loop n (i + 1) (r + (v % 128) * s) (v / 128) (128 * s) rest
              (ap (λ t. 128 * t) e ∙ sym (pow_step i)) (omega (arith, pow-suc 128 n, small))
              (omega (arith, fits, groups v s)) (rounds_left n v small h)
            ∙ same_answer (r + v % 128 * s + v / 128 * (128 * s)) (r + v * s) _ _
                (omega (arith, groups v s)) (omega arith)))
]

outcome_lem : (input : Bytes) (v k : ℕ) → outcome input (some (0 + v * 1, 0 + k)) ≡ ok (v, k)
unfolding outcome
outcome_lem input v k = ap ok (same_pair (0 + v * 1) v (0 + k) k (omega arith) (omega arith))

-- A `u64` that is written as a varint is read back from the front of the input, with the number of
-- bytes that it took, whatever follows it.
pub read-write :
    (v : ℕ) (rest : Bytes) → v < 2 ^ 64 → read (write v ++ rest) ≡ ok (v, length (write v))
unfolding read write
read-write v rest h =
    ap (outcome (write_loop max_len v ++ rest)) (
      read_loop-write_loop max_len 0 0 v 1 rest refl (omega (arith, h)) (omega (arith, h))
        (omega arith))
    ∙ outcome_lem (write_loop max_len v ++ rest) v (length (write_loop max_len v))

taken : (a b c d : ℕ) → ◌≡◌ {A = Option (ℕ × ℕ)} (some (c, a)) (some (d, b)) → a ≡ b
taken a b c d h = cc

ended : (i k n m : ℕ) → k ≡ i + 1 → (i < k) × (k ≤ i + suc n) × (k ≤ i + suc m)
ended i k n m e = omega (arith, e)

wider :
    (i k n m : ℕ)
    → (i + 1 < k) × (k ≤ i + 1 + n) × (k ≤ i + 1 + m)
    → (i < k) × (k ≤ i + suc n) × (k ≤ i + suc m)
wider i k n m h = omega (arith, h)

-- Reading takes at least a byte, at most ten, and no more than there are.
read_loop_bounds :
    (n i r v k : ℕ) (input : Bytes)
    → read_loop n i r input ≡ some (v, k)
    → (i < k) × (k ≤ i + n) × (k ≤ i + length input)
unfolding read_loop
read_loop_bounds zero i r v k input h = cc
read_loop_bounds (suc n) i r v k [] h = cc
read_loop_bounds (suc n) i r v k (b ∷ input) h = elim (Bool-cases (b / 128 % 2 == 0)) [
  | inl e ↦ ended i k n (length input) (sym (taken (i + 1) k _ v (rw (e, read_loop) at h)))
  | inr e ↦
      wider i k n (length input) (read_loop_bounds n (i + 1) _ v k input (rw (e, read_loop) at h))
]

outcome-ok :
    (input : Bytes) (o : Option (ℕ × ℕ)) (v k : ℕ) → outcome input o ≡ ok (v, k) → o ≡ some (v, k)
unfolding outcome
outcome-ok input (some a) v k h = cc
outcome-ok input none v k h = cc

-- A varint that is read took at least one byte, at most ten, and no more than the input has.
pub read_bounds :
    (input : Bytes) (v k : ℕ)
    → read input ≡ ok (v, k)
    → (0 < k) × (k ≤ max_len) × (k ≤ length input)
unfolding read
read_bounds input v k h = omega (
  arith,
  read_loop_bounds max_len 0 0 v k input (outcome-ok input (read_loop max_len 0 0 input) v k h),
)
