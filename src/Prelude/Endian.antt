-- ===== src/Prelude/Endian.antt =====
-- Integers as byte strings, low byte first (`to_le_bytes`, `from_le_bytes`).
use Prim.Native.Nat.{ℕ, zero, suc, ◌+◌, ◌*◌, ◌/◌, ◌%◌, ◌^◌, ◌<◌, ◌-◌}
use mathlib.Core.Path.{◌≡◌, refl, ap}
use mathlib.Core.List.{[], ◌∷◌, ◌++◌}
use native.Mathlib.Omega.{arith}
use native.Mathlib.Nat.{pow-suc}
use pyatv_rs.Prelude.Lists.{Bytes, IsByte, All, length}

-- The low `k` bytes of `n`: `n.to_le_bytes()[..k]`.
unfoldable pub to_le_bytes : ℕ → ℕ → Bytes
to_le_bytes zero n = []
to_le_bytes (suc k) n = (n % 256) ∷ to_le_bytes k (n / 256)

unfoldable pub from_le_bytes : Bytes → ℕ
from_le_bytes [] = 0
from_le_bytes (b ∷ bs) = b + 256 * from_le_bytes bs

-- `k` zero bytes, the rest of a buffer that was only partly filled.
unfoldable pub zeros : ℕ → Bytes
zeros zero = []
zeros (suc k) = 0 ∷ zeros k

-- Eight bytes of which `bytes` fills the front.
unfoldable pub buffer8 : Bytes → Bytes
buffer8 bytes = bytes ++ zeros (8 - length bytes)

pub length-to_le_bytes : (k n : ℕ) → length (to_le_bytes k n) ≡ k
unfolding to_le_bytes
length-to_le_bytes zero n = refl
length-to_le_bytes (suc k) n = ap suc (length-to_le_bytes k (n / 256))

pub to_le_bytes-IsByte : (k n : ℕ) → All IsByte (to_le_bytes k n)
unfolding to_le_bytes
to_le_bytes-IsByte zero n = tt
to_le_bytes-IsByte (suc k) n = (omega arith, to_le_bytes-IsByte k (n / 256))

div_below : (k n : ℕ) → n < 256 ^ suc k → n / 256 < 256 ^ k
div_below k n h = omega (arith, pow-suc 256 k)

pub from_le_bytes-to_le_bytes : (k n : ℕ) → n < 256 ^ k → from_le_bytes (to_le_bytes k n) ≡ n
unfolding to_le_bytes from_le_bytes
from_le_bytes-to_le_bytes zero n h = omega arith
from_le_bytes-to_le_bytes (suc k) n h =
    omega (arith, from_le_bytes-to_le_bytes k (n / 256) (div_below k n h))

from_le_bytes-zeros : (k : ℕ) → from_le_bytes (zeros k) ≡ 0
unfolding from_le_bytes zeros
from_le_bytes-zeros zero = refl
from_le_bytes-zeros (suc k) = omega (arith, from_le_bytes-zeros k)

from_le_bytes-append_zeros : (bs : Bytes) (k : ℕ) → from_le_bytes (bs ++ zeros k) ≡ from_le_bytes bs
unfolding from_le_bytes
from_le_bytes-append_zeros [] k = from_le_bytes-zeros k
from_le_bytes-append_zeros (b ∷ bs) k = omega (arith, from_le_bytes-append_zeros bs k)

pub from_le_bytes-buffer8 : (bs : Bytes) → from_le_bytes (buffer8 bs) ≡ from_le_bytes bs
unfolding buffer8
from_le_bytes-buffer8 bs = from_le_bytes-append_zeros bs (8 - length bs)
