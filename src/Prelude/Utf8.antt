-- ===== src/Prelude/Utf8.antt =====
-- `core::str::from_utf8`: which byte strings are well-formed UTF-8.
use Prim.Native.Nat.{ℕ, zero, suc}
use mathlib.Core.Bool.{Bool, true, false, ◌&&◌}
use mathlib.Core.Option.{Option, none, some}
use mathlib.Core.List.{[], ◌∷◌}
use pyatv_rs.Prelude.Tests.{◌==◌, leb, ltb, if◌then◌else◌}
use pyatv_rs.Prelude.Lists.{Bytes}

-- How many continuation bytes follow a first byte, and the range of the next one.
unfoldable pub utf8_first : ℕ → Option (ℕ × ℕ × ℕ)
utf8_first b =
    if ltb b 0x80
    then some (0, 0x80, 0xBF)
    else if leb 0xC2 b && leb b 0xDF
    then some (1, 0x80, 0xBF)
    else if b == 0xE0
    then some (2, 0xA0, 0xBF)
    else if b == 0xED
    then some (2, 0x80, 0x9F)
    else if leb 0xE1 b && leb b 0xEF
    then some (2, 0x80, 0xBF)
    else if b == 0xF0
    then some (3, 0x90, 0xBF)
    else if leb 0xF1 b && leb b 0xF3
    then some (3, 0x80, 0xBF)
    else if b == 0xF4
    then some (3, 0x80, 0x8F)
    else none

-- The arguments are the continuation bytes still due and the range of the next one.
unfoldable pub utf8_from : ℕ → ℕ → ℕ → Bytes → Bool
unfolding utf8_first
utf8_from zero lo hi [] = true
utf8_from (suc due) lo hi [] = false
utf8_from zero lo hi (b ∷ bs) = elim (utf8_first b) [
  | none ↦ false
  | some (due, lo', hi') ↦ utf8_from due lo' hi' bs
]
utf8_from (suc due) lo hi (b ∷ bs) = leb lo b && leb b hi && utf8_from due 0x80 0xBF bs

unfoldable pub is_utf8 : Bytes → Bool
unfolding utf8_from
is_utf8 bs = utf8_from 0 0x80 0xBF bs
