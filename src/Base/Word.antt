-- ===== src/Base/Word.antt =====
-- Machine integers: values are native numbers, and the wrap-around is written out.
use Prim.Native.Nat.{ℕ, ◌+◌, ◌*◌, ◌/◌, ◌%◌, ◌^◌, ◌<◌}
use mathlib.Core.List.{List, [], ◌∷◌}
use mathlib.Core.Path.{◌≡◌}
use native.Mathlib.Omega.{arith}

-- One more than the greatest `u8`, `u16`, `u32`.
abbrev pub u8_mod : ℕ
u8_mod = 2 ^ 8

abbrev pub u16_mod : ℕ
u16_mod = 2 ^ 16

abbrev pub u32_mod : ℕ
u32_mod = 2 ^ 32

-- `u32` addition that wraps.
abbrev pub add32 : ℕ → ℕ → ℕ
add32 a b = (a + b) % u32_mod

-- `u32::to_be_bytes`
unfoldable pub to_be_bytes : ℕ → List ℕ
to_be_bytes x = (x / 2 ^ 24 % 256) ∷ (x / 2 ^ 16 % 256) ∷ (x / 2 ^ 8 % 256) ∷ (x % 256) ∷ []

-- `u32::from_be_bytes`, over the four bytes
unfoldable pub from_be_bytes : ℕ → ℕ → ℕ → ℕ → ℕ
from_be_bytes a b c d = a * 2 ^ 24 + b * 2 ^ 16 + c * 2 ^ 8 + d

-- The bytes in the other order, in a `u16` and in a `u32`.
unfoldable pub swap_bytes16 : ℕ → ℕ
swap_bytes16 x = (x % 256) * 256 + x / 256

unfoldable pub swap_bytes32 : ℕ → ℕ
swap_bytes32 x =
    (x % 256) * 2 ^ 24 + (x / 2 ^ 8 % 256) * 2 ^ 16 + (x / 2 ^ 16 % 256) * 2 ^ 8 + x / 2 ^ 24

pub from_be_bytes-to_be_bytes :
    (x : ℕ)
    → x < u32_mod
    → from_be_bytes (x / 2 ^ 24 % 256) (x / 2 ^ 16 % 256) (x / 2 ^ 8 % 256) (x % 256) ≡ x
unfolding from_be_bytes
from_be_bytes-to_be_bytes x h = omega arith

pub swap_bytes16-swap_bytes16 : (x : ℕ) → x < u16_mod → swap_bytes16 (swap_bytes16 x) ≡ x
unfolding swap_bytes16
swap_bytes16-swap_bytes16 x h = omega arith

pub swap_bytes32-swap_bytes32 : (x : ℕ) → x < u32_mod → swap_bytes32 (swap_bytes32 x) ≡ x
unfolding swap_bytes32
swap_bytes32-swap_bytes32 x h = omega arith
