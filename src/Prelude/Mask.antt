-- ===== src/Prelude/Mask.antt =====
-- `x & 0xff` as the remainder by 256.
use Prim.Native.Nat.{min, bit_and-bitwise}
use network_proj.Prelude.{ℕ, zero, suc, ◌+◌, ◌*◌, ◌/◌, ◌%◌, ◌≤◌, bit_and, ◌≡◌, refl, arith}
use network_proj.Prelude.Bits.{enough_digits}

nothing_and : (mask : ℕ) → bit_and 0 mask ≡ 0
nothing_and mask = bit_and-bitwise 0 mask

-- The lowest digit of the mask keeps or clears the lowest digit of the number.
mask_digit : (mask x : ℕ) → bit_and x mask ≡ 2 * bit_and (x / 2) (mask / 2) + min (x % 2) (mask % 2)
mask_digit mask zero = omega (arith, nothing_and (mask / 2), nothing_and mask)
mask_digit mask (suc x) = omega (
  arith,
  enough_digits (λ y. zero) min (suc x / 2) (mask / 2) x (suc x / 2) (omega arith) (omega arith),
  bit_and-bitwise (suc x / 2) (mask / 2),
  bit_and-bitwise (suc x) mask,
)

empty_mask : (bound x : ℕ) → x ≤ bound → bit_and x 0 ≡ 0
empty_mask bound zero h = refl
empty_mask zero (suc x) h = absurd (omega arith)
empty_mask (suc bound) (suc x) h =
    omega (arith, empty_mask bound (suc x / 2) (omega arith), mask_digit 0 (suc x))

-- A mask of one more digit is one step more.
half_byte : (x : ℕ) → bit_and x 0xf ≡ x % 0x10
half_byte x = omega (
  arith,
  mask_digit 0xf x,
  mask_digit 0x7 (x / 2),
  mask_digit 0x3 (x / 2 / 2),
  mask_digit 0x1 (x / 2 / 2 / 2),
  empty_mask (x / 2 / 2 / 2 / 2) (x / 2 / 2 / 2 / 2) (omega arith),
)

pub bit_and_byte : (x : ℕ) → bit_and x 0xff ≡ x % 0x100
bit_and_byte x = omega (
  arith,
  mask_digit 0xff x,
  mask_digit 0x7f (x / 2),
  mask_digit 0x3f (x / 2 / 2),
  mask_digit 0x1f (x / 2 / 2 / 2),
  half_byte (x / 2 / 2 / 2 / 2),
)
