-- ===== src/Checksum.antt =====
-- Proj1/checksum.c: the two checksums that came before crc32.c. No program calls them now.
pub mod Range
mod Tests
use network_proj.Prelude.{
  ℕ, zero, suc, ◌+◌, ◌-◌, ◌*◌, ◌/◌, ◌%◌, ◌^◌, bit_xor, List, [], ◌∷◌, Option, none, some, ◌==◌, leb,
  if◌then◌else◌, length,
}
use network_proj.Crc32.{all_ones}

-- `*buf_uint32` on a machine that stores the lowest byte first.
abbrev pub word : ℕ → ℕ → ℕ → ℕ → ℕ
word a b c d = a + 2 ^ 8 * b + 2 ^ 16 * c + 2 ^ 24 * d

-- `while(len)`: the sum, and the bytes behind it. `none`: it reads past the end of the buffer. The
-- subtraction of 4 wraps around, as it does on `size_t`.
pub sum_words : ℕ → ℕ → List ℕ → Option (ℕ × List ℕ)
sum_words sum zero buf = some (sum, buf)
sum_words sum (suc len) (a ∷ b ∷ c ∷ d ∷ buf) =
    sum_words ((sum + word a b c d) % 2 ^ 64) ((suc len + (2 ^ 64 - 4)) % 2 ^ 64) buf
sum_words sum (suc len) (a ∷ b ∷ c ∷ []) = none
sum_words sum (suc len) (a ∷ b ∷ []) = none
sum_words sum (suc len) (a ∷ []) = none
sum_words sum (suc len) [] = none

-- The loop over the remaining bytes is entered with `len` at 0, so `remain` stays 0.
abbrev pub fold_sum : Option (ℕ × List ℕ) → Option ℕ
fold_sum none = none
fold_sum (some (sum, buf)) = some ((sum / 2 ^ 32 + sum) % 2 ^ 32)

pub checksum32 : ℕ → List ℕ → ℕ → Option ℕ
checksum32 crc buf len = fold_sum (sum_words 0 len buf)

-- One bit of `deprecated_crc32`, highest bit first.
pub shift_high : ℕ → ℕ
shift_high crc =
    if leb 0x80000000 crc then bit_xor (crc * 2 % 2 ^ 32) 0x04c11db7 else crc * 2 % 2 ^ 32

pub eight_bits : ℕ → ℕ → ℕ
eight_bits zero crc = crc
eight_bits (suc n) crc = eight_bits n (shift_high crc)

pub high_loop : ℕ → List ℕ → ℕ
high_loop crc [] = crc
high_loop crc (b ∷ buf) = high_loop (eight_bits 8 (bit_xor crc (b * 2 ^ 24))) buf

pub deprecated_crc32 : ℕ → List ℕ → ℕ
deprecated_crc32 crc buf = high_loop (bit_xor crc all_ones) buf
