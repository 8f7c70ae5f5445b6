-- ===== src/Crc32/Tests.antt =====
-- The checksum on known inputs, and its theorems at concrete buffers.
use network_proj.Prelude.{ℕ, bit_xor, ◌≡◌, ◌≢◌, refl, List, [], ◌∷◌, ◌++◌, arith}
use network_proj.Crc32.{crc32_tab, update, crc_loop, crc32, all_ones}
use network_proj.Crc32.Bitwise.{register, crc32-register}
use network_proj.Crc32.Burst.{crc32_detects_burst}

-- The check value of this polynomial, the checksum of "123456789".
check_value :
    crc32 0 (0x31 ∷ 0x32 ∷ 0x33 ∷ 0x34 ∷ 0x35 ∷ 0x36 ∷ 0x37 ∷ 0x38 ∷ 0x39 ∷ []) ≡ 0xcbf43926
unfolding crc32 crc_loop update crc32_tab
check_value = refl

abbrev head : List ℕ
head = 1 ∷ 2 ∷ []

abbrev tail : List ℕ
tail = 255 ∷ 0 ∷ 7 ∷ []

crc32-register_example : crc32 0 tail ≡ bit_xor (register (bit_xor 0 all_ones) tail) all_ones
crc32-register_example = crc32-register 0 tail (omega arith)

abbrev garbled : List ℕ
garbled = 254 ∷ 1 ∷ 7 ∷ []

tail-ne-garbled : tail ≢ garbled
tail-ne-garbled e = cc

crc32_detects_burst_example : crc32 0 (head ++ (tail ++ head)) ≢ crc32 0 (head ++ (garbled ++ head))
crc32_detects_burst_example =
    crc32_detects_burst 0 head tail garbled head (omega arith) (omega arith) (omega arith)
      (omega arith) (omega arith) refl (omega arith) tail-ne-garbled
