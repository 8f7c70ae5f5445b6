-- ===== src/Checksum/Range.antt =====
-- Where `checksum32` stays in its buffer, and the range of `deprecated_crc32`.
use network_proj.Prelude.Bits.{bit_xor-lt}
use network_proj.Prelude.{
  ℕ, zero, suc, ◌+◌, ◌-◌, ◌*◌, ◌%◌, ◌^◌, ◌<◌, bit_xor, ◌≡◌, refl, ap, ◌∙◌, List, [], ◌∷◌, Option,
  none, some, ◌==◌, Bool, true, false, arith, length, IsBytes,
}
use network_proj.Crc32.{all_ones}
use network_proj.Checksum.{
  word, sum_words, fold_sum, checksum32, shift_high, eight_bits, high_loop, deprecated_crc32,
}

abbrev pub is_some : Option ℕ → Bool
is_some none = false
is_some (some x) = true

sum_words_ends :
    (sum : ℕ) (len : ℕ) (buf : List ℕ)
    → len ≡ length buf
    → length buf < 2 ^ 64
    → is_some (fold_sum (sum_words sum len buf)) ≡ (len % 4 == 0)
unfolding sum_words
sum_words_ends sum zero buf e h = refl
sum_words_ends sum (suc len) [] e h = absurd (omega arith)
sum_words_ends sum (suc len) (a ∷ []) e h = ground arith
sum_words_ends sum (suc len) (a ∷ b ∷ []) e h = ground arith
sum_words_ends sum (suc len) (a ∷ b ∷ c ∷ []) e h = ground arith
sum_words_ends sum (suc len) (a ∷ b ∷ c ∷ d ∷ buf) e h =
    sum_words_ends ((sum + word a b c d) % 2 ^ 64) ((suc len + (2 ^ 64 - 4)) % 2 ^ 64) buf
      (omega (arith, shorter)) (omega arith)
    ∙ ap (λ n. n == 0) (omega (arith, shorter))
  where
    shorter : (suc len + (2 ^ 64 - 4)) % 2 ^ 64 + 4 ≡ suc len
    shorter = omega arith

-- `checksum32` of a whole buffer of less than 2 ^ 64 bytes ends within it exactly if its length is
-- a multiple of 4; otherwise it reads past the end.
pub checksum32_stays :
    (crc : ℕ) (buf : List ℕ)
    → length buf < 2 ^ 64
    → is_some (checksum32 crc buf (length buf)) ≡ (length buf % 4 == 0)
unfolding checksum32
checksum32_stays crc buf h = sum_words_ends 0 (length buf) buf refl h

shift_high-lt : (crc : ℕ) → shift_high crc < 2 ^ 32
unfolding shift_high
shift_high-lt crc = ground (arith, bit_xor-lt 32 (crc * 2 % 2 ^ 32) 0x04c11db7)

eight_bits-lt : (n crc : ℕ) → crc < 2 ^ 32 → eight_bits n crc < 2 ^ 32
unfolding eight_bits
eight_bits-lt zero crc h = h
eight_bits-lt (suc n) crc h = eight_bits-lt n (shift_high crc) (shift_high-lt crc)

high_loop-lt : (crc : ℕ) (buf : List ℕ) → crc < 2 ^ 32 → IsBytes buf → high_loop crc buf < 2 ^ 32
unfolding high_loop
high_loop-lt crc [] h v = h
high_loop-lt crc (b ∷ buf) h v =
    high_loop-lt (eight_bits 8 (bit_xor crc (b * 2 ^ 24))) buf
      (eight_bits-lt 8 (bit_xor crc (b * 2 ^ 24)) (bit_xor-lt 32 crc (b * 2 ^ 24) h high)) v.1
  where
    high : b * 2 ^ 24 < 2 ^ 32
    high = let byte : b < 256 = v.0 in omega arith

-- The result of `deprecated_crc32` on bytes, from a start value of 32 bits, fits 32 bits.
deprecated_crc32-lt :
    (crc : ℕ) (buf : List ℕ) → crc < 2 ^ 32 → IsBytes buf → deprecated_crc32 crc buf < 2 ^ 32
unfolding deprecated_crc32
deprecated_crc32-lt crc buf h v =
    high_loop-lt (bit_xor crc all_ones) buf (bit_xor-lt 32 crc all_ones h (omega arith)) v
