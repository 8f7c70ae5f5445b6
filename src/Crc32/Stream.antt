-- ===== src/Crc32/Stream.antt =====
-- `crc32` over a buffer that is handed over in pieces, and its range.
use network_proj.Prelude.Bits.{bit_xor_cancel, bit_xor-lt}
use network_proj.Prelude.{
  ℕ, zero, suc, ◌/◌, ◌^◌, ◌<◌, bit_xor, ◌≡◌, refl, sym, ap, ◌∙◌, List, [], ◌∷◌, ◌++◌, arith,
  IsBytes,
}
use network_proj.Crc32.{update, crc_loop, crc32, all_ones}
use network_proj.Crc32.Bitwise.{shift_bit, shift_bits, register, crc32-register, polynomial}

pub crc_loop-append :
    (crc : ℕ) (xs ys : List ℕ) → crc_loop crc (xs ++ ys) ≡ crc_loop (crc_loop crc xs) ys
unfolding crc_loop
crc_loop-append crc [] ys = refl
crc_loop-append crc (x ∷ xs) ys = crc_loop-append (update crc x) xs ys

-- The checksum of a concatenation is the checksum of the second part started from that of the
-- first, so a buffer can be summed piece by piece.
crc32-append : (crc : ℕ) (xs ys : List ℕ) → crc32 crc (xs ++ ys) ≡ crc32 (crc32 crc xs) ys
unfolding crc32
crc32-append crc xs ys =
    ap (λ t. bit_xor t all_ones) (crc_loop-append (bit_xor crc all_ones) xs ys)
    ∙ ap (λ t. bit_xor (crc_loop t ys) all_ones)
        (sym (bit_xor_cancel (crc_loop (bit_xor crc all_ones) xs) all_ones))

pub shift_bit-lt : (x : ℕ) → x < 2 ^ 32 → shift_bit x < 2 ^ 32
unfolding shift_bit
shift_bit-lt x h = ground (arith, bit_xor-lt 32 (x / 2) polynomial)

pub shift_bits-lt : (n x : ℕ) → x < 2 ^ 32 → shift_bits n x < 2 ^ 32
unfolding shift_bits
shift_bits-lt zero x h = h
shift_bits-lt (suc n) x h = shift_bits-lt n (shift_bit x) (shift_bit-lt x h)

pub register-lt : (crc : ℕ) (buf : List ℕ) → crc < 2 ^ 32 → IsBytes buf → register crc buf < 2 ^ 32
unfolding register
register-lt crc [] h v = h
register-lt crc (p ∷ buf) h v =
    register-lt (shift_bits 8 (bit_xor crc p)) buf
      (shift_bits-lt 8 (bit_xor crc p)
        (bit_xor-lt 32 crc p h (let byte : p < 256 = v.0 in omega arith)))
      v.1

-- The result of `crc32` on bytes, from a start value of 32 bits, fits the `uint32_t` that it is
-- returned in.
crc32-lt : (crc : ℕ) (buf : List ℕ) → crc < 2 ^ 32 → IsBytes buf → crc32 crc buf < 2 ^ 32
crc32-lt crc buf h v = rw (crc32-register crc buf v) (
    bit_xor-lt 32 (register (bit_xor crc all_ones) buf) all_ones
      (register-lt (bit_xor crc all_ones) buf (bit_xor-lt 32 crc all_ones h (omega arith)) v)
      (omega arith))
