-- ===== src/Crc32/Bitwise.antt =====
-- The table of crc32.c against the shift register that it stands for, one bit at a time.
use native.Mathlib.Nat.{pow-suc}
use network_proj.Prelude.Bits.{
  bit_xor-half, bit_xor-parity, bit_xor_assoc, bit_xor_comm, bit_xor_fields, bit_xor_shift,
  bit_xor_zero,
}
use network_proj.Prelude.Mask.{bit_and_byte}
use network_proj.Prelude.{
  ℕ, zero, suc, ◌+◌, ◌*◌, ◌/◌, ◌%◌, ◌^◌, ◌<◌, bit_xor, ◌≡◌, refl, sym, ap, ◌∙◌, true, List, [], ◌∷◌,
  arith, ◌==◌, ◌&&◌, Bool, if◌then◌else◌, get_or, length, IsBytes,
}
use network_proj.Crc32.{crc32_tab, update, crc_loop, crc32, all_ones}

-- The polynomial named in the comment of crc32.c, lowest term first.
abbrev pub polynomial : ℕ
polynomial = 0xedb88320

-- One step of the reflected shift register.
unfoldable pub shift_bit : ℕ → ℕ
shift_bit x = if x % 2 == 1 then bit_xor (x / 2) polynomial else x / 2

unfoldable pub shift_bits : ℕ → ℕ → ℕ
shift_bits zero x = x
shift_bits (suc n) x = shift_bits n (shift_bit x)

-- The checksum without a table: each byte enters the register and is shifted out of it.
unfoldable pub register : ℕ → List ℕ → ℕ
register crc [] = crc
register crc (p ∷ buf) = register (shift_bits 8 (bit_xor crc p)) buf

shift_bit-xor : (h l : ℕ) → shift_bit (bit_xor (h * 2) l) ≡ bit_xor h (shift_bit l)
unfolding shift_bit
shift_bit-xor h l = ground (
  arith,
  bit_xor-parity (h * 2) l,
  bit_xor-half (h * 2) l ∙ ap (λ t. bit_xor t (l / 2)) halves,
  bit_xor_assoc h (l / 2) polynomial,
)
  where
    halves : h * 2 / 2 ≡ h
    halves = omega arith

-- What stands above the bits that are shifted out only moves down.
pub shift_bits-xor : (n h l : ℕ) → shift_bits n (bit_xor (h * 2 ^ n) l) ≡ bit_xor h (shift_bits n l)
unfolding shift_bits
shift_bits-xor zero h l = ap (λ t. bit_xor t l) (omega arith)
shift_bits-xor (suc n) h l =
    ap (λ t. shift_bits n (shift_bit (bit_xor t l))) doubled
    ∙ ap (shift_bits n) (shift_bit-xor (h * 2 ^ n) l)
    ∙ shift_bits-xor n h (shift_bit l)
  where
    doubled : h * 2 ^ suc n ≡ h * 2 ^ n * 2
    doubled = omega (arith, ap (λ (t : ℕ). h * t) (pow-suc 2 n))

pub shift_bits-add : (m n x : ℕ) → shift_bits (m + n) x ≡ shift_bits n (shift_bits m x)
unfolding shift_bits
shift_bits-add zero n x = let same : 0 + n ≡ n = omega arith in ap (λ t. shift_bits t x) same
shift_bits-add (suc m) n x = ap (λ t. shift_bits t x) more ∙ shift_bits-add m n (shift_bit x)
  where
    more : suc m + n ≡ suc (m + n)
    more = omega arith

-- Entry by entry: the table from index `i` on holds what its index leaves after eight steps.
tabulates : ℕ → List ℕ → Bool
tabulates i [] = true
tabulates i (entry ∷ rest) = (entry == shift_bits 8 i) && tabulates (i + 1) rest

tabulated :
    (i k : ℕ) (table : List ℕ)
    → tabulates i table ≡ true
    → k < length table
    → get_or table k 0 ≡ shift_bits 8 (i + k)
unfolding tabulates
tabulated i k [] h inside = absurd (omega arith)
tabulated i zero (entry ∷ rest) h inside = let first : i ≡ i + 0 = omega arith in ground arith
tabulated i (suc k) (entry ∷ rest) h inside =
    let next : i + suc k ≡ i + 1 + k = omega arith in ground (arith, tabulated (i + 1) k rest)

tabulates-crc32_tab : tabulates 0 crc32_tab ≡ true
unfolding tabulates crc32_tab shift_bits shift_bit
tabulates-crc32_tab = refl

length-crc32_tab : length crc32_tab ≡ 256
unfolding crc32_tab
length-crc32_tab = refl

get_or-crc32_tab : (i : ℕ) → i < 256 → get_or crc32_tab i 0 ≡ shift_bits 8 i
get_or-crc32_tab i h =
    tabulated 0 i crc32_tab tabulates-crc32_tab (omega (arith, length-crc32_tab))
    ∙ ap (shift_bits 8) (omega arith)

shift_byte : (x : ℕ) → shift_bits 8 x ≡ bit_xor (x / 256) (shift_bits 8 (x % 256))
shift_byte x =
    ap (shift_bits 8) (split ∙ sym (bit_xor_fields 8 (x / 256) (x % 256) (omega arith)))
    ∙ shift_bits-xor 8 (x / 256) (x % 256)
  where
    split : x ≡ x / 256 * 2 ^ 8 + x % 256
    split = omega arith

high_part : (crc p : ℕ) → p < 256 → bit_xor crc p / 256 ≡ crc / 256
high_part crc p h = eight_halves ∙ ap (bit_xor (crc / 256)) small ∙ bit_xor_zero (crc / 256)
  where
    small : p / 256 ≡ 0
    small = omega arith

    eight_halves : bit_xor crc p / 256 ≡ bit_xor (crc / 256) (p / 256)
    eight_halves = bit_xor_shift 8 crc p

-- One table lookup does the work of eight steps of the register.
pub update-shift_bits : (crc p : ℕ) → p < 256 → update crc p ≡ shift_bits 8 (bit_xor crc p)
unfolding update
update-shift_bits crc p h =
    ap (λ t. bit_xor (get_or crc32_tab t 0) (crc / 256)) (bit_and_byte (bit_xor crc p))
    ∙ ap (λ t. bit_xor t (crc / 256)) (get_or-crc32_tab (bit_xor crc p % 256) (omega arith))
    ∙ bit_xor_comm (shift_bits 8 (bit_xor crc p % 256)) (crc / 256)
    ∙ ap (λ t. bit_xor t (shift_bits 8 (bit_xor crc p % 256))) (sym (high_part crc p h))
    ∙ sym (shift_byte (bit_xor crc p))

crc_loop-register : (crc : ℕ) (buf : List ℕ) → IsBytes buf → crc_loop crc buf ≡ register crc buf
unfolding crc_loop register
crc_loop-register crc [] v = refl
crc_loop-register crc (p ∷ buf) v =
    ap (λ t. crc_loop t buf) (update-shift_bits crc p v.0)
    ∙ crc_loop-register (shift_bits 8 (bit_xor crc p)) buf v.1

-- On every buffer of bytes and from every start value, `crc32` is the complement of what the
-- bitwise register of the polynomial 0xedb88320 holds after the buffer, started at the complement.
pub crc32-register :
    (crc : ℕ) (buf : List ℕ)
    → IsBytes buf
    → crc32 crc buf ≡ bit_xor (register (bit_xor crc all_ones) buf) all_ones
unfolding crc32
crc32-register crc buf v =
    ap (λ t. bit_xor t all_ones) (crc_loop-register (bit_xor crc all_ones) buf v)
