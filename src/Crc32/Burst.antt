-- ===== src/Crc32/Burst.antt =====
-- What `crc32` detects: two buffers that differ within four consecutive bytes.
use network_proj.Prelude.Bits.{
  bit_xor-lt, bit_xor-injective, bit_xor_comm, bit_xor_assoc, bit_xor_fields, bit_xor_shift,
  bit_xor_zero_left,
}
use network_proj.Prelude.{
  ℕ, zero, suc, ◌+◌, ◌*◌, ◌/◌, ◌^◌, ◌≤◌, ◌<◌, bit_xor, ◌≡◌, ◌≢◌, refl, sym, ap, ap₂, ◌∙◌, List, [],
  ◌∷◌, ◌++◌, arith, length, IsBytes, All-append,
}
use network_proj.Crc32.{crc32, all_ones}
use network_proj.Crc32.Bitwise.{
  polynomial, shift_bit, shift_bits, shift_bits-xor, shift_bits-add, register, crc32-register,
}
use network_proj.Crc32.Stream.{shift_bit-lt, shift_bits-lt, register-lt}

-- The polynomial has its top bit set, so one step can be undone.
shift_bit-injective : (x y : ℕ) → x < 2 ^ 32 → y < 2 ^ 32 → shift_bit x ≡ shift_bit y → x ≡ y
unfolding shift_bit
shift_bit-injective x y hx hy e =
    ground (arith, top x hx, top y hy, bit_xor-injective (x / 2) (y / 2) polynomial)
  where
    top : (z : ℕ) → z < 2 ^ 32 → 2 ^ 31 ≤ bit_xor (z / 2) polynomial
    top z hz = omega (arith, leading)
      where
        leading : bit_xor (z / 2) polynomial / 2 ^ 31 ≡ 1
        leading =
            let empty : z / 2 / 2 ^ 31 ≡ 0 = omega arith in
            bit_xor_shift 31 (z / 2) polynomial ∙ ap (λ t. bit_xor t 1) empty

pub shift_bits-injective :
    (n x y : ℕ) → x < 2 ^ 32 → y < 2 ^ 32 → shift_bits n x ≡ shift_bits n y → x ≡ y
unfolding shift_bits
shift_bits-injective zero x y hx hy e = e
shift_bits-injective (suc n) x y hx hy e =
    shift_bit-injective x y hx hy
      (shift_bits-injective n (shift_bit x) (shift_bit y) (shift_bit-lt x hx) (shift_bit-lt y hy) e)

-- The bytes as one number, the first byte lowest.
pub word : List ℕ → ℕ
word [] = 0
word (b ∷ bs) = bit_xor (word bs * 2 ^ 8) b

-- A whole run of bytes enters the register at once.
register-word :
    (crc : ℕ) (bs : List ℕ) → register crc bs ≡ shift_bits (length bs * 8) (bit_xor (word bs) crc)
unfolding register word shift_bits
register-word crc [] = sym (bit_xor_zero_left crc)
register-word crc (b ∷ bs) =
    register-word (shift_bits 8 (bit_xor crc b)) bs
    ∙ ap (shift_bits (length bs * 8)) (sym (shift_bits-xor 8 (word bs) (bit_xor crc b)))
    ∙ sym (shift_bits-add 8 (length bs * 8) (bit_xor (word bs * 2 ^ 8) (bit_xor crc b)))
    ∙ ap₂ shift_bits count regroup
  where
    count : 8 + length bs * 8 ≡ length (b ∷ bs) * 8
    count = omega arith

    regroup : bit_xor (word bs * 2 ^ 8) (bit_xor crc b) ≡ bit_xor (bit_xor (word bs * 2 ^ 8) b) crc
    regroup =
        ap (bit_xor (word bs * 2 ^ 8)) (bit_xor_comm crc b)
        ∙ sym (bit_xor_assoc (word bs * 2 ^ 8) b crc)

register-append :
    (crc : ℕ) (xs ys : List ℕ) → register crc (xs ++ ys) ≡ register (register crc xs) ys
unfolding register
register-append crc [] ys = refl
register-append crc (x ∷ xs) ys = register-append (shift_bits 8 (bit_xor crc x)) xs ys

-- The same bytes take different registers to different registers.
register-injective :
    (a b : ℕ) (bs : List ℕ)
    → a < 2 ^ 32
    → b < 2 ^ 32
    → IsBytes bs
    → register a bs ≡ register b bs
    → a ≡ b
unfolding register
register-injective a b [] ha hb v e = e
register-injective a b (p ∷ bs) ha hb v e = bit_xor-injective a b p (
    shift_bits-injective 8 (bit_xor a p) (bit_xor b p) (entered a ha) (entered b hb) (
      register-injective (shift_bits 8 (bit_xor a p)) (shift_bits 8 (bit_xor b p)) bs
        (shift_bits-lt 8 _ (entered a ha)) (shift_bits-lt 8 _ (entered b hb)) v.1 e))
  where
    entered : (c : ℕ) → c < 2 ^ 32 → bit_xor c p < 2 ^ 32
    entered c hc = bit_xor-lt 32 c p hc (let byte : p < 256 = v.0 in omega arith)

word-cons : (b : ℕ) (bs : List ℕ) → b < 256 → word (b ∷ bs) ≡ word bs * 256 + b
unfolding word
word-cons b bs h = bit_xor_fields 8 (word bs) b h

word-lt : (bs : List ℕ) → IsBytes bs → length bs ≤ 4 → word bs < 2 ^ 32
unfolding word
word-lt [] v l = omega arith
word-lt (a ∷ []) v l = omega (arith, word-cons a [] v.0)
word-lt (a ∷ b ∷ []) v l = omega (arith, word-cons a (b ∷ []) v.0, word-cons b [] v.1.0)
word-lt (a ∷ b ∷ c ∷ []) v l =
    omega (arith, word-cons a (b ∷ c ∷ []) v.0, word-cons b (c ∷ []) v.1.0, word-cons c [] v.1.1.0)
word-lt (a ∷ b ∷ c ∷ d ∷ []) v l = omega (
  arith,
  word-cons a (b ∷ c ∷ d ∷ []) v.0,
  word-cons b (c ∷ d ∷ []) v.1.0,
  word-cons c (d ∷ []) v.1.1.0,
  word-cons d [] v.1.1.1.0,
)
word-lt (a ∷ b ∷ c ∷ d ∷ e ∷ bs) v l = absurd (omega arith)

word-injective :
    (xs ys : List ℕ) → IsBytes xs → IsBytes ys → length xs ≡ length ys → word xs ≡ word ys → xs ≡ ys
word-injective [] [] vx vy l e = refl
word-injective [] (y ∷ ys) vx vy l e = absurd (omega arith)
word-injective (x ∷ xs) [] vx vy l e = absurd (omega arith)
word-injective (x ∷ xs) (y ∷ ys) vx vy l e =
    ap₂ ◌∷◌ (omega (arith, word-cons x xs vx.0, word-cons y ys vy.0)) (
      word-injective xs ys vx.1 vy.1 (omega arith)
        (omega (arith, word-cons x xs vx.0, word-cons y ys vy.0)))

register_burst :
    (crc : ℕ) (xs ys suffix : List ℕ)
    → crc < 2 ^ 32
    → IsBytes xs
    → IsBytes ys
    → IsBytes suffix
    → length xs ≡ length ys
    → length xs ≤ 4
    → register crc (xs ++ suffix) ≡ register crc (ys ++ suffix)
    → xs ≡ ys
register_burst crc xs ys suffix h vx vy vs l short e = word-injective xs ys vx vy l (
    bit_xor-injective (word xs) (word ys) crc (
      shift_bits-injective (length xs * 8) _ _ (bit_xor-lt 32 (word xs) crc (word-lt xs vx short) h)
        (bit_xor-lt 32 (word ys) crc (word-lt ys vy (rw (← l) short)) h)
        (sym (register-word crc xs) ∙ same ∙ register-word crc ys ∙ aligned)))
  where
    same : register crc xs ≡ register crc ys
    same =
        register-injective (register crc xs) (register crc ys) suffix (register-lt crc xs h vx)
          (register-lt crc ys h vy) vs
          (sym (register-append crc xs suffix) ∙ e ∙ register-append crc ys suffix)

    aligned :
        shift_bits (length ys * 8) (bit_xor (word ys) crc)
        ≡ shift_bits (length xs * 8) (bit_xor (word ys) crc)
    aligned = ap (λ n. shift_bits (n * 8) (bit_xor (word ys) crc)) (sym l)

crc32_burst :
    (crc : ℕ) (prefix xs ys suffix : List ℕ)
    → crc < 2 ^ 32
    → IsBytes prefix
    → IsBytes xs
    → IsBytes ys
    → IsBytes suffix
    → length xs ≡ length ys
    → length xs ≤ 4
    → crc32 crc (prefix ++ (xs ++ suffix)) ≡ crc32 crc (prefix ++ (ys ++ suffix))
    → xs ≡ ys
crc32_burst crc prefix xs ys suffix h vp vx vy vs l short e =
    register_burst (register start prefix) xs ys suffix
      (register-lt start prefix (bit_xor-lt 32 crc all_ones h (omega arith)) vp) vx vy vs l short
      (sym (register-append start prefix (xs ++ suffix))
        ∙ bit_xor-injective _ _ all_ones (sym (whole xs vx) ∙ e ∙ whole ys vy)
        ∙ register-append start prefix (ys ++ suffix))
  where
    start : ℕ
    start = bit_xor crc all_ones

    whole :
        (zs : List ℕ)
        → IsBytes zs
        → crc32 crc (prefix ++ (zs ++ suffix))
          ≡ bit_xor (register (bit_xor crc all_ones) (prefix ++ (zs ++ suffix))) all_ones
    whole zs vz =
        crc32-register crc (prefix ++ (zs ++ suffix))
          (All-append _ prefix (zs ++ suffix) vp (All-append _ zs suffix vz vs))

-- Any error that is confined to four consecutive bytes is detected: two buffers of bytes that agree
-- elsewhere and differ in up to four consecutive bytes have different checksums, wherever those
-- bytes stand and whatever the start value of 32 bits is.
pub crc32_detects_burst :
    (crc : ℕ) (prefix xs ys suffix : List ℕ)
    → crc < 2 ^ 32
    → IsBytes prefix
    → IsBytes xs
    → IsBytes ys
    → IsBytes suffix
    → length xs ≡ length ys
    → length xs ≤ 4
    → xs ≢ ys
    → crc32 crc (prefix ++ (xs ++ suffix)) ≢ crc32 crc (prefix ++ (ys ++ suffix))
crc32_detects_burst crc prefix xs ys suffix h vp vx vy vs l short differ e =
    differ (crc32_burst crc prefix xs ys suffix h vp vx vy vs l short e)
