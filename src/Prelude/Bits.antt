-- ===== src/Prelude/Bits.antt =====
-- Exclusive or of the native numbers at variables: the recursion on the lowest digit, and the laws
-- that the checksums of crc32.c and checksum.c need.
use Prim.Native.Nat.{differ, digits, bit_xor-bitwise}
use native.Mathlib.Nat.{pow-suc, pow-succ', div-one, div-div-eq-div-mul}
use network_proj.Prelude.{
  ℕ, zero, suc, ◌+◌, ◌*◌, ◌/◌, ◌%◌, ◌^◌, ◌≤◌, ◌<◌, bit_xor, ◌≡◌, refl, sym, ap, ap₂, ◌∙◌, arith,
}

-- The count of digits is immaterial once it covers the first number.
module _ (z : ℕ → ℕ) (f : ℕ → ℕ → ℕ) where
  no_digits : (n b : ℕ) → digits z f n 0 b ≡ z b
  no_digits zero b = refl
  no_digits (suc n) b = refl

  pub enough_digits : (a b n m : ℕ) → a ≤ m → a ≤ n → digits z f n a b ≡ digits z f m a b
  enough_digits zero b n m above over = no_digits n b ∙ sym (no_digits m b)
  enough_digits (suc a) b n zero above over = absurd (omega arith)
  enough_digits (suc a) b zero (suc m) above over = absurd (omega arith)
  enough_digits (suc a) b (suc n) (suc m) above over =
      ap (λ t. t * 2 + f (suc a % 2) (b % 2))
        (enough_digits (suc a / 2) (b / 2) n m (omega arith) (omega arith))

differ-mod : (x y : ℕ) → x < 2 → y < 2 → differ x y ≡ (x + y) % 2
differ-mod zero y p q = omega arith
differ-mod (suc zero) zero p q = refl
differ-mod (suc zero) (suc zero) p q = refl
differ-mod (suc zero) (suc (suc y)) p q = absurd (omega arith)
differ-mod (suc (suc x)) y p q = absurd (omega arith)

pub bit_xor_zero_left : (b : ℕ) → bit_xor 0 b ≡ b
bit_xor_zero_left b = bit_xor-bitwise 0 b

-- One equation for the lowest digit.
bit_xor_digit : (a b : ℕ) → bit_xor a b ≡ bit_xor (a / 2) (b / 2) * 2 + differ (a % 2) (b % 2)
bit_xor_digit zero b = omega (
  arith,
  bit_xor_zero_left b,
  bit_xor_zero_left (b / 2),
  differ-mod 0 (b % 2) (omega arith) (omega arith),
)
bit_xor_digit (suc a) b = omega (
  arith,
  bit_xor-bitwise (suc a) b,
  bit_xor-bitwise (suc a / 2) (b / 2),
  enough_digits (λ y. y) differ (suc a / 2) (b / 2) a (suc a / 2) (omega arith) (omega arith),
)

pub bit_xor_step : (a b : ℕ) → bit_xor a b ≡ bit_xor (a / 2) (b / 2) * 2 + (a + b) % 2
bit_xor_step a b =
    omega (arith, bit_xor_digit a b, differ-mod (a % 2) (b % 2) (omega arith) (omega arith))

pub bit_xor-half : (a b : ℕ) → bit_xor a b / 2 ≡ bit_xor (a / 2) (b / 2)
bit_xor-half a b = omega (arith, bit_xor_step a b)

pub bit_xor-parity : (a b : ℕ) → bit_xor a b % 2 ≡ (a + b) % 2
bit_xor-parity a b = omega (arith, bit_xor_step a b)

comm_fuel : (n a b : ℕ) → a ≤ n → b ≤ n → bit_xor a b ≡ bit_xor b a
comm_fuel zero zero zero p q = refl
comm_fuel zero zero (suc b) p q = absurd (omega arith)
comm_fuel zero (suc a) b p q = absurd (omega arith)
comm_fuel (suc n) a b p q = omega (
  arith,
  bit_xor_step a b,
  bit_xor_step b a,
  comm_fuel n (a / 2) (b / 2) (omega arith) (omega arith),
)

pub bit_xor_comm : (a b : ℕ) → bit_xor a b ≡ bit_xor b a
bit_xor_comm a b = comm_fuel (a + b) a b (omega arith) (omega arith)

assoc_fuel :
    (n a b c : ℕ) → a ≤ n → b ≤ n → c ≤ n → bit_xor (bit_xor a b) c ≡ bit_xor a (bit_xor b c)
assoc_fuel zero zero b c p q r = rw (bit_xor_zero_left b, bit_xor_zero_left (bit_xor b c))
assoc_fuel zero (suc a) b c p q r = absurd (omega arith)
assoc_fuel (suc n) a b c p q r =
    low-high (assoc_fuel n (a / 2) (b / 2) (c / 2) (omega arith) (omega arith) (omega arith))
  where
    left :
        bit_xor (bit_xor a b) c
        ≡ bit_xor (bit_xor (a / 2) (b / 2)) (c / 2) * 2 + (bit_xor a b + c) % 2
    left =
        bit_xor_step (bit_xor a b) c
        ∙ ap (λ t. bit_xor t (c / 2) * 2 + (bit_xor a b + c) % 2) (bit_xor-half a b)

    right :
        bit_xor a (bit_xor b c)
        ≡ bit_xor (a / 2) (bit_xor (b / 2) (c / 2)) * 2 + (a + bit_xor b c) % 2
    right =
        bit_xor_step a (bit_xor b c)
        ∙ ap (λ t. bit_xor (a / 2) t * 2 + (a + bit_xor b c) % 2) (bit_xor-half b c)

    low-high :
        bit_xor (bit_xor (a / 2) (b / 2)) (c / 2) ≡ bit_xor (a / 2) (bit_xor (b / 2) (c / 2))
        → bit_xor (bit_xor a b) c ≡ bit_xor a (bit_xor b c)
    low-high ih = omega (arith, left, right, bit_xor-parity a b, bit_xor-parity b c)

pub bit_xor_assoc : (a b c : ℕ) → bit_xor (bit_xor a b) c ≡ bit_xor a (bit_xor b c)
bit_xor_assoc a b c = assoc_fuel (a + b + c) a b c (omega arith) (omega arith) (omega arith)

self_fuel : (n a : ℕ) → a ≤ n → bit_xor a a ≡ 0
self_fuel n zero p = refl
self_fuel zero (suc a) p = absurd (omega arith)
self_fuel (suc n) (suc a) p =
    omega (arith, bit_xor_step (suc a) (suc a), self_fuel n (suc a / 2) (omega arith))

pub bit_xor_self : (a : ℕ) → bit_xor a a ≡ 0
bit_xor_self a = self_fuel a a (omega arith)

pub bit_xor_zero : (a : ℕ) → bit_xor a 0 ≡ a
bit_xor_zero a = bit_xor_comm a 0 ∙ bit_xor_zero_left a

-- The same mask twice changes nothing.
pub bit_xor_cancel : (a b : ℕ) → bit_xor (bit_xor a b) b ≡ a
bit_xor_cancel a b = bit_xor_assoc a b b ∙ ap (bit_xor a) (bit_xor_self b) ∙ bit_xor_zero a

pub bit_xor-injective : (a b m : ℕ) → bit_xor a m ≡ bit_xor b m → a ≡ b
bit_xor-injective a b m e = sym (bit_xor_cancel a m) ∙ ap (λ t. bit_xor t m) e ∙ bit_xor_cancel b m

pub bit_xor-injective_right : (m a b : ℕ) → bit_xor m a ≡ bit_xor m b → a ≡ b
bit_xor-injective_right m a b e = bit_xor-injective a b m (bit_xor_comm a m ∙ e ∙ bit_xor_comm m b)

pub bit_xor-lt : (k a b : ℕ) → a < 2 ^ k → b < 2 ^ k → bit_xor a b < 2 ^ k
bit_xor-lt zero zero zero p q = omega arith
bit_xor-lt zero zero (suc b) p q = absurd (omega arith)
bit_xor-lt zero (suc a) b p q = absurd (omega arith)
bit_xor-lt (suc k) a b p q = omega (
  arith,
  pow-suc 2 k,
  bit_xor_step a b,
  bit_xor-lt k (a / 2) (b / 2) (omega (arith, pow-suc 2 k)) (omega (arith, pow-suc 2 k)),
)

-- A high part and the bits below it: exclusive or is addition.
pub bit_xor_fields : (k q r : ℕ) → r < 2 ^ k → bit_xor (q * 2 ^ k) r ≡ q * 2 ^ k + r
bit_xor_fields zero q r fits =
    let none_left : r ≡ 0 = omega arith in rw (none_left, bit_xor_zero) (omega arith)
bit_xor_fields (suc k) q r fits = omega (
  arith,
  ap (λ (t : ℕ). q * t) (pow-suc 2 k),
  pow-suc 2 k,
  bit_xor_step (q * 2 ^ suc k) r,
  half,
  bit_xor_fields k q (r / 2) (omega (arith, pow-suc 2 k)),
)
  where
    half : bit_xor (q * 2 ^ suc k / 2) (r / 2) ≡ bit_xor (q * 2 ^ k) (r / 2)
    half = ap (λ t. bit_xor t (r / 2)) (omega (arith, ap (λ (t : ℕ). q * t) (pow-suc 2 k)))

-- A right shift goes under exclusive or.
pub bit_xor_shift : (k a b : ℕ) → bit_xor a b / 2 ^ k ≡ bit_xor (a / 2 ^ k) (b / 2 ^ k)
bit_xor_shift zero a b = div-one (bit_xor a b) ∙ sym (ap₂ bit_xor (div-one a) (div-one b))
bit_xor_shift (suc k) a b =
    halved (bit_xor a b)
    ∙ ap (λ t. t / 2 ^ k) (bit_xor-half a b)
    ∙ bit_xor_shift k (a / 2) (b / 2)
    ∙ sym (ap₂ bit_xor (halved a) (halved b))
  where
    halved : (x : ℕ) → x / 2 ^ suc k ≡ x / 2 / 2 ^ k
    halved x = ap (λ t. x / t) (pow-succ' 2 k) ∙ sym (div-div-eq-div-mul x 2 (2 ^ k))
