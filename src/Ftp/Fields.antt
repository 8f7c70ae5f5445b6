-- ===== src/Ftp/Fields.antt =====
-- `|` of a high part and the bits below it is addition.
use Prim.Native.Nat.{max, bit_or-bitwise}
use native.Mathlib.Nat.{pow-suc}
use network_proj.Prelude.{
  ℕ, zero, suc, ◌+◌, ◌*◌, ◌/◌, ◌%◌, ◌^◌, ◌≤◌, ◌<◌, bit_or, ◌≡◌, refl, ap, ◌∙◌, arith,
}
use network_proj.Prelude.Bits.{enough_digits}

or_nothing : (b : ℕ) → bit_or 0 b ≡ b
or_nothing b = bit_or-bitwise 0 b

or_digit : (b a : ℕ) → bit_or a b ≡ 2 * bit_or (a / 2) (b / 2) + max (a % 2) (b % 2)
or_digit b zero = omega (arith, or_nothing (b / 2), or_nothing b)
or_digit b (suc a) = omega (
  arith,
  enough_digits (λ y. y) max (suc a / 2) (b / 2) a (suc a / 2) (omega arith) (omega arith),
  bit_or-bitwise (suc a / 2) (b / 2),
  bit_or-bitwise (suc a) b,
)

or_zero : (bound a : ℕ) → a ≤ bound → bit_or a 0 ≡ a
or_zero bound zero h = refl
or_zero zero (suc a) h = absurd (omega arith)
or_zero (suc bound) (suc a) h =
    omega (arith, or_zero bound (suc a / 2) (omega arith), or_digit 0 (suc a))

pub bit_or_fields : (k high low : ℕ) → low < 2 ^ k → bit_or (high * 2 ^ k) low ≡ high * 2 ^ k + low
bit_or_fields zero high low fits =
    let empty : low ≡ 0 = omega arith in
    ap (bit_or (high * 2 ^ 0)) empty
    ∙ or_zero (high * 2 ^ 0) (high * 2 ^ 0) (omega arith)
    ∙ omega arith
bit_or_fields (suc k) high low fits = omega (
  arith,
  ap (λ (t : ℕ). high * t) (pow-suc 2 k),
  pow-suc 2 k,
  or_digit low (high * 2 ^ suc k),
  ap (λ t. bit_or t (low / 2)) shifted,
  bit_or_fields k high (low / 2) (omega (arith, pow-suc 2 k)),
)
  where
    shifted : high * 2 ^ suc k / 2 ≡ high * 2 ^ k
    shifted = omega (arith, ap (λ (t : ℕ). high * t) (pow-suc 2 k))
