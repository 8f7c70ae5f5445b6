-- ===== src/Net.antt =====
-- What the programs of Proj1 share with the operating system: socket addresses (`struct
-- sockaddr_in`), and the end of a process by `exit`. Data model: `int` and `uint32_t` are 32-bit
-- patterns, numbers below 2 ^ 32, and `size_t` has 64 bits.
use network_proj.Prelude.{ℕ, Bool, true, false, if◌then◌else◌}

-- sin_family, sin_port and sin_addr as they stand in memory.
pub record Addr : Type 0 where
  pub family : ℕ
  pub port : ℕ
  pub addr : ℕ

-- A handler returns, or the process ends with a code.
pub data Outcome {ℓ} (A : Type ℓ) : Type ℓ where
  done : A → Outcome A
  exit : ℕ → Outcome A

infixl 5 ◌>>=◌
abbrev pub ◌>>=◌ {ℓ κ} : {A : Type ℓ} {B : Type κ} → Outcome A → (A → Outcome B) → Outcome B
done a >>= f = f a
exit code >>= f = exit code

-- What holds of the result where there is one.
abbrev pub OnDone {ℓ κ} : {A : Type ℓ} → (A → Type κ) → Outcome A → Type κ
OnDone P (done a) = P a
OnDone P (exit code) = Unit

-- One handler after another, one or the other, and a result of which nothing is said.
module _ {ℓ κ} {A : Type ℓ} (P : A → Type κ) where
  pub OnDone-if :
      (b : Bool) (x y : Outcome A) → OnDone P x → OnDone P y → OnDone P (if b then x else y)
  OnDone-if true x y h k = h
  OnDone-if false x y h k = k

  pub OnDone-any : (x : Outcome A) → ((a : A) → P a) → OnDone P x
  OnDone-any (done a) h = h a
  OnDone-any (exit code) h = tt

  pub OnDone-bind :
      {B : Type ℓ} (Q : B → Type κ) (x : Outcome A) (f : A → Outcome B)
      → OnDone P x
      → ((a : A) → P a → OnDone Q (f a))
      → OnDone Q (x >>= f)
  OnDone-bind Q (done a) f h k = k a h
  OnDone-bind Q (exit code) f h k = tt

  pub OnDone-and :
      (Q : A → Type κ) (x : Outcome A) → OnDone P x → OnDone Q x → OnDone (λ a. P a × Q a) x
  OnDone-and Q (done a) h k = (h, k)
  OnDone-and Q (exit code) h k = tt

  pub OnDone-map :
      (Q : A → Type κ) (x : Outcome A) → ((a : A) → P a → Q a) → OnDone P x → OnDone Q x
  OnDone-map Q (done a) f h = f a h
  OnDone-map Q (exit code) f h = tt
