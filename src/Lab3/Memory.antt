-- ===== src/Lab3/Memory.antt =====
-- Blocks of memory of Lab3/tcpd.c: what is read back after a copy to their start.
use network_proj.Prelude.{
  ℕ, zero, suc, ◌/◌, ◌≤◌, ◌≡◌, refl, ap, List, [], ◌∷◌, ◌++◌, some, arith, length, take, drop,
  replicate, take_append_left,
}
use network_proj.Net.{done}
use network_proj.Tcpd.Message.{bytes}
use network_proj.Lab3.{overwrite, receive, read_argument}

module _ {ℓ} {A : Type ℓ} where
  pub take_append_within : (k : ℕ) (xs ys : List A) → k ≤ length xs → take k (xs ++ ys) ≡ take k xs
  take_append_within zero xs ys h = refl
  take_append_within (suc k) [] ys h = absurd (omega arith)
  take_append_within (suc k) (x ∷ xs) ys h = ap (◌∷◌ x) (take_append_within k xs ys (omega arith))

  pub drop_append_within :
      (k : ℕ) (xs ys : List A) → k ≤ length xs → drop k (xs ++ ys) ≡ drop k xs ++ ys
  drop_append_within zero xs ys h = refl
  drop_append_within (suc k) [] ys h = absurd (omega arith)
  drop_append_within (suc k) (x ∷ xs) ys h = drop_append_within k xs ys (omega arith)

  pub drop_append_exact : (k : ℕ) (xs ys : List A) → k ≡ length xs → drop k (xs ++ ys) ≡ ys
  drop_append_exact zero [] ys h = refl
  drop_append_exact zero (x ∷ xs) ys h = absurd (omega arith)
  drop_append_exact (suc k) [] ys h = absurd (omega arith)
  drop_append_exact (suc k) (x ∷ xs) ys h = drop_append_exact k xs ys (omega arith)

  drop_copied : (k : ℕ) (xs : List A) → length xs ≤ k → drop k (xs ++ []) ≡ []
  drop_copied zero [] h = refl
  drop_copied (suc k) [] h = refl
  drop_copied zero (x ∷ xs) h = absurd (omega arith)
  drop_copied (suc k) (x ∷ xs) h = drop_copied k xs (omega arith)

  -- A copy that ends before `k` does not show from there on.
  pub drop_past_copy :
      (k : ℕ) (xs ys : List A) → length xs ≤ k → drop k (xs ++ drop (length xs) ys) ≡ drop k ys
  drop_past_copy k [] ys h = refl
  drop_past_copy zero (x ∷ xs) ys h = absurd (omega arith)
  drop_past_copy (suc k) (x ∷ xs) [] h = drop_copied k xs (omega arith)
  drop_past_copy (suc k) (x ∷ xs) (y ∷ ys) h = drop_past_copy k xs ys (omega arith)

  pub take_most : (k : ℕ) (xs : List A) → length xs ≤ k → take k xs ≡ xs
  take_most zero [] h = refl
  take_most zero (x ∷ xs) h = absurd (omega arith)
  take_most (suc k) [] h = refl
  take_most (suc k) (x ∷ xs) h = ap (◌∷◌ x) (take_most k xs (omega arith))

pub length-bytes : (n x : ℕ) → length (bytes n x) ≡ n
unfolding bytes
length-bytes zero x = refl
length-bytes (suc n) x = ap suc (length-bytes n (x / 256))

-- `buf` after an argument has been read into it.
abbrev pub after_argument : ℕ → List ℕ → List ℕ → List ℕ
after_argument n argument buf = overwrite argument (overwrite (replicate n 0) buf)

pub read_argument_whole :
    (n : ℕ) (argument buf : List ℕ)
    → length argument ≡ n
    → read_argument n (some argument) buf ≡ done (argument, after_argument n argument buf)
unfolding read_argument receive overwrite
read_argument_whole n argument buf e =
    let whole = take_most n argument (omega (e, arith)) in
    let back =
      take_append_left n argument (drop (length argument) (overwrite (replicate n 0) buf))
        (omega (e, arith)) in
    rw (whole, back) refl
