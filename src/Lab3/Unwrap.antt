-- ===== src/Lab3/Unwrap.antt =====
-- What tcpd_RECV of Lab3/tcpd.c copies out of a datagram.
use network_proj.Prelude.{
  ℕ, ◌+◌, ◌-◌, ◌≤◌, ◌<◌, ◌≡◌, refl, sym, ap, ◌∙◌, true, false, inl, inr, List, ◌++◌, if◌then◌else◌,
  arith, ltb→lt, Bool-cases, ltb, leb, length, take, drop, take_append_left, length-take,
  length-drop,
}
use network_proj.Lab3.{buf_len, body_size, capped, overwrite}
use network_proj.Lab3.Memory.{take_append_within, drop_append_within, drop_past_copy, take_most}

-- What is copied out of the struct after a datagram has come.
abbrev pub copied : ℕ → List ℕ → List ℕ → List ℕ
copied n stack d =
    let got = take (16 + buf_len) d in
    take (capped n (body_size (length got))) (drop 16 (overwrite got stack))

-- The bytes behind the header of a datagram; of the old memory, where there is no whole header.
abbrev pub body_of : ℕ → List ℕ → List ℕ → List ℕ
body_of n stack d =
    if leb 16 (length d) then take n (drop 16 (take (16 + buf_len) d)) else take n (drop 16 stack)

body_size-whole : (got : ℕ) → 16 ≤ got → got ≤ 1016 → body_size got ≡ got - 16
body_size-whole got h k = omega arith

capped-short : (n got : ℕ) → got < 16 → n ≤ 1000 → capped n (body_size got) ≡ n
capped-short n got h k = ground arith

le_of_leb : (a b : ℕ) → leb a b ≡ true → a ≤ b
le_of_leb a b h = ground arith

gt_of_leb : (a b : ℕ) → leb a b ≡ false → b < a
gt_of_leb a b h = ground arith

ge_of_ltb : (a b : ℕ) → ltb a b ≡ false → b ≤ a
ge_of_ltb a b h = ground arith

take-capped : (n : ℕ) (xs ys : List ℕ) → take (capped n (length xs)) (xs ++ ys) ≡ take n xs
take-capped n xs ys = elim (Bool-cases (ltb (length xs) n)) [
  | inl fewer ↦ rw fewer (
      take_append_left (length xs) xs ys refl
      ∙ sym (take_most n xs (omega (arith, ltb→lt (length xs) n fewer))))
  | inr enough ↦ rw enough (take_append_within n xs ys (ge_of_ltb (length xs) n enough))
]

-- A header of `h` bytes, and the memory behind what has come.
take-behind :
    (n h : ℕ) (got memory : List ℕ)
    → h ≤ length got
    → take (capped n (length got - h)) (drop h (got ++ memory)) ≡ take n (drop h got)
take-behind n h got memory k =
    ap (λ bs. take (capped n (length got - h)) bs) (drop_append_within h got memory k)
    ∙ ap (λ r. take (capped n r) (drop h got ++ memory)) (sym (length-drop h got))
    ∙ take-capped n (drop h got) memory

pub copied-whole :
    (n : ℕ) (stack d : List ℕ)
    → leb 16 (length d) ≡ true
    → copied n stack d ≡ take n (drop 16 (take (16 + buf_len) d))
unfolding overwrite
copied-whole n stack d h =
    let got = take (16 + buf_len) d in
    let size = length-take (16 + buf_len) d in
    let header : 16 ≤ length got = omega (le_of_leb 16 (length d) h, size, arith) in
    ap (λ r. take (capped n r) (drop 16 (got ++ drop (length got) stack)))
      (body_size-whole (length got) header (omega (size, arith)))
    ∙ take-behind n 16 got (drop (length got) stack) header

pub copied-short :
    (n : ℕ) (stack d : List ℕ)
    → n ≤ 1000
    → leb 16 (length d) ≡ false
    → copied n stack d ≡ take n (drop 16 stack)
unfolding overwrite
copied-short n stack d k h =
    let below = gt_of_leb 16 (length d) h in
    let whole = take_most (16 + buf_len) d (omega (below, arith)) in
    ap (λ got. take (capped n (body_size (length got))) (drop 16 (overwrite got stack))) whole
    ∙ ap (λ r. take r (drop 16 (overwrite d stack))) (capped-short n (length d) below k)
    ∙ ap (λ bs. take n bs) (drop_past_copy 16 d stack (omega (below, arith)))
