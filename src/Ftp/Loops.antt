-- ===== src/Ftp/Loops.antt =====
-- The loops of client and server: the chunks that the one sends are those that the other asks for.
use Prim.Native.Nat.{min}
use network_proj.Prelude.{
  ℕ, zero, suc, ◌-◌, ◌≤◌, ◌<◌, ◌≡◌, refl, sym, ap, ◌∙◌, Bool, true, false, List, [], ◌∷◌, ◌++◌, All,
  ltb, Bool-cases, inl, inr, if◌then◌else◌, arith, length, take, drop, length-take, length-drop,
  take-append-drop, take-length,
}
use network_proj.Net.{Addr}
use network_proj.Tcpd.Message.{buf_len}
use network_proj.Tcpd.State.{AcceptedSocket}
use network_proj.Ftp.{
  Sent, finished, exited, unfinished, after, read_now, send_loop, request, Received, failed,
  returned, waits, closed, blocked, written_with, at_most, recv_loop,
}
use network_proj.Ftp.Service.{daemon_recv, Ready, Ready-Next}

amount : (left r : ℕ) → r ≡ min buf_len left → (if ltb left r then left else r) ≡ request left
amount left r e = ground arith

-- One round of the client's loop reads as many bytes as one round of the server's asks for.
pub read_now_lem :
    (left : ℕ) (rest : List ℕ) → left ≡ length rest → read_now left rest ≡ take (request left) rest
read_now_lem left rest e =
    ap (λ n. take n rest)
      (amount left (length (take buf_len rest))
        (length-take buf_len rest ∙ ap (min buf_len) (sym e)))

drop_all : (n : ℕ) (xs : List ℕ) → length xs ≤ n → drop n xs ≡ []
drop_all zero [] h = refl
drop_all (suc n) [] h = refl
drop_all zero (x ∷ xs) h = absurd (omega arith)
drop_all (suc n) (x ∷ xs) h = drop_all n xs (omega arith)

drop_read :
    (left : ℕ) (rest : List ℕ) → left ≡ length rest → drop buf_len rest ≡ drop (request left) rest
drop_read left rest e = elim (Bool-cases (ltb left buf_len)) [
  | inl last ↦
      rw last (drop_all buf_len rest (ground arith) ∙ sym (drop_all left rest (omega arith)))
  | inr more ↦ rw more refl
]

-- The chunks of a client, each of a byte or more, feed the loop of the server: on a connection that
-- holds them it writes the file, and the connection holds no more.
abbrev pub Feeds : Addr → ℕ → ℕ → List ℕ → List (List ℕ) → Type 0
Feeds here g left file chunks =
    (s : AcceptedSocket)
    → Ready here chunks s
    → (s' : AcceptedSocket) × (recv_loop (daemon_recv here) g left s ≡ closed file s')
      × Ready here [] s'

abbrev pub Carries : Addr → ℕ → ℕ → List ℕ → Sent → Type 0
Carries here g left file (finished chunks) =
    All (λ c. 0 < length c) chunks × (length chunks ≤ left) × Feeds here g left file chunks
Carries here g left file (exited code) = ⊥
Carries here g left file unfinished = ⊥

whole_chunk : (left : ℕ) (chunk : List ℕ) → length chunk ≤ left → at_most left chunk ≡ chunk
whole_chunk left chunk h = rw (not_more left (length chunk) h) (take-length chunk)
  where
    not_more : (left n : ℕ) → n ≤ left → ltb left n ≡ false
    not_more left n h = ground arith

request_small : (left : ℕ) → request left ≤ 1000
request_small left = ground arith

-- A round in which RECV returns bytes.
recv_loop_step :
    {S : Type 0} (recv : ℕ → S → Received S) (fuel left : ℕ) (s s' : S) (bytes : List ℕ)
    → recv (request (suc left)) s ≡ returned bytes s'
    → recv_loop recv (suc fuel) (suc left) s
      ≡ written_with
          (at_most (suc left) bytes)
          (recv_loop recv fuel (suc left - length (at_most (suc left) bytes)) s')
unfolding recv_loop
recv_loop_step recv fuel left s s' bytes e =
    ap
      (λ o. elim o [
        | waits ↦ blocked
        | failed s' ↦ closed [] s'
        | returned bytes s' ↦
            written_with (at_most (suc left) bytes)
              (recv_loop recv fuel (suc left - length (at_most (suc left) bytes)) s')
      ])
      e

after_Feeds :
    (here : Addr) (g left : ℕ) (chunk others file : List ℕ) (chunks : List (List ℕ))
    → request (suc left) ≡ length chunk
    → 0 < length chunk
    → length chunk ≤ suc left
    → chunk ++ others ≡ file
    → Feeds here g (suc left - length chunk) others chunks
    → Feeds here (suc g) (suc left) file (chunk ∷ chunks)
after_Feeds here g left chunk others file chunks size some_left fits e feeds s r =
    let next =
      Ready-Next here (request (suc left)) chunk chunks s r size (omega (size, some_left, arith))
        (request_small (suc left)) in
    let (s', loop, ready) = feeds next.after next.ready in
    (
      s',
      recv_loop_step (daemon_recv here) g left s next.after chunk next.returns
          ∙ ap
              (λ c.
                written_with c (recv_loop (daemon_recv here) g (suc left - length c) next.after))
              (whole_chunk (suc left) chunk fits)
          ∙ ap (written_with chunk) loop
          ∙ ap (λ f. closed f s') e,
      ready,
    )

after_Carries :
    (here : Addr) (g left : ℕ) (chunk others file : List ℕ) (s : Sent)
    → length chunk ≡ request (suc left)
    → 0 < length chunk
    → length chunk ≤ suc left
    → chunk ++ others ≡ file
    → Carries here g (suc left - length chunk) others s
    → Carries here (suc g) (suc left) file (after chunk s)
after_Carries here g left chunk others file (finished chunks) size some_left fits e h = (
  (some_left, h.0),
  omega (some_left, fits, h.1, arith),
  after_Feeds here g left chunk others file chunks (sym size) some_left fits e h.2,
)
after_Carries here g left chunk others file (exited code) size some_left fits e h = absurd h
after_Carries here g left chunk others file unfinished size some_left fits e h = absurd h

request_le : (left : ℕ) → request left ≤ left
request_le left = ground arith

request_pos : (left : ℕ) → 0 < request (suc left)
request_pos left = ground arith

chunk_size :
    (left : ℕ) (file : List ℕ)
    → left ≡ length file
    → length (take (request left) file) ≡ request left
chunk_size left file e = omega (arith, length-take (request left) file, request_le left)

module _ (sends : List ℕ → Bool) (all_sent : (l : List ℕ) → sends l ≡ true) (here : Addr) where
  pub send_loop-Carries :
      (f g left : ℕ) (file : List ℕ)
      → left ≡ length file
      → left ≤ f
      → left ≤ g
      → Carries here g left file (send_loop sends f left file)
  unfolding send_loop
  send_loop-Carries f g zero [] e hf hg = (tt, omega arith, λ s r. (s, unfold recv_loop in refl, r))
  send_loop-Carries f g zero (x ∷ file) e hf hg = absurd (omega arith)
  send_loop-Carries zero g (suc left) file e hf hg = absurd (omega arith)
  send_loop-Carries (suc f) zero (suc left) file e hf hg = absurd (omega arith)
  send_loop-Carries (suc f) (suc g) (suc left) file e hf hg =
      let n = request (suc left) in
      let chunk = take n file in
      let size = chunk_size (suc left) file e in
      let some_left : 0 < length chunk = omega (size, request_pos left, arith) in
      let fits : length chunk ≤ suc left = omega (size, request_le (suc left), arith) in
      rw
        (
          all_sent (read_now (suc left) file),
          read_now_lem (suc left) file e,
          drop_read (suc left) file e,
        )
        (after_Carries here g left chunk (drop n file) file _ size some_left fits
          (take-append-drop n file)
          (send_loop-Carries f g (suc left - length chunk) (drop n file)
            (omega (arith, size, e, length-drop n file)) (omega (some_left, hf, arith))
            (omega (some_left, hg, arith))))
