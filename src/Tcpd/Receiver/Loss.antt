-- ===== src/Tcpd/Receiver/Loss.antt =====
-- Where `SolveRecvCallback` loses bytes: a package that is longer than the room in the buffer. Its
-- first bytes are copied to the end of the buffer, but `RecvBufferSize` does not grow, so the next
-- round of the loop writes over them.
use network_proj.Prelude.{
  ℕ, zero, suc, ◌*◌, drop-drop, ◌+◌, ◌-◌, ◌^◌, ◌≤◌, ◌<◌, ◌≡◌, refl, sym, ap, ◌∙◌, subst, Bool, List,
  ◌∷◌, ◌++◌, arith, length, take, drop, length-append, length-take, length-drop, take_append_left,
  drop-take,
}
use network_proj.Tcpd.Message.{Message, buf_len}
use network_proj.Tcpd.State.{AcceptedSocket, Output}
use network_proj.Tcpd.Receiver.{fill, fill_buffer, total_len, cut, shorten, room, recv_callback}
use network_proj.Tcpd.Receiver.Fill.{payload, payloads, InOrder, length-payload, fill_fuel}
use network_proj.Tcpd.Receiver.Deliver.{Answered, recv_callback_delivers}

-- What is left of a package after the copy: all but its first bytes.
pub payload-shorten :
    (r : ℕ) (m : Message)
    → r ≤ m.len
    → m.len ≤ length m.body
    → payload (shorten r m) ≡ drop r (payload m)
payload-shorten r m h sized =
    take_append_left (m.len - r) (take (m.len - r) (drop r m.body)) (drop (m.len - r) m.body) kept
    ∙ sym (drop-take r (m.len - r) m.body)
    ∙ ap (λ n. drop r (take n m.body)) whole
  where
    kept : m.len - r ≡ length (take (m.len - r) (drop r m.body))
    kept = omega (arith, length-take (m.len - r) (drop r m.body), length-drop r m.body)

    whole : r + (m.len - r) ≡ m.len
    whole = omega arith

fill-cut :
    (f : ℕ) (m : Message) (rest : List Message) (s : AcceptedSocket)
    → length s.recv_buffer < s.receiving_length
    → m.seq_num ≡ s.base
    → s.receiving_length < length s.recv_buffer + m.len
    → fill (suc f) (m ∷ rest) s ≡ fill f (shorten (room s) m ∷ rest) (cut m rest s)
unfolding fill
fill-cut f m rest s open_ due over = ground arith

fill_buffer-cut :
    (m : Message) (rest : List Message) (s : AcceptedSocket)
    → s.packages ≡ m ∷ rest
    → length s.recv_buffer < s.receiving_length
    → m.seq_num ≡ s.base
    → s.receiving_length < length s.recv_buffer + m.len
    → fill_buffer s ≡ fill_buffer (cut m rest s)
unfolding fill_buffer total_len
fill_buffer-cut m rest s e open_ due over = simp e (
    fill_fuel (total_len (m ∷ rest) + 1) (suc (total_len (m ∷ rest))) (m ∷ rest) s (omega arith)
      (omega arith)
    ∙ fill-cut (total_len (m ∷ rest)) m rest s open_ due over
    ∙ fill_fuel (total_len (m ∷ rest)) (total_len (shorten (room s) m ∷ rest) + 1)
        (shorten (room s) m ∷ rest) (cut m rest s) (omega arith) (omega arith))

recv_callback-cut :
    (sends : Output → Bool) (sent : List Output) (m : Message) (rest : List Message)
    (s : AcceptedSocket)
    → 0 < s.receiving_length
    → fill_buffer s ≡ fill_buffer (cut m rest s)
    → recv_callback sends s sent ≡ recv_callback sends (cut m rest s) sent
unfolding recv_callback
recv_callback-cut sends sent m rest s pos e = ground arith

-- A package after some such rounds.
abbrev shortened : ℕ → ℕ → Message → Message
shortened zero r m = m
shortened (suc q) r m = shortened q r (shorten r m)

shorten_sized :
    (r : ℕ) (m : Message)
    → m.len ≤ length m.body
    → r ≤ m.len
    → (shorten r m).len ≤ length (shorten r m).body
shorten_sized r m sized h = omega (
  arith,
  length-append (take (m.len - r) (drop r m.body)) (drop (m.len - r) m.body),
  length-take (m.len - r) (drop r m.body),
  length-drop r m.body,
  length-drop (m.len - r) m.body,
)

-- What is left of a package of `q` times `a` bytes and `r` more.
abbrev Left : ℕ → ℕ → ℕ → Message → Message → Type 0
Left q a r m m' =
    (m'.seq_num ≡ m.seq_num)
    × (m'.len ≡ r)
    × (m'.len ≤ length m'.body)
    × (payload m' ≡ drop (q * a) (payload m))

shortened-Left :
    (q a r : ℕ) (m : Message)
    → m.len ≤ length m.body
    → m.len ≡ q * a + r
    → Left q a r m (shortened q a m)
shortened-Left zero a r m sized e =
    let none_cut : 0 * a ≡ 0 = omega arith in
    let all : m.len ≡ r = omega (e, arith) in
    (refl, all, sized, ap (λ n. drop n (payload m)) (sym none_cut))
shortened-Left (suc q) a r m sized e =
    let more : suc q * a ≡ a + q * a = omega arith in
    let here : a ≤ m.len = omega (e, more, arith) in
    let left : m.len - a ≡ q * a + r = omega (e, more, arith) in
    let (seq, len, fits, bytes) =
      shortened-Left q a r (shorten a m) (shorten_sized a m sized here) left in
    (
      seq,
      len,
      fits,
      bytes
          ∙ ap (drop (q * a)) (payload-shorten a m here sized)
          ∙ drop-drop a (q * a) (payload m)
          ∙ ap (λ n. drop n (payload m)) (sym more),
    )

-- Every such round only makes the package shorter.
recv_callback-shortened :
    (sends : Output → Bool) (sent : List Output) (q r : ℕ) (m : Message) (rest : List Message)
    (s : AcceptedSocket)
    → s.packages ≡ m ∷ rest
    → length s.recv_buffer < s.receiving_length
    → m.seq_num ≡ s.base
    → m.len ≡ q * room s + r
    → 0 < r
    → recv_callback sends s sent
      ≡ recv_callback sends (record s { packages = shortened q (room s) m ∷ rest }) sent
recv_callback-shortened sends sent zero r m rest s e open_ due len some_left =
    ap (λ p. recv_callback sends (record s { packages = p }) sent) e
recv_callback-shortened sends sent (suc q) r m rest s e open_ due len some_left =
    let more : suc q * room s ≡ room s + q * room s = omega arith in
    let over : s.receiving_length < length s.recv_buffer + m.len =
      omega (len, more, some_left, open_, arith) in
    recv_callback-cut sends sent m rest s (omega (open_, arith))
      (fill_buffer-cut m rest s e open_ due over)
    ∙ recv_callback-shortened sends sent q r (shorten (room s) m) rest (cut m rest s) refl open_ due
        (omega (len, more, arith)) some_left

-- A process that asks for fewer bytes than its buffer and the next package hold loses the first of
-- the package: of one that is longer than the room in the buffer, with `q` times this room and
-- between one byte and the room more, the first `q` times the room are never sent. When the last
-- bytes of the package and the next packages make up what was asked for, at most BUF_LEN, the
-- process is sent what its buffer held, these last bytes and the next packages, and all these
-- packages are gone. The packages have numbers from `Base` on without a gap, below 2 ^ 32, and are
-- not empty.
pub recv_callback_loses :
    (sends : Output → Bool) (sent : List Output) (q r : ℕ) (m : Message) (more rest : List Message)
    (s : AcceptedSocket)
    → s.packages ≡ m ∷ (more ++ rest)
    → InOrder s.base (m ∷ more)
    → s.base + length (m ∷ more) < 2 ^ 32
    → length s.recv_buffer < s.receiving_length
    → s.receiving_length ≤ buf_len
    → m.len ≡ q * room s + r
    → 0 < r
    → s.receiving_length ≡ length s.recv_buffer + (r + length (payloads more))
    → Answered s.receiving_addr
        (s.recv_buffer ++ (drop (q * room s) (payload m) ++ payloads more))
        (s.base + length (m ∷ more))
        rest
        sends
        sent
        (recv_callback sends s sent)
recv_callback_loses sends sent q r m more rest s e (due, pos, sized, order) h open_ small len
      some_left full =
    let (seq, left, fits, bytes) = shortened-Left q (room s) r m sized len in
    let m' = shortened q (room s) m in
    let size = length-payload m' fits in
    let whole = length-append (payload m') (payloads more) in
    rw (recv_callback-shortened sends sent q r m (more ++ rest) s e open_ due len some_left) (
      subst
        (λ b.
          Answered s.receiving_addr (s.recv_buffer ++ (b ++ payloads more))
            (s.base + length (m ∷ more)) rest sends sent
            (recv_callback sends (record s { packages = m' ∷ (more ++ rest) }) sent))
        bytes
        (recv_callback_delivers sends sent (m' ∷ more) rest
          (record s { packages = m' ∷ (more ++ rest) }) refl
          (seq ∙ due, omega (left, some_left, arith), fits, order) h (omega (open_, arith)) small
          (omega (full, left, size, whole, arith))))
