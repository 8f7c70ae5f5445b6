-- ===== src/Lab3.antt =====
-- Lab3/tcpd.c, as it is built (Lab3/tcpudp.h defines __WITH_TROLL): the first daemon, which wraps
-- each buffer in a datagram and keeps no state but its global `buf`. A datagram is its bytes; the
-- answer goes to the process that has sent the arguments. `stack` is what the memory of the local
-- struct held before.
pub mod Memory
pub mod Unwrap
pub mod Loop
pub mod Answer
pub mod Carry
mod Tests
use network_proj.Prelude.{
  ℕ, ◌+◌, ◌-◌, ◌%◌, ◌^◌, List, [], ◌∷◌, ◌++◌, Option, none, some, Bool, true, false, if◌then◌else◌,
  ltb, length, take, drop, replicate,
}
use network_proj.Net.{Outcome, done, exit, ◌>>=◌}
use network_proj.Tcpd.Message.{bytes}
use network_proj.Tcpudp.{number}

abbrev pub buf_len : ℕ
buf_len = 1000

-- What a handler answers, what it sends to the troll, and `buf`.
pub record Served : Type 0 where
  pub answer : List ℕ
  pub to_troll : List (List ℕ)
  pub buf : List ℕ

-- A copy to the start of a block of memory.
unfoldable pub overwrite : List ℕ → List ℕ → List ℕ
overwrite bs memory = bs ++ drop (length bs) memory

-- `recvfrom(sock, buf, n, ...)`: the bytes of the datagram behind the first `n` are lost. `none`:
-- the call fails.
unfoldable pub receive : ℕ → Option (List ℕ) → List ℕ → Outcome (List ℕ)
receive n none buf = exit 4
receive n (some d) buf = done (overwrite (take n d) buf)

-- `bzero(buf, n)`, `recvfrom` and `bcopy` of an argument: its bytes, and `buf`.
unfoldable pub read_argument : ℕ → Option (List ℕ) → List ℕ → Outcome (List ℕ × List ℕ)
read_argument n d buf =
    receive n d (overwrite (replicate n 0) buf) >>= (λ filled. done (take n filled, filled))

-- A `struct troll_message_t` with this header and body.
unfoldable pub wrap : List ℕ → List ℕ → List ℕ → List ℕ
wrap peer content stack = overwrite (0 ∷ 2 ∷ []) peer ++ overwrite content (drop 16 stack)

-- `ret_recv-sizeof(struct sockaddr_in)`, as a 64-bit pattern.
abbrev pub body_size : ℕ → ℕ
body_size got = (got + 2 ^ 64 - 16) % 2 ^ 64

-- `if(len>ret_recv)`, which compares patterns since `len` is unsigned.
abbrev pub capped : ℕ → ℕ → ℕ
capped len ret_recv = if ltb ret_recv len then ret_recv else len

-- `sends` says which answers reach the front process.
module _ (sends : List ℕ → Bool) where
  unfoldable pub reply : Served → Outcome Served
  reply s = if sends s.answer then done s else exit 4

  unfoldable pub tcpd_socket : Option ℕ → List ℕ → Outcome Served
  tcpd_socket none buf = exit 2
  tcpd_socket (some ret_sock) buf =
      reply (record { answer = bytes 4 ret_sock; to_troll = []; buf = buf })

  -- The end of tcpd_BIND and tcpd_CONNECT, where the call returns 0 if it succeeds.
  unfoldable pub name_result : Bool → List ℕ → Outcome Served
  name_result true buf = reply (record { answer = bytes 4 0; to_troll = []; buf = buf })
  name_result false buf = exit 2

  -- `binds` says whether `bind` succeeds.
  unfoldable pub tcpd_bind :
      (ℕ → List ℕ → Bool) → Option (List ℕ) → Option (List ℕ) → List ℕ → Outcome Served
  tcpd_bind binds sockfd addr buf = do
    (sockfd, buf) ← read_argument 4 sockfd buf
    (addr, buf) ← read_argument 16 addr buf
    name_result (binds (number sockfd) addr) buf

  unfoldable pub tcpd_connect :
      (ℕ → List ℕ → Bool) → Option (List ℕ) → Option (List ℕ) → List ℕ → Outcome Served
  tcpd_connect connects sockfd addr buf = do
    (sockfd, buf) ← read_argument 4 sockfd buf
    (addr, buf) ← read_argument 16 addr buf
    name_result (connects (number sockfd) addr) buf

  unfoldable pub if_fits : ℕ → Outcome Served → Outcome Served
  if_fits len served = if ltb buf_len len then exit 5 else served

  -- The wrapped that comes from the troll.
  unfoldable pub unwrap : ℕ → List ℕ → Option (List ℕ) → List ℕ → Outcome Served
  unwrap len stack none buf = exit 5
  unwrap len stack (some d) buf =
      let got = take (16 + buf_len) d in
      let size = capped len (body_size (length got)) in
      let body = take size (drop 16 (overwrite got stack)) in
      reply (record { answer = body; to_troll = []; buf = overwrite body buf })

  -- `arrives` gives the datagram that is read from a socket.
  unfoldable pub tcpd_recv :
      (ℕ → Option (List ℕ)) → List ℕ → Option (List ℕ) → Option (List ℕ) → List ℕ → Outcome Served
  tcpd_recv arrives stack sockfd len buf = do
    (sockfd, buf) ← read_argument 4 sockfd buf
    (len, buf) ← read_argument 8 len buf
    if_fits (number len) (unwrap (number len) stack (arrives (number sockfd)) buf)

  -- `sendto` returns the size of the wrapped, of which the answer is the lower half.
  unfoldable pub send_result : Bool → List ℕ → List ℕ → Outcome Served
  send_result true wrapped buf =
      reply (record { answer = bytes 4 (16 + buf_len); to_troll = wrapped ∷ []; buf = buf })
  send_result false wrapped buf = exit 5

  -- `posts` says which packages can be sent to the troll.
  unfoldable pub to_peer :
      (List ℕ → Bool) → ℕ → List ℕ → Option (List ℕ) → Option (List ℕ) → List ℕ → Outcome Served
  to_peer posts len stack none content buf = exit 5
  to_peer posts len stack (some peer) content buf = do
    buf ← receive len content buf
    send_result (posts (wrap peer (take len buf) stack)) (wrap peer (take len buf) stack) buf

  -- `peer_of` is `getpeername`.
  unfoldable pub tcpd_send :
      (List ℕ → Bool)
      → (ℕ → Option (List ℕ))
      → List ℕ
      → Option (List ℕ)
      → Option (List ℕ)
      → Option (List ℕ)
      → List ℕ
      → Outcome Served
  tcpd_send posts peer_of stack sockfd len content buf = do
    (sockfd, buf) ← read_argument 4 sockfd buf
    (len, buf) ← read_argument 8 len buf
    if_fits (number len) (to_peer posts (number len) stack (peer_of (number sockfd)) content buf)
