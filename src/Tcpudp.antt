-- ===== src/Tcpudp.antt =====
-- Proj1/tcpudp.c: the calls of a front process, each a row of datagrams to the daemon and an answer.
-- A datagram is its bytes. `read_call` is the other end, in Proj1/tcpd.c: what the loop and the
-- handlers make of these datagrams.
pub mod Protocol
mod Tests
use network_proj.Prelude.{
  ℕ, zero, suc, ◌+◌, ◌*◌, ◌-◌, ◌^◌, List, [], ◌∷◌, ◌++◌, Option, none, some, Bool, true, false,
  ◌&&◌, ◌==◌, if◌then◌else◌, length, take, drop, replicate,
}
use network_proj.Net.{Addr, Outcome, done, exit}
use network_proj.Ftp.{c_string}
use network_proj.Tcpd.Message.{Message, bytes}
use network_proj.Tcpd.Loop.{Call, socket, bind, accept, recv, connect, send, other}

-- `char tcpd_msg[TCPD_MSG_LEN]="..."`: the letters and zeros up to eight bytes.
unfoldable pub command : List ℕ → List ℕ
command name = take 8 (name ++ replicate 8 0)

abbrev pub socket_name : List ℕ
socket_name = 83 ∷ 79 ∷ 67 ∷ 75 ∷ 69 ∷ 84 ∷ []

abbrev pub bind_name : List ℕ
bind_name = 66 ∷ 73 ∷ 78 ∷ 68 ∷ []

abbrev pub accept_name : List ℕ
accept_name = 65 ∷ 67 ∷ 67 ∷ 69 ∷ 80 ∷ 84 ∷ []

abbrev pub recv_name : List ℕ
recv_name = 82 ∷ 69 ∷ 67 ∷ 86 ∷ []

abbrev pub connect_name : List ℕ
connect_name = 67 ∷ 79 ∷ 78 ∷ 78 ∷ 69 ∷ 67 ∷ 84 ∷ []

abbrev pub send_name : List ℕ
send_name = 83 ∷ 69 ∷ 78 ∷ 68 ∷ []

-- A `struct sockaddr_in` with its eight bytes of `sin_zero`.
unfoldable pub addr_bytes : Addr → List ℕ → List ℕ
addr_bytes a sin_zero = bytes 2 a.family ++ (bytes 2 a.port ++ (bytes 4 a.addr ++ sin_zero))

-- The datagrams of each call.
unfoldable pub socket_request : List (List ℕ)
socket_request = command socket_name ∷ []

unfoldable pub bind_request : ℕ → Addr → List ℕ → List (List ℕ)
bind_request sockfd addr sin_zero =
    command bind_name ∷ bytes 4 sockfd ∷ addr_bytes addr sin_zero ∷ []

unfoldable pub accept_request : ℕ → List (List ℕ)
accept_request sockfd = command accept_name ∷ bytes 4 sockfd ∷ []

unfoldable pub recv_request : ℕ → ℕ → List (List ℕ)
recv_request sockfd len = command recv_name ∷ bytes 4 sockfd ∷ bytes 8 len ∷ []

unfoldable pub connect_request : ℕ → Addr → List ℕ → List (List ℕ)
connect_request sockfd addr sin_zero =
    command connect_name ∷ bytes 4 sockfd ∷ addr_bytes addr sin_zero ∷ []

unfoldable pub send_request : ℕ → ℕ → List ℕ → List (List ℕ)
send_request sockfd len buffer =
    command send_name ∷ bytes 4 sockfd ∷ bytes 8 len ∷ take len buffer ∷ []

-- A number that is copied out of a buffer, lowest byte first.
unfoldable pub number : List ℕ → ℕ
number [] = 0
number (b ∷ bs) = b + 256 * number bs

-- `sends` says which calls of `sendto` succeed; `reply` is the datagram that comes back, `none`
-- where `recvfrom` fails.
module _ (sends : List ℕ → Bool) where
  pub post : List (List ℕ) → Outcome ℕ → Outcome ℕ
  post [] answer = answer
  post (d ∷ l) answer = let rest = post l answer in if sends d then rest else exit 4

  -- `bzero(buf, n); recvfrom(sock, buf, n, ...); bcopy(buf, (char *)&ret, n);`
  pub answer : ℕ → Option (List ℕ) → Outcome ℕ
  answer n none = exit 5
  answer n (some reply) = done (number (take n (take n reply ++ replicate n 0)))

  pub socket_call : Option (List ℕ) → Outcome ℕ
  socket_call reply = post socket_request (answer 4 reply)

  pub bind_call : ℕ → Addr → List ℕ → Option (List ℕ) → Outcome ℕ
  bind_call sockfd addr sin_zero reply = post (bind_request sockfd addr sin_zero) (answer 4 reply)

  pub accept_call : ℕ → Option (List ℕ) → Outcome ℕ
  accept_call sockfd reply = post (accept_request sockfd) (answer 4 reply)

  pub connect_call : ℕ → Addr → List ℕ → Option (List ℕ) → Outcome ℕ
  connect_call sockfd addr sin_zero reply =
      post (connect_request sockfd addr sin_zero) (answer 4 reply)

  pub send_call : ℕ → ℕ → List ℕ → Option (List ℕ) → Outcome ℕ
  send_call sockfd len buffer reply = post (send_request sockfd len buffer) (answer 8 reply)

  -- What `recvfrom` returns in RECV: the count of the bytes that it has put into the buffer, which
  -- RECV returns too; -1 (as a 64-bit pattern) where it fails.
  abbrev pub count : ℕ → Option (List ℕ) → ℕ
  count len none = 2 ^ 64 - 1
  count len (some reply) = length (take len reply)

  pub recv_call : ℕ → ℕ → Option (List ℕ) → Outcome ℕ
  recv_call sockfd len reply = post (recv_request sockfd len) (done (count len reply))

-- LISTEN and CLOSE do nothing.
pub listen_call : ℕ → ℕ → ℕ
listen_call sockfd backlog = 0

pub close_call : ℕ → ℕ
close_call fd = 0

-- `strcmp(a, b)==0` on two strings without their zeros.
unfoldable pub same_string : List ℕ → List ℕ → Bool
same_string [] [] = true
same_string [] (y ∷ ys) = false
same_string (x ∷ xs) [] = false
same_string (x ∷ xs) (y ∷ ys) = (x == y) && same_string xs ys

unfoldable pub read_addr : List ℕ → Addr
read_addr b = record {
  family = number (take 2 b);
  port = number (take 2 (drop 2 b));
  addr = number (take 4 (drop 4 b));
}

-- The arguments that a handler reads, one datagram each; a datagram that does not come is a
-- `recvfrom` that fails.
unfoldable pub one_argument : List (List ℕ) → Option ℕ
one_argument [] = none
one_argument (x ∷ l) = some (number x)

unfoldable pub two_arguments {ℓ} : {A : Type ℓ} → (List ℕ → A) → List (List ℕ) → Option (ℕ × A)
two_arguments read [] = none
two_arguments read (x ∷ []) = none
two_arguments read (x ∷ y ∷ l) = some (number x, read y)

unfoldable pub third_datagram : List (List ℕ) → Option (List ℕ)
third_datagram [] = none
third_datagram (x ∷ []) = none
third_datagram (x ∷ y ∷ []) = none
third_datagram (x ∷ y ∷ z ∷ l) = some z

-- The call that the daemon makes of the datagrams; `fd`, `bound`, `rand` and `fresh` are what its
-- system calls give.
module _ (fd : Option ℕ) (bound : Bool) (rand : ℕ) (fresh : Message) where
  pub dispatch : List ℕ → List (List ℕ) → Call
  dispatch name l =
      if same_string name socket_name
      then socket fd
      else if same_string name bind_name
      then bind (one_argument l) bound
      else if same_string name accept_name
      then accept (one_argument l)
      else if same_string name recv_name
      then recv (two_arguments number l)
      else if same_string name connect_name
      then connect (two_arguments read_addr l) rand
      else if same_string name send_name
      then send (two_arguments number l) (third_datagram l) fresh
      else other

  pub read_call : List (List ℕ) → Call
  read_call [] = other
  read_call (name ∷ l) = dispatch (c_string name) l
