-- ===== src/Tcpudp/Protocol.antt =====
-- The daemon reads what the library sends.
use native.Mathlib.Nat.{pow-suc}
use network_proj.Prelude.{
  ℕ, zero, suc, ◌/◌, ◌^◌, ◌<◌, ◌≡◌, refl, ap, ap₂, ◌∙◌, List, Option, some, Bool, arith, length,
  take, take-length,
}
use network_proj.Net.{Addr}
use network_proj.Ftp.{c_string}
use network_proj.Tcpd.Message.{Message, bytes}
use network_proj.Tcpd.Loop.{Call, socket, bind, accept, recv, connect, send}
use network_proj.Tcpudp.{
  command, addr_bytes, socket_request, bind_request, accept_request, recv_request, connect_request,
  send_request, number, read_addr, same_string, one_argument, two_arguments, third_datagram,
  dispatch, read_call,
}

pub number-bytes : (n x : ℕ) → x < 256 ^ n → number (bytes n x) ≡ x
unfolding number bytes
number-bytes zero x h = omega arith
number-bytes (suc n) x h =
    omega (arith, number-bytes n (x / 256) (omega (arith, pow-suc 256 n)), pow-suc 256 n)

-- A call of the library with arguments of the sizes of their types.
pub data Request : Type 0 where
  for_socket : Request
  for_bind for_connect : ℕ → Addr → List ℕ → Request
  for_accept : ℕ → Request
  for_recv : ℕ → ℕ → Request
  for_send : ℕ → List ℕ → Request

abbrev pub IsAddr : Addr → Type 0
IsAddr a = (a.family < 2 ^ 16) × (a.port < 2 ^ 16) × (a.addr < 2 ^ 32)

abbrev pub Fits : Request → Type 0
Fits for_socket = Unit {0}
Fits (for_bind sockfd addr sin_zero) = (sockfd < 2 ^ 32) × IsAddr addr
Fits (for_connect sockfd addr sin_zero) = (sockfd < 2 ^ 32) × IsAddr addr
Fits (for_accept sockfd) = sockfd < 2 ^ 32
Fits (for_recv sockfd len) = (sockfd < 2 ^ 32) × (len < 2 ^ 64)
Fits (for_send sockfd buffer) = (sockfd < 2 ^ 32) × (length buffer < 2 ^ 64)

abbrev pub datagrams : Request → List (List ℕ)
datagrams for_socket = socket_request
datagrams (for_bind sockfd addr sin_zero) = bind_request sockfd addr sin_zero
datagrams (for_connect sockfd addr sin_zero) = connect_request sockfd addr sin_zero
datagrams (for_accept sockfd) = accept_request sockfd
datagrams (for_recv sockfd len) = recv_request sockfd len
datagrams (for_send sockfd buffer) = send_request sockfd (length buffer) buffer

read_addr-addr_bytes :
    (a : Addr) (sin_zero : List ℕ) → IsAddr a → read_addr (addr_bytes a sin_zero) ≡ a
unfolding read_addr addr_bytes bytes
read_addr-addr_bytes a sin_zero h =
    ap (λ t. record { family = t; port = number (bytes 2 a.port); addr = number (bytes 4 a.addr) })
      (number-bytes 2 a.family h.0)
    ∙ ap (λ t. record { family = a.family; port = t; addr = number (bytes 4 a.addr) })
        (number-bytes 2 a.port h.1)
    ∙ ap (λ t. record { family = a.family; port = a.port; addr = t }) (number-bytes 4 a.addr h.2)

module _ (fd : Option ℕ) (bound : Bool) (rand : ℕ) (fresh : Message) where
  abbrev pub meant : Request → Call
  meant for_socket = socket fd
  meant (for_bind sockfd addr sin_zero) = bind (some sockfd) bound
  meant (for_connect sockfd addr sin_zero) = connect (some (sockfd, addr)) rand
  meant (for_accept sockfd) = accept (some sockfd)
  meant (for_recv sockfd len) = recv (some (sockfd, len))
  meant (for_send sockfd buffer) = send (some (sockfd, length buffer)) (some buffer) fresh

  -- What the daemon makes of the datagrams of a call is that call with its arguments, if they fit
  -- their types in C.
  pub read_call-datagrams :
      (r : Request) → Fits r → read_call fd bound rand fresh (datagrams r) ≡ meant r
  unfolding read_call dispatch c_string command same_string socket_request bind_request
      accept_request recv_request connect_request send_request one_argument two_arguments
      third_datagram
  read_call-datagrams for_socket h = refl
  read_call-datagrams (for_bind sockfd addr sin_zero) h =
      ap (λ n. bind (some n) bound) (number-bytes 4 sockfd h.0)
  read_call-datagrams (for_connect sockfd addr sin_zero) h =
      ap₂ (λ n a. connect (some (n, a)) rand) (number-bytes 4 sockfd h.0)
        (read_addr-addr_bytes addr sin_zero h.1)
  read_call-datagrams (for_accept sockfd) h = ap (λ n. accept (some n)) (number-bytes 4 sockfd h)
  read_call-datagrams (for_recv sockfd len) h =
      ap₂ (λ n k. recv (some (n, k))) (number-bytes 4 sockfd h.0) (number-bytes 8 len h.1)
  read_call-datagrams (for_send sockfd buffer) h =
      ap₂ (λ n k. send (some (n, k)) (some (take (length buffer) buffer)) fresh)
        (number-bytes 4 sockfd h.0) (number-bytes 8 (length buffer) h.1)
      ∙ ap (λ b. send (some (sockfd, length buffer)) (some b) fresh) (take-length buffer)
