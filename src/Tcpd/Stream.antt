-- ===== src/Tcpd/Stream.antt =====
-- What a connection promises to the process that receives from it, over the whole loop of
-- Proj1/tcpd.c: session `k`, and `reader`, which tells the addresses of the processes that receive from this session.
use network_proj.Prelude.{
  ℕ, zero, suc, ◌+◌, ◌≤◌, ◌<◌, ◌≡◌, ◌≢◌, ◌⊎◌, List, [], ◌∷◌, ◌++◌, Bool, All, length, ◌==◌,
  if◌then◌else◌,
}
use network_proj.Net.{Addr}
use network_proj.Tcpd.Message.{Message}
use network_proj.Tcpd.State.{
  AcceptedSocket, Tcpd, Output, reply, reply_bytes, send_message, send_ack, start_timer,
  cancel_timer,
}
use network_proj.Tcpd.Receiver.{new_accepted, store_package, fill_buffer}
pub mod Table
pub mod Quiet

-- The bytes of the first packages.
abbrev pub stream : (ℕ → List ℕ) → ℕ → List ℕ
stream source zero = []
stream source (suc n) = stream source n ++ source n

-- The bytes that have been sent to the readers, in order; the last output comes first.
unfoldable pub delivered : (Addr → Bool) → List Output → List ℕ
delivered reader [] = []
delivered reader (reply_bytes a bytes ∷ l) =
    if reader a then delivered reader l ++ bytes else delivered reader l
delivered reader (reply a x ∷ l) = delivered reader l
delivered reader (send_message fd m ∷ l) = delivered reader l
delivered reader (send_ack fd a ∷ l) = delivered reader l
delivered reader (start_timer session seq rto ∷ l) = delivered reader l
delivered reader (cancel_timer session seq ∷ l) = delivered reader l

-- What is said of a socket of the session when its readers have been sent `bytes` (`S`), given what
-- is said of each package that arrives (`C`) and of each request when it is made (`W`).
pub record Promise (S : List ℕ → AcceptedSocket → Type 0) (C : Message → Type 0)
    (W : List ℕ → ℕ → Type 0) : Type 0 where
  pub fresh : (fd session : ℕ) → S [] (new_accepted fd session)
  pub stored :
      (d : List ℕ) (m : Message) (s : AcceptedSocket) → C m → S d s → S d (store_package m s)
  pub filled : (d : List ℕ) (s : AcceptedSocket) → S d s → S d (fill_buffer s)
  pub answered :
      (d : List ℕ) (s : AcceptedSocket)
      → length s.recv_buffer ≡ s.receiving_length
      → S d s
      → S (d ++ s.recv_buffer) (record s { recv_buffer = []; receiving_length = 0 })
  pub asking :
      (d : List ℕ) (s : AcceptedSocket) (from : Addr) (len : ℕ)
      → W d len
      → s.receiving_length ≡ 0
      → S d s
      → S d (record s { receiving_length = len; receiving_addr = from })

-- No socket of the table has the session; one socket has it, and the predicate holds of that.
abbrev pub Absent : ℕ → List AcceptedSocket → Type 0
Absent k l = All (λ s. s.session ≢ k) l

abbrev pub One : ℕ → (AcceptedSocket → Type 0) → List AcceptedSocket → Type 0
One k P [] = ⊥
One k P (s ∷ l) = ((s.session ≡ k) × P s × Absent k l) ⊎ ((s.session ≢ k) × One k P l)

-- A request that stands comes from a reader exactly at a socket of the session.
abbrev pub Asks : (Addr → Bool) → ℕ → AcceptedSocket → Type 0
Asks reader k s = (s.receiving_length ≡ 0) ⊎ (reader s.receiving_addr ≡ (s.session == k))

abbrev pub Idle : AcceptedSocket → Type 0
Idle s = s.receiving_length ≡ 0

-- The session is not accepted yet, and nothing has been delivered; or it has one socket.
abbrev pub Phase :
    (k : ℕ) (S : List ℕ → AcceptedSocket → Type 0)
    → List ℕ
    → (accepted waiting : List AcceptedSocket) → Type 0
Phase k S bytes accepted waiting =
    (Absent k accepted × (bytes ≡ []) × (Absent k waiting ⊎ One k (S []) waiting))
    ⊎ (One k (S bytes) accepted × Absent k waiting)

pub record Flow (reader : Addr → Bool) (k : ℕ) (S : List ℕ → AcceptedSocket → Type 0) (t : Tcpd)
    : Type 0 where
  pub asks : All (Asks reader k) t.accepted_sockets
  pub idle : All Idle t.waiting_accept_sockets
  pub phase : Phase k S (delivered reader t.sent) t.accepted_sockets t.waiting_accept_sockets
