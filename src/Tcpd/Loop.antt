-- ===== src/Tcpd/Loop.antt =====
-- Proj1/tcpd.c, the loop of `main`. What one round meets from outside is a record: what `select`
-- returns, what each `recvfrom` reads (`none` where it fails), and the results of the system calls.
pub mod Invariant
pub mod Fair
pub mod Accounts
pub mod Bound
pub mod Stream
pub mod Written
pub mod Stall
use network_proj.Prelude.{
  ℕ, List, [], ◌∷◌, Option, none, some, Bool, true, false, ◌&&◌, ◌||◌, ◌==◌, ltb, if◌then◌else◌,
}
use network_proj.Prelude.Int.{pos, ltb_ℤ}
use network_proj.Net.{Addr, Outcome, done, exit, ◌>>=◌}
use network_proj.Timer.Request.{TimerExpired}
use network_proj.Tcpd.Message.{Message, Ack, max_buffer_packages}
use network_proj.Tcpd.Rto.{initial_estimator}
use network_proj.Tcpd.State.{BindedSocket, ConnectedSocket, Tcpd, Output}
use network_proj.Tcpd.Front.{
  tcpd_socket, tcpd_bind, tcpd_accept, tcpd_recv, tcpd_connect, tcpd_send,
}
use network_proj.Tcpd.Receiver.{recv_data, solve_accept_callback, solve_recv_callback}
use network_proj.Tcpd.Sender.{recv_ack, recv_timer, solve_send_callback}

-- The function that a front process calls, with what the handler reads; `other` is any other name.
pub data Call : Type 0 where
  socket : Option ℕ → Call
  bind : Option ℕ → Bool → Call
  accept : Option ℕ → Call
  recv : Option (ℕ × ℕ) → Call
  connect : Option (ℕ × Addr) → ℕ → Call
  send : Option (ℕ × ℕ) → Option (List ℕ) → Message → Call
  other : Call

-- One round: whether `select` returns more than 0, which descriptors have data, and the data.
-- `acks` also says when an acknowledgement was received.
pub record Inputs : Type 0 where
  pub ready : Bool
  pub readable : ℕ → Bool
  pub front : Option (Addr × Call)
  pub packages : ℕ → Option (Message × Addr)
  pub acks : ℕ → ℕ × Option Ack
  pub expired : Option TimerExpired
  pub sends : Output → Bool
  pub clock : List Output → ℕ

-- The state before the loop.
abbrev pub initial : Tcpd
initial = record {
  binded_sockets = [];
  accepted_sockets = [];
  waiting_accept_sockets = [];
  connected_sockets = [];
  in_buffer_packages = pos 0;
  estimator = initial_estimator;
  sent = [];
}

unfoldable pub binds : ℕ → List BindedSocket → Bool
binds fd [] = false
binds fd (b ∷ l) = (b.socket_fd == fd) || binds fd l

unfoldable pub connects : ℕ → List ConnectedSocket → Bool
connects fd [] = false
connects fd (c ∷ l) = (c.socket_fd == fd) || connects fd l

-- `if(strcmp(tcpd_msg,"SOCKET")==0) ... else if ...`
unfoldable pub front_call : (Output → Bool) → Option (Addr × Call) → Tcpd → Outcome Tcpd
front_call sends none t = exit 4
front_call sends (some (from, socket fd)) t = tcpd_socket sends from fd t
front_call sends (some (from, bind fd bound)) t = tcpd_bind sends from fd bound t
front_call sends (some (from, accept fd)) t = tcpd_accept sends from fd t
front_call sends (some (from, recv args)) t = tcpd_recv sends from args t
front_call sends (some (from, connect args rand)) t = tcpd_connect sends from args rand t
front_call sends (some (from, send args buf fresh)) t = tcpd_send sends from args buf fresh t
front_call sends (some (from, other)) t = done t

-- `isset fd` is FD_ISSET after `select`.
module _ (i : Inputs) (isset : ℕ → Bool) where
  unfoldable pub data_round : List BindedSocket → Tcpd → Outcome Tcpd
  data_round [] t = done t
  data_round (b ∷ l) t =
      (if isset b.socket_fd
        then recv_data i.sends b.socket_fd (i.packages b.socket_fd) t
        else done t)
      >>= data_round l

  unfoldable pub ack_round : List ConnectedSocket → Tcpd → Outcome Tcpd
  ack_round [] t = done t
  ack_round (c ∷ l) t =
      (if isset c.socket_fd
        then recv_ack i.sends c (i.acks c.socket_fd).0 (i.acks c.socket_fd).1 t
        else done t)
      >>= ack_round l

-- The three calls at the end of a round.
unfoldable pub callbacks : Inputs → Tcpd → Outcome Tcpd
callbacks i t = do
  t1 ← solve_accept_callback i.sends t
  t2 ← solve_recv_callback i.sends t1
  solve_send_callback i.sends i.clock t2

-- `sock` and `TimerDriverSocket` are the descriptors of `main`.
module _ (sock timer_driver_socket : ℕ) where
  -- The members of `WaitingSocketSet` before `select`.
  unfoldable pub waiting : Tcpd → ℕ → Bool
  unfolding binds connects
  waiting t fd =
      (fd == timer_driver_socket)
      || (ltb_ℤ t.in_buffer_packages (pos max_buffer_packages) && (fd == sock))
      || binds fd t.binded_sockets
      || connects fd t.connected_sockets

  -- The body of `if(ready>0)`.
  unfoldable pub solve_ready : Inputs → (ℕ → Bool) → Tcpd → Outcome Tcpd
  solve_ready i isset t = do
    t1 ← if isset sock then front_call i.sends i.front t else done t
    t2 ← data_round i isset t1.binded_sockets t1
    t3 ← ack_round i isset t2.connected_sockets t2
    if isset timer_driver_socket then recv_timer i.expired t3 else done t3

  -- One round of `while(1)`.
  unfoldable pub round : Inputs → Tcpd → Outcome Tcpd
  round i t =
      (if i.ready then solve_ready i (λ fd. waiting t fd && i.readable fd) t else done t)
      >>= callbacks i

  -- As many rounds as there are inputs.
  unfoldable pub run : List Inputs → Tcpd → Outcome Tcpd
  run [] t = done t
  run (i ∷ is) t = round i t >>= run is
