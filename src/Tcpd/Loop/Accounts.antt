-- ===== src/Tcpd/Loop/Accounts.antt =====
-- `InBufferPackages` over whole rounds of the loop.
use network_proj.Prelude.{
  ℕ, ◌+◌, refl, sym, ap, ◌∙◌, subst, Bool, ◌&&◌, List, [], ◌∷◌, Option, none, some, All,
  if◌then◌else◌,
}
use network_proj.Prelude.Int.{pos}
use network_proj.Net.{
  Addr, Outcome, done, OnDone, OnDone-if, OnDone-bind, OnDone-and, OnDone-map, ◌>>=◌,
}
use network_proj.Tcpd.Message.{Ack}
use network_proj.Tcpd.State.{BindedSocket, ConnectedSocket, Tcpd, Output}
use network_proj.Tcpd.Front.Frame.{
  Keeps, tcpd_socket-Keeps, tcpd_bind-Keeps, tcpd_accept-Keeps, tcpd_recv-Keeps,
}
use network_proj.Tcpd.Front.Books.{Accounts, tcpd_send-Ledger, connect_Accounts}
use network_proj.Tcpd.Receiver.{recv_data, solve_accept_callback, solve_recv_callback}
use network_proj.Tcpd.Receiver.Frame.{
  recv_data-Keeps, solve_accept_callback-Keeps, solve_recv_callback-Keeps,
}
use network_proj.Tcpd.Sender.{recv_ack, recv_timer, solve_send_callback}
use network_proj.Tcpd.Sender.Count.{outstanding, DistinctFds}
use network_proj.Tcpd.Sender.Ledger.{
  Ledger, recv_ack-Ledger, recv_timer-Ledger, solve_send_callback-Ledger,
}
use network_proj.Tcpd.Sender.Standing.{Stands, table-Stands, recv_ack-Stands}
use network_proj.Tcpd.Loop.{
  Call, socket, bind, accept, recv, connect, send, other, Inputs, initial, front_call, waiting,
  data_round, ack_round, solve_ready, callbacks, round, run,
}

kept_Accounts : (t : Tcpd) → Accounts t → (t' : Tcpd) → Keeps t t' → Accounts t'
kept_Accounts t (k, h) t' e =
    (k, (e.1 ∙ h.0 ∙ ap (λ l. pos (outstanding l + k)) (sym e.0), subst DistinctFds (sym e.0) h.1))

module _ (sends : Output → Bool) where
  front_call-Accounts :
      (c : Option (Addr × Call)) (t : Tcpd) → Accounts t → OnDone Accounts (front_call sends c t)
  unfolding front_call
  front_call-Accounts none t h = tt
  front_call-Accounts (some (from, socket fd)) t h =
      OnDone-map _ Accounts _ (kept_Accounts t h) (tcpd_socket-Keeps sends from t fd)
  front_call-Accounts (some (from, bind fd bound)) t h =
      OnDone-map _ Accounts _ (kept_Accounts t h) (tcpd_bind-Keeps sends from t fd bound)
  front_call-Accounts (some (from, accept fd)) t h =
      OnDone-map _ Accounts _ (kept_Accounts t h) (tcpd_accept-Keeps sends from t fd)
  front_call-Accounts (some (from, recv args)) t h =
      OnDone-map _ Accounts _ (kept_Accounts t h) (tcpd_recv-Keeps sends from t args)
  front_call-Accounts (some (from, connect args rand)) t h =
      connect_Accounts sends from args rand t h
  front_call-Accounts (some (from, send args buf fresh)) t (k, h) =
      OnDone-map _ Accounts _ (λ t' h'. (k, h')) (tcpd_send-Ledger sends from args buf fresh k t h)
  front_call-Accounts (some (from, other)) t h = h

module _ (i : Inputs) where
  module _ (isset : ℕ → Bool) where
    data_round-Accounts :
        (l : List BindedSocket) (t : Tcpd) → Accounts t → OnDone Accounts (data_round i isset l t)
    unfolding data_round
    data_round-Accounts [] t h = h
    data_round-Accounts (b ∷ l) t h =
        OnDone-bind Accounts Accounts (if isset b.socket_fd then received else done t)
          (data_round i isset l)
          (OnDone-if Accounts (isset b.socket_fd) received (done t)
            (OnDone-map _ Accounts _ (kept_Accounts t h)
              (recv_data-Keeps i.sends b.socket_fd (i.packages b.socket_fd) t))
            h)
          (data_round-Accounts l)
      where
        received : Outcome Tcpd
        received = recv_data i.sends b.socket_fd (i.packages b.socket_fd) t

    ack_round-Ledger :
        (l : List ConnectedSocket) (k : ℕ) (t : Tcpd)
        → DistinctFds l
        → All (Stands t.connected_sockets) l
        → Ledger k t
        → OnDone (Ledger k) (ack_round i isset l t)
    unfolding ack_round
    ack_round-Ledger [] k t d s h = h
    ack_round-Ledger (c ∷ l) k t d s h =
        OnDone-bind Good (Ledger k) (if isset c.socket_fd then acked else done t)
          (ack_round i isset l)
          (OnDone-if Good (isset c.socket_fd) acked (done t)
            (OnDone-and (Ledger k) (λ t'. All (Stands t'.connected_sockets) l) acked
              (recv_ack-Ledger i.sends c at.0 k at.1 t s.0 h)
              (recv_ack-Stands i.sends c at.0 at.1 t l d.0 s.1))
            (h, s.1))
          (λ t' g. ack_round-Ledger l k t' d.1 g.1 g.0)
      where
        at : ℕ × Option Ack
        at = i.acks c.socket_fd

        acked : Outcome Tcpd
        acked = recv_ack i.sends c at.0 at.1 t

        Good : Tcpd → Type 0
        Good t' = Ledger k t' × All (Stands t'.connected_sockets) l

    ack_round-Accounts :
        (t : Tcpd) → Accounts t → OnDone Accounts (ack_round i isset t.connected_sockets t)
    ack_round-Accounts t (k, h) =
        OnDone-map (Ledger k) Accounts _ (λ t' h'. (k, h'))
          (ack_round-Ledger t.connected_sockets k t h.1 (table-Stands t.connected_sockets h.1) h)

    timer_Accounts : (t : Tcpd) → Accounts t → OnDone Accounts (recv_timer i.expired t)
    timer_Accounts t (k, h) =
        OnDone-map (Ledger k) Accounts _ (λ t' h'. (k, h')) (recv_timer-Ledger k i.expired t h)

    solve_ready-Accounts :
        (sock timer_driver_socket : ℕ) (t : Tcpd)
        → Accounts t
        → OnDone Accounts (solve_ready sock timer_driver_socket i isset t)
    unfolding solve_ready
    solve_ready-Accounts sock timer_driver_socket t h =
        OnDone-bind Accounts Accounts (if isset sock then front_call i.sends i.front t else done t)
          (λ t1. data_round i isset t1.binded_sockets t1 >>= after_data)
          (OnDone-if Accounts (isset sock) (front_call i.sends i.front t) (done t)
            (front_call-Accounts i.sends i.front t h) h)
          (λ t1 h1.
            OnDone-bind Accounts Accounts (data_round i isset t1.binded_sockets t1) after_data
              (data_round-Accounts t1.binded_sockets t1 h1)
              (λ t2 h2.
                OnDone-bind Accounts Accounts (ack_round i isset t2.connected_sockets t2) after_acks
                  (ack_round-Accounts t2 h2)
                  (λ t3 h3.
                    OnDone-if Accounts (isset timer_driver_socket) (recv_timer i.expired t3)
                      (done t3) (timer_Accounts t3 h3) h3)))
      where
        after_acks : Tcpd → Outcome Tcpd
        after_acks t3 = if isset timer_driver_socket then recv_timer i.expired t3 else done t3

        after_data : Tcpd → Outcome Tcpd
        after_data t2 = ack_round i isset t2.connected_sockets t2 >>= after_acks

  callbacks-Accounts : (t : Tcpd) → Accounts t → OnDone Accounts (callbacks i t)
  unfolding callbacks
  callbacks-Accounts t h =
      OnDone-bind Accounts Accounts (solve_accept_callback i.sends t)
        (λ t1. solve_recv_callback i.sends t1 >>= solve_send_callback i.sends i.clock)
        (OnDone-map _ Accounts _ (kept_Accounts t h) (solve_accept_callback-Keeps i.sends t))
        (λ t1 h1.
          OnDone-bind Accounts Accounts (solve_recv_callback i.sends t1)
            (solve_send_callback i.sends i.clock)
            (OnDone-map _ Accounts _ (kept_Accounts t1 h1) (solve_recv_callback-Keeps i.sends t1))
            (λ t2 (k, h2).
              OnDone-map (Ledger k) Accounts _ (λ t' h'. (k, h'))
                (solve_send_callback-Ledger i.sends i.clock k t2 h2)))

module _ (sock timer_driver_socket : ℕ) where
  pub round-Accounts :
      (i : Inputs) (t : Tcpd) → Accounts t → OnDone Accounts (round sock timer_driver_socket i t)
  unfolding round
  round-Accounts i t h =
      OnDone-bind Accounts Accounts
        (if i.ready then solve_ready sock timer_driver_socket i isset t else done t) (callbacks i)
        (OnDone-if Accounts i.ready (solve_ready sock timer_driver_socket i isset t) (done t)
          (solve_ready-Accounts i isset sock timer_driver_socket t h) h)
        (callbacks-Accounts i)
    where
      isset : ℕ → Bool
      isset fd = waiting sock timer_driver_socket t fd && i.readable fd

  run-Accounts_from :
      (is : List Inputs) (t : Tcpd)
      → Accounts t
      → OnDone Accounts (run sock timer_driver_socket is t)
  unfolding run
  run-Accounts_from [] t h = h
  run-Accounts_from (i ∷ is) t h =
      OnDone-bind Accounts Accounts (round sock timer_driver_socket i t)
        (run sock timer_driver_socket is) (round-Accounts i t h) (run-Accounts_from is)

  -- After any number of rounds, whatever the front processes, the network and the timer process do,
  -- `InBufferPackages` is the number of packages that the connected sockets hold plus some `k` that
  -- is not negative, and no two sockets of the table have one descriptor.
  pub run-Accounts : (is : List Inputs) → OnDone Accounts (run sock timer_driver_socket is initial)
  run-Accounts is = run-Accounts_from is initial (0, (unfold outstanding in refl, tt))
