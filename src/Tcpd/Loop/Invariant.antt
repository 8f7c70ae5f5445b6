-- ===== src/Tcpd/Loop/Invariant.antt =====
-- The rule for invariants of the loop: what every handler keeps is kept by a round.
use network_proj.Prelude.{
  ℕ, ◌≡◌, refl, Bool, true, false, ◌&&◌, if◌then◌else◌, if_cases, List, [], ◌∷◌, All,
}
use network_proj.Net.{Outcome, done, OnDone, OnDone-bind, ◌>>=◌}
use network_proj.Tcpd.State.{BindedSocket, ConnectedSocket, Tcpd}
use network_proj.Tcpd.Receiver.{recv_data, solve_accept_callback, solve_recv_callback}
use network_proj.Tcpd.Sender.{recv_ack, recv_timer, solve_send_callback}
use network_proj.Tcpd.Loop.{
  Inputs, front_call, waiting, data_round, ack_round, solve_ready, callbacks, round,
}

-- `Held` is what the invariant says of each connected socket: the loop over these reads the structs
-- of the table as they were before it.
pub record Kept (i : Inputs) (Inv : Tcpd → Type 0) (Held : ConnectedSocket → Type 0) : Type 0 where
  pub held : (t : Tcpd) → Inv t → All Held t.connected_sockets
  pub data_kept : (fd : ℕ) (t : Tcpd) → Inv t → OnDone Inv (recv_data i.sends fd (i.packages fd) t)
  pub ack_kept :
      (c : ConnectedSocket) (t : Tcpd)
      → Held c
      → Inv t
      → OnDone Inv (recv_ack i.sends c (i.acks c.socket_fd).0 (i.acks c.socket_fd).1 t)
  pub timer_kept : (t : Tcpd) → Inv t → OnDone Inv (recv_timer i.expired t)
  pub accept_kept : (t : Tcpd) → Inv t → OnDone Inv (solve_accept_callback i.sends t)
  pub recv_kept : (t : Tcpd) → Inv t → OnDone Inv (solve_recv_callback i.sends t)
  pub send_kept : (t : Tcpd) → Inv t → OnDone Inv (solve_send_callback i.sends i.clock t)

module _ (i : Inputs) (Inv : Tcpd → Type 0) (Held : ConnectedSocket → Type 0)
    (kept : Kept i Inv Held) where
  open kept use {held, data_kept, ack_kept, timer_kept, accept_kept, recv_kept, send_kept}

  module _ (isset : ℕ → Bool) where
    data_round_keeps :
        (l : List BindedSocket) (t : Tcpd) → Inv t → OnDone Inv (data_round i isset l t)
    unfolding data_round
    data_round_keeps [] t h = h
    data_round_keeps (b ∷ l) t h =
        OnDone-bind Inv Inv _ (data_round i isset l)
          (if_cases (OnDone Inv) (isset b.socket_fd)
            (recv_data i.sends b.socket_fd (i.packages b.socket_fd) t) (done t)
            (λ ready. data_kept b.socket_fd t h) (λ idle. h))
          (data_round_keeps l)

    ack_round_keeps :
        (l : List ConnectedSocket) (t : Tcpd)
        → All Held l
        → Inv t
        → OnDone Inv (ack_round i isset l t)
    unfolding ack_round
    ack_round_keeps [] t s h = h
    ack_round_keeps (c ∷ l) t s h =
        OnDone-bind Inv Inv _ (ack_round i isset l)
          (if_cases (OnDone Inv) (isset c.socket_fd)
            (recv_ack i.sends c (i.acks c.socket_fd).0 (i.acks c.socket_fd).1 t) (done t)
            (λ ready. ack_kept c t s.0 h) (λ idle. h))
          (λ t'. ack_round_keeps l t' s.1)

    solve_ready_keeps :
        (sock timer_driver_socket : ℕ) (t : Tcpd)
        → (isset sock ≡ true → OnDone Inv (front_call i.sends i.front t))
        → (isset sock ≡ false → Inv t)
        → OnDone Inv (solve_ready sock timer_driver_socket i isset t)
    unfolding solve_ready
    solve_ready_keeps sock timer_driver_socket t called skipped =
        OnDone-bind Inv Inv _ (λ t1. data_round i isset t1.binded_sockets t1 >>= after_data)
          (if_cases (OnDone Inv) (isset sock) (front_call i.sends i.front t) (done t) called
            skipped)
          (λ t1 h1.
            OnDone-bind Inv Inv (data_round i isset t1.binded_sockets t1) after_data
              (data_round_keeps t1.binded_sockets t1 h1)
              (λ t2 h2.
                OnDone-bind Inv Inv (ack_round i isset t2.connected_sockets t2) after_acks
                  (ack_round_keeps t2.connected_sockets t2 (held t2 h2) h2)
                  (λ t3 h3.
                    if_cases (OnDone Inv) (isset timer_driver_socket) (recv_timer i.expired t3)
                      (done t3) (λ ready. timer_kept t3 h3) (λ idle. h3))))
      where
        after_acks : Tcpd → Outcome Tcpd
        after_acks t3 = if isset timer_driver_socket then recv_timer i.expired t3 else done t3

        after_data : Tcpd → Outcome Tcpd
        after_data t2 = ack_round i isset t2.connected_sockets t2 >>= after_acks

  callbacks_keep : (t : Tcpd) → Inv t → OnDone Inv (callbacks i t)
  unfolding callbacks
  callbacks_keep t h =
      OnDone-bind Inv Inv (solve_accept_callback i.sends t)
        (λ t1. solve_recv_callback i.sends t1 >>= solve_send_callback i.sends i.clock)
        (accept_kept t h)
        (λ t1 h1.
          OnDone-bind Inv Inv (solve_recv_callback i.sends t1) (solve_send_callback i.sends i.clock)
            (recv_kept t1 h1) send_kept)

  -- The call of a front process is handled when `select` reports its socket.
  pub round_keeps :
      (sock timer_driver_socket : ℕ) (t : Tcpd)
      → ((i.ready && (waiting sock timer_driver_socket t sock && i.readable sock)) ≡ true
          → OnDone Inv (front_call i.sends i.front t))
      → ((i.ready && (waiting sock timer_driver_socket t sock && i.readable sock)) ≡ false → Inv t)
      → OnDone Inv (round sock timer_driver_socket i t)
  unfolding round
  round_keeps sock timer_driver_socket t called skipped =
      OnDone-bind Inv Inv _ (callbacks i)
        (if_cases (OnDone Inv) i.ready (solve_ready sock timer_driver_socket i isset t) (done t)
          (λ ready.
            solve_ready_keeps isset sock timer_driver_socket t
              (λ set. called (rw (ready, set) refl)) (λ unset. skipped (rw (ready, unset) refl)))
          (λ idle. skipped (rw idle refl)))
        callbacks_keep
    where
      isset : ℕ → Bool
      isset fd = waiting sock timer_driver_socket t fd && i.readable fd
