-- ===== src/Tcpd/Loop/Bound.antt =====
-- The bound of the sender's buffer over one round of the loop.
use network_proj.Prelude.{
  ℕ, ◌+◌, ◌≡◌, ◌≢◌, refl, ap, Bool, false, ◌&&◌, List, [], ◌∷◌, Option, none, some, if◌then◌else◌,
  arith, inl, inr, ◌⊎◌, Bool-cases,
}
use network_proj.Prelude.Int.{pos, pos_part, neg_part, ◌≤ℤ◌, ltb_ℤ, ltb_ℤ→lt}
use network_proj.Net.{Addr, Outcome, done, OnDone, OnDone-if, OnDone-bind, OnDone-map, ◌>>=◌}
use network_proj.Tcpd.Message.{max_buffer_packages}
use network_proj.Tcpd.State.{BindedSocket, ConnectedSocket, Tcpd, Output}
use network_proj.Tcpd.Front.Frame.{
  Keeps, tcpd_socket-Keeps, tcpd_bind-Keeps, tcpd_accept-Keeps, tcpd_recv-Keeps,
}
use network_proj.Tcpd.Front.Limit.{tcpd_send-AtMost, tcpd_connect-AtMost}
use network_proj.Tcpd.Receiver.{recv_data, solve_accept_callback, solve_recv_callback}
use network_proj.Tcpd.Receiver.Frame.{
  recv_data-Keeps, solve_accept_callback-Keeps, solve_recv_callback-Keeps,
}
use network_proj.Tcpd.Sender.{recv_ack, recv_timer, solve_send_callback}
use network_proj.Tcpd.Sender.Limit.{
  AtMost, recv_ack-AtMost, recv_timer-AtMost, solve_send_callback-AtMost,
}
use network_proj.Tcpd.Loop.{
  Call, socket, bind, accept, recv, connect, send, other, Inputs, front_call, binds, connects,
  waiting, data_round, ack_round, solve_ready, callbacks, round,
}

kept_AtMost : (n : ℕ) (t : Tcpd) → AtMost n t → (t' : Tcpd) → Keeps t t' → AtMost n t'
kept_AtMost n t h t' e = omega (arith, ap pos_part e.1, ap neg_part e.1)

more_AtMost : (n : ℕ) (t : Tcpd) → AtMost n t → AtMost (n + 1) t
more_AtMost n t h = omega arith

front_call-AtMost :
    (sends : Output → Bool) (c : Option (Addr × Call)) (n : ℕ) (t : Tcpd)
    → AtMost n t
    → OnDone (AtMost (n + 1)) (front_call sends c t)
unfolding front_call
front_call-AtMost sends none n t h = tt
front_call-AtMost sends (some (from, socket fd)) n t h =
    OnDone-map _ (AtMost (n + 1)) _ (kept_AtMost (n + 1) t (more_AtMost n t h))
      (tcpd_socket-Keeps sends from t fd)
front_call-AtMost sends (some (from, bind fd bound)) n t h =
    OnDone-map _ (AtMost (n + 1)) _ (kept_AtMost (n + 1) t (more_AtMost n t h))
      (tcpd_bind-Keeps sends from t fd bound)
front_call-AtMost sends (some (from, accept fd)) n t h =
    OnDone-map _ (AtMost (n + 1)) _ (kept_AtMost (n + 1) t (more_AtMost n t h))
      (tcpd_accept-Keeps sends from t fd)
front_call-AtMost sends (some (from, recv args)) n t h =
    OnDone-map _ (AtMost (n + 1)) _ (kept_AtMost (n + 1) t (more_AtMost n t h))
      (tcpd_recv-Keeps sends from t args)
front_call-AtMost sends (some (from, connect args rand)) n t h =
    tcpd_connect-AtMost sends from (n + 1) t args rand (more_AtMost n t h)
front_call-AtMost sends (some (from, send args buf fresh)) n t h =
    tcpd_send-AtMost sends from n t args buf fresh h
front_call-AtMost sends (some (from, other)) n t h = more_AtMost n t h

module _ (i : Inputs) (n : ℕ) where
  module _ (isset : ℕ → Bool) where
    data_round-AtMost :
        (l : List BindedSocket) (t : Tcpd) → AtMost n t → OnDone (AtMost n) (data_round i isset l t)
    unfolding data_round
    data_round-AtMost [] t h = h
    data_round-AtMost (b ∷ l) t h =
        OnDone-bind (AtMost n) (AtMost n) (if isset b.socket_fd then received else done t)
          (data_round i isset l)
          (OnDone-if (AtMost n) (isset b.socket_fd) received (done t)
            (OnDone-map _ (AtMost n) _ (kept_AtMost n t h)
              (recv_data-Keeps i.sends b.socket_fd (i.packages b.socket_fd) t))
            h)
          (data_round-AtMost l)
      where
        received : Outcome Tcpd
        received = recv_data i.sends b.socket_fd (i.packages b.socket_fd) t

    ack_round-AtMost :
        (l : List ConnectedSocket) (t : Tcpd)
        → AtMost n t
        → OnDone (AtMost n) (ack_round i isset l t)
    unfolding ack_round
    ack_round-AtMost [] t h = h
    ack_round-AtMost (c ∷ l) t h =
        OnDone-bind (AtMost n) (AtMost n) (if isset c.socket_fd then acked else done t)
          (ack_round i isset l)
          (OnDone-if (AtMost n) (isset c.socket_fd) acked (done t)
            (recv_ack-AtMost i.sends n c (i.acks c.socket_fd).0 (i.acks c.socket_fd).1 t h) h)
          (ack_round-AtMost l)
      where
        acked : Outcome Tcpd
        acked = recv_ack i.sends c (i.acks c.socket_fd).0 (i.acks c.socket_fd).1 t

    solve_ready-AtMost :
        (sock timer_driver_socket : ℕ) (t : Tcpd)
        → OnDone (AtMost n) (if isset sock then front_call i.sends i.front t else done t)
        → OnDone (AtMost n) (solve_ready sock timer_driver_socket i isset t)
    unfolding solve_ready
    solve_ready-AtMost sock timer_driver_socket t h =
        OnDone-bind (AtMost n) (AtMost n)
          (if isset sock then front_call i.sends i.front t else done t)
          (λ t1. data_round i isset t1.binded_sockets t1 >>= after_data) h
          (λ t1 h1.
            OnDone-bind (AtMost n) (AtMost n) (data_round i isset t1.binded_sockets t1) after_data
              (data_round-AtMost t1.binded_sockets t1 h1)
              (λ t2 h2.
                OnDone-bind (AtMost n) (AtMost n) (ack_round i isset t2.connected_sockets t2)
                  after_acks (ack_round-AtMost t2.connected_sockets t2 h2)
                  (λ t3 h3.
                    OnDone-if (AtMost n) (isset timer_driver_socket) (recv_timer i.expired t3)
                      (done t3) (recv_timer-AtMost n i.expired t3 h3) h3)))
      where
        after_acks : Tcpd → Outcome Tcpd
        after_acks t3 = if isset timer_driver_socket then recv_timer i.expired t3 else done t3

        after_data : Tcpd → Outcome Tcpd
        after_data t2 = ack_round i isset t2.connected_sockets t2 >>= after_acks

  callbacks-AtMost : (t : Tcpd) → AtMost n t → OnDone (AtMost n) (callbacks i t)
  unfolding callbacks
  callbacks-AtMost t h =
      OnDone-bind (AtMost n) (AtMost n) (solve_accept_callback i.sends t)
        (λ t1. solve_recv_callback i.sends t1 >>= solve_send_callback i.sends i.clock)
        (OnDone-map _ (AtMost n) _ (kept_AtMost n t h) (solve_accept_callback-Keeps i.sends t))
        (λ t1 h1.
          OnDone-bind (AtMost n) (AtMost n) (solve_recv_callback i.sends t1)
            (solve_send_callback i.sends i.clock)
            (OnDone-map _ (AtMost n) _ (kept_AtMost n t1 h1) (solve_recv_callback-Keeps i.sends t1))
            (λ t2 h2. solve_send_callback-AtMost i.sends i.clock n t2 h2))

module _ (sock timer_driver_socket : ℕ) where
  -- Front processes are only listened to while there is room.
  listens :
      (t : Tcpd)
      → sock ≢ timer_driver_socket
      → binds sock t.binded_sockets ≡ false
      → connects sock t.connected_sockets ≡ false
      → (waiting sock timer_driver_socket t sock ≡ false) ⊎ AtMost 63 t
  unfolding waiting
  listens t apart b c = elim (Bool-cases (ltb_ℤ t.in_buffer_packages (pos max_buffer_packages))) [
    | inl room ↦ inr (omega (arith, ltb_ℤ→lt t.in_buffer_packages (pos max_buffer_packages) room))
    | inr full ↦ inl (rw (full, b, c) (ground arith))
  ]

  called_AtMost :
      (i : Inputs) (t : Tcpd) (isset : Bool)
      → (isset ≡ false) ⊎ AtMost 63 t
      → AtMost 64 t
      → OnDone (AtMost 64) (if isset then front_call i.sends i.front t else done t)
  called_AtMost i t isset (inl shut) h = rw shut h
  called_AtMost i t isset (inr room) h =
      OnDone-if (AtMost 64) isset (front_call i.sends i.front t) (done t)
        (front_call-AtMost i.sends i.front 63 t room) h

  -- `InBufferPackages` never goes above MAX_BUFFER_PACKAGES: a round that starts with at most 64
  -- ends with at most 64, whatever it reads, if the descriptor of the front processes is not the
  -- one of the timer nor among those that they have bound or connected.
  pub round-AtMost :
      (i : Inputs) (t : Tcpd)
      → sock ≢ timer_driver_socket
      → binds sock t.binded_sockets ≡ false
      → connects sock t.connected_sockets ≡ false
      → t.in_buffer_packages ≤ℤ pos max_buffer_packages
      → OnDone
          (λ t'. t'.in_buffer_packages ≤ℤ pos max_buffer_packages)
          (round sock timer_driver_socket i t)
  unfolding round
  round-AtMost i t apart b c h =
      OnDone-bind (AtMost 64) (AtMost 64)
        (if i.ready then solve_ready sock timer_driver_socket i isset t else done t) (callbacks i)
        (OnDone-if (AtMost 64) i.ready (solve_ready sock timer_driver_socket i isset t) (done t)
          (solve_ready-AtMost i 64 isset sock timer_driver_socket t
            (called_AtMost i t (isset sock) listening h))
          h)
        (callbacks-AtMost i 64)
    where
      isset : ℕ → Bool
      isset fd = waiting sock timer_driver_socket t fd && i.readable fd

      listening : (isset sock ≡ false) ⊎ AtMost 63 t
      listening = elim (listens t apart b c) [ inl shut ↦ inl (rw shut refl) | inr room ↦ inr room ]
