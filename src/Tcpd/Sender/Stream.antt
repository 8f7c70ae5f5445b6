-- ===== src/Tcpd/Sender/Stream.antt =====
-- The sending side leaves the receiving side alone, and answers no reader.
use network_proj.Prelude.{
  ℕ, ◌≡◌, refl, ◌∙◌, Bool, leb, ◌+◌, if_cases, List, [], ◌∷◌, Option, none, some,
}
use network_proj.Net.{Addr, exit, OnDone, OnDone-bind, OnDone-map}
use network_proj.Timer.Request.{TimerExpired}
use network_proj.Tcpd.Message.{Message, Ack, is_ack_intact, max_buffer_packages}
use network_proj.Tcpd.Rto.{Estimator, Rto, measure, timeout}
use network_proj.Tcpd.State.{
  ConnectedSocket, Tcpd, Output, send_message, start_timer, cancel_timer, notify,
}
use network_proj.Tcpd.Sender.{
  unlink, acknowledged, recv_ack, find_session, timer_found, recv_timer, Sending, transmitted,
  send_pending, min_seq_of, min_seq_start, send_callback, send_callbacks, solve_send_callback,
}
use network_proj.Tcpd.Stream.{delivered}
use network_proj.Tcpd.Stream.Quiet.{Quiet}

module _ (reader : Addr → Bool) where
  notify-delivered :
      (sends : Output → Bool) (out : Output) (sent : List Output)
      → delivered reader (out ∷ sent) ≡ delivered reader sent
      → delivered reader (notify sends out sent) ≡ delivered reader sent
  unfolding notify
  notify-delivered sends out sent e =
      if_cases (λ l. delivered reader l ≡ delivered reader sent) (sends out) (out ∷ sent) sent
        (λ went. e) (λ failed. refl)

  -- The outputs of the sending side.
  cancel_silent :
      (session seq : ℕ) (sent : List Output)
      → delivered reader (cancel_timer session seq ∷ sent) ≡ delivered reader sent
  unfolding delivered
  cancel_silent session seq sent = refl

  start_silent :
      (session seq : ℕ) (rto : Rto) (sent : List Output)
      → delivered reader (start_timer session seq rto ∷ sent) ≡ delivered reader sent
  unfolding delivered
  start_silent session seq rto sent = refl

  message_silent :
      (fd : ℕ) (m : Message) (sent : List Output)
      → delivered reader (send_message fd m ∷ sent) ≡ delivered reader sent
  unfolding delivered
  message_silent fd m sent = refl

  acknowledged-Quiet :
      (c : ConnectedSocket) (o : Option (Message × List Message)) (t : Tcpd)
      → Quiet reader t (acknowledged c o t)
  acknowledged-Quiet c none t = (refl, refl, refl)
  acknowledged-Quiet c (some (m, rest)) t = (refl, refl, refl)

  pub recv_ack-Quiet :
      (sends : Output → Bool) (c : ConnectedSocket) (now : ℕ) (a : Option Ack) (t : Tcpd)
      → OnDone (Quiet reader t) (recv_ack sends c now a t)
  unfolding recv_ack
  recv_ack-Quiet sends c now none t = tt
  recv_ack-Quiet sends c now (some a) t =
      if_cases (OnDone (Quiet reader t)) (is_ack_intact a) _ _
        (λ intact. (
          q.0,
          q.1,
          notify-delivered sends (cancel_timer a.session a.seq_num) _
                (cancel_silent a.session a.seq_num _)
              ∙ q.2,
        ))
        (λ garbled. (refl, refl, refl))
    where
      q : Quiet reader t (
          acknowledged c
            (unlink a.session a.seq_num c.packages)
            (record t { estimator = measure now t.estimator }))
      q =
          acknowledged-Quiet c (unlink a.session a.seq_num c.packages)
            (record t { estimator = measure now t.estimator })

  timer_found-Quiet :
      (e : TimerExpired) (o : Option ConnectedSocket) (t : Tcpd)
      → OnDone (Quiet reader t) (timer_found e o t)
  unfolding timer_found
  timer_found-Quiet e none t = tt
  timer_found-Quiet e (some c) t = (refl, refl, refl)

  pub recv_timer-Quiet :
      (e : Option TimerExpired) (t : Tcpd) → OnDone (Quiet reader t) (recv_timer e t)
  unfolding recv_timer
  recv_timer-Quiet none t = tt
  recv_timer-Quiet (some e) t = timer_found-Quiet e (find_session e.session t.connected_sockets) t

  module _ (sends : Output → Bool) (clock : List Output → ℕ) where
    abbrev Silent : List Output → List Output → Type 0
    Silent before after = delivered reader after ≡ delivered reader before

    send_pending-Silent :
        (fd min_seq : ℕ) (l : List Message) (w : Sending)
        → OnDone (λ r. Silent w.sent r.1.sent) (send_pending sends clock fd min_seq l w)
    unfolding send_pending
    send_pending-Silent fd min_seq [] w = refl
    send_pending-Silent fd min_seq (m ∷ l) w =
        if_cases (OnDone (λ r. Silent w.sent r.1.sent))
          (leb (min_seq + max_buffer_packages) m.seq_num) _ _
          (λ out_of_window.
            OnDone-bind (λ r. Silent w.sent r.1.sent) (λ r. Silent w.sent r.1.sent)
              (send_pending sends clock fd min_seq l w) _ (send_pending-Silent fd min_seq l w)
              (λ r e. e))
          (λ in_window.
            if_cases (OnDone (λ r. Silent w.sent r.1.sent)) (sends (send_message fd m)) _ (exit 5)
              (λ went.
                OnDone-map _ _ (send_pending sends clock fd min_seq l next) (λ r e. e ∙ one)
                  (send_pending-Silent fd min_seq l next))
              (λ failed. tt))
      where
        next : Sending
        next = transmitted sends clock fd min_seq m w

        one : delivered reader next.sent ≡ delivered reader w.sent
        one =
            notify-delivered sends (start_timer m.session m.seq_num (timeout w.estimator))
              (send_message fd m ∷ w.sent) (start_silent m.session m.seq_num _ _)
            ∙ message_silent fd m w.sent

    send_callback-Silent :
        (c : ConnectedSocket) (e : Estimator) (sent : List Output)
        → OnDone (λ r. Silent sent r.2) (send_callback sends clock c e sent)
    unfolding send_callback
    send_callback-Silent c e sent =
        OnDone-bind (λ r. Silent sent r.1.sent) (λ r. Silent sent r.2)
          (send_pending sends clock c.socket_fd (min_seq_of min_seq_start c.packages)
            c.pending_packages (record { packages = c.packages; estimator = e; sent = sent }))
          _
          (send_pending-Silent c.socket_fd (min_seq_of min_seq_start c.packages) c.pending_packages
            (record { packages = c.packages; estimator = e; sent = sent }))
          (λ r q. q)

    send_callbacks-Silent :
        (l : List ConnectedSocket) (e : Estimator) (sent : List Output)
        → OnDone (λ r. Silent sent r.2) (send_callbacks sends clock l e sent)
    unfolding send_callbacks
    send_callbacks-Silent [] e sent = refl
    send_callbacks-Silent (c ∷ l) e sent =
        OnDone-bind (λ r. Silent sent r.2) (λ r. Silent sent r.2)
          (send_callback sends clock c e sent) _ (send_callback-Silent c e sent)
          (λ r q.
            OnDone-bind (λ x. Silent r.2 x.2) (λ x. Silent sent x.2)
              (send_callbacks sends clock l r.1 r.2) _ (send_callbacks-Silent l r.1 r.2)
              (λ x q'. q' ∙ q))

    pub solve_send_callback-Quiet :
        (t : Tcpd) → OnDone (Quiet reader t) (solve_send_callback sends clock t)
    unfolding solve_send_callback
    solve_send_callback-Quiet t =
        OnDone-bind (λ r. Silent t.sent r.2) (Quiet reader t)
          (send_callbacks sends clock t.connected_sockets t.estimator t.sent) _
          (send_callbacks-Silent t.connected_sockets t.estimator t.sent) (λ r e. (refl, refl, e))
