-- ===== src/Tcpd/Sender/Written.antt =====
-- The sending side hands packages on as they were made: acknowledgements, timers and sending move
-- them between the window, those that wait and the network.
use network_proj.Prelude.{
  ℕ, ◌+◌, ◌≡◌, refl, Bool, ◌==◌, leb, if_cases, if_some, List, [], ◌∷◌, Option, none, some, All,
  All-append,
}
use network_proj.Net.{exit, OnDone, OnDone-bind}
use network_proj.Timer.Request.{TimerExpired}
use network_proj.Tcpd.Message.{Message, Ack, is_ack_intact, max_buffer_packages}
use network_proj.Tcpd.Rto.{Estimator, measure, timeout}
use network_proj.Tcpd.State.{
  ConnectedSocket, Tcpd, Output, send_message, start_timer, cancel_timer, notify, posted,
}
use network_proj.Tcpd.Sender.{
  names, unlink, acknowledged, recv_ack, find_session, moved, expire_package, timer_found,
  recv_timer, Sending, transmitted, send_pending, min_seq_of, min_seq_start, send_callback,
  send_callbacks, solve_send_callback,
}
use network_proj.Tcpd.Written.{IsMade, Knows, Wrote, update_connected-All}

module _ (P : Message → Type 0) where
  abbrev pub Unlinked : Option (Message × List Message) → Type 0
  Unlinked none = Unit {0}
  Unlinked (some (m, rest)) = P m × All P rest

  pub unlink-Unlinked :
      (session seq : ℕ) (l : List Message) → All P l → Unlinked (unlink session seq l)
  unfolding unlink
  unlink-Unlinked session seq [] h = tt
  unlink-Unlinked session seq (m ∷ l) h =
      if_cases Unlinked (names session seq m) _ _ (λ hit. h)
        (λ miss. behind (unlink session seq l) (unlink-Unlinked session seq l h.1))
    where
      behind :
          (o : Option (Message × List Message))
          → Unlinked o
          → Unlinked (elim o [ none ↦ none | some (found, r) ↦ some (found, m ∷ r) ])
      behind none u = tt
      behind (some (found, r)) u = (u.0, (h.0, u.1))

pub find_session-All :
    (P : ConnectedSocket → Type 0) (session : ℕ) (c : ConnectedSocket) (l : List ConnectedSocket)
    → find_session session l ≡ some c
    → All P l
    → P c
unfolding find_session
find_session-All P session c [] e h = cc
find_session-All P session c (x ∷ l) e h =
    if_some P (x.session == session) x c (find_session session l) e h.0
      (λ later. find_session-All P session c l later h.1)

module _ (k f : ℕ) (made : List (List ℕ)) where
  acknowledged-Wrote :
      (c : ConnectedSocket) (o : Option (Message × List Message)) (t : Tcpd)
      → Unlinked (IsMade k made) o
      → Knows k f made c
      → Wrote k f made t
      → Wrote k f made (acknowledged c o t)
  acknowledged-Wrote c none t u s h = h
  acknowledged-Wrote c (some (m, rest)) t u s h = record {
    sockets =
        update_connected-All (Knows k f made) (record c { packages = rest }) t.connected_sockets
          (s.0, u.1, s.2) h.sockets;
    posts = h.posts;
  }

  pub recv_ack-Wrote :
      (sends : Output → Bool) (c : ConnectedSocket) (now : ℕ) (a : Option Ack) (t : Tcpd)
      → Knows k f made c
      → Wrote k f made t
      → OnDone (Wrote k f made) (recv_ack sends c now a t)
  unfolding recv_ack notify
  recv_ack-Wrote sends c now none t s h = tt
  recv_ack-Wrote sends c now (some a) t s h =
      if_cases (OnDone (Wrote k f made)) (is_ack_intact a) _ _
        (λ intact. record {
          sockets = acked.sockets;
          posts =
              if_cases (λ l. All (IsMade k made) (posted l))
                (sends (cancel_timer a.session a.seq_num)) _ _ (λ went. acked.posts)
                (λ failed. acked.posts);
        })
        (λ garbled. record { sockets = h.sockets; posts = h.posts })
    where
      acked : Wrote k f made (
          acknowledged c
            (unlink a.session a.seq_num c.packages)
            (record t { estimator = measure now t.estimator }))
      acked =
          acknowledged-Wrote c (unlink a.session a.seq_num c.packages)
            (record t { estimator = measure now t.estimator })
            (unlink-Unlinked (IsMade k made) a.session a.seq_num c.packages s.1) s
            (record { sockets = h.sockets; posts = h.posts })

  moved-Knows :
      (c : ConnectedSocket) (o : Option (Message × List Message))
      → Unlinked (IsMade k made) o
      → Knows k f made c
      → Knows k f made (moved c o)
  moved-Knows c none u s = s
  moved-Knows c (some (m, rest)) u s =
      (s.0, u.1, All-append (IsMade k made) c.pending_packages (m ∷ []) s.2 (u.0, tt))

  timer_found-Wrote :
      (e : TimerExpired) (o : Option ConnectedSocket) (t : Tcpd)
      → find_session e.session t.connected_sockets ≡ o
      → Wrote k f made t
      → OnDone (Wrote k f made) (timer_found e o t)
  unfolding timer_found expire_package
  timer_found-Wrote e none t found h = tt
  timer_found-Wrote e (some c) t found h = record {
    sockets =
        update_connected-All (Knows k f made) (moved c (unlink e.session e.seq_num c.packages))
          t.connected_sockets
          (moved-Knows c (unlink e.session e.seq_num c.packages)
            (unlink-Unlinked (IsMade k made) e.session e.seq_num c.packages s.1) s)
          h.sockets;
    posts = h.posts;
  }
    where
      s : Knows k f made c
      s = find_session-All (Knows k f made) e.session c t.connected_sockets found h.sockets

  pub recv_timer-Wrote :
      (e : Option TimerExpired) (t : Tcpd)
      → Wrote k f made t
      → OnDone (Wrote k f made) (recv_timer e t)
  unfolding recv_timer
  recv_timer-Wrote none t h = tt
  recv_timer-Wrote (some e) t h =
      timer_found-Wrote e (find_session e.session t.connected_sockets) t refl h

  module _ (sends : Output → Bool) (clock : List Output → ℕ) where
    -- What the loop over the pending packages leaves to be sent, has put into the window, and sent.
    abbrev Made : List Message × Sending → Type 0
    Made (left, w) =
        All (IsMade k made) left
        × All (IsMade k made) w.packages
        × All (IsMade k made) (posted w.sent)

    send_pending-Made :
        (fd min_seq : ℕ) (l : List Message) (w : Sending)
        → Made (l, w)
        → OnDone Made (send_pending sends clock fd min_seq l w)
    unfolding send_pending notify
    send_pending-Made fd min_seq [] w h = h
    send_pending-Made fd min_seq (m ∷ l) w h =
        if_cases (OnDone Made) (leb (min_seq + max_buffer_packages) m.seq_num) _ _
          (λ out_of_window.
            OnDone-bind Made Made (send_pending sends clock fd min_seq l w) _
              (send_pending-Made fd min_seq l w (h.0.1, h.1, h.2))
              (λ r g. ((h.0.0, g.0), g.1, g.2)))
          (λ in_window.
            if_cases (OnDone Made) (sends (send_message fd m)) _ (exit 5)
              (λ went. send_pending-Made fd min_seq l (transmitted sends clock fd min_seq m w) (
                h.0.1,
                All-append (IsMade k made) w.packages (m ∷ []) h.1 (h.0.0, tt),
                if_cases (λ s. All (IsMade k made) (posted s))
                    (sends (start_timer m.session m.seq_num (timeout w.estimator))) _ _
                    (λ started. (h.0.0, h.2)) (λ lost. (h.0.0, h.2)),
              ))
              (λ failed. tt))

    abbrev Sent : ConnectedSocket × Estimator × List Output → Type 0
    Sent (c, e, sent) = Knows k f made c × All (IsMade k made) (posted sent)

    send_callback-Sent :
        (c : ConnectedSocket) (e : Estimator) (sent : List Output)
        → Sent (c, e, sent)
        → OnDone Sent (send_callback sends clock c e sent)
    unfolding send_callback
    send_callback-Sent c e sent h =
        OnDone-bind Made Sent
          (send_pending sends clock c.socket_fd (min_seq_of min_seq_start c.packages)
            c.pending_packages (record { packages = c.packages; estimator = e; sent = sent }))
          _
          (send_pending-Made c.socket_fd (min_seq_of min_seq_start c.packages) c.pending_packages
            (record { packages = c.packages; estimator = e; sent = sent }) (h.0.2, h.0.1, h.1))
          (λ r g. ((h.0.0, g.1, g.0), g.2))

    send_callbacks-Made :
        (l : List ConnectedSocket) (e : Estimator) (sent : List Output)
        → All (Knows k f made) l
        → All (IsMade k made) (posted sent)
        → OnDone
            (λ r. All (Knows k f made) r.0 × All (IsMade k made) (posted r.2))
            (send_callbacks sends clock l e sent)
    unfolding send_callbacks
    send_callbacks-Made [] e sent h p = (tt, p)
    send_callbacks-Made (c ∷ l) e sent h p =
        OnDone-bind Sent AllSent (send_callback sends clock c e sent) _
          (send_callback-Sent c e sent (h.0, p))
          (λ r g.
            OnDone-bind AllSent AllSent (send_callbacks sends clock l r.1 r.2) _
              (send_callbacks-Made l r.1 r.2 h.1 g.1) (λ q g'. ((g.0, g'.0), g'.1)))
      where
        AllSent : List ConnectedSocket × Estimator × List Output → Type 0
        AllSent r = All (Knows k f made) r.0 × All (IsMade k made) (posted r.2)

    pub solve_send_callback-Wrote :
        (t : Tcpd) → Wrote k f made t → OnDone (Wrote k f made) (solve_send_callback sends clock t)
    unfolding solve_send_callback
    solve_send_callback-Wrote t h =
        OnDone-bind (λ r. All (Knows k f made) r.0 × All (IsMade k made) (posted r.2))
          (Wrote k f made) (send_callbacks sends clock t.connected_sockets t.estimator t.sent) _
          (send_callbacks-Made t.connected_sockets t.estimator t.sent h.sockets h.posts)
          (λ r g. record { sockets = g.0; posts = g.1 })
