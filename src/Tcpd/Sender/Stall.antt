-- ===== src/Tcpd/Sender/Stall.antt =====
-- Where the start value of `MinSeq` stops a connection: `SolveSendCallback` sends nothing of it.
use network_proj.Prelude.{
  ℕ, ◌+◌, ◌≤◌, ◌≡◌, ◌≢◌, refl, Bool, false, ◌==◌, leb, if_cases, List, [], ◌∷◌, All, All-append,
  inl, inr, arith,
}
use network_proj.Net.{done, exit, OnDone, OnDone-bind}
use network_proj.Tcpd.Message.{Message, max_buffer_packages}
use network_proj.Tcpd.Rto.{Estimator, timeout}
use network_proj.Tcpd.State.{
  ConnectedSocket, Tcpd, Output, send_message, start_timer, notify, posted,
}
use network_proj.Tcpd.Sender.{
  Sending, transmitted, send_pending, min_seq_of, min_seq_start, send_callback, send_callbacks,
  solve_send_callback,
}
use network_proj.Tcpd.Sender.Idle.{of_session, IsIdle, Stalled}

module _ (k : ℕ) (before : List Message) (n : ℕ) where
  module _ (sends : Output → Bool) (clock : List Output → ℕ) where
    pending_stalls :
        (fd least : ℕ) (l : List Message) (w : Sending)
        → All (λ m. least + max_buffer_packages ≤ m.seq_num) l
        → send_pending sends clock fd least l w ≡ done (l, w)
    unfolding send_pending
    pending_stalls fd least [] w h = refl
    pending_stalls fd least (m ∷ l) w h = ground (arith, h.0, pending_stalls fd least l w h.1)

    abbrev Apart : List Message × Sending → Type 0
    Apart (left, w) =
        All (λ m. m.session ≢ k) left
        × All (λ m. m.session ≢ k) w.packages
        × (of_session k (posted w.sent) ≡ before)

    send_pending-Apart :
        (fd min_seq : ℕ) (l : List Message) (w : Sending)
        → Apart (l, w)
        → OnDone Apart (send_pending sends clock fd min_seq l w)
    unfolding send_pending notify of_session
    send_pending-Apart fd min_seq [] w h = h
    send_pending-Apart fd min_seq (m ∷ l) w h =
        if_cases (OnDone Apart) (leb (min_seq + max_buffer_packages) m.seq_num) _ _
          (λ out_of_window.
            OnDone-bind Apart Apart (send_pending sends clock fd min_seq l w) _
              (send_pending-Apart fd min_seq l w (h.0.1, h.1, h.2))
              (λ r g. ((h.0.0, g.0), g.1, g.2)))
          (λ in_window.
            if_cases (OnDone Apart) (sends (send_message fd m)) _ (exit 5)
              (λ went. send_pending-Apart fd min_seq l (transmitted sends clock fd min_seq m w) (
                h.0.1,
                All-append (λ x. x.session ≢ k) w.packages (m ∷ []) h.1 (h.0.0, tt),
                if_cases (λ s. of_session k (posted s) ≡ before)
                    (sends (start_timer m.session m.seq_num (timeout w.estimator))) _ _
                    (λ started. same) (λ lost. same),
              ))
              (λ failed. tt))
      where
        other : (m.session == k) ≡ false
        other = let apart = h.0.0 in ground (arith, apart)

        same : of_session k (m ∷ posted w.sent) ≡ before
        same = rw other h.2

    abbrev Called : ConnectedSocket × Estimator × List Output → Type 0
    Called (c, e, sent) = IsIdle k n c × (of_session k (posted sent) ≡ before)

    send_callback-Called :
        (c : ConnectedSocket) (e : Estimator) (sent : List Output)
        → IsIdle k n c
        → of_session k (posted sent) ≡ before
        → OnDone Called (send_callback sends clock c e sent)
    unfolding send_callback min_seq_of
    send_callback-Called c e sent (inl own) p =
        rw
          (
            own.1,
            pending_stalls c.socket_fd min_seq_start c.pending_packages
                (record { packages = []; estimator = e; sent = sent }) own.2,
          )
          (inl (own.0, refl, own.2, own.3, own.4), p)
    send_callback-Called c e sent (inr other) p =
        OnDone-bind Apart Called
          (send_pending sends clock c.socket_fd (min_seq_of min_seq_start c.packages)
            c.pending_packages (record { packages = c.packages; estimator = e; sent = sent }))
          _
          (send_pending-Apart c.socket_fd (min_seq_of min_seq_start c.packages) c.pending_packages
            (record { packages = c.packages; estimator = e; sent = sent }) (other.2, other.1, p))
          (λ r g. (inr (other.0, g.1, g.0), g.2))

    abbrev AllCalled : List ConnectedSocket × Estimator × List Output → Type 0
    AllCalled (l, e, sent) = All (IsIdle k n) l × (of_session k (posted sent) ≡ before)

    send_callbacks-AllCalled :
        (l : List ConnectedSocket) (e : Estimator) (sent : List Output)
        → All (IsIdle k n) l
        → of_session k (posted sent) ≡ before
        → OnDone AllCalled (send_callbacks sends clock l e sent)
    unfolding send_callbacks
    send_callbacks-AllCalled [] e sent h p = (tt, p)
    send_callbacks-AllCalled (c ∷ l) e sent h p =
        OnDone-bind Called AllCalled (send_callback sends clock c e sent) _
          (send_callback-Called c e sent h.0 p)
          (λ r g.
            OnDone-bind AllCalled AllCalled (send_callbacks sends clock l r.1 r.2) _
              (send_callbacks-AllCalled l r.1 r.2 h.1 g.1) (λ q g'. ((g.0, g'.0), g'.1)))

    pub solve_send_callback-Stalled :
        (t : Tcpd)
        → Stalled k before n t
        → OnDone (Stalled k before n) (solve_send_callback sends clock t)
    unfolding solve_send_callback
    solve_send_callback-Stalled t h =
        OnDone-bind AllCalled (Stalled k before n)
          (send_callbacks sends clock t.connected_sockets t.estimator t.sent) _
          (send_callbacks-AllCalled t.connected_sockets t.estimator t.sent h.sockets h.posts)
          (λ r g. record { sockets = g.0; posts = g.1 })
