-- ===== src/Tcpd/Sender/Sweep.antt =====
-- `SolveSendCallback` on all sockets.
use network_proj.Prelude.{
  ℕ, ◌≡◌, refl, ap, ap₂, ◌∙◌, Bool, true, false, ◌||◌, All, List, [], ◌∷◌, map,
}
use network_proj.Net.{Outcome, done, exit, ◌>>=◌}
use network_proj.Tcpd.Message.{Message}
use network_proj.Tcpd.Rto.{Estimator}
use network_proj.Tcpd.State.{ConnectedSocket, Tcpd, Output}
use network_proj.Tcpd.Sender.Advance.{
  going, refused, messages, posted, Goes, IsLeast, min_seq_of-IsLeast, least_of, advance, Splits,
  send_pending-Splits,
}
use network_proj.Tcpd.Sender.{
  Sending, min_seq_start, send_callback, send_callbacks, solve_send_callback,
}

-- The same of all sockets, one after the other.
unfoldable pub refused_any : (Output → Bool) → List ConnectedSocket → Bool
refused_any sends [] = false
refused_any sends (c ∷ l) =
    refused sends c.socket_fd (going (least_of c) c.pending_packages) || refused_any sends l

unfoldable pub posted_all : List ConnectedSocket → List (ℕ × Message) → List (ℕ × Message)
posted_all [] before = before
posted_all (c ∷ l) before =
    posted_all l (posted c.socket_fd (going (least_of c) c.pending_packages) before)

-- The packages of all sockets go out in order, with their timers.
abbrev pub GoesAll : (Output → Bool) → List ConnectedSocket → List Output → List Output → Type 0
GoesAll sends [] before sent = sent ≡ before
GoesAll sends (c ∷ l) before sent =
    (mid : List Output) × Goes sends c.socket_fd (going (least_of c) c.pending_packages) before mid
    × GoesAll sends l mid sent

-- The callback on some sockets: it ends the process with code 5 where a package cannot be sent, and
-- otherwise advances every socket and has sent the packages that lie in its window.
abbrev pub Advanced :
    (Output → Bool)
    → List ConnectedSocket
    → List Output
    → Outcome (List ConnectedSocket × Estimator × List Output)
    → Type 0
Advanced sends l sent (done (l', e, sent')) =
    (refused_any sends l ≡ false)
    × (l' ≡ map advance l)
    × (messages sent' ≡ posted_all l (messages sent))
    × GoesAll sends l sent sent'
Advanced sends l sent (exit code) = (refused_any sends l ≡ true) × (code ≡ 5)

-- The same of the daemon, whose other tables and whose counter stay as they are.
abbrev pub Advances : (Output → Bool) → Tcpd → Outcome Tcpd → Type 0
Advances sends t (done t') =
    (refused_any sends t.connected_sockets ≡ false)
    × (t'.connected_sockets ≡ map advance t.connected_sockets)
    × (t'.in_buffer_packages ≡ t.in_buffer_packages)
    × (t'.binded_sockets ≡ t.binded_sockets)
    × (t'.accepted_sockets ≡ t.accepted_sockets)
    × (t'.waiting_accept_sockets ≡ t.waiting_accept_sockets)
    × (messages t'.sent ≡ posted_all t.connected_sockets (messages t.sent))
    × GoesAll sends t.connected_sockets t.sent t'.sent
    × All (λ c. IsLeast min_seq_start c.packages (least_of c)) t.connected_sockets
Advances sends t (exit code) = (refused_any sends t.connected_sockets ≡ true) × (code ≡ 5)

all-IsLeast :
    (l : List ConnectedSocket) → All (λ c. IsLeast min_seq_start c.packages (least_of c)) l
all-IsLeast [] = tt
all-IsLeast (c ∷ l) = (min_seq_of-IsLeast min_seq_start c.packages, all-IsLeast l)

module _ (sends : Output → Bool) where
  module _ (clock : List Output → ℕ) where
    abbrev Steps :
        ConnectedSocket → List Output → Outcome (ConnectedSocket × Estimator × List Output) → Type 0
    Steps c sent (done (c', e, sent')) =
        (refused sends c.socket_fd (going (least_of c) c.pending_packages) ≡ false)
        × (c' ≡ advance c)
        × (messages sent'
            ≡ posted c.socket_fd (going (least_of c) c.pending_packages) (messages sent))
        × Goes sends c.socket_fd (going (least_of c) c.pending_packages) sent sent'
    Steps c sent (exit code) =
        (refused sends c.socket_fd (going (least_of c) c.pending_packages) ≡ true) × (code ≡ 5)

    Splits-Steps :
        (c : ConnectedSocket) (e : Estimator) (sent : List Output)
        (o : Outcome (List Message × Sending))
        → Splits sends clock c.socket_fd
            (least_of c)
            c.pending_packages
            (record { packages = c.packages; estimator = e; sent = sent })
            o
        → Steps c sent (
            o >>= (λ (left, w). done (
              record c { min_seq = least_of c; packages = w.packages; pending_packages = left },
              w.estimator,
              w.sent,
            )))
    Splits-Steps c e sent (done (left, w)) h = (
      h.0,
      ap₂ (λ p q. record c { min_seq = least_of c; packages = p; pending_packages = q }) h.2 h.1,
      h.3,
      h.4,
    )
    Splits-Steps c e sent (exit code) h = h

    send_callback-Steps :
        (c : ConnectedSocket) (e : Estimator) (sent : List Output)
        → Steps c sent (send_callback sends clock c e sent)
    unfolding send_callback
    send_callback-Steps c e sent = Splits-Steps c e sent _ (
        send_pending-Splits sends clock c.socket_fd (least_of c) c.pending_packages
          (record { packages = c.packages; estimator = e; sent = sent }))

    joined :
        (c c' : ConnectedSocket) (l : List ConnectedSocket) (sent mid : List Output) (e : Estimator)
        (o : Outcome (List ConnectedSocket × Estimator × List Output))
        → Steps c sent (done (c', e, mid))
        → Advanced sends l mid o
        → Advanced sends (c ∷ l) sent (o >>= (λ (l', e'', out). done (c' ∷ l', e'', out)))
    unfolding refused_any posted_all
    joined c c' l sent mid e (done (l', e'', out)) h k =
        (rw h.0 k.0, ap₂ ◌∷◌ h.1 k.1, k.2 ∙ ap (posted_all l) h.2, (mid, h.3, k.3))
    joined c c' l sent mid e (exit code) h k = rw h.0 k

    cons_Advanced :
        (c : ConnectedSocket) (l : List ConnectedSocket) (sent : List Output)
        (o : Outcome (ConnectedSocket × Estimator × List Output))
        (rest : Estimator → List Output → Outcome (List ConnectedSocket × Estimator × List Output))
        → Steps c sent o
        → ((e : Estimator) (mid : List Output) → Advanced sends l mid (rest e mid))
        → Advanced sends
            (c ∷ l)
            sent
            (o >>= (λ (c', e', mid). rest e' mid >>= (λ (l', e'', out). done (c' ∷ l', e'', out))))
    unfolding refused_any posted_all
    cons_Advanced c l sent (done (c', e', mid)) rest h hs =
        joined c c' l sent mid e' (rest e' mid) h (hs e' mid)
    cons_Advanced c l sent (exit code) rest h hs = rw h.0 (refl, h.1)

    send_callbacks-Advanced :
        (l : List ConnectedSocket) (e : Estimator) (sent : List Output)
        → Advanced sends l sent (send_callbacks sends clock l e sent)
    unfolding send_callbacks refused_any posted_all
    send_callbacks-Advanced [] e sent = (refl, refl, refl, refl)
    send_callbacks-Advanced (c ∷ l) e sent =
        cons_Advanced c l sent (send_callback sends clock c e sent) (send_callbacks sends clock l)
          (send_callback-Steps c e sent) (send_callbacks-Advanced l)

    whole :
        (t : Tcpd) (o : Outcome (List ConnectedSocket × Estimator × List Output))
        → Advanced sends t.connected_sockets t.sent o
        → Advances sends t (
            o >>= (λ (l, e, sent).
              done (record t { connected_sockets = l; estimator = e; sent = sent })))
    whole t (done (l, e, sent)) h =
        (h.0, h.1, refl, refl, refl, refl, h.2, h.3, all-IsLeast t.connected_sockets)
    whole t (exit code) h = h

    -- `SolveSendCallback` ends the process with code 5 where a package in a window cannot be sent.
    -- Otherwise it has sent the pending packages of every socket whose numbers are below the least
    -- number in its window plus 64, in their order, and appended them to the window; the others
    -- wait on, in their order. (The least number is at most 100000000, and that where the window is
    -- empty.) Behind each package goes a request for its timer, where this can be sent; nothing
    -- else is sent, and no other table nor `InBufferPackages` changes.
    pub solve_send_callback-Advances :
        (t : Tcpd) → Advances sends t (solve_send_callback sends clock t)
    unfolding solve_send_callback
    solve_send_callback-Advances t =
        whole t _ (send_callbacks-Advanced t.connected_sockets t.estimator t.sent)
