-- ===== src/Tcpd/Loop/Stall.antt =====
-- What a connection that the start value of `MinSeq` stops sends over runs of the loop: nothing.
use network_proj.Prelude.{
  ℕ, ◌+◌, ◌≡◌, ◌≢◌, refl, sym, subst, Bool, List, [], ◌∷◌, Option, none, some, All, arith, length,
}
use network_proj.Net.{Addr, Outcome, OnDone, OnDone-bind, OnDone-map}
use network_proj.Tcpd.Message.{Message}
use network_proj.Tcpd.State.{Tcpd, Output, posted}
use network_proj.Tcpd.Front.Frame.{
  Keeps, tcpd_socket-Keeps, tcpd_bind-Keeps, tcpd_accept-Keeps, tcpd_recv-Keeps,
}
use network_proj.Tcpd.Receiver.Frame.{
  recv_data-Keeps, solve_accept_callback-Keeps, solve_recv_callback-Keeps,
}
use network_proj.Tcpd.Sender.Idle.{
  of_session, IsIdle, Stalled, recv_ack-Stalled, recv_timer-Stalled,
}
use network_proj.Tcpd.Sender.Stall.{solve_send_callback-Stalled}
use network_proj.Tcpd.Loop.{
  Call, socket, bind, accept, recv, connect, send, other, Inputs, front_call, round, run,
}
use network_proj.Tcpd.Loop.Invariant.{Kept, round_keeps}
use network_proj.Tcpd.Front.Stall.{fewer_Stalled, tcpd_send-Stalled, tcpd_connect-Stalled}

-- No CONNECT gives the number `k` to a session.
abbrev pub Avoids : ℕ → Option (Addr × Call) → Type 0
Avoids k (some (from, connect args rand)) = rand ≢ k
Avoids k c = Unit {0}

module _ (k : ℕ) (before : List Message) where
  kept_Stalled :
      (n : ℕ) (t : Tcpd) → Stalled k before n t → (t' : Tcpd) → Keeps t t' → Stalled k before n t'
  kept_Stalled n t h t' e = record {
    sockets = subst (All (IsIdle k n)) (sym e.0) h.sockets;
    posts = subst (λ l. of_session k l ≡ before) (sym e.2) h.posts;
  }

  module _ (sends : Output → Bool) (n : ℕ) (t : Tcpd) (h : Stalled k before (n + 1) t) where
    kept_call : (x : Outcome Tcpd) → OnDone (Keeps t) x → OnDone (Stalled k before n) x
    kept_call x e =
        OnDone-map (Keeps t) (Stalled k before n) x
          (kept_Stalled n t (fewer_Stalled k before n t h)) e

    front_call-Stalled :
        (c : Option (Addr × Call)) → Avoids k c → OnDone (Stalled k before n) (front_call sends c t)
    unfolding front_call
    front_call-Stalled none a = tt
    front_call-Stalled (some (from, socket fd)) a = kept_call _ (tcpd_socket-Keeps sends from t fd)
    front_call-Stalled (some (from, bind fd bound)) a =
        kept_call _ (tcpd_bind-Keeps sends from t fd bound)
    front_call-Stalled (some (from, accept fd)) a = kept_call _ (tcpd_accept-Keeps sends from t fd)
    front_call-Stalled (some (from, recv args)) a = kept_call _ (tcpd_recv-Keeps sends from t args)
    front_call-Stalled (some (from, connect args rand)) a =
        tcpd_connect-Stalled k before sends n t h from args rand a
    front_call-Stalled (some (from, send args buf fresh)) a =
        tcpd_send-Stalled k before sends n t h from args buf fresh
    front_call-Stalled (some (from, other)) a = fewer_Stalled k before n t h

  Stalled-Kept : (n : ℕ) (i : Inputs) → Kept i (Stalled k before n) (IsIdle k n)
  Stalled-Kept n i = record {
    held = λ t h. h.sockets;
    data_kept = λ fd t h.
        OnDone-map (Keeps t) (Stalled k before n) _ (kept_Stalled n t h)
          (recv_data-Keeps i.sends fd (i.packages fd) t);
    ack_kept = λ c t s h.
        recv_ack-Stalled k before n i.sends c (i.acks c.socket_fd).0 (i.acks c.socket_fd).1 t s h;
    timer_kept = recv_timer-Stalled k before n i.expired;
    accept_kept = λ t h.
        OnDone-map (Keeps t) (Stalled k before n) _ (kept_Stalled n t h)
          (solve_accept_callback-Keeps i.sends t);
    recv_kept = λ t h.
        OnDone-map (Keeps t) (Stalled k before n) _ (kept_Stalled n t h)
          (solve_recv_callback-Keeps i.sends t);
    send_kept = solve_send_callback-Stalled k before n i.sends i.clock;
  }

  module _ (sock timer_driver_socket : ℕ) where
    run-Stalled :
        (is : List Inputs) (t : Tcpd)
        → All (λ i. Avoids k i.front) is
        → Stalled k before (length is) t
        → OnDone (Stalled k before 0) (run sock timer_driver_socket is t)
    unfolding run
    run-Stalled [] t a h = h
    run-Stalled (i ∷ is) t a h =
        OnDone-bind (Stalled k before (length is)) (Stalled k before 0)
          (round sock timer_driver_socket i t) (run sock timer_driver_socket is)
          (round_keeps i (Stalled k before (length is)) (IsIdle k (length is))
            (Stalled-Kept (length is) i) sock timer_driver_socket t
            (λ called. front_call-Stalled i.sends (length is) t one_more i.front a.0)
            (λ skipped. fewer_Stalled k before (length is) t one_more))
          (λ t' h'. run-Stalled is t' a.1 h')
      where
        one_more : Stalled k before (length is + 1) t
        one_more = subst (λ n. Stalled k before n t) (omega arith) h

-- Take a state in which the connection of session `k` has an empty window, and its `Base` and all
-- its packages that wait have numbers from 100000064 on; no other connection holds a package of the
-- session. Then in whatever rounds follow, with whatever calls of SEND, acknowledgements and
-- timers, no package of the session is ever sent again, as long as the daemon runs, `Base` plus the
-- number of rounds stays below 2 ^ 32 and no CONNECT draws the same session number.
pub run_stalls :
    (k sock timer_driver_socket : ℕ) (is : List Inputs) (t : Tcpd)
    → All (IsIdle k (length is)) t.connected_sockets
    → All (λ i. Avoids k i.front) is
    → OnDone
        (λ t'. of_session k (posted t'.sent) ≡ of_session k (posted t.sent))
        (run sock timer_driver_socket is t)
run_stalls k sock timer_driver_socket is t idle a =
    OnDone-map (Stalled k (of_session k (posted t.sent)) 0) _ (run sock timer_driver_socket is t)
      (λ t' h. h.posts)
      (run-Stalled k (of_session k (posted t.sent)) sock timer_driver_socket is t a
        (record { sockets = idle; posts = refl }))
