-- ===== src/Tcpd/Loop/Written.antt =====
-- What has been written to a session over runs of the loop, and what its packages hold.
use mathlib.Core.List.{append_assoc, append-nil}
use network_proj.Prelude.{
  ℕ, ◌≤◌, ◌<◌, ◌^◌, ◌≡◌, ◌≢◌, sym, subst, Bool, ◌&&◌, if◌then◌else◌, List, [], ◌∷◌, ◌++◌, Option,
  none, some, All, length, length-append, arith,
}
use network_proj.Net.{Addr, Outcome, done, exit, ◌>>=◌, OnDone, OnDone-and, OnDone-map}
use network_proj.Tcpd.State.{Tcpd, Output, find_connected}
use network_proj.Tcpd.Written.{IsMade, Knows, Wrote}
use network_proj.Tcpd.Front.Books.{Accounts}
use network_proj.Tcpd.Front.Frame.{
  Keeps, tcpd_socket-Keeps, tcpd_bind-Keeps, tcpd_accept-Keeps, tcpd_recv-Keeps,
}
use network_proj.Tcpd.Front.Made.{added_buffer}
use network_proj.Tcpd.Front.Written.{
  tcpd_connect-Wrote, tcpd_send-Wrote, tcpd_send_no_arguments, tcpd_send_no_bytes,
}
use network_proj.Tcpd.Receiver.Frame.{
  recv_data-Keeps, solve_accept_callback-Keeps, solve_recv_callback-Keeps,
}
use network_proj.Tcpd.Sender.Count.{DistinctFds}
use network_proj.Tcpd.Sender.Written.{recv_ack-Wrote, recv_timer-Wrote, solve_send_callback-Wrote}
use network_proj.Tcpd.Loop.{
  Call, socket, bind, accept, recv, connect, send, other, Inputs, front_call, waiting, round, run,
}
use network_proj.Tcpd.Loop.Accounts.{round-Accounts}
use network_proj.Tcpd.Loop.Invariant.{Kept, round_keeps}

-- No other session gets the number `k`, and the buffer of a SEND holds the bytes that it announces.
abbrev pub Proper : ℕ → Option (Addr × Call) → Type 0
Proper k (some (from, connect args rand)) = rand ≢ k
Proper k (some (from, send (some (fd, len)) (some buf) fresh)) = len ≤ length buf
Proper k c = Unit {0}

-- The buffer that a call writes to session `k`.
unfoldable pub call_buffers : ℕ → Option (Addr × Call) → Tcpd → List (List ℕ)
call_buffers k (some (from, send (some (fd, len)) (some buf) fresh)) t =
    added_buffer k len buf (find_connected fd t.connected_sockets)
call_buffers k c t = []

module _ (k sock timer_driver_socket : ℕ) where
  unfoldable pub round_buffers : Inputs → Tcpd → List (List ℕ)
  round_buffers i t =
      if i.ready && (waiting sock timer_driver_socket t sock && i.readable sock)
      then call_buffers k i.front t
      else []

  -- The buffers that are written to session `k` while the daemon runs, in order.
  unfoldable pub written : List Inputs → Tcpd → List (List ℕ)
  written [] t = []
  written (i ∷ is) t =
      round_buffers i t
      ++ elim (round sock timer_driver_socket i t) [ done t' ↦ written is t' | exit code ↦ [] ]

fewer :
    (made more rest : List (List ℕ))
    → length (made ++ (more ++ rest)) < 2 ^ 32
    → length (made ++ more) < 2 ^ 32
fewer made more rest room =
    omega
      (arith, length-append made more, length-append made (more ++ rest), length-append more rest)

module _ (k f : ℕ) where
  kept_Wrote :
      (made : List (List ℕ)) (t : Tcpd)
      → Wrote k f made t
      → (t' : Tcpd) → Keeps t t'
      → Wrote k f made t'
  kept_Wrote made t h t' e = record {
    sockets = subst (All (Knows k f made)) (sym e.0) h.sockets;
    posts = subst (All (IsMade k made)) (sym e.2) h.posts;
  }

  Wrote-Kept : (made : List (List ℕ)) (i : Inputs) → Kept i (Wrote k f made) (Knows k f made)
  Wrote-Kept made i = record {
    held = λ t h. h.sockets;
    data_kept = λ fd t h.
        OnDone-map (Keeps t) (Wrote k f made) _ (kept_Wrote made t h)
          (recv_data-Keeps i.sends fd (i.packages fd) t);
    ack_kept = λ c t s h.
        recv_ack-Wrote k f made i.sends c (i.acks c.socket_fd).0 (i.acks c.socket_fd).1 t s h;
    timer_kept = recv_timer-Wrote k f made i.expired;
    accept_kept = λ t h.
        OnDone-map (Keeps t) (Wrote k f made) _ (kept_Wrote made t h)
          (solve_accept_callback-Keeps i.sends t);
    recv_kept = λ t h.
        OnDone-map (Keeps t) (Wrote k f made) _ (kept_Wrote made t h)
          (solve_recv_callback-Keeps i.sends t);
    send_kept = solve_send_callback-Wrote k f made i.sends i.clock;
  }

  module _ (made : List (List ℕ)) (sends : Output → Bool) (t : Tcpd)
      (d : DistinctFds t.connected_sockets) (h : Wrote k f made t) where
    same : Wrote k f (made ++ []) t
    same = rw append-nil h

    kept_call : (x : Outcome Tcpd) → OnDone (Keeps t) x → OnDone (Wrote k f (made ++ [])) x
    kept_call x e =
        OnDone-map (Keeps t) (Wrote k f (made ++ [])) x (kept_Wrote (made ++ []) t same) e

    front_call-Wrote :
        (c : Option (Addr × Call))
        → Proper k c
        → length (made ++ call_buffers k c t) < 2 ^ 32
        → OnDone (Wrote k f (made ++ call_buffers k c t)) (front_call sends c t)
    unfolding front_call call_buffers
    front_call-Wrote none p room = tt
    front_call-Wrote (some (from, socket fd)) p room =
        kept_call _ (tcpd_socket-Keeps sends from t fd)
    front_call-Wrote (some (from, bind fd bound)) p room =
        kept_call _ (tcpd_bind-Keeps sends from t fd bound)
    front_call-Wrote (some (from, accept fd)) p room =
        kept_call _ (tcpd_accept-Keeps sends from t fd)
    front_call-Wrote (some (from, recv args)) p room =
        kept_call _ (tcpd_recv-Keeps sends from t args)
    front_call-Wrote (some (from, connect args rand)) p room =
        tcpd_connect-Wrote k f (made ++ []) sends from args rand t p same
    front_call-Wrote (some (from, send none buf fresh)) p room =
        tcpd_send_no_arguments _ sends from fresh t buf
    front_call-Wrote (some (from, send (some (fd, len)) none fresh)) p room =
        tcpd_send_no_bytes _ sends from fresh t fd len
    front_call-Wrote (some (from, send (some (fd, len)) (some buf) fresh)) p room =
        tcpd_send-Wrote k f made sends from fd len buf fresh t p d room h
    front_call-Wrote (some (from, other)) p room = same

  module _ (sock timer_driver_socket : ℕ) where
    round-Wrote :
        (made : List (List ℕ)) (i : Inputs) (t : Tcpd)
        → Proper k i.front
        → DistinctFds t.connected_sockets
        → length (made ++ round_buffers k sock timer_driver_socket i t) < 2 ^ 32
        → Wrote k f made t
        → OnDone
            (Wrote k f (made ++ round_buffers k sock timer_driver_socket i t))
            (round sock timer_driver_socket i t)
    unfolding round_buffers
    round-Wrote made i t p d room h =
        round_keeps i (Wrote k f all) (Knows k f all) (Wrote-Kept all i) sock timer_driver_socket t
          (λ called.
            subst (λ b. OnDone (Wrote k f (made ++ choose b)) (front_call i.sends i.front t))
              (sym called)
              (front_call-Wrote made i.sends t d h i.front p
                (subst (λ b. length (made ++ choose b) < 2 ^ 32) called room)))
          (λ skipped.
            subst (λ b. Wrote k f (made ++ choose b) t) (sym skipped) (same made i.sends t d h))
      where
        all : List (List ℕ)
        all = made ++ round_buffers k sock timer_driver_socket i t

        choose : Bool → List (List ℕ)
        choose b = if b then call_buffers k i.front t else []

    -- The buffers of the rounds after one that has ended in `o`.
    later : List Inputs → Outcome Tcpd → List (List ℕ)
    later is o = elim o [ done t ↦ written k sock timer_driver_socket is t | exit code ↦ [] ]

    then_Wrote :
        (made more : List (List ℕ)) (is : List Inputs) (o : Outcome Tcpd)
        → ((t : Tcpd)
            → Accounts t
            → Wrote k f (made ++ more) t
            → length ((made ++ more) ++ written k sock timer_driver_socket is t) < 2 ^ 32
            → OnDone
                (Wrote k f ((made ++ more) ++ written k sock timer_driver_socket is t))
                (run sock timer_driver_socket is t))
        → OnDone (λ t. Accounts t × Wrote k f (made ++ more) t) o
        → length (made ++ (more ++ later is o)) < 2 ^ 32
        → OnDone (Wrote k f (made ++ (more ++ later is o))) (o >>= run sock timer_driver_socket is)
    unfolding later
    then_Wrote made more is (exit code) next h room = tt
    then_Wrote made more is (done t) next h room =
        subst (λ all. OnDone (Wrote k f all) (run sock timer_driver_socket is t)) whole
          (next t h.0 h.1 (subst (λ all. length all < 2 ^ 32) (sym whole) room))
      where
        whole :
            (made ++ more) ++ written k sock timer_driver_socket is t
            ≡ made ++ (more ++ written k sock timer_driver_socket is t)
        whole = append_assoc made more (written k sock timer_driver_socket is t)

    pub run-Wrote :
        (is : List Inputs) (made : List (List ℕ)) (t : Tcpd)
        → All (λ i. Proper k i.front) is
        → length (made ++ written k sock timer_driver_socket is t) < 2 ^ 32
        → Accounts t
        → Wrote k f made t
        → OnDone
            (Wrote k f (made ++ written k sock timer_driver_socket is t))
            (run sock timer_driver_socket is t)
    unfolding written run later
    run-Wrote [] made t p room a h = rw append-nil h
    run-Wrote (i ∷ is) made t p room a h =
        then_Wrote made more is (round sock timer_driver_socket i t)
          (λ t' a' h' room'. run-Wrote is (made ++ more) t' p.1 room' a' h')
          (OnDone-and Accounts (Wrote k f (made ++ more)) (round sock timer_driver_socket i t)
            (round-Accounts sock timer_driver_socket i t a)
            (round-Wrote made i t p.0 a.1.1 short h))
          room
      where
        more : List (List ℕ)
        more = round_buffers k sock timer_driver_socket i t

        short : length (made ++ more) < 2 ^ 32
        short = fewer made more (later is (round sock timer_driver_socket i t)) room
