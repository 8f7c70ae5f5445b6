-- ===== src/Tcpd/Loop/Stream.antt =====
-- What the readers of a session are sent over whole runs of the loop.
use mathlib.Core.List.{Sublist, sublist-append_left}
use mathlib.Core.List.Sublist as Sub
use network_proj.Prelude.{
  ℕ, ◌<◌, ◌^◌, ◌≡◌, ◌⊎◌, inl, inr, refl, sym, subst, Bool, true, ◌==◌, List, [], ◌∷◌, Option, none,
  some, All,
}
use network_proj.Net.{Addr, Outcome, done, exit, ◌>>=◌, OnDone, OnDone-map, OnDone-any}
use network_proj.Tcpd.Message.{Message, is_intact}
use network_proj.Tcpd.State.{AcceptedSocket, ConnectedSocket, Tcpd, Output}
use network_proj.Tcpd.Stream.{Promise, stream, delivered, One, Phase, Flow}
use network_proj.Tcpd.Stream.Quiet.{Quiet, Quiet-Flow}
use network_proj.Tcpd.Front.Stream.{
  tcpd_socket-Flow, tcpd_bind-Flow, tcpd_accept-Flow, tcpd_recv-Flow, tcpd_connect-Flow,
  tcpd_send-Flow,
}
use network_proj.Tcpd.Receiver.Stream.{Carries, Sound, Sound-Promise, stream_mono}
use network_proj.Tcpd.Receiver.Answers.{solve_recv_callback-Flow}
use network_proj.Tcpd.Receiver.Arrivals.{recv_data-Flow}
use network_proj.Tcpd.Receiver.Handover.{solve_accept_callback-Flow}
use network_proj.Tcpd.Sender.Stream.{recv_ack-Quiet, recv_timer-Quiet, solve_send_callback-Quiet}
use network_proj.Tcpd.Loop.Invariant.{Kept, round_keeps}
use network_proj.Tcpd.Loop.{
  Call, socket, bind, accept, recv, connect, send, other, Inputs, initial, front_call, round, run,
}
use network_proj.Tcpd.Loop.Fair.{Fair, FairRun}

module _ (reader : Addr → Bool) (k : ℕ) (S : List ℕ → AcceptedSocket → Type 0)
    (C : Message → Type 0) (W : List ℕ → ℕ → Type 0) (promise : Promise S C W) where
  abbrev Flows : Tcpd → Type 0
  Flows = Flow reader k S

  front_call-Flow :
      (sends : Output → Bool) (c : Option (Addr × Call)) (t : Tcpd)
      → ((from : Addr) (sockfd len : ℕ)
          → c ≡ some (from, recv (some (sockfd, len)))
          → (reader from ≡ (sockfd == k)) × (sockfd ≡ k → W (delivered reader t.sent) len))
      → Flows t
      → OnDone Flows (front_call sends c t)
  unfolding front_call
  front_call-Flow sends none t asked h = tt
  front_call-Flow sends (some (from, socket fd)) t asked h =
      tcpd_socket-Flow reader k S C W promise sends from t h fd
  front_call-Flow sends (some (from, bind fd bound)) t asked h =
      tcpd_bind-Flow reader k S C W promise sends from t h fd bound
  front_call-Flow sends (some (from, accept fd)) t asked h =
      tcpd_accept-Flow reader k S C W promise sends from t h fd
  front_call-Flow sends (some (from, recv args)) t asked h =
      tcpd_recv-Flow reader k S C W promise sends from t h args
        (λ sockfd len e. asked from sockfd len (rw e refl))
  front_call-Flow sends (some (from, connect args rand)) t asked h =
      tcpd_connect-Flow reader k S C W promise sends from t h args rand
  front_call-Flow sends (some (from, send args buf fresh)) t asked h =
      tcpd_send-Flow reader k S C W promise sends from t h args buf fresh
  front_call-Flow sends (some (from, other)) t asked h = h

  still_Flow : (t : Tcpd) → Flows t → (t' : Tcpd) → Quiet reader t t' → Flows t'
  still_Flow t h t' q = Quiet-Flow reader k S t t' q h

  Flow-Kept : (i : Inputs) (t : Tcpd) → Fair reader k C W i t → Kept i Flows (λ c. Unit {0})
  Flow-Kept i t0 fair = record {
    held = λ t h. nothing t.connected_sockets;
    data_kept = λ fd t h.
        recv_data-Flow reader k S C W promise i.sends fd (i.packages fd) t (fair.packages fd) h;
    ack_kept = λ c t u h.
        OnDone-map (Quiet reader t) Flows _ (still_Flow t h)
          (recv_ack-Quiet reader i.sends c (i.acks c.socket_fd).0 (i.acks c.socket_fd).1 t);
    timer_kept = λ t h.
        OnDone-map (Quiet reader t) Flows _ (still_Flow t h) (recv_timer-Quiet reader i.expired t);
    accept_kept = solve_accept_callback-Flow reader k S i.sends;
    recv_kept = solve_recv_callback-Flow reader k S C W promise i.sends;
    send_kept = λ t h.
        OnDone-map (Quiet reader t) Flows _ (still_Flow t h)
          (solve_send_callback-Quiet reader i.sends i.clock t);
  }
    where
      nothing : (l : List ConnectedSocket) → All (λ c. Unit {0}) l
      nothing [] = tt
      nothing (c ∷ l) = (tt, nothing l)

  module _ (sock timer_driver_socket : ℕ) where
    round-Flow :
        (i : Inputs) (t : Tcpd)
        → Fair reader k C W i t
        → Flows t
        → OnDone Flows (round sock timer_driver_socket i t)
    round-Flow i t fair h =
        round_keeps i Flows (λ c. Unit {0}) (Flow-Kept i t fair) sock timer_driver_socket t
          (λ called. front_call-Flow i.sends i.front t fair.asked h) (λ skipped. h)

    then_Flow :
        (is : List Inputs) (o : Outcome Tcpd)
        → ((t : Tcpd)
            → FairRun reader k C W sock timer_driver_socket is t
            → Flows t
            → OnDone Flows (run sock timer_driver_socket is t))
        → OnDone (FairRun reader k C W sock timer_driver_socket is) o
        → OnDone Flows o
        → OnDone Flows (o >>= run sock timer_driver_socket is)
    then_Flow is (exit code) next fair h = tt
    then_Flow is (done t) next fair h = next t fair h

    run-Flow :
        (is : List Inputs) (t : Tcpd)
        → FairRun reader k C W sock timer_driver_socket is t
        → Flows t
        → OnDone Flows (run sock timer_driver_socket is t)
    unfolding run
    run-Flow [] t fair h = h
    run-Flow (i ∷ is) t fair h =
        then_Flow is (round sock timer_driver_socket i t) (run-Flow is) fair.1
          (round-Flow i t fair.0 h)

    initial_Flow : Flows initial
    unfolding delivered
    initial_Flow = record { asks = tt; idle = tt; phase = inl (tt, refl, inl tt) }

    -- What is said of the socket of the session is said of it after a run, with the bytes that its
    -- readers have been sent; or it is not accepted, and they have been sent nothing.
    pub run_promises :
        (is : List Inputs)
        → FairRun reader k C W sock timer_driver_socket is initial
        → OnDone
            (λ t.
              (delivered reader t.sent ≡ [])
              ⊎ One k (S (delivered reader t.sent)) t.accepted_sockets)
            (run sock timer_driver_socket is initial)
    run_promises is fair =
        OnDone-map Flows _ (run sock timer_driver_socket is initial) (λ t h. by_phase t h.phase)
          (run-Flow is initial fair initial_Flow)
      where
        by_phase :
            (t : Tcpd)
            → Phase k S (delivered reader t.sent) t.accepted_sockets t.waiting_accept_sockets
            → (delivered reader t.sent ≡ [])
              ⊎ One k (S (delivered reader t.sent)) t.accepted_sockets
        by_phase t (inl (a, e, w)) = inl e
        by_phase t (inr (a, w)) = inr a

-- What a round may read whatever the state: an intact package of session `k` is one of the `limit`
-- packages that the sender made, with the bytes `source` under its number; and the processes that
-- `reader` tells are those that ask for bytes of the session.
pub record Honest (reader : Addr → Bool) (k : ℕ) (source : ℕ → List ℕ) (limit : ℕ) (i : Inputs)
    : Type 0 where
  pub packages :
      (fd : ℕ) (m : Message) (remote : Addr)
      → i.packages fd ≡ some (m, remote)
      → is_intact m ≡ true
      → m.session ≡ k
      → Carries source limit m
  pub asked :
      (from : Addr) (sockfd len : ℕ)
      → i.front ≡ some (from, recv (some (sockfd, len)))
      → reader from ≡ (sockfd == k)

module _ (reader : Addr → Bool) (k : ℕ) (source : ℕ → List ℕ) (limit : ℕ) where
  Honest-FairRun :
      (sock timer_driver_socket : ℕ) (is : List Inputs) (t : Tcpd)
      → All (Honest reader k source limit) is
      → FairRun reader k (Carries source limit) (λ d len. Unit {0}) sock timer_driver_socket is t
  Honest-FairRun sock timer_driver_socket [] t h = tt
  Honest-FairRun sock timer_driver_socket (i ∷ is) t h = (
    record {
      packages = h.0.packages;
      asked = λ from sockfd len e. (h.0.asked from sockfd len e, λ own. tt);
    },
    OnDone-any _ (round sock timer_driver_socket i t)
        (λ t'. Honest-FairRun sock timer_driver_socket is t' h.1),
  )

  One-delivered :
      (d : List ℕ) (l : List AcceptedSocket)
      → One k (Sound source limit d) l
      → Sublist d (stream source limit)
  One-delivered d [] h = elim h [ ]
  One-delivered d (s ∷ l) (inl own) =
      Sub.trans (sublist-append_left d s.recv_buffer)
        (Sub.trans own.1.received (stream_mono source s.base limit own.1.below))
  One-delivered d (s ∷ l) (inr later) = One-delivered d l later.1

  -- Whatever the network loses, repeats, reorders or damages, and whatever other connections, the
  -- front processes and the timer process do: after any number of rounds the bytes that the
  -- processes that receive from a session have been sent are bytes of that session's packages, in
  -- their order and none twice (some may be missing). The session has fewer than 2 ^ 32 packages;
  -- an intact package of the session that arrives is one of them, and its number and its body
  -- fit; these processes and no others ask for the session's bytes.
  pub run-delivered :
      (sock timer_driver_socket : ℕ) (is : List Inputs)
      → limit < 2 ^ 32
      → All (Honest reader k source limit) is
      → OnDone
          (λ t. Sublist (delivered reader t.sent) (stream source limit))
          (run sock timer_driver_socket is initial)
  run-delivered sock timer_driver_socket is wide honest =
      OnDone-map _ _ (run sock timer_driver_socket is initial) (λ t. part t)
        (run_promises reader k (Sound source limit) (Carries source limit) (λ d len. Unit {0})
          (Sound-Promise source limit wide) sock timer_driver_socket is
          (Honest-FairRun sock timer_driver_socket is initial honest))
    where
      part :
          (t : Tcpd)
          → (delivered reader t.sent ≡ [])
            ⊎ One k (Sound source limit (delivered reader t.sent)) t.accepted_sockets
          → Sublist (delivered reader t.sent) (stream source limit)
      part t (inl e) =
          subst (λ d. Sublist d (stream source limit)) (sym e)
            (sublist-append_left [] (stream source limit))
      part t (inr h) = One-delivered (delivered reader t.sent) t.accepted_sockets h
