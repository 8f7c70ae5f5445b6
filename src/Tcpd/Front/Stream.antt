-- ===== src/Tcpd/Front/Stream.antt =====
-- The six calls of a front process: only RECV touches the receiving side, and it only notes the
-- request of a reader.
use network_proj.Prelude.{
  ℕ, ◌≡◌, ◌≢◌, inl, inr, refl, sym, ap, ◌∙◌, subst, Bool, true, false, ltb, ◌==◌, if_cases, List,
  Option, none, some, arith,
}
use network_proj.Net.{Addr, exit, OnDone}
use network_proj.Tcpd.Message.{Message, buf_len}
use network_proj.Tcpd.State.{
  AcceptedSocket, ConnectedSocket, Tcpd, Output, reply, sendto, find_accepted, update_accepted,
  find_connected,
}
use network_proj.Tcpd.Front.{
  minus, AcceptResult, added, already, not_found, accept_end, recv_found, send_found, send_body,
  tcpd_socket, tcpd_bind, tcpd_accept, tcpd_recv, tcpd_connect, tcpd_send,
}
use network_proj.Tcpd.Stream.{Promise, delivered, Asks, Phase, Flow}
use network_proj.Tcpd.Stream.Table.{
  find_accepted-session, find_accepted-All, update_accepted-All, One-find, update-One,
}
use network_proj.Tcpd.Stream.Quiet.{Quiet, Quiet-Flow, sendto-Flow}

module _ (reader : Addr → Bool) (k : ℕ) (S : List ℕ → AcceptedSocket → Type 0)
    (C : Message → Type 0) (W : List ℕ → ℕ → Type 0) (promise : Promise S C W)
    (sends : Output → Bool) (from : Addr) (t : Tcpd) (h : Flow reader k S t) where
  -- A state that differs from `t` in other tables, and then the answer.
  replied :
      (x : ℕ) (t' : Tcpd)
      → Quiet reader t t'
      → OnDone (Flow reader k S) (sendto sends 4 (reply from x) t')
  replied x t' q =
      sendto-Flow reader k S sends 4 (reply from x) t' (unfold delivered in refl)
        (Quiet-Flow reader k S t t' q h)

  pub tcpd_socket-Flow : (fd : Option ℕ) → OnDone (Flow reader k S) (tcpd_socket sends from fd t)
  unfolding tcpd_socket
  tcpd_socket-Flow none = tt
  tcpd_socket-Flow (some fd) = replied fd t (refl, refl, refl)

  pub tcpd_bind-Flow :
      (fd : Option ℕ) (bound : Bool) → OnDone (Flow reader k S) (tcpd_bind sends from fd bound t)
  unfolding tcpd_bind
  tcpd_bind-Flow none bound = tt
  tcpd_bind-Flow (some fd) false = tt
  tcpd_bind-Flow (some fd) true = replied 0 _ (refl, refl, refl)

  ended_Flow :
      (r : AcceptResult) (t' : Tcpd)
      → Quiet reader t t'
      → OnDone (Flow reader k S) (accept_end sends from r t')
  unfolding accept_end
  ended_Flow added t' q = Quiet-Flow reader k S t t' q h
  ended_Flow already t' q = replied (minus 1) t' q
  ended_Flow not_found t' q = replied (minus 1) t' q

  pub tcpd_accept-Flow : (fd : Option ℕ) → OnDone (Flow reader k S) (tcpd_accept sends from fd t)
  unfolding tcpd_accept
  tcpd_accept-Flow none = tt
  tcpd_accept-Flow (some fd) = ended_Flow _ _ (refl, refl, refl)

  pub tcpd_connect-Flow :
      (args : Option (ℕ × Addr)) (rand : ℕ)
      → OnDone (Flow reader k S) (tcpd_connect sends from args rand t)
  unfolding tcpd_connect
  tcpd_connect-Flow none rand = tt
  tcpd_connect-Flow (some (fd, addr)) rand = replied 0 _ (refl, refl, refl)

  sent_Flow :
      (len : ℕ) (buf : List ℕ) (fresh : Message) (o : Option ConnectedSocket)
      → OnDone (Flow reader k S) (send_found sends from len buf fresh o t)
  unfolding send_found
  sent_Flow len buf fresh none = tt
  sent_Flow len buf fresh (some c) = replied _ _ (refl, refl, refl)

  pub tcpd_send-Flow :
      (args : Option (ℕ × ℕ)) (buf : Option (List ℕ)) (fresh : Message)
      → OnDone (Flow reader k S) (tcpd_send sends from args buf fresh t)
  unfolding tcpd_send send_body
  tcpd_send-Flow none buf fresh = tt
  tcpd_send-Flow (some (fd, len)) none fresh =
      if_cases (OnDone (Flow reader k S)) (ltb buf_len len) (exit 5) (exit 4) (λ e. tt) (λ e. tt)
  tcpd_send-Flow (some (fd, len)) (some buf) fresh =
      if_cases (OnDone (Flow reader k S)) (ltb buf_len len) (exit 5) _ (λ e. tt)
        (λ e. sent_Flow len buf fresh (find_connected fd t.connected_sockets))

  -- The request of a process from which session `sockfd` is read.
  module _ (sockfd len : ℕ) (reads : reader from ≡ (sockfd == k)) (s : AcceptedSocket)
      (found : find_accepted sockfd t.accepted_sockets ≡ some s) (free : s.receiving_length ≡ 0)
      (wanted : sockfd ≡ k → W (delivered reader t.sent) len) where
    asking : AcceptedSocket
    asking = record s { receiving_length = len; receiving_addr = from }

    asking_Flow :
        Flow reader k S (record t { accepted_sockets = update_accepted asking t.accepted_sockets })
    unfolding asking
    asking_Flow = record {
      asks =
          update_accepted-All (Asks reader k) asking t.accepted_sockets
            (inr (reads ∙ ap (λ q. q == k) (sym same))) h.asks;
      idle = h.idle;
      phase = by_phase h.phase;
    }
      where
        same : s.session ≡ sockfd
        same = find_accepted-session sockfd s t.accepted_sockets found

        by_phase :
            Phase k S (delivered reader t.sent) t.accepted_sockets t.waiting_accept_sockets
            → Phase k S
                (delivered reader t.sent)
                (update_accepted asking t.accepted_sockets)
                t.waiting_accept_sockets
        by_phase (inl (a, e, w)) = inl (
          update_accepted-All (λ x. x.session ≢ k) asking t.accepted_sockets
              (find_accepted-All (λ x. x.session ≢ k) sockfd s t.accepted_sockets found a) a,
          e,
          w,
        )
        by_phase (inr (a, w)) = inr (
          update-One k (S (delivered reader t.sent)) asking t.accepted_sockets
              (λ own.
                promise.asking (delivered reader t.sent) s from len (wanted (sym same ∙ own)) free (
                  One-find k (S (delivered reader t.sent)) s t.accepted_sockets
                    (subst (λ q. find_accepted q t.accepted_sockets ≡ some s) (sym same ∙ own)
                      found)
                    a))
              a,
          w,
        )

  found_Flow :
      (sockfd len : ℕ) (o : Option AcceptedSocket)
      → reader from ≡ (sockfd == k)
      → (sockfd ≡ k → W (delivered reader t.sent) len)
      → find_accepted sockfd t.accepted_sockets ≡ o
      → OnDone (Flow reader k S) (recv_found sends from len o t)
  unfolding recv_found
  found_Flow sockfd len none reads wanted found = replied (minus 2) t (refl, refl, refl)
  found_Flow sockfd len (some s) reads wanted found =
      if_cases (OnDone (Flow reader k S)) (s.receiving_length == 0) _ _
        (λ free. unfold asking in asking_Flow sockfd len reads s found (ground arith) wanted)
        (λ busy. replied (minus 3) t (refl, refl, refl))

  pub tcpd_recv-Flow :
      (args : Option (ℕ × ℕ))
      → ((sockfd len : ℕ)
          → args ≡ some (sockfd, len)
          → (reader from ≡ (sockfd == k)) × (sockfd ≡ k → W (delivered reader t.sent) len))
      → OnDone (Flow reader k S) (tcpd_recv sends from args t)
  unfolding tcpd_recv
  tcpd_recv-Flow none reads = tt
  tcpd_recv-Flow (some (sockfd, len)) reads =
      if_cases (OnDone (Flow reader k S)) (len == 0) _ _ (λ nothing. replied 0 t (refl, refl, refl))
        (λ some_bytes.
          found_Flow sockfd len (find_accepted sockfd t.accepted_sockets) (reads sockfd len refl).0
            (reads sockfd len refl).1 refl)
