-- ===== src/Tcpd/Front/Frame.antt =====
-- What SOCKET, BIND, ACCEPT and RECV leave alone: the table and the counter of the
-- sending side, and the packages that have been sent.
use network_proj.Prelude.{
  ℕ, ◌≡◌, refl, Option, none, some, Bool, true, false, if_cases, ◌∷◌, ◌∙◌, arith,
}
use network_proj.Net.{Addr, exit, OnDone}
use network_proj.Tcpd.State.{AcceptedSocket, Tcpd, Output, reply, sendto, find_accepted, posted}
use network_proj.Tcpd.Front.{
  minus, AcceptResult, added, already, not_found, accept_end, recv_found, tcpd_socket, tcpd_bind,
  tcpd_accept, tcpd_recv,
}

abbrev pub Keeps : Tcpd → Tcpd → Type 0
Keeps t t' =
    (t'.connected_sockets ≡ t.connected_sockets)
    × (t'.in_buffer_packages ≡ t.in_buffer_packages)
    × (posted t'.sent ≡ posted t.sent)

module _ (sends : Output → Bool) where
  pub sendto-Keeps :
      (code : ℕ) (out : Output) (t t' : Tcpd)
      → posted (out ∷ t'.sent) ≡ posted t'.sent
      → Keeps t t'
      → OnDone (Keeps t) (sendto sends code out t')
  unfolding sendto
  sendto-Keeps code out t t' e h =
      if_cases (OnDone (Keeps t)) (sends out) _ (exit code) (λ went. (h.0, h.1, e ∙ h.2))
        (λ failed. tt)

  module _ (from : Addr) (t : Tcpd) where
    pub tcpd_socket-Keeps : (fd : Option ℕ) → OnDone (Keeps t) (tcpd_socket sends from fd t)
    unfolding tcpd_socket
    tcpd_socket-Keeps none = tt
    tcpd_socket-Keeps (some fd) = sendto-Keeps 4 _ t t refl (refl, refl, refl)

    pub tcpd_bind-Keeps :
        (fd : Option ℕ) (bound : Bool) → OnDone (Keeps t) (tcpd_bind sends from fd bound t)
    unfolding tcpd_bind
    tcpd_bind-Keeps none bound = tt
    tcpd_bind-Keeps (some fd) false = tt
    tcpd_bind-Keeps (some fd) true = sendto-Keeps 4 _ t _ refl (refl, refl, refl)

    ended_Keeps :
        (r : AcceptResult) (t' : Tcpd) → Keeps t t' → OnDone (Keeps t) (accept_end sends from r t')
    unfolding accept_end
    ended_Keeps added t' h = h
    ended_Keeps already t' h = sendto-Keeps 4 _ t t' refl h
    ended_Keeps not_found t' h = sendto-Keeps 4 _ t t' refl h

    pub tcpd_accept-Keeps : (fd : Option ℕ) → OnDone (Keeps t) (tcpd_accept sends from fd t)
    unfolding tcpd_accept
    tcpd_accept-Keeps none = tt
    tcpd_accept-Keeps (some fd) = ended_Keeps _ _ (refl, refl, refl)

    found_Keeps :
        (len : ℕ) (o : Option AcceptedSocket) → OnDone (Keeps t) (recv_found sends from len o t)
    unfolding recv_found
    found_Keeps len none = sendto-Keeps 4 _ t t refl (refl, refl, refl)
    found_Keeps len (some s) =
        ground (arith, sendto-Keeps 4 (reply from (minus 3)) t t refl (refl, refl, refl))

    pub tcpd_recv-Keeps : (args : Option (ℕ × ℕ)) → OnDone (Keeps t) (tcpd_recv sends from args t)
    unfolding tcpd_recv
    tcpd_recv-Keeps none = tt
    tcpd_recv-Keeps (some (sockfd, len)) = ground (
      arith,
      sendto-Keeps 4 (reply from 0) t t refl (refl, refl, refl),
      found_Keeps len (find_accepted sockfd t.accepted_sockets),
    )
