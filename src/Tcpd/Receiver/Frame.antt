-- ===== src/Tcpd/Receiver/Frame.antt =====
-- What the receiving side leaves alone: the table and the counter of the sending
-- side, and the packages that have been sent.
use network_proj.Prelude.{
  ℕ, ◌≡◌, arith, refl, ◌∙◌, List, [], ◌∷◌, ◌++◌, Option, none, some, Bool, if◌then◌else◌,
}
use network_proj.Net.{Addr, done, OnDone, OnDone-if, OnDone-bind}
use network_proj.Tcpd.Message.{Message, is_intact}
use network_proj.Tcpd.State.{
  BindedSocket, AcceptedSocket, Tcpd, Output, send_ack, sendto, find_accepted, posted,
}
use network_proj.Tcpd.Front.Frame.{Keeps, sendto-Keeps}
use network_proj.Tcpd.Receiver.{
  new_ack, store_waiting, store_accepted, store, recv_data, accept_one, after_accept,
  accept_callbacks, solve_accept_callback, take_waiting, recv_callback, recv_callbacks,
  solve_recv_callback,
}

waiting_Keeps :
    (fd : ℕ) (m : Message) (o : Option AcceptedSocket) (t : Tcpd) → Keeps t (store_waiting fd m o t)
unfolding store_waiting
waiting_Keeps fd m none t = (refl, refl, refl)
waiting_Keeps fd m (some s) t = (refl, refl, refl)

accepted_Keeps :
    (fd : ℕ) (m : Message) (o : Option AcceptedSocket) (t : Tcpd)
    → Keeps t (store_accepted fd m o t)
unfolding store_accepted
accepted_Keeps fd m none t = waiting_Keeps fd m _ t
accepted_Keeps fd m (some s) t = (refl, refl, refl)

module _ (sends : Output → Bool) where
  pub recv_data-Keeps :
      (fd : ℕ) (p : Option (Message × Addr)) (t : Tcpd) → OnDone (Keeps t) (recv_data sends fd p t)
  unfolding recv_data store
  recv_data-Keeps fd none t = tt
  recv_data-Keeps fd (some (m, remote)) t =
      OnDone-if (Keeps t) (is_intact m)
        (sendto sends 5 (send_ack fd (new_ack m remote)) (store fd m t)) (done t)
        (sendto-Keeps sends 5 _ t _ refl
          (accepted_Keeps fd m (find_accepted m.session t.accepted_sockets) t))
        (refl, refl, refl)

  one_Keeps :
      (b : BindedSocket) (w : Option (AcceptedSocket × List AcceptedSocket)) (t : Tcpd)
      → OnDone (Keeps t) (accept_one sends b w t)
  unfolding accept_one
  one_Keeps b none t = (refl, refl, refl)
  one_Keeps b (some (s, rest)) t =
      OnDone-bind (Keeps t) (Keeps t) _ _ (sendto-Keeps sends 4 _ t t refl (refl, refl, refl))
        (λ t' h. h)

  callbacks_Keeps :
      (seen l : List BindedSocket) (t t' : Tcpd)
      → Keeps t t'
      → OnDone (Keeps t) (accept_callbacks sends seen l t')
  unfolding accept_callbacks
  callbacks_Keeps seen [] t t' h = h
  callbacks_Keeps seen (b ∷ l) t t' h =
      OnDone-bind (Keeps t') (Keeps t) (accept_one sends b w t')
        (accept_callbacks sends (seen ++ after_accept sends b w ∷ []) l) (one_Keeps b w t')
        (λ t'' h'.
          callbacks_Keeps (seen ++ after_accept sends b w ∷ []) l t t''
            (h'.0 ∙ h.0, h'.1 ∙ h.1, h'.2 ∙ h.2))
    where
      w : Option (AcceptedSocket × List AcceptedSocket)
      w = if b.accepting then take_waiting b.socket_fd t'.waiting_accept_sockets else none

  pub solve_accept_callback-Keeps : (t : Tcpd) → OnDone (Keeps t) (solve_accept_callback sends t)
  unfolding solve_accept_callback
  solve_accept_callback-Keeps t =
      elim t.waiting_accept_sockets
        as (λ w.
          OnDone (Keeps t)
            (elim w [ [] ↦ done t | s ∷ l ↦ accept_callbacks sends [] t.binded_sockets t ])) [
              | [] ↦ (refl, refl, refl)
              | s ∷ l ↦ callbacks_Keeps [] t.binded_sockets t t (refl, refl, refl)
            ]

  answered_Posts :
      (s : AcceptedSocket) (sent : List Output)
      → OnDone (λ r. posted r.1 ≡ posted sent) (recv_callback sends s sent)
  unfolding recv_callback
  answered_Posts s sent = ground arith

  answers_Post :
      (l : List AcceptedSocket) (sent : List Output)
      → OnDone (λ r. posted r.1 ≡ posted sent) (recv_callbacks sends l sent)
  unfolding recv_callbacks
  answers_Post [] sent = refl
  answers_Post (s ∷ l) sent =
      OnDone-bind (λ r. posted r.1 ≡ posted sent) (λ r. posted r.1 ≡ posted sent)
        (recv_callback sends s sent) _ (answered_Posts s sent)
        (λ r e.
          OnDone-bind (λ q. posted q.1 ≡ posted r.1) (λ q. posted q.1 ≡ posted sent)
            (recv_callbacks sends l r.1) _ (answers_Post l r.1) (λ q e'. e' ∙ e))

  pub solve_recv_callback-Keeps : (t : Tcpd) → OnDone (Keeps t) (solve_recv_callback sends t)
  unfolding solve_recv_callback
  solve_recv_callback-Keeps t =
      OnDone-bind (λ r. posted r.1 ≡ posted t.sent) (Keeps t)
        (recv_callbacks sends t.accepted_sockets t.sent) _ (answers_Post t.accepted_sockets t.sent)
        (λ r e. (refl, refl, e))
