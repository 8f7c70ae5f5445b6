-- ===== src/Tcpd/Sender/Limit.antt =====
-- What the sender's handlers do to an upper bound of `InBufferPackages`: none of them raises it.
use network_proj.Prelude.{ℕ, ap, Bool, List, Option, none, some, arith}
use network_proj.Prelude.Int.{pos, pos_part, neg_part, ◌≤ℤ◌, int_laws}
use network_proj.Net.{Outcome, done, exit, OnDone}
use network_proj.Timer.Request.{TimerExpired}
use network_proj.Tcpd.Message.{Message, Ack}
use network_proj.Tcpd.Rto.{measure}
use network_proj.Tcpd.State.{ConnectedSocket, Tcpd, Output, sendto}
use network_proj.Tcpd.Sender.{
  unlink, acknowledged, timer_found, find_session, recv_ack, recv_timer, solve_send_callback,
}
use network_proj.Tcpd.Sender.Sweep.{Advances, solve_send_callback-Advances}

abbrev pub AtMost : ℕ → Tcpd → Type 0
AtMost n t = t.in_buffer_packages ≤ℤ pos n

acknowledged-AtMost :
    (n : ℕ) (c : ConnectedSocket) (o : Option (Message × List Message)) (t : Tcpd)
    → AtMost n t
    → AtMost n (acknowledged c o t)
acknowledged-AtMost n c none t h = h
acknowledged-AtMost n c (some (m, rest)) t h = omega int_laws

found_AtMost :
    (n : ℕ) (e : TimerExpired) (o : Option ConnectedSocket) (t : Tcpd)
    → AtMost n t
    → OnDone (AtMost n) (timer_found e o t)
unfolding timer_found
found_AtMost n e none t h = tt
found_AtMost n e (some c) t h = h

pub recv_timer-AtMost :
    (n : ℕ) (e : Option TimerExpired) (t : Tcpd) → AtMost n t → OnDone (AtMost n) (recv_timer e t)
unfolding recv_timer
recv_timer-AtMost n none t h = tt
recv_timer-AtMost n (some e) t h = found_AtMost n e (find_session e.session t.connected_sockets) t h

module _ (sends : Output → Bool) where
  pub sendto-AtMost :
      (n code : ℕ) (out : Output) (t : Tcpd)
      → AtMost n t
      → OnDone (AtMost n) (sendto sends code out t)
  unfolding sendto
  sendto-AtMost n code out t h = ground arith

  pub recv_ack-AtMost :
      (n : ℕ) (c : ConnectedSocket) (now : ℕ) (a : Option Ack) (t : Tcpd)
      → AtMost n t
      → OnDone (AtMost n) (recv_ack sends c now a t)
  unfolding recv_ack
  recv_ack-AtMost n c now none t h = tt
  recv_ack-AtMost n c now (some a) t h = ground (
    arith,
    acknowledged-AtMost n c (unlink a.session a.seq_num c.packages)
        (record t { estimator = measure now t.estimator }) h,
  )

  solved_AtMost :
      (n : ℕ) (t : Tcpd) (o : Outcome Tcpd) → Advances sends t o → AtMost n t → OnDone (AtMost n) o
  solved_AtMost n t (done t') a h = omega (arith, ap pos_part a.2, ap neg_part a.2)
  solved_AtMost n t (exit code) a h = tt

  pub solve_send_callback-AtMost :
      (clock : List Output → ℕ) (n : ℕ) (t : Tcpd)
      → AtMost n t
      → OnDone (AtMost n) (solve_send_callback sends clock t)
  solve_send_callback-AtMost clock n t h =
      solved_AtMost n t (solve_send_callback sends clock t)
        (solve_send_callback-Advances sends clock t) h
