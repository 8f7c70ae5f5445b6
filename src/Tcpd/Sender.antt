-- ===== src/Tcpd/Sender.antt =====
-- Proj1/tcpd.c, the sending side: `RecvAck`, `RecvTimer` and `SolveSendCallback`.
pub mod Stream
pub mod Written
pub mod Count
pub mod Unlink
pub mod Advance
pub mod Sweep
pub mod Ledger
pub mod Limit
pub mod Retain
pub mod Stall
pub mod Idle
pub mod Standing
use network_proj.Prelude.{
  ℕ, ◌+◌, List, [], ◌∷◌, ◌++◌, Option, none, some, Bool, ◌&&◌, ◌==◌, ltb, leb, if◌then◌else◌,
}
use network_proj.Prelude.Int.{pos, ◌-ℤ◌}
use network_proj.Net.{Outcome, done, exit, ◌>>=◌}
use network_proj.Timer.Request.{TimerExpired}
use network_proj.Tcpd.Message.{Message, Ack, max_buffer_packages, is_ack_intact}
use network_proj.Tcpd.Rto.{Estimator, measure, estimate, timeout}
use network_proj.Tcpd.State.{
  ConnectedSocket, Tcpd, Output, send_message, start_timer, cancel_timer, notify, update_connected,
}

-- The test of both searches: `Session` and `SeqNum` are those asked for.
abbrev pub names : ℕ → ℕ → Message → Bool
names session seq m = (m.session == session) && (m.seq_num == seq)

-- The first package of that name is unlinked: it, and the others.
pub unlink : ℕ → ℕ → List Message → Option (Message × List Message)
unlink session seq [] = none
unlink session seq (m ∷ l) =
    if names session seq m
    then some (m, l)
    else elim (unlink session seq l) [ none ↦ none | some (found, r) ↦ some (found, m ∷ r) ]

-- The effect of an acknowledgement on the window and on `InBufferPackages`.
abbrev pub acknowledged : ConnectedSocket → Option (Message × List Message) → Tcpd → Tcpd
acknowledged c none t = t
acknowledged c (some (m, rest)) t = record t {
  connected_sockets = update_connected (record c { packages = rest }) t.connected_sockets;
  in_buffer_packages = t.in_buffer_packages -ℤ pos 1;
}

-- An expired timer moves its package behind those that wait to be sent.
abbrev pub moved : ConnectedSocket → Option (Message × List Message) → ConnectedSocket
moved c none = c
moved c (some (m, rest)) = record c {
  packages = rest;
  pending_packages = c.pending_packages ++ m ∷ [];
}

pub expire_package : ℕ → ℕ → ConnectedSocket → ConnectedSocket
expire_package session seq c = moved c (unlink session seq c.packages)

-- The iteration of `RecvTimer`: the first struct of that session.
pub find_session : ℕ → List ConnectedSocket → Option ConnectedSocket
find_session session [] = none
find_session session (c ∷ l) = if c.session == session then some c else find_session session l

pub timer_found : TimerExpired → Option ConnectedSocket → Tcpd → Outcome Tcpd
timer_found e none t = exit 5
timer_found e (some c) t = done (record t {
  connected_sockets = update_connected (expire_package e.session e.seq_num c) t.connected_sockets;
})

-- `RecvTimer`; `none` is a `recvfrom` that failed.
pub recv_timer : Option TimerExpired → Tcpd → Outcome Tcpd
unfolding timer_found
recv_timer none t = exit 5
recv_timer (some e) t = timer_found e (find_session e.session t.connected_sockets) t

-- `MinSeq` starts at this value, whatever the window holds.
abbrev pub min_seq_start : ℕ
min_seq_start = 100000000

unfoldable pub min_seq_of : ℕ → List Message → ℕ
min_seq_of least [] = least
min_seq_of least (m ∷ l) = min_seq_of (if ltb m.seq_num least then m.seq_num else least) l

-- What the loop over the pending packages of one socket changes.
pub record Sending : Type 0 where
  pub packages : List Message
  pub estimator : Estimator
  pub sent : List Output

-- `sends` says which calls of `sendto` succeed, and `clock` what `gettimeofday` reads when some
-- outputs have been made.
module _ (sends : Output → Bool) where
  -- `RecvAck` on an acknowledgement that the socket has received at `now`. The round trip is
  -- measured before the package is looked at.
  pub recv_ack : ConnectedSocket → ℕ → Option Ack → Tcpd → Outcome Tcpd
  recv_ack c now none t = exit 5
  recv_ack c now (some a) t =
      let measured = record t { estimator = measure now t.estimator } in
      let t' = acknowledged c (unlink a.session a.seq_num c.packages) measured in
      if is_ack_intact a
      then done (record t' { sent = notify sends (cancel_timer a.session a.seq_num) t'.sent })
      else done measured

  module _ (clock : List Output → ℕ) (fd min_seq : ℕ) where
    -- One package goes out: into the window, with a timer of the present estimate.
    abbrev pub transmitted : Message → Sending → Sending
    transmitted m w = record {
      packages = w.packages ++ m ∷ [];
      estimator = estimate (clock (send_message fd m ∷ w.sent)) w.estimator;
      sent =
          notify sends (start_timer m.session m.seq_num (timeout w.estimator))
            (send_message fd m ∷ w.sent);
    }

    -- The loop over the pending packages; those that are out of the window stay, in order.
    unfoldable pub send_pending : List Message → Sending → Outcome (List Message × Sending)
    send_pending [] w = done ([], w)
    send_pending (m ∷ l) w =
        let skipped : Outcome (List Message × Sending) =
          send_pending l w >>= (λ (left, w'). done (m ∷ left, w')) in
        let going = send_pending l (transmitted m w) in
        if leb (min_seq + max_buffer_packages) m.seq_num
        then skipped
        else if sends (send_message fd m)
        then going
        else exit 5

  module _ (clock : List Output → ℕ) where
    -- `SolveSendCallback` at one socket of the table.
    unfoldable pub send_callback :
        ConnectedSocket
        → Estimator
        → List Output
        → Outcome (ConnectedSocket × Estimator × List Output)
    send_callback c e sent =
        let least = min_seq_of min_seq_start c.packages in
        send_pending clock c.socket_fd least c.pending_packages
          (record { packages = c.packages; estimator = e; sent = sent })
        >>= (λ (left, w). done (
          record c { min_seq = least; packages = w.packages; pending_packages = left },
          w.estimator,
          w.sent,
        ))

    unfoldable pub send_callbacks :
        List ConnectedSocket
        → Estimator
        → List Output
        → Outcome (List ConnectedSocket × Estimator × List Output)
    send_callbacks [] e sent = done ([], e, sent)
    send_callbacks (c ∷ l) e sent = do
      (c', e', sent') ← send_callback c e sent
      (l', e'', sent'') ← send_callbacks l e' sent'
      done (c' ∷ l', e'', sent'')

    unfoldable pub solve_send_callback : Tcpd → Outcome Tcpd
    solve_send_callback t = do
      (l, e, sent) ← send_callbacks t.connected_sockets t.estimator t.sent
      done (record t { connected_sockets = l; estimator = e; sent = sent })
