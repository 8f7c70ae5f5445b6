-- ===== src/Tcpd/Front/Limit.antt =====
-- What SEND and CONNECT do to an upper bound of `InBufferPackages`.
use network_proj.Prelude.{ℕ, ◌+◌, Bool, List, Option, none, some, arith}
use network_proj.Prelude.Int.{int_laws}
use network_proj.Net.{Addr, OnDone}
use network_proj.Tcpd.Message.{Message}
use network_proj.Tcpd.State.{ConnectedSocket, Tcpd, Output, reply, find_connected}
use network_proj.Tcpd.Front.{send_found, send_body, tcpd_send, tcpd_connect}
use network_proj.Tcpd.Sender.Limit.{AtMost, sendto-AtMost}

module _ (sends : Output → Bool) (from : Addr) (n : ℕ) (t : Tcpd) where
  pub tcpd_connect-AtMost :
      (args : Option (ℕ × Addr)) (rand : ℕ)
      → AtMost n t
      → OnDone (AtMost n) (tcpd_connect sends from args rand t)
  unfolding tcpd_connect
  tcpd_connect-AtMost none rand h = tt
  tcpd_connect-AtMost (some (fd, addr)) rand h = sendto-AtMost sends n 4 (reply from 0) _ h

  found_AtMost :
      (len : ℕ) (buf : List ℕ) (fresh : Message) (o : Option ConnectedSocket)
      → AtMost n t
      → OnDone (AtMost (n + 1)) (send_found sends from len buf fresh o t)
  unfolding send_found
  found_AtMost len buf fresh none h = tt
  found_AtMost len buf fresh (some c) h = sendto-AtMost sends (n + 1) 4 _ _ (omega int_laws)

  body_AtMost :
      (fd len : ℕ) (buf : Option (List ℕ)) (fresh : Message)
      → AtMost n t
      → OnDone (AtMost (n + 1)) (send_body sends from fd len buf fresh t)
  unfolding send_body
  body_AtMost fd len none fresh h = tt
  body_AtMost fd len (some buf) fresh h =
      found_AtMost len buf fresh (find_connected fd t.connected_sockets) h

  pub tcpd_send-AtMost :
      (args : Option (ℕ × ℕ)) (buf : Option (List ℕ)) (fresh : Message)
      → AtMost n t
      → OnDone (AtMost (n + 1)) (tcpd_send sends from args buf fresh t)
  unfolding tcpd_send
  tcpd_send-AtMost none buf fresh h = tt
  tcpd_send-AtMost (some (fd, len)) buf fresh h = ground (arith, body_AtMost fd len buf fresh h)
