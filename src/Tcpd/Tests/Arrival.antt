-- ===== src/Tcpd/Tests/Arrival.antt =====
-- A package that arrives, and a connection that is accepted.
use network_proj.Prelude.{
  ℕ, ◌≡◌, ◌≢◌, refl, ap, true, false, List, [], ◌∷◌, ◌++◌, some, All, arith, get_or,
}
use network_proj.Net.{done, OnDone}
use network_proj.Tcpd.Message.{Message, summed, is_intact, message_check_sum, bytes}
use network_proj.Tcpd.State.{ConnectedSocket, Tcpd}
use network_proj.Tcpd.Front.{tcpd_accept}
use network_proj.Tcpd.Front.Accepting.{find_binded, registered, tcpd_accept-registered}
use network_proj.Tcpd.Loop.{initial}
use network_proj.Tcpd.Receiver.{recv_data, new_accepted, solve_accept_callback}
use network_proj.Tcpd.Receiver.Integrity.{recv_data_drops}
use network_proj.Tcpd.Receiver.Stored.{Stored}
use network_proj.Tcpd.Receiver.Accept.{Served, solve_accept_callback-Served}
use network_proj.Tcpd.Tests.{troll, two_bytes, all_sent}

abbrev connection : ConnectedSocket
connection = record {
  socket_fd = 3;
  session = 9;
  base = 0;
  min_seq = 0;
  server_addr = troll;
  packages = [];
  pending_packages = [];
}

abbrev sent_package : Message
sent_package = record (two_bytes 0) { check_sum = message_check_sum (two_bytes 0) }

abbrev damaged_package : Message
damaged_package = record sent_package { body = 0 ∷ 51 ∷ [] }

abbrev first_bytes : List ℕ
first_bytes = 9 ∷ 0 ∷ 0 ∷ 0 ∷ 0 ∷ 0 ∷ 0 ∷ 0 ∷ 2 ∷ 0 ∷ 0 ∷ 0 ∷ 0 ∷ 0 ∷ 0 ∷ 0 ∷ 0 ∷ []

sent_package-is_intact : is_intact sent_package ≡ true
unfolding is_intact message_check_sum summed
sent_package-is_intact = ground arith

sent_bytes : summed sent_package ≡ first_bytes ++ ((50 ∷ []) ++ [])
unfolding summed bytes
sent_bytes = refl

damaged_bytes : summed damaged_package ≡ first_bytes ++ ((51 ∷ []) ++ [])
unfolding summed bytes
damaged_bytes = refl

abbrev sent_byte : List ℕ
sent_byte = 50 ∷ []

abbrev damaged_byte : List ℕ
damaged_byte = 51 ∷ []

bytes_differ : sent_byte ≢ damaged_byte
bytes_differ e = omega (arith, ap (λ l. get_or l 0 0) e)

recv_data_drops_example :
    recv_data all_sent 4 (some (damaged_package, troll)) initial ≡ done initial
recv_data_drops_example =
    recv_data_drops all_sent 4 troll initial sent_package damaged_package first_bytes (50 ∷ [])
      (51 ∷ []) [] sent_package-is_intact refl sent_bytes damaged_bytes (omega arith) (omega arith)
      (omega arith) (omega arith) refl (omega arith) bytes_differ

abbrev accepting_state : Tcpd
accepting_state = record initial {
  binded_sockets = record { socket_fd = 4; accepting = true; accepting_addr = troll } ∷ [];
  waiting_accept_sockets = new_accepted 4 9 ∷ new_accepted 4 10 ∷ [];
}

solve_accept_callback-Served_example :
    OnDone
      (λ t'. All (Served t'.waiting_accept_sockets) t'.binded_sockets)
      (solve_accept_callback all_sent accepting_state)
solve_accept_callback-Served_example = solve_accept_callback-Served all_sent accepting_state

abbrev bound_state : Tcpd
bound_state = record initial {
  binded_sockets =
      record { socket_fd = 4; accepting = false; accepting_addr = troll }
      ∷ record { socket_fd = 5; accepting = true; accepting_addr = troll }
      ∷ [];
}

tcpd_accept-registered_example :
    tcpd_accept all_sent troll (some 4) bound_state
    ≡ registered all_sent 4 troll (find_binded 4 bound_state.binded_sockets) bound_state
tcpd_accept-registered_example =
    tcpd_accept-registered all_sent troll 4 bound_state
      (unfold find_binded in refl, (unfold find_binded in refl, tt))
