-- ===== src/Tcpd/Tests/Sending.antt =====
-- The sending side and the loop on a connection with one package in its window and two that wait.
use network_proj.Prelude.{ℕ, ◌≡◌, refl, inl, true, List, [], ◌∷◌, Option, some, none, arith}
use network_proj.Prelude.Int.{pos, ◌≤ℤ◌}
use network_proj.Net.{Addr, OnDone}
use network_proj.Tcpd.Message.{Ack, max_buffer_packages}
use network_proj.Tcpd.Rto.{initial_estimator}
use network_proj.Tcpd.Rto.History.{
  Event, acknowledgement, sending, history, Forgets, history-Forgets,
}
use network_proj.Tcpd.State.{ConnectedSocket, Tcpd, Output, find_connected, posted}
use network_proj.Tcpd.Front.{tcpd_send, tcpd_connect}
use network_proj.Tcpd.Front.Books.{Accounts, tcpd_send-Ledger, tcpd_connect-Ledger}
use network_proj.Tcpd.Sender.{recv_ack, recv_timer, solve_send_callback}
use network_proj.Tcpd.Sender.Count.{outstanding}
use network_proj.Tcpd.Sender.Ledger.{Ledger, recv_ack-Ledger}
use network_proj.Tcpd.Sender.Retain.{Expires, recv_timer-Expires}
use network_proj.Tcpd.Sender.Idle.{of_session, IsIdle}
use network_proj.Tcpd.Sender.Sweep.{Advances, solve_send_callback-Advances}
use network_proj.Tcpd.Loop.{
  Inputs, Call, send, connect, other, initial, binds, connects, round, run,
}
use network_proj.Tcpd.Loop.Accounts.{run-Accounts}
use network_proj.Tcpd.Loop.Bound.{round-AtMost}
use network_proj.Tcpd.Loop.Stall.{run_stalls}
use network_proj.Tcpd.Tests.{troll, two_bytes, all_sent}

abbrev connection : ConnectedSocket
connection = record {
  socket_fd = 3;
  session = 9;
  base = 3;
  min_seq = 0;
  server_addr = troll;
  packages = two_bytes 0 ∷ [];
  pending_packages = two_bytes 1 ∷ two_bytes 2 ∷ [];
}

abbrev connected : Tcpd
connected = record initial { connected_sockets = connection ∷ []; in_buffer_packages = pos 3 }

abbrev clock : List Output → ℕ
clock sent = 5000

connected-Ledger : Ledger 0 connected
unfolding outstanding find_connected
connected-Ledger = (refl, (refl, tt))

found : find_connected 3 (connection ∷ []) ≡ some connection
unfolding find_connected
found = refl

abbrev ack : Ack
ack = record { header = troll; check_sum = 0; session = 9; seq_num = 0 }

solve_send_callback-Advances_example :
    Advances all_sent connected (solve_send_callback all_sent clock connected)
solve_send_callback-Advances_example = solve_send_callback-Advances all_sent clock connected

recv_timer-Expires_example :
    Expires
      (some (record { session = 9; seq_num = 0 }))
      connected
      (recv_timer (some (record { session = 9; seq_num = 0 })) connected)
recv_timer-Expires_example =
    recv_timer-Expires (some (record { session = 9; seq_num = 0 })) connected connected-Ledger.1

recv_ack-Ledger_example : OnDone (Ledger 0) (recv_ack all_sent connection 77 (some ack) connected)
recv_ack-Ledger_example =
    recv_ack-Ledger all_sent connection 77 0 (some ack) connected found connected-Ledger

tcpd_send-Ledger_example :
    OnDone
      (Ledger 0)
      (tcpd_send all_sent troll (some (3, 2)) (some (7 ∷ 8 ∷ [])) (two_bytes 0) connected)
tcpd_send-Ledger_example =
    tcpd_send-Ledger all_sent troll (some (3, 2)) (some (7 ∷ 8 ∷ [])) (two_bytes 0) 0 connected
      connected-Ledger

-- The three packages of the connection are dropped.
tcpd_connect-Ledger_example :
    OnDone (Ledger 3) (tcpd_connect all_sent troll (some (3, troll)) 10 connected)
unfolding find_connected
tcpd_connect-Ledger_example =
    tcpd_connect-Ledger all_sent troll troll 3 10 0 connected connected-Ledger

-- A front process calls CONNECT on descriptor 3, then SEND, then an acknowledgement arrives.
abbrev inputs : Option (Addr × Call) → Inputs
inputs call = record {
  ready = true;
  readable = λ fd. true;
  front = call;
  packages = λ fd. none;
  acks = λ fd. (77, some ack);
  expired = some (record { session = 9; seq_num = 0 });
  sends = all_sent;
  clock = clock;
}

abbrev rounds : List Inputs
rounds =
    inputs (some (troll, connect (some (3, troll)) 9))
    ∷ inputs (some (troll, send (some (3, 2)) (some (7 ∷ 8 ∷ [])) (two_bytes 0)))
    ∷ inputs (some (troll, other))
    ∷ []

run-Accounts_example : OnDone Accounts (run 5 6 rounds initial)
run-Accounts_example = run-Accounts 5 6 rounds

-- Two packages wait from number 100000064 on; a SEND follows, with acknowledgements and timers of a
-- package that is no longer held.
abbrev far_connection : ConnectedSocket
far_connection = record connection {
  base = 100000066;
  packages = [];
  pending_packages = two_bytes 100000064 ∷ two_bytes 100000065 ∷ [];
}

abbrev far_connected : Tcpd
far_connected = record initial {
  connected_sockets = far_connection ∷ [];
  in_buffer_packages = pos 2;
}

abbrev far_rounds : List Inputs
far_rounds =
    inputs (some (troll, send (some (3, 2)) (some (7 ∷ 8 ∷ [])) (two_bytes 0)))
    ∷ inputs (some (troll, other))
    ∷ []

far_connection-IsIdle : IsIdle 9 2 far_connection
far_connection-IsIdle = inl (refl, refl, (omega arith, (omega arith, tt)), omega arith, omega arith)

run_stalls_example :
    OnDone
      (λ t'. of_session 9 (posted t'.sent) ≡ of_session 9 (posted far_connected.sent))
      (run 5 6 far_rounds far_connected)
run_stalls_example =
    run_stalls 9 5 6 far_rounds far_connected (far_connection-IsIdle, tt) (tt, (tt, tt))

round-AtMost_example :
    OnDone
      (λ t'. t'.in_buffer_packages ≤ℤ pos max_buffer_packages)
      (round 5 6
        (inputs (some (troll, send (some (3, 2)) (some (7 ∷ 8 ∷ [])) (two_bytes 0))))
        connected)
unfolding binds connects
round-AtMost_example =
    round-AtMost 5 6 (inputs (some (troll, send (some (3, 2)) (some (7 ∷ 8 ∷ [])) (two_bytes 0))))
      connected (omega arith) refl refl (omega arith)

-- Round trips of 0.9 and 0.001 seconds.
abbrev events : List Event
events =
    sending 0
    ∷ acknowledgement 900000
    ∷ sending 950000
    ∷ acknowledgement 951000
    ∷ sending 952000
    ∷ []

history-Forgets_example : Forgets 3 initial_estimator (history events initial_estimator)
history-Forgets_example =
    history-Forgets events initial_estimator (omega arith, (omega arith, tt)) (omega arith)
      (omega arith, omega arith)
