-- ===== src/Tcpd/Tests/Delivery.antt =====
-- Two daemons on a small run: one SEND at one end, and at the other end a socket that is bound, a
-- process that waits in ACCEPT and then asks for the two bytes.
use mathlib.Core.List.{Sublist, flatten}
use network_proj.Prelude.{
  ℕ, ◌≡◌, refl, sym, ap, subst, inl, ◌||◌, ◌&&◌, Bool, true, false, ◌==◌, List, [], ◌∷◌, Option,
  none, some, All, arith,
}
use network_proj.Prelude.Int.{◌+ℤ◌}
use network_proj.Net.{Addr, Outcome, done, exit, OnDone}
use network_proj.Crc32.{crc32_tab, crc32, crc_loop, update}
use network_proj.Tcpd.Message.{Message, summed, message_check_sum, is_intact, bytes}
use network_proj.Tcpd.Rto.{estimate, timeout}
use network_proj.Tcpd.State.{
  ConnectedSocket, Tcpd, posted, sendto, notify, find_connected, update_connected, find_accepted,
  update_accepted, insert_accepted,
}
use network_proj.Tcpd.Front.Made.{added_buffer}
use network_proj.Tcpd.Front.{
  new_message, tcpd_bind, tcpd_accept, accept_end, accept_loop, tcpd_recv, recv_found, tcpd_send,
  send_body, send_found,
}
use network_proj.Tcpd.Receiver.{
  recv_data, store, store_accepted, store_waiting, store_package, has_seq, insert_package,
  accept_one, accept_callbacks, take_waiting, recv_callback, fill_buffer, fill, total_len,
  solve_accept_callback, solve_recv_callback, recv_callbacks,
}
use network_proj.Tcpd.Sender.{
  solve_send_callback, send_callbacks, send_callback, send_pending, min_seq_of,
}
use network_proj.Tcpd.Front.Books.{Accounts}
use network_proj.Tcpd.Sender.Count.{outstanding}
use network_proj.Tcpd.Stream.{delivered}
use network_proj.Tcpd.Written.{Wrote}
use network_proj.Tcpd.Loop.{
  Inputs, Call, bind, accept, recv, send, other, initial, round, run, solve_ready, front_call,
  callbacks, data_round, ack_round, waiting, binds, connects,
}
use network_proj.Tcpd.Loop.Fair.{FairRun}
use network_proj.Tcpd.Loop.Written.{written, round_buffers, call_buffers}
use network_proj.Tcpd.Delivery.Buffers.{IsCopy, EndsBuffer, Begins}
use network_proj.Tcpd.Delivery.{Relayed, run-delivers_written, run-delivers_prefix}
use network_proj.Tcpd.Tests.{troll, two_bytes, all_sent}

abbrev fresh_connection : ConnectedSocket
fresh_connection = record {
  socket_fd = 3;
  session = 9;
  base = 0;
  min_seq = 0;
  server_addr = troll;
  packages = [];
  pending_packages = [];
}

abbrev opened : Tcpd
opened = record initial { connected_sockets = fresh_connection ∷ [] }

abbrev quiet_round : Inputs
quiet_round = record {
  ready = true;
  readable = λ fd. fd == 5;
  front = some (troll, other);
  packages = λ fd. none;
  acks = λ fd. (0, none);
  expired = none;
  sends = all_sent;
  clock = λ sent. 5000;
}

abbrev payload_bytes : List ℕ
payload_bytes = 7 ∷ 8 ∷ []

abbrev sending : List Inputs
sending =
    record quiet_round {
      front = some (troll, send (some (3, 2)) (some payload_bytes) (two_bytes 0));
    }
    ∷ []

abbrev result : Outcome Tcpd → Tcpd
result (done t) = t
result (exit code) = initial

abbrev sender_after : Tcpd
sender_after = result (run 5 6 sending opened)

abbrev relayed : Message
relayed = new_message fresh_connection (two_bytes 0) 2 payload_bytes

abbrev buffers : List (List ℕ)
buffers = payload_bytes ∷ []

sender_run :
    (run 5 6 sending opened ≡ done sender_after)
    × (posted sender_after.sent ≡ relayed ∷ [])
    × (written 9 5 6 sending opened ≡ buffers)
unfolding run round solve_ready front_call callbacks data_round ack_round waiting binds connects
    tcpd_send send_body send_found sendto find_connected update_connected solve_accept_callback
    solve_recv_callback recv_callbacks solve_send_callback send_callbacks send_callback send_pending
    min_seq_of notify timeout estimate ◌+ℤ◌ new_message written round_buffers call_buffers
    added_buffer
sender_run = (refl, refl, refl)

opened-Accounts : Accounts opened
unfolding outstanding find_connected
opened-Accounts = (0, (refl, (refl, tt)))

opened-Wrote : Wrote 9 3 [] opened
opened-Wrote = record { sockets = ((λ own. (refl, refl), tt, tt), tt); posts = tt }

abbrev arrival : Option (Message × Addr)
arrival = some (relayed, troll)

-- At the other end: BIND, ACCEPT while the package arrives, RECV.
abbrev is_some : Option (Message × Addr) → Bool
is_some none = false
is_some (some p) = true

abbrev calls : Option (Addr × Call) → Option (Message × Addr) → Inputs
calls call arriving = record quiet_round {
  readable = λ fd. (fd == 5) || (is_some arriving && (fd == 4));
  front = call;
  packages = λ fd. arriving;
}

abbrev asking : Option (Addr × Call)
asking = some (troll, recv (some (9, 2)))

abbrev receiving : List Inputs
receiving =
    calls (some (troll, bind (some 4) true)) none
    ∷ calls (some (troll, accept (some 4))) arrival
    ∷ calls asking none
    ∷ []

abbrev everyone : Addr → Bool
everyone a = true

package_of : Option (Message × Addr) → Message
package_of none = two_bytes 0
package_of (some (m, remote)) = m

session_of : Option (Addr × Call) → ℕ
session_of (some (from, recv (some (sockfd, len)))) = sockfd
session_of c = 0

len_of : Option (Addr × Call) → ℕ
len_of (some (from, recv (some (sockfd, len)))) = len
len_of c = 0

copied :
    (m : Message) (remote : Addr) → arrival ≡ some (m, remote) → IsCopy m (posted sender_after.sent)
unfolding package_of
copied m remote e =
    subst (IsCopy m) (sym sender_run.1)
      (subst (λ x. IsCopy x (relayed ∷ [])) (ap package_of e) (inl (refl, refl, refl, refl)))

asks_nine :
    (from : Addr) (sockfd len : ℕ)
    → asking ≡ some (from, recv (some (sockfd, len)))
    → everyone from ≡ (sockfd == 9)
unfolding session_of
asks_nine from sockfd len e = subst (λ n. true ≡ (n == 9)) (ap session_of e) refl

relays : All (Relayed everyone 9 (posted sender_after.sent)) receiving
relays = (
  record { copies = λ fd m remote e intact own. cc; asked = λ from sockfd len e. cc },
  (
    record {
      copies = λ fd m remote e intact own. copied m remote e;
      asked = λ from sockfd len e. cc;
    },
    (record { copies = λ fd m remote e intact own. cc; asked = asks_nine }, tt),
  ),
)

run-delivers_written_example :
    OnDone
      (λ r. Sublist (delivered everyone r.sent) (flatten (written 9 5 6 sending opened)))
      (run 5 6 receiving initial)
run-delivers_written_example =
    run-delivers_written 9 3 5 6 sending opened sender_after (omega arith)
      (rw sender_run.2 (omega arith)) opened-Accounts opened-Wrote sender_run.0 everyone 5 6
      receiving relays

-- The request of two bytes ends with the buffer that was written.
asks_buffer :
    (d : List ℕ) (from : Addr) (sockfd len : ℕ)
    → d ≡ []
    → asking ≡ some (from, recv (some (sockfd, len)))
    → EndsBuffer (written 9 5 6 sending opened) d len
unfolding len_of flatten
asks_buffer d from sockfd len nothing e = (1, rw (nothing, ← ap len_of e, sender_run.2) refl)

-- The two bytes do arrive.
receiver_run :
    FairRun everyone 9
      (λ m. IsCopy m (posted sender_after.sent))
      (EndsBuffer (written 9 5 6 sending opened))
      5
      6
      receiving
      initial
    × (delivered everyone (result (run 5 6 receiving initial)).sent ≡ payload_bytes)
unfolding run round solve_ready front_call callbacks data_round ack_round waiting binds connects
    tcpd_bind tcpd_accept accept_end accept_loop tcpd_recv recv_found recv_data is_intact
    message_check_sum summed bytes crc32 crc_loop update crc32_tab store store_accepted
    store_waiting store_package has_seq insert_package find_accepted update_accepted insert_accepted
    accept_one accept_callbacks take_waiting solve_accept_callback recv_callback fill_buffer fill
    total_len recv_callbacks solve_recv_callback solve_send_callback send_callbacks sendto
    new_message delivered
receiver_run = (
  (
    record { packages = λ fd m remote e intact own. cc; asked = λ from sockfd len e. cc },
    (
      record {
        packages = λ fd m remote e intact own. copied m remote e;
        asked = λ from sockfd len e. cc;
      },
      (
        record {
          packages = λ fd m remote e intact own. cc;
          asked = λ from sockfd len e.
              (asks_nine from sockfd len e, λ own. asks_buffer [] from sockfd len refl e);
        },
        tt,
      ),
    ),
  ),
  refl,
)

run-delivers_prefix_example :
    OnDone
      (λ r. Begins (delivered everyone r.sent) (flatten (written 9 5 6 sending opened)))
      (run 5 6 receiving initial)
run-delivers_prefix_example =
    run-delivers_prefix 9 3 5 6 sending opened sender_after (omega arith)
      (rw sender_run.2 (omega arith)) opened-Accounts opened-Wrote sender_run.0 everyone 5 6
      receiving receiver_run.0
