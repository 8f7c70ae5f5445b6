-- ===== src/Tcpd/Tests.antt =====
-- The daemon of Proj1/tcpd.c on small inputs, and the theorems about the receiving side at them.
mod Sending
mod Arrival
mod Delivery
use network_proj.Prelude.{
  ℕ, ◌+◌, ◌≡◌, ◌≢◌, refl, Bool, true, List, [], ◌∷◌, ◌++◌, Option, some, none, All, arith, IsBytes,
  drop, length,
}
use mathlib.Core.List.{Perm}
use mathlib.Core.List.Perm
use network_proj.Net.{Addr, Outcome, done, OnDone}
use network_proj.Tcpd.Message.{Message, summed, is_intact, message_check_sum, is_ack_intact, bytes}
use network_proj.Crc32.{crc32, crc_loop, update}
use network_proj.Tcpd.State.{
  BindedSocket, AcceptedSocket, ConnectedSocket, Tcpd, Output, reply_bytes, send_ack, sendto,
}
use network_proj.Tcpd.Front.{new_message}
use network_proj.Tcpd.Loop.{initial}
use network_proj.Tcpd.Receiver.{
  store_package, fill_buffer, recv_callback, recv_data, store, new_ack, new_accepted,
  solve_accept_callback,
}
use network_proj.Tcpd.Receiver.Window.{IsWindow, store_package-IsWindow}
use network_proj.Tcpd.Receiver.Order.{store_all, store_all_perm}
use network_proj.Tcpd.Receiver.Fill.{HasStopped, Took, payload, payloads}
use network_proj.Tcpd.Receiver.Deliver.{
  Answered, fill_buffer-HasStopped, recv_callback_delivers, recv_callback_holds,
}
use network_proj.Tcpd.Receiver.Loss.{recv_callback_loses}
use network_proj.Tcpd.Receiver.Integrity.{recv_data_drops}
use network_proj.Tcpd.Receiver.Accept.{Served, solve_accept_callback-Served}

abbrev pub troll : Addr
troll = record { family = 2; port = 4000; addr = 1 }

-- Packages of two bytes each.
abbrev pub two_bytes : ℕ → Message
two_bytes seq = record {
  header = troll;
  check_sum = 0;
  session = 9;
  seq_num = seq;
  padding = [];
  len = 2;
  body = seq ∷ 50 ∷ [];
}

abbrev pub all_sent : Output → Bool
all_sent out = true

-- A socket that has stored packages 0 and 1, for which a process waits with RECV.
abbrev receiver : ℕ → AcceptedSocket
receiver wanted = record (new_accepted 3 9) {
  receiving_length = wanted;
  receiving_addr = troll;
  packages = two_bytes 0 ∷ two_bytes 1 ∷ [];
}

store_package-IsWindow_example : IsWindow (store_package (two_bytes 3) (receiver 4))
store_package-IsWindow_example =
    store_package-IsWindow (two_bytes 3) (receiver 4) (omega arith, (omega arith, tt))

store_all_perm_example :
    store_all (two_bytes 5 ∷ two_bytes 3 ∷ []) (receiver 4)
    ≡ store_all (two_bytes 3 ∷ two_bytes 5 ∷ []) (receiver 4)
store_all_perm_example =
    store_all_perm two_bytes (two_bytes 5 ∷ two_bytes 3 ∷ []) (two_bytes 3 ∷ two_bytes 5 ∷ [])
      (receiver 4) (Perm.swap (two_bytes 3) (two_bytes 5) []) (omega arith, (omega arith, tt))
      (refl, (refl, tt))

fill_buffer-HasStopped_example : HasStopped (fill_buffer (receiver 3))
fill_buffer-HasStopped_example = fill_buffer-HasStopped (receiver 3)

recv_callback_delivers_example :
    Answered troll (0 ∷ 50 ∷ 1 ∷ 50 ∷ []) 2 [] all_sent [] (recv_callback all_sent (receiver 4) [])
recv_callback_delivers_example =
    recv_callback_delivers all_sent [] (two_bytes 0 ∷ two_bytes 1 ∷ []) [] (receiver 4) refl
      (refl, omega arith, omega arith, (refl, omega arith, omega arith, tt)) (omega arith)
      (omega arith) (omega arith) refl

recv_callback_holds_example :
    (after : AcceptedSocket) × (recv_callback all_sent (receiver 9) [] ≡ done (after, []))
    × Took (two_bytes 0 ∷ two_bytes 1 ∷ []) [] (receiver 9) after
recv_callback_holds_example =
    recv_callback_holds all_sent [] (two_bytes 0 ∷ two_bytes 1 ∷ []) [] (receiver 9) refl
      (refl, omega arith, omega arith, (refl, omega arith, omega arith, tt)) (omega arith) tt
      (omega arith) (omega arith)

-- A process that asks for one byte is sent the second byte of the package.
recv_callback_loses_example :
    Answered troll
      (50 ∷ [])
      1
      (two_bytes 1 ∷ [])
      all_sent
      []
      (recv_callback all_sent (receiver 1) [])
recv_callback_loses_example =
    recv_callback_loses all_sent [] 1 1 (two_bytes 0) [] (two_bytes 1 ∷ []) (receiver 1) refl
      (refl, omega arith, omega arith, tt) (omega arith) (omega arith) (omega arith) refl
      (omega arith) refl
