-- ===== src/Tcpd/Receiver.antt =====
-- Proj1/tcpd.c, the receiving side: `RecvData`, `SolveAcceptCallback` and `SolveRecvCallback`.
pub mod Window
pub mod Order
pub mod Fill
pub mod Deliver
pub mod Loss
pub mod Frame
pub mod Stored
pub mod Integrity
pub mod Accept
pub mod Stream
pub mod Exact
pub mod Answers
pub mod Arrivals
pub mod Handover
use network_proj.Prelude.{
  ℕ, zero, suc, ◌+◌, ◌-◌, ◌%◌, ◌^◌, List, [], ◌∷◌, ◌++◌, Option, none, some, Bool, true, false,
  ◌==◌, ltb, leb, if◌then◌else◌, length, take, drop,
}
use network_proj.Net.{Addr, Outcome, done, exit, ◌>>=◌}
use network_proj.Tcpd.Message.{Message, Ack, buf_len, af_inet, is_intact, ack_check_sum}
use network_proj.Tcpd.State.{
  BindedSocket, AcceptedSocket, Tcpd, Output, reply, reply_bytes, send_ack, sendto, find_accepted,
  update_accepted, insert_accepted,
}
use network_proj.Tcpd.Front.{unset_addr}

-- The search for the place of a package: whether one with its number is there, and the list with
-- the package before the first higher number.
unfoldable pub has_seq : ℕ → List Message → Bool
has_seq seq [] = false
has_seq seq (m ∷ l) =
    if m.seq_num == seq then true else if ltb seq m.seq_num then false else has_seq seq l

unfoldable pub insert_package : Message → List Message → List Message
insert_package new [] = new ∷ []
insert_package new (m ∷ l) =
    if ltb new.seq_num m.seq_num then new ∷ m ∷ l else m ∷ insert_package new l

-- `RequireValid` of `RecvData`, and the insertion under it.
unfoldable pub store_package : Message → AcceptedSocket → AcceptedSocket
store_package m s =
    if ltb m.seq_num s.base
    then s
    else if has_seq m.seq_num s.packages
    then s
    else record s { packages = insert_package m s.packages }

-- The acknowledgement of a package that came from `remote`.
unfoldable pub new_ack : Message → Addr → Ack
new_ack m remote = record a { check_sum = ack_check_sum a }
  where
    a : Ack
    a = record {
      header = record m.header { family = af_inet; addr = remote.addr };
      check_sum = 0;
      session = m.session;
      seq_num = m.seq_num;
    }

-- The struct that `RecvData` makes for a session that it does not know.
abbrev pub new_accepted : ℕ → ℕ → AcceptedSocket
new_accepted fd session = record {
  socket_fd = fd;
  session = session;
  base = 0;
  receiving_length = 0;
  receiving_addr = unset_addr;
  packages = [];
  recv_buffer = [];
}

-- Where the struct of the session is found, or a new one is put, and the package stored in it.
unfoldable pub store_waiting : ℕ → Message → Option AcceptedSocket → Tcpd → Tcpd
store_waiting fd m (some s) t = record t {
  waiting_accept_sockets = update_accepted (store_package m s) t.waiting_accept_sockets;
}
store_waiting fd m none t = record t {
  waiting_accept_sockets =
      t.waiting_accept_sockets ++ store_package m (new_accepted fd m.session) ∷ [];
}

unfoldable pub store_accepted : ℕ → Message → Option AcceptedSocket → Tcpd → Tcpd
unfolding store_waiting
store_accepted fd m (some s) t = record t {
  accepted_sockets = update_accepted (store_package m s) t.accepted_sockets;
}
store_accepted fd m none t = store_waiting fd m (find_accepted m.session t.waiting_accept_sockets) t

unfoldable pub store : ℕ → Message → Tcpd → Tcpd
unfolding store_accepted
store fd m t = store_accepted fd m (find_accepted m.session t.accepted_sockets) t

-- The session goes back to the process that waits in ACCEPT, and its struct to the table.
unfoldable pub take_waiting :
    ℕ → List AcceptedSocket → Option (AcceptedSocket × List AcceptedSocket)
take_waiting fd [] = none
take_waiting fd (s ∷ l) =
    if s.socket_fd == fd
    then some (s, l)
    else elim (take_waiting fd l) [ none ↦ none | some (w, r) ↦ some (w, s ∷ r) ]

-- One round of the `while` of `SolveRecvCallback` at the first package.
abbrev pub room : AcceptedSocket → ℕ
room s = s.receiving_length - length s.recv_buffer

-- The package fits: it is copied and dropped, and `Base` goes on.
abbrev pub consume : Message → List Message → AcceptedSocket → AcceptedSocket
consume m rest s = record s {
  base = (s.base + 1) % 2 ^ 32;
  packages = rest;
  recv_buffer = s.recv_buffer ++ take m.len m.body;
}

-- It does not: its first bytes go to the end of the buffer, whose size stays as it was, and the
-- others move up in the package.
abbrev pub shorten : ℕ → Message → Message
shorten r m = record m {
  len = m.len - r;
  body = take (m.len - r) (drop r m.body) ++ drop (m.len - r) m.body;
}

abbrev pub cut : Message → List Message → AcceptedSocket → AcceptedSocket
cut m rest s = record s { packages = shorten (room s) m ∷ rest }

-- The `while`, on fuel: every round drops a package or makes one shorter. `RecvBufferSize+len` is
-- taken to be below 2 ^ 64.
unfoldable pub fill : ℕ → List Message → AcceptedSocket → AcceptedSocket
fill zero ps s = s
fill (suc fuel) [] s = s
fill (suc fuel) (m ∷ rest) s =
    let taken = fill fuel rest (consume m rest s) in
    let kept = fill fuel (shorten (room s) m ∷ rest) (cut m rest s) in
    if ltb (length s.recv_buffer) s.receiving_length
    then if m.seq_num == s.base
      then if leb (length s.recv_buffer + m.len) s.receiving_length then taken else kept
      else s
    else s

unfoldable pub total_len : List Message → ℕ
total_len [] = 0
total_len (m ∷ l) = m.len + 1 + total_len l

-- The loop with its fuel.
unfoldable pub fill_buffer : AcceptedSocket → AcceptedSocket
fill_buffer s = fill (total_len s.packages + 1) s.packages s

module _ (sends : Output → Bool) where
  -- `RecvData` on a package that a bound socket has received; `none` is a `recvfrom` that failed.
  unfoldable pub recv_data : ℕ → Option (Message × Addr) → Tcpd → Outcome Tcpd
  recv_data fd none t = exit 5
  recv_data fd (some (m, remote)) t =
      if is_intact m then sendto sends 5 (send_ack fd (new_ack m remote)) (store fd m t) else done t

  unfoldable pub accept_one :
      BindedSocket → Option (AcceptedSocket × List AcceptedSocket) → Tcpd → Outcome Tcpd
  accept_one b none t = done t
  accept_one b (some (s, rest)) t = do
    t' ← sendto sends 4 (reply b.accepting_addr s.session) t
    done (record t' {
      accepted_sockets = insert_accepted s t'.accepted_sockets;
      waiting_accept_sockets = rest;
    })

  -- The bound socket after that: `Accepting` is reset where a connection was handed over.
  abbrev pub after_accept :
      BindedSocket → Option (AcceptedSocket × List AcceptedSocket) → BindedSocket
  after_accept b none = b
  after_accept b (some w) = record b { accepting = false }

  -- The loop over the bound sockets; `seen` are those before, in order.
  unfoldable pub accept_callbacks : List BindedSocket → List BindedSocket → Tcpd → Outcome Tcpd
  unfolding accept_one
  accept_callbacks seen [] t = done (record t { binded_sockets = seen })
  accept_callbacks seen (b ∷ l) t =
      let w : Option (AcceptedSocket × List AcceptedSocket) =
        if b.accepting then take_waiting b.socket_fd t.waiting_accept_sockets else none in
      accept_one b w t >>= accept_callbacks (seen ++ after_accept b w ∷ []) l

  unfoldable pub solve_accept_callback : Tcpd → Outcome Tcpd
  unfolding accept_callbacks
  solve_accept_callback t = elim t.waiting_accept_sockets [
    | [] ↦ done t
    | s ∷ l ↦ accept_callbacks [] t.binded_sockets t
  ]

  -- `SolveRecvCallback` at one socket of the table, with the outputs so far.
  unfoldable pub recv_callback :
      AcceptedSocket → List Output → Outcome (AcceptedSocket × List Output)
  recv_callback s sent =
      if s.receiving_length == 0
      then done (s, sent)
      else if ltb buf_len s.receiving_length
      then exit 5
      else let f = fill_buffer s in
        let out = reply_bytes f.receiving_addr f.recv_buffer in
        if length f.recv_buffer == f.receiving_length
        then if sends out
          then done (record f { recv_buffer = []; receiving_length = 0 }, out ∷ sent)
          else exit 4
        else done (f, sent)

  unfoldable pub recv_callbacks :
      List AcceptedSocket → List Output → Outcome (List AcceptedSocket × List Output)
  recv_callbacks [] sent = done ([], sent)
  recv_callbacks (s ∷ l) sent = do
    (s', sent') ← recv_callback s sent
    (l', sent'') ← recv_callbacks l sent'
    done (s' ∷ l', sent'')

  unfoldable pub solve_recv_callback : Tcpd → Outcome Tcpd
  solve_recv_callback t = do
    (l, sent) ← recv_callbacks t.accepted_sockets t.sent
    done (record t { accepted_sockets = l; sent = sent })
