-- ===== src/Tcpd/Front.antt =====
-- Proj1/tcpd.c, the six calls of a front process. The arguments are what `recvfrom` read for them;
-- `none` is a `recvfrom` that failed. The results of `socket`, `bind` and `rand` are arguments too,
-- `none` where `socket` or `bind` fails.
pub mod Books
pub mod Accepting
pub mod Frame
pub mod Stream
pub mod Made
pub mod Written
pub mod Stall
pub mod Limit
use network_proj.Prelude.{
  ℕ, ◌+◌, ◌-◌, ◌%◌, ◌^◌, List, [], ◌∷◌, ◌++◌, Option, none, some, Bool, true, false, ◌==◌, ltb,
  if◌then◌else◌, take, drop,
}
use network_proj.Prelude.Int.{pos, ◌+ℤ◌}
use network_proj.Net.{Addr, Outcome, done, exit}
use network_proj.Tcpd.Message.{Message, buf_len, af_inet, message_check_sum}
use network_proj.Tcpd.State.{
  BindedSocket, AcceptedSocket, ConnectedSocket, Tcpd, Output, reply, sendto, find_accepted,
  update_accepted, find_connected, insert_connected, update_connected,
}

-- An `int` that is negative, as the four bytes that are sent.
abbrev pub minus : ℕ → ℕ
minus n = 2 ^ 32 - n

-- Memory that `malloc` returns and nothing initialises: never read before it is written.
abbrev pub unset_addr : Addr
unset_addr = record { family = 0; port = 0; addr = 0 }

-- The end of the search of `tcpd_ACCEPT`.
pub data AcceptResult : Type 0 where
  not_found already added : AcceptResult

abbrev pub behind :
    BindedSocket → AcceptResult × List BindedSocket → AcceptResult × List BindedSocket
behind b (r, l) = (r, b ∷ l)

-- `for(i=0;i<BindedSockets->len;i++)`: the loop goes on after a socket that it has set, and ends at
-- one that is accepting already.
unfoldable pub accept_loop :
    ℕ → Addr → AcceptResult → List BindedSocket → AcceptResult × List BindedSocket
accept_loop fd from r [] = (r, [])
accept_loop fd from r (b ∷ l) =
    let other = behind b (accept_loop fd from r l) in
    let set =
      behind (record b { accepting = true; accepting_addr = from }) (accept_loop fd from added l) in
    if b.socket_fd == fd then (if b.accepting then (already, b ∷ l) else set) else other

-- The package that `tcpd_SEND` builds in the memory `fresh`.
unfoldable pub new_message : ConnectedSocket → Message → ℕ → List ℕ → Message
new_message c fresh len buf = record m { check_sum = message_check_sum m }
  where
    m : Message
    m = record {
      header = record c.server_addr { family = af_inet };
      check_sum = fresh.check_sum;
      session = c.session;
      seq_num = c.base;
      padding = fresh.padding;
      len = len;
      body = take len buf ++ drop len fresh.body;
    }

-- `sends` says which calls of `sendto` succeed.
module _ (sends : Output → Bool) where
  pub tcpd_socket : Addr → Option ℕ → Tcpd → Outcome Tcpd
  tcpd_socket from none t = exit 2
  tcpd_socket from (some fd) t = sendto sends 4 (reply from fd) t

  -- `ret_bind` is 0 where `bind` succeeds.
  unfoldable pub tcpd_bind : Addr → Option ℕ → Bool → Tcpd → Outcome Tcpd
  tcpd_bind from none bound t = exit 4
  tcpd_bind from (some fd) false t = exit 2
  tcpd_bind from (some fd) true t = sendto sends 4 (reply from 0) (record t {
    binded_sockets =
        t.binded_sockets
        ++ record { socket_fd = fd; accepting = false; accepting_addr = unset_addr } ∷ [];
  })

  unfoldable pub accept_end : Addr → AcceptResult → Tcpd → Outcome Tcpd
  accept_end from added t = done t
  accept_end from already t = sendto sends 4 (reply from (minus 1)) t
  accept_end from not_found t = sendto sends 4 (reply from (minus 1)) t

  unfoldable pub tcpd_accept : Addr → Option ℕ → Tcpd → Outcome Tcpd
  unfolding accept_end
  tcpd_accept from none t = exit 4
  tcpd_accept from (some fd) t =
      let (r, l) = accept_loop fd from not_found t.binded_sockets in
      accept_end from r (record t { binded_sockets = l })

  unfoldable pub recv_found : Addr → ℕ → Option AcceptedSocket → Tcpd → Outcome Tcpd
  recv_found from len none t = sendto sends 4 (reply from (minus 2)) t
  recv_found from len (some s) t =
      if s.receiving_length == 0
      then done (record t {
        accepted_sockets =
            update_accepted (record s { receiving_length = len; receiving_addr = from })
              t.accepted_sockets;
      })
      else sendto sends 4 (reply from (minus 3)) t

  -- `sockfd` is the session that ACCEPT returned.
  unfoldable pub tcpd_recv : Addr → Option (ℕ × ℕ) → Tcpd → Outcome Tcpd
  unfolding recv_found
  tcpd_recv from none t = exit 4
  tcpd_recv from (some (sockfd, len)) t =
      if len == 0
      then sendto sends 4 (reply from 0) t
      else recv_found from len (find_accepted sockfd t.accepted_sockets) t

  -- A new struct takes the place of one under the same descriptor.
  pub tcpd_connect : Addr → Option (ℕ × Addr) → ℕ → Tcpd → Outcome Tcpd
  tcpd_connect from none rand t = exit 4
  tcpd_connect from (some (fd, addr)) rand t = sendto sends 4 (reply from 0) (record t {
    connected_sockets =
        insert_connected
          (record {
            socket_fd = fd;
            session = rand;
            base = 0;
            min_seq = 0;
            server_addr = addr;
            packages = [];
            pending_packages = [];
          })
          t.connected_sockets;
  })

  unfoldable pub send_found :
      Addr → ℕ → List ℕ → Message → Option ConnectedSocket → Tcpd → Outcome Tcpd
  send_found from len buf fresh none t = exit 1
  send_found from len buf fresh (some c) t = sendto sends 4 (reply from (len % 2 ^ 32)) (record t {
    connected_sockets =
        update_connected
          (record c {
            base = (c.base + 1) % 2 ^ 32;
            pending_packages = c.pending_packages ++ new_message c fresh len buf ∷ [];
          })
          t.connected_sockets;
    in_buffer_packages = t.in_buffer_packages +ℤ pos 1;
  })

  unfoldable pub send_body : Addr → ℕ → ℕ → Option (List ℕ) → Message → Tcpd → Outcome Tcpd
  unfolding send_found
  send_body from fd len none fresh t = exit 4
  send_body from fd len (some buf) fresh t =
      send_found from len buf fresh (find_connected fd t.connected_sockets) t

  -- `buf` is the daemon's buffer once the data has been read into it.
  unfoldable pub tcpd_send : Addr → Option (ℕ × ℕ) → Option (List ℕ) → Message → Tcpd → Outcome Tcpd
  unfolding send_body
  tcpd_send from none buf fresh t = exit 4
  tcpd_send from (some (fd, len)) buf fresh t =
      if ltb buf_len len then exit 5 else send_body from fd len buf fresh t
