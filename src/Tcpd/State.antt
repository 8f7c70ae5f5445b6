-- ===== src/Tcpd/State.antt =====
-- Proj1/tcpd.c: the state of the daemon, its tables, and what it sends.
use network_proj.Prelude.{ℕ, List, [], ◌∷◌, Option, none, some, Bool, ◌==◌, if◌then◌else◌}
use network_proj.Prelude.Int.{ℤ}
use network_proj.Net.{Addr, Outcome, done, exit}
use network_proj.Tcpd.Message.{Message, Ack}
use network_proj.Tcpd.Rto.{Estimator, Rto}

-- `struct BindedSocketStruct`
pub record BindedSocket : Type 0 where
  pub socket_fd : ℕ
  pub accepting : Bool
  pub accepting_addr : Addr

-- `struct AcceptedSocketStruct`. `recv_buffer` is what `RecvBuffer` holds up to `RecvBufferSize`.
pub record AcceptedSocket : Type 0 where
  pub socket_fd : ℕ
  pub session : ℕ
  pub base : ℕ
  pub receiving_length : ℕ
  pub receiving_addr : Addr
  pub packages : List Message
  pub recv_buffer : List ℕ

-- `struct ConnectedSocketStruct`
pub record ConnectedSocket : Type 0 where
  pub socket_fd : ℕ
  pub session : ℕ
  pub base : ℕ
  pub min_seq : ℕ
  pub server_addr : Addr
  pub packages : List Message
  pub pending_packages : List Message

-- What the daemon hands to `sendto`: an `int` or bytes to a front process, packages to the troll
-- through one of its sockets, requests to the timer process.
pub data Output : Type 0 where
  reply : Addr → ℕ → Output
  reply_bytes : Addr → List ℕ → Output
  send_message : ℕ → Message → Output
  send_ack : ℕ → Ack → Output
  start_timer : ℕ → ℕ → Rto → Output
  cancel_timer : ℕ → ℕ → Output

-- The global variables. A GHashTable is a list of its entries, in the order of its iterators;
-- `sent` is what has been sent so far, the last first.
pub record Tcpd : Type 0 where
  pub binded_sockets : List BindedSocket
  pub accepted_sockets : List AcceptedSocket
  pub waiting_accept_sockets : List AcceptedSocket
  pub connected_sockets : List ConnectedSocket
  pub in_buffer_packages : ℤ
  pub estimator : Estimator
  pub sent : List Output

-- `sendto` whose failure ends the process with a code.
unfoldable pub sendto : (Output → Bool) → ℕ → Output → Tcpd → Outcome Tcpd
sendto sends code out t = if sends out then done (record t { sent = out ∷ t.sent }) else exit code

-- A request to the timer process, whose result the daemon ignores.
unfoldable pub notify : (Output → Bool) → Output → List Output → List Output
notify sends out sent = if sends out then out ∷ sent else sent

-- `AcceptedSockets` by session: each entry stands under its own session.
unfoldable pub find_accepted : ℕ → List AcceptedSocket → Option AcceptedSocket
find_accepted session [] = none
find_accepted session (s ∷ l) = if s.session == session then some s else find_accepted session l

-- The struct of that session after an assignment to its fields.
unfoldable pub update_accepted : AcceptedSocket → List AcceptedSocket → List AcceptedSocket
update_accepted new [] = []
update_accepted new (s ∷ l) =
    if s.session == new.session then new ∷ l else s ∷ update_accepted new l

-- `g_hash_table_insert`: an entry with the same key is replaced.
unfoldable pub insert_accepted : AcceptedSocket → List AcceptedSocket → List AcceptedSocket
insert_accepted new [] = new ∷ []
insert_accepted new (s ∷ l) =
    if s.session == new.session then new ∷ l else s ∷ insert_accepted new l

-- `ConnectedSockets` by descriptor.
unfoldable pub find_connected : ℕ → List ConnectedSocket → Option ConnectedSocket
find_connected fd [] = none
find_connected fd (s ∷ l) = if s.socket_fd == fd then some s else find_connected fd l

unfoldable pub insert_connected : ConnectedSocket → List ConnectedSocket → List ConnectedSocket
insert_connected new [] = new ∷ []
insert_connected new (s ∷ l) =
    if s.socket_fd == new.socket_fd then new ∷ l else s ∷ insert_connected new l

unfoldable pub update_connected : ConnectedSocket → List ConnectedSocket → List ConnectedSocket
update_connected new [] = []
update_connected new (s ∷ l) =
    if s.socket_fd == new.socket_fd then new ∷ l else s ∷ update_connected new l

-- The packages among the outputs.
abbrev pub posted : List Output → List Message
posted [] = []
posted (send_message fd m ∷ l) = m ∷ posted l
posted (reply a x ∷ l) = posted l
posted (reply_bytes a bytes ∷ l) = posted l
posted (send_ack fd a ∷ l) = posted l
posted (start_timer session seq rto ∷ l) = posted l
posted (cancel_timer session seq ∷ l) = posted l
