-- ===== src/Tcpd/Sender/Count.antt =====
-- `InBufferPackages` against the packages that the connected sockets hold. `k` is what the counter
-- is above them: packages that were dropped with their struct.
use network_proj.Prelude.{ℕ, ◌+◌, ◌≡◌, refl, false, List, [], ◌∷◌, none, some, ◌==◌, arith, length}
use network_proj.Prelude.Int.{pos}
use network_proj.Tcpd.State.{
  ConnectedSocket, Tcpd, find_connected, insert_connected, update_connected,
}
use network_proj.Tcpd.Sender.{find_session}

-- The packages of one socket, sent and waiting to be sent.
abbrev pub held : ConnectedSocket → ℕ
held c = length c.packages + length c.pending_packages

unfoldable pub outstanding : List ConnectedSocket → ℕ
outstanding [] = 0
outstanding (c ∷ l) = held c + outstanding l

abbrev pub Counts : ℕ → Tcpd → Type 0
Counts k t = t.in_buffer_packages ≡ pos (outstanding t.connected_sockets + k)

-- No two structs stand under one descriptor.
abbrev pub DistinctFds : List ConnectedSocket → Type 0
DistinctFds [] = Unit {0}
DistinctFds (c ∷ l) = (find_connected c.socket_fd l ≡ none) × DistinctFds l

pub outstanding-update_connected :
    (new c : ConnectedSocket) (l : List ConnectedSocket)
    → find_connected new.socket_fd l ≡ some c
    → outstanding (update_connected new l) + held c ≡ outstanding l + held new
unfolding find_connected update_connected outstanding
outstanding-update_connected new c [] e = cc
outstanding-update_connected new c (d ∷ l) e = ground (arith, outstanding-update_connected new c l)

pub outstanding-insert_connected :
    (new : ConnectedSocket) (l : List ConnectedSocket)
    → find_connected new.socket_fd l ≡ none
    → outstanding (insert_connected new l) ≡ outstanding l + held new
unfolding find_connected insert_connected outstanding
outstanding-insert_connected new [] e = omega arith
outstanding-insert_connected new (d ∷ l) e = ground (arith, outstanding-insert_connected new l)

pub insert_connected-update_connected :
    (new c : ConnectedSocket) (l : List ConnectedSocket)
    → find_connected new.socket_fd l ≡ some c
    → insert_connected new l ≡ update_connected new l
unfolding find_connected insert_connected update_connected
insert_connected-update_connected new c [] e = cc
insert_connected-update_connected new c (d ∷ l) e =
    ground (arith, insert_connected-update_connected new c l)

pub find_connected-update_connected :
    (fd : ℕ) (new : ConnectedSocket) (l : List ConnectedSocket)
    → find_connected fd l ≡ none
    → find_connected fd (update_connected new l) ≡ none
unfolding find_connected update_connected
find_connected-update_connected fd new [] e = refl
find_connected-update_connected fd new (d ∷ l) e =
    ground (arith, find_connected-update_connected fd new l)

pub update_connected-DistinctFds :
    (new : ConnectedSocket) (l : List ConnectedSocket)
    → DistinctFds l
    → DistinctFds (update_connected new l)
unfolding update_connected
update_connected-DistinctFds new [] d = tt
update_connected-DistinctFds new (c ∷ l) d =
    ground
      (arith, update_connected-DistinctFds new l, find_connected-update_connected c.socket_fd new l)

find_connected-insert_connected :
    (fd : ℕ) (new : ConnectedSocket) (l : List ConnectedSocket)
    → find_connected fd l ≡ none
    → (new.socket_fd == fd) ≡ false
    → find_connected fd (insert_connected new l) ≡ none
unfolding find_connected insert_connected
find_connected-insert_connected fd new [] e h = ground arith
find_connected-insert_connected fd new (d ∷ l) e h =
    ground (arith, find_connected-insert_connected fd new l)

pub insert_connected-DistinctFds :
    (new : ConnectedSocket) (l : List ConnectedSocket)
    → DistinctFds l
    → DistinctFds (insert_connected new l)
unfolding insert_connected find_connected
insert_connected-DistinctFds new [] d = (refl, tt)
insert_connected-DistinctFds new (c ∷ l) d =
    ground
      (arith, insert_connected-DistinctFds new l, find_connected-insert_connected c.socket_fd new l)

-- The struct that `RecvTimer` finds by its session stands under its descriptor.
pub find_connected-of_session :
    (session : ℕ) (c : ConnectedSocket) (l : List ConnectedSocket)
    → DistinctFds l
    → find_session session l ≡ some c
    → find_connected c.socket_fd l ≡ some c
unfolding find_session find_connected
find_connected-of_session session c [] d e = cc
find_connected-of_session session c (x ∷ l) d e =
    ground (arith, find_connected-of_session session c l)

pub find_connected-socket_fd :
    (fd : ℕ) (c : ConnectedSocket) (l : List ConnectedSocket)
    → find_connected fd l ≡ some c
    → c.socket_fd ≡ fd
unfolding find_connected
find_connected-socket_fd fd c [] e = cc
find_connected-socket_fd fd c (x ∷ l) e = ground (arith, find_connected-socket_fd fd c l)
