-- ===== src/Tcpd/Sender/Standing.antt =====
-- The loop over the connected sockets: the structs to come are those of the table.
use network_proj.Prelude.{
  ℕ, ◌≡◌, ◌≢◌, refl, sym, ◌∙◌, Bool, List, [], ◌∷◌, Option, none, some, All, arith,
}
use network_proj.Net.{OnDone}
use network_proj.Tcpd.Message.{Message, Ack}
use network_proj.Tcpd.Rto.{measure}
use network_proj.Tcpd.State.{ConnectedSocket, Tcpd, Output, find_connected, update_connected}
use network_proj.Tcpd.Sender.{unlink, acknowledged, recv_ack}
use network_proj.Tcpd.Sender.Count.{DistinctFds}

abbrev pub Stands : List ConnectedSocket → ConnectedSocket → Type 0
Stands table c = find_connected c.socket_fd table ≡ some c

-- No struct of the list has the descriptor.
absent :
    (fd : ℕ) (d : ConnectedSocket) (l : List ConnectedSocket)
    → find_connected fd (d ∷ l) ≡ none
    → (d.socket_fd ≢ fd) × (find_connected fd l ≡ none)
unfolding find_connected
absent fd d l e = ground arith

behind_Stands :
    (c : ConnectedSocket) (table l : List ConnectedSocket)
    → find_connected c.socket_fd l ≡ none
    → All (Stands table) l
    → All (Stands (c ∷ table)) l
behind_Stands c table [] e h = tt
behind_Stands c table (d ∷ l) e h =
    (unfold find_connected in ground (arith, apart.0, h.0), behind_Stands c table l apart.1 h.1)
  where
    apart : (d.socket_fd ≢ c.socket_fd) × (find_connected c.socket_fd l ≡ none)
    apart = absent c.socket_fd d l e

pub table-Stands : (l : List ConnectedSocket) → DistinctFds l → All (Stands l) l
table-Stands [] d = tt
table-Stands (c ∷ l) d =
    (unfold find_connected in ground arith, behind_Stands c l l d.0 (table-Stands l d.1))

find_other :
    (fd : ℕ) (new : ConnectedSocket) (l : List ConnectedSocket)
    → new.socket_fd ≢ fd
    → find_connected fd (update_connected new l) ≡ find_connected fd l
unfolding find_connected update_connected
find_other fd new [] e = refl
find_other fd new (d ∷ l) e = ground (arith, find_other fd new l)

updated_Stands :
    (new : ConnectedSocket) (table l : List ConnectedSocket)
    → find_connected new.socket_fd l ≡ none
    → All (Stands table) l
    → All (Stands (update_connected new table)) l
updated_Stands new table [] e h = tt
updated_Stands new table (d ∷ l) e h = (
  find_other d.socket_fd new table (λ same. apart.0 (sym same)) ∙ h.0,
  updated_Stands new table l apart.1 h.1,
)
  where
    apart : (d.socket_fd ≢ new.socket_fd) × (find_connected new.socket_fd l ≡ none)
    apart = absent new.socket_fd d l e

acknowledged-Stands :
    (c : ConnectedSocket) (o : Option (Message × List Message)) (t : Tcpd)
    (l : List ConnectedSocket)
    → find_connected c.socket_fd l ≡ none
    → All (Stands t.connected_sockets) l
    → All (Stands (acknowledged c o t).connected_sockets) l
acknowledged-Stands c none t l e h = h
acknowledged-Stands c (some (m, rest)) t l e h =
    updated_Stands (record c { packages = rest }) t.connected_sockets l e h

-- An acknowledgement of one socket leaves the others as they are.
pub recv_ack-Stands :
    (sends : Output → Bool) (c : ConnectedSocket) (now : ℕ) (a : Option Ack) (t : Tcpd)
    (l : List ConnectedSocket)
    → find_connected c.socket_fd l ≡ none
    → All (Stands t.connected_sockets) l
    → OnDone (λ t'. All (Stands t'.connected_sockets) l) (recv_ack sends c now a t)
unfolding recv_ack
recv_ack-Stands sends c now none t l e h = tt
recv_ack-Stands sends c now (some a) t l e h = ground (
  arith,
  acknowledged-Stands c (unlink a.session a.seq_num c.packages)
      (record t { estimator = measure now t.estimator }) l e h,
  h,
)
