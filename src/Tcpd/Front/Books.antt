-- ===== src/Tcpd/Front/Books.antt =====
-- `InBufferPackages` through SEND and CONNECT.
use network_proj.Prelude.{
  ℕ, ◌+◌, ◌≡◌, refl, ap, ◌∙◌, List, [], ◌∷◌, ◌++◌, Option, none, some, arith, length-append, ◌%◌,
  ◌^◌, Bool,
}
use network_proj.Prelude.Int.{pos, ◌+ℤ◌, int_laws}
use network_proj.Net.{Addr, OnDone, OnDone-map}
use network_proj.Tcpd.Message.{Message}
use network_proj.Tcpd.State.{ConnectedSocket, Tcpd, Output, reply, find_connected, insert_connected}
use network_proj.Tcpd.Front.{new_message, send_found, send_body, tcpd_send, tcpd_connect}
use network_proj.Tcpd.Sender.Count.{
  held, outstanding, find_connected-socket_fd, outstanding-insert_connected,
  outstanding-update_connected, insert_connected-update_connected, insert_connected-DistinctFds,
}
use network_proj.Tcpd.Sender.Ledger.{Ledger, replaced-Counts, sendto-Ledger}

module _ (sends : Output → Bool) (from : Addr) where
  sent_Ledger :
      (fd len k : ℕ) (buf : List ℕ) (fresh : Message) (o : Option ConnectedSocket) (t : Tcpd)
      → find_connected fd t.connected_sockets ≡ o
      → Ledger k t
      → OnDone (Ledger k) (send_found sends from len buf fresh o t)
  unfolding send_found
  sent_Ledger fd len k buf fresh none t f h = tt
  sent_Ledger fd len k buf fresh (some c) t f h =
      sendto-Ledger sends k 4 (reply from (len % 2 ^ 32)) _ (
        replaced-Counts k
          (record c {
            base = (c.base + 1) % 2 ^ 32;
            pending_packages = c.pending_packages ++ new_message c fresh len buf ∷ [];
          })
          c t (t.in_buffer_packages +ℤ pos 1)
          (ap (λ n. find_connected n t.connected_sockets)
              (find_connected-socket_fd fd c t.connected_sockets f)
            ∙ f)
          (omega (int_laws, length-append c.pending_packages (new_message c fresh len buf ∷ []))) h)

  body_Ledger :
      (fd len k : ℕ) (buf : Option (List ℕ)) (fresh : Message) (t : Tcpd)
      → Ledger k t
      → OnDone (Ledger k) (send_body sends from fd len buf fresh t)
  unfolding send_body
  body_Ledger fd len k none fresh t h = tt
  body_Ledger fd len k (some buf) fresh t h =
      sent_Ledger fd len k buf fresh (find_connected fd t.connected_sockets) t refl h

  -- SEND keeps `InBufferPackages` as far above the packages that the sockets hold as it was (so it
  -- is raised by one for the package that waits), and no two sockets under one descriptor.
  pub tcpd_send-Ledger :
      (args : Option (ℕ × ℕ)) (buf : Option (List ℕ)) (fresh : Message) (k : ℕ) (t : Tcpd)
      → Ledger k t
      → OnDone (Ledger k) (tcpd_send sends from args buf fresh t)
  unfolding tcpd_send
  tcpd_send-Ledger none buf fresh k t h = tt
  tcpd_send-Ledger (some (fd, len)) buf fresh k t h =
      ground (arith, body_Ledger fd len k buf fresh t h)

-- What the struct under a descriptor holds, if there is one.
abbrev pub held_under : ℕ → List ConnectedSocket → ℕ
held_under fd l = elim (find_connected fd l) [ none ↦ 0 | some c ↦ held c ]

inserted_Ledger :
    (k : ℕ) (new : ConnectedSocket) (o : Option ConnectedSocket) (t : Tcpd)
    → find_connected new.socket_fd t.connected_sockets ≡ o
    → held new ≡ 0
    → Ledger k t
    → Ledger
        (k + elim o [ none ↦ 0 | some c ↦ held c ])
        (record t { connected_sockets = insert_connected new t.connected_sockets })
inserted_Ledger k new none t f e h = (
  h.0 ∙ ap pos (omega (arith, e, outstanding-insert_connected new t.connected_sockets f)),
  insert_connected-DistinctFds new t.connected_sockets h.1,
)
inserted_Ledger k new (some c) t f e h = (
  h.0
      ∙ ap pos (
          omega (
            arith,
            e,
            ap outstanding (insert_connected-update_connected new c t.connected_sockets f),
            outstanding-update_connected new c t.connected_sockets f,
          )),
  insert_connected-DistinctFds new t.connected_sockets h.1,
)

-- CONNECT on a descriptor that is connected already drops the struct with all its packages, but the
-- counter stays: it is then above the packages that are left by as many more as the struct held. On
-- another descriptor it is as far above them as it was. No two sockets come under one descriptor.
pub tcpd_connect-Ledger :
    (sends : Output → Bool) (from addr : Addr) (fd rand k : ℕ) (t : Tcpd)
    → Ledger k t
    → OnDone
        (Ledger (k + held_under fd t.connected_sockets))
        (tcpd_connect sends from (some (fd, addr)) rand t)
unfolding tcpd_connect
tcpd_connect-Ledger sends from addr fd rand k t h =
    sendto-Ledger sends (k + held_under fd t.connected_sockets) 4 (reply from 0) _ (
      inserted_Ledger k
        (record {
          socket_fd = fd;
          session = rand;
          base = 0;
          min_seq = 0;
          server_addr = addr;
          packages = [];
          pending_packages = [];
        })
        (find_connected fd t.connected_sockets) t refl refl h)

-- The counter is never below the number of packages that the sockets hold.
abbrev pub Accounts : Tcpd → Type 0
Accounts t = (k : ℕ) × Ledger k t

pub connect_Accounts :
    (sends : Output → Bool) (from : Addr) (args : Option (ℕ × Addr)) (rand : ℕ) (t : Tcpd)
    → Accounts t
    → OnDone Accounts (tcpd_connect sends from args rand t)
unfolding tcpd_connect
connect_Accounts sends from none rand t h = tt
connect_Accounts sends from (some (fd, addr)) rand t (k, h) =
    OnDone-map (Ledger (k + held_under fd t.connected_sockets)) Accounts
      (tcpd_connect sends from (some (fd, addr)) rand t) (λ t' h'. (_, h'))
      (tcpd_connect-Ledger sends from addr fd rand k t h)
