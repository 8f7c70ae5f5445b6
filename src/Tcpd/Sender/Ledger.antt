-- ===== src/Tcpd/Sender/Ledger.antt =====
-- `InBufferPackages` through the operations of the sender.
use mathlib.Core.List.{Perm, perm_middle, append_assoc}
use mathlib.Core.List.Perm
use network_proj.Prelude.{
  ℕ, ◌+◌, ◌≡◌, refl, sym, ap, subst, ◌∙◌, Bool, List, [], ◌∷◌, ◌++◌, Option, none, some, map, arith,
  length, length-append,
}
use network_proj.Prelude.Int.{ℤ, pos, pos_part, neg_part, ◌+ℤ◌, ◌-ℤ◌, int_laws}
use network_proj.Net.{Outcome, done, exit, OnDone}
use network_proj.Timer.Request.{TimerExpired}
use network_proj.Tcpd.Message.{Message, Ack}
use network_proj.Tcpd.State.{
  ConnectedSocket, Tcpd, Output, sendto, find_connected, update_connected,
}
use network_proj.Tcpd.Rto.{measure}
use network_proj.Tcpd.Sender.{
  unlink, expire_package, find_session, acknowledged, recv_ack, timer_found, recv_timer,
  solve_send_callback,
}
use network_proj.Tcpd.Sender.Count.{
  held, outstanding, Counts, DistinctFds, outstanding-update_connected,
  update_connected-DistinctFds, find_connected-of_session,
}
use network_proj.Tcpd.Sender.Unlink.{
  Unlinks, unlink-Unlinks, all_packages, expire_package-held, expire_package-socket_fd,
}
use network_proj.Tcpd.Sender.Advance.{going, staying, least_of, advance}
use network_proj.Tcpd.Sender.Sweep.{Advances, solve_send_callback-Advances}

partition-perm : (least : ℕ) (l : List Message) → Perm (going least l ++ staying least l) l
unfolding going staying
partition-perm least [] = Perm.refl []
partition-perm least (m ∷ l) = ground (
  arith,
  Perm.cons m (partition-perm least l),
  Perm.trans (perm_middle {a = m} (going least l) (staying least l))
      (Perm.cons m (partition-perm least l)),
)

partition-length :
    (least : ℕ) (l : List Message) → length (going least l) + length (staying least l) ≡ length l
unfolding going staying
partition-length least [] = refl
partition-length least (m ∷ l) = ground (arith, partition-length least l)

-- A socket keeps its packages through `SolveSendCallback`.
pub advance-perm : (c : ConnectedSocket) → Perm (all_packages (advance c)) (all_packages c)
advance-perm c =
    subst (λ l. Perm l (all_packages c))
      (sym (
        append_assoc c.packages (going (least_of c) c.pending_packages)
          (staying (least_of c) c.pending_packages)))
      (Perm.append (Perm.refl c.packages) (partition-perm (least_of c) c.pending_packages))

pub held-advance : (c : ConnectedSocket) → held (advance c) ≡ held c
held-advance c = omega (
  arith,
  length-append c.packages (going (least_of c) c.pending_packages),
  partition-length (least_of c) c.pending_packages,
)

pub outstanding-advance : (l : List ConnectedSocket) → outstanding (map advance l) ≡ outstanding l
unfolding outstanding
outstanding-advance [] = refl
outstanding-advance (c ∷ l) = omega (arith, held-advance c, outstanding-advance l)

find_connected-advance :
    (fd : ℕ) (l : List ConnectedSocket)
    → find_connected fd l ≡ none
    → find_connected fd (map advance l) ≡ none
unfolding find_connected
find_connected-advance fd [] e = refl
find_connected-advance fd (c ∷ l) e = ground (arith, find_connected-advance fd l)

pub advance-DistinctFds : (l : List ConnectedSocket) → DistinctFds l → DistinctFds (map advance l)
advance-DistinctFds [] d = tt
advance-DistinctFds (c ∷ l) d =
    (find_connected-advance c.socket_fd l d.0, advance-DistinctFds l d.1)

-- The counter is `k` above the packages that the sockets hold, and no descriptor has two structs.
abbrev pub Ledger : ℕ → Tcpd → Type 0
Ledger k t = Counts k t × DistinctFds t.connected_sockets

pub replaced-Counts :
    (k : ℕ) (new c : ConnectedSocket) (t : Tcpd) (n : ℤ)
    → find_connected new.socket_fd t.connected_sockets ≡ some c
    → t.in_buffer_packages +ℤ pos (held new) ≡ n +ℤ pos (held c)
    → Ledger k t
    → Ledger k (record t {
      connected_sockets = update_connected new t.connected_sockets;
      in_buffer_packages = n;
    })
replaced-Counts k new c t n f e h = (
  omega (
    int_laws,
    outstanding-update_connected new c t.connected_sockets f,
    ap pos_part h.0,
    ap neg_part h.0,
    ap pos_part e,
    ap neg_part e,
  ),
  update_connected-DistinctFds new t.connected_sockets h.1,
)

kept-Counts :
    (k : ℕ) (new c : ConnectedSocket) (t : Tcpd)
    → find_connected new.socket_fd t.connected_sockets ≡ some c
    → held new ≡ held c
    → Ledger k t
    → Ledger k (record t { connected_sockets = update_connected new t.connected_sockets })
kept-Counts k new c t f e h =
    replaced-Counts k new c t t.in_buffer_packages f (ap (λ n. t.in_buffer_packages +ℤ pos n) e) h

acknowledged-Ledger :
    (k session seq : ℕ) (c : ConnectedSocket) (o : Option (Message × List Message)) (t : Tcpd)
    → Unlinks session seq c.packages o
    → find_connected c.socket_fd t.connected_sockets ≡ some c
    → Ledger k t
    → Ledger k (acknowledged c o t)
acknowledged-Ledger k session seq c none t u f h = h
acknowledged-Ledger k session seq c (some (m, rest)) t u f h =
    replaced-Counts k (record c { packages = rest }) c t (t.in_buffer_packages -ℤ pos 1) f
      (omega (int_laws, u.1)) h

module _ (sends : Output → Bool) where
  pub sendto-Ledger :
      (k code : ℕ) (out : Output) (t : Tcpd)
      → Ledger k t
      → OnDone (Ledger k) (sendto sends code out t)
  unfolding sendto
  sendto-Ledger k code out t h = ground arith

  -- An acknowledgement of a socket of the table keeps `InBufferPackages` as far above the packages
  -- that the sockets hold as it was (so it is lowered just when a package leaves the window), and
  -- no two sockets under one descriptor.
  pub recv_ack-Ledger :
      (c : ConnectedSocket) (now k : ℕ) (a : Option Ack) (t : Tcpd)
      → find_connected c.socket_fd t.connected_sockets ≡ some c
      → Ledger k t
      → OnDone (Ledger k) (recv_ack sends c now a t)
  unfolding recv_ack
  recv_ack-Ledger c now k none t f h = tt
  recv_ack-Ledger c now k (some a) t f h = ground (
    arith,
    acknowledged-Ledger k a.session a.seq_num c (unlink a.session a.seq_num c.packages)
        (record t { estimator = measure now t.estimator })
        (unlink-Unlinks a.session a.seq_num c.packages) f h,
  )

  solved_Ledger :
      (k : ℕ) (t : Tcpd) (o : Outcome Tcpd) → Advances sends t o → Ledger k t → OnDone (Ledger k) o
  solved_Ledger k t (done t') a h = (
    a.2
        ∙ h.0
        ∙ ap (λ n. pos (n + k))
            (sym (outstanding-advance t.connected_sockets) ∙ ap outstanding (sym a.1)),
    subst DistinctFds (sym a.1) (advance-DistinctFds t.connected_sockets h.1),
  )
  solved_Ledger k t (exit code) a h = tt

  -- Sending moves packages from the pending ones to the window, which the counter does not see.
  pub solve_send_callback-Ledger :
      (clock : List Output → ℕ) (k : ℕ) (t : Tcpd)
      → Ledger k t
      → OnDone (Ledger k) (solve_send_callback sends clock t)
  solve_send_callback-Ledger clock k t h =
      solved_Ledger k t (solve_send_callback sends clock t)
        (solve_send_callback-Advances sends clock t) h

expired_Ledger :
    (k : ℕ) (e : TimerExpired) (o : Option ConnectedSocket) (t : Tcpd)
    → find_session e.session t.connected_sockets ≡ o
    → Ledger k t
    → OnDone (Ledger k) (timer_found e o t)
unfolding timer_found
expired_Ledger k e none t f h = tt
expired_Ledger k e (some c) t f h =
    kept-Counts k (expire_package e.session e.seq_num c) c t
      (ap (λ fd. find_connected fd t.connected_sockets)
          (expire_package-socket_fd e.session e.seq_num c)
        ∙ find_connected-of_session e.session c t.connected_sockets h.1 f)
      (expire_package-held e.session e.seq_num c) h

-- An expired timer keeps the counter right: its package waits to be sent again.
pub recv_timer-Ledger :
    (k : ℕ) (e : Option TimerExpired) (t : Tcpd) → Ledger k t → OnDone (Ledger k) (recv_timer e t)
unfolding recv_timer
recv_timer-Ledger k none t h = tt
recv_timer-Ledger k (some e) t h =
    expired_Ledger k e (find_session e.session t.connected_sockets) t refl h
