-- ===== src/Tcpd/Sender/Retain.antt =====
-- No package leaves a connection by a timer or by sending.
use mathlib.Core.List.{Perm}
use mathlib.Core.List.Perm
use network_proj.Prelude.{
  ℕ, ◌≡◌, refl, ap, ◌∙◌, sym, subst, Bool, true, false, inl, inr, Bool-cases, ◌==◌, List, [], ◌∷◌,
  Option, none, some, map, arith,
}
use network_proj.Net.{Outcome, done, exit, OnDone}
use network_proj.Timer.Request.{TimerExpired}
use network_proj.Tcpd.State.{ConnectedSocket, Tcpd, Output, find_connected, update_connected}
use network_proj.Tcpd.Sender.{
  expire_package, find_session, timer_found, recv_timer, solve_send_callback,
}
use network_proj.Tcpd.Sender.Count.{DistinctFds, find_connected-of_session}
use network_proj.Tcpd.Sender.Unlink.{
  all_packages, Requeued, expire_package-Requeued, expire_package-perm, expire_package-socket_fd,
  expire_package-session,
}
use network_proj.Tcpd.Sender.Advance.{advance}
use network_proj.Tcpd.Sender.Ledger.{advance-perm}
use network_proj.Tcpd.Sender.Sweep.{Advances, solve_send_callback-Advances}

-- The same sockets with the same packages, each in the window or among the pending ones, in some
-- order.
abbrev pub Retains : List ConnectedSocket → List ConnectedSocket → Type 0
Retains [] l' = l' ≡ []
Retains (c ∷ l) [] = ⊥
Retains (c ∷ l) (c' ∷ l') =
    (c'.socket_fd ≡ c.socket_fd)
    × (c'.session ≡ c.session)
    × Perm (all_packages c') (all_packages c)
    × Retains l l'

Retains-refl : (l : List ConnectedSocket) → Retains l l
Retains-refl [] = refl
Retains-refl (c ∷ l) = (refl, refl, Perm.refl (all_packages c), Retains-refl l)

hit_head :
    (new c d : ConnectedSocket) (l : List ConnectedSocket)
    → (d.socket_fd == new.socket_fd) ≡ true
    → find_connected new.socket_fd (d ∷ l) ≡ some c
    → d ≡ c
unfolding find_connected
hit_head new c d l hit e = ground arith

missed :
    (new c d : ConnectedSocket) (l : List ConnectedSocket)
    → (d.socket_fd == new.socket_fd) ≡ false
    → find_connected new.socket_fd (d ∷ l) ≡ some c
    → find_connected new.socket_fd l ≡ some c
unfolding find_connected
missed new c d l miss e = ground arith

update_Retains :
    (new c : ConnectedSocket) (l : List ConnectedSocket)
    → new.session ≡ c.session
    → Perm (all_packages new) (all_packages c)
    → find_connected new.socket_fd l ≡ some c
    → Retains l (update_connected new l)
unfolding find_connected update_connected
update_Retains new c [] s p e = cc
update_Retains new c (d ∷ l) s p e = elim (Bool-cases (d.socket_fd == new.socket_fd)) [
  | inl hit ↦ rw hit (
    ground arith,
    s ∙ ap (λ (x : ConnectedSocket). x.session) (sym (hit_head new c d l hit e)),
    subst (λ x. Perm (all_packages new) (all_packages x)) (sym (hit_head new c d l hit e)) p,
    Retains-refl l,
  )
  | inr miss ↦
      rw miss (
        refl,
        refl,
        Perm.refl (all_packages d),
        update_Retains new c l s p (missed new c d l miss e),
      )
]

advance-Retains : (l : List ConnectedSocket) → Retains l (map advance l)
advance-Retains [] = refl
advance-Retains (c ∷ l) = (refl, refl, advance-perm c, advance-Retains l)

found_Retains :
    (e : TimerExpired) (o : Option ConnectedSocket) (t : Tcpd)
    → DistinctFds t.connected_sockets
    → find_session e.session t.connected_sockets ≡ o
    → OnDone (λ t'. Retains t.connected_sockets t'.connected_sockets) (timer_found e o t)
unfolding timer_found
found_Retains e none t d f = tt
found_Retains e (some c) t d f =
    update_Retains (expire_package e.session e.seq_num c) c t.connected_sockets
      (expire_package-session e.session e.seq_num c) (expire_package-perm e.session e.seq_num c)
      (ap (λ fd. find_connected fd t.connected_sockets)
          (expire_package-socket_fd e.session e.seq_num c)
        ∙ find_connected-of_session e.session c t.connected_sockets d f)

-- What `RecvTimer` does: the socket of the session has its package queued again.
abbrev pub Expires : Option TimerExpired → Tcpd → Outcome Tcpd → Type 0
Expires none t (done t') = ⊥
Expires none t (exit code) = code ≡ 5
Expires (some e) t (done t') =
    (c c' : ConnectedSocket) × (find_session e.session t.connected_sockets ≡ some c)
    × Requeued e.session e.seq_num c c'
    × (t' ≡ record t { connected_sockets = update_connected c' t.connected_sockets })
    × Retains t.connected_sockets t'.connected_sockets
Expires (some e) t (exit code) = (find_session e.session t.connected_sockets ≡ none) × (code ≡ 5)

found_Expires :
    (e : TimerExpired) (o : Option ConnectedSocket) (t : Tcpd)
    → DistinctFds t.connected_sockets
    → find_session e.session t.connected_sockets ≡ o
    → Expires (some e) t (timer_found e o t)
unfolding timer_found
found_Expires e none t d f = (f, refl)
found_Expires e (some c) t d f = (
  c,
  expire_package e.session e.seq_num c,
  f,
  expire_package-Requeued e.session e.seq_num c,
  refl,
  unfold timer_found in found_Retains e (some c) t d f,
)

-- When a timer has run out, the package that it names, the first of that name in the window of the
-- first socket of its session, waits to be sent again, behind the pending ones; where it is not in
-- the window nothing changes. No other package moves, every socket keeps its packages, and no other
-- table changes. Without such a session, or where `recvfrom` fails, the process ends with code 5. No
-- two sockets have one descriptor.
pub recv_timer-Expires :
    (e : Option TimerExpired) (t : Tcpd)
    → DistinctFds t.connected_sockets
    → Expires e t (recv_timer e t)
unfolding recv_timer
recv_timer-Expires none t d = refl
recv_timer-Expires (some e) t d =
    found_Expires e (find_session e.session t.connected_sockets) t d refl

solved_Retains :
    (sends : Output → Bool) (t : Tcpd) (o : Outcome Tcpd)
    → Advances sends t o
    → OnDone (λ t'. Retains t.connected_sockets t'.connected_sockets) o
solved_Retains sends t (done t') a =
    subst (Retains t.connected_sockets) (sym a.1) (advance-Retains t.connected_sockets)
solved_Retains sends t (exit code) a = tt

-- Sending keeps every package of every socket: what has gone out stays in the window.
solve_send_callback-Retains :
    (sends : Output → Bool) (clock : List Output → ℕ) (t : Tcpd)
    → OnDone
        (λ t'. Retains t.connected_sockets t'.connected_sockets)
        (solve_send_callback sends clock t)
solve_send_callback-Retains sends clock t =
    solved_Retains sends t (solve_send_callback sends clock t)
      (solve_send_callback-Advances sends clock t)
