-- ===== src/Tcpd/Receiver/Handover.antt =====
-- `RecvData` and `SolveAcceptCallback`: what a session has, where its packages are stored, and how
-- its socket comes to the table of the accepted ones.
use network_proj.Prelude.{
  ℕ, ◌≡◌, ◌≢◌, ◌⊎◌, inl, inr, refl, sym, subst, Bool, ◌==◌, if◌then◌else◌, if_cases, List, [], ◌∷◌,
  ◌++◌, Option, none, some, All,
}
use network_proj.Net.{Addr, done, exit, OnDone, OnDone-bind}
use network_proj.Tcpd.State.{
  BindedSocket, AcceptedSocket, Tcpd, Output, reply, sendto, insert_accepted,
}
use network_proj.Tcpd.Receiver.{
  take_waiting, accept_one, after_accept, accept_callbacks, solve_accept_callback,
}
use network_proj.Tcpd.Stream.{delivered, Absent, One, Asks, Idle, Phase, Flow}
use network_proj.Tcpd.Stream.Table.{insert_accepted-All, insert-One_new, insert-One_other}
use network_proj.Tcpd.Stream.Quiet.{Quiet-Flow}

-- `l` is `rest` with `s` put in somewhere.
data Inserted (s : AcceptedSocket) : List AcceptedSocket → List AcceptedSocket → Type 0 where
  here : {rest : List AcceptedSocket} → Inserted s rest (s ∷ rest)
  there :
      {rest l : List AcceptedSocket} (w : AcceptedSocket)
      → Inserted s rest l
      → Inserted s (w ∷ rest) (w ∷ l)

abbrev Took : List AcceptedSocket → Option (AcceptedSocket × List AcceptedSocket) → Type 0
Took l none = Unit {0}
Took l (some (s, rest)) = Inserted s rest l

take_waiting-Took : (fd : ℕ) (l : List AcceptedSocket) → Took l (take_waiting fd l)
unfolding take_waiting
take_waiting-Took fd [] = tt
take_waiting-Took fd (w ∷ l) =
    if_cases (Took (w ∷ l)) (w.socket_fd == fd) (some (w, l)) _ (λ hit. here)
      (λ miss. behind (take_waiting fd l) (take_waiting-Took fd l))
  where
    behind :
        (o : Option (AcceptedSocket × List AcceptedSocket))
        → Took l o
        → Took (w ∷ l) (elim o [ none ↦ none | some (x, r) ↦ some (x, w ∷ r) ])
    behind none h = tt
    behind (some (x, r)) h = there w h

module _ (P : AcceptedSocket → Type 0) where
  Inserted-All :
      {s : AcceptedSocket} {rest l : List AcceptedSocket}
      → Inserted s rest l
      → All P l
      → P s × All P rest
  Inserted-All here h = h
  Inserted-All (there w i) h = let r = Inserted-All i h.1 in (r.0, (h.0, r.1))

module _ (k : ℕ) (P : AcceptedSocket → Type 0) where
  -- The one that is taken has the session, or another one of the rest has it.
  abbrev Parted : AcceptedSocket → List AcceptedSocket → Type 0
  Parted s rest = ((s.session ≡ k) × P s × Absent k rest) ⊎ ((s.session ≢ k) × One k P rest)

  Parted-there :
      (w s : AcceptedSocket) (rest : List AcceptedSocket)
      → w.session ≢ k
      → Parted s rest
      → Parted s (w ∷ rest)
  Parted-there w s rest other (inl own) = inl (own.0, own.1, (other, own.2))
  Parted-there w s rest other (inr r) = inr (r.0, inr (other, r.1))

  Inserted-One :
      {s : AcceptedSocket} {rest l : List AcceptedSocket}
      → Inserted s rest l
      → One k P l
      → Parted s rest
  Inserted-One here h = h
  Inserted-One (there w i) (inl own) =
      let r = Inserted-All (λ s. s.session ≢ k) i own.2 in inr (r.0, inl (own.0, own.1, r.1))
  Inserted-One (there {rest} w i) (inr other) =
      Parted-there w _ rest other.0 (Inserted-One i other.1)

module _ (reader : Addr → Bool) (k : ℕ) (S : List ℕ → AcceptedSocket → Type 0)
    (sends : Output → Bool) where
  handed_Flow :
      (t : Tcpd) (s : AcceptedSocket) (rest : List AcceptedSocket)
      → Inserted s rest t.waiting_accept_sockets
      → Flow reader k S t
      → Flow reader k S (record t {
        accepted_sockets = insert_accepted s t.accepted_sockets;
        waiting_accept_sockets = rest;
      })
  handed_Flow t s rest i h = record {
    asks = insert_accepted-All (Asks reader k) s t.accepted_sockets (inl parts.0) h.asks;
    idle = parts.1;
    phase = by_phase h.phase;
  }
    where
      parts : Idle s × All Idle rest
      parts = Inserted-All Idle i h.idle

      other_session : Absent k t.waiting_accept_sockets → (s.session ≢ k) × Absent k rest
      other_session w = Inserted-All (λ x. x.session ≢ k) i w

      by_phase :
          Phase k S (delivered reader t.sent) t.accepted_sockets t.waiting_accept_sockets
          → Phase k S (delivered reader t.sent) (insert_accepted s t.accepted_sockets) rest
      by_phase (inl (a, e, inl w)) = inl (
        insert_accepted-All (λ x. x.session ≢ k) s t.accepted_sockets (other_session w).0 a,
        e,
        inl (other_session w).1,
      )
      by_phase (inl (a, e, inr w)) = by_part (Inserted-One k (S []) i w)
        where
          by_part :
              Parted k (S []) s rest
              → Phase k S (delivered reader t.sent) (insert_accepted s t.accepted_sockets) rest
          by_part (inl own) = inr (
            insert-One_new k (S (delivered reader t.sent)) s t.accepted_sockets own.0
                (subst (λ d. S d s) (sym e) own.1) a,
            own.2,
          )
          by_part (inr other) = inl (
            insert_accepted-All (λ x. x.session ≢ k) s t.accepted_sockets other.0 a,
            e,
            inr other.1,
          )
      by_phase (inr (a, w)) = inr (
        insert-One_other k (S (delivered reader t.sent)) s t.accepted_sockets (other_session w).0 a,
        (other_session w).1,
      )

  -- The answer to the process that waits in ACCEPT.
  replied_Flow :
      (a : Addr) (x : ℕ) (t : Tcpd)
      → Flow reader k S t
      → OnDone
          (λ t'. Flow reader k S t' × (t'.waiting_accept_sockets ≡ t.waiting_accept_sockets))
          (sendto sends 4 (reply a x) t)
  unfolding sendto delivered
  replied_Flow a x t h =
      if_cases
        (OnDone (λ t'. Flow reader k S t' × (t'.waiting_accept_sockets ≡ t.waiting_accept_sockets)))
        (sends (reply a x)) _ (exit 4)
        (λ went. (
          Quiet-Flow reader k S t (record t { sent = reply a x ∷ t.sent }) (refl, refl, refl) h,
          refl,
        ))
        (λ failed. tt)

  accept_one-Flow :
      (b : BindedSocket) (o : Option (AcceptedSocket × List AcceptedSocket)) (t : Tcpd)
      → Took t.waiting_accept_sockets o
      → Flow reader k S t
      → OnDone (Flow reader k S) (accept_one sends b o t)
  unfolding accept_one
  accept_one-Flow b none t i h = h
  accept_one-Flow b (some (s, rest)) t i h =
      OnDone-bind
        (λ t'. Flow reader k S t' × (t'.waiting_accept_sockets ≡ t.waiting_accept_sockets))
        (Flow reader k S) (sendto sends 4 (reply b.accepting_addr s.session) t) _
        (replied_Flow b.accepting_addr s.session t h)
        (λ t' r. handed_Flow t' s rest (subst (Inserted s rest) (sym r.1) i) r.0)

  accept_callbacks-Flow :
      (seen l : List BindedSocket) (t : Tcpd)
      → Flow reader k S t
      → OnDone (Flow reader k S) (accept_callbacks sends seen l t)
  unfolding accept_callbacks
  accept_callbacks-Flow seen [] t h = Quiet-Flow reader k S t _ (refl, refl, refl) h
  accept_callbacks-Flow seen (b ∷ l) t h =
      OnDone-bind (Flow reader k S) (Flow reader k S) (accept_one sends b w t)
        (accept_callbacks sends (seen ++ after_accept sends b w ∷ []) l)
        (accept_one-Flow b w t
          (if_cases (Took t.waiting_accept_sockets) b.accepting _ none
            (λ waits. take_waiting-Took b.socket_fd t.waiting_accept_sockets) (λ idle. tt))
          h)
        (accept_callbacks-Flow (seen ++ after_accept sends b w ∷ []) l)
    where
      w : Option (AcceptedSocket × List AcceptedSocket)
      w = if b.accepting then take_waiting b.socket_fd t.waiting_accept_sockets else none

  pub solve_accept_callback-Flow :
      (t : Tcpd) → Flow reader k S t → OnDone (Flow reader k S) (solve_accept_callback sends t)
  unfolding solve_accept_callback
  solve_accept_callback-Flow t h =
      elim t.waiting_accept_sockets
        as (λ w.
          OnDone (Flow reader k S)
            (elim w [ [] ↦ done t | s ∷ l ↦ accept_callbacks sends [] t.binded_sockets t ])) [
              | [] ↦ h
              | s ∷ l ↦ accept_callbacks-Flow [] t.binded_sockets t h
            ]
