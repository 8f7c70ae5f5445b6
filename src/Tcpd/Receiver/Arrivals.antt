-- ===== src/Tcpd/Receiver/Arrivals.antt =====
-- `RecvData` and `SolveAcceptCallback`: what a session has, where its packages are stored, and how
-- its socket comes to the table of the accepted ones.
use native.Mathlib.Decide.{ℕ_discrete}
use network_proj.Prelude.{
  ℕ, ◌≡◌, ◌≢◌, inl, inr, refl, sym, ◌∙◌, subst, Bool, true, if_cases, List, [], ◌∷◌, ◌++◌, Option,
  none, some, All-append, arith,
}
use network_proj.Net.{Addr, done, OnDone}
use network_proj.Tcpd.Message.{Message, is_intact}
use network_proj.Tcpd.State.{AcceptedSocket, Tcpd, Output, send_ack, find_accepted, update_accepted}
use network_proj.Tcpd.Receiver.{
  store_package, new_ack, new_accepted, store_waiting, store_accepted, store, recv_data,
}
use network_proj.Tcpd.Stream.{Promise, delivered, Absent, One, Asks, Idle, Phase, Flow}
use network_proj.Tcpd.Stream.Table.{
  find_accepted-session, find_accepted-All, update_accepted-All, One-find, One-found, update-One,
  append-One_new, append-One_other,
}
use network_proj.Tcpd.Stream.Quiet.{sendto-Flow}

-- Storing a package leaves the session and the request alone.
store_package-session : (m : Message) (s : AcceptedSocket) → (store_package m s).session ≡ s.session
unfolding store_package
store_package-session m s = ground arith

store_package-Idle : (m : Message) (s : AcceptedSocket) → Idle s → Idle (store_package m s)
unfolding store_package
store_package-Idle m s h = ground arith

store_package-Asks :
    (reader : Addr → Bool) (k : ℕ) (m : Message) (s : AcceptedSocket)
    → Asks reader k s
    → Asks reader k (store_package m s)
unfolding store_package
store_package-Asks reader k m s h = ground arith

module _ (reader : Addr → Bool) (k : ℕ) (S : List ℕ → AcceptedSocket → Type 0)
    (C : Message → Type 0) (W : List ℕ → ℕ → Type 0) (promise : Promise S C W) where
  abbrev ByPhase : Tcpd → Type 0
  ByPhase t = Phase k S (delivered reader t.sent) t.accepted_sockets t.waiting_accept_sockets

  module _ (fd : ℕ) (m : Message) (carries : m.session ≡ k → C m) where
    -- What is stored in a socket of the table keeps a table as it is, with the session or without.
    module _ (d : List ℕ) (s : AcceptedSocket) (l : List AcceptedSocket)
        (found : find_accepted m.session l ≡ some s) where
      stored_Absent : Absent k l → Absent k (update_accepted (store_package m s) l)
      stored_Absent h =
          update_accepted-All (λ x. x.session ≢ k) (store_package m s) l
            (λ e.
              find_accepted-All (λ x. x.session ≢ k) m.session s l found h
                (sym (store_package-session m s) ∙ e))
            h

      stored_One : One k (S d) l → One k (S d) (update_accepted (store_package m s) l)
      stored_One h =
          update-One k (S d) (store_package m s) l
            (λ e.
              let same : m.session ≡ k =
                sym (find_accepted-session m.session s l found)
                ∙ sym (store_package-session m s)
                ∙ e in
              promise.stored d m s (carries same)
                (One-find k (S d) s l (subst (λ q. find_accepted q l ≡ some s) same found) h))
            h

    waiting_Flow :
        (t : Tcpd) (o : Option AcceptedSocket)
        → find_accepted m.session t.waiting_accept_sockets ≡ o
        → find_accepted m.session t.accepted_sockets ≡ none
        → Flow reader k S t
        → Flow reader k S (store_waiting fd m o t)
    unfolding store_waiting
    waiting_Flow t (some s) found free h = record {
      asks = h.asks;
      idle =
          update_accepted-All Idle (store_package m s) t.waiting_accept_sockets
            (store_package-Idle m s
              (find_accepted-All Idle m.session s t.waiting_accept_sockets found h.idle))
            h.idle;
      phase = by_phase h.phase;
    }
      where
        by_phase :
            ByPhase t
            → Phase k S
                (delivered reader t.sent)
                t.accepted_sockets
                (update_accepted (store_package m s) t.waiting_accept_sockets)
        by_phase (inl (a, e, inl w)) =
            inl (a, e, inl (stored_Absent [] s t.waiting_accept_sockets found w))
        by_phase (inl (a, e, inr w)) =
            inl (a, e, inr (stored_One [] s t.waiting_accept_sockets found w))
        by_phase (inr (a, w)) = inr (a, stored_Absent [] s t.waiting_accept_sockets found w)
    waiting_Flow t none unknown free h = record {
      asks = h.asks;
      idle =
          All-append Idle t.waiting_accept_sockets (new ∷ []) h.idle
            (store_package-Idle m (new_accepted fd m.session) refl, tt);
      phase = elim (ℕ_discrete m.session k) [
        | yes own ↦ own_phase own h.phase
        | no other ↦ other_phase other h.phase
      ];
    }
      where
        new : AcceptedSocket
        new = store_package m (new_accepted fd m.session)

        session : new.session ≡ m.session
        session = store_package-session m (new_accepted fd m.session)

        Result : Type 0
        Result =
            Phase k S (delivered reader t.sent) t.accepted_sockets
              (t.waiting_accept_sockets ++ new ∷ [])

        more :
            m.session ≢ k
            → Absent k t.waiting_accept_sockets
            → Absent k (t.waiting_accept_sockets ++ new ∷ [])
        more other w =
            All-append (λ x. x.session ≢ k) t.waiting_accept_sockets (new ∷ []) w
              (λ e. other (sym session ∙ e), tt)

        own_phase : m.session ≡ k → ByPhase t → Result
        own_phase own (inl (a, e, inl w)) = inl (
          a,
          e,
          inr (
              append-One_new k (S []) new t.waiting_accept_sockets (session ∙ own)
                (promise.stored [] m (new_accepted fd m.session) (carries own)
                  (promise.fresh fd m.session))
                w),
        )
        own_phase own (inl (a, e, inr w)) = absurd (
            One-found k (S []) t.waiting_accept_sockets w
              (subst (λ q. find_accepted q t.waiting_accept_sockets ≡ none) own unknown))
        own_phase own (inr (a, w)) = absurd (
            One-found k (S (delivered reader t.sent)) t.accepted_sockets a
              (subst (λ q. find_accepted q t.accepted_sockets ≡ none) own free))

        other_phase : m.session ≢ k → ByPhase t → Result
        other_phase other (inl (a, e, inl w)) = inl (a, e, inl (more other w))
        other_phase other (inl (a, e, inr w)) = inl (
          a,
          e,
          inr (
              append-One_other k (S []) new t.waiting_accept_sockets
                (λ e'. other (sym session ∙ e')) w),
        )
        other_phase other (inr (a, w)) = inr (a, more other w)

    accepted_Flow :
        (t : Tcpd) (o : Option AcceptedSocket)
        → find_accepted m.session t.accepted_sockets ≡ o
        → Flow reader k S t
        → Flow reader k S (store_accepted fd m o t)
    unfolding store_accepted
    accepted_Flow t none free h =
        waiting_Flow t (find_accepted m.session t.waiting_accept_sockets) refl free h
    accepted_Flow t (some s) found h = record {
      asks =
          update_accepted-All (Asks reader k) (store_package m s) t.accepted_sockets
            (store_package-Asks reader k m s
              (find_accepted-All (Asks reader k) m.session s t.accepted_sockets found h.asks))
            h.asks;
      idle = h.idle;
      phase = by_phase h.phase;
    }
      where
        by_phase :
            ByPhase t
            → Phase k S
                (delivered reader t.sent)
                (update_accepted (store_package m s) t.accepted_sockets)
                t.waiting_accept_sockets
        by_phase (inl (a, e, w)) = inl (stored_Absent [] s t.accepted_sockets found a, e, w)
        by_phase (inr (a, w)) =
            inr (stored_One (delivered reader t.sent) s t.accepted_sockets found a, w)

  pub recv_data-Flow :
      (sends : Output → Bool) (fd : ℕ) (p : Option (Message × Addr)) (t : Tcpd)
      → ((m : Message) (remote : Addr)
          → p ≡ some (m, remote)
          → is_intact m ≡ true
          → m.session ≡ k
          → C m)
      → Flow reader k S t
      → OnDone (Flow reader k S) (recv_data sends fd p t)
  unfolding recv_data store
  recv_data-Flow sends fd none t honest h = tt
  recv_data-Flow sends fd (some (m, remote)) t honest h =
      if_cases (OnDone (Flow reader k S)) (is_intact m) _ (done t)
        (λ intact.
          sendto-Flow reader k S sends 5 (send_ack fd (new_ack m remote))
            (store_accepted fd m (find_accepted m.session t.accepted_sockets) t)
            (unfold delivered in refl)
            (accepted_Flow fd m (honest m remote refl intact) t
              (find_accepted m.session t.accepted_sockets) refl h))
        (λ garbled. h)
