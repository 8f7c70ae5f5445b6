-- ===== src/Tcpd/Receiver/Accept.antt =====
-- `SolveAcceptCallback`: no process waits in ACCEPT while a connection waits for it.
use network_proj.Prelude.{
  ℕ, ◌≡◌, ◌≢◌, ◌⊎◌, refl, ap, ◌∙◌, sym, Bool, true, false, inl, inr, Bool-cases, ◌==◌, List, [],
  ◌∷◌, ◌++◌, Option, none, some, All, All-append, arith, if◌then◌else◌,
}
use network_proj.Net.{done, OnDone, OnDone-bind, OnDone-any}
use network_proj.Tcpd.State.{BindedSocket, AcceptedSocket, Tcpd, Output, reply, sendto}
use network_proj.Tcpd.Receiver.{
  take_waiting, accept_one, after_accept, accept_callbacks, solve_accept_callback,
}

-- The socket is not accepting, or nothing waits at its descriptor.
abbrev pub Served : List AcceptedSocket → BindedSocket → Type 0
Served waiting b = (b.accepting ≡ false) ⊎ (take_waiting b.socket_fd waiting ≡ none)

none_tail :
    (fd : ℕ) (w : AcceptedSocket) (ws : List AcceptedSocket)
    → take_waiting fd (w ∷ ws) ≡ none
    → (w.socket_fd ≢ fd) × (take_waiting fd ws ≡ none)
unfolding take_waiting
none_tail fd w ws n = ground arith

none_cons :
    (fd : ℕ) (w : AcceptedSocket) (ws : List AcceptedSocket)
    → w.socket_fd ≢ fd
    → take_waiting fd ws ≡ none
    → take_waiting fd (w ∷ ws) ≡ none
unfolding take_waiting
none_cons fd w ws h n = ground arith

-- What a search leaves, by its result at the head and its result in the tail.
abbrev pick :
    Bool
    → AcceptedSocket
    → List AcceptedSocket
    → Option (AcceptedSocket × List AcceptedSocket)
    → Option (AcceptedSocket × List AcceptedSocket)
pick here w ws o =
    if here then some (w, ws) else elim o [ none ↦ none | some (x, r) ↦ some (x, w ∷ r) ]

others : Option (AcceptedSocket × List AcceptedSocket) → List AcceptedSocket
others none = []
others (some (s, r)) = r

picked :
    (fd : ℕ) (here : Bool) (s w : AcceptedSocket) (ws rest : List AcceptedSocket)
    (o : Option (AcceptedSocket × List AcceptedSocket))
    → w.socket_fd ≢ fd
    → take_waiting fd ws ≡ none
    → ((x : AcceptedSocket) (r : List AcceptedSocket) → o ≡ some (x, r) → take_waiting fd r ≡ none)
    → pick here w ws o ≡ some (s, rest)
    → take_waiting fd rest ≡ none
unfolding others
picked fd true s w ws rest o apart n tail e = ap (take_waiting fd) (sym (ap others e)) ∙ n
picked fd false s w ws rest none apart n tail e = cc
picked fd false s w ws rest (some (x, r)) apart n tail e =
    ap (take_waiting fd) (sym (ap others e)) ∙ none_cons fd w r apart (tail x r refl)

-- What is left when one connection is taken holds no new one.
taken_none :
    (fd other : ℕ) (s : AcceptedSocket) (ws rest : List AcceptedSocket)
    → take_waiting fd ws ≡ none
    → take_waiting other ws ≡ some (s, rest)
    → take_waiting fd rest ≡ none
unfolding take_waiting
taken_none fd other s [] rest n t = cc
taken_none fd other s (w ∷ ws) rest n t =
    picked fd (w.socket_fd == other) s w ws rest (take_waiting other ws) (none_tail fd w ws n).0
      (none_tail fd w ws n).1 (λ x r e. taken_none fd other x ws r (none_tail fd w ws n).1 e) t

taken_Served :
    (other : ℕ) (s : AcceptedSocket) (ws rest : List AcceptedSocket) (l : List BindedSocket)
    → take_waiting other ws ≡ some (s, rest)
    → All (Served ws) l
    → All (Served rest) l
taken_Served other s ws rest [] t h = tt
taken_Served other s ws rest (b ∷ l) t h = (still h.0, taken_Served other s ws rest l t h.1)
  where
    still : Served ws b → Served rest b
    still (inl idle) = inl idle
    still (inr n) = inr (taken_none b.socket_fd other s ws rest n t)

module _ (sends : Output → Bool) where
  abbrev waiting_of : BindedSocket → Tcpd → Option (AcceptedSocket × List AcceptedSocket)
  waiting_of b t = if b.accepting then take_waiting b.socket_fd t.waiting_accept_sockets else none

  one_Served :
      (b : BindedSocket) (w : Option (AcceptedSocket × List AcceptedSocket))
      (seen : List BindedSocket) (t : Tcpd)
      → waiting_of b t ≡ w
      → All (Served t.waiting_accept_sockets) seen
      → OnDone
          (λ t'. All (Served t'.waiting_accept_sockets) (seen ++ after_accept sends b w ∷ []))
          (accept_one sends b w t)
  unfolding accept_one
  one_Served b none seen t e h =
      All-append (Served t.waiting_accept_sockets) seen (b ∷ []) h
        (elim (Bool-cases b.accepting) [ inl a ↦ inr (ground arith) | inr idle ↦ inl idle ], tt)
  one_Served b (some (s, rest)) seen t e h =
      OnDone-bind (λ t'. Unit {0}) _ (sendto sends 4 (reply b.accepting_addr s.session) t) _
        (OnDone-any _ _ (λ t'. tt))
        (λ t' u.
          All-append (Served rest) seen (after_accept sends b (some (s, rest)) ∷ [])
            (taken_Served b.socket_fd s t.waiting_accept_sockets rest seen (ground arith) h)
            (inl refl, tt))

  All-Served :
      (seen l : List BindedSocket) (t : Tcpd)
      → All (Served t.waiting_accept_sockets) seen
      → OnDone
          (λ t'. All (Served t'.waiting_accept_sockets) t'.binded_sockets)
          (accept_callbacks sends seen l t)
  unfolding accept_callbacks
  All-Served seen [] t h = h
  All-Served seen (b ∷ l) t h =
      OnDone-bind
        (λ t'. All (Served t'.waiting_accept_sockets) (seen ++ after_accept sends b w ∷ []))
        (λ t'. All (Served t'.waiting_accept_sockets) t'.binded_sockets) (accept_one sends b w t)
        (accept_callbacks sends (seen ++ after_accept sends b w ∷ []) l)
        (one_Served b w seen t refl h)
        (λ t' h'. All-Served (seen ++ after_accept sends b w ∷ []) l t' h')
    where
      w : Option (AcceptedSocket × List AcceptedSocket)
      w = waiting_of b t

  none_waits :
      (waiting : List AcceptedSocket) (l : List BindedSocket)
      → waiting ≡ []
      → All (Served waiting) l
  unfolding take_waiting
  none_waits waiting [] e = tt
  none_waits waiting (b ∷ l) e = (inr (ap (take_waiting b.socket_fd) e), none_waits waiting l e)

  started :
      (t : Tcpd) (waiting : List AcceptedSocket)
      → t.waiting_accept_sockets ≡ waiting
      → OnDone
          (λ t'. All (Served t'.waiting_accept_sockets) t'.binded_sockets)
          (elim waiting [ [] ↦ done t | s ∷ l ↦ accept_callbacks sends [] t.binded_sockets t ])
  started t [] e = none_waits t.waiting_accept_sockets t.binded_sockets e
  started t (s ∷ l) e = All-Served [] t.binded_sockets t tt

  -- After `SolveAcceptCallback` no process waits in ACCEPT on a descriptor at which a connection
  -- waits to be accepted: a bound socket that is still accepting has none.
  pub solve_accept_callback-Served :
      (t : Tcpd)
      → OnDone
          (λ t'. All (Served t'.waiting_accept_sockets) t'.binded_sockets)
          (solve_accept_callback sends t)
  unfolding solve_accept_callback
  solve_accept_callback-Served t = started t t.waiting_accept_sockets refl
