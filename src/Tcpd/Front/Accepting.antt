-- ===== src/Tcpd/Front/Accepting.antt =====
-- `tcpd_ACCEPT` on every branch.
use network_proj.Prelude.{
  ℕ, ◌≡◌, refl, sym, ap, ◌∙◌, Bool, true, false, inl, inr, List, [], ◌∷◌, Option, none, some, ◌==◌,
  if◌then◌else◌, arith, Bool-cases,
}
use network_proj.Net.{Addr, Outcome, done}
use network_proj.Tcpd.State.{BindedSocket, Tcpd, Output, reply, sendto}
use network_proj.Tcpd.Front.{
  AcceptResult, not_found, already, added, behind, accept_loop, accept_end, minus, tcpd_accept,
}

-- The socket of a descriptor.
unfoldable pub find_binded : ℕ → List BindedSocket → Option BindedSocket
find_binded fd [] = none
find_binded fd (b ∷ l) = if b.socket_fd == fd then some b else find_binded fd l

-- No two sockets have one descriptor.
abbrev pub Apart : List BindedSocket → Type 0
Apart [] = Unit {0}
Apart (b ∷ l) = (find_binded b.socket_fd l ≡ none) × Apart l

-- The socket of the descriptor waits for a connection, for a process.
unfoldable pub set_accepting : ℕ → Addr → List BindedSocket → List BindedSocket
set_accepting fd from [] = []
set_accepting fd from (b ∷ l) =
    if b.socket_fd == fd
    then record b { accepting = true; accepting_addr = from } ∷ l
    else b ∷ set_accepting fd from l

accept_loop-absent :
    (fd : ℕ) (from : Addr) (r : AcceptResult) (l : List BindedSocket)
    → find_binded fd l ≡ none
    → accept_loop fd from r l ≡ (r, l)
unfolding accept_loop find_binded
accept_loop-absent fd from r [] h = refl
accept_loop-absent fd from r (b ∷ l) h = ground (arith, accept_loop-absent fd from r l)

abbrev looked_up :
    ℕ → Addr → List BindedSocket → Option BindedSocket → AcceptResult × List BindedSocket
looked_up fd from l none = (not_found, l)
looked_up fd from l (some b) =
    if b.accepting then (already, l) else (added, set_accepting fd from l)

looked_up-behind :
    (fd : ℕ) (from : Addr) (b : BindedSocket) (l : List BindedSocket) (o : Option BindedSocket)
    → (b.socket_fd == fd) ≡ false
    → behind b (looked_up fd from l o) ≡ looked_up fd from (b ∷ l) o
unfolding set_accepting
looked_up-behind fd from b l none other = refl
looked_up-behind fd from b l (some c) other = rw other (ground arith)

same_fd : (a b : ℕ) → (a == b) ≡ true → a ≡ b
same_fd a b h = ground arith

accept_loop-looked_up :
    (fd : ℕ) (from : Addr) (l : List BindedSocket)
    → Apart l
    → accept_loop fd from not_found l ≡ looked_up fd from l (find_binded fd l)
unfolding accept_loop find_binded set_accepting
accept_loop-looked_up fd from [] d = refl
accept_loop-looked_up fd from (b ∷ l) d = elim (Bool-cases (b.socket_fd == fd)) [
  | inl found ↦
      let alone = ap (λ f. find_binded f l) (sym (same_fd b.socket_fd fd found)) ∙ d.0 in
      rw (found, accept_loop-absent fd from added l alone) (rw found refl)
  | inr other ↦ rw other (
      ap (behind b) (accept_loop-looked_up fd from l d.1)
      ∙ looked_up-behind fd from b l (find_binded fd l) other)
]

-- What ACCEPT does with the socket that it finds.
abbrev pub registered : (Output → Bool) → ℕ → Addr → Option BindedSocket → Tcpd → Outcome Tcpd
registered sends fd from none t = sendto sends 4 (reply from (minus 1)) t
registered sends fd from (some b) t =
    if b.accepting
    then sendto sends 4 (reply from (minus 1)) t
    else done (record t { binded_sockets = set_accepting fd from t.binded_sockets })

accept_end-registered :
    (sends : Output → Bool) (fd : ℕ) (from : Addr) (o : Option BindedSocket) (t : Tcpd)
    → accept_end sends from
        (looked_up fd from t.binded_sockets o).0
        (record t { binded_sockets = (looked_up fd from t.binded_sockets o).1 })
      ≡ registered sends fd from o t
unfolding accept_end
accept_end-registered sends fd from none t = refl
accept_end-registered sends fd from (some b) t = elim (Bool-cases b.accepting) [
  | inl busy ↦ rw busy refl
  | inr free ↦ rw free refl
]

-- ACCEPT on a bound descriptor for which no process waits makes this process wait there, and sends
-- nothing yet. Where the descriptor is not bound, or another process waits for it, the process is
-- sent -1 (if that fails the daemon exits with code 4), and nothing else changes. No two bound
-- sockets have one descriptor.
pub tcpd_accept-registered :
    (sends : Output → Bool) (from : Addr) (fd : ℕ) (t : Tcpd)
    → Apart t.binded_sockets
    → tcpd_accept sends from (some fd) t
      ≡ registered sends fd from (find_binded fd t.binded_sockets) t
unfolding tcpd_accept
tcpd_accept-registered sends from fd t d =
    ap (λ (r, l). accept_end sends from r (record t { binded_sockets = l }))
      (accept_loop-looked_up fd from t.binded_sockets d)
    ∙ accept_end-registered sends fd from (find_binded fd t.binded_sockets) t
