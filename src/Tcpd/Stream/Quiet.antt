-- ===== src/Tcpd/Stream/Quiet.antt =====
-- Steps that leave the tables of the receiving side alone and send nothing to a reader.
use network_proj.Prelude.{ℕ, ◌≡◌, refl, sym, subst, Bool, List, ◌∷◌, All, if_cases}
use network_proj.Net.{Addr, exit, OnDone}
use network_proj.Tcpd.State.{AcceptedSocket, Tcpd, Output, sendto}
use network_proj.Tcpd.Stream.{delivered, Asks, Idle, Phase, Flow}

abbrev pub Quiet : (Addr → Bool) → Tcpd → Tcpd → Type 0
Quiet reader t t' =
    (t'.accepted_sockets ≡ t.accepted_sockets)
    × (t'.waiting_accept_sockets ≡ t.waiting_accept_sockets)
    × (delivered reader t'.sent ≡ delivered reader t.sent)

module _ (reader : Addr → Bool) (k : ℕ) (S : List ℕ → AcceptedSocket → Type 0) where
  pub Quiet-Flow : (t t' : Tcpd) → Quiet reader t t' → Flow reader k S t → Flow reader k S t'
  Quiet-Flow t t' q h = record {
    asks = subst (All (Asks reader k)) (sym q.0) h.asks;
    idle = subst (All Idle) (sym q.1) h.idle;
    phase =
        subst (λ d. Phase k S d t'.accepted_sockets t'.waiting_accept_sockets) (sym q.2)
          (subst (λ l. Phase k S (delivered reader t.sent) l t'.waiting_accept_sockets) (sym q.0)
            (subst (Phase k S (delivered reader t.sent) t.accepted_sockets) (sym q.1) h.phase));
  }

  -- An output that is no answer to a reader.
  pub sendto-Flow :
      (sends : Output → Bool) (code : ℕ) (out : Output) (t : Tcpd)
      → delivered reader (out ∷ t.sent) ≡ delivered reader t.sent
      → Flow reader k S t
      → OnDone (Flow reader k S) (sendto sends code out t)
  unfolding sendto
  sendto-Flow sends code out t quiet h =
      if_cases (OnDone (Flow reader k S)) (sends out) _ (exit code)
        (λ went. Quiet-Flow t (record t { sent = out ∷ t.sent }) (refl, refl, quiet) h)
        (λ failed. tt)
