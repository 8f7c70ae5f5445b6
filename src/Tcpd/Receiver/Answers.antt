-- ===== src/Tcpd/Receiver/Answers.antt =====
-- `SolveRecvCallback` over all accepted sockets: what it sends to the readers of a session is what
-- the session's own socket holds.
use network_proj.Prelude.{
  ℕ, ◌+◌, ◌≡◌, ◌≢◌, inl, inr, refl, sym, ◌∙◌, subst, Bool, true, false, ltb, ◌==◌, if_cases, List,
  [], ◌∷◌, ◌++◌, All, length, arith,
}
use network_proj.Net.{Addr, exit, OnDone, OnDone-bind}
use network_proj.Tcpd.State.{AcceptedSocket, Tcpd, Output, reply_bytes}
use network_proj.Tcpd.Message.{Message, buf_len}
use network_proj.Tcpd.Receiver.{
  fill_buffer, total_len, recv_callback, recv_callbacks, solve_recv_callback,
}
use network_proj.Tcpd.Stream.{Promise, delivered, Absent, One, Asks, Phase, Flow}
use network_proj.Tcpd.Receiver.Stream.{Same, fill-Same}

module _ (reader : Addr → Bool) (k : ℕ) (S : List ℕ → AcceptedSocket → Type 0)
    (C : Message → Type 0) (W : List ℕ → ℕ → Type 0) (promise : Promise S C W)
    (sends : Output → Bool) where
  -- One answer: to a reader, or to another process.
  delivered-reader :
      (a : Addr) (bytes : List ℕ) (sent : List Output)
      → reader a ≡ true
      → delivered reader (reply_bytes a bytes ∷ sent) ≡ delivered reader sent ++ bytes
  unfolding delivered
  delivered-reader a bytes sent h = rw h refl

  delivered-other :
      (a : Addr) (bytes : List ℕ) (sent : List Output)
      → reader a ≡ false
      → delivered reader (reply_bytes a bytes ∷ sent) ≡ delivered reader sent
  unfolding delivered
  delivered-other a bytes sent h = rw h refl

  -- The socket of the session, and one of another session, after a callback.
  abbrev Own : AcceptedSocket × List Output → Type 0
  Own (s, sent) = (s.session ≡ k) × Asks reader k s × S (delivered reader sent) s

  abbrev Foreign : List Output → AcceptedSocket × List Output → Type 0
  Foreign before (s, sent) =
      (s.session ≢ k) × Asks reader k s × (delivered reader sent ≡ delivered reader before)

  module _ (s : AcceptedSocket) (sent : List Output) (asks : Asks reader k s) where
    filled : AcceptedSocket
    filled = fill_buffer s

    filled-Same : Same s filled
    unfolding filled fill_buffer
    filled-Same = fill-Same (total_len s.packages + 1) s.packages s

    filled-Asks : Asks reader k filled
    filled-Asks = ground (arith, filled-Same.session, filled-Same.wanted, filled-Same.address, asks)

    out : Output
    out = reply_bytes filled.receiving_addr filled.recv_buffer

    asked : (s.receiving_length == 0) ≡ false → reader filled.receiving_addr ≡ (s.session == k)
    asked h = ground (arith, asks, filled-Same.address)

    answered : AcceptedSocket
    answered = record filled { recv_buffer = []; receiving_length = 0 }

    -- The three ways in which the callback returns.
    recv_callback-OnDone :
        (P : AcceptedSocket × List Output → Type 0)
        → P (s, sent)
        → P (filled, sent)
        → ((s.receiving_length == 0) ≡ false
            → length filled.recv_buffer ≡ filled.receiving_length
            → P (answered, out ∷ sent))
        → OnDone P (recv_callback sends s sent)
    unfolding recv_callback filled out answered
    recv_callback-OnDone P idle waits answers =
        if_cases (OnDone P) (s.receiving_length == 0) _ _ (λ none_asked. idle)
          (λ some_asked.
            if_cases (OnDone P) (ltb buf_len s.receiving_length) (exit 5) _ (λ long. tt)
              (λ short.
                if_cases (OnDone P)
                  (length (fill_buffer s).recv_buffer == (fill_buffer s).receiving_length) _ _
                  (λ full.
                    if_cases (OnDone P) (sends out) _ (exit 4)
                      (λ went. answers some_asked (ground arith)) (λ failed. tt))
                  (λ open_. waits)))

    filled-Sound : S (delivered reader sent) s → S (delivered reader sent) filled
    unfolding filled
    filled-Sound h = promise.filled (delivered reader sent) s h

    filled-session : filled.session ≡ s.session
    filled-session = filled-Same.session

    answered-Sound :
        reader filled.receiving_addr ≡ true
        → length filled.recv_buffer ≡ filled.receiving_length
        → S (delivered reader sent) filled
        → S (delivered reader (out ∷ sent)) answered
    unfolding answered out
    answered-Sound of_reader full h =
        subst (λ d. S d answered)
          (sym (delivered-reader filled.receiving_addr filled.recv_buffer sent of_reader))
          (promise.answered (delivered reader sent) filled full h)

    pub recv_callback-Own :
        s.session ≡ k → S (delivered reader sent) s → OnDone Own (recv_callback sends s sent)
    unfolding answered
    recv_callback-Own own h =
        recv_callback-OnDone Own (own, asks, h) (filled-session ∙ own, filled-Asks, filled-Sound h)
          (λ some_asked full. (
            filled-session ∙ own,
            inl refl,
            answered-Sound (ground (arith, asked some_asked)) full (filled-Sound h),
          ))

    pub recv_callback-Foreign : s.session ≢ k → OnDone (Foreign sent) (recv_callback sends s sent)
    unfolding answered out
    recv_callback-Foreign other =
        recv_callback-OnDone (Foreign sent) (other, asks, refl)
          (λ e. other (sym filled-session ∙ e), filled-Asks, refl)
          (λ some_asked full. (
            λ e. other (sym filled-session ∙ e),
            inl refl,
            delivered-other filled.receiving_addr filled.recv_buffer sent
                (ground (arith, asked some_asked)),
          ))

  abbrev Foreigners : List Output → List AcceptedSocket × List Output → Type 0
  Foreigners before (l, sent) =
      Absent k l × All (Asks reader k) l × (delivered reader sent ≡ delivered reader before)

  abbrev Owned : List AcceptedSocket × List Output → Type 0
  Owned (l, sent) = One k (S (delivered reader sent)) l × All (Asks reader k) l

  -- A table without the session.
  recv_callbacks-Foreign :
      (l : List AcceptedSocket) (sent : List Output)
      → Absent k l
      → All (Asks reader k) l
      → OnDone (Foreigners sent) (recv_callbacks sends l sent)
  unfolding recv_callbacks
  recv_callbacks-Foreign [] sent h a = (tt, tt, refl)
  recv_callbacks-Foreign (s ∷ l) sent h a =
      OnDone-bind (Foreign sent) (Foreigners sent) (recv_callback sends s sent) _
        (recv_callback-Foreign s sent a.0 h.0)
        (λ r f.
          OnDone-bind (Foreigners r.1) (Foreigners sent) (recv_callbacks sends l r.1) _
            (recv_callbacks-Foreign l r.1 h.1 a.1) (λ q g. ((f.0, g.0), (f.1, g.1), g.2 ∙ f.2)))

  -- A table with one socket of the session.
  recv_callbacks-Owned :
      (l : List AcceptedSocket) (sent : List Output)
      → One k (S (delivered reader sent)) l
      → All (Asks reader k) l
      → OnDone Owned (recv_callbacks sends l sent)
  unfolding recv_callbacks
  recv_callbacks-Owned [] sent h a = elim h [ ]
  recv_callbacks-Owned (s ∷ l) sent (inl own) a =
      OnDone-bind Own Owned (recv_callback sends s sent) _
        (recv_callback-Own s sent a.0 own.0 own.1)
        (λ r f.
          OnDone-bind (Foreigners r.1) Owned (recv_callbacks sends l r.1) _
            (recv_callbacks-Foreign l r.1 own.2 a.1)
            (λ q g. (inl (f.0, subst (λ d. S d r.0) (sym g.2) f.2, g.0), (f.1, g.1))))
  recv_callbacks-Owned (s ∷ l) sent (inr other) a =
      OnDone-bind (Foreign sent) Owned (recv_callback sends s sent) _
        (recv_callback-Foreign s sent a.0 other.0)
        (λ r f.
          OnDone-bind Owned Owned (recv_callbacks sends l r.1) _
            (recv_callbacks-Owned l r.1 (subst (λ d. One k (S d) l) (sym f.2) other.1) a.1)
            (λ q g. (inr (f.0, g.0), (f.1, g.1))))

  pub solve_recv_callback-Flow :
      (t : Tcpd) → Flow reader k S t → OnDone (Flow reader k S) (solve_recv_callback sends t)
  unfolding solve_recv_callback
  solve_recv_callback-Flow t h = by_phase h.phase
    where
      by_phase :
          Phase k S (delivered reader t.sent) t.accepted_sockets t.waiting_accept_sockets
          → OnDone (Flow reader k S) (solve_recv_callback sends t)
      by_phase (inl before) =
          OnDone-bind (Foreigners t.sent) (Flow reader k S)
            (recv_callbacks sends t.accepted_sockets t.sent) _
            (recv_callbacks-Foreign t.accepted_sockets t.sent before.0 h.asks)
            (λ r f. record {
              asks = f.1;
              idle = h.idle;
              phase = inl (f.0, f.2 ∙ before.1, before.2);
            })
      by_phase (inr after) =
          OnDone-bind Owned (Flow reader k S) (recv_callbacks sends t.accepted_sockets t.sent) _
            (recv_callbacks-Owned t.accepted_sockets t.sent after.0 h.asks)
            (λ r f. record { asks = f.1; idle = h.idle; phase = inr (f.0, after.1) })
