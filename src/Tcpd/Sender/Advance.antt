-- ===== src/Tcpd/Sender/Advance.antt =====
-- `SolveSendCallback` against a description of its effect on the tables.
use network_proj.Prelude.{
  ℕ, ◌+◌, ◌≤◌, ◌<◌, ◌≡◌, ◌⊎◌, inl, inr, refl, sym, ap, ◌∙◌, All, if_cases, ltb→lt, Bool, true,
  false, ◌||◌, List, [], ◌∷◌, ◌++◌, ltb, if◌then◌else◌, arith,
}
use mathlib.Core.Bool.{not}
use mathlib.Core.List.{append_assoc, append-nil}
use network_proj.Net.{Outcome, done, exit, ◌>>=◌}
use network_proj.Tcpd.Message.{Message, max_buffer_packages}
use network_proj.Tcpd.Rto.{Rto, timeout}
use network_proj.Tcpd.State.{
  ConnectedSocket, Output, reply, reply_bytes, send_message, send_ack, start_timer, cancel_timer,
  notify,
}
use network_proj.Tcpd.Sender.{Sending, transmitted, send_pending, min_seq_of, min_seq_start}

-- The pending packages that lie in the window which starts at `least`, and the others.
unfoldable pub going : ℕ → List Message → List Message
going least [] = []
going least (m ∷ l) =
    if ltb m.seq_num (least + max_buffer_packages) then m ∷ going least l else going least l

unfoldable pub staying : ℕ → List Message → List Message
staying least [] = []
staying least (m ∷ l) =
    if ltb m.seq_num (least + max_buffer_packages) then staying least l else m ∷ staying least l

-- Whether one of these packages cannot be sent.
unfoldable pub refused : (Output → Bool) → ℕ → List Message → Bool
refused sends fd [] = false
refused sends fd (m ∷ l) = not (sends (send_message fd m)) || refused sends fd l

-- The packages among the outputs, the last first.
unfoldable pub messages : List Output → List (ℕ × Message)
messages [] = []
messages (reply a x ∷ l) = messages l
messages (reply_bytes a x ∷ l) = messages l
messages (send_message fd m ∷ l) = (fd, m) ∷ messages l
messages (send_ack fd a ∷ l) = messages l
messages (start_timer s q r ∷ l) = messages l
messages (cancel_timer s q ∷ l) = messages l

unfoldable pub posted : ℕ → List Message → List (ℕ × Message) → List (ℕ × Message)
posted fd [] before = before
posted fd (m ∷ l) before = posted fd l ((fd, m) ∷ before)

-- Some packages go out in order, each with a request for its timer behind it, where this can be
-- sent, and nothing else does.
abbrev pub Goes : (Output → Bool) → ℕ → List Message → List Output → List Output → Type 0
Goes sends fd [] before sent = sent ≡ before
Goes sends fd (m ∷ l) before sent =
    (rto : Rto) × Goes sends fd l
      (notify sends (start_timer m.session m.seq_num rto) (send_message fd m ∷ before)) sent

-- `n` is the number of one of these packages.
abbrev pub Among : ℕ → List Message → Type 0
Among n [] = ⊥
Among n (m ∷ l) = (n ≡ m.seq_num) ⊎ Among n l

-- `n` is the least of a start value and the numbers of these packages.
abbrev pub IsLeast : ℕ → List Message → ℕ → Type 0
IsLeast start l n = (n ≤ start) × All (λ m. n ≤ m.seq_num) l × ((n ≡ start) ⊎ Among n l)

lower :
    (start n : ℕ) (m : Message) (l : List Message)
    → m.seq_num < start
    → IsLeast m.seq_num l n
    → IsLeast start (m ∷ l) n
lower start n m l h (below, all, inl here) = (omega arith, (below, all), inr (inl here))
lower start n m l h (below, all, inr later) = (omega arith, (below, all), inr (inr later))

higher :
    (start n : ℕ) (m : Message) (l : List Message)
    → start ≤ m.seq_num
    → IsLeast start l n
    → IsLeast start (m ∷ l) n
higher start n m l h (below, all, inl here) = (below, (omega arith, all), inl here)
higher start n m l h (below, all, inr later) = (below, (omega arith, all), inr (inr later))

pub min_seq_of-IsLeast : (start : ℕ) (l : List Message) → IsLeast start l (min_seq_of start l)
unfolding min_seq_of
min_seq_of-IsLeast start [] = (omega arith, tt, inl refl)
min_seq_of-IsLeast start (m ∷ l) =
    if_cases (λ k. IsLeast start (m ∷ l) (min_seq_of k l)) (ltb m.seq_num start) m.seq_num start
      (λ less. lower start _ m l (ltb→lt m.seq_num start less) (min_seq_of-IsLeast m.seq_num l))
      (λ more. higher start _ m l (ground arith) (min_seq_of-IsLeast start l))

-- The socket after the callback.
abbrev pub least_of : ConnectedSocket → ℕ
least_of c = min_seq_of min_seq_start c.packages

abbrev pub advance : ConnectedSocket → ConnectedSocket
advance c = record c {
  min_seq = least_of c;
  packages = c.packages ++ going (least_of c) c.pending_packages;
  pending_packages = staying (least_of c) c.pending_packages;
}

module _ (sends : Output → Bool) where
  messages-notify :
      (out : Output) (sent : List Output)
      → messages (out ∷ sent) ≡ messages sent
      → messages (notify sends out sent) ≡ messages sent
  unfolding notify
  messages-notify out sent e = ground arith

  module _ (clock : List Output → ℕ) where
    abbrev pub Splits : ℕ → ℕ → List Message → Sending → Outcome (List Message × Sending) → Type 0
    Splits fd least l w (done (left, w')) =
        (refused sends fd (going least l) ≡ false)
        × (left ≡ staying least l)
        × (w'.packages ≡ w.packages ++ going least l)
        × (messages w'.sent ≡ posted fd (going least l) (messages w.sent))
        × Goes sends fd (going least l) w.sent w'.sent
    Splits fd least l w (exit code) = (refused sends fd (going least l) ≡ true) × (code ≡ 5)

    skip_Splits :
        (fd least : ℕ) (m : Message) (l : List Message) (w : Sending)
        (o : Outcome (List Message × Sending))
        → ltb m.seq_num (least + max_buffer_packages) ≡ false
        → Splits fd least l w o
        → Splits fd least (m ∷ l) w (o >>= (λ (left, w'). done (m ∷ left, w')))
    unfolding going staying
    skip_Splits fd least m l w (done (left, w')) out h = rw out (h.0, ap (◌∷◌ m) h.1, h.2, h.3, h.4)
    skip_Splits fd least m l w (exit code) out h = rw out h

    step_Splits :
        (fd least : ℕ) (m : Message) (l : List Message) (w : Sending)
        (o : Outcome (List Message × Sending))
        → ltb m.seq_num (least + max_buffer_packages) ≡ true
        → sends (send_message fd m) ≡ true
        → Splits fd least l (transmitted sends clock fd least m w) o
        → Splits fd least (m ∷ l) w o
    unfolding going staying refused posted
    step_Splits fd least m l w (done (left, w')) inside ok h = rw inside (
      rw ok h.0,
      h.1,
      h.2 ∙ append_assoc w.packages (m ∷ []) (going least l),
      h.3 ∙ ap (posted fd (going least l)) logged,
      (timeout w.estimator, h.4),
    )
      where
        logged : messages (transmitted sends clock fd least m w).sent ≡ (fd, m) ∷ messages w.sent
        logged =
            unfold messages in
            messages-notify (start_timer m.session m.seq_num (timeout w.estimator))
              (send_message fd m ∷ w.sent) refl
    step_Splits fd least m l w (exit code) inside ok h = rw (inside, ok) h

    pub send_pending-Splits :
        (fd least : ℕ) (l : List Message) (w : Sending)
        → Splits fd least l w (send_pending sends clock fd least l w)
    unfolding send_pending refused going staying posted
    send_pending-Splits fd least [] w = (refl, refl, sym (append-nil w.packages), refl, refl)
    send_pending-Splits fd least (m ∷ l) w = ground (
      arith,
      skip_Splits fd least m l w (send_pending sends clock fd least l w),
      step_Splits fd least m l w
          (send_pending sends clock fd least l (transmitted sends clock fd least m w)),
      send_pending-Splits fd least l w,
      send_pending-Splits fd least l (transmitted sends clock fd least m w),
    )
