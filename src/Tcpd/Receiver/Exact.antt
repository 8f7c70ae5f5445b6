-- ===== src/Tcpd/Receiver/Exact.antt =====
-- Where every request ends with a package, the `while` of `SolveRecvCallback` never cuts one, and the
-- bytes of the session arrive whole.
use mathlib.Core.List.{append_assoc, append-nil}
use network_proj.Prelude.{
  ℕ, zero, suc, ◌+◌, ◌-◌, ◌%◌, ◌^◌, ◌≤◌, ◌<◌, ◌≡◌, ◌⊎◌, inl, inr, refl, sym, ap, ap₂, ◌∙◌, subst,
  false, ltb, leb, dec_lt, ◌==◌, if_cases, List, [], ◌∷◌, ◌++◌, All, length, arith, length-append,
}
use network_proj.Tcpd.Message.{Message}
use network_proj.Tcpd.State.{AcceptedSocket}
use network_proj.Tcpd.Receiver.{fill, fill_buffer, has_seq, store_package, total_len, consume}
use network_proj.Tcpd.Receiver.Stream.{insert_package-All}
use network_proj.Tcpd.Receiver.Fill.{payload, length-payload}
use network_proj.Tcpd.Stream.{stream, Promise}

-- A package of the session with all its bytes.
abbrev pub Holds : (ℕ → List ℕ) → ℕ → Message → Type 0
Holds source limit m =
    (m.seq_num < limit) × (m.len ≤ length m.body) × (payload m ≡ source m.seq_num)

-- A request of `len` bytes by readers that have been sent `d` ends where a package ends.
abbrev pub EndsPackage : (ℕ → List ℕ) → List ℕ → ℕ → Type 0
EndsPackage source d len = (n : ℕ) × (length d + len ≡ length (stream source n))

pub record Exact (source : ℕ → List ℕ) (limit : ℕ) (d : List ℕ) (s : AcceptedSocket) : Type 0 where
  pub carried : All (Holds source limit) s.packages
  pub below : s.base ≤ limit
  pub received : d ++ s.recv_buffer ≡ stream source s.base
  pub request : (s.receiving_length ≡ 0) ⊎ EndsPackage source d s.receiving_length

module _ (source : ℕ → List ℕ) where
  length-stream_add : (n d : ℕ) → length (stream source n) ≤ length (stream source (d + n))
  length-stream_add n zero = let same : 0 + n ≡ n = omega arith in rw same (omega arith)
  length-stream_add n (suc d) =
      let more : suc d + n ≡ suc (d + n) = omega arith in
      rw more (
        omega
          (arith, length-stream_add n d, length-append (stream source (d + n)) (source (d + n))))

  length-stream_mono : (n m : ℕ) → n ≤ m → length (stream source n) ≤ length (stream source m)
  length-stream_mono n m h =
      let sum : m - n + n ≡ m = omega arith in
      subst (λ x. length (stream source n) ≤ length (stream source x)) sum
        (length-stream_add n (m - n))

  -- A stream that is longer has the next package too.
  next_package :
      (b n : ℕ)
      → length (stream source b) < length (stream source n)
      → length (stream source b) + length (source b) ≤ length (stream source n)
  next_package b n h = elim (dec_lt b n) [
    | yes less ↦ omega (
      arith,
      length-append (stream source b) (source b),
      length-stream_mono (suc b) n (omega arith),
    )
    | no not_less ↦ absurd (omega (arith, length-stream_mono n b (omega arith)))
  ]

  module _ (limit : ℕ) (wide : limit < 2 ^ 32) (d : List ℕ) where
    -- The next package fits what is left of the request.
    package_fits :
        (m : Message) (s : AcceptedSocket)
        → Holds source limit m
        → m.seq_num ≡ s.base
        → length s.recv_buffer < s.receiving_length
        → d ++ s.recv_buffer ≡ stream source s.base
        → EndsPackage source d s.receiving_length
        → length s.recv_buffer + m.len ≤ s.receiving_length
    package_fits m s c due open_ received (n, e) = omega (
      arith,
      e,
      length-append d s.recv_buffer,
      ap length received,
      ap length (c.2 ∙ ap source due),
      length-payload m c.1,
      next_package s.base n (omega (arith, e, length-append d s.recv_buffer, ap length received)),
    )

    consume-Exact :
        (m : Message) (rest : List Message) (s : AcceptedSocket)
        → s.packages ≡ m ∷ rest
        → m.seq_num ≡ s.base
        → Exact source limit d s
        → Exact source limit d (consume m rest s)
    consume-Exact m rest s e due h = record {
      carried = carried.1;
      below = omega (arith, carried.0);
      received =
          sym (append_assoc d s.recv_buffer (payload m))
          ∙ ap₂ (◌++◌) h.received (carried.0.2 ∙ ap source due)
          ∙ ap (stream source) next;
      request = h.request;
    }
      where
        carried : All (Holds source limit) (m ∷ rest)
        carried = subst (All (Holds source limit)) e h.carried

        next : suc s.base ≡ (s.base + 1) % 2 ^ 32
        next = omega (arith, carried.0)

    fill-Exact :
        (f : ℕ) (ps : List Message) (s : AcceptedSocket)
        → s.packages ≡ ps
        → Exact source limit d s
        → Exact source limit d (fill f ps s)
    unfolding fill
    fill-Exact zero ps s e h = h
    fill-Exact (suc f) [] s e h = h
    fill-Exact (suc f) (m ∷ rest) s e h =
        if_cases (Exact source limit d) (ltb (length s.recv_buffer) s.receiving_length) _ s
          (λ open_.
            if_cases (Exact source limit d) (m.seq_num == s.base) _ s
              (λ due.
                if_cases (Exact source limit d)
                  (leb (length s.recv_buffer + m.len) s.receiving_length) taken _
                  (λ fits.
                    fill-Exact f rest (consume m rest s) refl
                      (consume-Exact m rest s e (ground arith) h))
                  (λ over. absurd (never (ground arith) (ground arith) over h.request)))
              (λ later. h))
          (λ full. h)
      where
        taken : AcceptedSocket
        taken = fill f rest (consume m rest s)

        carried : All (Holds source limit) (m ∷ rest)
        carried = subst (All (Holds source limit)) e h.carried

        never :
            length s.recv_buffer < s.receiving_length
            → m.seq_num ≡ s.base
            → leb (length s.recv_buffer + m.len) s.receiving_length ≡ false
            → (s.receiving_length ≡ 0) ⊎ EndsPackage source d s.receiving_length
            → ⊥
        never open_ due over (inl idle) = omega arith
        never open_ due over (inr ends) =
            ground (arith, package_fits m s carried.0 due open_ h.received ends)

  module _ (limit : ℕ) where
    store_package-Exact :
        (d : List ℕ) (m : Message) (s : AcceptedSocket)
        → Holds source limit m
        → Exact source limit d s
        → Exact source limit d (store_package m s)
    unfolding store_package
    store_package-Exact d m s c h =
        if_cases (Exact source limit d) (ltb m.seq_num s.base) s _ (λ old. h)
          (λ new.
            if_cases (Exact source limit d) (has_seq m.seq_num s.packages) s _ (λ again. h)
              (λ first. record {
                carried = insert_package-All (Holds source limit) m s.packages c h.carried;
                below = h.below;
                received = h.received;
                request = h.request;
              }))

    pub Exact-Promise :
        limit < 2 ^ 32 → Promise (Exact source limit) (Holds source limit) (EndsPackage source)
    unfolding fill_buffer
    Exact-Promise wide = record {
      fresh = λ fd session. record {
        carried = tt;
        below = omega arith;
        received = refl;
        request = inl refl;
      };
      stored = store_package-Exact;
      filled = λ d s h. fill-Exact limit wide d (total_len s.packages + 1) s.packages s refl h;
      answered = λ d s full h. record {
        carried = h.carried;
        below = h.below;
        received = append-nil (d ++ s.recv_buffer) ∙ h.received;
        request = inl refl;
      };
      asking = λ d s from len wanted free h. record {
        carried = h.carried;
        below = h.below;
        received = h.received;
        request = inr wanted;
      };
    }
