-- ===== src/Ftp/Service.antt =====
-- RECV as Proj1/tcpd.c serves it on a connection whose packages have come: `tcpd_RECV` registers the
-- request, and `SolveRecvCallback` answers it. Every `sendto` succeeds.
use network_proj.Prelude.{
  ℕ, ◌+◌, ◌≤◌, ◌<◌, ◌^◌, ◌≡◌, refl, sym, ap, ◌∙◌, subst, true, false, List, [], ◌∷◌, ◌++◌, ◌==◌,
  if◌then◌else◌, arith, length, take, take-length, length-append,
}
use mathlib.Core.List.{append-nil}
use network_proj.Net.{Addr, Outcome, done}
use network_proj.Tcpd.Message.{Message, bytes}
use network_proj.Tcpd.State.{AcceptedSocket, Output, reply_bytes}
use network_proj.Tcpd.Front.{minus}
use network_proj.Tcpd.Receiver.{recv_callback}
use network_proj.Tcpd.Receiver.Fill.{payload}
use network_proj.Tcpd.Receiver.Deliver.{Answered, recv_callback_delivers}
use network_proj.Ftp.{Received, returned, waits}

-- What `recvfrom` in RECV makes of the daemon's answer.
abbrev pub answered : ℕ → Outcome (AcceptedSocket × List Output) → Received AcceptedSocket
answered n (done (s, reply_bytes a b ∷ sent)) = returned (take n b) s
answered n _ = waits

module _ (here : Addr) where
  abbrev pub asked : ℕ → AcceptedSocket → AcceptedSocket
  asked n s = record s { receiving_length = n; receiving_addr = here }

  unfoldable pub daemon_recv : ℕ → AcceptedSocket → Received AcceptedSocket
  daemon_recv n s =
      if n == 0
      then returned (take n (bytes 4 0)) s
      else if s.receiving_length == 0
      then answered n (recv_callback (λ o. true) (asked n s) [])
      else returned (take n (bytes 4 (minus 3))) s

  -- Packages with numbers from `base` on that carry these bytes.
  abbrev pub Brings : ℕ → List (List ℕ) → List Message → Type 0
  Brings base [] [] = Unit {0}
  Brings base [] (m ∷ ms) = ⊥
  Brings base (chunk ∷ chunks) [] = ⊥
  Brings base (chunk ∷ chunks) (m ∷ ms) =
      ((m.seq_num ≡ base) × (0 < m.len) × (m.len ≤ length m.body) × (payload m ≡ chunk))
      × Brings (base + 1) chunks ms

  -- These bytes are what a connection holds, and no request is open.
  pub record Ready (chunks : List (List ℕ)) (s : AcceptedSocket) : Type 0 where
    pub brings : Brings s.base chunks s.packages
    pub below : s.base + length chunks < 2 ^ 32
    pub buffer : s.recv_buffer ≡ []
    pub wanted : s.receiving_length ≡ 0

  nonzero : (n : ℕ) → 0 < n → (n == 0) ≡ false
  nonzero n h = ground arith

  -- A request of exactly the next bytes is answered with them.
  pub record Next (n : ℕ) (chunk : List ℕ) (chunks : List (List ℕ)) (s : AcceptedSocket)
      : Type 0 where
    pub after : AcceptedSocket
    pub returns : daemon_recv n s ≡ returned chunk after
    pub ready : Ready chunks after

  passed_on :
      (n : ℕ) (chunk : List ℕ) (chunks : List (List ℕ)) (m : Message) (rest : List Message)
      (s : AcceptedSocket)
      → s.packages ≡ m ∷ rest
      → Brings s.base (chunk ∷ chunks) (m ∷ rest)
      → s.base + length (chunk ∷ chunks) < 2 ^ 32
      → s.recv_buffer ≡ []
      → s.receiving_length ≡ 0
      → n ≡ length chunk
      → 0 < n
      → Answered here chunk
          (s.base + 1)
          rest
          (λ o. true)
          []
          (recv_callback (λ o. true) (asked n s) [])
      → Next n chunk chunks s
  unfolding daemon_recv
  passed_on n chunk chunks m rest s e b below empty idle size some_left a = record {
    after = a.after;
    returns =
        rw (nonzero n some_left, idle, a.answers)
          (ap (λ c. returned c a.after)
            (subst (λ k. take k chunk ≡ chunk) (sym size) (take-length chunk)));
    ready = record {
      brings =
          subst (λ k. Brings k chunks a.after.packages) (sym a.base)
            (subst (λ p. Brings (s.base + 1) chunks p) (sym a.packages) b.1);
      below = omega (below, a.base, arith);
      buffer = a.buffer;
      wanted = a.wanted;
    };
  }

  delivered :
      (n : ℕ) (chunk : List ℕ) (chunks : List (List ℕ)) (m : Message) (rest : List Message)
      (s : AcceptedSocket)
      → s.packages ≡ m ∷ rest
      → Brings s.base (chunk ∷ chunks) (m ∷ rest)
      → s.base + length (chunk ∷ chunks) < 2 ^ 32
      → s.recv_buffer ≡ []
      → n ≡ length chunk
      → 0 < n
      → n ≤ 1000
      → Answered here chunk
          (s.base + 1)
          rest
          (λ o. true)
          []
          (recv_callback (λ o. true) (asked n s) [])
  delivered n chunk chunks m rest s e ((due, pos, sized, carries), b) below empty size some_left
        small =
      let bytes : s.recv_buffer ++ (payload m ++ []) ≡ chunk =
        ap (λ b. b ++ (payload m ++ [])) empty ∙ append-nil (payload m) ∙ carries in
      subst
        (λ b.
          Answered here b (s.base + 1) rest (λ o. true) []
            (recv_callback (λ o. true) (asked n s) []))
        bytes
        (recv_callback_delivers (λ o. true) [] (m ∷ []) rest (asked n s) e (due, pos, sized, tt)
          (omega (below, arith)) some_left small
          (omega (arith, size, ap length bytes, length-append s.recv_buffer (payload m ++ []))))

  -- The request of the next bytes, at most BUF_LEN, is answered with them.
  pub Ready-Next :
      (n : ℕ) (chunk : List ℕ) (chunks : List (List ℕ)) (s : AcceptedSocket)
      → Ready (chunk ∷ chunks) s
      → n ≡ length chunk
      → 0 < n
      → n ≤ 1000
      → Next n chunk chunks s
  Ready-Next n chunk chunks s r size some_left small = at s.packages refl r.brings
    where
      at :
          (ps : List Message)
          → s.packages ≡ ps
          → Brings s.base (chunk ∷ chunks) ps
          → Next n chunk chunks s
      at [] e b = absurd b
      at (m ∷ rest) e b =
          passed_on n chunk chunks m rest s e b r.below r.buffer r.wanted size some_left
            (delivered n chunk chunks m rest s e b r.below r.buffer size some_left small)
