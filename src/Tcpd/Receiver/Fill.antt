-- ===== src/Tcpd/Receiver/Fill.antt =====
-- The `while` of `SolveRecvCallback`: that it ends, what it delivers, and where it loses bytes.
use mathlib.Core.List.{append-nil, append_assoc}
use network_proj.Prelude.{
  ℕ, zero, suc, ◌+◌, ◌%◌, ◌^◌, ◌≤◌, ◌<◌, ◌≡◌, ◌≢◌, refl, sym, ◌∙◌, inl, inr, ◌⊎◌, List, [], ◌∷◌,
  ◌++◌, arith, length, take, length-append, length-take,
}
use network_proj.Tcpd.Message.{Message}
use network_proj.Tcpd.State.{AcceptedSocket}
use network_proj.Tcpd.Receiver.{fill, total_len, consume, cut, shorten, room}

-- Fuel above the total length is enough, and more makes no difference.
pub fill_fuel :
    (f g : ℕ) (ps : List Message) (s : AcceptedSocket)
    → total_len ps < f
    → total_len ps < g
    → fill f ps s ≡ fill g ps s
unfolding fill total_len
fill_fuel zero g ps s p q = absurd (omega arith)
fill_fuel (suc f) zero ps s p q = absurd (omega arith)
fill_fuel (suc f) (suc g) [] s p q = refl
fill_fuel (suc f) (suc g) (m ∷ rest) s p q = ground (
  arith,
  fill_fuel f g rest (consume m rest s),
  fill_fuel f g (shorten (room s) m ∷ rest) (cut m rest s),
)

-- The first package, if there is one, does not have the number that is due.
abbrev pub Waits : ℕ → List Message → Type 0
Waits base [] = Unit {0}
Waits base (m ∷ l) = m.seq_num ≢ base

-- The condition of the `while` is false, or one of its two `break`s is reached.
abbrev pub HasStopped : AcceptedSocket → Type 0
HasStopped s = (s.receiving_length ≤ length s.recv_buffer) ⊎ Waits s.base s.packages

pub fill-HasStopped :
    (f : ℕ) (ps : List Message) (s : AcceptedSocket)
    → total_len ps < f
    → s.packages ≡ ps
    → HasStopped (fill f ps s)
unfolding fill total_len
fill-HasStopped zero ps s p e = absurd (omega arith)
fill-HasStopped (suc f) [] s p e = inr (rw e tt)
fill-HasStopped (suc f) (m ∷ rest) s p e = ground (
  arith,
  fill-HasStopped f rest (consume m rest s),
  fill-HasStopped f (shorten (room s) m ∷ rest) (cut m rest s),
)

-- The bytes of a package, and of several.
abbrev pub payload : Message → List ℕ
payload m = take m.len m.body

abbrev pub payloads : List Message → List ℕ
payloads [] = []
payloads (m ∷ l) = payload m ++ payloads l

-- Packages with numbers from `base` on without a gap, each with a body of its length, not empty.
abbrev pub InOrder : ℕ → List Message → Type 0
InOrder base [] = Unit {0}
InOrder base (m ∷ l) =
    (m.seq_num ≡ base) × (0 < m.len) × (m.len ≤ length m.body) × InOrder (base + 1) l

-- What the loop has done when it has taken some packages whole.
pub record Took (taken rest : List Message) (s r : AcceptedSocket) : Type 0 where
  pub base : r.base ≡ s.base + length taken
  pub packages : r.packages ≡ rest
  pub buffer : r.recv_buffer ≡ s.recv_buffer ++ payloads taken
  pub wanted : r.receiving_length ≡ s.receiving_length
  pub address : r.receiving_addr ≡ s.receiving_addr
  pub session : r.session ≡ s.session

fill_stopped :
    (f : ℕ) (ps : List Message) (s : AcceptedSocket)
    → s.packages ≡ ps
    → HasStopped s
    → fill f ps s ≡ s
unfolding fill
fill_stopped zero ps s e stop = refl
fill_stopped (suc f) [] s e stop = refl
fill_stopped (suc f) (m ∷ rest) s e stop = ground arith

fill-consume :
    (f : ℕ) (m : Message) (rest : List Message) (s : AcceptedSocket)
    → length s.recv_buffer < s.receiving_length
    → m.seq_num ≡ s.base
    → length s.recv_buffer + m.len ≤ s.receiving_length
    → fill (suc f) (m ∷ rest) s ≡ fill f rest (consume m rest s)
unfolding fill
fill-consume f m rest s open_ due fits = ground arith

Took-nil : (rest : List Message) (s : AcceptedSocket) → s.packages ≡ rest → Took [] rest s s
Took-nil rest s e = record {
  base = omega arith;
  packages = e;
  buffer = sym (append-nil s.recv_buffer);
  wanted = refl;
  address = refl;
  session = refl;
}

Took-cons :
    (m : Message) (pre rest all : List Message) (s r : AcceptedSocket)
    → s.base + 1 < 2 ^ 32
    → Took pre rest (consume m all s) r
    → Took (m ∷ pre) rest s r
Took-cons m pre rest all s r h t = record {
  base = omega (arith, t.base);
  packages = t.packages;
  buffer = t.buffer ∙ append_assoc s.recv_buffer (payload m) (payloads pre);
  wanted = t.wanted;
  address = t.address;
  session = t.session;
}

pub length-payload : (m : Message) → m.len ≤ length m.body → length (payload m) ≡ m.len
length-payload m h = omega (arith, length-take m.len m.body)

-- The loop takes whole every package that is in order and fits what was asked for, if these fill the
-- request exactly or the next package is not in order: it appends their bytes in order, raises
-- `Base` by their number, and leaves the others as they are.
pub fill-Took :
    (f : ℕ) (pre rest : List Message) (s : AcceptedSocket)
    → total_len (pre ++ rest) < f
    → s.packages ≡ pre ++ rest
    → InOrder s.base pre
    → s.base + length pre < 2 ^ 32
    → length s.recv_buffer + length (payloads pre) ≤ s.receiving_length
    → (s.receiving_length ≡ length s.recv_buffer + length (payloads pre))
      ⊎ Waits (s.base + length pre) rest
    → Took pre rest s (fill f (pre ++ rest) s)
unfolding total_len
fill-Took zero pre rest s p e o h fits stop = absurd (omega arith)
fill-Took (suc f) [] rest s p e o h fits stop =
    rw (fill_stopped (suc f) rest s e (ground arith)) (Took-nil rest s e)
fill-Took (suc f) (m ∷ pre) rest s p e o h fits stop =
    rw
      (fill-consume f m (pre ++ rest) s
        (omega (arith, length-append (payload m) (payloads pre), length-payload m o.2)) o.0
        (omega (arith, length-append (payload m) (payloads pre), length-payload m o.2)))
      (Took-cons m pre rest (pre ++ rest) s _ (omega arith) (
        fill-Took f pre rest (consume m (pre ++ rest) s) (omega arith) refl (rw next o.3)
          (omega arith) (omega (arith, grown, sizes)) (still stop)))
  where
    next : (s.base + 1) % 2 ^ 32 ≡ s.base + 1
    next = omega arith

    grown : length (s.recv_buffer ++ payload m) ≡ length s.recv_buffer + length (payload m)
    grown = length-append s.recv_buffer (payload m)

    sizes : length (payload m ++ payloads pre) ≡ length (payload m) + length (payloads pre)
    sizes = length-append (payload m) (payloads pre)

    still :
        (s.receiving_length ≡ length s.recv_buffer + length (payload m ++ payloads pre))
          ⊎ Waits (s.base + suc (length pre)) rest
        → (s.receiving_length ≡ length (s.recv_buffer ++ payload m) + length (payloads pre))
          ⊎ Waits ((s.base + 1) % 2 ^ 32 + length pre) rest
    still (inl full) = inl (omega (arith, grown, sizes))
    still (inr waits) =
        let moved : (s.base + 1) % 2 ^ 32 + length pre ≡ s.base + suc (length pre) = omega arith in
        inr (rw moved waits)
