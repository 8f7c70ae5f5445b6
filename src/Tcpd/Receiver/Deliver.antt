-- ===== src/Tcpd/Receiver/Deliver.antt =====
-- What `SolveRecvCallback` hands to a process that waits in RECV.
use network_proj.Prelude.{
  ℕ, ◌+◌, ◌^◌, ◌≤◌, ◌<◌, ◌≡◌, refl, ap, ap₂, ◌∙◌, Bool, inl, inr, List, [], ◌∷◌, ◌++◌,
  if◌then◌else◌, arith, length, length-append,
}
use network_proj.Net.{Addr, Outcome, done, exit}
use network_proj.Tcpd.Message.{Message, buf_len}
use network_proj.Tcpd.State.{AcceptedSocket, Output, reply_bytes}
use network_proj.Tcpd.Receiver.{fill_buffer, total_len, recv_callback}
use network_proj.Tcpd.Receiver.Fill.{
  HasStopped, Waits, InOrder, payloads, Took, fill-HasStopped, fill-Took,
}

-- The loop always ends by its condition or by a `break`: the fuel never runs out.
pub fill_buffer-HasStopped : (s : AcceptedSocket) → HasStopped (fill_buffer s)
unfolding fill_buffer
fill_buffer-HasStopped s =
    fill-HasStopped (total_len s.packages + 1) s.packages s (omega arith) refl

fill_buffer-Took :
    (pre rest : List Message) (s : AcceptedSocket)
    → s.packages ≡ pre ++ rest
    → InOrder s.base pre
    → s.base + length pre < 2 ^ 32
    → s.receiving_length ≡ length s.recv_buffer + length (payloads pre)
    → Took pre rest s (fill_buffer s)
unfolding fill_buffer
fill_buffer-Took pre rest s e o h full = simp e (
    fill-Took (total_len (pre ++ rest) + 1) pre rest s (omega arith) e o h (omega arith) (inl full))

-- The process at `address` is sent some bytes, and the packages that made them are gone: `next` is
-- the number that is due, and `rest` are the packages that are left.
pub record Answered (address : Addr) (bytes : List ℕ) (next : ℕ) (rest : List Message)
    (sends : Output → Bool) (sent : List Output) (result : Outcome (AcceptedSocket × List Output))
    : Type 0 where
  pub after : AcceptedSocket
  pub answers : result ≡ (
      if sends (reply_bytes address bytes)
      then done (after, reply_bytes address bytes ∷ sent)
      else exit 4)
  pub base : after.base ≡ next
  pub packages : after.packages ≡ rest
  pub buffer : after.recv_buffer ≡ []
  pub wanted : after.receiving_length ≡ 0

module _ (sends : Output → Bool) (sent : List Output) where
  Took-Answered :
      (pre rest : List Message) (s : AcceptedSocket)
      → 0 < s.receiving_length
      → s.receiving_length ≤ buf_len
      → s.receiving_length ≡ length s.recv_buffer + length (payloads pre)
      → Took pre rest s (fill_buffer s)
      → Answered s.receiving_addr
          (s.recv_buffer ++ payloads pre)
          (s.base + length pre)
          rest
          sends
          sent
          (recv_callback sends s sent)
  unfolding recv_callback
  Took-Answered pre rest s pos small full t = record {
    after = record (fill_buffer s) { recv_buffer = []; receiving_length = 0 };
    answers = ground (
      arith,
      ap₂ reply_bytes t.address t.buffer,
      ap length t.buffer ∙ length-append s.recv_buffer (payloads pre),
    );
    base = t.base;
    packages = t.packages;
    buffer = refl;
    wanted = refl;
  }

  -- A process that waits for as many bytes, at least one and at most BUF_LEN, as the next packages
  -- hold, together with what its buffer holds already, is sent exactly these bytes in order (if
  -- that fails the daemon exits with code 4); the packages are gone, `Base` is past them, and the
  -- request is over. The packages have numbers from `Base` on without a gap, below 2 ^ 32, and are
  -- not empty.
  pub recv_callback_delivers :
      (pre rest : List Message) (s : AcceptedSocket)
      → s.packages ≡ pre ++ rest
      → InOrder s.base pre
      → s.base + length pre < 2 ^ 32
      → 0 < s.receiving_length
      → s.receiving_length ≤ buf_len
      → s.receiving_length ≡ length s.recv_buffer + length (payloads pre)
      → Answered s.receiving_addr
          (s.recv_buffer ++ payloads pre)
          (s.base + length pre)
          rest
          sends
          sent
          (recv_callback sends s sent)
  recv_callback_delivers pre rest s e o h pos small full =
      Took-Answered pre rest s pos small full (fill_buffer-Took pre rest s e o h full)

  -- While the next packages, which have numbers from `Base` on without a gap, below 2 ^ 32, and are
  -- not empty, do not make up a request of at most BUF_LEN bytes, and the package after them is not
  -- the next in order, nothing is sent: their bytes wait in the buffer, and the request stands.
  pub recv_callback_holds :
      (pre rest : List Message) (s : AcceptedSocket)
      → s.packages ≡ pre ++ rest
      → InOrder s.base pre
      → s.base + length pre < 2 ^ 32
      → Waits (s.base + length pre) rest
      → s.receiving_length ≤ buf_len
      → length s.recv_buffer + length (payloads pre) < s.receiving_length
      → (after : AcceptedSocket) × (recv_callback sends s sent ≡ done (after, sent))
        × Took pre rest s after
  unfolding recv_callback
  recv_callback_holds pre rest s e o h waits small short =
      (fill_buffer s, ground (arith, took.wanted, sizes), took)
    where
      took : Took pre rest s (fill_buffer s)
      took =
          unfold fill_buffer in
          simp e (
            fill-Took (total_len (pre ++ rest) + 1) pre rest s (omega arith) e o h (omega arith)
              (inr waits))

      sizes : length (fill_buffer s).recv_buffer ≡ length s.recv_buffer + length (payloads pre)
      sizes = ap length took.buffer ∙ length-append s.recv_buffer (payloads pre)
