-- ===== src/Tcpd/Receiver/Integrity.antt =====
-- The checksums of packages and acknowledgements, from the sender to the receiver and back.
use network_proj.Prelude.{
  ℕ, ◌≤◌, ◌≡◌, ◌≢◌, refl, sym, ap, ◌∙◌, subst, Bool, true, false, inl, inr, Bool-cases, List, ◌++◌,
  some, arith, length, take, drop, IsBytes, take_append_left, take-length,
}
use network_proj.Net.{Addr, done}
use network_proj.Crc32.{crc32}
use network_proj.Crc32.Burst.{crc32_detects_burst}
use network_proj.Tcpd.Message.{Message, summed, message_check_sum, is_intact}
use network_proj.Tcpd.State.{ConnectedSocket, Tcpd, Output}
use network_proj.Tcpd.Front.{new_message}
use network_proj.Tcpd.Receiver.{recv_data}
use network_proj.Tcpd.Receiver.Fill.{payload}
use network_proj.Tcpd.Receiver.Stored.{Stored}

pub payload-new_message :
    (c : ConnectedSocket) (fresh : Message) (len : ℕ) (buf : List ℕ)
    → len ≡ length buf
    → payload (new_message c fresh len buf) ≡ buf
unfolding new_message
payload-new_message c fresh len buf e =
    take_append_left len (take len buf) (drop len fresh.body) (omega (arith, ap length whole))
    ∙ whole
  where
    whole : take len buf ≡ buf
    whole = subst (λ n. take n buf ≡ buf) (sym e) (take-length buf)

-- A package that was intact and was damaged on its way, within four consecutive bytes after its
-- checksum, is dropped: the state is as before, so nothing is stored and nothing is acknowledged.
pub recv_data_drops :
    (sends : Output → Bool) (fd : ℕ) (remote : Addr) (t : Tcpd) (m damaged : Message)
    (prefix xs ys suffix : List ℕ)
    → is_intact m ≡ true
    → damaged.check_sum ≡ m.check_sum
    → summed m ≡ prefix ++ (xs ++ suffix)
    → summed damaged ≡ prefix ++ (ys ++ suffix)
    → IsBytes prefix
    → IsBytes xs
    → IsBytes ys
    → IsBytes suffix
    → length xs ≡ length ys
    → length xs ≤ 4
    → xs ≢ ys
    → recv_data sends fd (some (damaged, remote)) t ≡ done t
unfolding recv_data
recv_data_drops sends fd remote t m damaged prefix xs ys suffix ok e em ed vp vx vy vs l short
      differ =
    rw garbled refl
  where
    sums : (p : Message) → is_intact p ≡ true → crc32 0 (summed p) ≡ p.check_sum
    sums p h = unfold is_intact message_check_sum in ground arith

    garbled : is_intact damaged ≡ false
    garbled = elim (Bool-cases (is_intact damaged)) [
      | inl passed ↦ absurd (
          crc32_detects_burst 0 prefix xs ys suffix (omega arith) vp vx vy vs l short differ (
            ap (crc32 0) (sym em)
            ∙ sums m ok
            ∙ sym e
            ∙ sym (sums damaged passed)
            ∙ ap (crc32 0) ed))
      | inr dropped ↦ dropped
    ]
