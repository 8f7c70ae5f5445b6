-- ===== src/Ftp/Stuck.antt =====
-- Where the client's loop does not end.
use network_proj.Prelude.{
  ℕ, zero, suc, ◌-◌, ◌≤◌, ◌<◌, ◌≡◌, refl, ap, Bool, true, List, ltb, if◌then◌else◌, arith, length,
  take, drop, length-take, length-drop,
}
use network_proj.Tcpd.Message.{buf_len}
use network_proj.Ftp.{unfinished, after, read_now, send_loop}

all_read : (left r : ℕ) → r ≤ left → (if ltb left r then left else r) ≡ r
all_read left r h = ground arith

stuck_round :
    (left : ℕ) (file : List ℕ)
    → length file < left
    → length (drop buf_len file) < left - length (read_now left file)
stuck_round left file short = omega (
  arith,
  ap (λ n. length (take n file)) (all_read left r (omega (arith, length-take buf_len file))),
  length-take r file,
  length-take buf_len file,
  length-drop buf_len file,
)
  where
    r : ℕ
    r = length (take buf_len file)

-- A file that is shorter than `stat` has reported keeps the client in its loop for ever, if every
-- SEND succeeds: at the end of the file it goes on to send packages without a byte.
pub send_loop_stuck :
    (sends : List ℕ → Bool) (fuel left : ℕ) (file : List ℕ)
    → ((l : List ℕ) → sends l ≡ true)
    → length file < left
    → send_loop sends fuel left file ≡ unfinished
unfolding send_loop
send_loop_stuck sends fuel zero file ok short = absurd (omega arith)
send_loop_stuck sends zero (suc left) file ok short = refl
send_loop_stuck sends (suc fuel) (suc left) file ok short = rw (ok (read_now (suc left) file)) (
    ap (after (read_now (suc left) file)) (
      send_loop_stuck sends fuel (suc left - length (read_now (suc left) file)) (drop buf_len file)
        ok (stuck_round (suc left) file short)))
