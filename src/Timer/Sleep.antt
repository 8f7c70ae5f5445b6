-- ===== src/Timer/Sleep.antt =====
-- How long the timer process sleeps between two rounds.
use native.Mathlib.Nat.{mod-lt}
use network_proj.Prelude.{
  ℕ, ◌+◌, ◌*◌, ◌/◌, ◌%◌, ◌≤◌, ◌<◌, ◌≡◌, refl, List, ◌∷◌, Option, some, true, arith,
}
use network_proj.Prelude.Int.{ℤ, pos, negsuc, ltb_ℤ}
use network_proj.Timer.{TimerNode, sleep_time}
use network_proj.Timer.Callbacks.{HeadRuns}

-- The units in some seconds and microseconds.
abbrev pub units : ℕ → ℕ × ℕ → ℕ
units micro (sec, usec) = sec * (micro * 1000000) + usec * micro

-- With a first timer that has `r` units left, the sleep is the whole number of microseconds just
-- below: it never goes past the timer, it falls short of it by less than a microsecond, and the
-- microseconds make less than a second.
pub record Sleeps (micro r : ℕ) (result : Option (ℕ × ℕ)) : Type 0 where
  pub time : ℕ × ℕ
  pub answers : result ≡ some time
  pub not_late : units micro time ≤ r
  pub close : r < units micro time + micro
  pub normal : time.1 < 1000000

below_second : (micro r : ℕ) → 0 < micro → r % (micro * 1000000) / micro < 1000000
below_second micro r h = grind (arith, mod-lt r {m = micro * 1000000})

split_time :
    (micro r : ℕ)
    → 0 < micro
    → Sleeps micro r (some (r / (micro * 1000000), r % (micro * 1000000) / micro))
split_time micro r h = record {
  time = (r / (micro * 1000000), r % (micro * 1000000) / micro);
  answers = refl;
  not_late = grind arith;
  close = grind arith;
  normal = below_second micro r h;
}

sleep_at :
    (micro : ℕ) (n : TimerNode) (l : List TimerNode) (z : ℤ)
    → 0 < micro
    → n.remain ≡ z
    → ltb_ℤ (pos 0) n.remain ≡ true
    → (r : ℕ) × (n.remain ≡ pos r) × Sleeps micro r (sleep_time micro (n ∷ l))
unfolding sleep_time
sleep_at micro n l (pos r) h e runs = (r, e, rw (e, sleep_time) (split_time micro r h))
sleep_at micro n l (negsuc r) h e runs = absurd (ground arith)

-- A process whose first timer has time left, as after every round, computes a sleep that ends with
-- that timer, to within a microsecond and not after it, if a microsecond is at least one unit of
-- time.
pub sleep_time-Sleeps :
    (micro : ℕ) (n : TimerNode) (l : List TimerNode)
    → 0 < micro
    → HeadRuns (n ∷ l)
    → (r : ℕ) × (n.remain ≡ pos r) × Sleeps micro r (sleep_time micro (n ∷ l))
sleep_time-Sleeps micro n l h runs = sleep_at micro n l n.remain h refl runs
