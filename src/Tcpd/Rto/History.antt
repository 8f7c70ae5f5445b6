-- ===== src/Tcpd/Rto/History.antt =====
-- The estimates over a history of acknowledgements and sendings.
use native.Mathlib.Nat.{mul_assoc, pow-suc, mul-le-mul_right, pow-le-pow_right, div-eq_of_lt}
use network_proj.Prelude.{
  ℕ, suc, ◌+◌, ◌*◌, ◌^◌, ◌≤◌, ◌<◌, ◌≡◌, refl, sym, ◌∙◌, ap, List, [], ◌∷◌, arith,
}
use network_proj.Tcpd.Rto.{Estimator, distance, measure, sample, deviation_seconds, estimate}

-- `RecvAck` reads the clock, or `SolveSendCallback` sends a package and reads the clock.
pub data Event : Type 0 where
  acknowledgement : ℕ → Event
  sending : ℕ → Event

abbrev pub history : List Event → Estimator → Estimator
history [] e = e
history (acknowledgement now ∷ l) e = history l (measure now e)
history (sending now ∷ l) e = history l (estimate now e)

abbrev pub sendings : List Event → ℕ
sendings [] = 0
sendings (acknowledgement now ∷ l) = sendings l
sendings (sending now ∷ l) = suc (sendings l)

-- Every acknowledgement comes within a second of the sending before it.
abbrev pub Quick : ℕ → List Event → Type 0
Quick sent [] = Unit {0}
Quick sent (acknowledgement now ∷ l) = (distance sent now < 1000000) × Quick sent l
Quick sent (sending now ∷ l) = Quick now l

pow_next : (n : ℕ) → 8 ^ (n + 1) ≡ 8 ^ n * 8
pow_next n = let next : n + 1 ≡ suc n = omega arith in ap (λ k. 8 ^ k) next ∙ pow-suc 8 n

-- The estimated round trip lies between two times.
abbrev pub Between : ℕ → ℕ → Estimator → Type 0
Between lo hi e = (lo * 8 ^ e.exp ≤ e.rtt) × (e.rtt ≤ hi * 8 ^ e.exp)

-- The estimated round trip is a weighted mean: after a sending it lies between any two times
-- between which it and the measured one lie.
estimate-Between :
    (lo hi send_time : ℕ) (e : Estimator)
    → lo ≤ sample e
    → sample e ≤ hi
    → Between lo hi e
    → Between lo hi (estimate send_time e)
unfolding estimate
estimate-Between lo hi send_time e above below b =
    (omega (arith, lower, scale lo, b.0), omega (arith, upper, scale hi, b.1))
  where
    lower : lo * 8 ^ e.exp ≤ sample e * 8 ^ e.exp
    lower = mul-le-mul_right (8 ^ e.exp) above

    upper : sample e * 8 ^ e.exp ≤ hi * 8 ^ e.exp
    upper = mul-le-mul_right (8 ^ e.exp) below

    scale : (x : ℕ) → x * 8 ^ (e.exp + 1) ≡ 8 * (x * 8 ^ e.exp)
    scale x = ap (λ (t : ℕ). x * t) (pow_next e.exp) ∙ grind arith

distance_lt : (a b n : ℕ) → a < n → b < n → distance a b < n
distance_lt a b n h k = ground arith

-- Two times below one second differ by less than one second, which `abs` cuts to 0.
deviation_small :
    (e : Estimator) → e.elapsed < 1000000 → Between 0 999999 e → deviation_seconds e ≡ 0
deviation_small e quick b = div-eq_of_lt (
    distance_lt (sample e * 8 ^ e.exp) e.rtt (8 ^ e.exp * 1000000) (omega (arith, near, some_power))
      (omega (arith, some_power, b.1)))
  where
    below : sample e ≤ 999999
    below = ground arith

    near : sample e * 8 ^ e.exp ≤ 999999 * 8 ^ e.exp
    near = mul-le-mul_right (8 ^ e.exp) below

    some_power : 8 ^ 0 ≤ 8 ^ e.exp
    some_power = pow-le-pow_right (omega arith) {i = 0} {j = e.exp} (omega arith)

sample_lt : (e : Estimator) → e.elapsed < 1000000 → sample e < 1000000
sample_lt e small = ground arith

estimate_small :
    (now : ℕ) (e : Estimator)
    → e.elapsed < 1000000
    → Between 0 999999 e
    → Between 0 999999 (estimate now e)
estimate_small now e small b =
    estimate-Between 0 999999 now e (omega arith) (omega (arith, sample_lt e small)) b

-- What the estimates of `r` are, some sendings after `e`.
abbrev pub Forgets : ℕ → Estimator → Estimator → Type 0
Forgets n e r = (r.exp ≡ e.exp + n) × (r.dev ≡ 6 ^ n * e.dev) × Between 0 999999 r

Forgets-again :
    (l : List Event) (now : ℕ) (e : Estimator)
    → e.elapsed < 1000000
    → Between 0 999999 e
    → Forgets (sendings l) (estimate now e) (history l (estimate now e))
    → Forgets (suc (sendings l)) e (history l (estimate now e))
Forgets-again l now e small b f = (omega (arith, step.0, f.0), f.1 ∙ dev, f.2)
  where
    step : ((estimate now e).exp ≡ e.exp + 1) × ((estimate now e).dev ≡ 6 * e.dev)
    step = unfold estimate in (refl, ground (arith, deviation_small e small b))

    dev : 6 ^ sendings l * (estimate now e).dev ≡ 6 ^ suc (sendings l) * e.dev
    dev =
        ap (λ (d : ℕ). 6 ^ sendings l * d) step.1
        ∙ sym (mul_assoc (6 ^ sendings l) 6 e.dev)
        ∙ ap (λ (p : ℕ). p * e.dev) (sym (pow-suc 6 (sendings l)))

-- While every acknowledgement comes within a second of the sending before it, the measured round
-- trips have no effect on the deviation, if the estimate and the last measured time are below a
-- second at the start: each sending multiplies it by 6, and the power of 8 under it by 8, so by 3/4
-- in all, whatever they are. The estimated round trip stays below a second.
pub history-Forgets :
    (l : List Event) (e : Estimator)
    → Quick e.send_time l
    → e.elapsed < 1000000
    → Between 0 999999 e
    → Forgets (sendings l) e (history l e)
unfolding measure estimate
history-Forgets [] e q small b = (omega arith, omega arith, b)
history-Forgets (acknowledgement now ∷ l) e q small b = history-Forgets l (measure now e) q.1 q.0 b
history-Forgets (sending now ∷ l) e q small b =
    Forgets-again l now e small b
      (history-Forgets l (estimate now e) q (sample_lt e small) (estimate_small now e small b))
