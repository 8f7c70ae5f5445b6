-- ===== src/Tcpd/Rto.antt =====
-- Proj1/tcpd.c, the estimate of the round trip by Jacobson's algorithm. A `double` of seconds is
-- kept exactly: the estimates are whole numbers over 8 ^ exp, in microseconds, since every update
-- divides by 8 or by 4. Rounding of `double` is not modelled.
pub mod History
use network_proj.Prelude.{ℕ, ◌+◌, ◌-◌, ◌*◌, ◌/◌, ◌^◌, leb, if◌then◌else◌}

-- `SendTime`, `ElapsedSeconds`, `EstimatedRTTprev` and `EstimatedDEVprev`.
pub record Estimator : Type 0 where
  pub send_time : ℕ
  pub elapsed : ℕ
  pub rtt : ℕ
  pub dev : ℕ
  pub exp : ℕ

-- A time of `num / 8 ^ exp` microseconds.
pub record Rto : Type 0 where
  pub num : ℕ
  pub exp : ℕ

-- 0.01 seconds, the start value of both estimates.
abbrev pub initial_estimate : ℕ
initial_estimate = 10000

abbrev pub initial_estimator : Estimator
initial_estimator = record {
  send_time = 0;
  elapsed = 0;
  rtt = initial_estimate;
  dev = initial_estimate;
  exp = 0;
}

abbrev pub distance : ℕ → ℕ → ℕ
distance a b = if leb a b then b - a else a - b

-- `RecvAck`: the time between the last sending and this acknowledgement, without its sign.
unfoldable pub measure : ℕ → Estimator → Estimator
measure ack_time e = record e { elapsed = distance e.send_time ack_time }

-- `if(ElapsedSeconds<=0) ElapsedSeconds=.01`
abbrev pub sample : Estimator → ℕ
sample e = if leb e.elapsed 0 then initial_estimate else e.elapsed

-- `abs(ElapsedSeconds-EstimatedRTTprev)`: `abs` is the function on `int`, so the difference is cut
-- to whole seconds.
abbrev pub deviation_seconds : Estimator → ℕ
deviation_seconds e = distance (sample e * 8 ^ e.exp) e.rtt / (8 ^ e.exp * 1000000)

-- `EstimatedRTO=EstimatedRTTprev+4*EstimatedDEVprev`
unfoldable pub timeout : Estimator → Rto
timeout e = record { num = e.rtt + 4 * e.dev; exp = e.exp }

-- The update of `SolveSendCallback`, after a sending at `send_time`.
unfoldable pub estimate : ℕ → Estimator → Estimator
estimate send_time e = record {
  send_time = send_time;
  elapsed = sample e;
  rtt = 7 * e.rtt + sample e * 8 ^ e.exp;
  dev = 6 * e.dev + 2 * (deviation_seconds e * 1000000) * 8 ^ e.exp;
  exp = e.exp + 1;
}
