-- ===== src/Timer/Request.antt =====
-- Proj1/TimerRequest.h and TimerRequest.c: the datagrams between the daemon and the timer process.
use network_proj.Prelude.{ℕ}
use network_proj.Prelude.Int.{ℤ, pos}

abbrev pub timer_request_start : ℕ
timer_request_start = 1

abbrev pub timer_request_cancel : ℕ
timer_request_cancel = 2

-- `struct TimerRequestStruct`
pub record TimerRequest : Type 0 where
  pub type : ℕ
  pub session : ℕ
  pub seq_num : ℕ
  pub seconds : ℤ

-- `struct TimerExpiredStruct`
pub record TimerExpired : Type 0 where
  pub session : ℕ
  pub seq_num : ℕ

-- The datagram of `SendTimerRequest`.
unfoldable pub send_timer_request : ℕ → ℕ → ℤ → TimerRequest
send_timer_request session seq_num seconds = record {
  type = timer_request_start;
  session = session;
  seq_num = seq_num;
  seconds = seconds;
}

-- The datagram of `CancelTimerRequest`.
unfoldable pub cancel_timer_request : ℕ → ℕ → TimerRequest
cancel_timer_request session seq_num = record {
  type = timer_request_cancel;
  session = session;
  seq_num = seq_num;
  seconds = pos 0;
}
