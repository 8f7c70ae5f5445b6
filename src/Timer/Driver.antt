-- ===== src/Timer/Driver.antt =====
-- Proj1/driver.c: the requests of the test program, and its pauses, in seconds.
mod Script
use network_proj.Prelude.{ℕ, List, [], ◌∷◌, true}
use network_proj.Prelude.Int.{ℤ, pos, ◌+ℤ◌}
use network_proj.Net.{Addr, Outcome, done, ◌>>=◌}
use network_proj.Timer.{TimerState, request, round}
use network_proj.Timer.Request.{
  TimerRequest, TimerExpired, send_timer_request, cancel_timer_request,
}

pub data Step : Type 0 where
  sends_request : TimerRequest → Step
  sleeps : ℕ → Step

abbrev pub start_timer : ℕ → ℕ → ℕ → Step
start_timer session seq_num seconds =
    sends_request (send_timer_request session seq_num (pos seconds))

abbrev pub cancel_timer : ℕ → ℕ → Step
cancel_timer session seq_num = sends_request (cancel_timer_request session seq_num)

pub driver_script : ℕ → List Step
driver_script session =
    start_timer session 1 20
    ∷ start_timer session 2 10
    ∷ start_timer session 3 30
    ∷ sleeps 5
    ∷ cancel_timer session 2
    ∷ start_timer session 4 20
    ∷ sleeps 5
    ∷ start_timer session 5 18
    ∷ cancel_timer session 4
    ∷ cancel_timer session 8
    ∷ []

-- The timer process under a script, if every message can be sent: one round for each request, at
-- the time at which it comes.
pub play : Addr → ℤ → List Step → TimerState → Outcome TimerState
play from now [] s = done s
play from now (sends_request r ∷ l) s =
    round (λ m. true) now (request r from) s >>= (λ (sent, s'). play from now l s')
play from now (sleeps seconds ∷ l) s = play from (now +ℤ pos seconds) l s
