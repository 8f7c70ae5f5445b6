-- ===== src/Timer/Tests.antt =====
-- The timer process on the requests of Proj1/driver.c, in seconds, and the theorems at such inputs.
use network_proj.Prelude.{ℕ, ◌≡◌, refl, Bool, true, List, [], ◌∷◌, if◌then◌else◌, arith}
use network_proj.Prelude.Int.{pos, ◌+ℤ◌, ◌-ℤ◌}
use network_proj.Net.{Addr, done}
use network_proj.Timer.Request.{TimerExpired, send_timer_request, cancel_timer_request}
use network_proj.Timer.{
  TimerNode, TimerState, nothing, request, insert_request, cancel_request, update_timer_list,
  send_callbacks, round, sleep_time, find_node, insert_before, delete_node, transmit, serve,
  serve_and_call, new_node,
}
use network_proj.Timer.Deadlines.{deadlines, is_set, schedule, unset, overdue_now, alarm}
use network_proj.Timer.Insert.{insert_request_refines}
use network_proj.Timer.Cancel.{cancel_request_refines}
use network_proj.Timer.Expiry.{update_timer_list_refines}
use network_proj.Timer.Callbacks.{Called, send_callbacks-Called}
use network_proj.Timer.Round.{Rang, round-Rang, alarms}
use network_proj.Timer.Sleep.{Sleeps, sleep_time-Sleeps}
use network_proj.Timer.Names.{Distinct, round-Distinct}

abbrev driver_addr : Addr
driver_addr = record { family = 2; port = 5000; addr = 1 }

abbrev first : TimerNode
first = record { session = 7; seq_num = 2; remain = pos 10; request_addr = driver_addr }

abbrev second : TimerNode
second = record { session = 7; seq_num = 1; remain = pos 10; request_addr = driver_addr }

abbrev third : TimerNode
third = record { session = 7; seq_num = 3; remain = pos 10; request_addr = driver_addr }

abbrev three_timers : List TimerNode
three_timers = first ∷ second ∷ third ∷ []

abbrev all_sent : Addr × TimerExpired → Bool
all_sent m = true

abbrev at_five : TimerState
at_five = record { last_system_time = pos 5; timer_list = three_timers }

-- StartTimer(1,20); StartTimer(2,10); StartTimer(3,30);
driver_starts :
    (insert_request
      (send_timer_request 7 3 (pos 30))
      driver_addr
      (insert_request
        (send_timer_request 7 2 (pos 10))
        driver_addr
        (insert_request (send_timer_request 7 1 (pos 20)) driver_addr []).1).1).1
    ≡ three_timers
unfolding insert_request send_timer_request find_node insert_before ◌-ℤ◌
driver_starts = refl

cancel_middle :
    cancel_request (cancel_timer_request 7 1) three_timers
    ≡ (0, first ∷ record third { remain = pos 20 } ∷ [])
unfolding cancel_request cancel_timer_request find_node delete_node ◌+ℤ◌
cancel_middle = refl

late_round :
    round all_sent (pos 27) nothing at_five
    ≡ done (
      (driver_addr, record { session = 7; seq_num = 2 })
          ∷ (driver_addr, record { session = 7; seq_num = 1 })
          ∷ [],
      record { last_system_time = pos 27; timer_list = record third { remain = pos 8 } ∷ [] },
    )
unfolding round serve_and_call serve update_timer_list transmit send_callbacks ◌+ℤ◌ ◌-ℤ◌
late_round = refl

insert_request_refines_example :
    let (code, l') = insert_request (send_timer_request 7 4 (pos 20)) driver_addr three_timers in
    (code ≡ (if is_set 7 4 (deadlines (pos 5) three_timers) then 1 else 0))
    × (deadlines (pos 5) l' ≡ (
        if is_set 7 4 (deadlines (pos 5) three_timers)
        then deadlines (pos 5) three_timers
        else schedule
            (alarm (new_node (send_timer_request 7 4 (pos 20)) driver_addr) (pos 5 +ℤ pos 20))
            (deadlines (pos 5) three_timers)))
unfolding send_timer_request
insert_request_refines_example =
    insert_request_refines (pos 5) (send_timer_request 7 4 (pos 20)) driver_addr three_timers

cancel_request_refines_example :
    let (code, l') = cancel_request (cancel_timer_request 7 1) three_timers in
    (code ≡ (if is_set 7 1 (deadlines (pos 5) three_timers) then 0 else 1))
    × (deadlines (pos 5) l' ≡ unset 7 1 (deadlines (pos 5) three_timers))
unfolding cancel_timer_request
cancel_request_refines_example =
    cancel_request_refines (pos 5) (cancel_timer_request 7 1) three_timers

update_timer_list_refines_example :
    deadlines (pos 30) (update_timer_list (pos 25) three_timers)
    ≡ overdue_now (pos 30) (deadlines (pos 30 -ℤ pos 25) three_timers)
update_timer_list_refines_example =
    update_timer_list_refines (pos 30) (pos 25) three_timers (omega arith)

send_callbacks-Called_example :
    Called all_sent
      (pos 5)
      (record first { remain = pos 0 } ∷ second ∷ [])
      (send_callbacks all_sent (record first { remain = pos 0 } ∷ second ∷ []))
send_callbacks-Called_example =
    send_callbacks-Called all_sent (pos 5) (record first { remain = pos 0 } ∷ second ∷ [])
      (omega arith)

round-Rang_example :
    Rang all_sent
      (pos 27)
      (request (cancel_timer_request 7 3) driver_addr)
      at_five
      (round all_sent (pos 27) (request (cancel_timer_request 7 3) driver_addr) at_five)
unfolding cancel_timer_request
round-Rang_example =
    round-Rang all_sent (pos 27) (request (cancel_timer_request 7 3) driver_addr) at_five (λ e. cc)
      (omega arith) (omega arith)

sleep_time-Sleeps_example :
    (r : ℕ) × (first.remain ≡ pos r) × Sleeps 3 r (sleep_time 3 three_timers)
sleep_time-Sleeps_example = sleep_time-Sleeps 3 first (second ∷ third ∷ []) (omega arith) refl

at_five-Distinct : Distinct (alarms at_five)
unfolding deadlines is_set
at_five-Distinct = (refl, (refl, (refl, tt)))

round-Distinct_example : Distinct (
    alarms
      (record { last_system_time = pos 27; timer_list = record third { remain = pos 8 } ∷ [] }))
round-Distinct_example =
    round-Distinct all_sent (pos 27) nothing at_five tt (omega arith) at_five-Distinct late_round
