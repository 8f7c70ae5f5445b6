-- ===== src/Timer/Driver/Script.antt =====
-- What the script leaves: three timers, due at 20, 28 and 30 seconds, ten seconds after its start.
use network_proj.Prelude.{◌≡◌, refl, [], ◌∷◌}
use network_proj.Prelude.Int.{pos, ◌+ℤ◌, ◌-ℤ◌}
use network_proj.Net.{Addr, done}
use network_proj.Timer.{
  TimerState, find_node, insert_before, insert_request, delete_node, cancel_request, transmit,
  update_timer_list, send_callbacks, serve, serve_and_call, round,
}
use network_proj.Timer.Request.{send_timer_request, cancel_timer_request}
use network_proj.Timer.Driver.{driver_script, play}

abbrev driver_addr : Addr
driver_addr = record { family = 2; port = 5000; addr = 1 }

abbrev started : TimerState
started = record { last_system_time = pos 0; timer_list = [] }

script_leaves_three :
    play driver_addr (pos 0) (driver_script 7) started
    ≡ done (record {
      last_system_time = pos 10;
      timer_list =
          record { session = 7; seq_num = 1; remain = pos 10; request_addr = driver_addr }
          ∷ record { session = 7; seq_num = 5; remain = pos 8; request_addr = driver_addr }
          ∷ record { session = 7; seq_num = 3; remain = pos 2; request_addr = driver_addr }
          ∷ [];
    })
unfolding play driver_script round serve_and_call serve update_timer_list transmit send_callbacks
    insert_request send_timer_request cancel_request cancel_timer_request find_node insert_before
    delete_node ◌+ℤ◌ ◌-ℤ◌
script_leaves_three = refl
